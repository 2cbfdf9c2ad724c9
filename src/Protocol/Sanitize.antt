-- ===== src/Protocol/Sanitize.antt =====
-- src/protocol.cpp, what `sanitizeText` guarantees of its result.
use harbour_localsend.Common.{
  ℕ, zero, suc, ◌≤◌, ◌<◌, ◌≡◌, ◌≢◌, refl, arith, false, [], ◌∷◌, length, All, Text, ap,
}
use harbour_localsend.Platform.{Platform}
use harbour_localsend.Protocol.{is_stripped, strip, trim_start, trim_end, trimmed, sanitize_text}

-- A code unit that is none of those which Unicode gives to controls, to bidirectional
-- embeddings, overrides and isolates, to the zero-width space, joiner and non-joiner and the
-- byte-order mark, and no angle bracket.
pub record IsHarmless (c : ℕ) : Type 0 where
  pub not_low_control : 0x20 ≤ c
  pub not_delete : c ≢ 0x7f
  pub not_high_control : 0x80 ≤ c → 0x9f < c
  pub not_override : 0x202a ≤ c → 0x202e < c
  pub not_isolate : 0x2066 ≤ c → 0x2069 < c
  pub not_zero_width_space : c ≢ 0x200b
  pub not_non_joiner : c ≢ 0x200c
  pub not_joiner : c ≢ 0x200d
  pub not_byte_order_mark : c ≢ 0xfeff
  pub not_open_bracket : c ≢ b'<'
  pub not_close_bracket : c ≢ b'>'

abbrev pub IsClean : Text → Type 0
IsClean = All IsHarmless

-- What the loop tests of each character.
abbrev pub IsKept : Text → Type 0
IsKept = All (λ c. is_stripped c ≡ false)

kept-IsHarmless : (c : ℕ) → is_stripped c ≡ false → IsHarmless c
unfolding is_stripped
kept-IsHarmless c h = record {
  not_low_control = ground arith;
  not_delete = ground arith;
  not_high_control = ground arith;
  not_override = ground arith;
  not_isolate = ground arith;
  not_zero_width_space = ground arith;
  not_non_joiner = ground arith;
  not_joiner = ground arith;
  not_byte_order_mark = ground arith;
  not_open_bracket = ground arith;
  not_close_bracket = ground arith;
}

pub kept-IsClean : (t : Text) → IsKept t → IsClean t
kept-IsClean [] h = tt
kept-IsClean (c ∷ t) h = (kept-IsHarmless c h.0, kept-IsClean t h.1)

strip-IsKept : (room : ℕ) (t : Text) → IsKept (strip room t)
unfolding strip
strip-IsKept room [] = tt
strip-IsKept zero (c ∷ t) = tt
strip-IsKept (suc room) (c ∷ t) = ground (arith, strip-IsKept (suc room) t, strip-IsKept room t)

length-strip : (room : ℕ) (t : Text) → length (strip room t) ≤ room
unfolding strip
length-strip room [] = omega arith
length-strip zero (c ∷ t) = omega arith
length-strip (suc room) (c ∷ t) = ground (arith, length-strip (suc room) t, length-strip room t)

strip_clean : (room : ℕ) (t : Text) → IsKept t → length t ≤ room → strip room t ≡ t
unfolding strip
strip_clean room [] h l = refl
strip_clean zero (c ∷ t) h l = absurd (omega arith)
strip_clean (suc room) (c ∷ t) h l =
    rw (h.0, strip) (ap (◌∷◌ c) (strip_clean room t h.1 (omega arith)))

module _ (q : Platform) where
  open q use {is_space}

  pub trim_start-All : (P : ℕ → Type 0) (t : Text) → All P t → All P (trim_start q t)
  unfolding trim_start
  trim_start-All P [] h = tt
  trim_start-All P (c ∷ t) h = ground (arith, trim_start-All P t h.1)

  pub trim_end-All : (P : ℕ → Type 0) (t : Text) → All P t → All P (trim_end q t)
  unfolding trim_end
  trim_end-All P [] h = tt
  trim_end-All P (c ∷ t) h = ground (arith, trim_end-All P t h.1)

  length-trim_start : (t : Text) → length (trim_start q t) ≤ length t
  unfolding trim_start
  length-trim_start [] = omega arith
  length-trim_start (c ∷ t) = ground (arith, length-trim_start t)

  length-trim_end : (t : Text) → length (trim_end q t) ≤ length t
  unfolding trim_end
  length-trim_end [] = omega arith
  length-trim_end (c ∷ t) = ground (arith, length-trim_end t)

  trim_end_idem : (t : Text) → trim_end q (trim_end q t) ≡ trim_end q t
  unfolding trim_end
  trim_end_idem [] = refl
  trim_end_idem (c ∷ t) = ground (arith, trim_end_idem t)

  -- No leading space: what trim_start leaves is a fixed point of it.
  abbrev Starts : Text → Type 0
  Starts [] = Unit
  Starts (c ∷ t) = is_space c ≡ false

  Starts-trim_start : (t : Text) → Starts (trim_start q t)
  unfolding trim_start
  Starts-trim_start [] = tt
  Starts-trim_start (c ∷ t) = ground (arith, Starts-trim_start t)

  trim_start-Starts_eq : (t : Text) → Starts t → trim_start q t ≡ t
  unfolding trim_start
  trim_start-Starts_eq [] h = refl
  trim_start-Starts_eq (c ∷ t) h = rw h

  Starts-trim_end : (t : Text) → Starts t → Starts (trim_end q t)
  unfolding trim_end
  Starts-trim_end [] h = tt
  Starts-trim_end (c ∷ t) h = ground arith

  trimmed_idem : (t : Text) → trimmed q (trimmed q t) ≡ trimmed q t
  unfolding trimmed
  trimmed_idem t =
      rw (trim_start-Starts_eq _ (Starts-trim_end _ (Starts-trim_start t)))
        (trim_end_idem (trim_start q t))

  pub sanitize_text-IsKept : (t : Text) (max_length : ℕ) → IsKept (sanitize_text q t max_length)
  unfolding sanitize_text trimmed
  sanitize_text-IsKept t n = trim_end-All _ _ (trim_start-All _ _ (strip-IsKept n t))

  -- The result holds no control character (below U+0020, U+007F, U+0080 to U+009F), none of the
  -- bidirectional characters U+202A to U+202E and U+2066 to U+2069, none of the invisible
  -- characters U+200B, U+200C, U+200D and U+FEFF, and no angle bracket.
  pub sanitize_text-IsClean : (t : Text) (max_length : ℕ) → IsClean (sanitize_text q t max_length)
  sanitize_text-IsClean t n = kept-IsClean (sanitize_text q t n) (sanitize_text-IsKept t n)

  -- The result is no longer than the limit.
  pub length-sanitize_text :
      (t : Text) (max_length : ℕ) → length (sanitize_text q t max_length) ≤ max_length
  unfolding sanitize_text trimmed
  length-sanitize_text t n = omega (
    arith,
    length-trim_end (trim_start q (strip n t)),
    length-trim_start (strip n t),
    length-strip n t,
  )

  -- A text of characters that the loop keeps, within the limit and has no spaces at its ends is left as it is.
  pub sanitize_text_clean :
      (t : Text) (max_length : ℕ)
      → IsKept t
      → length t ≤ max_length
      → trimmed q t ≡ t
      → sanitize_text q t max_length ≡ t
  unfolding sanitize_text
  sanitize_text_clean t n clean short trim = rw (strip_clean n t clean short) trim

  trimmed-sanitize_text : (t : Text) (n : ℕ) → trimmed q (sanitize_text q t n) ≡ sanitize_text q t n
  unfolding sanitize_text
  trimmed-sanitize_text t n = trimmed_idem (strip n t)

  -- Filtering twice changes nothing: a sender and a receiver that both filter agree on the text.
  pub sanitize_text_idem :
      (t : Text) (max_length : ℕ)
      → sanitize_text q (sanitize_text q t max_length) max_length ≡ sanitize_text q t max_length
  sanitize_text_idem t n =
      sanitize_text_clean (sanitize_text q t n) n (sanitize_text-IsKept t n)
        (length-sanitize_text t n) (trimmed-sanitize_text t n)
