-- ===== src/ReceiveService/FileName/Safety.antt =====
-- src/receiveservice.cpp, sanitizeFileName: what the names that reach the disk look like.
use harbour_localsend.Common.{
  ℕ, ◌≤◌, ◌≡◌, ◌≢◌, refl, arith, Bool, true, false, not, ◌||◌, List, [], ◌∷◌, length, ◌==◌,
  is_empty, Bool-cases, inl, inr, All, Text, codes, text_eq, text_eq_iff,
}
use harbour_localsend.Platform.{Platform}
use harbour_localsend.Protocol.{sanitize_text, is_stripped}
use harbour_localsend.Protocol.Sanitize.{
  IsClean, IsKept, kept-IsClean, sanitize_text-IsKept, length-sanitize_text,
}
use harbour_localsend.ReceiveService.FileName.{
  replace, or_default, shorten, sanitize_file_name, max_name_length,
}

-- A name that stays inside the directory that it is put in.
pub record IsSafeName (t : Text) : Type 0 where
  pub no_slash : All (λ c. (c == b'/') ≡ false) t
  pub no_backslash : All (λ c. (c == 0x5c) ≡ false) t
  pub clean : IsClean t
  pub not_empty : t ≢ []
  pub not_dot : t ≢ codes "."
  pub not_dot_dot : t ≢ codes ".."
  pub short : length t ≤ max_name_length

pub All-not {ℓ} :
    {A : Type ℓ} (p : A → Bool) (t : List A)
    → All (λ c. p c ≡ false) t
    → All (λ c. not (p c) ≡ true) t
All-not p [] h = tt
All-not p (c ∷ t) h = (ground (arith, h.0), All-not p t h.1)

pub not-All {ℓ} :
    {A : Type ℓ} (p : A → Bool) (t : List A)
    → All (λ c. not (p c) ≡ true) t
    → All (λ c. p c ≡ false) t
not-All p [] h = tt
not-All p (c ∷ t) h = (ground (arith, h.0), not-All p t h.1)

length-replace : (a b : ℕ) (t : Text) → length (replace a b t) ≡ length t
unfolding replace
length-replace a b [] = refl
length-replace a b (c ∷ t) = ground (arith, length-replace a b t)

-- Replacing by a character that a test passes keeps a text on which the test passes.
replace-All :
    (p : ℕ → Bool) (a b : ℕ) (t : Text)
    → p b ≡ false
    → All (λ c. p c ≡ false) t
    → All (λ c. p c ≡ false) (replace a b t)
unfolding replace
replace-All p a b [] h k = tt
replace-All p a b (c ∷ t) h k = ground (arith, replace-All p a b t h k.1, h, k.0)

replace-All_gone :
    (a b : ℕ) (t : Text) → (b == a) ≡ false → All (λ c. (c == a) ≡ false) (replace a b t)
unfolding replace
replace-All_gone a b [] h = tt
replace-All_gone a b (c ∷ t) h = ground (arith, replace-All_gone a b t h)

or_default-All :
    (p : ℕ → Bool) (t : Text)
    → All (λ c. p c ≡ false) (codes "received-file")
    → All (λ c. p c ≡ false) t
    → All (λ c. p c ≡ false) (or_default t)
unfolding or_default
or_default-All p t d h =
    elim (Bool-cases (is_empty t || text_eq t (codes ".") || text_eq t (codes ".."))) [
      | inl e ↦ rw e d
      | inr e ↦ rw e h
    ]

length-or_default :
    (t : Text) → length t ≤ max_name_length → length (or_default t) ≤ max_name_length
unfolding or_default
length-or_default t h = ground arith

or_default-ne :
    (t : Text) → (or_default t ≢ []) × (or_default t ≢ codes ".") × (or_default t ≢ codes "..")
unfolding or_default
or_default-ne [] = (λ e. cc, λ e. cc, λ e. cc)
or_default-ne (c ∷ t) =
    ground (arith, text_eq_iff (c ∷ t) (codes "."), text_eq_iff (c ∷ t) (codes ".."))

module _ (q : Platform) where
  open q use {file_name, file_name_no_slash, file_name_keeps, length-file_name}

  shorten_short : (t : Text) → length t ≤ max_name_length → shorten q t ≡ t
  unfolding shorten
  shorten_short t h = ground arith

  -- The text before the default is put in for the names of directories.
  base : Text → Text
  base name = replace b'/' b'_' (replace 0x5c b'_' (file_name (sanitize_text q name 200)))

  length-base : (name : Text) → length (base name) ≤ max_name_length
  unfolding base
  length-base name =
      let t = file_name (sanitize_text q name 200) in
      omega (
        arith,
        length-replace b'/' b'_' (replace 0x5c b'_' t),
        length-replace 0x5c b'_' t,
        length-file_name (sanitize_text q name 200),
        length-sanitize_text q name 200,
      )

  base-All :
      (p : ℕ → Bool) (name : Text)
      → p b'_' ≡ false
      → All (λ c. p c ≡ false) (file_name (sanitize_text q name 200))
      → All (λ c. p c ≡ false) (base name)
  unfolding base
  base-All p name h k = replace-All p b'/' b'_' _ h (replace-All p 0x5c b'_' _ h k)

  base-IsKept : (name : Text) → IsKept (base name)
  base-IsKept name = base-All is_stripped name underscore (
      not-All is_stripped _ (
        file_name_keeps (λ c. not (is_stripped c)) _
          (All-not is_stripped _ (sanitize_text-IsKept q name 200))))
    where
      underscore : is_stripped b'_' ≡ false
      underscore = unfold is_stripped in refl

  default-IsKept : IsKept (codes "received-file")
  unfolding is_stripped
  default-IsKept = ground arith

  sanitize_file_name_lem : (name : Text) → sanitize_file_name q name ≡ or_default (base name)
  unfolding sanitize_file_name base
  sanitize_file_name_lem name = shorten_short _ (length-or_default _ (length-base name))

  -- Whatever a peer calls a file, the name it gets on disk has no slash and no backslash, is
  -- neither empty nor a name of a directory, is at most 200 code units long and holds none of the
  -- characters that the filter takes out.
  pub sanitize_file_name-IsSafeName : (name : Text) → IsSafeName (sanitize_file_name q name)
  unfolding base
  sanitize_file_name-IsSafeName name = rw (sanitize_file_name_lem name) (record {
    no_slash = or_default-All (λ c. c == b'/') _ (ground arith) (replace-All_gone b'/' b'_' _ refl);
    no_backslash =
        or_default-All (λ c. c == 0x5c) _ (ground arith)
          (replace-All (λ c. c == 0x5c) b'/' b'_' _ refl (replace-All_gone 0x5c b'_' _ refl));
    clean = kept-IsClean _ (or_default-All is_stripped _ default-IsKept (base-IsKept name));
    not_empty = (or_default-ne (base name)).0;
    not_dot = (or_default-ne (base name)).1;
    not_dot_dot = (or_default-ne (base name)).2;
    short = length-or_default _ (length-base name);
  })

  -- The step that shortens a long name in front of its suffix never applies: the name that comes to
  -- it has been cut to the limit already, suffix and all, and is taken as it is.
  pub sanitize_file_name_cut :
      (name : Text)
      → sanitize_file_name q name
        ≡ or_default (
            replace b'/' b'_'
              (replace 0x5c b'_' (file_name (sanitize_text q name max_name_length))))
  unfolding base
  sanitize_file_name_cut name = sanitize_file_name_lem name
