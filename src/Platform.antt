-- ===== src/Platform.antt =====
-- What the program takes from Qt and OpenSSL and does not implement, with the documented behaviour
-- that the proofs rely on. Every definition that calls such code takes a `Platform`.
use harbour_localsend.Common.{
  ℕ, zero, suc, ◌+◌, ◌-◌, ◌/◌, ◌%◌, ◌≤◌, inl, inr, true, false, All, exists, take, ◌++◌, replicate,
  ltb, Bool-cases, ◌≡◌, ◌↔◌, refl, arith, Bool, ◌&&◌, ◌||◌, [], ◌∷◌, map, length, leb, ◌==◌,
  if◌then◌else◌, Text, text_eq, text_eq_iff,
}

pub record Platform : Type 0 where
  -- QChar::isSpace, by which QString::trimmed cuts
  pub is_space : ℕ → Bool
  -- QString::toUpper
  pub to_upper : Text → Text
  pub to_upper_idem : (t : Text) → to_upper (to_upper t) ≡ to_upper t
  pub to_upper_empty : (t : Text) → to_upper t ≡ [] → t ≡ []
  -- QString::toUtf8
  pub to_utf8 : Text → Text
  pub to_utf8_empty : (t : Text) → (to_utf8 t ≡ []) ↔ (t ≡ [])
  -- CRYPTO_memcmp on two buffers of one size
  pub memcmp : Text → Text → ℕ
  pub memcmp_iff : (a b : Text) → length a ≡ length b → (memcmp a b ≡ 0) ↔ (a ≡ b)
  -- PKCS5_PBKDF2_HMAC over SHA-256, with the program's iterations and length; empty on failure
  pub derive_key : Text → Text → Text
  -- the SHA-256 of a file's bytes, in hexadecimal
  pub sha256_hex : Text → Text
  -- QFileInfo::fileName, the part of a path behind its last slash
  pub file_name : Text → Text
  pub file_name_no_slash : (t : Text) → All (λ c. (c == b'/') ≡ false) (file_name t)
  pub file_name_keeps :
      (p : ℕ → Bool) (t : Text) → All (λ c. p c ≡ true) t → All (λ c. p c ≡ true) (file_name t)
  pub length-file_name : (t : Text) → length (file_name t) ≤ length t
  -- QFileInfo::completeBaseName and QFileInfo::suffix of a name, the parts before and behind its
  -- last dot
  pub complete_base_name : Text → Text
  pub complete_base_name_keeps :
      (p : ℕ → Bool) (t : Text)
      → All (λ c. p c ≡ true) t
      → All (λ c. p c ≡ true) (complete_base_name t)
  pub suffix : Text → Text
  pub suffix_keeps :
      (p : ℕ → Bool) (t : Text) → All (λ c. p c ≡ true) t → All (λ c. p c ≡ true) (suffix t)
  -- QString::number
  pub number : ℕ → Text
  pub number_digits : (n : ℕ) → All (λ c. (leb b'0' c && leb c b'9') ≡ true) (number n)

-- An instance, for texts of ASCII characters.
abbrev ascii_upper : ℕ → ℕ
ascii_upper c = if leb b'a' c && leb c b'z' then c - 32 else c

pub ascii_upper_idem : (t : Text) → map ascii_upper (map ascii_upper t) ≡ map ascii_upper t
ascii_upper_idem [] = refl
ascii_upper_idem (c ∷ t) = ground (arith, ascii_upper_idem t)

pub ascii_upper_empty : (t : Text) → map ascii_upper t ≡ [] → t ≡ []
ascii_upper_empty [] h = refl
ascii_upper_empty (c ∷ t) h = cc

abbrev ascii_memcmp : Text → Text → ℕ
ascii_memcmp a b = if text_eq a b then 0 else 1

pub ascii_memcmp_iff : (a b : Text) → length a ≡ length b → (ascii_memcmp a b ≡ 0) ↔ (a ≡ b)
ascii_memcmp_iff a b h = ground (arith, text_eq_iff a b)

-- What stands behind the last `mark`, and the text itself where there is none.
abbrev after_last : ℕ → Text → Text
after_last mark [] = []
after_last mark (c ∷ t) =
    if exists (λ d. d == mark) t then after_last mark t else if c == mark then t else c ∷ t

abbrev before_last : ℕ → Text → Text
before_last mark [] = []
before_last mark (c ∷ t) =
    if exists (λ d. d == mark) t then c ∷ before_last mark t else if c == mark then [] else c ∷ t

no_mark_after :
    (mark : ℕ) (t : Text) → exists (λ d. d == mark) t ≡ false → All (λ c. (c == mark) ≡ false) t
no_mark_after mark [] h = tt
no_mark_after mark (c ∷ t) h = ground (arith, no_mark_after mark t)

pub after_last_no_mark : (mark : ℕ) (t : Text) → All (λ c. (c == mark) ≡ false) (after_last mark t)
after_last_no_mark mark [] = tt
after_last_no_mark mark (c ∷ t) = ground (arith, no_mark_after mark t, after_last_no_mark mark t)

pub after_last_keeps :
    (mark : ℕ) (p : ℕ → Bool) (t : Text)
    → All (λ c. p c ≡ true) t
    → All (λ c. p c ≡ true) (after_last mark t)
after_last_keeps mark p [] h = tt
after_last_keeps mark p (c ∷ t) h = ground (arith, after_last_keeps mark p t h.1)

pub before_last_keeps :
    (mark : ℕ) (p : ℕ → Bool) (t : Text)
    → All (λ c. p c ≡ true) t
    → All (λ c. p c ≡ true) (before_last mark t)
before_last_keeps mark p [] h = tt
before_last_keeps mark p (c ∷ t) h = ground (arith, before_last_keeps mark p t h.1)

pub length-after_last : (mark : ℕ) (t : Text) → length (after_last mark t) ≤ length t
length-after_last mark [] = omega arith
length-after_last mark (c ∷ t) = ground (arith, length-after_last mark t)

abbrev ascii_suffix : Text → Text
ascii_suffix t = if exists (λ d. d == b'.') t then after_last b'.' t else []

pub ascii_suffix_keeps :
    (p : ℕ → Bool) (t : Text) → All (λ c. p c ≡ true) t → All (λ c. p c ≡ true) (ascii_suffix t)
ascii_suffix_keeps p t h = ground (arith, after_last_keeps b'.' p t h)

-- The decimal digits of a number, on fuel; a number has fewer digits than itself and one.
abbrev digits_onto : ℕ → ℕ → Text → Text
digits_onto zero n rest = rest
digits_onto (suc fuel) n rest =
    let more = digits_onto fuel (n / 10) ((b'0' + n % 10) ∷ rest) in
    if ltb n 10 then (b'0' + n % 10) ∷ rest else more

abbrev IsDigits : Text → Type 0
IsDigits = All (λ c. (leb b'0' c && leb c b'9') ≡ true)

digit : (n : ℕ) → (leb b'0' (b'0' + n % 10) && leb (b'0' + n % 10) b'9') ≡ true
digit n = ground arith

digits_onto-IsDigits :
    (fuel n : ℕ) (rest : Text) → IsDigits rest → IsDigits (digits_onto fuel n rest)
digits_onto-IsDigits zero n rest h = h
digits_onto-IsDigits (suc fuel) n rest h = elim (Bool-cases (ltb n 10)) [
  | inl e ↦ rw e (digit n, h)
  | inr e ↦ rw e (digits_onto-IsDigits fuel (n / 10) ((b'0' + n % 10) ∷ rest) (digit n, h))
]

pub ascii_number-IsDigits : (n : ℕ) → IsDigits (digits_onto (suc n) n [])
ascii_number-IsDigits n = digits_onto-IsDigits (suc n) n [] tt

abbrev pub ascii : Platform
ascii = record {
  is_space = λ c. c == b' ' || (leb 9 c && leb c 13);
  to_upper = map ascii_upper;
  to_upper_idem = ascii_upper_idem;
  to_upper_empty = ascii_upper_empty;
  to_utf8 = λ t. t;
  to_utf8_empty = λ t. (λ e. e, λ e. e);
  memcmp = ascii_memcmp;
  memcmp_iff = ascii_memcmp_iff;
  derive_key = λ secret salt. salt ++ secret;
  sha256_hex = λ bytes. map (λ c. b'0' + c % 10) (take 64 (bytes ++ replicate 64 0));
  file_name = after_last b'/';
  file_name_no_slash = after_last_no_mark b'/';
  file_name_keeps = after_last_keeps b'/';
  length-file_name = length-after_last b'/';
  complete_base_name = before_last b'.';
  complete_base_name_keeps = before_last_keeps b'.';
  suffix = ascii_suffix;
  suffix_keeps = ascii_suffix_keeps;
  number = λ n. digits_onto (suc n) n [];
  number_digits = ascii_number-IsDigits;
}
