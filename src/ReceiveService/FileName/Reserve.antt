-- ===== src/ReceiveService/FileName/Reserve.antt =====
-- src/receiveservice.cpp, reserveFilePath: the path it hands out is one that nothing occupies.
use harbour_localsend.Common.{
  ℕ, zero, suc, ◌+◌, ◌<◌, ◌≤◌, ◌≡◌, ◌≢◌, ap, length, length-append, refl, arith, Bool, true, false,
  not, [], ◌∷◌, ◌++◌, none, some, is_empty, All, All-append, ◌==◌, leb, ◌&&◌, Text, codes,
  Bool-cases, inl, inr, subst, if◌then◌else◌,
}
use native.Mathlib.Nat.{add-zero}
use harbour_localsend.Platform.{Platform}
use harbour_localsend.ReceiveService.FileName.{
  sanitize_file_name, is_free, in_directory, numbered, try_numbers, reserve_file_path, part_suffix,
}
use harbour_localsend.ReceiveService.FileName.Safety.{
  sanitize_file_name-IsSafeName, All-not, not-All,
}

abbrev NoSlash : Text → Type 0
NoSlash = All (λ c. (c == b'/') ≡ false)

module _ (q : Platform) (exists_file : Text → Bool) (directory : Text) where
  open q use {
    complete_base_name, suffix, number, number_digits, complete_base_name_keeps, suffix_keeps,
  }

  -- The names that are tried in their order: the cleaned one, then the numbered ones.
  abbrev pub base_of : Text → Text
  base_of clean = if is_empty (complete_base_name clean) then clean else complete_base_name clean

  abbrev pub tail_of : Text → Text
  tail_of clean = if is_empty (complete_base_name clean) then [] else suffix clean

  reserve_lem :
      (name : Text)
      → reserve_file_path q exists_file directory name ≡ (
          if is_free q exists_file directory
            (in_directory q exists_file directory (sanitize_file_name q name))
          then some (in_directory q exists_file directory (sanitize_file_name q name))
          else try_numbers q exists_file directory
              (base_of (sanitize_file_name q name))
              (tail_of (sanitize_file_name q name))
              998
              2)
  unfolding reserve_file_path
  reserve_lem name = ground arith

  try_numbers-is_free :
      (base tail : Text) (rounds n : ℕ) (path : Text)
      → try_numbers q exists_file directory base tail rounds n ≡ some path
      → is_free q exists_file directory path ≡ true
  unfolding try_numbers
  try_numbers-is_free base tail zero n path e = cc
  try_numbers-is_free base tail (suc rounds) n path e =
      ground (arith, try_numbers-is_free base tail rounds (n + 1) path)

  -- A path that is handed out names no file, and neither does the path that the bytes are written
  -- to first.
  pub reserve_file_path-is_free :
      (name path : Text)
      → reserve_file_path q exists_file directory name ≡ some path
      → (exists_file path ≡ false) × (exists_file (path ++ part_suffix) ≡ false)
  unfolding is_free
  reserve_file_path-is_free name path e =
      let clean = sanitize_file_name q name in
      ground
        (arith, reserve_lem name, try_numbers-is_free (base_of clean) (tail_of clean) 998 2 path)

  try_numbers-none :
      (base tail : Text) (rounds n k : ℕ)
      → try_numbers q exists_file directory base tail rounds n ≡ none
      → k < rounds
      → is_free q exists_file directory (numbered q exists_file directory base tail (n + k)) ≡ false
  unfolding try_numbers
  try_numbers-none base tail zero n k e h = absurd (omega arith)
  try_numbers-none base tail (suc rounds) n zero e h = rw (add-zero n) (ground arith)
  try_numbers-none base tail (suc rounds) n (suc k) e h =
      rw (shift n k) (try_numbers-none base tail rounds (n + 1) k (ground arith) (omega arith))
    where
      shift : (a b : ℕ) → a + suc b ≡ a + 1 + b
      shift a b = omega arith

  -- A file is refused only after all of the thousand names have been found occupied: the cleaned
  -- name, and its base with each number from 2 to 999.
  pub reserve_file_path-none :
      (name : Text) (k : ℕ)
      → reserve_file_path q exists_file directory name ≡ none
      → k < 998
      → (is_free q exists_file directory
            (in_directory q exists_file directory (sanitize_file_name q name))
          ≡ false)
        × (is_free q exists_file directory (
              numbered q exists_file directory
                (base_of (sanitize_file_name q name))
                (tail_of (sanitize_file_name q name))
                (2 + k))
            ≡ false)
  reserve_file_path-none name k e h =
      let clean = sanitize_file_name q name in
      ground (arith, reserve_lem name, try_numbers-none (base_of clean) (tail_of clean) 998 2 k)

  digits-NoSlash : (t : Text) → All (λ c. (leb b'0' c && leb c b'9') ≡ true) t → NoSlash t
  digits-NoSlash [] h = tt
  digits-NoSlash (c ∷ t) h = (ground (arith, h.0), digits-NoSlash t h.1)

  -- Directly in the directory: behind it stands a name that has no slash, and that is neither empty
  -- nor one of the two by which a directory names itself and the one above it.
  pub record IsEntry (name : Text) : Type 0 where
    pub no_slash : NoSlash name
    pub not_empty : name ≢ []
    pub not_dot : name ≢ codes "."
    pub not_dot_dot : name ≢ codes ".."

  abbrev pub IsInside : Text → Type 0
  IsInside path = (name : Text) × (path ≡ directory ++ (b'/' ∷ name)) × IsEntry name

  -- A name of three characters or more is none of those three.
  long-IsEntry : (name : Text) → NoSlash name → 3 ≤ length name → IsEntry name
  long-IsEntry name h long = record {
    no_slash = h;
    not_empty = λ e. absurd (omega (arith, long, ap (length {A = ℕ}) e));
    not_dot = λ e. absurd (omega (arith, long, ap (length {A = ℕ}) e));
    not_dot_dot = λ e. absurd (omega (arith, long, ap (length {A = ℕ}) e));
  }

  length-stem : (base : Text) (n : ℕ) → 3 ≤ length (base ++ (codes " (" ++ (number n ++ codes ")")))
  length-stem base n = omega (
    arith,
    length-append base (codes " (" ++ (number n ++ codes ")")),
    length-append (codes " (") (number n ++ codes ")"),
    length-append (number n) (codes ")"),
  )

  numbered-IsInside :
      (base tail : Text) (n : ℕ)
      → NoSlash base
      → NoSlash tail
      → IsInside (numbered q exists_file directory base tail n)
  unfolding numbered
  numbered-IsInside base tail n hb ht =
      let stem = base ++ (codes " (" ++ (number n ++ codes ")")) in
      let stem_ok : NoSlash stem =
        All-append _ base _ hb (
          refl,
          (refl, All-append _ (number n) _ (digits-NoSlash _ (number_digits n)) (refl, tt)),
        ) in
      elim (Bool-cases (is_empty tail)) [
        | inl e ↦ (stem, rw e, long-IsEntry stem stem_ok (length-stem base n))
        | inr e ↦ (
          stem ++ (b'.' ∷ tail),
          rw e,
          long-IsEntry (stem ++ (b'.' ∷ tail)) (All-append _ stem _ stem_ok (refl, ht))
              (omega (arith, length-stem base n, length-append stem (b'.' ∷ tail))),
        )
      ]

  try_numbers-IsInside :
      (base tail : Text) (rounds n : ℕ) (path : Text)
      → NoSlash base
      → NoSlash tail
      → try_numbers q exists_file directory base tail rounds n ≡ some path
      → IsInside path
  unfolding try_numbers
  try_numbers-IsInside base tail zero n path hb ht e = cc
  try_numbers-IsInside base tail (suc rounds) n path hb ht e =
      elim (Bool-cases
        (is_free q exists_file directory (numbered q exists_file directory base tail n))) [
          | inl free ↦
              let same : numbered q exists_file directory base tail n ≡ path = ground arith in
              subst IsInside same (numbered-IsInside base tail n hb ht)
          | inr taken ↦
              try_numbers-IsInside base tail rounds (n + 1) path hb ht
                (rw (taken, try_numbers) at e)
        ]

  part-NoSlash :
      (f : Text → Text)
      → ((p : ℕ → Bool) (t : Text) → All (λ c. p c ≡ true) t → All (λ c. p c ≡ true) (f t))
      → (t : Text) → NoSlash t
      → NoSlash (f t)
  part-NoSlash f keeps t h =
      not-All (λ c. c == b'/') _ (keeps (λ c. not (c == b'/')) t (All-not (λ c. c == b'/') t h))

  base_of-NoSlash : (t : Text) → NoSlash t → NoSlash (base_of t)
  base_of-NoSlash t h = ground (arith, part-NoSlash complete_base_name complete_base_name_keeps t h)

  tail_of-NoSlash : (t : Text) → NoSlash t → NoSlash (tail_of t)
  tail_of-NoSlash t h = ground (arith, part-NoSlash suffix suffix_keeps t h)

  -- Whatever a peer calls a file, a path that is handed out for it is the session's directory, a
  -- slash and a name that has no slash and is neither empty nor "." nor "..".
  pub reserve_file_path-IsInside :
      (name path : Text)
      → reserve_file_path q exists_file directory name ≡ some path
      → IsInside path
  reserve_file_path-IsInside name path e =
      let clean = sanitize_file_name q name in
      let s = sanitize_file_name-IsSafeName q name in
      let safe = s.no_slash in
      let entry : IsEntry clean = record {
        no_slash = s.no_slash;
        not_empty = s.not_empty;
        not_dot = s.not_dot;
        not_dot_dot = s.not_dot_dot;
      } in
      elim (Bool-cases
        (is_free q exists_file directory (in_directory q exists_file directory clean))) [
          | inl free ↦ (clean, ground (arith, reserve_lem name), entry)
          | inr taken ↦
              try_numbers-IsInside (base_of clean) (tail_of clean) 998 2 path
                (base_of-NoSlash clean safe) (tail_of-NoSlash clean safe)
                (ground (arith, reserve_lem name))
        ]
