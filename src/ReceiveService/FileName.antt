-- ===== src/ReceiveService/FileName.antt =====
-- src/receiveservice.cpp, sanitizeFileName and reserveFilePath: where a received file may go.
pub mod Safety
pub mod Reserve
mod Tests
use harbour_localsend.Common.{
  ℕ, zero, suc, ◌+◌, ◌-◌, Bool, not, ◌&&◌, ◌||◌, List, [], ◌∷◌, ◌++◌, map, Option, none, some,
  length, is_empty, take, leb, ltb, ◌==◌, if◌then◌else◌, Text, codes, text_eq,
}
use harbour_localsend.Platform.{Platform}
use harbour_localsend.Protocol.{sanitize_text}

abbrev pub part_suffix : Text
part_suffix = codes ".part"

abbrev pub max_name_length : ℕ
max_name_length = 200

-- QString::replace of one character
unfoldable pub replace : ℕ → ℕ → Text → Text
replace old fresh = map (λ c. if c == old then fresh else c)

-- The names that survive the filter and still mean a directory.
unfoldable pub or_default : Text → Text
or_default clean =
    if is_empty clean || text_eq clean (codes ".") || text_eq clean (codes "..")
    then codes "received-file"
    else clean

module _ (q : Platform) where
  open q use {file_name, suffix, complete_base_name, number}

  -- `clean.left(200 - suffix.length() - 1)`: QString::left of a negative number is the whole text.
  unfoldable pub left_of_suffix : Text → Text → Text
  left_of_suffix clean tail =
      if leb (length tail + 1) max_name_length
      then take (max_name_length - length tail - 1) clean
      else clean

  unfoldable pub shorten : Text → Text
  unfolding left_of_suffix
  shorten clean =
      if ltb max_name_length (length clean)
      then if is_empty (suffix clean)
        then take max_name_length clean
        else left_of_suffix clean (suffix clean) ++ (b'.' ∷ suffix clean)
      else clean

  unfoldable pub sanitize_file_name : Text → Text
  sanitize_file_name name =
      shorten
        (or_default (replace b'/' b'_' (replace 0x5c b'_' (file_name (sanitize_text q name 200)))))

  module _ (exists_file : Text → Bool) (directory : Text) where
    unfoldable pub is_free : Text → Bool
    is_free candidate = not (exists_file candidate) && not (exists_file (candidate ++ part_suffix))

    abbrev pub in_directory : Text → Text
    in_directory name = directory ++ (b'/' ∷ name)

    unfoldable pub numbered : Text → Text → ℕ → Text
    numbered base tail n =
        let name = base ++ (codes " (" ++ (number n ++ codes ")")) in
        in_directory (if is_empty tail then name else name ++ (b'.' ∷ tail))

    -- `for (int n = 2; n < 1000; ++n)`, on the rounds that are left.
    unfoldable pub try_numbers : Text → Text → ℕ → ℕ → Option Text
    try_numbers base tail zero n = none
    try_numbers base tail (suc rounds) n =
        let later = try_numbers base tail rounds (n + 1) in
        if is_free (numbered base tail n) then some (numbered base tail n) else later

    -- `none` is the empty path.
    unfoldable pub reserve_file_path : Text → Option Text
    reserve_file_path name =
        let clean = sanitize_file_name name in
        let base = complete_base_name clean in
        if is_free (in_directory clean)
        then some (in_directory clean)
        else if is_empty base
        then try_numbers clean [] 998 2
        else try_numbers base (suffix clean) 998 2
