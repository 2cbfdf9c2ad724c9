-- ===== src/ReceiveService/FileName/Tests.antt =====
-- src/receiveservice.cpp, the names of received files, at concrete inputs.
use harbour_localsend.Common.{
  ◌+◌, ◌≡◌, refl, arith, Bool, true, false, ◌++◌, some, Text, replicate, codes, text_eq,
  if◌then◌else◌,
}
use harbour_localsend.Platform.{ascii}
use harbour_localsend.Protocol.{sanitize_text, strip, trimmed, trim_start, trim_end, is_stripped}
use harbour_localsend.ReceiveService.FileName.{
  max_name_length, sanitize_file_name, reserve_file_path, replace, or_default, shorten, is_free,
  numbered, try_numbers, in_directory,
}
use harbour_localsend.ReceiveService.FileName.Safety.{
  IsSafeName, sanitize_file_name-IsSafeName, sanitize_file_name_cut,
}
use harbour_localsend.ReceiveService.FileName.Reserve.{
  reserve_file_path-none, reserve_file_path-IsInside, IsInside, base_of, tail_of,
}

names : Unit {0}
unfolding sanitize_file_name reserve_file_path replace or_default shorten is_free numbered
    try_numbers sanitize_text strip trimmed trim_start trim_end is_stripped text_eq
names = tt

-- A directory that holds `a.txt` and a part file of `a (2).txt`.
abbrev occupied : Text → Bool
occupied path =
    if text_eq path (codes "/d/a.txt") then true else text_eq path (codes "/d/a (2).txt.part")

name_tests :
    (sanitize_file_name ascii (codes "../../etc/passwd") ≡ codes "passwd")
    × (sanitize_file_name ascii (codes "..") ≡ codes "received-file")
    × (sanitize_file_name ascii (codes "a/..\\b") ≡ codes ".._b")
    × (reserve_file_path ascii occupied (codes "/d") (codes "a.txt") ≡ some (codes "/d/a (3).txt"))
unfolding names
name_tests = (refl, refl, refl, refl)

sanitize_file_name-IsSafeName_example :
    IsSafeName (sanitize_file_name ascii (codes "../../etc/passwd"))
sanitize_file_name-IsSafeName_example =
    sanitize_file_name-IsSafeName ascii (codes "../../etc/passwd")

reserve_file_path-none_example :
    (is_free ascii
        (λ p. true)
        (codes "/d")
        (in_directory ascii (λ p. true) (codes "/d") (sanitize_file_name ascii (codes "a")))
      ≡ false)
    × (is_free ascii
          (λ p. true)
          (codes "/d")
          (numbered ascii
            (λ p. true)
            (codes "/d")
            (base_of ascii (λ p. true) (codes "/d") (sanitize_file_name ascii (codes "a")))
            (tail_of ascii (λ p. true) (codes "/d") (sanitize_file_name ascii (codes "a")))
            (2 + 5))
        ≡ false)
unfolding names
reserve_file_path-none_example =
    reserve_file_path-none ascii (λ p. true) (codes "/d") (codes "a") 5 refl (omega arith)

reserve_file_path-IsInside_example : IsInside ascii occupied (codes "/d") (codes "/d/a (3).txt")
reserve_file_path-IsInside_example =
    reserve_file_path-IsInside ascii occupied (codes "/d") (codes "a.txt") (codes "/d/a (3).txt")
      name_tests.3

-- A name of 204 characters, whose suffix is lost.
abbrev long_name : Text
long_name = replicate 200 b'a' ++ codes ".txt"

suffix_lost : sanitize_file_name ascii long_name ≡ replicate 200 b'a'
unfolding names
suffix_lost = refl

sanitize_file_name_cut_example :
    sanitize_file_name ascii long_name
    ≡ or_default (
        replace b'/' b'_'
          (replace 0x5c b'_' (ascii.file_name (sanitize_text ascii long_name max_name_length))))
sanitize_file_name_cut_example = sanitize_file_name_cut ascii long_name
