-- ===== src/Protocol/Tests.antt =====
-- src/protocol.cpp, at concrete inputs.
use harbour_localsend.Common.{◌≡◌, ◌≤◌, refl, arith, [], ◌∷◌, ◌++◌, length, Text, codes}
use harbour_localsend.Platform.{ascii}
use harbour_localsend.Protocol.{sanitize_text, strip, trimmed, trim_start, trim_end, is_stripped}
use harbour_localsend.Protocol.Sanitize.{
  IsClean, sanitize_text-IsClean, length-sanitize_text, sanitize_text_clean, sanitize_text_idem,
}

filters : Unit {0}
unfolding sanitize_text strip trimmed trim_start trim_end is_stripped
filters = tt

-- A name with a right-to-left override in it, markup and a line break.
abbrev spoofed : Text
spoofed = codes " photo" ++ (0x202e ∷ codes "gpj.<b>exe") ++ (10 ∷ [])

filtered : sanitize_text ascii spoofed 64 ≡ codes "photogpj.bexe"
unfolding filters
filtered = refl

sanitize_text-IsClean_example : IsClean (sanitize_text ascii spoofed 64)
sanitize_text-IsClean_example = sanitize_text-IsClean ascii spoofed 64

length-sanitize_text_example : length (sanitize_text ascii spoofed 5) ≤ 5
length-sanitize_text_example = length-sanitize_text ascii spoofed 5

sanitize_text_clean_example : sanitize_text ascii (codes "Ann") 64 ≡ codes "Ann"
unfolding filters
sanitize_text_clean_example =
    sanitize_text_clean ascii (codes "Ann") 64 (refl, (refl, (refl, tt))) (omega arith) refl

sanitize_text_idem_example :
    sanitize_text ascii (sanitize_text ascii spoofed 64) 64 ≡ sanitize_text ascii spoofed 64
sanitize_text_idem_example = sanitize_text_idem ascii spoofed 64
