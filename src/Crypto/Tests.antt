-- ===== src/Crypto/Tests.antt =====
-- src/crypto.cpp, at concrete inputs.
use harbour_localsend.Common.{◌≡◌, ◌↔◌, refl, true, false, codes, text_eq}
use harbour_localsend.Platform.{ascii}
use harbour_localsend.Crypto.{equals, equals_bytes, equals_fold, equals_bytes_iff}

comparisons : Unit {0}
unfolding equals equals_bytes equals_fold text_eq
comparisons = tt

folds :
    (equals_fold ascii (codes "aB12") (codes "Ab12") ≡ true)
    × (equals ascii (codes "aB12") (codes "Ab12") ≡ false)
unfolding comparisons
folds = (refl, refl)

equals_bytes_iff_example :
    (equals_bytes ascii (codes "ab") (codes "ac") ≡ true) ↔ (codes "ab" ≡ codes "ac")
equals_bytes_iff_example = equals_bytes_iff ascii (codes "ab") (codes "ac")
