-- ===== src/KnownDevices/Tests.antt =====
-- src/knowndevices.cpp, at concrete inputs.
use harbour_localsend.Common.{
  ◌≡◌, refl, arith, true, false, [], none, Text, codes, text_eq, text_eq_iff, find, insert,
  contains, remove, All,
}
use harbour_localsend.Platform.{ascii}
use harbour_localsend.Crypto.{equals, equals_bytes, equals_fold}
use harbour_localsend.KnownDevices.{
  KnownDevices, read_row, write_row, load, save_changed, is_blocked, is_known, set_blocked,
  remember, forget, forget_all, kept_blocks, expected_fingerprint, expected_in, conflicts, count,
}
use harbour_localsend.KnownDevices.Invariant.{IsValid, block, forgets, step, step-IsValid}
use harbour_localsend.KnownDevices.Blocking.{is_blocked-set_blocked, is_blocked-step}
use harbour_localsend.KnownDevices.Pairing.{
  is_known-remember, is_known-set_blocked, is_known-forget, is_known-forget_all,
}
use harbour_localsend.KnownDevices.Conflict.{conflicts-remember, Differs}
use harbour_localsend.KnownDevices.Storage.{find-load_file, settled_or}

devices : Unit {0}
unfolding read_row write_row load save_changed is_blocked is_known set_blocked remember forget
    forget_all kept_blocks expected_fingerprint expected_in contains conflicts count equals_fold
    equals equals_bytes step find insert remove text_eq
devices = tt

abbrev macbook : Text
macbook = codes "MacBook"

abbrev empty : KnownDevices
empty = record { entries = []; file = []; changes = 0 }

empty-IsValid : IsValid ascii empty
empty-IsValid = record { distinct = tt; keys = tt; saved = refl }

abbrev paired : KnownDevices
paired = remember ascii empty (codes "ab12") macbook 7

paired-IsValid : IsValid ascii paired
unfolding devices
paired-IsValid = record { distinct = (refl, tt); keys = ((refl, λ e. cc), tt); saved = refl }

life :
    (is_known ascii paired (codes "AB12") ≡ true)
    × (conflicts ascii paired (codes "ff00") macbook ≡ true)
    × (conflicts ascii paired (codes "Ab12") macbook ≡ false)
    × (is_blocked ascii
          (forget ascii (set_blocked ascii paired (codes "aB12") [] true 8) (codes "ab12") 9)
          (codes "AB12")
        ≡ true)
    × (count (forget_all ascii paired 9) ≡ 0)
unfolding devices
life = (refl, refl, refl, refl, refl)

step-IsValid_example : IsValid ascii (step ascii empty (block (codes "ab12") [] true 3))
step-IsValid_example = step-IsValid ascii empty (block (codes "ab12") [] true 3) empty-IsValid

is_blocked-set_blocked_example :
    is_blocked ascii (set_blocked ascii paired (codes "ab12") [] true 8) (codes "AB12") ≡ true
unfolding devices
is_blocked-set_blocked_example =
    is_blocked-set_blocked ascii paired (codes "ab12") [] true 8 (codes "AB12") refl refl

is_blocked-step_example :
    is_blocked ascii (step ascii paired (forgets (codes "ab12") 9)) (codes "AB12")
    ≡ is_blocked ascii paired (codes "AB12")
is_blocked-step_example =
    is_blocked-step ascii paired (forgets (codes "ab12") 9) (codes "AB12") paired-IsValid refl

is_known-remember_example :
    is_known ascii (remember ascii empty (codes "ab12") macbook 7) (codes "AB12") ≡ true
unfolding devices
is_known-remember_example =
    is_known-remember ascii empty (codes "ab12") macbook 7 (codes "AB12") refl refl

is_known-set_blocked_example :
    is_known ascii (set_blocked ascii paired (codes "ab12") [] true 8) (codes "AB12")
    ≡ is_known ascii paired (codes "AB12")
is_known-set_blocked_example =
    is_known-set_blocked ascii paired (codes "ab12") [] true 8 (codes "AB12")

is_known-forget_example :
    is_known ascii (forget ascii paired (codes "ab12") 9) (codes "AB12") ≡ false
unfolding devices
is_known-forget_example = is_known-forget ascii paired (codes "ab12") 9 (codes "AB12")

is_known-forget_all_example : is_known ascii (forget_all ascii paired 9) (codes "AB12") ≡ false
is_known-forget_all_example = is_known-forget_all ascii paired 9 (codes "AB12") paired-IsValid

macbook-Differs : All (λ b. Differs ascii b.0 (codes "ff00")) paired.entries
unfolding devices
macbook-Differs = (λ e. absurd_path e, tt)
  where
    absurd_path : codes "AB12" ≡ codes "FF00" → ⊥
    absurd_path e = ground (arith, text_eq_iff (codes "AB12") (codes "FF00"))

conflicts-remember_example : conflicts ascii paired (codes "ff00") macbook ≡ true
conflicts-remember_example =
    conflicts-remember ascii empty (codes "ab12") macbook 7 (codes "ff00") empty-IsValid refl refl
      refl macbook-Differs

find-load_file_example :
    find (codes "AB12") (load ascii paired.file).entries
    ≡ settled_or none (find (codes "AB12") paired.entries)
find-load_file_example =
    find-load_file ascii (λ rows. rows) paired (codes "AB12") paired-IsValid refl
