-- ===== src/DeviceModel/Tests.antt =====
-- The list of devices at concrete announcements.
use harbour_localsend.Common.{
  Bool, true, false, List, [], ◌∷◌, Option, none, some, ltb, if◌then◌else◌, Text, codes, ℤ, pos,
  negsuc,
}
use harbour_localsend.Platform.{ascii}
use harbour_localsend.DeviceInfo.{DeviceInfo, new_device}
use harbour_localsend.KnownDevices.{KnownDevices, set_blocked}
use harbour_localsend.DeviceModel.{Collation, Call, upserts, prunes, run}
use harbour_localsend.DeviceModel.Distinct.{IsListed, run-IsListed}

abbrev compare : Text → Text → ℤ
compare [] [] = pos 0
compare [] (b ∷ t) = negsuc 0
compare (a ∷ s) [] = pos 1
compare (a ∷ s) (b ∷ t) = if ltb a b then negsuc 0 else if ltb b a then pos 1 else compare s t

abbrev is_after : Text → Text → Bool
is_after s [] = true
is_after [] (b ∷ t) = false
is_after (a ∷ s) (b ∷ t) = if ltb b a then true else if ltb a b then false else is_after s t

abbrev collation : Collation
collation = record { compare = compare; is_after = is_after }

abbrev device : Text → Text → DeviceInfo
device alias fingerprint = record new_device {
  alias = alias;
  fingerprint = fingerprint;
  address = codes "10.0.0.2";
}

abbrev calls : List Call
calls =
    upserts none (device (codes "Bob") (codes "b")) 1000
    ∷ upserts none (device (codes "Ann") (codes "a")) 2000
    ∷ upserts none (device (codes "Cat") (codes "a")) 3000
    ∷ prunes 1 3500
    ∷ []

run-IsListed_example : IsListed (run ascii collation calls [])
run-IsListed_example = run-IsListed ascii collation calls

abbrev blocking : Option KnownDevices
blocking =
    some (set_blocked ascii (record { entries = []; file = []; changes = 0 }) (codes "b") [] true 8)

abbrev listed : List DeviceInfo
listed = device (codes "Bob") (codes "b") ∷ []
