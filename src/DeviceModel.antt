-- ===== src/DeviceModel.antt =====
-- src/devicemodel.cpp: the devices in reach, in the order of their aliases. The model is its list;
-- `upsert` also returns whether a device appeared. How Qt compares texts is a parameter.
pub mod Distinct
mod Tests
use harbour_localsend.Common.{
  ℕ, zero, suc, ◌+◌, ◌-◌, ◌/◌, Bool, true, false, not, ◌&&◌, ◌||◌, List, [], ◌∷◌, Option, none,
  some, is_empty, length, keep, modify, erase_idx, insert_idx, leb, if◌then◌else◌, Text, text_eq, ℤ,
  pos, negsuc, is_positive,
}
use harbour_localsend.Platform.{Platform}
use harbour_localsend.DeviceInfo.{DeviceInfo, new_device}
use harbour_localsend.KnownDevices.{KnownDevices, is_blocked}

abbrev pub max_devices : ℕ
max_devices = 64

-- `QString::compare` without regard to case, and `>` of two texts
pub record Collation : Type 0 where
  pub compare : Text → Text → ℤ
  pub is_after : Text → Text → Bool

-- indexOfFingerprint: -1 is none.
abbrev pub one_on : Option ℕ → Option ℕ
one_on none = none
one_on (some i) = some (suc i)

unfoldable pub index_of_fingerprint : Text → List DeviceInfo → Option ℕ
index_of_fingerprint fingerprint [] = none
index_of_fingerprint fingerprint (d ∷ devices) =
    if text_eq d.fingerprint fingerprint
    then some 0
    else one_on (index_of_fingerprint fingerprint devices)

abbrev pub is_zero : ℤ → Bool
is_zero (pos zero) = true
is_zero (pos (suc n)) = false
is_zero (negsuc n) = false

unfoldable pub insertion_point : Collation → DeviceInfo → List DeviceInfo → ℕ
insertion_point c device [] = 0
insertion_point c device (d ∷ devices) =
    if is_positive (c.compare d.alias device.alias)
    then 0
    else if is_zero (c.compare d.alias device.alias) && c.is_after d.fingerprint device.fingerprint
    then 0
    else suc (insertion_point c device devices)

abbrev pub insert_device : Collation → DeviceInfo → List DeviceInfo → List DeviceInfo
insert_device c device devices = insert_idx (insertion_point c device devices) device devices

abbrev pub alias_at : List DeviceInfo → ℕ → Text
alias_at [] row = []
alias_at (d ∷ devices) zero = d.alias
alias_at (d ∷ devices) (suc row) = alias_at devices row

abbrev pub remove_row : Option ℕ → List DeviceInfo → List DeviceInfo
remove_row none devices = devices
remove_row (some row) devices = erase_idx devices row

unfoldable pub remove : Text → List DeviceInfo → List DeviceInfo
remove fingerprint devices = remove_row (index_of_fingerprint fingerprint devices) devices

abbrev pub clear : List DeviceInfo → List DeviceInfo
clear devices = []

-- `secsTo` rounds down to whole seconds, and a time to come is none ago.
abbrev pub is_recent : ℕ → ℕ → Option ℕ → Bool
is_recent max_age now none = false
is_recent max_age now (some seen) = leb ((now - seen) / 1000) max_age

unfoldable pub prune : ℕ → ℕ → List DeviceInfo → List DeviceInfo
prune max_age now devices = keep (λ d. is_recent max_age now d.last_seen) devices

-- The row is there: a rename moves it, anything else repaints it. Or it is not, and there is room.
unfoldable pub put : Collation → Option ℕ → DeviceInfo → List DeviceInfo → List DeviceInfo × Bool
put c (some row) updated devices = (
  (if not (text_eq (alias_at devices row) updated.alias)
      then insert_device c updated (erase_idx devices row)
      else modify devices row (λ d. updated)),
  false,
)
put c none updated devices =
    if leb max_devices (length devices)
    then (devices, false)
    else (insert_device c updated devices, true)

module _ (q : Platform) where
  abbrev pub hides : Option KnownDevices → Text → Bool
  hides none fingerprint = false
  hides (some k) fingerprint = is_blocked q k fingerprint

  -- DeviceInfo::isValid
  abbrev pub is_valid : DeviceInfo → Bool
  is_valid d = not (is_empty d.fingerprint)

  unfoldable pub upsert :
      Collation → Option KnownDevices → DeviceInfo → ℕ → List DeviceInfo → List DeviceInfo × Bool
  upsert c known device now devices =
      if not (is_valid device) || is_empty device.address
      then (devices, false)
      else if hides known device.fingerprint
      then (remove device.fingerprint devices, false)
      else put c (index_of_fingerprint device.fingerprint devices)
          (record device { last_seen = some now }) devices

-- The calls that change the list.
pub data Call : Type 0 where
  upserts : Option KnownDevices → DeviceInfo → (now : ℕ) → Call
  removes : Text → Call
  prunes : (max_age now : ℕ) → Call
  clears : Call

abbrev pub step : Platform → Collation → Call → List DeviceInfo → List DeviceInfo
step q c (upserts known device now) devices = (upsert q c known device now devices).0
step q c (removes fingerprint) devices = remove fingerprint devices
step q c (prunes max_age now) devices = prune max_age now devices
step q c clears devices = clear devices

unfoldable pub run : Platform → Collation → List Call → List DeviceInfo → List DeviceInfo
run q c [] devices = devices
run q c (call ∷ calls) devices = run q c calls (step q c call devices)
