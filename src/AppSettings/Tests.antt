-- ===== src/AppSettings/Tests.antt =====
-- src/appsettings.cpp, at concrete inputs.
use harbour_localsend.Common.{
  ◌≡◌, ◌↔◌, refl, true, false, ◌||◌, [], ◌∷◌, codes, text_eq, if◌then◌else◌,
}
use harbour_localsend.Platform.{ascii}
use harbour_localsend.Crypto.{equals_bytes}
use harbour_localsend.Protocol.{trimmed, trim_start, trim_end}
use harbour_localsend.AppSettings.{
  AppSettings, set_port, set_alias, set_pin, check_pin, add_manual_device, remove_manual_device,
}
use harbour_localsend.AppSettings.Pin.{check_pin-set_pin, check_pin-removed}
use harbour_localsend.AppSettings.Manual.{
  is_listed, Distinct, add_manual_device-is_listed, remove_manual_device-is_listed,
}

app : Unit {0}
unfolding set_port set_alias set_pin check_pin add_manual_device remove_manual_device equals_bytes
    trimmed trim_start trim_end text_eq
app = tt

abbrev fresh : AppSettings
fresh = record {
  alias = codes "Phone";
  fingerprint = codes "ff";
  port = 53317;
  destination = codes "/home";
  folder_per_sender = false;
  receive_enabled = true;
  quick_save = false;
  pin_enabled = true;
  pin_salt = [];
  pin_hash = [];
  history_enabled = true;
  manual_devices = codes "10.0.0.2" ∷ [];
}

setters :
    ((set_port 80 fresh).port ≡ 53317)
    × ((set_port 8080 fresh).port ≡ 8080)
    × ((set_alias ascii (codes " Ann ") fresh).alias ≡ codes "Ann")
    × (check_pin ascii (set_pin ascii (codes "1234") (codes "salt") fresh) (codes "1234") ≡ true)
    × (check_pin ascii (set_pin ascii (codes "1234") (codes "salt") fresh) (codes "1235") ≡ false)
unfolding app
setters = (refl, refl, refl, refl, refl)

check_pin-set_pin_example :
    (check_pin ascii (set_pin ascii (codes "1234") (codes "salt") fresh) (codes "1235") ≡ true) ↔ (
      ascii.derive_key (codes "1235") (codes "salt")
      ≡ ascii.derive_key (codes "1234") (codes "salt"))
check_pin-set_pin_example =
    check_pin-set_pin ascii fresh (codes "1234") (codes "salt") (codes "1235") refl refl refl refl

check_pin-removed_example :
    check_pin ascii (set_pin ascii [] (codes "salt") fresh) (codes "1235") ≡ true
check_pin-removed_example = check_pin-removed ascii fresh (codes "salt") (codes "1235")

add_manual_device-is_listed_example :
    (is_listed (codes "b") (add_manual_device ascii (codes " b ") fresh).manual_devices ≡ (
      text_eq (trimmed ascii (codes " b ")) (codes "b")
      || is_listed (codes "b") fresh.manual_devices))
    × Distinct (add_manual_device ascii (codes " b ") fresh).manual_devices
unfolding app
add_manual_device-is_listed_example =
    add_manual_device-is_listed ascii fresh (codes " b ") (codes "b") refl (refl, tt)

remove_manual_device-is_listed_example :
    (is_listed (codes "10.0.0.2") (remove_manual_device (codes "10.0.0.2") fresh).manual_devices ≡ (
      if text_eq (codes "10.0.0.2") (codes "10.0.0.2")
      then false
      else is_listed (codes "10.0.0.2") fresh.manual_devices))
    × Distinct (remove_manual_device (codes "10.0.0.2") fresh).manual_devices
remove_manual_device-is_listed_example =
    remove_manual_device-is_listed fresh (codes "10.0.0.2") (codes "10.0.0.2") (refl, tt)
