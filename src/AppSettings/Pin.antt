-- ===== src/AppSettings/Pin.antt =====
-- src/appsettings.cpp, setPin and checkPin: which codes open the device.
use harbour_localsend.Common.{◌≡◌, ◌↔◌, arith, true, false, [], is_empty, Text}
use harbour_localsend.Platform.{Platform}
use harbour_localsend.Crypto.{equals_bytes_iff}
use harbour_localsend.AppSettings.{AppSettings, set_pin, check_pin}

module _ (q : Platform) where
  open q use {derive_key}

  -- With a PIN set and required, a code is let in exactly when it derives the same key as the PIN
  -- under the salt that was drawn: the PIN itself always is, and a failed derivation never is.
  pub check_pin-set_pin :
      (s : AppSettings) (pin salt candidate : Text)
      → s.pin_enabled ≡ true
      → is_empty pin ≡ false
      → is_empty salt ≡ false
      → is_empty (derive_key pin salt) ≡ false
      → (check_pin q (set_pin q pin salt s) candidate ≡ true)
        ↔ (derive_key candidate salt ≡ derive_key pin salt)
  unfolding check_pin set_pin
  check_pin-set_pin s pin salt candidate on hp hs hd =
      ground (arith, equals_bytes_iff q (derive_key candidate salt) (derive_key pin salt))

  -- A PIN that was removed, or was never set, stops nobody, whether one is required or not.
  pub check_pin-removed :
      (s : AppSettings) (salt candidate : Text) → check_pin q (set_pin q [] salt s) candidate ≡ true
  unfolding check_pin set_pin
  check_pin-removed s salt candidate = ground arith
