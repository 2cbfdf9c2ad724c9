-- ===== src/AppSettings.antt =====
-- src/appsettings.cpp: the PIN, the settings that the receiver reads, and the remembered devices.
-- Writing the settings file to disk and the pages' signals are not modelled.
pub mod Pin
pub mod Manual
mod Tests
use harbour_localsend.Common.{
  ℕ, Bool, true, false, not, ◌&&◌, ◌||◌, List, [], ◌∷◌, ◌++◌, Option, is_empty, exists, keep, leb,
  ltb, ◌==◌, if◌then◌else◌, Text, text_eq,
}
use harbour_localsend.Platform.{Platform}
use harbour_localsend.Crypto.{equals_bytes}
use harbour_localsend.Protocol.{trimmed}

pub record AppSettings : Type 0 where
  pub alias : Text
  pub fingerprint : Text
  pub port : ℕ
  pub destination : Text
  pub folder_per_sender : Bool
  pub receive_enabled : Bool
  pub quick_save : Bool
  pub pin_enabled : Bool
  pub pin_salt : Text  -- empty: no such key
  pub pin_hash : Text
  pub history_enabled : Bool
  pub manual_devices : List Text

unfoldable pub set_port : ℕ → AppSettings → AppSettings
set_port port s =
    if ltb port 1024 || ltb 65535 port || port == s.port then s else record s { port = port }

module _ (q : Platform) where
  open q use {derive_key}

  unfoldable pub set_alias : Text → AppSettings → AppSettings
  set_alias alias s =
      let name = trimmed q alias in
      if is_empty name || text_eq name s.alias then s else record s { alias = name }

  -- `salt` is what the random source gave, empty where it failed.
  unfoldable pub set_pin : Text → Text → AppSettings → AppSettings
  set_pin pin salt s =
      let hash = derive_key pin salt in
      if is_empty pin
      then record s { pin_salt = []; pin_hash = [] }
      else if is_empty salt
      then s
      else if is_empty hash
      then s
      else record s { pin_salt = salt; pin_hash = hash }

  unfoldable pub check_pin : AppSettings → Text → Bool
  check_pin s candidate =
      let derived = derive_key candidate s.pin_salt in
      if not s.pin_enabled
      then true
      else if is_empty s.pin_salt || is_empty s.pin_hash
      then true
      else if is_empty derived
      then false
      else equals_bytes q derived s.pin_hash

  unfoldable pub add_manual_device : Text → AppSettings → AppSettings
  add_manual_device endpoint s =
      let name = trimmed q endpoint in
      if is_empty name
      then s
      else if exists (λ d. text_eq d name) s.manual_devices
      then s
      else record s { manual_devices = s.manual_devices ++ name ∷ [] }

unfoldable pub remove_manual_device : Text → AppSettings → AppSettings
remove_manual_device endpoint s = record s {
  manual_devices = keep (λ d. not (text_eq d endpoint)) s.manual_devices;
}
