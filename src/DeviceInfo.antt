-- ===== src/DeviceInfo.antt =====
-- src/deviceinfo.cpp: what a payload from the network says of a device. A `Payload` is the JSON
-- object after Qt's readings: a text that is missing reads as empty, a port that is no number as none.
mod Tests
use harbour_localsend.Common.{
  ℕ, ◌≤◌, ◌≡◌, refl, arith, Bool, true, false, List, [], Option, none, some, is_empty, length,
  if◌then◌else◌, Text, codes, text_eq, ℤ, pos, Bool-cases, inl, inr, ◌≢◌, ◌⊎◌, text_eq_iff,
}
use harbour_localsend.Platform.{Platform}
use harbour_localsend.Protocol.{default_port, sanitize_text, is_stripped}
use harbour_localsend.Protocol.Sanitize.{
  IsClean, kept-IsClean, sanitize_text-IsClean, length-sanitize_text,
}

pub record Payload : Type 0 where
  pub alias : Text
  pub version : Text
  pub device_model : Text
  pub device_type : Text
  pub fingerprint : Text
  pub download : Bool
  pub port : Option ℤ
  pub protocol : Text

pub record DeviceInfo : Type 0 where
  pub alias : Text
  pub version : Text
  pub device_model : Text
  pub device_type : Text
  pub fingerprint : Text
  pub port : ℤ
  pub protocol : Text
  pub download : Bool
  pub address : Text
  pub last_seen : Option ℕ  -- none: an invalid QDateTime

-- `DeviceInfo()`
abbrev pub new_device : DeviceInfo
new_device = record {
  alias = [];
  version = [];
  device_model = [];
  device_type = [];
  fingerprint = [];
  port = pos default_port;
  protocol = codes "http";
  download = false;
  address = [];
  last_seen = none;
}

abbrev pub port_or_default : Option ℤ → ℤ
port_or_default none = pos default_port
port_or_default (some p) = p

abbrev pub non_empty_or : Text → Text → Text
non_empty_or default text = if is_empty text then default else text

module _ (q : Platform) where
  unfoldable pub from_payload : Payload → DeviceInfo
  from_payload p = record {
    alias = non_empty_or (codes "Unknown device") (sanitize_text q p.alias 64);
    version = sanitize_text q p.version 16;
    device_model = sanitize_text q p.device_model 64;
    device_type = non_empty_or (codes "desktop") (sanitize_text q p.device_type 16);
    fingerprint = sanitize_text q p.fingerprint 128;
    port = port_or_default p.port;
    protocol = if text_eq p.protocol (codes "https") then p.protocol else codes "http";
    download = p.download;
    address = [];
    last_seen = none;
  }

  -- Every text that a page shows of a device.
  pub record IsShown (d : DeviceInfo) : Type 0 where
    pub alias : IsClean d.alias × (length d.alias ≤ 64) × (d.alias ≢ [])
    pub version : IsClean d.version × (length d.version ≤ 16)
    pub device_model : IsClean d.device_model × (length d.device_model ≤ 64)
    pub device_type : IsClean d.device_type × (length d.device_type ≤ 16) × (d.device_type ≢ [])
    pub fingerprint : IsClean d.fingerprint × (length d.fingerprint ≤ 128)
    pub protocol : (d.protocol ≡ codes "https") ⊎ (d.protocol ≡ codes "http")

  filled :
      (default t : Text) (n : ℕ)
      → IsClean default × (length default ≤ n) × (default ≢ [])
      → IsClean (non_empty_or default (sanitize_text q t n))
        × (length (non_empty_or default (sanitize_text q t n)) ≤ n)
        × (non_empty_or default (sanitize_text q t n) ≢ [])
  filled default t n d = elim (Bool-cases (is_empty (sanitize_text q t n))) [
    | inl e ↦ rw e d
    | inr e ↦ rw e (
      sanitize_text-IsClean q t n,
      length-sanitize_text q t n,
      λ h. full (sanitize_text q t n) e h,
    )
  ]
    where
      full : (s : Text) → is_empty s ≡ false → s ≢ []
      full s e h = ground arith

  -- Whatever a peer sends, the alias, version, model, type and fingerprint that are read from it hold
  -- no control, bidirectional or invisible character of those that the filter knows and no angle
  -- bracket, and are within their limits of 64, 16, 64, 16 and 128; the alias and the type are not
  -- empty, and the protocol is http or https.
  pub from_payload-IsShown : (p : Payload) → IsShown (from_payload p)
  unfolding from_payload
  from_payload-IsShown p = record {
    alias = filled (codes "Unknown device") p.alias 64 (
      kept-IsClean (codes "Unknown device") (unfold is_stripped in ground arith),
      omega arith,
      λ e. cc,
    );
    version = (sanitize_text-IsClean q p.version 16, length-sanitize_text q p.version 16);
    device_model =
        (sanitize_text-IsClean q p.device_model 64, length-sanitize_text q p.device_model 64);
    device_type =
        filled (codes "desktop") p.device_type 16 (
          kept-IsClean (codes "desktop") (unfold is_stripped in ground arith),
          omega arith,
          λ e. cc,
        );
    fingerprint =
        (sanitize_text-IsClean q p.fingerprint 128, length-sanitize_text q p.fingerprint 128);
    protocol = elim (Bool-cases (text_eq p.protocol (codes "https"))) [
      | inl safe ↦ rw safe (inl ((text_eq_iff p.protocol (codes "https")).0 safe))
      | inr other ↦ rw other (inr refl)
    ];
  }
