-- ===== src/AppSettings/Manual.antt =====
-- src/appsettings.cpp, the devices that were added by hand.
use harbour_localsend.Common.{
  ◌≡◌, refl, arith, Bool, false, not, ◌||◌, List, [], ◌∷◌, ◌++◌, is_empty, exists, keep, Text,
  text_eq, text_eq_iff, if◌then◌else◌,
}
use harbour_localsend.Platform.{Platform}
use harbour_localsend.Protocol.{trimmed}
use harbour_localsend.AppSettings.{AppSettings, add_manual_device, remove_manual_device}

abbrev pub is_listed : Text → List Text → Bool
is_listed d = exists (λ e. text_eq e d)

abbrev pub Distinct : List Text → Type 0
Distinct [] = Unit
Distinct (d ∷ ds) = (is_listed d ds ≡ false) × Distinct ds

is_listed-append :
    (d e : Text) (ds : List Text) → is_listed d (ds ++ e ∷ []) ≡ (is_listed d ds || text_eq e d)
is_listed-append d e [] = ground arith
is_listed-append d e (x ∷ ds) = ground (arith, is_listed-append d e ds)

Distinct-append :
    (e : Text) (ds : List Text) → is_listed e ds ≡ false → Distinct ds → Distinct (ds ++ e ∷ [])
Distinct-append e [] h v = (refl, tt)
Distinct-append e (x ∷ ds) h v =
    ground (arith, is_listed-append x e ds, text_eq_iff e x, text_eq_iff x e, Distinct-append e ds)

is_listed-keep :
    (d e : Text) (ds : List Text)
    → is_listed d (keep (λ x. not (text_eq x e)) ds)
      ≡ (if text_eq e d then false else is_listed d ds)
is_listed-keep d e [] = ground arith
is_listed-keep d e (x ∷ ds) =
    ground (arith, text_eq_iff x e, text_eq_iff e d, text_eq_iff x d, is_listed-keep d e ds)

Distinct-keep :
    (e : Text) (ds : List Text) → Distinct ds → Distinct (keep (λ x. not (text_eq x e)) ds)
Distinct-keep e [] v = tt
Distinct-keep e (x ∷ ds) v = ground (arith, is_listed-keep x e ds, Distinct-keep e ds v.1)

module _ (q : Platform) where
  -- Adding a device lists it, trimmed, and leaves the others listed as they were; no device is ever
  -- listed twice.
  pub add_manual_device-is_listed :
      (s : AppSettings) (endpoint d : Text)
      → is_empty (trimmed q endpoint) ≡ false
      → Distinct s.manual_devices
      → (is_listed d (add_manual_device q endpoint s).manual_devices
          ≡ (text_eq (trimmed q endpoint) d || is_listed d s.manual_devices))
        × Distinct (add_manual_device q endpoint s).manual_devices
  unfolding add_manual_device
  add_manual_device-is_listed s endpoint d h v = ground (
    arith,
    is_listed-append d (trimmed q endpoint) s.manual_devices,
    Distinct-append (trimmed q endpoint) s.manual_devices,
    text_eq_iff (trimmed q endpoint) d,
  )

-- Removing a device takes it off the list and no other, and the list stays free of repetitions.
pub remove_manual_device-is_listed :
    (s : AppSettings) (endpoint d : Text)
    → Distinct s.manual_devices
    → (is_listed d (remove_manual_device endpoint s).manual_devices
        ≡ (if text_eq endpoint d then false else is_listed d s.manual_devices))
      × Distinct (remove_manual_device endpoint s).manual_devices
unfolding remove_manual_device
remove_manual_device-is_listed s endpoint d v =
    (is_listed-keep d endpoint s.manual_devices, Distinct-keep endpoint s.manual_devices v)
