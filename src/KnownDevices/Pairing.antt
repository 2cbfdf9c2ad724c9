-- ===== src/KnownDevices/Pairing.antt =====
-- src/knowndevices.cpp, pairings: a key is known after a completed exchange, until it is forgotten.
use harbour_localsend.Common.{
  ℕ, ◌≡◌, refl, arith, Bool, true, false, List, [], ◌∷◌, some, is_empty, exists, Text, text_eq,
  text_eq_iff, find, find-insert, find-remove, if◌then◌else◌, Option-cases, inl, inr,
}
use harbour_localsend.Platform.{Platform}
use harbour_localsend.KnownDevices.{
  Entry, KnownDevices, entry_or_new, save_changed, set_blocked, remember, forget, forget_all,
  is_known,
}
use harbour_localsend.KnownDevices.Invariant.{IsValid}
use harbour_localsend.KnownDevices.Blocking.{find-kept_blocks}

find-unpaired :
    (key : Text) (m : List (Text × Entry))
    → exists (λ b. b.1.paired) m ≡ false
    → (entry_or_new (find key m)).paired ≡ false
unfolding find
find-unpaired key [] h = refl
find-unpaired key ((j, w) ∷ m) h = ground (arith, find-unpaired key m)

module _ (q : Platform) where
  open q use {to_upper}

  -- After a completed transfer the device is known by its key, in either case, whether it was
  -- blocked or not; no other key becomes known or stops being so.
  pub is_known-remember :
      (k : KnownDevices) (fingerprint alias : Text) (now : ℕ) (other : Text)
      → is_empty fingerprint ≡ false
      → is_empty other ≡ false
      → is_known q (remember q k fingerprint alias now) other
        ≡ (if text_eq (to_upper fingerprint) (to_upper other) then true else is_known q k other)
  unfolding is_known remember save_changed
  is_known-remember k f a now g hf hg = elim (Option-cases (find (to_upper f) k.entries)) [
    | inl e ↦ ground (
      arith,
      text_eq_iff (to_upper f) (to_upper g),
      find-insert (to_upper f) (to_upper g)
          (record { alias = a; first_seen = some now; paired = true; blocked = false }) k.entries,
    )
    | inr (w, e) ↦ ground (
      arith,
      text_eq_iff (to_upper f) (to_upper g),
      find-insert (to_upper f) (to_upper g) (record w { alias = a; paired = true }) k.entries,
    )
  ]

  -- Blocking a device, or lifting its block, makes no key known and no known key unknown.
  pub is_known-set_blocked :
      (k : KnownDevices) (fingerprint alias : Text) (blocked : Bool) (now : ℕ) (other : Text)
      → is_known q (set_blocked q k fingerprint alias blocked now) other ≡ is_known q k other
  unfolding is_known set_blocked save_changed
  is_known-set_blocked k f a b now g = elim (Option-cases (find (to_upper f) k.entries)) [
    | inl e ↦ ground (
      arith,
      text_eq_iff (to_upper f) (to_upper g),
      find-insert (to_upper f) (to_upper g)
          (record { alias = a; first_seen = some now; paired = false; blocked = true }) k.entries,
    )
    | inr (w, e) ↦ ground (
      arith,
      text_eq_iff (to_upper f) (to_upper g),
      find-insert (to_upper f) (to_upper g)
          (record w { blocked = b; alias = if is_empty a then w.alias else a }) k.entries,
    )
  ]

  -- Forgetting a device makes its key unknown, and no other.
  pub is_known-forget :
      (k : KnownDevices) (fingerprint : Text) (now : ℕ) (other : Text)
      → is_known q (forget q k fingerprint now) other
        ≡ (if text_eq (to_upper fingerprint) (to_upper other) then false else is_known q k other)
  unfolding is_known forget save_changed
  is_known-forget k f now g = elim (Option-cases (find (to_upper f) k.entries)) [
    | inl e ↦ ground (arith, text_eq_iff (to_upper f) (to_upper g))
    | inr (w, e) ↦ ground (
      arith,
      text_eq_iff (to_upper f) (to_upper g),
      find-remove (to_upper f) (to_upper g) k.entries,
      find-insert (to_upper f) (to_upper g)
          (record w { alias = []; paired = false; first_seen = some now }) k.entries,
    )
  ]

  -- After forgetting all, no key is known, also where only the early return was taken.
  pub is_known-forget_all :
      (k : KnownDevices) (now : ℕ) (other : Text)
      → IsValid q k
      → is_known q (forget_all q k now) other ≡ false
  unfolding is_known forget_all save_changed find
  is_known-forget_all k now g v = ground (
    arith,
    find-kept_blocks now (to_upper g) k.entries v.distinct,
    find-unpaired (to_upper g) k.entries,
  )
