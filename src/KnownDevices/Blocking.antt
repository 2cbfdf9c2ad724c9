-- ===== src/KnownDevices/Blocking.antt =====
-- src/knowndevices.cpp, blocks: what sets one, and that nothing else touches one.
use harbour_localsend.Common.{
  ℕ, ◌≡◌, refl, arith, Bool, true, false, List, [], ◌∷◌, Option, none, some, is_empty, Text,
  text_eq, text_eq_iff, find, find-insert, find-remove, contains-find, KeysDistinct, if◌then◌else◌,
  Option-cases, inl, inr,
}
use harbour_localsend.Platform.{Platform}
use harbour_localsend.KnownDevices.{
  Entry, KnownDevices, new_entry, save_changed, set_blocked, remember, forget, forget_all,
  kept_blocks, is_blocked,
}
use harbour_localsend.KnownDevices.Invariant.{
  IsValid, Call, block, remembers, forgets, forgets_all, step,
}

-- The entry that `kept` has for one on record.
abbrev pub kept_entry : ℕ → Option Entry → Option Entry
kept_entry now none = none
kept_entry now (some e) =
    if e.blocked then some (record new_entry { blocked = true; first_seen = some now }) else none

pub find-kept_blocks :
    (now : ℕ) (key : Text) (m : List (Text × Entry))
    → KeysDistinct m
    → find key (kept_blocks now m) ≡ kept_entry now (find key m)
unfolding kept_blocks find
find-kept_blocks now key [] d = refl
find-kept_blocks now key ((j, w) ∷ m) d =
    ground (arith, text_eq_iff j key, find-kept_blocks now key m d.1, contains-find key m)

abbrev pub is_block : Call → Bool
is_block (block f a b now) = true
is_block _ = false

module _ (q : Platform) where
  open q use {to_upper}

  -- A block is set and lifted for the key that is named, in either case, and for no other.
  pub is_blocked-set_blocked :
      (k : KnownDevices) (fingerprint alias : Text) (blocked : Bool) (now : ℕ) (other : Text)
      → is_empty fingerprint ≡ false
      → is_empty other ≡ false
      → is_blocked q (set_blocked q k fingerprint alias blocked now) other ≡ (
          if text_eq (to_upper fingerprint) (to_upper other) then blocked else is_blocked q k other)
  unfolding is_blocked set_blocked save_changed
  is_blocked-set_blocked k f a b now g hf hg = elim (Option-cases (find (to_upper f) k.entries)) [
    | inl e ↦ ground (
      arith,
      text_eq_iff (to_upper f) (to_upper g),
      find-insert (to_upper f) (to_upper g)
          (record { alias = a; first_seen = some now; paired = false; blocked = true }) k.entries,
    )
    | inr (w, e) ↦ ground (
      arith,
      text_eq_iff (to_upper f) (to_upper g),
      find-insert (to_upper f) (to_upper g)
          (record w { blocked = b; alias = if is_empty a then w.alias else a }) k.entries,
    )
  ]

  -- Forgetting a device leaves every block in place, also its own.
  is_blocked-forget :
      (k : KnownDevices) (fingerprint : Text) (now : ℕ) (other : Text)
      → is_blocked q (forget q k fingerprint now) other ≡ is_blocked q k other
  unfolding is_blocked forget save_changed
  is_blocked-forget k f now g = elim (Option-cases (find (to_upper f) k.entries)) [
    | inl e ↦ ground arith
    | inr (w, e) ↦ ground (
      arith,
      text_eq_iff (to_upper f) (to_upper g),
      find-remove (to_upper f) (to_upper g) k.entries,
      find-insert (to_upper f) (to_upper g)
          (record w { alias = []; paired = false; first_seen = some now }) k.entries,
    )
  ]

  -- So does forgetting every device at once.
  is_blocked-forget_all :
      (k : KnownDevices) (now : ℕ) (other : Text)
      → IsValid q k
      → is_blocked q (forget_all q k now) other ≡ is_blocked q k other
  unfolding is_blocked forget_all save_changed
  is_blocked-forget_all k now g v =
      ground (arith, find-kept_blocks now (to_upper g) k.entries v.distinct)

  -- And a completed transfer neither sets nor lifts a block.
  is_blocked-remember :
      (k : KnownDevices) (fingerprint alias : Text) (now : ℕ) (other : Text)
      → is_blocked q (remember q k fingerprint alias now) other ≡ is_blocked q k other
  unfolding is_blocked remember save_changed
  is_blocked-remember k f a now g = elim (Option-cases (find (to_upper f) k.entries)) [
    | inl e ↦ ground (
      arith,
      text_eq_iff (to_upper f) (to_upper g),
      find-insert (to_upper f) (to_upper g)
          (record { alias = a; first_seen = some now; paired = true; blocked = false }) k.entries,
    )
    | inr (w, e) ↦ ground (
      arith,
      text_eq_iff (to_upper f) (to_upper g),
      find-insert (to_upper f) (to_upper g) (record w { alias = a; paired = true }) k.entries,
    )
  ]

  -- Only setBlocked changes what is blocked: a completed transfer, forgetting one device and
  -- forgetting them all leave every block as it was.
  pub is_blocked-step :
      (k : KnownDevices) (c : Call) (other : Text)
      → IsValid q k
      → is_block c ≡ false
      → is_blocked q (step q k c) other ≡ is_blocked q k other
  unfolding step
  is_blocked-step k (block f a b now) g v h = cc
  is_blocked-step k (remembers f a now) g v h = is_blocked-remember k f a now g
  is_blocked-step k (forgets f now) g v h = is_blocked-forget k f now g
  is_blocked-step k (forgets_all now) g v h = is_blocked-forget_all k now g v
