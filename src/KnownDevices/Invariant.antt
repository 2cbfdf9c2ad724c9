-- ===== src/KnownDevices/Invariant.antt =====
-- src/knowndevices.cpp, what every state satisfies: keys are distinct, not empty and in upper case,
-- and the store holds the entries.
use harbour_localsend.Common.{
  ℕ, ◌≡◌, ◌≢◌, refl, arith, Bool, true, false, not, List, [], ◌∷◌, map, Option, none, some,
  is_empty, All, Text, text_eq, text_eq_iff, find, contains, insert, remove, KeysDistinct,
  insert-KeysDistinct, remove-KeysDistinct, Bool-cases, length, exists, ◌==◌, ◌&&◌, ◌||◌, inl, inr,
}
use harbour_localsend.Platform.{Platform}
use harbour_localsend.KnownDevices.{
  Entry, KnownDevices, write_row, save_changed, set_blocked, remember, forget, forget_all,
  kept_blocks, remember_at, set_blocked_at, forget_at,
}

module _ {ℓ κ} {V : Type ℓ} (P : Text → Type κ) where
  pub All-insert :
      (k : Text) (v : V) (m : List (Text × V))
      → P k
      → All (λ b. P b.0) m
      → All (λ b. P b.0) (insert k v m)
  unfolding insert
  All-insert k v [] p h = (p, tt)
  All-insert k v ((j, w) ∷ m) p h = ground (arith, p, h.0, h.1, All-insert k v m p h.1)

  pub All-remove :
      (k : Text) (m : List (Text × V)) → All (λ b. P b.0) m → All (λ b. P b.0) (remove k m)
  unfolding remove
  All-remove k [] h = tt
  All-remove k ((j, w) ∷ m) h = ground (arith, h.0, h.1, All-remove k m h.1)

-- The calls that change what is known, with the time at which they are made.
pub data Call : Type 0 where
  block : Text → Text → Bool → ℕ → Call
  remembers : Text → Text → ℕ → Call
  forgets : Text → ℕ → Call
  forgets_all : ℕ → Call

module _ (q : Platform) where
  open q use {to_upper, to_upper_idem, to_upper_empty}

  abbrev pub IsKey : Text → Type 0
  IsKey key = (to_upper key ≡ key) × (key ≢ [])

  pub record IsValid (k : KnownDevices) : Type 0 where
    pub distinct : KeysDistinct k.entries
    pub keys : All (λ b. IsKey b.0) k.entries
    pub saved : k.file ≡ map write_row k.entries

  pub to_upper-IsKey :
      (fingerprint : Text) → is_empty fingerprint ≡ false → IsKey (to_upper fingerprint)
  to_upper-IsKey fingerprint h = (to_upper_idem fingerprint, λ e. absurd_empty (to_upper_empty _ e))
    where
      absurd_empty : fingerprint ≡ [] → ⊥
      absurd_empty e = ground arith

  save_changed-IsValid :
      (k : KnownDevices) (m : List (Text × Entry))
      → KeysDistinct m
      → All (λ b. IsKey b.0) m
      → IsValid (save_changed q m k)
  unfolding save_changed
  save_changed-IsValid k m d h = record { distinct = d; keys = h; saved = refl }

  insert-IsValid :
      (k : KnownDevices) (key : Text) (e : Entry)
      → IsKey key
      → IsValid k
      → IsValid (save_changed q (insert key e k.entries) k)
  insert-IsValid k key e h v =
      save_changed-IsValid k _ (insert-KeysDistinct key e k.entries v.distinct)
        (All-insert IsKey key e k.entries h v.keys)

  remember_at-IsValid :
      (k : KnownDevices) (key alias : Text) (now : ℕ) (o : Option Entry)
      → IsKey key
      → IsValid k
      → IsValid (remember_at q k key alias now o)
  unfolding remember_at
  remember_at-IsValid k key alias now none h v = insert-IsValid k key _ h v
  remember_at-IsValid k key alias now (some e) h v =
      elim (Bool-cases (e.paired && text_eq e.alias alias)) [
        | inl same ↦ rw same v
        | inr fresh ↦ rw fresh (insert-IsValid k key _ h v)
      ]

  pub remember-IsValid :
      (k : KnownDevices) (fingerprint alias : Text) (now : ℕ)
      → IsValid k
      → IsValid (remember q k fingerprint alias now)
  unfolding remember
  remember-IsValid k f a now v = elim (Bool-cases (is_empty f)) [
    | inl e ↦ rw e v
    | inr e ↦ rw e (remember_at-IsValid k _ a now _ (to_upper-IsKey f e) v)
  ]

  set_blocked_at-IsValid :
      (k : KnownDevices) (key alias : Text) (blocked : Bool) (now : ℕ) (o : Option Entry)
      → IsKey key
      → IsValid k
      → IsValid (set_blocked_at q k key alias blocked now o)
  unfolding set_blocked_at
  set_blocked_at-IsValid k key alias true now none h v = insert-IsValid k key _ h v
  set_blocked_at-IsValid k key alias false now none h v = v
  set_blocked_at-IsValid k key alias blocked now (some e) h v =
      elim (Bool-cases ((e.blocked && blocked) || (not e.blocked && not blocked))) [
        | inl same ↦ rw same v
        | inr fresh ↦ rw fresh (insert-IsValid k key _ h v)
      ]

  set_blocked-IsValid :
      (k : KnownDevices) (fingerprint alias : Text) (blocked : Bool) (now : ℕ)
      → IsValid k
      → IsValid (set_blocked q k fingerprint alias blocked now)
  unfolding set_blocked
  set_blocked-IsValid k f a b now v = elim (Bool-cases (is_empty f)) [
    | inl e ↦ rw e v
    | inr e ↦ rw e (set_blocked_at-IsValid k _ a b now _ (to_upper-IsKey f e) v)
  ]

  All-find :
      (key : Text) (m : List (Text × Entry)) {e : Entry}
      → All (λ b. IsKey b.0) m
      → find key m ≡ some e
      → IsKey key
  unfolding find
  All-find key [] h found = cc
  All-find key ((j, w) ∷ m) {e} h found = elim (Bool-cases (text_eq j key)) [
    | inl same ↦ rw (← (text_eq_iff j key).0 same) (h.0)
    | inr other ↦ All-find key m {e = e} h.1 (rw (other, find) at found)
  ]

  forget_at-IsValid :
      (k : KnownDevices) (key : Text) (now : ℕ) (o : Option Entry)
      → find key k.entries ≡ o
      → IsValid k
      → IsValid (forget_at q k key now o)
  unfolding forget_at
  forget_at-IsValid k key now none found v = v
  forget_at-IsValid k key now (some e) found v = elim (Bool-cases e.blocked) [
    | inl b ↦ rw b (insert-IsValid k key _ (All-find key k.entries {e = e} v.keys found) v)
    | inr b ↦ rw b (
        save_changed-IsValid k _ (remove-KeysDistinct key k.entries v.distinct)
          (All-remove IsKey key k.entries v.keys))
  ]

  forget-IsValid :
      (k : KnownDevices) (fingerprint : Text) (now : ℕ)
      → IsValid k
      → IsValid (forget q k fingerprint now)
  unfolding forget
  forget-IsValid k f now v = forget_at-IsValid k (to_upper f) now _ refl v

  contains-kept_blocks :
      (key : Text) (now : ℕ) (m : List (Text × Entry))
      → contains key m ≡ false
      → contains key (kept_blocks now m) ≡ false
  unfolding kept_blocks contains
  contains-kept_blocks key now [] h = refl
  contains-kept_blocks key now ((j, w) ∷ m) h = ground (arith, contains-kept_blocks key now m)

  kept_blocks-KeysDistinct :
      (now : ℕ) (m : List (Text × Entry)) → KeysDistinct m → KeysDistinct (kept_blocks now m)
  unfolding kept_blocks
  kept_blocks-KeysDistinct now [] d = tt
  kept_blocks-KeysDistinct now ((j, w) ∷ m) d =
      ground (arith, contains-kept_blocks j now m d.0, kept_blocks-KeysDistinct now m d.1)

  kept_blocks-All :
      (now : ℕ) (m : List (Text × Entry))
      → All (λ b. IsKey b.0) m
      → All (λ b. IsKey b.0) (kept_blocks now m)
  unfolding kept_blocks
  kept_blocks-All now [] h = tt
  kept_blocks-All now ((j, w) ∷ m) h = elim (Bool-cases w.blocked) [
    | inl b ↦ rw b (h.0, kept_blocks-All now m h.1)
    | inr b ↦ rw b (kept_blocks-All now m h.1)
  ]

  forget_all-IsValid : (k : KnownDevices) (now : ℕ) → IsValid k → IsValid (forget_all q k now)
  unfolding forget_all
  forget_all-IsValid k now v =
      let kept =
        save_changed-IsValid k _ (kept_blocks-KeysDistinct now k.entries v.distinct)
          (kept_blocks-All now k.entries v.keys) in
      elim (Bool-cases (is_empty k.entries)) [
        | inl e ↦ rw e v
        | inr e ↦
            elim (Bool-cases (
              not (length (kept_blocks now k.entries) == length k.entries)
              || exists (λ b. b.1.paired) k.entries)) [
                | inl c ↦ rw (e, c) kept
                | inr c ↦ rw (e, c) v
              ]
      ]

  unfoldable pub step : KnownDevices → Call → KnownDevices
  step k (block f a b now) = set_blocked q k f a b now
  step k (remembers f a now) = remember q k f a now
  step k (forgets f now) = forget q k f now
  step k (forgets_all now) = forget_all q k now

  -- Every call keeps the keys distinct, not empty and in upper case, and leaves the store holding
  -- exactly the entries: a call that returns early has changed nothing, and one that changes
  -- something saves it.
  pub step-IsValid : (k : KnownDevices) (c : Call) → IsValid k → IsValid (step k c)
  unfolding step
  step-IsValid k (block f a b now) v = set_blocked-IsValid k f a b now v
  step-IsValid k (remembers f a now) v = remember-IsValid k f a now v
  step-IsValid k (forgets f now) v = forget-IsValid k f now v
  step-IsValid k (forgets_all now) v = forget_all-IsValid k now v
