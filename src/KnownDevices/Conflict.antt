-- ===== src/KnownDevices/Conflict.antt =====
-- src/knowndevices.cpp, impersonation: a name that was used before turning up under another key.
use harbour_localsend.Common.{
  ℕ, ◌≡◌, ◌≢◌, refl, ap, arith, Bool, true, false, not, ◌&&◌, List, [], ◌∷◌, Option, none, some,
  is_empty, All, exists, subst, Text, text_eq, text_eq_iff, text_eq_refl, find, find-insert,
  Option-cases, Bool-cases, inl, inr,
}
use harbour_localsend.Platform.{Platform}
use harbour_localsend.Crypto.{equals_fold, equals_fold_iff}
use harbour_localsend.KnownDevices.{
  Entry, KnownDevices, save_changed, remember, expected_in, expected_fingerprint, is_known,
  conflicts,
}
use harbour_localsend.KnownDevices.Invariant.{IsValid, remember-IsValid}

-- A paired entry carries the name.
abbrev pub answers : Option Entry → Text → Bool
answers none alias = false
answers (some e) alias = e.paired && text_eq e.alias alias

expected_in-All :
    (P : Text → Type 0) (m : List (Text × Entry)) (key alias : Text)
    → All (λ b. P b.0) m
    → answers (find key m) alias ≡ true
    → P (expected_in m alias)
unfolding expected_in find
expected_in-All P [] key alias h e = cc
expected_in-All P ((j, w) ∷ m) key alias h e =
    ground (arith, h.0, expected_in-All P m key alias h.1)

find-differs :
    (P : Text → Type 0) (key : Text) (m : List (Text × Entry))
    → All (λ b. P b.0) m
    → ¬ P key
    → find key m ≡ none
unfolding find
find-differs P key [] h n = refl
find-differs P key ((j, w) ∷ m) h n = elim (Bool-cases (text_eq j key)) [
  | inl same ↦ absurd (n (subst P ((text_eq_iff j key).0 same) h.0))
  | inr other ↦ rw (other, find) (find-differs P key m h.1 n)
]

expected_in-exists :
    (p : Text → Bool) (m : List (Text × Entry)) (alias : Text)
    → is_empty (expected_in m alias) ≡ false
    → p (expected_in m alias) ≡ true
    → exists (λ b. (b.1.paired && text_eq b.1.alias alias) && p b.0) m ≡ true
unfolding expected_in
expected_in-exists p [] alias h e = cc
expected_in-exists p ((j, w) ∷ m) alias h e = ground (arith, expected_in-exists p m alias)

module _ (q : Platform) where
  open q use {to_upper, to_upper_idem, to_utf8}

  -- Two fingerprints that are the same in no spelling.
  abbrev pub Differs : Text → Text → Type 0
  Differs left right = to_utf8 (to_upper left) ≢ to_utf8 (to_upper right)

  both :
      (g : Text) (m : List (Text × Entry))
      → All (λ b. (to_upper b.0 ≡ b.0) × (b.0 ≢ [])) m
      → All (λ b. Differs b.0 g) m
      → All (λ b. (b.0 ≢ []) × Differs b.0 g) m
  both g [] h d = tt
  both g (b ∷ m) h d = ((h.0.1, d.0), both g m h.1 d.1)

  is_known-Differs :
      (k : KnownDevices) (g : Text) → All (λ b. Differs b.0 g) k.entries → is_known q k g ≡ false
  unfolding is_known
  is_known-Differs k g d = ground (
    arith,
    find-differs (λ key. Differs key g) (to_upper g) k.entries d
        (λ n. n (ap to_utf8 (to_upper_idem g))),
  )

  conflicts_of_answers :
      (k : KnownDevices) (key alias g : Text)
      → IsValid q k
      → is_empty alias ≡ false
      → is_empty g ≡ false
      → answers (find key k.entries) alias ≡ true
      → All (λ b. Differs b.0 g) k.entries
      → conflicts q k g alias ≡ true
  unfolding conflicts expected_fingerprint
  conflicts_of_answers k key alias g v ha hg e d =
      let (nonempty, differs) =
        expected_in-All (λ t. (t ≢ []) × Differs t g) k.entries key alias
          (both g k.entries v.keys d) e in
      ground (
        arith,
        is_known-Differs k g d,
        nonempty,
        differs,
        equals_fold_iff q (expected_in k.entries alias) g,
      )

  answers-remember :
      (k : KnownDevices) (fingerprint alias : Text) (now : ℕ)
      → is_empty fingerprint ≡ false
      → answers (find (to_upper fingerprint) (remember q k fingerprint alias now).entries) alias
        ≡ true
  unfolding remember save_changed
  answers-remember k f a now hf = elim (Option-cases (find (to_upper f) k.entries)) [
    | inl e ↦ ground (
      arith,
      text_eq_refl (to_upper f),
      text_eq_refl a,
      find-insert (to_upper f) (to_upper f)
          (record { alias = a; first_seen = some now; paired = true; blocked = false }) k.entries,
    )
    | inr (w, e) ↦ ground (
      arith,
      text_eq_refl (to_upper f),
      text_eq_refl a,
      find-insert (to_upper f) (to_upper f) (record w { alias = a; paired = true }) k.entries,
    )
  ]

  -- Impersonation shows: once a transfer with a device under a name has completed, that name
  -- under a key that is none of those on record, in any spelling, is reported as a conflict.
  pub conflicts-remember :
      (k : KnownDevices) (fingerprint alias : Text) (now : ℕ) (impostor : Text)
      → IsValid q k
      → is_empty fingerprint ≡ false
      → is_empty alias ≡ false
      → is_empty impostor ≡ false
      → All (λ b. Differs b.0 impostor) (remember q k fingerprint alias now).entries
      → conflicts q (remember q k fingerprint alias now) impostor alias ≡ true
  conflicts-remember k f a now g v hf ha hg d =
      conflicts_of_answers (remember q k f a now) (to_upper f) a g (remember-IsValid q k f a now v)
        ha hg (answers-remember k f a now hf) d

  -- No false alarm: a conflict is reported only for a key with which no transfer has completed,
  -- and only if one has completed under that name with another key. A block alone never reports one.
  pub conflicts_sound :
      (k : KnownDevices) (fingerprint alias : Text)
      → conflicts q k fingerprint alias ≡ true
      → (is_known q k fingerprint ≡ false)
        × (exists
              (λ b. (b.1.paired && text_eq b.1.alias alias) && not (equals_fold q b.0 fingerprint))
              k.entries
            ≡ true)
  unfolding conflicts expected_fingerprint
  conflicts_sound k f a h =
      ground (arith, expected_in-exists (λ key. not (equals_fold q key f)) k.entries a)
