-- ===== src/KnownDevices.antt =====
-- src/knowndevices.cpp: which key belongs to which name, and which keys are blocked.
-- The current time is an argument. `file` is what `save` handed to the store last, and `load` is given
-- what comes from there; SecureStore and the JSON between them are not modelled.
pub mod Invariant
pub mod Blocking
pub mod Pairing
pub mod Conflict
pub mod Storage
mod Tests
use harbour_localsend.Common.{
  ℕ, suc, ◌+◌, Bool, true, false, not, ◌&&◌, ◌||◌, List, [], ◌∷◌, map, Option, none, some, length,
  is_empty, exists, ◌==◌, if◌then◌else◌, Text, text_eq, find, insert, remove,
}
use harbour_localsend.Platform.{Platform}
use harbour_localsend.Crypto.{equals_fold}

pub record Entry : Type 0 where
  pub alias : Text
  pub first_seen : Option ℕ  -- none: an invalid QDateTime
  pub paired : Bool
  pub blocked : Bool

-- `Entry()`, which QHash::value also gives for a key that is not there.
abbrev pub new_entry : Entry
new_entry = record { alias = []; first_seen = none; paired = false; blocked = false }

abbrev pub entry_or_new : Option Entry → Entry
entry_or_new none = new_entry
entry_or_new (some e) = e

-- A member of the object that is saved and read, each of whose fields may be missing there.
pub record Row : Type 0 where
  pub alias : Option Text
  pub first_seen : Option ℕ
  pub paired : Option Bool
  pub blocked : Option Bool

pub record KnownDevices : Type 0 where
  pub entries : List (Text × Entry)
  pub file : List (Text × Row)
  pub changes : ℕ  -- how often `changed` was emitted

abbrev pub or_else {ℓ} : {A : Type ℓ} → A → Option A → A
or_else d none = d
or_else d (some a) = a

-- the body of the loop in `load`
unfoldable pub read_row : Row → Entry
read_row r =
    let blocked : Bool = or_else false r.blocked in
    record {
      alias = or_else [] r.alias;
      first_seen = some (or_else 0 r.first_seen);
      paired = or_else (not blocked) r.paired;
      blocked = blocked;
    }

-- the body of the loop in `save`
unfoldable pub write_row : Text × Entry → Text × Row
write_row (key, e) = (
  key,
  record {
    alias = some e.alias;
    first_seen = some (or_else 0 e.first_seen);
    paired = some e.paired;
    blocked = some e.blocked;
  },
)

-- `kept` in `forgetAll`: the blocks, with nothing else that was known of them.
unfoldable pub kept_blocks : ℕ → List (Text × Entry) → List (Text × Entry)
kept_blocks now [] = []
kept_blocks now ((key, e) ∷ m) =
    if e.blocked
    then (key, record new_entry { blocked = true; first_seen = some now }) ∷ kept_blocks now m
    else kept_blocks now m

-- the loop of `expectedFingerprint`
unfoldable pub expected_in : List (Text × Entry) → Text → Text
expected_in [] alias = []
expected_in ((key, e) ∷ m) alias =
    if e.paired && text_eq e.alias alias then key else expected_in m alias

module _ (q : Platform) where
  open q use {to_upper}

  unfoldable pub load_rows : List (Text × Row) → List (Text × Entry) → List (Text × Entry)
  load_rows [] entries = entries
  load_rows ((fingerprint, r) ∷ rows) entries =
      load_rows rows (insert (to_upper fingerprint) (read_row r) entries)

  -- the constructor
  unfoldable pub load : List (Text × Row) → KnownDevices
  unfolding load_rows
  load rows = record { entries = load_rows rows []; file = rows; changes = 0 }

  -- `save(); emit changed();`
  unfoldable pub save_changed : List (Text × Entry) → KnownDevices → KnownDevices
  save_changed entries k = record {
    entries = entries;
    file = map write_row entries;
    changes = k.changes + 1;
  }

  unfoldable pub is_blocked : KnownDevices → Text → Bool
  is_blocked k fingerprint =
      if is_empty fingerprint
      then false
      else (entry_or_new (find (to_upper fingerprint) k.entries)).blocked

  unfoldable pub is_known : KnownDevices → Text → Bool
  is_known k fingerprint =
      not (is_empty fingerprint) && (entry_or_new (find (to_upper fingerprint) k.entries)).paired

  set_blocked_at : KnownDevices → Text → Text → Bool → ℕ → Option Entry → KnownDevices
  set_blocked_at k key alias blocked now none =
      if not blocked
      then k
      else save_changed
          (insert key
            (record { alias = alias; first_seen = some now; paired = false; blocked = true })
            k.entries)
          k
  set_blocked_at k key alias blocked now (some e) =
      if (e.blocked && blocked) || (not e.blocked && not blocked)
      then k
      else save_changed
          (insert key
            (record e { blocked = blocked; alias = if is_empty alias then e.alias else alias })
            k.entries)
          k

  unfoldable pub set_blocked : KnownDevices → Text → Text → Bool → ℕ → KnownDevices
  unfolding set_blocked_at
  set_blocked k fingerprint alias blocked now =
      if is_empty fingerprint
      then k
      else set_blocked_at k (to_upper fingerprint) alias blocked now
          (find (to_upper fingerprint) k.entries)

  remember_at : KnownDevices → Text → Text → ℕ → Option Entry → KnownDevices
  remember_at k key alias now none =
      save_changed
        (insert key
          (record { alias = alias; first_seen = some now; paired = true; blocked = false })
          k.entries)
        k
  remember_at k key alias now (some e) =
      if e.paired && text_eq e.alias alias
      then k
      else save_changed (insert key (record e { alias = alias; paired = true }) k.entries) k

  unfoldable pub remember : KnownDevices → Text → Text → ℕ → KnownDevices
  unfolding remember_at
  remember k fingerprint alias now =
      if is_empty fingerprint
      then k
      else remember_at k (to_upper fingerprint) alias now (find (to_upper fingerprint) k.entries)

  forget_at : KnownDevices → Text → ℕ → Option Entry → KnownDevices
  forget_at k key now none = k
  forget_at k key now (some e) =
      if e.blocked
      then save_changed
          (insert key (record e { alias = []; paired = false; first_seen = some now }) k.entries) k
      else save_changed (remove key k.entries) k

  unfoldable pub forget : KnownDevices → Text → ℕ → KnownDevices
  unfolding forget_at
  forget k fingerprint now =
      forget_at k (to_upper fingerprint) now (find (to_upper fingerprint) k.entries)

  unfoldable pub forget_all : KnownDevices → ℕ → KnownDevices
  forget_all k now =
      let kept = kept_blocks now k.entries in
      if is_empty k.entries
      then k
      else if not (length kept == length k.entries) || exists (λ b. b.1.paired) k.entries
      then save_changed kept k
      else k

  unfoldable pub alias_for : KnownDevices → Text → Text
  alias_for k fingerprint = (entry_or_new (find (to_upper fingerprint) k.entries)).alias

  unfoldable pub expected_fingerprint : KnownDevices → Text → Text
  expected_fingerprint k alias = if is_empty alias then [] else expected_in k.entries alias

  unfoldable pub conflicts : KnownDevices → Text → Text → Bool
  conflicts k fingerprint alias =
      let expected = expected_fingerprint k alias in
      if is_empty fingerprint || is_empty alias
      then false
      else if is_known k fingerprint
      then false
      else not (is_empty expected) && not (equals_fold q expected fingerprint)

abbrev pub count_paired : List (Text × Entry) → ℕ
count_paired [] = 0
count_paired ((key, e) ∷ m) = if e.paired then suc (count_paired m) else count_paired m

unfoldable pub count : KnownDevices → ℕ
count k = count_paired k.entries
