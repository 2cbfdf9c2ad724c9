-- ===== src/KnownDevices/Storage.antt =====
-- src/knowndevices.cpp, load and save: what a restart reads back through a store that keeps what it
-- is given.
use harbour_localsend.Common.{
  ◌≡◌, ◌≢◌, refl, arith, List, [], ◌∷◌, map, Option, none, some, All, Text, text_eq_iff, find,
  contains-find, find-insert, insert, KeysDistinct,
}
use harbour_localsend.Platform.{Platform}
use harbour_localsend.KnownDevices.{
  Entry, Row, KnownDevices, or_else, read_row, write_row, load_rows, load,
}
use harbour_localsend.KnownDevices.Invariant.{IsValid}

-- An entry as the store has it: an invalid date is written as the epoch.
abbrev pub settled : Entry → Entry
settled e = record e { first_seen = some (or_else 0 e.first_seen) }

abbrev pub settled_or : Option Entry → Option Entry → Option Entry
settled_or d none = d
settled_or d (some e) = some (settled e)

module _ (q : Platform) where
  open q use {to_upper}

  find-load_rows :
      (key : Text) (m entries : List (Text × Entry))
      → KeysDistinct m
      → All (λ b. (to_upper b.0 ≡ b.0) × (b.0 ≢ [])) m
      → find key (load_rows q (map write_row m) entries)
        ≡ settled_or (find key entries) (find key m)
  unfolding load_rows write_row read_row find
  find-load_rows key [] entries d h = refl
  find-load_rows key ((j, w) ∷ m) entries d h = ground (
    arith,
    find-load_rows key m (insert (to_upper j) (settled w) entries) d.1 h.1,
    find-insert (to_upper j) key (settled w) entries,
    h.0.0,
    text_eq_iff (to_upper j) key,
    text_eq_iff j key,
    contains-find key m,
  )

  -- The store takes what `save` hands to it and gives `load` something later. If it gives back the
  -- same rows, with their keys and texts as they were, a restart reads back every entry under its key,
  -- and no other; the date of an entry that had no valid one is then the epoch.
  pub find-load_file :
      (store : List (Text × Row) → List (Text × Row)) (k : KnownDevices) (key : Text)
      → IsValid q k
      → store k.file ≡ k.file
      → find key (load q (store k.file)).entries ≡ settled_or none (find key k.entries)
  unfolding load find
  find-load_file store k key v same =
      rw same (ground (arith, v.saved, find-load_rows key k.entries [] v.distinct v.keys))
