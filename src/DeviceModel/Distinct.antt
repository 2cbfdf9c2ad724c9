-- ===== src/DeviceModel/Distinct.antt =====
-- src/devicemodel.cpp: the list stays short, and shows no fingerprint twice.
use harbour_localsend.Common.{
  ℕ, zero, suc, ◌≤◌, ◌<◌, ◌≡◌, refl, sym, inl, inr, arith, Bool, true, false, not, ◌||◌, List, [],
  ◌∷◌, Option, none, some, is_empty, length, keep, modify, erase_idx, insert_idx, leb,
  if◌then◌else◌, Text, text_eq, text_eq_iff, All, All-keep, length-keep-le, length-modify,
  length-erase_idx, length-insert_idx, Bool-cases, subst,
}
use mathlib.Core.Option.{some-injective}
use harbour_localsend.Platform.{Platform}
use harbour_localsend.DeviceInfo.{DeviceInfo}
use harbour_localsend.KnownDevices.{KnownDevices}
use harbour_localsend.DeviceModel.{
  Collation, max_devices, one_on, index_of_fingerprint, insertion_point, alias_at, remove_row,
  remove, is_recent, prune, put, hides, is_valid, upsert, Call, upserts, removes, prunes, clears,
  step, run,
}

-- No device of the list has the fingerprint.
abbrev pub IsAbsent : Text → List DeviceInfo → Type 0
IsAbsent fingerprint = All (λ d. text_eq d.fingerprint fingerprint ≡ false)

abbrev pub AreDistinct : List DeviceInfo → Type 0
AreDistinct [] = Unit
AreDistinct (d ∷ devices) = IsAbsent d.fingerprint devices × AreDistinct devices

abbrev pub IsListed : List DeviceInfo → Type 0
IsListed devices = AreDistinct devices × (length devices ≤ max_devices)

differ : (s t : Text) → text_eq s t ≡ false → text_eq t s ≡ false
differ s t h = ground (arith, text_eq_iff s t, text_eq_iff t s)

never_none : (n : ℕ) → some n ≡ none → ⊥
never_none n h = cc

one_on-none : (o : Option ℕ) → one_on o ≡ none → o ≡ none
one_on-none none h = refl
one_on-none (some i) h = absurd (never_none _ h)

one_on-some :
    (o : Option ℕ) (row : ℕ) → one_on o ≡ some row → (i : ℕ) × (o ≡ some i) × (row ≡ suc i)
one_on-some none row h = absurd (cc)
one_on-some (some i) row h = (i, refl, sym (some-injective _ _ h))

index_of_fingerprint-none :
    (fingerprint : Text) (devices : List DeviceInfo)
    → index_of_fingerprint fingerprint devices ≡ none
    → IsAbsent fingerprint devices
unfolding index_of_fingerprint
index_of_fingerprint-none fingerprint [] h = tt
index_of_fingerprint-none fingerprint (d ∷ devices) h =
    elim (Bool-cases (text_eq d.fingerprint fingerprint)) [
      | inl same ↦ absurd (never_none 0 (rw same at h))
      | inr other ↦
          (other, index_of_fingerprint-none fingerprint devices (one_on-none _ (rw other at h)))
    ]

-- The row that was found holds the fingerprint, and without it the list does not.
erase_idx-IsAbsent :
    (fingerprint : Text) (devices : List DeviceInfo) (row : ℕ)
    → index_of_fingerprint fingerprint devices ≡ some row
    → AreDistinct devices
    → IsAbsent fingerprint (erase_idx devices row) × (row < length devices)
unfolding index_of_fingerprint
erase_idx-IsAbsent fingerprint [] row h k = absurd (cc)
erase_idx-IsAbsent fingerprint (d ∷ devices) row h (a, k) =
    elim (Bool-cases (text_eq d.fingerprint fingerprint)) [
      | inl same ↦
          let first : 0 ≡ row = some-injective _ _ (rw same at h) in
          subst (λ n. IsAbsent fingerprint (erase_idx (d ∷ devices) n) × (n < suc (length devices)))
            first
            (
              subst (λ t. IsAbsent t devices) ((text_eq_iff d.fingerprint fingerprint).0 same) a,
              omega arith,
            )
      | inr other ↦
          let (i, at, next_row) = one_on-some _ row (rw other at h) in
          let (gone, inside) = erase_idx-IsAbsent fingerprint devices i at k in
          subst (λ n. IsAbsent fingerprint (erase_idx (d ∷ devices) n) × (n < suc (length devices)))
            (sym next_row) ((other, gone), omega (arith, inside))
    ]

All-erase_idx :
    (P : DeviceInfo → Type 0) (devices : List DeviceInfo) (row : ℕ)
    → All P devices
    → All P (erase_idx devices row)
All-erase_idx P [] row h = tt
All-erase_idx P (d ∷ devices) zero (p, h) = h
All-erase_idx P (d ∷ devices) (suc row) (p, h) = (p, All-erase_idx P devices row h)

All-insert_idx :
    (P : DeviceInfo → Type 0) (row : ℕ) (d : DeviceInfo) (devices : List DeviceInfo)
    → P d
    → All P devices
    → All P (insert_idx row d devices)
All-insert_idx P zero d devices p h = (p, h)
All-insert_idx P (suc row) d [] p h = (p, tt)
All-insert_idx P (suc row) d (e ∷ devices) p (r, h) = (r, All-insert_idx P row d devices p h)

erase_idx-AreDistinct :
    (devices : List DeviceInfo) (row : ℕ)
    → AreDistinct devices
    → AreDistinct (erase_idx devices row)
erase_idx-AreDistinct [] row k = tt
erase_idx-AreDistinct (d ∷ devices) zero (a, k) = k
erase_idx-AreDistinct (d ∷ devices) (suc row) (a, k) =
    (All-erase_idx _ devices row a, erase_idx-AreDistinct devices row k)

insert_idx-AreDistinct :
    (row : ℕ) (d : DeviceInfo) (devices : List DeviceInfo)
    → IsAbsent d.fingerprint devices
    → AreDistinct devices
    → AreDistinct (insert_idx row d devices)
insert_idx-AreDistinct zero d devices a k = (a, k)
insert_idx-AreDistinct (suc row) d [] a k = (tt, tt)
insert_idx-AreDistinct (suc row) d (e ∷ devices) (n, a) (b, k) = (
  All-insert_idx _ row d devices (differ e.fingerprint d.fingerprint n) b,
  insert_idx-AreDistinct row d devices a k,
)

modify-IsAbsent :
    (fingerprint : Text) (new : DeviceInfo) (devices : List DeviceInfo) (row : ℕ)
    → text_eq new.fingerprint fingerprint ≡ false
    → IsAbsent fingerprint devices
    → IsAbsent fingerprint (modify devices row (λ d. new))
modify-IsAbsent fingerprint new [] row n a = tt
modify-IsAbsent fingerprint new (d ∷ devices) zero n (m, a) = (n, a)
modify-IsAbsent fingerprint new (d ∷ devices) (suc row) n (m, a) =
    (m, modify-IsAbsent fingerprint new devices row n a)

-- A row may be put in the place of one with its fingerprint.
modify-AreDistinct :
    (new : DeviceInfo) (devices : List DeviceInfo) (row : ℕ)
    → IsAbsent new.fingerprint (erase_idx devices row)
    → AreDistinct devices
    → AreDistinct (modify devices row (λ d. new))
modify-AreDistinct new [] row a k = tt
modify-AreDistinct new (d ∷ devices) zero a (b, k) = (a, k)
modify-AreDistinct new (d ∷ devices) (suc row) (n, a) (b, k) = (
  modify-IsAbsent d.fingerprint new devices row (differ d.fingerprint new.fingerprint n) b,
  modify-AreDistinct new devices row a k,
)

keep-AreDistinct :
    (p : DeviceInfo → Bool) (devices : List DeviceInfo)
    → AreDistinct devices
    → AreDistinct (keep p devices)
keep-AreDistinct p [] k = tt
keep-AreDistinct p (d ∷ devices) (a, k) =
    ground (arith, All-keep _ p devices a, keep-AreDistinct p devices k)

prune-IsListed :
    (max_age now : ℕ) (devices : List DeviceInfo)
    → IsListed devices
    → IsListed (prune max_age now devices)
unfolding prune
prune-IsListed max_age now devices (k, n) = (
  keep-AreDistinct (λ d. is_recent max_age now d.last_seen) devices k,
  omega (arith, n, length-keep-le (λ d. is_recent max_age now d.last_seen) devices),
)

remove_row-IsListed :
    (o : Option ℕ) (fingerprint : Text) (devices : List DeviceInfo)
    → index_of_fingerprint fingerprint devices ≡ o
    → IsListed devices
    → IsListed (remove_row o devices) × IsAbsent fingerprint (remove_row o devices)
remove_row-IsListed none fingerprint devices e k =
    (k, index_of_fingerprint-none fingerprint devices e)
remove_row-IsListed (some row) fingerprint devices e (k, n) =
    let (gone, inside) = erase_idx-IsAbsent fingerprint devices row e k in
    (
      (erase_idx-AreDistinct devices row k, omega (arith, n, length-erase_idx devices row inside)),
      gone,
    )

remove-IsListed :
    (fingerprint : Text) (devices : List DeviceInfo)
    → IsListed devices
    → IsListed (remove fingerprint devices) × IsAbsent fingerprint (remove fingerprint devices)
unfolding remove
remove-IsListed fingerprint devices k = remove_row-IsListed _ fingerprint devices refl k

put-IsListed :
    (c : Collation) (o : Option ℕ) (new : DeviceInfo) (devices : List DeviceInfo)
    → index_of_fingerprint new.fingerprint devices ≡ o
    → IsListed devices
    → IsListed (put c o new devices).0
unfolding put
put-IsListed c none new devices e (k, n) = elim (Bool-cases (leb max_devices (length devices))) [
  | inl full ↦ rw full (k, n)
  | inr room ↦ rw room (
    insert_idx-AreDistinct _ new devices (index_of_fingerprint-none new.fingerprint devices e) k,
    ground (arith, length-insert_idx (insertion_point c new devices) new devices),
  )
]
put-IsListed c (some row) new devices e (k, n) =
    let (gone, inside) = erase_idx-IsAbsent new.fingerprint devices row e k in
    let left = erase_idx devices row in
    elim (Bool-cases (text_eq (alias_at devices row) new.alias)) [
      | inl same ↦ rw same (
        modify-AreDistinct new devices row gone k,
        omega (arith, n, length-modify devices row (λ d. new)),
      )
      | inr renamed ↦ rw renamed (
        insert_idx-AreDistinct _ new left gone (erase_idx-AreDistinct devices row k),
        omega (
          arith,
          n,
          length-erase_idx devices row inside,
          length-insert_idx (insertion_point c new left) new left,
        ),
      )
    ]

if-IsListed :
    (b : Bool) (x y : List DeviceInfo × Bool)
    → IsListed x.0
    → IsListed y.0
    → IsListed (if b then x else y).0
if-IsListed true x y k l = k
if-IsListed false x y k l = l

module _ (q : Platform) (c : Collation) where
  step-IsListed :
      (call : Call) (devices : List DeviceInfo)
      → IsListed devices
      → IsListed (step q c call devices)
  unfolding upsert
  step-IsListed (upserts known device now) devices k =
      if-IsListed (not (is_valid q device) || is_empty device.address) (devices, false) _ k
        (if-IsListed (hides q known device.fingerprint) (remove device.fingerprint devices, false) _
          (remove-IsListed device.fingerprint devices k).0
          (put-IsListed c _ (record device { last_seen = some now }) devices refl k))
  step-IsListed (removes fingerprint) devices k = (remove-IsListed fingerprint devices k).0
  step-IsListed (prunes max_age now) devices k = prune-IsListed max_age now devices k
  step-IsListed clears devices k = (tt, omega arith)

  run_from :
      (calls : List Call) (devices : List DeviceInfo)
      → IsListed devices
      → IsListed (run q c calls devices)
  unfolding run
  run_from [] devices k = k
  run_from (call ∷ calls) devices k =
      run_from calls (step q c call devices) (step-IsListed call devices k)

  -- Whatever is announced and removed, and however often, the list never has more than 64 devices and
  -- never two with one fingerprint.
  pub run-IsListed : (calls : List Call) → IsListed (run q c calls [])
  run-IsListed calls = run_from calls [] (tt, omega arith)

  -- A blocked device that announces itself, with an address, is not in the list afterwards, and it
  -- does not count as one that appeared.
  pub upsert-IsAbsent :
      (known : Option KnownDevices) (device : DeviceInfo) (now : ℕ) (devices : List DeviceInfo)
      → is_valid q device ≡ true
      → is_empty device.address ≡ false
      → hides q known device.fingerprint ≡ true
      → IsListed devices
      → IsAbsent device.fingerprint (upsert q c known device now devices).0
        × ((upsert q c known device now devices).1 ≡ false)
  unfolding upsert
  upsert-IsAbsent known device now devices valid reached blocked k =
      rw (valid, reached, blocked) ((remove-IsListed device.fingerprint devices k).1, refl)
