-- ===== src/TransferModel/Files.antt =====
-- src/transfermodel.cpp: what each operation makes of the list of files.
use harbour_localsend.Common.{
  ℕ, zero, suc, ◌≡◌, ◌≤◌, refl, sym, ap, arith, false, List, [], ◌∷◌, Option, none, some, length,
  modify, get_elem?, ◌==◌, Text, ℤ, Bool-cases, Option-cases, inl, inr,
}
use harbour_localsend.TransferModel.{
  TransferModel, FileEntry, FileStatus, State, set_state, set_file_status, set_file_local_path,
  set_file_transferred, set_file_token, with_status, status_at, transferred_at, flush, sample_speed,
  touch, clamp_bytes,
}

pub flush-files : (now : ℕ) (m : TransferModel) → (flush now m).files ≡ m.files
unfolding flush sample_speed
flush-files now m = by_clock m.clock refl
  where
    by_clock : (c : Option ℕ) → m.clock ≡ c → (flush now m).files ≡ m.files
    by_clock none e = ground arith
    by_clock (some t) e = ground arith

pub set_state-files :
    (state : State) (error : Text) (now : ℕ) (m : TransferModel)
    → (set_state state error now m).files ≡ m.files
unfolding set_state
set_state-files state error now m =
    ground (
      arith,
      flush-files now (record m { state = state; error_text = error; flush_pending = false }),
    )

modify-missing :
    (fs : List FileEntry) (row : ℕ) (g : FileEntry → FileEntry)
    → get_elem? fs row ≡ none
    → modify fs row g ≡ fs
modify-missing [] row g h = refl
modify-missing (f ∷ fs) zero g h = cc
modify-missing (f ∷ fs) (suc row) g h = ap (λ xs. f ∷ xs) (modify-missing fs row g h)

pub set_file_status-files :
    (row : ℕ) (status : FileStatus) (error : Text) (now : ℕ) (m : TransferModel)
    → (set_file_status row status error now m).files ≡ modify m.files row (with_status status error)
unfolding set_file_status touch
set_file_status-files row status error now m = elim (Option-cases (get_elem? m.files row)) [
  | inl out ↦ rw (out, status_at) (sym (modify-missing m.files row _ out))
  | inr (f, there) ↦ rw (there, status_at) (flush-files _ _)
]

modify-past_end :
    (fs : List FileEntry) (row : ℕ) (g : FileEntry → FileEntry)
    → length fs ≤ row
    → modify fs row g ≡ fs
modify-past_end [] row g h = refl
modify-past_end (f ∷ fs) zero g h = absurd (omega arith)
modify-past_end (f ∷ fs) (suc row) g h = ap (λ xs. f ∷ xs) (modify-past_end fs row g (omega arith))

pub set_file_local_path-files :
    (row : ℕ) (path : Text) (m : TransferModel)
    → (set_file_local_path row path m).files
      ≡ modify m.files row (λ f. record f { local_path = path })
unfolding set_file_local_path touch
set_file_local_path-files row path m =
    ground (arith, modify-past_end m.files row (λ f. record f { local_path = path }))

-- The sizes that were announced.
abbrev pub sizes : List FileEntry → List ℕ
sizes [] = []
sizes (f ∷ fs) = f.size ∷ sizes fs

pub sizes-modify :
    (fs : List FileEntry) (row : ℕ) (g : FileEntry → FileEntry)
    → ((f : FileEntry) → (g f).size ≡ f.size)
    → sizes (modify fs row g) ≡ sizes fs
sizes-modify [] row g h = refl
sizes-modify (f ∷ fs) zero g h = ap (λ n. n ∷ sizes fs) (h f)
sizes-modify (f ∷ fs) (suc row) g h = ap (λ xs. f.size ∷ xs) (sizes-modify fs row g h)

pub sizes-set_file_status :
    (row : ℕ) (status : FileStatus) (error : Text) (now : ℕ) (m : TransferModel)
    → sizes (set_file_status row status error now m).files ≡ sizes m.files
sizes-set_file_status row status error now m =
    rw (set_file_status-files row status error now m)
      (sizes-modify m.files row (with_status status error) (λ f. ground arith))

pub sizes-set_file_local_path :
    (row : ℕ) (path : Text) (m : TransferModel)
    → sizes (set_file_local_path row path m).files ≡ sizes m.files
sizes-set_file_local_path row path m =
    rw (set_file_local_path-files row path m)
      (sizes-modify m.files row (λ f. record f { local_path = path }) (λ f. refl))

pub sizes-set_file_token :
    (row : ℕ) (token : Text) (m : TransferModel)
    → sizes (set_file_token row token m).files ≡ sizes m.files
unfolding set_file_token
sizes-set_file_token row token m =
    sizes-modify m.files row (λ f. record f { token = token }) (λ f. refl)

pub sizes-set_file_transferred :
    (row : ℕ) (bytes : ℤ) (m : TransferModel)
    → sizes (set_file_transferred row bytes m).files ≡ sizes m.files
unfolding set_file_transferred touch
sizes-set_file_transferred row bytes m = elim (Option-cases (get_elem? m.files row)) [
  | inl out ↦ rw (out, transferred_at) refl
  | inr (f, there) ↦ elim (Bool-cases (clamp_bytes bytes f.size == f.transferred)) [
    | inl same ↦ rw (there, transferred_at, same) refl
    | inr other ↦
        rw (there, transferred_at, other)
          (sizes-modify m.files row (λ g. record g { transferred = clamp_bytes bytes f.size })
            (λ g. refl))
  ]
]
