-- ===== src/SendService/Upload/Marked.antt =====
-- src/sendservice.cpp, onUploadFinished: the row that a reply marks.
use harbour_localsend.Common.{
  ℕ, zero, suc, ◌+◌, ◌≡◌, ◌<◌, refl, sym, ap, ◌∙◌, arith, Bool, true, false, not, List, [], ◌∷◌,
  Option, none, some, drop, modify, get_elem?, ltb, Text, codes, Bool-cases, inl, inr, subst, ◌==◌,
}
use harbour_localsend.Platform.{Platform}
use harbour_localsend.TransferModel.{
  TransferModel, FileEntry, file_done, file_failed, file_transferring, with_status, is_waiting,
  set_file_status, finished, failed, completed_count, file_count, FileStatus,
}
use harbour_localsend.TransferModel.Files.{set_file_status-files, set_state-files}
use harbour_localsend.TransferModel.Progress.{get_elem?-modify}
use harbour_localsend.SendService.State.{Sender, Env, cleared, clear_reply, close_current_file}
use harbour_localsend.SendService.End.{complete_transfer, write_history, end_state}
use harbour_localsend.SendService.Upload.{
  set_current, after_row, Reply, next_file, start_next_file, upload_answered, on_upload_finished,
  is_success, begin_upload, skip_unopened,
}
use harbour_localsend.SendService.Machine.Ends.{either, when_on, when_off}

get_elem?-modify_other :
    (fs : List FileEntry) (row i : ℕ) (g : FileEntry → FileEntry)
    → i < row
    → get_elem? (modify fs row g) i ≡ get_elem? fs i
get_elem?-modify_other [] row i g h = refl
get_elem?-modify_other (f ∷ fs) zero i g h = absurd (omega (arith, h))
get_elem?-modify_other (f ∷ fs) (suc row) zero g h = refl
get_elem?-modify_other (f ∷ fs) (suc row) (suc i) g h =
    get_elem?-modify_other fs row i g (omega (arith, h))

-- The rows below `n` are as they were.
abbrev KeepsBelow : ℕ → TransferModel → Sender → Type 0
KeepsBelow n m t = (i : ℕ) → i < n → get_elem? t.transfer.files i ≡ get_elem? m.files i

chain_below :
    (n : ℕ) (m : TransferModel) (s t : Sender)
    → KeepsBelow n m s
    → KeepsBelow (n + 1) s.transfer t
    → KeepsBelow n m t
chain_below n m s t k l i h = l i (omega (arith, h)) ∙ k i h

status-KeepsBelow :
    (row : ℕ) (status : FileStatus) (error : Text) (now : ℕ) (m : TransferModel) (i : ℕ)
    → i < row
    → get_elem? (set_file_status row status error now m).files i ≡ get_elem? m.files i
status-KeepsBelow row status error now m i h =
    ap (λ fs. get_elem? fs i) (set_file_status-files row status error now m)
    ∙ get_elem?-modify_other m.files row i (with_status status error) h

module _ (q : Platform) (e : Env) where
  end_state-files : (now : ℕ) (m : TransferModel) → (end_state q e now m).files ≡ m.files
  unfolding end_state
  end_state-files now m = elim (Bool-cases (completed_count m == file_count m)) [
    | inl all ↦ rw all (set_state-files finished [] now m)
    | inr short ↦ rw short (elim (Bool-cases (ltb 0 (completed_count m))) [
      | inl part ↦ rw part (set_state-files failed _ now m)
      | inr nothing ↦ rw nothing (set_state-files failed _ now m)
    ])
  ]

  pub complete_transfer-files :
      (now : ℕ) (s : Sender) → (complete_transfer q e now s).transfer.files ≡ s.transfer.files
  unfolding complete_transfer write_history
  complete_transfer-files now s =
      either (λ t. t.transfer.files ≡ s.transfer.files) (not s.settings.history_enabled) _ _
        (end_state-files now s.transfer) (end_state-files now s.transfer)

  next_file-KeepsBelow :
      (now row : ℕ) (fs : List FileEntry) (s : Sender)
      → KeepsBelow row s.transfer (next_file q e now row fs s)
  unfolding next_file skip_unopened begin_upload
  next_file-KeepsBelow now row [] s =
      λ i h. ap (λ fs. get_elem? fs i) (complete_transfer-files now s)
  next_file-KeepsBelow now row (f ∷ fs) s = elim (Bool-cases (is_waiting f.status)) [
    | inr over ↦ subst Goal (sym over) (
        chain_below row s.transfer s (next_file q e now (row + 1) fs s) (λ i h. refl)
          (next_file-KeepsBelow now (row + 1) fs s))
    | inl waits ↦ subst Goal (sym waits) (elim (Bool-cases (e.opens f.local_path)) [
      | inl opens ↦
          subst Opened (sym opens) (status-KeepsBelow row file_transferring [] now s.transfer)
      | inr fails ↦ subst Opened (sym fails) (
          chain_below row s.transfer skipped (next_file q e now (row + 1) fs skipped)
            (status-KeepsBelow row file_failed (codes "Could not open the file") now s.transfer)
            (next_file-KeepsBelow now (row + 1) fs skipped))
    ])
  ]
    where
      skipped : Sender
      skipped = skip_unopened row now s

      Opened : Bool → Type 0
      Opened b = KeepsBelow row s.transfer (elim b [
        | true ↦ begin_upload row f now (record s { current_row = some row })
        | false ↦ next_file q e now (row + 1) fs skipped
      ])

      Goal : Bool → Type 0
      Goal b = KeepsBelow row s.transfer (elim b [
        | false ↦ next_file q e now (row + 1) fs s
        | true ↦ elim (e.opens f.local_path) [
          | true ↦ begin_upload row f now (record s { current_row = some row })
          | false ↦ next_file q e now (row + 1) fs skipped
        ]
      ])

  -- A reply that tells success marks the current row, whatever row that is by then.
  pub reply-marks :
      (id row : ℕ) (r : Reply) (now : ℕ) (s : Sender) (f : FileEntry)
      → is_success q e r ≡ true
      → s.cancelled ≡ false
      → s.current_row ≡ some row
      → get_elem? s.transfer.files row ≡ some f
      → get_elem? (on_upload_finished q e id r now s).transfer.files row
        ≡ some (with_status file_done [] f)
  unfolding on_upload_finished clear_reply upload_answered start_next_file close_current_file
  reply-marks id row r now s f success runs at_row there =
      let P : Sender → Type 0 =
        λ t. get_elem? t.transfer.files row ≡ some (with_status file_done [] f) in
      when_off P s.cancelled _ _ runs (
        when_on P (is_success q e r) _ _ success
          (when_off P s.cancelled _ _ runs (subst Marked (sym at_row) marked_row)))
    where
      done : Option ℕ → TransferModel
      done o = set_current o (λ row m. set_file_status row file_done [] now m) s.transfer

      left : Option ℕ → Sender
      left o = record s { transfer = done o; reply = cleared s.reply id; current_file = none }

      Marked : Option ℕ → Type 0
      Marked o =
          get_elem?
            (next_file q e now (after_row o) (drop (after_row o) (done o).files)
              (left o)).transfer.files
            row
          ≡ some (with_status file_done [] f)

      marked_row : Marked (some row)
      marked_row =
          next_file-KeepsBelow now (suc row) (drop (suc row) (done (some row)).files)
            (left (some row)) row (omega (arith))
          ∙ ap (λ fs. get_elem? fs row) (set_file_status-files row file_done [] now s.transfer)
          ∙ get_elem?-modify s.transfer.files row (with_status file_done []) {f = f} there
