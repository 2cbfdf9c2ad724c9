-- ===== src/SendService/Upload.antt =====
-- src/sendservice.cpp, the files one after the other: startNextFile, onUploadFinished.
pub mod Marked
pub mod Granted
use harbour_localsend.Common.{
  ℕ, suc, ◌+◌, Bool, true, false, not, ◌&&◌, List, [], ◌∷◌, ◌++◌, Option, none, some, leb, ltb,
  drop, ◌==◌, if◌then◌else◌, Text, codes, ℤ,
}
use harbour_localsend.Platform.{Platform}
use harbour_localsend.TransferModel.{
  TransferModel, FileEntry, file_transferring, file_done, file_failed, set_file_status, is_waiting,
  set_file_transferred,
}
use harbour_localsend.SendService.State.{Sender, Env, upload, post, close_current_file, clear_reply}
use harbour_localsend.SendService.End.{complete_transfer, fail_transfer}

-- A reply as its handler reads it. `has_error` is whether QNetworkReply::error tells one; the status
-- is 0 where none came; `body` is none where it is no JSON object, and else its session id and its
-- tokens, with an empty text for what is missing.
pub record Reply : Type 0 where
  pub has_error : Bool
  pub status : ℕ
  pub error_string : Text
  pub body : Option (Text × List (Text × Text))

abbrev pub after_row : Option ℕ → ℕ
after_row none = 0
after_row (some row) = suc row

-- `setFileStatus(m_currentRow, ...)`, which changes nothing at -1.
abbrev pub set_current :
    Option ℕ → (ℕ → TransferModel → TransferModel) → TransferModel → TransferModel
set_current none f m = m
set_current (some row) f m = f row m

-- The row is under way.
unfoldable pub begin_upload : ℕ → FileEntry → ℕ → Sender → Sender
begin_upload row f now s =
    post (upload row s.session_id f.id f.token f.local_path f.size) (record s {
      current_file = some f.local_path;
      transfer = set_file_status row file_transferring [] now s.transfer;
    })

unfoldable pub skip_unopened : ℕ → ℕ → Sender → Sender
skip_unopened row now s = record s {
  current_row = some row;
  transfer = set_file_status row file_failed (codes "Could not open the file") now s.transfer;
}

module _ (q : Platform) (e : Env) where
  -- The search of startNextFile and its call of itself, on the rows from `row` on: neither changes
  -- a row that comes later.
  unfoldable pub next_file : ℕ → ℕ → List FileEntry → Sender → Sender
  next_file now row [] s = complete_transfer q e now s
  next_file now row (f ∷ fs) s = elim (is_waiting f.status) [
    | false ↦ next_file now (row + 1) fs s
    | true ↦ elim (e.opens f.local_path) [
      | true ↦ begin_upload row f now (record s { current_row = some row })
      | false ↦ next_file now (row + 1) fs (skip_unopened row now s)
    ]
  ]

  unfoldable pub start_next_file : ℕ → Sender → Sender
  start_next_file now s =
      if s.cancelled
      then close_current_file s
      else next_file now (after_row s.current_row) (drop (after_row s.current_row) s.transfer.files)
          (close_current_file s)

  abbrev pub is_success : Reply → Bool
  is_success r = not r.has_error && leb 200 r.status && ltb r.status 300

  unfoldable pub upload_answered : Reply → ℕ → Sender → Sender
  upload_answered r now s =
      if is_success r
      then start_next_file now (record s {
        transfer =
            set_current s.current_row (λ row m. set_file_status row file_done [] now m) s.transfer;
      })
      else if r.status == 409
      then fail_transfer q e (s.peer.alias ++ codes " stopped the transfer") now (record s {
        transfer =
            set_current s.current_row
              (λ row m. set_file_status row file_failed (codes "The transfer was stopped") now m)
              s.transfer;
      })
      else start_next_file now (record s {
        transfer =
            set_current s.current_row
              (λ row m. set_file_status row file_failed r.error_string now m) s.transfer;
      })

  unfoldable pub on_upload_finished : ℕ → Reply → ℕ → Sender → Sender
  on_upload_finished id r now s =
      if s.cancelled then clear_reply id s else upload_answered r now (clear_reply id s)

-- The slot of uploadProgress, which has the row of its file.
abbrev pub on_upload_progress : ℕ → ℤ → Sender → Sender
on_upload_progress row sent s = record s { transfer = set_file_transferred row sent s.transfer }
