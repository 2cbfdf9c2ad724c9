-- ===== src/SendService/Machine/Modes.antt =====
-- src/sendservice.h: the three modes of the service, and the order of what it posts.
use harbour_localsend.Common.{
  ℕ, ◌≡◌, ◌<◌, true, false, List, [], ◌∷◌, ◌++◌, none, some, length, is_empty, All, ◌⊎◌,
}
use harbour_localsend.Platform.{Platform}
use harbour_localsend.TransferModel.{FileEntry, is_waiting, is_transferring}
use harbour_localsend.ReceiveService.Finish.Skipped.{IsOver}
use harbour_localsend.SendService.State.{Sender, Env, Request, prepare, upload, cancelling}
use harbour_localsend.SendService.Machine.{
  Event, sends, submits, prepare_replies, upload_replies, progresses, cancels, step,
}

pub data Mode : Type 0 where
  resting asking uploading : Mode

-- The last request, if it was an upload, was for an earlier row.
abbrev pub IsAbove : ℕ → List Request → Type 0
IsAbove row [] = Unit
IsAbove row (prepare pin files ∷ requests) = Unit
IsAbove row (cancelling session_id ∷ requests) = Unit
IsAbove row (upload r session_id file_id token local_path size ∷ requests) = r < row

-- The last request asks whether the files may come, or carries one.
abbrev pub IsAsked : List Request → Type 0
IsAsked [] = ⊥
IsAsked (prepare pin files ∷ requests) = Unit
IsAsked (upload row session_id file_id token local_path size ∷ requests) = ⊥
IsAsked (cancelling session_id ∷ requests) = ⊥

abbrev pub IsUploaded : List Request → Type 0
IsUploaded [] = ⊥
IsUploaded (prepare pin files ∷ requests) = ⊥
IsUploaded (upload row session_id file_id token local_path size ∷ requests) = Unit
IsUploaded (cancelling session_id ∷ requests) = ⊥

-- Every upload names a session and a token, and between two requests to a peer the rows go up.
abbrev pub IsOrderly : List Request → Type 0
IsOrderly [] = Unit
IsOrderly (prepare pin files ∷ requests) = IsOrderly requests
IsOrderly (cancelling session_id ∷ requests) = IsOrderly requests
IsOrderly (upload row session_id file_id token local_path size ∷ requests) =
    (is_empty session_id ≡ false)
    × (is_empty token ≡ false)
    × IsAbove row requests
    × IsOrderly requests

abbrev pub IsIdle : FileEntry → Type 0
IsIdle f = is_transferring f.status ≡ false

-- A file that waits has a token, and no file is under way.
abbrev pub IsReady : FileEntry → Type 0
IsReady f = IsIdle f × (is_waiting f.status ≡ true → is_empty f.token ≡ false)

-- The one file under way: the rows before it are over, those behind it have their tokens.
pub record IsAt (s : Sender) : Type 0 where
  pub before : List FileEntry
  pub file : FileEntry
  pub after : List FileEntry
  pub split : s.transfer.files ≡ before ++ file ∷ after
  pub over : All IsOver before
  pub ready : All IsReady after
  pub row : s.current_row ≡ some (length before)
  pub posted :
      (rest : List Request) × (s.requests
        ≡ upload (length before) s.session_id file.id file.token file.local_path file.size ∷ rest)

abbrev pub IsIn : Mode → Sender → Type 0
IsIn resting s =
    (s.busy ≡ false) × (s.reply ≡ none) × (s.current_file ≡ none) × IsOrderly s.requests
IsIn asking s =
    (s.busy ≡ true)
    × (s.cancelled ≡ false)
    × (s.current_file ≡ none)
    × All IsIdle s.transfer.files
    × IsAsked s.requests
    × IsOrderly s.requests
IsIn uploading s =
    (s.busy ≡ true)
    × (s.cancelled ≡ false)
    × (is_empty s.session_id ≡ false)
    × IsAt s
    × IsOrderly s.requests

-- What may come next: a reply is that to the last request, or it was aborted by `cancel`; progress
-- is told of the upload that runs. A PIN is for a peer that was asked, and has not said which files
-- it takes.
abbrev pub IsExpected : Event → Sender → Type 0
IsExpected (sends d paths) s = Unit
IsExpected (submits pin) s = s.busy ≡ true → IsAsked s.requests
IsExpected (prepare_replies id r) s =
    (s.cancelled ≡ true) ⊎ ((s.reply ≡ some id) × IsAsked s.requests)
IsExpected (upload_replies id r) s =
    (s.cancelled ≡ true) ⊎ ((s.reply ≡ some id) × IsUploaded s.requests)
IsExpected (progresses row sent) s = IsUploaded s.requests × (s.current_row ≡ some row)
IsExpected cancels s = Unit

-- What the events can make of the state `s`, if each of them is expected where it comes.
pub data IsReached (q : Platform) (e : Env) (s : Sender) : Sender → Type 0 where
  start : IsReached q e s s
  next :
      (now : ℕ) (v : Event) (t : Sender)
      → IsReached q e s t
      → IsExpected v t
      → IsReached q e s (step q e now v t)
