-- ===== src/ReceiveService/Machine/Frame.antt =====
-- src/receiveservice.cpp: what of the session its helpers leave as it was.
use harbour_localsend.Common.{
  ℕ, ◌+◌, ◌≡◌, refl, ◌∙◌, Bool, true, false, not, ◌&&◌, List, [], ◌∷◌, ◌++◌, Option, none, some,
  length, is_empty, ltb, if◌then◌else◌, Text, find,
}
use harbour_localsend.Platform.{Platform}
use harbour_localsend.TransferModel.{FileEntry, file_failed, set_file_status, is_done}
use harbour_localsend.ReceiveService.FileName.{part_suffix}
use harbour_localsend.ReceiveService.State.{
  Service, Upload, Env, Answer, answer, respond, has_answered, find_upload, entry_at, exists_on,
}
use harbour_localsend.ReceiveService.Upload.{
  UploadRequest, start_upload, is_over, refuse_file, open_upload, upload_row, append_block,
  deliver_to, deliver, discard, keep_file, digest_matches, settle_upload, size_on, value_or_empty,
}
use harbour_localsend.ReceiveService.Prepare.{issue_tokens}

abbrev pub IsHeld : Service → Service → Type 0
IsHeld s t = (t.session_id ≡ s.session_id) × (t.tokens ≡ s.tokens) × (t.pending ≡ s.pending)

-- The uploads stay none as well, if there were none.
abbrev pub IsKept : Service → Service → Type 0
IsKept s t = IsHeld s t × (s.uploads ≡ [] → t.uploads ≡ [])

pub pick : (P : Service → Type 0) (b : Bool) (x y : Service) → P x → P y → P (if b then x else y)
pick P true x y k l = k
pick P false x y k l = l

pub pick_true :
    (P : Service → Type 0) (b : Bool) (x y : Service) → b ≡ true → P x → P (if b then x else y)
pick_true P true x y h k = k
pick_true P false x y h k = absurd (cc)

pub pick_false :
    (P : Service → Type 0) (b : Bool) (x y : Service) → b ≡ false → P y → P (if b then x else y)
pick_false P false x y h k = k
pick_false P true x y h k = absurd (cc)

pub chain : (s t u : Service) → IsHeld s t → IsHeld t u → IsHeld s u
chain s t u (a, b, c) (x, y, z) = (x ∙ a, y ∙ b, z ∙ c)

pub answer-IsKept : (conn : ℕ) (a : Answer) (s : Service) → IsKept s (answer conn a s)
unfolding answer
answer-IsKept conn a s =
    pick (IsKept s) (has_answered conn s.answers) s _ ((refl, refl, refl), λ u. u)
      ((refl, refl, refl), λ u. u)

module _ (q : Platform) (e : Env) where
  refuse_file-IsHeld :
      (conn row : ℕ) (reason : Text) (now : ℕ) (s : Service)
      → IsHeld s (refuse_file conn row reason now s)
  unfolding refuse_file
  refuse_file-IsHeld conn row reason now s =
      (answer-IsKept conn _
        (record s { transfer = set_file_status row file_failed reason now s.transfer })).0

  start_upload-IsHeld :
      (r : UploadRequest) (row : ℕ) (path : Text) (now : ℕ) (s : Service)
      → IsHeld s (start_upload r row path now s)
  unfolding start_upload
  start_upload-IsHeld r row path now s =
      pick (IsHeld s) (is_over r.content_length (entry_at s.transfer.files row).size) _ _
        (answer-IsKept r.conn _ _).0 (refl, refl, refl)

  open_upload-IsHeld :
      (r : UploadRequest) (row : ℕ) (o : Option Text) (now : ℕ) (s : Service)
      → IsHeld s (open_upload q e r row o now s)
  open_upload-IsHeld r row none now s = refuse_file-IsHeld r.conn row _ now s
  open_upload-IsHeld r row (some path) now s =
      pick (IsHeld s) (e.can_open (path ++ part_suffix)) _ _ (start_upload-IsHeld r row path now s)
        (refuse_file-IsHeld r.conn row _ now s)

  pub upload_row-IsHeld :
      (r : UploadRequest) (o : Option ℕ) (now : ℕ) (s : Service)
      → IsHeld s (upload_row q e r o now s)
  unfolding upload_row
  upload_row-IsHeld r none now s = (answer-IsKept r.conn _ s).0
  upload_row-IsHeld r (some row) now s =
      pick (IsHeld s) (is_done (entry_at s.transfer.files row).status) _ _
        (answer-IsKept r.conn _ s).0 (open_upload-IsHeld r row _ now s)

  deliver_to-IsHeld :
      (conn : ℕ) (block : Text) (writes : Bool) (o : Option Upload) (s : Service)
      → IsHeld s (deliver_to conn block writes o s)
  unfolding append_block
  deliver_to-IsHeld conn block writes none s = (refl, refl, refl)
  deliver_to-IsHeld conn block writes (some u) s =
      pick (IsHeld s) (is_empty block) s _ (refl, refl, refl)
        (pick (IsHeld s) (ltb u.limit (u.received + length block)) _ _ (answer-IsKept conn _ s).0
          (pick (IsHeld s) (not writes) _ _ (answer-IsKept conn _ s).0 (refl, refl, refl)))

  pub deliver-IsHeld :
      (conn : ℕ) (block : Text) (writes : Bool) (s : Service)
      → IsHeld s (deliver conn block writes s)
  unfolding deliver
  deliver-IsHeld conn block writes s =
      pick (IsHeld s) (has_answered conn s.answers) s _ (refl, refl, refl)
        (deliver_to-IsHeld conn block writes (find_upload conn s.uploads) s)

  discard-IsHeld :
      (conn : ℕ) (u : Upload) (reason : Text) (status now : ℕ) (s : Service)
      → IsHeld s (discard q e conn u reason status now s)
  unfolding discard
  discard-IsHeld conn u reason status now s = (answer-IsKept conn _ _).0

  keep_file-IsHeld : (u : Upload) (now : ℕ) (s : Service) → IsHeld s (keep_file q e u now s)
  unfolding keep_file
  keep_file-IsHeld u now s =
      pick (IsHeld s) (e.can_rename u.part_path && not (exists_on s.disk u.final_path)) _ _
        (refl, refl, refl) (refl, refl, refl)

  pub settle_upload-IsHeld :
      (conn : ℕ) (u : Upload) (now : ℕ) (s : Service) → IsHeld s (settle_upload q e conn u now s)
  unfolding settle_upload
  settle_upload-IsHeld conn u now s =
      pick (IsHeld s) (ltb (size_on s.disk u.part_path) (entry_at s.transfer.files u.row).size) _ _
        (discard-IsHeld conn u _ 500 now s)
        (pick (IsHeld s)
          (not (
            digest_matches q e (entry_at s.transfer.files u.row).sha256
              (value_or_empty (find u.part_path s.disk))))
          _ _ (discard-IsHeld conn u _ 422 now s)
          (chain s (keep_file q e u now s) (respond conn 200 (keep_file q e u now s))
            (keep_file-IsHeld u now s) (answer-IsKept conn _ (keep_file q e u now s)).0))

  -- Tokens are given to the session that is there.
  pub issue_tokens-session_id :
      (row : ℕ) (fs : List FileEntry) (n : ℕ) (s : Service)
      → (issue_tokens q e row fs n s).session_id ≡ s.session_id
  unfolding issue_tokens
  issue_tokens-session_id row [] n s = refl
  issue_tokens-session_id row (f ∷ fs) n s = issue_tokens-session_id (row + 1) fs (n + 1) _
