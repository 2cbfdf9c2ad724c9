-- ===== src/Exchange.antt =====
-- src/sendservice.cpp against src/receiveservice.cpp: what the one posts, the other lets through.
mod Tests
use harbour_localsend.Common.{
  ℕ, ◌≡◌, refl, sym, ap, ◌∙◌, arith, Bool, true, false, not, ◌||◌, List, [], ◌∷◌, ◌++◌, Option,
  none, some, is_empty, All, if◌then◌else◌, Text, text_eq, text_eq_refl, find, subst, ℤ,
}
use harbour_localsend.Platform.{Platform}
use harbour_localsend.Crypto.{equals, equals_refl}
use harbour_localsend.TransferModel.{index_of_file}
use harbour_localsend.ReceiveService
use harbour_localsend.ReceiveService.State.{Service}
use harbour_localsend.ReceiveService.Upload.{
  UploadRequest, handle_upload_headers, upload_row, value_or_empty,
}
use harbour_localsend.ReceiveService.Machine.Frame.{pick_false}
use harbour_localsend.SendService
use harbour_localsend.SendService.State.{Sender, Request, prepare, upload, cancelling}
use harbour_localsend.SendService.Upload.{Reply}
use harbour_localsend.SendService.Prepare.Asked.{send_files-IsStarted}
use harbour_localsend.SendService.Prepare.{Device, send_files}
use harbour_localsend.Common.{length}
use harbour_localsend.SendService.Prepare.{on_prepare_finished, token_of, text_or}
use harbour_localsend.SendService.Machine.Ending.{answer_all}
use harbour_localsend.SendService.Upload.Granted.Answers.{answered-IsKept}
use harbour_localsend.SendService.Upload.Granted.{IsGranted, IsNamed}

-- What handleUploadHeaders reads of a posted upload, from the address of the session. The query of
-- the URL is taken as it was before QUrlQuery wrote it and the receiver read it.
abbrev pub upload_request : Text → ℕ → ℤ → Text → Text → Text → UploadRequest
upload_request address conn content_length session_id file_id token = record {
  conn = conn;
  peer_address = address;
  session_id = session_id;
  file_id = file_id;
  token = token;
  content_length = content_length;
}

same_value : (o : Option Text) → value_or_empty o ≡ text_or [] o
same_value none = refl
same_value (some t) = refl

module _ (q : Platform) (receiving : ReceiveService.State.Env) (t : Service) where
  -- An upload that gets past all tests of the session, the token and the address.
  abbrev pub IsPassed : Request → Type 0
  IsPassed (prepare pin files) = ⊥
  IsPassed (cancelling session_id) = ⊥
  IsPassed (upload row session_id file_id token local_path size) =
      (conn now : ℕ) (content_length : ℤ)
      → (let r = upload_request t.session_address conn content_length session_id file_id token in
          handle_upload_headers q receiving r now t
          ≡ upload_row q receiving r (index_of_file t.transfer file_id) now t)

  passed :
      (r : UploadRequest) (now : ℕ)
      → is_empty t.session_id ≡ false
      → r.session_id ≡ t.session_id
      → is_empty r.file_id ≡ false
      → is_empty r.token ≡ false
      → value_or_empty (find r.file_id t.tokens) ≡ r.token
      → r.peer_address ≡ t.session_address
      → handle_upload_headers q receiving r now t
        ≡ upload_row q receiving r (index_of_file t.transfer r.file_id) now t
  unfolding handle_upload_headers
  passed r now open_session session file token found address =
      let P : Service → Type 0 =
        λ u. u ≡ upload_row q receiving r (index_of_file t.transfer r.file_id) now t in
      pick_false P (is_empty r.session_id || is_empty r.file_id || is_empty r.token) _ _
        (cc (ap is_empty session, open_session, file, token))
        (pick_false P (is_empty t.session_id || not (text_eq r.session_id t.session_id)) _ _
          (cc (open_session, ap (λ x. text_eq x t.session_id) session, text_eq_refl t.session_id))
          (pick_false P
            (not (equals q (value_or_empty (find r.file_id t.tokens)) r.token)
              || not (text_eq r.peer_address t.session_address))
            _ _
            (cc (
              ap (λ x. equals q x r.token) found,
              equals_refl q r.token,
              ap (λ x. text_eq x t.session_address) address,
              text_eq_refl t.session_address,
            ))
            refl))

  granted-IsPassed :
      (r : Request) → is_empty t.session_id ≡ false → IsGranted t.session_id t.tokens r → IsPassed r
  granted-IsPassed (upload row session_id file_id token local_path size) some_session
        (same, file, tok, found) =
      λ conn now n.
        passed (upload_request t.session_address conn n session_id file_id token) now some_session
          same file tok (same_value (find file_id t.tokens) ∙ found) refl
  granted-IsPassed (prepare pin files) some_session k = absurd k
  granted-IsPassed (cancelling session_id) some_session k = absurd k

  all-IsPassed :
      (rs : List Request)
      → is_empty t.session_id ≡ false
      → All (IsGranted t.session_id t.tokens) rs
      → All IsPassed rs
  all-IsPassed [] some_session k = tt
  all-IsPassed (r ∷ rs) some_session (k, ks) =
      (granted-IsPassed r some_session k, all-IsPassed rs some_session ks)

  -- A service that is free begins a transfer, and the receiver answers the request with the session
  -- and the tokens that it holds. Then whatever it answers to the uploads, every request that the
  -- sender posts from there on is an upload, and coming from the address of the session it gets past
  -- the receiver's tests of session, token and address.
  pub uploads_pass :
      (sending : SendService.State.Env) (d : Device) (paths : List Text) (r : Reply) (now later : ℕ)
      (rs : List Reply) (s : Sender)
      → is_empty t.session_id ≡ false
      → is_empty t.tokens ≡ false
      → r.has_error ≡ false
      → r.status ≡ 200
      → r.body ≡ some (t.session_id, t.tokens)
      → s.busy ≡ false
      → (send_files q sending d paths now s).busy ≡ true
      → (new : List Request) × ((answer_all q sending rs later (
            on_prepare_finished q sending
              (length s.requests)
              r
              later
              (send_files q sending d paths now s))).requests
          ≡ new ++ (send_files q sending d paths now s).requests)
        × All IsPassed new
  uploads_pass sending d paths r now later rs s some_session some_tokens fine ok body free busy =
      let (runs, reply, names) = send_files-IsStarted q sending d paths now s free busy in
      let k =
        answered-IsKept q sending t.session_id t.tokens
          (send_files q sending d paths now s).requests r (length s.requests) later later rs
          (send_files q sending d paths now s) fine ok body some_session some_tokens runs reply refl
          names in
      (k.new, k.posted, all-IsPassed k.new some_session k.granted)
