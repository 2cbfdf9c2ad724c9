-- ===== src/SendService/Upload/Granted/Answers.antt =====
-- src/sendservice.cpp, onPrepareFinished and onUploadFinished: from the peer's answer on, uploads stay
-- with what was granted.
use harbour_localsend.Common.{
  ℕ, ◌≡◌, refl, sym, ap, ◌∙◌, false, ◌&&◌, ◌||◌, List, [], ◌∷◌, Option, none, some, is_empty, All,
  Text, codes, inl, inr, ◌⊎◌, subst, ◌==◌,
}
use harbour_localsend.Platform.{Platform}
use harbour_localsend.TransferModel.{
  TransferModel, FileEntry, FileStatus, file_done, file_failed, with_status, is_waiting,
  set_file_status, set_state, State, active, finished,
}
use harbour_localsend.TransferModel.Files.{set_state-files}
use harbour_localsend.SendService.State.{Sender, Env, Request, cleared, clear_reply}
use harbour_localsend.SendService.Upload.{
  Reply, set_current, start_next_file, upload_answered, on_upload_finished, is_success,
}
use harbour_localsend.SendService.Prepare.{
  on_prepare_finished, prepare_answered, read_answer, end_early, count_accepted, give_tokens,
  take_tokens,
}
use harbour_localsend.SendService.Machine.Ends.{either, when_on, when_off}
use harbour_localsend.SendService.Machine.Files.{given, give_tokens-All}
use harbour_localsend.SendService.Machine.Between.{cleared_own}
use harbour_localsend.SendService.Machine.Ending.{answer_next, answer_all}
use harbour_localsend.SendService.Upload.Granted.{
  IsGiven, IsNamed, IsFaithful, set_file_status-IsGiven, given-IsGiven,
}
use harbour_localsend.SendService.Upload.Granted.Kept.{
  ended, fail_transfer-IsKept, start_next_file-IsKept,
}

module _ (q : Platform) (e : Env) (session : Text) (tokens : List (Text × Text))
    (base : List Request) where
  abbrev IsKept : Sender → Type 0
  IsKept t = IsFaithful session tokens base t

  upload_answered-IsKept :
      (r : Reply) (now : ℕ) (s : Sender)
      → IsKept s
      → s.session_id ≡ session
      → s.reply ≡ none
      → IsKept (upload_answered q e r now s)
  unfolding upload_answered
  upload_answered-IsKept r now s k named reply =
      either IsKept (is_success q e r) _ _ (next file_done [] (λ g. refl)) (
        either IsKept (r.status == 409) _ _
          (fail_transfer-IsKept q e session tokens base _ now _ (marked file_failed _ (λ g. refl))
            reply)
          (next file_failed r.error_string (λ g. refl)))
    where
      Leaves : FileStatus → Text → Type 0
      Leaves status error = (f : FileEntry) → is_waiting (with_status status error f).status ≡ false

      left : FileStatus → Text → Sender
      left status error = record s {
        transfer =
            set_current s.current_row (λ row m. set_file_status row status error now m) s.transfer;
      }

      rows :
          (status : FileStatus) (error : Text)
          → Leaves status error
          → (o : Option ℕ)
          → All
              (IsGiven tokens)
              (set_current o (λ row m. set_file_status row status error now m) s.transfer).files
      rows status error over none = k.given
      rows status error over (some row) =
          set_file_status-IsGiven tokens row status error now s.transfer over k.given

      marked :
          (status : FileStatus) (error : Text) → Leaves status error → IsKept (left status error)
      marked status error over =
          ended q e session tokens base s (left status error) k refl reply
            (rows status error over s.current_row)

      next :
          (status : FileStatus) (error : Text)
          → Leaves status error
          → IsKept (start_next_file q e now (left status error))
      next status error over =
          start_next_file-IsKept q e session tokens base now (left status error)
            (marked status error over) named reply

  on_upload_finished-IsKept :
      (id : ℕ) (r : Reply) (now : ℕ) (s : Sender)
      → IsKept s
      → s.reply ≡ some id
      → IsKept (on_upload_finished q e id r now s)
  unfolding on_upload_finished clear_reply
  on_upload_finished-IsKept id r now s k reply = by_name k.named
    where
      quiet : (clear_reply id s).reply ≡ none
      quiet = ap (λ o. cleared o id) reply ∙ cleared_own id

      hushed : IsKept (clear_reply id s)
      hushed = ended q e session tokens base s (clear_reply id s) k refl quiet k.given

      by_name :
          (s.session_id ≡ session) ⊎ (s.reply ≡ none) → IsKept (on_upload_finished q e id r now s)
      by_name (inr idle) = absurd (cc (idle, reply))
      by_name (inl named) =
          either IsKept s.cancelled _ _ hushed
            (upload_answered-IsKept r now (clear_reply id s) hushed named quiet)

  answer_all-IsKept :
      (rs : List Reply) (now : ℕ) (s : Sender) → IsKept s → IsKept (answer_all q e rs now s)
  answer_all-IsKept [] now s k = k
  answer_all-IsKept (r ∷ rs) now s k =
      answer_all-IsKept rs now (answer_next q e s.reply r now s) (one s.reply refl)
    where
      one : (o : Option ℕ) → s.reply ≡ o → IsKept (answer_next q e o r now s)
      one none eq = k
      one (some id) eq = on_upload_finished-IsKept id r now s k eq

  take_tokens-IsKept :
      (now : ℕ) (s : Sender)
      → s.requests ≡ base
      → s.session_id ≡ session
      → s.reply ≡ none
      → All IsNamed s.transfer.files
      → IsKept (take_tokens q e tokens now s)
  unfolding take_tokens
  take_tokens-IsKept now s posted named reply names =
      either IsKept (count_accepted tokens s.transfer.files == 0) _ _
        (fresh
          (end_early (codes "finished") (record s { transfer = set_state finished [] now handed }))
          posted reply (after_state finished))
        (start_next_file-IsKept q e session tokens base now begun
          (fresh begun posted reply (after_state active)) named reply)
    where
      handed : TransferModel
      handed = give_tokens tokens now 0 s.transfer.files s.transfer

      begun : Sender
      begun = record s { transfer = set_state active [] now handed; current_row = none }

      after_state : (state : State) → All (IsGiven tokens) (set_state state [] now handed).files
      after_state state = subst (All (IsGiven tokens)) (sym (set_state-files state [] now handed)) (
          give_tokens-All IsNamed (IsGiven tokens) tokens now [] s.transfer.files s.transfer
            (given-IsGiven tokens) refl tt names)

      fresh :
          (t : Sender)
          → t.requests ≡ base
          → t.reply ≡ none
          → All (IsGiven tokens) t.transfer.files
          → IsKept t
      fresh t posted reply given = record {
        new = [];
        posted = posted;
        granted = tt;
        given = given;
        named = inr reply;
      }

  -- The peer's answer names a session and some tokens, with which all that follows is posted.
  pub answered-IsKept :
      (r : Reply) (id now later : ℕ) (rs : List Reply) (s : Sender)
      → r.has_error ≡ false
      → r.status ≡ 200
      → r.body ≡ some (session, tokens)
      → is_empty session ≡ false
      → is_empty tokens ≡ false
      → s.cancelled ≡ false
      → s.reply ≡ some id
      → s.requests ≡ base
      → All IsNamed s.transfer.files
      → IsKept (answer_all q e rs later (on_prepare_finished q e id r now s))
  unfolding on_prepare_finished prepare_answered clear_reply
  answered-IsKept r id now later rs s fine ok body some_session some_tokens runs reply posted
        names =
      answer_all-IsKept rs later (on_prepare_finished q e id r now s) (
        when_off IsKept s.cancelled _ _ runs (
          when_off IsKept (r.has_error && r.status == 0) _ _ (ap (λ b. b && r.status == 0) fine) (
            when_on IsKept (r.status == 200) _ _ (ap (λ n. n == 200) ok) (
              subst (λ o. IsKept (read_answer q e o now quiet)) (sym body)
                (when_off IsKept (is_empty session || is_empty tokens) _ _
                  (ap (λ b. b || is_empty tokens) some_session ∙ some_tokens)
                  (take_tokens-IsKept now (record quiet { session_id = session }) posted refl
                    (ap (λ o. cleared o id) reply ∙ cleared_own id) names))))))
    where
      quiet : Sender
      quiet = clear_reply id s
