-- ===== src/ReceiveService/Finish/Ended.antt =====
-- src/receiveservice.cpp, finishSession: what is left of a session.
use harbour_localsend.Common.{
  ℕ, ◌≡◌, refl, sym, ◌∙◌, arith, Bool, true, false, ◌||◌, List, [], ◌∷◌, Option, none, some,
  is_empty, All, ltb, ◌==◌, ==_iff, if◌then◌else◌, Text, codes, text_eq_iff, find, remove,
  find-remove, subst,
}
use harbour_localsend.Platform.{Platform}
use harbour_localsend.TransferModel.{
  TransferModel, FileEntry, file_failed, finished, failed, cancelled, set_file_status,
  completed_count, file_count,
}
use harbour_localsend.TransferModel.Files.{set_state-files}
use harbour_localsend.ReceiveService.State.{Service, Upload, Pending, answer, respond, has_answered}
use harbour_localsend.ReceiveService.Finish.{
  Ending, is_cancelled, release_pending, close_uploads, skip_rows, answer_pending, end_state,
  record_session, end_session, finish_session,
}
use harbour_localsend.ReceiveService.Finish.Skipped.{IsOver, skip_rows-IsOver}

-- What answering a connection leaves as it was.
respond-rest :
    (conn status : ℕ) (s : Service)
    → ((respond conn status s).uploads ≡ s.uploads)
      × ((respond conn status s).pending ≡ s.pending)
      × ((respond conn status s).accept_running ≡ s.accept_running)
      × ((respond conn status s).idle_running ≡ s.idle_running)
unfolding answer
respond-rest conn status s = ground arith

has_answered-respond :
    (conn status c : ℕ) (s : Service)
    → has_answered c (respond conn status s).answers ≡ (conn == c || has_answered c s.answers)
unfolding answer
has_answered-respond conn status c s = ground (arith, ==_iff conn c)

disk-respond : (conn status : ℕ) (s : Service) → (respond conn status s).disk ≡ s.disk
unfolding answer
disk-respond conn status s = ground arith

-- One round of the loop over the uploads.
abbrev stop_upload : ℕ → Upload → ℕ → Service → Service
stop_upload conn u now s = respond conn 500 (record s {
  disk = remove u.part_path s.disk;
  transfer = set_file_status u.row file_failed (codes "Transfer stopped") now s.transfer;
})

stop_upload-disk :
    (conn now : ℕ) (u : Upload) (s : Service)
    → (stop_upload conn u now s).disk ≡ remove u.part_path s.disk
stop_upload-disk conn now u s = disk-respond conn 500 _

has_answered-stop_upload :
    (conn now c : ℕ) (u : Upload) (s : Service)
    → has_answered c (stop_upload conn u now s).answers ≡ (conn == c || has_answered c s.answers)
has_answered-stop_upload conn now c u s = has_answered-respond conn 500 c _

close_uploads-uploads :
    (us : List (ℕ × Upload)) (now : ℕ) (s : Service) → (close_uploads us now s).uploads ≡ []
unfolding close_uploads
close_uploads-uploads [] now s = refl
close_uploads-uploads ((conn, u) ∷ us) now s = close_uploads-uploads us now _

close_uploads-gone :
    (us : List (ℕ × Upload)) (now : ℕ) (path : Text) (s : Service)
    → find path s.disk ≡ none
    → find path (close_uploads us now s).disk ≡ none
unfolding close_uploads
close_uploads-gone [] now path s h = h
close_uploads-gone ((conn, u) ∷ us) now path s h =
    close_uploads-gone us now path (stop_upload conn u now s)
      (rw (stop_upload-disk conn now u s) (ground (arith, find-remove u.part_path path s.disk)))

close_uploads-answered :
    (us : List (ℕ × Upload)) (now c : ℕ) (s : Service)
    → has_answered c s.answers ≡ true
    → has_answered c (close_uploads us now s).answers ≡ true
unfolding close_uploads
close_uploads-answered [] now c s h = h
close_uploads-answered ((conn, u) ∷ us) now c s h =
    close_uploads-answered us now c (stop_upload conn u now s)
      (rw (has_answered-stop_upload conn now c u s) (ground (arith, h)))

-- An upload whose part file is gone and whose connection was answered.
abbrev pub IsClosed : Service → ℕ × Upload → Type 0
IsClosed s (conn, u) = (find u.part_path s.disk ≡ none) × (has_answered conn s.answers ≡ true)

close_uploads-IsClosed :
    (us : List (ℕ × Upload)) (now : ℕ) (s : Service) → All (IsClosed (close_uploads us now s)) us
unfolding close_uploads
close_uploads-IsClosed [] now s = tt
close_uploads-IsClosed ((conn, u) ∷ us) now s = (
  (
    close_uploads-gone us now u.part_path (stop_upload conn u now s) gone,
    close_uploads-answered us now conn (stop_upload conn u now s) answered,
  ),
  close_uploads-IsClosed us now (stop_upload conn u now s),
)
  where
    gone : find u.part_path (stop_upload conn u now s).disk ≡ none
    gone = rw (stop_upload-disk conn now u s) (
        ground
          (arith, find-remove u.part_path u.part_path s.disk, text_eq_iff u.part_path u.part_path))

    answered : has_answered conn (stop_upload conn u now s).answers ≡ true
    answered = rw (has_answered-stop_upload conn now conn u s) (ground (arith, ==_iff conn conn))

close_uploads-rest :
    (us : List (ℕ × Upload)) (now : ℕ) (s : Service)
    → ((close_uploads us now s).pending ≡ s.pending)
      × ((close_uploads us now s).accept_running ≡ s.accept_running)
      × ((close_uploads us now s).idle_running ≡ s.idle_running)
unfolding close_uploads
close_uploads-rest [] now s = (refl, refl, refl)
close_uploads-rest ((conn, u) ∷ us) now s =
    let (p, a, i) = close_uploads-rest us now (stop_upload conn u now s) in
    let (_, p', a', i') = respond-rest conn 500 (record s {
      disk = remove u.part_path s.disk;
      transfer = set_file_status u.row file_failed (codes "Transfer stopped") now s.transfer;
    }) in
    (p ∙ p', a ∙ a', i ∙ i')

IsClosed-respond :
    (conn : ℕ) (us : List (ℕ × Upload)) (s : Service)
    → All (IsClosed s) us
    → All (IsClosed (release_pending (respond conn 403 s))) us
unfolding release_pending
IsClosed-respond conn [] s h = tt
IsClosed-respond conn ((c, u) ∷ us) s h = (
  (
    rw (disk-respond conn 403 s) h.0.0,
    rw (has_answered-respond conn 403 c s) (ground (arith, h.0.1)),
  ),
  IsClosed-respond conn us s h.1,
)

-- The state behind the loop and the answer to a parked request.
abbrev closed_from : ℕ → Service → Service
closed_from now s =
    answer_pending s.pending
      (close_uploads s.uploads now (record s { idle_running = false; accept_running = false }))

closed_from-rest :
    (now : ℕ) (s : Service)
    → ((closed_from now s).pending ≡ none)
      × ((closed_from now s).accept_running ≡ false)
      × ((closed_from now s).idle_running ≡ false)
      × ((closed_from now s).uploads ≡ [])
      × All (IsClosed (closed_from now s)) s.uploads
unfolding release_pending
closed_from-rest now s = by_pending s.pending refl
  where
    start : Service
    start = record s { idle_running = false; accept_running = false }

    looped : Service
    looped = close_uploads s.uploads now start

    by_pending :
        (p : Option Pending)
        → s.pending ≡ p
        → ((answer_pending p looped).pending ≡ none)
          × ((answer_pending p looped).accept_running ≡ false)
          × ((answer_pending p looped).idle_running ≡ false)
          × ((answer_pending p looped).uploads ≡ [])
          × All (IsClosed (answer_pending p looped)) s.uploads
    by_pending none e =
        let (p, a, i) = close_uploads-rest s.uploads now start in
        (
          p ∙ e,
          a,
          i,
          close_uploads-uploads s.uploads now start,
          close_uploads-IsClosed s.uploads now start,
        )
    by_pending (some p) e =
        let (_, a, i) = close_uploads-rest s.uploads now start in
        let (u', _, a', i') = respond-rest p.conn 403 looped in
        (
          refl,
          a' ∙ a,
          i' ∙ i,
          u' ∙ close_uploads-uploads s.uploads now start,
          IsClosed-respond p.conn s.uploads looped (close_uploads-IsClosed s.uploads now start),
        )

-- What is left when the session of the state `s` has ended in the state `t`.
pub record IsEnded (s t : Service) : Type 0 where
  pub pending : t.pending ≡ none
  pub session_id : t.session_id ≡ []
  pub session_address : t.session_address ≡ []
  pub tokens : t.tokens ≡ []
  pub uploads : t.uploads ≡ []
  pub timers : (t.accept_running ≡ false) × (t.idle_running ≡ false)
  pub files : All IsOver t.transfer.files
  pub closed : All (IsClosed t) s.uploads

if-files :
    (b : Bool) (x y : TransferModel) {fs : List FileEntry}
    → x.files ≡ fs
    → y.files ≡ fs
    → (if b then x else y).files ≡ fs
if-files true x y h k = h
if-files false x y h k = k

module _ (q : Platform) where
  end_state-files :
      (ending : Ending) (now : ℕ) (m : TransferModel) → (end_state q ending now m).files ≡ m.files
  unfolding end_state
  end_state-files ending now m =
      if-files (is_cancelled ending) _ _ (set_state-files cancelled [] now m) (
        if-files (completed_count m == file_count m) _ _ (set_state-files finished [] now m) (
          if-files (ltb 0 (completed_count m)) _ _ (set_state-files failed _ now m)
            (set_state-files failed _ now m)))

  finish_session_running :
      (ending : Ending) (now : ℕ) (s : Service)
      → is_empty s.session_id ≡ false
      → finish_session q ending now s
        ≡ record_session q now (record (closed_from now s) {
          transfer =
              end_state q ending now
                (skip_rows now 0 (closed_from now s).transfer.files (closed_from now s).transfer);
        })
  unfolding finish_session end_session
  finish_session_running ending now s h = ground arith

  -- A session that ends, in whatever way, leaves nothing open: no request waits, the session, its
  -- address and its tokens are gone, both timers stand, no file is waiting or under way, the part
  -- file of each upload is removed and its connection is answered.
  pub finish_session-IsEnded :
      (ending : Ending) (now : ℕ) (s : Service)
      → is_empty s.session_id ≡ false
      → IsEnded s (finish_session q ending now s)
  unfolding record_session
  finish_session-IsEnded ending now s h =
      let (pending, accept, idle, uploads, closed) = closed_from-rest now s in
      subst (IsEnded s) (sym (finish_session_running ending now s h)) (record {
        pending = pending;
        session_id = refl;
        session_address = refl;
        tokens = refl;
        uploads = uploads;
        timers = (accept, idle);
        files = subst (All IsOver) (sym (end_state-files ending now _)) (
            skip_rows-IsOver now [] (closed_from now s).transfer.files (closed_from now s).transfer
              refl tt);
        closed = closed;
      })
