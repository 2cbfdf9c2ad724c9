-- ===== src/ReceiveService/Finish.antt =====
-- src/receiveservice.cpp, finishSession and the ways to get there: the end of a session.
pub mod Ended
pub mod Skipped
use harbour_localsend.Common.{
  ℕ, ◌+◌, Bool, true, false, not, ◌&&◌, ◌||◌, List, [], ◌∷◌, ◌++◌, Option, none, some, is_empty,
  leb, ltb, ◌==◌, if◌then◌else◌, Text, codes, remove,
}
use harbour_localsend.Platform.{Platform}
use harbour_localsend.HistoryModel
use harbour_localsend.HistoryModel.{Record}
use harbour_localsend.KnownDevices
use harbour_localsend.KnownDevices.{KnownDevices}
use harbour_localsend.TransferModel.{
  TransferModel, FileEntry, finished, failed, cancelled, file_failed, file_skipped, set_state,
  set_file_status, completed_count, failed_count, file_count, is_waiting, is_transferring, is_done,
  state_name, sum_sizes,
}
use harbour_localsend.ReceiveService.State.{Service, Upload, Pending, respond, is_some}

-- The `status` argument of finishSession.
pub data Ending : Type 0 where
  ended_cancelled ended_failed ended_finished : Ending

abbrev pub is_cancelled : Ending → Bool
is_cancelled ended_cancelled = true
is_cancelled _ = false

unfoldable pub release_pending : Service → Service
release_pending s = record s { pending = none }

-- The loop over the open uploads: each part file goes, each connection is answered.
unfoldable pub close_uploads : List (ℕ × Upload) → ℕ → Service → Service
close_uploads [] now s = record s { uploads = [] }
close_uploads ((conn, u) ∷ rest) now s = close_uploads rest now (
    respond conn 500 (record s {
      disk = remove u.part_path s.disk;
      transfer = set_file_status u.row file_failed (codes "Transfer stopped") now s.transfer;
    }))

-- The loop over the rows that were not finished, on the rows that are left.
unfoldable pub skip_rows : ℕ → ℕ → List FileEntry → TransferModel → TransferModel
skip_rows now row [] m = m
skip_rows now row (f ∷ fs) m = skip_rows now (row + 1) fs (
    if is_waiting f.status || is_transferring f.status
    then set_file_status row file_skipped [] now m
    else m)

abbrev pub done_files : List FileEntry → List FileEntry
done_files [] = []
done_files (f ∷ fs) = if is_done f.status then f ∷ done_files fs else done_files fs

abbrev pub names_of : List FileEntry → List Text
names_of [] = []
names_of (f ∷ fs) = f.file_name ∷ names_of fs

abbrev pub answer_pending : Option Pending → Service → Service
answer_pending none s = s
answer_pending (some p) s = release_pending (respond p.conn 403 s)

-- `m_completed + m_failed >= m_fileCount`
unfoldable pub is_settled : TransferModel → Bool
is_settled m = leb (file_count m) (completed_count m + failed_count m)

module _ (q : Platform) where
  open q use {number}

  unfoldable pub end_state : Ending → ℕ → TransferModel → TransferModel
  end_state ending now m =
      let done = completed_count m in
      let total = file_count m in
      if is_cancelled ending
      then set_state cancelled [] now m
      else if done == total
      then set_state finished [] now m
      else if ltb 0 done
      then set_state failed
          (number done ++ (codes " of " ++ (number total ++ codes " files were received"))) now m
      else set_state failed (codes "Nothing was received") now m

  abbrev pub remember_peer : Option KnownDevices → Text → Text → ℕ → Option KnownDevices
  remember_peer none fingerprint alias now = none
  remember_peer (some k) fingerprint alias now =
      some (KnownDevices.remember q k fingerprint alias now)

  unfoldable pub session_record : Service → ℕ → Record
  session_record s now = record {
    id = s.session_id;
    direction = codes "receive";
    peer_alias = s.peer.alias;
    peer_device_type = s.peer.device_type;
    timestamp = now;
    file_names = names_of (done_files s.transfer.files);
    total_bytes = sum_sizes (done_files s.transfer.files);
    status = state_name s.transfer.state;
    destination = s.session_directory;
  }

  -- From the state of the transfer on: what is remembered of the session, and its end.
  unfoldable pub record_session : ℕ → Service → Service
  record_session now s =
      let done = completed_count s.transfer in
      record s {
        known =
            if ltb 0 done
            then remember_peer s.known s.peer.fingerprint s.peer.alias now
            else s.known;
        history =
            if s.settings.history_enabled && ltb 0 done
            then HistoryModel.append (session_record s now) s.history
            else s.history;
        session_id = [];
        session_address = [];
        session_directory = [];
        tokens = [];
      }

  -- The part of finishSession behind its first test and the timers.
  unfoldable pub end_session : Ending → ℕ → Service → Service
  end_session ending now s =
      let closed = answer_pending s.pending (close_uploads s.uploads now s) in
      if is_empty s.session_id
      then record closed { transfer = set_state cancelled [] now closed.transfer }
      else record_session now (record closed {
        transfer = end_state ending now (skip_rows now 0 closed.transfer.files closed.transfer);
      })

  unfoldable pub finish_session : Ending → ℕ → Service → Service
  finish_session ending now s =
      if is_empty s.session_id && not (is_some s.pending)
      then s
      else end_session ending now (record s { idle_running = false; accept_running = false })

  unfoldable pub on_session_idle : ℕ → Service → Service
  on_session_idle now s = if is_empty s.session_id then s else finish_session ended_failed now s

  unfoldable pub stop_listening : ℕ → Service → Service
  stop_listening now s =
      if not s.listening
      then s
      else record (finish_session ended_cancelled now s) { listening = false }
