-- ===== src/SendService/End.antt =====
-- src/sendservice.cpp, the ways in which a transfer ends: completeTransfer, failTransfer, cancel,
-- notifyPeerCancelled, writeHistory.
pub mod Ended
pub mod Outcome
use harbour_localsend.Common.{
  ℕ, ◌+◌, ◌==◌, Bool, true, false, not, ◌&&◌, ◌||◌, List, [], ◌∷◌, ◌++◌, Option, none, some, ltb,
  is_empty, if◌then◌else◌, Text, codes,
}
use harbour_localsend.Platform.{Platform}
use harbour_localsend.HistoryModel
use harbour_localsend.HistoryModel.{Record}
use harbour_localsend.TransferModel.{
  TransferModel, FileEntry, file_skipped, set_state, set_file_status, completed_count, file_count,
  is_waiting, is_done, state_name, sum_sizes, failed, cancelled,
}
use harbour_localsend.TransferModel
use harbour_localsend.ReceiveService.Finish.{done_files, names_of, skip_rows, remember_peer}
use harbour_localsend.SendService.State.{
  Sender, Env, Signal, busy_changed, finished, cancelling, emit, post_only, close_current_file,
}

abbrev pub id_or : Text → Text → Text
id_or default id = if is_empty id then default else id

unfoldable pub sent_record : Env → Sender → ℕ → Record
sent_record e s now = record {
  id = id_or (e.random s.drawn) s.session_id;
  direction = codes "send";
  peer_alias = s.peer.alias;
  peer_device_type = s.peer.device_type;
  timestamp = now;
  file_names = names_of (done_files s.transfer.files);
  total_bytes = sum_sizes (done_files s.transfer.files);
  status = state_name s.transfer.state;
  destination = [];
}

unfoldable pub write_history : Env → ℕ → Sender → Sender
write_history e now s = if not s.settings.history_enabled then s else record s {
  drawn = if is_empty s.session_id then s.drawn + 1 else s.drawn;
  history =
      if is_empty (names_of (done_files s.transfer.files))
      then s.history
      else HistoryModel.append (sent_record e s now) s.history;
}

-- The end that the three ways share.
abbrev pub rest : Text → ℕ → Sender → Sender
rest status count s = record s {
  busy = false;
  session_id = [];
  signals = finished status count ∷ busy_changed ∷ s.signals;
}

-- The loop of failTransfer over the rows that still wait.
unfoldable pub skip_waiting : ℕ → ℕ → List FileEntry → TransferModel → TransferModel
skip_waiting now row [] m = m
skip_waiting now row (f ∷ fs) m =
    skip_waiting now (row + 1) fs
      (if is_waiting f.status then set_file_status row file_skipped [] now m else m)

unfoldable pub notify_peer_cancelled : Sender → Sender
notify_peer_cancelled s =
    if is_empty s.session_id || is_empty s.peer.address
    then s
    else post_only (cancelling s.session_id) s

module _ (q : Platform) (e : Env) where
  open q use {number}

  unfoldable pub end_state : ℕ → TransferModel → TransferModel
  end_state now m =
      let done = completed_count m in
      if done == file_count m
      then set_state TransferModel.finished [] now m
      else if ltb 0 done
      then set_state failed
          (number done ++ (codes " of " ++ (number (file_count m) ++ codes " files were sent"))) now
          m
      else set_state failed (codes "Nothing was sent") now m

  unfoldable pub complete_transfer : ℕ → Sender → Sender
  complete_transfer now s =
      let done = completed_count s.transfer in
      let ended = write_history e now (record s {
        transfer = end_state now s.transfer;
        known =
            if ltb 0 done
            then remember_peer q s.known s.peer.fingerprint s.peer.alias now
            else s.known;
      }) in
      rest (state_name ended.transfer.state) done ended

  abbrev pub write_if_any : ℕ → Sender → Sender
  write_if_any now s = if ltb 0 (completed_count s.transfer) then write_history e now s else s

  unfoldable pub fail_transfer : Text → ℕ → Sender → Sender
  fail_transfer message now s =
      let ended = write_if_any now (record (close_current_file s) {
        transfer = set_state failed message now (skip_waiting now 0 s.transfer.files s.transfer);
      }) in
      rest (codes "failed") (completed_count ended.transfer) ended

  -- `abort` makes the reply finish at once; its handler finds the transfer cancelled and clears it.
  unfoldable pub cancel : ℕ → Sender → Sender
  cancel now s =
      if not s.busy
      then s
      else let told =
          notify_peer_cancelled
            (close_current_file (record s { cancelled = true; reply = none })) in
        let ended = write_if_any now (record told {
          transfer = set_state cancelled [] now (skip_rows now 0 told.transfer.files told.transfer);
        }) in
        rest (codes "cancelled") (completed_count ended.transfer) ended
