-- ===== src/SendService/Tests.antt =====
-- src/sendservice.cpp: a transfer of two files, of which the peer takes the first.
use harbour_localsend.Common.{◌≡◌, refl, inr, [], ◌∷◌, false, codes}
use harbour_localsend.Platform.{ascii}
use harbour_localsend.Common.{find, length, text_eq, some, true, arith}
use harbour_localsend.TransferModel.{
  FileEntry, new_file, file_transferring, file_skipped, set_state, begin, init, flush,
  set_file_status, set_file_token, touch, sample_speed,
}
use harbour_localsend.SendService.Prepare.{
  send_files, peer_of, read_entries, local_path_of, request_upload, on_prepare_finished,
  prepare_answered, take_tokens, count_accepted, give_tokens,
}
use harbour_localsend.SendService.State.{clear_reply, close_current_file}
use harbour_localsend.SendService.Upload.{start_next_file, next_file, begin_upload}
use harbour_localsend.SendService.State.{Sender}
use harbour_localsend.SendService.End.{cancel}
use harbour_localsend.SendService.End.Ended.{IsStill, goodbye, cancel_ends}
use harbour_localsend.SendService.Machine.Ending.{answer_all, uploads_end}
use harbour_localsend.SendService.Machine.{sends, prepare_replies, upload_replies, step}
use harbour_localsend.SendService.Machine.Modes.{
  Mode, uploading, IsAsked, IsUploaded, IsIn, IsOrderly, IsReached,
}
use harbour_localsend.SendService.Machine.Orderly.{modes_hold, requests_in_order}
use harbour_localsend.SendService.Fixtures.{idle_sender, willing, bob, paths, takes_first, received}

abbrev asked : Sender
asked = step ascii willing 100 (sends bob paths) idle_sender

abbrev sending : Sender
sending = step ascii willing 200 (prepare_replies 0 takes_first) asked

abbrev sent : Sender
sent = step ascii willing 300 (upload_replies 1 received) sending

first_awaited : (asked.reply ≡ some 0) × IsAsked asked.requests
unfolding send_files peer_of read_entries local_path_of request_upload set_state begin init flush
first_awaited = (refl, tt)

second_awaited : (sending.reply ≡ some 1) × IsUploaded sending.requests × (sending.busy ≡ true)
unfolding send_files peer_of read_entries local_path_of request_upload set_state begin init flush
    on_prepare_finished prepare_answered take_tokens count_accepted clear_reply give_tokens
    start_next_file next_file close_current_file begin_upload set_file_status set_file_token touch
    sample_speed find text_eq
second_awaited = (refl, tt, refl)

reached : IsReached ascii willing idle_sender sent
reached =
    IsReached.next 300 (upload_replies 1 received) sending
      (IsReached.next 200 (prepare_replies 0 takes_first) asked
        (IsReached.next 100 (sends bob paths) idle_sender IsReached.start tt) (inr first_awaited))
      (inr (second_awaited.0, second_awaited.1))

modes_hold_example : (m : Mode) × IsIn m sent
modes_hold_example = modes_hold ascii willing idle_sender sent (refl, refl, refl, tt) reached

requests_in_order_example : IsOrderly sent.requests
requests_in_order_example =
    requests_in_order ascii willing idle_sender sent (refl, refl, refl, tt) reached

abbrev first : FileEntry
first = record new_file {
  id = codes "0-r0";
  file_name = codes "a";
  size = 4;
  file_type = codes "text/plain";
  token = codes "t";
  local_path = codes "/h/a";
  status = file_transferring;
}

abbrev second : FileEntry
second = record new_file {
  id = codes "1-r1";
  file_name = codes "b";
  size = 4;
  file_type = codes "text/plain";
  local_path = codes "/h/b";
  status = file_skipped;
}

first_goes : IsIn uploading sending × (length sending.transfer.files ≡ 2)
unfolding send_files peer_of read_entries local_path_of request_upload set_state begin init flush
    on_prepare_finished prepare_answered take_tokens count_accepted clear_reply give_tokens
    start_next_file next_file close_current_file begin_upload set_file_status set_file_token touch
    sample_speed find text_eq
first_goes = (
  (
    refl,
    refl,
    refl,
    record {
      before = [];
      file = first;
      after = second ∷ [];
      split = refl;
      over = tt;
      ready = ((refl, λ e. absurd (cc)), tt);
      row = refl;
      posted = (asked.requests, refl);
    },
    (refl, refl, tt, tt),
  ),
  refl,
)

uploads_end_example : (answer_all ascii willing (received ∷ received ∷ []) 300 sending).busy ≡ false
uploads_end_example =
    uploads_end ascii willing (received ∷ received ∷ []) 300 sending 1 first_goes.0 second_awaited.0
      (omega (arith, first_goes.1))

cancel_ends_example :
    ((cancel ascii willing 300 sending).busy ≡ false)
    × IsStill (goodbye sending) (cancel ascii willing 300 sending)
cancel_ends_example = cancel_ends ascii willing 300 sending second_awaited.2
