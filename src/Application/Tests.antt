-- ===== src/Application/Tests.antt =====
-- src/harbour-localsend.cpp: Ann asks to send while the first of two files goes to Bob.
use harbour_localsend.Common.{◌≡◌, refl, some, true, false, find, text_eq, get_elem?, codes, []}
use harbour_localsend.Platform.{ascii}
use harbour_localsend.AppSettings.{check_pin}
use harbour_localsend.DeviceInfo.{from_payload}
use harbour_localsend.KnownDevices.{is_blocked}
use harbour_localsend.RateLimiter.{allow, record_success}
use harbour_localsend.RateLimiter
use harbour_localsend.Crypto.{equals, equals_bytes, equals_fold}
use harbour_localsend.Protocol.{sanitize_text, strip, trimmed, trim_start, trim_end, is_stripped}
use harbour_localsend.TransferModel.{
  FileEntry, init, begin, set_state, flush, sample_speed, touch, set_file_status, set_file_token,
  file_done, with_status,
}
use harbour_localsend.ReceiveService.Fixtures.{idle_service, request, note}
use harbour_localsend.ReceiveService.Fixtures as Receiving
use harbour_localsend.ReceiveService.Prepare.{
  read_entry, prepare_upload, prepare_body, prepare_peer, admit,
}
use harbour_localsend.ReceiveService.Prepare.Admitted.{is_busy}
use harbour_localsend.ReceiveService.Machine.{prepares}
use harbour_localsend.SendService.Fixtures.{idle_sender, willing, bob, paths, takes_first, received}
use harbour_localsend.SendService.State.{Sender, clear_reply, close_current_file}
use harbour_localsend.SendService.Upload.{start_next_file, next_file, begin_upload}
use harbour_localsend.SendService.Prepare.{
  send_files, peer_of, read_entries, local_path_of, request_upload, on_prepare_finished,
  prepare_answered, take_tokens, count_accepted, give_tokens,
}
use harbour_localsend.SendService.Machine.{sends, prepare_replies, upload_replies}
use harbour_localsend.SendService.Machine as Sending
use harbour_localsend.Application.{Application, receiver_of, at_receiver, at_sender, step}
use harbour_localsend.Application.Overlap.{overlap-marks}

abbrev sending : Sender
sending =
    Sending.step ascii willing 200 (prepare_replies 0 takes_first)
      (Sending.step ascii willing 100 (sends bob paths) idle_sender)

abbrev going_out : Application
going_out = record {
  settings = idle_sender.settings;
  transfer = sending.transfer;
  history = idle_sender.history;
  known = idle_sender.known;
  receiver = idle_service;
  sender = sending;
}

abbrev offered : FileEntry
offered = read_entry ascii Receiving.willing (codes "f", note)

sends_first : (sending.cancelled ≡ false) × (sending.current_row ≡ some 0)
unfolding send_files peer_of read_entries local_path_of request_upload set_state begin init flush
    on_prepare_finished prepare_answered take_tokens count_accepted clear_reply give_tokens
    start_next_file next_file close_current_file begin_upload set_file_status set_file_token touch
    sample_speed find text_eq
sends_first = (refl, refl)

taken_up :
    is_busy (prepare_upload ascii Receiving.willing request 300 (receiver_of going_out)) ≡ true
unfolding equals equals_bytes equals_fold sanitize_text strip trimmed trim_start trim_end
    is_stripped check_pin from_payload is_blocked allow record_success RateLimiter.init
    prepare_upload prepare_body prepare_peer admit find text_eq
taken_up = refl

overlap-marks_example :
    get_elem?
      (step ascii Receiving.willing willing 400 (at_sender (upload_replies 1 received)) (
        step ascii Receiving.willing willing 300
          (at_receiver (prepares request))
          going_out)).transfer.files
      0
    ≡ some (with_status file_done [] offered)
overlap-marks_example =
    overlap-marks ascii Receiving.willing willing request received 1 300 400 0 going_out offered
      refl refl taken_up sends_first.0 sends_first.1 refl refl
