-- ===== src/ReceiveService/Tests.antt =====
-- src/receiveservice.cpp, a session from the request to its end, at concrete inputs.
use harbour_localsend.Common.{
  ◌≡◌, ◌≤◌, ◌↔◌, refl, arith, Bool, true, List, [], ◌∷◌, ◌++◌, some, none, Text, codes, text_eq,
  length, find, insert, remove, contains,
}
use harbour_localsend.Platform.{ascii}
use harbour_localsend.Crypto.{equals, equals_bytes, equals_fold}
use harbour_localsend.Protocol.{sanitize_text, strip, trimmed, trim_start, trim_end, is_stripped}
use harbour_localsend.AppSettings.{check_pin}
use harbour_localsend.DeviceInfo.{from_payload}
use harbour_localsend.HistoryModel.{append}
use harbour_localsend.KnownDevices.{is_blocked}
use harbour_localsend.RateLimiter
use harbour_localsend.RateLimiter.{allow, record_success, record_failure}
use harbour_localsend.TransferModel
use harbour_localsend.TransferModel.{
  begin, set_state, flush, sample_speed, set_file_token, set_destination, set_file_status,
  set_file_local_path, set_file_transferred, touch, index_of_file, find_row, is_done,
  completed_count, failed_count, finished, state_name, file_done,
}
use harbour_localsend.ReceiveService.FileName.{
  sanitize_file_name, reserve_file_path, replace, or_default, shorten, is_free, numbered,
  try_numbers,
}
use harbour_localsend.ReceiveService.State.{Service, Upload, answer, answer_of, find_upload}
use harbour_localsend.ReceiveService.Finish.{
  ended_cancelled, finish_session, end_session, close_uploads, skip_rows, end_state, record_session,
  session_record, release_pending, is_settled,
}
use harbour_localsend.ReceiveService.Finish.Ended.{IsEnded, finish_session-IsEnded}
use harbour_localsend.ReceiveService.Prepare.{
  prepare_upload, prepare_body, prepare_peer, admit, read_entry, accept, accept_in,
  prepare_directory, issue_tokens,
}
use harbour_localsend.ReceiveService.Prepare.Admitted.{IsAdmitted, prepare_upload-IsAdmitted}
use harbour_localsend.ReceiveService.Upload.{
  handle_upload_headers, upload_row, start_upload, refuse_file, deliver, append_block,
  handle_upload_finished, settle_upload, keep_file, discard, finish_if_settled, looks_like_sha256,
}
use harbour_localsend.ReceiveService.Upload.Authorized.{
  IsAuthorized, handle_upload_headers-IsAuthorized,
}
use harbour_localsend.ReceiveService.Upload.Kept.{
  IsIntact, content, entry_of, settle_upload-IsIntact, settle_upload-content, settle_upload_removed,
}
use harbour_localsend.ReceiveService.FileName.{part_suffix}
use harbour_localsend.ReceiveService.Upload.Arrival.{receive-start_upload}
use harbour_localsend.ReceiveService.Upload.Bytes.{
  IsTracked, receive, joined, length-receive-le, receive-joined,
}
use harbour_localsend.ReceiveService.Fixtures.{idle_service, willing, request, upload_request}

session : Unit {0}
unfolding equals equals_bytes equals_fold sanitize_text strip trimmed trim_start trim_end
    is_stripped check_pin from_payload append is_blocked allow record_success record_failure begin
    set_state flush sample_speed set_file_token set_destination set_file_status set_file_local_path
    set_file_transferred touch index_of_file find_row completed_count failed_count state_name
    sanitize_file_name reserve_file_path replace or_default shorten is_free numbered try_numbers
    answer finish_session end_session close_uploads skip_rows end_state record_session
    session_record release_pending is_settled prepare_upload prepare_body prepare_peer admit
    read_entry accept accept_in prepare_directory issue_tokens handle_upload_headers upload_row
    start_upload refuse_file deliver append_block handle_upload_finished settle_upload keep_file
    discard finish_if_settled looks_like_sha256 receive text_eq find insert remove contains
    RateLimiter.init TransferModel.init
session = tt

abbrev asked : Service
asked = prepare_upload ascii willing request 100 idle_service

abbrev accepted : Service
accepted = accept ascii willing 200 asked

abbrev upload : Upload
upload = record {
  row = 0;
  part_path = codes "/d/n.txt.part";
  final_path = codes "/d/n.txt";
  limit = 4;
  received = 0;
}

abbrev open_service : Service
open_service = handle_upload_headers ascii willing upload_request 300 accepted

abbrev blocks : List (Text × Bool)
blocks = (codes "ab", true) ∷ (codes "cd", true) ∷ []

abbrev written : Service
written = receive 2 blocks open_service

abbrev done : Service
done = handle_upload_finished ascii willing 2 400 written

life :
    (answer_of 1 accepted.answers
      ≡ some (record {
        status = 200;
        session = codes "token0";
        tokens = (codes "f", codes "token1") ∷ [];
      }))
    × (find_upload 2 open_service.uploads ≡ some upload)
    × (content written (codes "/d/n.txt.part") ≡ codes "abcd")
    × (done.disk ≡ (codes "/d/n.txt", codes "abcd") ∷ [])
    × (done.session_id ≡ [])
    × (done.transfer.state ≡ finished)
    × (length done.history.records ≡ 1)
unfolding session
life = (refl, refl, refl, refl, refl, refl, refl)

prepare_upload-IsAdmitted_example : IsAdmitted ascii request 100 idle_service
unfolding session
prepare_upload-IsAdmitted_example =
    prepare_upload-IsAdmitted ascii willing request 100 idle_service refl refl

handle_upload_headers-IsAuthorized_example : IsAuthorized ascii upload_request accepted upload
unfolding session
handle_upload_headers-IsAuthorized_example =
    handle_upload_headers-IsAuthorized ascii willing upload_request 300 accepted upload refl refl

open-IsTracked : IsTracked open_service 2 upload
unfolding session
open-IsTracked = record { held = refl; within = omega arith; written = refl }

length-receive-le_example :
    length (content (receive 2 ((codes "abcdefgh", true) ∷ blocks) open_service) upload.part_path)
    ≤ 4
length-receive-le_example =
    length-receive-le 2 ((codes "abcdefgh", true) ∷ blocks) upload open_service open-IsTracked

receive-joined_example :
    content written upload.part_path ≡ content open_service upload.part_path ++ joined blocks
unfolding session
receive-joined_example =
    receive-joined 2 blocks upload open_service open-IsTracked refl (refl, (refl, tt)) (omega arith)

settle_upload-IsIntact_example :
    (is_done (entry_of (settle_upload ascii willing 2 upload 400 written) upload).status ≡ true)
    ↔ IsIntact ascii written upload
unfolding session
settle_upload-IsIntact_example =
    settle_upload-IsIntact ascii willing 2 400 upload written (omega arith)

settle_upload-content_example :
    content
      (settle_upload ascii willing 2 upload 400 written)
      (entry_of (settle_upload ascii willing 2 upload 400 written) upload).local_path
    ≡ content written upload.part_path
unfolding session
settle_upload-content_example =
    settle_upload-content ascii willing 2 400 upload written (omega arith) refl

-- The body was cut short.
settle_upload_removed_example :
    find upload.part_path (settle_upload ascii willing 2 upload 400 open_service).disk ≡ none
unfolding session
settle_upload_removed_example =
    settle_upload_removed ascii willing 2 400 upload open_service (omega arith) refl

finish_session-IsEnded_example : IsEnded written (finish_session ascii ended_cancelled 500 written)
unfolding session
finish_session-IsEnded_example = finish_session-IsEnded ascii ended_cancelled 500 written refl

receive-start_upload_example :
    content
      (receive 2 blocks (start_upload upload_request 0 (codes "/d/n.txt") 300 accepted))
      (codes "/d/n.txt" ++ part_suffix)
    ≡ joined blocks
unfolding session
receive-start_upload_example =
    receive-start_upload upload_request 0 300 (codes "/d/n.txt") accepted blocks refl refl
      (refl, (refl, tt)) (omega arith)
