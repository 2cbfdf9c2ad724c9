-- ===== src/Exchange/Tests.antt =====
-- src/sendservice.cpp against src/receiveservice.cpp: Bob takes the first of two files.
use harbour_localsend.Common.{true, ◌≡◌, refl, codes, [], ◌∷◌, ◌++◌, List, All}
use harbour_localsend.Platform.{ascii}
use harbour_localsend.TransferModel.{begin, init, set_state, flush}
use harbour_localsend.ReceiveService.Fixtures.{idle_service}
use harbour_localsend.ReceiveService.Fixtures as Receiving
use harbour_localsend.ReceiveService.State.{Service}
use harbour_localsend.SendService.Fixtures.{idle_sender, willing, bob, paths, takes_first, received}
use harbour_localsend.SendService.State.{Request}
use harbour_localsend.SendService.Prepare.{
  send_files, peer_of, read_entries, local_path_of, request_upload, on_prepare_finished,
}
use harbour_localsend.SendService.Machine.Ending.{answer_all}
use harbour_localsend.Exchange.{IsPassed, uploads_pass}

abbrev holding : Service
holding = record idle_service {
  session_id = codes "s";
  session_address = codes "10.0.0.4";
  tokens = (codes "0-r0", codes "t") ∷ [];
}

begins : (send_files ascii willing bob paths 100 idle_sender).busy ≡ true
unfolding send_files peer_of read_entries local_path_of request_upload set_state begin init flush
begins = refl

uploads_pass_example :
    (new : List Request) × ((answer_all ascii willing (received ∷ []) 300 (
        on_prepare_finished ascii willing 0 takes_first 300
          (send_files ascii willing bob paths 100 idle_sender))).requests
      ≡ new ++ (send_files ascii willing bob paths 100 idle_sender).requests)
    × All (IsPassed ascii Receiving.willing holding) new
uploads_pass_example =
    uploads_pass ascii Receiving.willing holding willing bob paths takes_first 100 300
      (received ∷ []) idle_sender refl refl refl refl refl refl begins
