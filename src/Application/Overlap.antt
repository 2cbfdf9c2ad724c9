-- ===== src/Application/Overlap.antt =====
-- src/harbour-localsend.cpp: an incoming request while files go out. Both services move the rows of
-- the one TransferModel.
use harbour_localsend.Common.{ℕ, ◌≡◌, ap, ◌∙◌, true, false, [], some, get_elem?}
use harbour_localsend.Platform.{Platform}
use harbour_localsend.TransferModel.{FileEntry, file_done, with_status}
use harbour_localsend.ReceiveService
use harbour_localsend.ReceiveService.State.{Service, respond, is_some}
use harbour_localsend.ReceiveService.Prepare.{PrepareRequest, read_entries, prepare_upload}
use harbour_localsend.ReceiveService.Prepare.Admitted.{is_busy}
use harbour_localsend.SendService
use harbour_localsend.SendService.State.{Sender, cleared, clear_reply, close_current_file}
use harbour_localsend.SendService.Upload.{Reply, is_success}
use harbour_localsend.ReceiveService.Prepare.Taken.{prepare_upload-TakesRows}
use harbour_localsend.SendService.Upload.Marked.{reply-marks}
use harbour_localsend.ReceiveService.Machine.{prepares}
use harbour_localsend.SendService.Machine.{upload_replies}
use harbour_localsend.Application.{
  Application, receiver_of, sender_of, at_receiver, at_sender, step,
}

module _ (q : Platform) (receiving : ReceiveService.State.Env)
    (sending : SendService.State.Env) where
  -- While a file goes out, a request that the receiving service takes up and puts before the user
  -- makes its own files the rows; the next upload that succeeds then marks as done the file of the
  -- request that stands at the number of the file that went out.
  pub overlap-marks :
      (r : PrepareRequest) (reply : Reply) (id now later row : ℕ) (a : Application) (f : FileEntry)
      → a.settings.quick_save ≡ false
      → is_busy (receiver_of a) ≡ false
      → is_busy (prepare_upload q receiving r now (receiver_of a)) ≡ true
      → a.sender.cancelled ≡ false
      → a.sender.current_row ≡ some row
      → is_success q sending reply ≡ true
      → get_elem? (read_entries q receiving r.files) row ≡ some f
      → get_elem?
          (step q receiving sending later
            (at_sender (upload_replies id reply))
            (step q receiving sending now (at_receiver (prepares r)) a)).transfer.files
          row
        ≡ some (with_status file_done [] f)
  overlap-marks r reply id now later row a f asks free busy runs at_row success there =
      reply-marks q sending id row reply later
        (sender_of (step q receiving sending now (at_receiver (prepares r)) a)) f success runs
        at_row
        (ap (λ fs. get_elem? fs row)
            (prepare_upload-TakesRows q receiving r now (receiver_of a) asks free busy)
          ∙ there)
