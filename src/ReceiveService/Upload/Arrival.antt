-- ===== src/ReceiveService/Upload/Arrival.antt =====
-- src/receiveservice.cpp, an upload from the moment that its file is opened.
use harbour_localsend.Common.{
  find, insert, ℕ, ◌≡◌, ◌≤◌, ap, ◌∙◌, arith, Bool, true, false, List, [], ◌++◌, some, length, Text,
  text_eq_iff, find-insert, All,
}
use harbour_localsend.ReceiveService.State.{
  entry_at, Service, Upload, has_answered, find_upload, insert_upload,
}
use harbour_localsend.ReceiveService.Upload.{UploadRequest, value_or_empty, is_over, start_upload}
use harbour_localsend.ReceiveService.FileName.{part_suffix}
use harbour_localsend.ReceiveService.Upload.Kept.{content}
use harbour_localsend.ReceiveService.Upload.Bytes.{
  IsTracked, receive, joined, find-insert_upload, receive-joined,
}

abbrev opened : ℕ → Text → Service → Upload
opened row path s = record {
  row = row;
  part_path = path ++ part_suffix;
  final_path = path;
  limit = (entry_at s.transfer.files row).size;
  received = 0;
}

-- An upload that was let in starts with nothing written and its connection unanswered.
start_upload-IsTracked :
    (r : UploadRequest) (row now : ℕ) (path : Text) (s : Service)
    → is_over r.content_length (entry_at s.transfer.files row).size ≡ false
    → has_answered r.conn s.answers ≡ false
    → IsTracked (start_upload r row path now s) r.conn (opened row path s)
      × (content (start_upload r row path now s) (path ++ part_suffix) ≡ [])
      × (has_answered r.conn (start_upload r row path now s).answers ≡ false)
unfolding start_upload
start_upload-IsTracked r row now path s fits fresh =
    rw fits (record { held = held; within = omega arith; written = ap length empty }, empty, fresh)
  where
    held :
        find_upload r.conn (insert_upload r.conn (opened row path s) s.uploads)
        ≡ some (opened row path s)
    held = find-insert_upload r.conn (opened row path s) s.uploads

    empty :
        value_or_empty (find (path ++ part_suffix) (insert (path ++ part_suffix) [] s.disk)) ≡ []
    empty = ground (
      arith,
      find-insert (path ++ part_suffix) (path ++ part_suffix) [] s.disk,
      text_eq_iff (path ++ part_suffix) (path ++ part_suffix),
    )

-- From the moment that a file is opened for an upload, a body whose declared length and whose bytes
-- are within the announced size arrives whole, however it is cut into blocks: if the disk takes
-- every block, the part file then holds exactly the bytes that were sent, in their order.
pub receive-start_upload :
    (r : UploadRequest) (row now : ℕ) (path : Text) (s : Service) (blocks : List (Text × Bool))
    → is_over r.content_length (entry_at s.transfer.files row).size ≡ false
    → has_answered r.conn s.answers ≡ false
    → All (λ b. b.1 ≡ true) blocks
    → length (joined blocks) ≤ (entry_at s.transfer.files row).size
    → content (receive r.conn blocks (start_upload r row path now s)) (path ++ part_suffix)
      ≡ joined blocks
receive-start_upload r row now path s blocks fits fresh good room =
    let (tracked, empty, unanswered) = start_upload-IsTracked r row now path s fits fresh in
    receive-joined r.conn blocks (opened row path s) (start_upload r row path now s) tracked
      unanswered good (omega (arith, room))
    ∙ ap (λ t. t ++ joined blocks) empty
