-- ===== src/ReceiveService/Upload.antt =====
-- src/receiveservice.cpp, the upload endpoint: handleUploadHeaders, handleUploadFinished,
-- onUploadClosed, and the body between them (streamBodyTo and deliver of src/httpserver.cpp, for a
-- connection that has a sink).
pub mod Authorized
pub mod Kept
pub mod Bytes
pub mod Arrival
use harbour_localsend.Common.{
  ℕ, ◌+◌, Bool, true, false, not, ◌&&◌, ◌||◌, List, [], ◌∷◌, ◌++◌, Option, none, some, length,
  is_empty, leb, ltb, ◌==◌, if◌then◌else◌, Text, codes, text_eq, insert, remove, find, ℤ, pos,
  negsuc,
}
use harbour_localsend.Platform.{Platform}
use harbour_localsend.Crypto.{equals, equals_fold}
use harbour_localsend.TransferModel.{
  TransferModel, file_transferring, file_done, file_failed, set_file_status, set_file_transferred,
  set_file_local_path, index_of_file, is_done, failed_count,
}
use harbour_localsend.ReceiveService.FileName.{reserve_file_path, part_suffix}
use harbour_localsend.ReceiveService.State.{
  Service, Upload, Env, respond, has_answered, find_upload, erase_upload, insert_upload, entry_at,
  exists_on,
}
use harbour_localsend.ReceiveService.Finish.{
  Ending, ended_failed, ended_finished, finish_session, is_settled,
}

-- The headers of an upload request. `content_length` is -1 for a chunked body.
pub record UploadRequest : Type 0 where
  pub conn : ℕ
  pub peer_address : Text
  pub session_id : Text
  pub file_id : Text
  pub token : Text
  pub content_length : ℤ

abbrev pub is_hex_digit : ℕ → Bool
is_hex_digit c = leb b'0' c && leb c b'9' || leb b'a' c && leb c b'f' || leb b'A' c && leb c b'F'

abbrev pub all_hex : Text → Bool
all_hex [] = true
all_hex (c ∷ t) = if is_hex_digit c then all_hex t else false

unfoldable pub looks_like_sha256 : Text → Bool
looks_like_sha256 digest = if not (length digest == 64) then false else all_hex digest

-- `QHash::value`: an empty text for a key that is not there.
abbrev pub value_or_empty : Option Text → Text
value_or_empty none = []
value_or_empty (some t) = t

-- Whether `streamBodyTo` refuses the declared length.
abbrev pub is_over : ℤ → ℕ → Bool
is_over (pos n) limit = ltb limit n
is_over (negsuc n) limit = false

-- QFile::size of an open file
abbrev pub size_on : List (Text × Text) → Text → ℕ
size_on disk path = length (value_or_empty (find path disk))

-- The tail of handleUploadHeaders, from the insertion in `m_uploads` on.
unfoldable pub start_upload : UploadRequest → ℕ → Text → ℕ → Service → Service
start_upload r row path now s =
    let limit = (entry_at s.transfer.files row).size in
    let upload : Upload = record {
      row = row;
      part_path = path ++ part_suffix;
      final_path = path;
      limit = limit;
      received = 0;
    } in
    let started : Service = record s {
      disk = insert (path ++ part_suffix) [] s.disk;
      uploads = insert_upload r.conn upload s.uploads;
      transfer = set_file_status row file_transferring [] now s.transfer;
      idle_running = true;
    } in
    if is_over r.content_length limit then respond r.conn 413 started else started

-- `setFileStatus` to failed, and the answer 500.
unfoldable pub refuse_file : ℕ → ℕ → Text → ℕ → Service → Service
refuse_file conn row reason now s =
    respond conn 500 (record s { transfer = set_file_status row file_failed reason now s.transfer })

abbrev pub set_upload : ℕ → Upload → Service → Service
set_upload conn u s = record s { uploads = insert_upload conn u s.uploads }

abbrev pub drop_upload : ℕ → Service → Service
drop_upload conn s = record s { uploads = erase_upload conn s.uploads }

-- A block that was written to the part file.
unfoldable pub append_block : ℕ → Text → Upload → Service → Service
append_block conn block u s =
    set_upload conn (record u { received = u.received + length block })
      (record s {
        disk = insert u.part_path (value_or_empty (find u.part_path s.disk) ++ block) s.disk;
        transfer = set_file_transferred u.row (pos (u.received + length block)) s.transfer;
        idle_running = true;
      })

-- HttpConnection::deliver on a body that has a sink.
abbrev pub deliver_to : ℕ → Text → Bool → Option Upload → Service → Service
deliver_to conn block writes none s = s
deliver_to conn block writes (some u) s =
    if is_empty block
    then s
    else if ltb u.limit (u.received + length block)
    then respond conn 413 s
    else if not writes
    then respond conn 500 s
    else append_block conn block u s

-- A block of the body; a connection that was answered reads and drops it. `writes` is whether the
-- disk takes the block.
unfoldable pub deliver : ℕ → Text → Bool → Service → Service
deliver conn block writes s =
    if has_answered conn s.answers
    then s
    else deliver_to conn block writes (find_upload conn s.uploads) s

module _ (q : Platform) (e : Env) where
  open q use {sha256_hex}

  abbrev pub open_upload : UploadRequest → ℕ → Option Text → ℕ → Service → Service
  open_upload r row none now s = refuse_file r.conn row (codes "No free name for this file") now s
  open_upload r row (some path) now s =
      if e.can_open (path ++ part_suffix)
      then start_upload r row path now s
      else refuse_file r.conn row (codes "Cannot write the file") now s

  unfoldable pub upload_row : UploadRequest → Option ℕ → ℕ → Service → Service
  upload_row r none now s = respond r.conn 400 s
  upload_row r (some row) now s =
      if is_done (entry_at s.transfer.files row).status
      then respond r.conn 200 s
      else open_upload r row
          (reserve_file_path q (exists_on s.disk) s.session_directory
            (entry_at s.transfer.files row).file_name)
          now s

  unfoldable pub handle_upload_headers : UploadRequest → ℕ → Service → Service
  handle_upload_headers r now s =
      if is_empty r.session_id || is_empty r.file_id || is_empty r.token
      then respond r.conn 400 s
      else if is_empty s.session_id || not (text_eq r.session_id s.session_id)
      then respond r.conn 409 s
      else if not (equals q (value_or_empty (find r.file_id s.tokens)) r.token)
          || not (text_eq r.peer_address s.session_address)
      then respond r.conn 403 s
      else upload_row r (index_of_file s.transfer r.file_id) now s

  -- The part file is removed, the row has failed and the connection is answered.
  unfoldable pub discard : ℕ → Upload → Text → ℕ → ℕ → Service → Service
  discard conn u reason status now s = respond conn status (record s {
    disk = remove u.part_path s.disk;
    transfer = set_file_status u.row file_failed reason now s.transfer;
  })

  -- `QFile::rename`, which refuses a name that is taken; the bytes stay under the part name if it
  -- fails.
  unfoldable pub keep_file : Upload → ℕ → Service → Service
  keep_file u now s =
      if e.can_rename u.part_path && not (exists_on s.disk u.final_path)
      then record s {
        disk =
            insert u.final_path (value_or_empty (find u.part_path s.disk))
              (remove u.part_path s.disk);
        transfer =
            set_file_status u.row file_done [] now
              (set_file_local_path u.row u.final_path s.transfer);
      }
      else record s {
        transfer =
            set_file_status u.row file_done [] now
              (set_file_local_path u.row u.part_path s.transfer);
      }

  abbrev pub digest_matches : Text → Text → Bool
  digest_matches declared content =
      if looks_like_sha256 declared then equals_fold q (sha256_hex content) declared else true

  -- What becomes of a file whose body has ended.
  unfoldable pub settle_upload : ℕ → Upload → ℕ → Service → Service
  settle_upload conn u now s =
      let entry = entry_at s.transfer.files u.row in
      if ltb (size_on s.disk u.part_path) entry.size
      then discard conn u (codes "Transfer was cut short") 500 now s
      else if not (digest_matches entry.sha256 (value_or_empty (find u.part_path s.disk)))
      then discard conn u (codes "The file arrived damaged") 422 now s
      else respond conn 200 (keep_file u now s)

  unfoldable pub finish_if_settled : Ending → ℕ → Service → Service
  finish_if_settled ending now s =
      if is_settled s.transfer then finish_session q ending now s else s

  abbrev pub ending_of : TransferModel → Ending
  ending_of m = if ltb 0 (failed_count m) then ended_failed else ended_finished

  abbrev pub finish_upload : ℕ → Option Upload → ℕ → Service → Service
  finish_upload conn none now s = respond conn 400 s
  finish_upload conn (some u) now s =
      let settled = settle_upload conn u now (drop_upload conn s) in
      finish_if_settled (ending_of settled.transfer) now (record settled { idle_running = true })

  unfoldable pub handle_upload_finished : ℕ → ℕ → Service → Service
  handle_upload_finished conn now s = finish_upload conn (find_upload conn s.uploads) now s

  abbrev pub close_upload : ℕ → Option Upload → ℕ → Service → Service
  close_upload conn none now s = s
  close_upload conn (some u) now s =
      let dropped = drop_upload conn s in
      finish_if_settled ended_failed now (record dropped {
        disk = remove u.part_path s.disk;
        transfer =
            set_file_status u.row file_failed (codes "The sender disconnected") now s.transfer;
      })

  unfoldable pub on_upload_closed : ℕ → ℕ → Service → Service
  on_upload_closed conn now s = close_upload conn (find_upload conn s.uploads) now s
