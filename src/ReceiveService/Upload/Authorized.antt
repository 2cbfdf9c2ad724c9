-- ===== src/ReceiveService/Upload/Authorized.antt =====
-- src/receiveservice.cpp, handleUploadHeaders: whose bytes are written, and where to.
use harbour_localsend.Common.{
  ℕ, ◌≡◌, refl, sym, ◌∙◌, [], ◌∷◌, arith, true, false, ◌++◌, Option, none, some, is_empty, Text,
  codes, text_eq_iff, find, Bool-cases, inl, inr, subst,
}
use mathlib.Core.Option.{some-injective}
use harbour_localsend.Platform.{Platform}
use harbour_localsend.Crypto.{equals, equals_bytes_iff}
use harbour_localsend.TransferModel.{index_of_file, is_done}
use harbour_localsend.ReceiveService.FileName.{reserve_file_path, part_suffix}
use harbour_localsend.ReceiveService.FileName.Reserve.{
  IsInside, reserve_file_path-IsInside, reserve_file_path-is_free,
}
use harbour_localsend.ReceiveService.State.{
  Service, Upload, Env, answer, respond, find_upload, entry_at, exists_on,
}
use harbour_localsend.ReceiveService.Upload.{
  UploadRequest, start_upload, refuse_file, open_upload, upload_row, handle_upload_headers,
  value_or_empty,
}

respond-uploads : (conn status : ℕ) (s : Service) → (respond conn status s).uploads ≡ s.uploads
unfolding answer
respond-uploads conn status s = ground arith

-- What holds of a request whose body is written to the upload `u`.
pub record IsAuthorized (q : Platform) (r : UploadRequest) (s : Service) (u : Upload) : Type 0 where
  pub session : r.session_id ≡ s.session_id
  pub running : is_empty s.session_id ≡ false
  pub address : r.peer_address ≡ s.session_address
  pub token :
      (t : Text) × (find r.file_id s.tokens ≡ some t)
      × (is_empty t ≡ false)
      × (q.to_utf8 t ≡ q.to_utf8 r.token)
  pub row : index_of_file s.transfer r.file_id ≡ some u.row
  pub new : is_done (entry_at s.transfer.files u.row).status ≡ false
  pub limit : u.limit ≡ (entry_at s.transfer.files u.row).size
  pub inside : IsInside q (exists_on s.disk) s.session_directory u.final_path
  pub part : u.part_path ≡ u.final_path ++ part_suffix
  pub free : (exists_on s.disk u.final_path ≡ false) × (exists_on s.disk u.part_path ≡ false)

-- What is known of an upload that a row was opened for.
record IsOpened (q : Platform) (s : Service) (at : ℕ) (u : Upload) : Type 0 where
  row : u.row ≡ at
  limit : u.limit ≡ (entry_at s.transfer.files at).size
  path :
      reserve_file_path q
        (exists_on s.disk)
        s.session_directory
        (entry_at s.transfer.files at).file_name
      ≡ some u.final_path
  part : u.part_path ≡ u.final_path ++ part_suffix

abbrev opened_upload : ℕ → Text → ℕ → Upload
opened_upload row path limit = record {
  row = row;
  part_path = path ++ part_suffix;
  final_path = path;
  limit = limit;
  received = 0;
}

module _ (q : Platform) (e : Env) where
  start_upload-uploads :
      (r : UploadRequest) (row now : ℕ) (path : Text) (s : Service)
      → find_upload r.conn (start_upload r row path now s).uploads
        ≡ some (opened_upload row path (entry_at s.transfer.files row).size)
  unfolding start_upload answer
  start_upload-uploads r row now path s = ground arith

  refuse_file-uploads :
      (conn row now : ℕ) (reason : Text) (s : Service)
      → (refuse_file conn row reason now s).uploads ≡ s.uploads
  unfolding refuse_file
  refuse_file-uploads conn row now reason s = respond-uploads conn 500 _

  open_upload-IsOpened :
      (r : UploadRequest) (row now : ℕ) (found : Option Text) (s : Service) (u : Upload)
      → reserve_file_path q
          (exists_on s.disk)
          s.session_directory
          (entry_at s.transfer.files row).file_name
        ≡ found
      → find_upload r.conn s.uploads ≡ none
      → find_upload r.conn (open_upload q e r row found now s).uploads ≡ some u
      → IsOpened q s row u
  open_upload-IsOpened r row now none s u p before after = absurd (
      none_or_some (
        rw (refuse_file-uploads r.conn row now (codes "No free name for this file") s, before) at
          after))
    where
      none_or_some : none ≡ some u → ⊥
      none_or_some h = cc
  open_upload-IsOpened r row now (some path) s u p before after =
      elim (Bool-cases (e.can_open (path ++ part_suffix))) [
        | inl opens ↦ opened (rw (opens, start_upload-uploads r row now path s) at after)
        | inr fails ↦ absurd (
            none_or_some (
              rw
                (
                  fails,
                  refuse_file-uploads r.conn row now (codes "Cannot write the file") s,
                  before,
                )
                at after))
      ]
    where
      none_or_some : none ≡ some u → ⊥
      none_or_some h = cc

      opened :
          some (opened_upload row path (entry_at s.transfer.files row).size) ≡ some u
          → IsOpened q s row u
      opened h =
          subst (IsOpened q s row) (some-injective _ _ h)
            (record { row = refl; limit = refl; path = p; part = refl })

  upload_row-IsOpened :
      (r : UploadRequest) (found : Option ℕ) (now : ℕ) (s : Service) (u : Upload)
      → find_upload r.conn s.uploads ≡ none
      → find_upload r.conn (upload_row q e r found now s).uploads ≡ some u
      → (row : ℕ) × (found ≡ some row)
        × (is_done (entry_at s.transfer.files row).status ≡ false)
        × IsOpened q s row u
  unfolding upload_row
  upload_row-IsOpened r none now s u before after = ground (arith, respond-uploads r.conn 400 s)
  upload_row-IsOpened r (some row) now s u before after =
      elim (Bool-cases (is_done (entry_at s.transfer.files row).status)) [
        | inl done ↦ ground (arith, respond-uploads r.conn 200 s)
        | inr fresh ↦
            (row, refl, fresh, open_upload-IsOpened r row now _ s u refl before (rw fresh at after))
      ]

  handle_upload_headers-guards :
      (r : UploadRequest) (now : ℕ) (s : Service) (u : Upload)
      → find_upload r.conn s.uploads ≡ none
      → find_upload r.conn (handle_upload_headers q e r now s).uploads ≡ some u
      → (is_empty s.session_id ≡ false)
        × (r.session_id ≡ s.session_id)
        × (r.peer_address ≡ s.session_address)
        × (is_empty r.token ≡ false)
        × (equals q (value_or_empty (find r.file_id s.tokens)) r.token ≡ true)
        × (find_upload r.conn (upload_row q e r (index_of_file s.transfer r.file_id) now s).uploads
            ≡ some u)
  unfolding handle_upload_headers
  handle_upload_headers-guards r now s u before after = ground (
    arith,
    respond-uploads r.conn 400 s,
    respond-uploads r.conn 409 s,
    respond-uploads r.conn 403 s,
    text_eq_iff r.session_id s.session_id,
    text_eq_iff r.peer_address s.session_address,
  )

  -- A token that equals one that is not empty was issued, and is not empty.
  issued :
      (o : Option Text) (token : Text)
      → is_empty token ≡ false
      → q.to_utf8 (value_or_empty o) ≡ q.to_utf8 token
      → (t : Text) × (o ≡ some t) × (is_empty t ≡ false) × (q.to_utf8 t ≡ q.to_utf8 token)
  issued none token given same =
      absurd (full ((q.to_utf8_empty token).0 (sym same ∙ (q.to_utf8_empty []).1 refl)))
    where
      full : token ≡ [] → ⊥
      full e = cc
  issued (some []) token given same =
      absurd (full ((q.to_utf8_empty token).0 (sym same ∙ (q.to_utf8_empty []).1 refl)))
    where
      full : token ≡ [] → ⊥
      full e = cc
  issued (some (c ∷ t)) token given same = (c ∷ t, refl, refl, same)

  -- A connection that held no upload holds one after its headers were read only if they named the
  -- running session, its sender's address and the token, not empty and the same in UTF-8, that was
  -- issued for a file that is not yet done. Its bytes then go to a new file, up to the size that was
  -- announced, whose path is the session's directory, a slash and a name that has no slash and is
  -- neither empty nor "." nor "..".
  pub handle_upload_headers-IsAuthorized :
      (r : UploadRequest) (now : ℕ) (s : Service) (u : Upload)
      → find_upload r.conn s.uploads ≡ none
      → find_upload r.conn (handle_upload_headers q e r now s).uploads ≡ some u
      → IsAuthorized q r s u
  unfolding equals
  handle_upload_headers-IsAuthorized r now s u before after =
      let (running, session, address, given, token, held) =
        handle_upload_headers-guards r now s u before after in
      let (row, found, new, opened) =
        upload_row-IsOpened r (index_of_file s.transfer r.file_id) now s u before held in
      let name = (entry_at s.transfer.files row).file_name in
      let free =
        reserve_file_path-is_free q (exists_on s.disk) s.session_directory name u.final_path
          opened.path in
      record {
        session = session;
        running = running;
        address = address;
        token = issued (find r.file_id s.tokens) r.token given ((equals_bytes_iff q _ _).0 token);
        row = rw opened.row found;
        new = rw opened.row new;
        limit = ground (arith, opened.row, opened.limit);
        inside =
            reserve_file_path-IsInside q (exists_on s.disk) s.session_directory name u.final_path
              opened.path;
        part = opened.part;
        free = (free.0, rw opened.part free.1);
      }
