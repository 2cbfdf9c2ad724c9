-- ===== src/ReceiveService/Upload/Kept.antt =====
-- src/receiveservice.cpp, handleUploadFinished: which files are kept, and what is in them.
use harbour_localsend.Common.{
  ℕ, zero, suc, ◌≡◌, ◌≤◌, ◌<◌, ◌↔◌, ◌⊎◌, refl, ap, ◌∙◌, arith, Bool, true, false, not, ◌&&◌, List,
  [], ◌∷◌, none, length, ltb, modify, Text, codes, text_eq_iff, find, remove, find-insert,
  find-remove, Bool-cases, inl, inr,
}
use harbour_localsend.Platform.{Platform}
use harbour_localsend.Crypto.{equals_fold}
use harbour_localsend.TransferModel.{
  TransferModel, FileEntry, FileStatus, file_done, file_failed, set_file_status,
  set_file_local_path, with_status, is_done,
}
use harbour_localsend.TransferModel.Files.{set_file_status-files, set_file_local_path-files}
use harbour_localsend.ReceiveService.State.{
  Service, Upload, Env, answer, respond, entry_at, exists_on,
}
use harbour_localsend.ReceiveService.Upload.{
  discard, keep_file, settle_upload, value_or_empty, looks_like_sha256, digest_matches, size_on,
}

pub entry_at-modify :
    (g : FileEntry → FileEntry) (fs : List FileEntry) (row : ℕ)
    → row < length fs
    → entry_at (modify fs row g) row ≡ g (entry_at fs row)
entry_at-modify g [] row h = absurd (omega arith)
entry_at-modify g (f ∷ fs) zero h = refl
entry_at-modify g (f ∷ fs) (suc row) h = entry_at-modify g fs row (omega arith)

length-modify_lt :
    (g : FileEntry → FileEntry) (fs : List FileEntry) (row : ℕ)
    → row < length fs
    → row < length (modify fs row g)
length-modify_lt g [] row h = absurd (omega arith)
length-modify_lt g (f ∷ fs) zero h = omega arith
length-modify_lt g (f ∷ fs) (suc row) h = omega (arith, length-modify_lt g fs row (omega arith))

pub entry_at-set_file_status :
    (row : ℕ) (status : FileStatus) (error : Text) (now : ℕ) (m : TransferModel)
    → row < length m.files
    → entry_at (set_file_status row status error now m).files row
      ≡ with_status status error (entry_at m.files row)
entry_at-set_file_status row status error now m h =
    rw (set_file_status-files row status error now m)
      (entry_at-modify (with_status status error) m.files row h)

-- A row that was given a path and then set to done.
entry_at_kept :
    (row : ℕ) (path : Text) (now : ℕ) (m : TransferModel)
    → row < length m.files
    → entry_at (set_file_status row file_done [] now (set_file_local_path row path m)).files row
      ≡ with_status file_done [] (record (entry_at m.files row) { local_path = path })
entry_at_kept row path now m h =
    entry_at-set_file_status row file_done [] now (set_file_local_path row path m)
      (rw (set_file_local_path-files row path m) (length-modify_lt _ m.files row h))
    ∙ ap (with_status file_done []) placed
  where
    placed :
        entry_at (set_file_local_path row path m).files row
        ≡ record (entry_at m.files row) { local_path = path }
    placed = rw (set_file_local_path-files row path m) (entry_at-modify _ m.files row h)

-- The bytes that stand under a path.
abbrev pub content : Service → Text → Text
content s path = value_or_empty (find path s.disk)

abbrev pub entry_of : Service → Upload → FileEntry
entry_of s u = entry_at s.transfer.files u.row

respond-same :
    (conn status : ℕ) (s : Service)
    → ((respond conn status s).transfer ≡ s.transfer) × ((respond conn status s).disk ≡ s.disk)
unfolding answer
respond-same conn status s = ground arith

-- The bytes are all there, and have the digest that was declared, where one was.
abbrev pub IsIntact : Platform → Service → Upload → Type 0
IsIntact q s u =
    ((entry_of s u).size ≤ length (content s u.part_path))
    × ((looks_like_sha256 (entry_of s u).sha256 ≡ false)
        ⊎ (equals_fold q (q.sha256_hex (content s u.part_path)) (entry_of s u).sha256 ≡ true))

module _ (q : Platform) (e : Env) where
  abbrev is_intact : Service → Upload → Bool
  is_intact s u =
      not (ltb (size_on s.disk u.part_path) (entry_of s u).size)
      && digest_matches q e (entry_of s u).sha256 (content s u.part_path)

  is_intact_iff : (s : Service) (u : Upload) → (is_intact s u ≡ true) ↔ IsIntact q s u
  is_intact_iff s u = ground arith

  discard-entry :
      (conn status now : ℕ) (u : Upload) (reason : Text) (s : Service)
      → u.row < length s.transfer.files
      → (is_done (entry_of (discard q e conn u reason status now s) u).status ≡ false)
        × (find u.part_path (discard q e conn u reason status now s).disk ≡ none)
  unfolding discard
  discard-entry conn status now u reason s h =
      let stopped = record s {
        disk = remove u.part_path s.disk;
        transfer = set_file_status u.row file_failed reason now s.transfer;
      } in
      let (transfer, disk) = respond-same conn status stopped in
      rw (transfer, disk, entry_at-set_file_status u.row file_failed reason now s.transfer h)
        (refl, gone)
    where
      gone : find u.part_path (remove u.part_path s.disk) ≡ none
      gone =
          ground
            (arith, find-remove u.part_path u.part_path s.disk, text_eq_iff u.part_path u.part_path)

  keep_file-entry :
      (now : ℕ) (u : Upload) (s : Service)
      → u.row < length s.transfer.files
      → (is_done (entry_of (keep_file q e u now s) u).status ≡ true)
        × (content (keep_file q e u now s) (entry_of (keep_file q e u now s) u).local_path
            ≡ content s u.part_path)
  unfolding keep_file
  keep_file-entry now u s h =
      elim (Bool-cases (e.can_rename u.part_path && not (exists_on s.disk u.final_path))) [
        | inl renamed ↦
            rw (renamed, entry_at_kept u.row u.final_path now s.transfer h)
              (
                refl,
                ground (
                  arith,
                  find-insert u.final_path u.final_path (content s u.part_path)
                      (remove u.part_path s.disk),
                  text_eq_iff u.final_path u.final_path,
                ),
              )
        | inr stays ↦ rw (stays, entry_at_kept u.row u.part_path now s.transfer h) (refl, refl)
      ]

  settle_upload_lem :
      (conn now : ℕ) (u : Upload) (s : Service)
      → u.row < length s.transfer.files
      → (is_done (entry_of (settle_upload q e conn u now s) u).status ≡ is_intact s u)
        × ((is_intact s u ≡ false)
            ⊎ (content
                  (settle_upload q e conn u now s)
                  (entry_of (settle_upload q e conn u now s) u).local_path
                ≡ content s u.part_path))
        × ((is_intact s u ≡ true) ⊎ (find u.part_path (settle_upload q e conn u now s).disk ≡ none))
  unfolding settle_upload
  settle_upload_lem conn now u s h =
      elim (Bool-cases (ltb (size_on s.disk u.part_path) (entry_of s u).size)) [
        | inl short ↦
            let (failed, gone) =
              discard-entry conn 500 now u (codes "Transfer was cut short") s h in
            rw short (failed, inl refl, inr gone)
        | inr full ↦
            elim (Bool-cases (digest_matches q e (entry_of s u).sha256 (content s u.part_path))) [
              | inl same ↦
                  let (done, kept) = keep_file-entry now u s h in
                  let (transfer, disk) = respond-same conn 200 (keep_file q e u now s) in
                  rw (full, same, transfer, disk) (done, inr kept, inl refl)
              | inr other ↦
                  let (failed, gone) =
                    discard-entry conn 422 now u (codes "The file arrived damaged") s h in
                  rw (full, other) (failed, inl refl, inr gone)
            ]
      ]

  -- When its body has ended, a file of the model counts as received exactly if all the bytes that were announced
  -- are there and their digest is the declared one, where one was declared.
  pub settle_upload-IsIntact :
      (conn now : ℕ) (u : Upload) (s : Service)
      → u.row < length s.transfer.files
      → (is_done (entry_of (settle_upload q e conn u now s) u).status ≡ true) ↔ IsIntact q s u
  settle_upload-IsIntact conn now u s h =
      rw (settle_upload_lem conn now u s h).0 (is_intact_iff s u)

  -- What a file that counts as received holds, under the path that the model gives for it, is what
  -- was written to its part file.
  pub settle_upload-content :
      (conn now : ℕ) (u : Upload) (s : Service)
      → u.row < length s.transfer.files
      → is_done (entry_of (settle_upload q e conn u now s) u).status ≡ true
      → content
          (settle_upload q e conn u now s)
          (entry_of (settle_upload q e conn u now s) u).local_path
        ≡ content s u.part_path
  settle_upload-content conn now u s h done =
      let (status, kept, gone) = settle_upload_lem conn now u s h in ground (arith, status, kept)

  -- Nothing is left under the part file's path of a file whose body has ended and that does not count
  -- as received.
  pub settle_upload_removed :
      (conn now : ℕ) (u : Upload) (s : Service)
      → u.row < length s.transfer.files
      → is_done (entry_of (settle_upload q e conn u now s) u).status ≡ false
      → find u.part_path (settle_upload q e conn u now s).disk ≡ none
  settle_upload_removed conn now u s h failed =
      let (status, kept, gone) = settle_upload_lem conn now u s h in ground (arith, status, gone)
