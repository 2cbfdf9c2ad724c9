-- ===== src/SendService/Prepare/Asked.antt =====
-- src/sendservice.cpp, sendFiles: what a transfer that has begun starts from.
use harbour_localsend.Common.{
  ℕ, suc, ◌≡◌, refl, sym, subst, true, false, ◌||◌, List, [], ◌∷◌, ◌++◌, some, length, is_empty,
  All, Bool-cases, inl, inr, Text,
}
use harbour_localsend.Platform.{Platform}
use harbour_localsend.DeviceInfo.{DeviceInfo}
use harbour_localsend.TransferModel.{FileEntry, begin, requesting}
use harbour_localsend.TransferModel.Files.{set_state-files}
use harbour_localsend.SendService.State.{Sender, Env}
use harbour_localsend.SendService.Prepare.{
  Device, peer_of, read_entries, local_path_of, begin_sending, send_entries, send_files, hides,
  request_upload,
}
use harbour_localsend.SendService.Machine.Ends.{either}
use harbour_localsend.SendService.Upload.Granted.{IsNamed}

-- If it is busy, the service awaits the reply to request number `n`, and every file has an id.
abbrev pub IsStarted : ℕ → Sender → Type 0
IsStarted n s =
    s.busy ≡ true → (s.cancelled ≡ false) × (s.reply ≡ some n) × All IsNamed s.transfer.files

not_empty : (s t : Text) (c : ℕ) → is_empty (s ++ c ∷ t) ≡ false
not_empty [] t c = refl
not_empty (a ∷ s) t c = refl

module _ (q : Platform) (e : Env) where
  read_entries-IsNamed : (i n : ℕ) (paths : List Text) → All IsNamed (read_entries q e i n paths)
  unfolding read_entries
  read_entries-IsNamed i n [] = tt
  read_entries-IsNamed i n (p ∷ paths) = elim (Bool-cases (e.is_readable (local_path_of q e p))) [
    | inl there ↦
        rw (there, All) (not_empty (q.number i) _ _, read_entries-IsNamed (suc i) (suc n) paths)
    | inr missing ↦ rw (missing, All) (read_entries-IsNamed (suc i) n paths)
  ]

  send_entries-IsStarted :
      (peer : DeviceInfo) (fs : List FileEntry) (now : ℕ) (s : Sender)
      → s.busy ≡ false
      → All IsNamed fs
      → IsStarted (length s.requests) (send_entries q e peer fs now s)
  unfolding request_upload begin
  send_entries-IsStarted peer [] now s free names = λ busy. absurd (cc (free, busy))
  send_entries-IsStarted peer (f ∷ fs) now s free names = λ busy. (
    refl,
    refl,
    subst (All IsNamed)
        (sym (set_state-files requesting [] now (begin_sending q e peer (f ∷ fs) now s.transfer)))
        names,
  )

  pub send_files-IsStarted :
      (d : Device) (paths : List Text) (now : ℕ) (s : Sender)
      → s.busy ≡ false
      → IsStarted (length s.requests) (send_files q e d paths now s)
  unfolding send_files
  send_files-IsStarted d paths now s free =
      let P = IsStarted (length s.requests) in
      let idle : P s = λ busy. absurd (cc (free, busy)) in
      either P s.busy _ _ idle (
        either P (is_empty (peer_of d).address || is_empty paths) _ _ idle (
          either P (hides q e s.known (peer_of d).fingerprint) _ _
            (λ busy. absurd (cc (free, busy)))
            (send_entries-IsStarted (peer_of d) (read_entries q e 0 s.drawn paths) now s free
              (read_entries-IsNamed 0 s.drawn paths))))
