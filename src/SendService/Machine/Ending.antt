-- ===== src/SendService/Machine/Ending.antt =====
-- src/sendservice.cpp: a transfer comes to its end.
use harbour_localsend.Common.{
  ℕ, ◌≡◌, ◌≤◌, length-append, sym, ap, inl, inr, arith, false, List, [], ◌∷◌, Option, none, some,
  length, subst,
}
use harbour_localsend.Platform.{Platform}
use harbour_localsend.SendService.State.{Sender, Env}
use harbour_localsend.SendService.Upload.{Reply, on_upload_finished}
use harbour_localsend.SendService.Machine.Modes.{resting, uploading, IsIn}
use harbour_localsend.SendService.Machine.Uploads.{IsUnder, on_upload_finished-IsUnder}

module _ (q : Platform) (e : Env) where
  -- The replies to the uploads, one after the other, each as the one that is awaited.
  abbrev pub answer_next : Option ℕ → Reply → ℕ → Sender → Sender
  answer_next none r now s = s
  answer_next (some id) r now s = on_upload_finished q e id r now s

  abbrev pub answer_all : List Reply → ℕ → Sender → Sender
  answer_all [] now s = s
  answer_all (r ∷ rs) now s = answer_all rs now (answer_next s.reply r now s)

  rests_on :
      (rs : List Reply) (now : ℕ) (s : Sender) → IsIn resting s → (answer_all rs now s).busy ≡ false
  rests_on [] now s k = k.0
  rests_on (r ∷ rs) now s k =
      subst (λ o. (answer_all rs now (answer_next o r now s)).busy ≡ false) (sym k.1)
        (rests_on rs now s k)

  under_rests :
      (rs : List Reply) (n now : ℕ) (s : Sender)
      → n ≤ length rs
      → IsUnder n s
      → (answer_all rs now s).busy ≡ false
  under_rests rs n now s h (inl k) = rests_on rs now s k
  under_rests [] n now s h (inr (k, less, awaited)) = absurd (omega (arith, less, h))
  under_rests (r ∷ rs) n now s h (inr (k, less, (id, reply))) =
      subst (λ o. (answer_all rs now (answer_next o r now s)).busy ≡ false) (sym reply)
        (under_rests rs (length k.3.after) now (on_upload_finished q e id r now s)
          (omega (arith, less, h)) (on_upload_finished-IsUnder q e id r now s k reply))

  -- While files go out, whatever the peer answers, the transfer is over after as many replies to
  -- uploads as there are files.
  pub uploads_end :
      (rs : List Reply) (now : ℕ) (s : Sender) (id : ℕ)
      → IsIn uploading s
      → s.reply ≡ some id
      → length s.transfer.files ≤ length rs
      → (answer_all rs now s).busy ≡ false
  uploads_end rs now s id k reply h = under_rests rs (length s.transfer.files) now s h (
      inr (
        k,
        omega (arith, ap length k.3.split, length-append k.3.before (k.3.file ∷ k.3.after)),
        (id, reply),
      ))
