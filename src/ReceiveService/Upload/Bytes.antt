-- ===== src/ReceiveService/Upload/Bytes.antt =====
-- src/receiveservice.cpp and src/httpserver.cpp, the body of an upload: how many bytes are written,
-- and which.
use harbour_localsend.Common.{
  ℕ, ◌+◌, ◌≡◌, ◌≤◌, ◌⊎◌, refl, sym, ap, ◌∙◌, arith, Bool, true, false, List, [], ◌∷◌, ◌++◌,
  append_assoc, append-nil, some, length, is_empty, ltb, ==_iff, if◌then◌else◌, Text, text_eq_iff,
  find-insert, Bool-cases, inl, inr, subst, All,
}
use harbour_localsend.ReceiveService.State.{
  Service, Upload, answer, respond, has_answered, find_upload, insert_upload,
}
use harbour_localsend.ReceiveService.Upload.{append_block, deliver}
use harbour_localsend.ReceiveService.Upload.Kept.{content}

-- The connection holds the upload, within its limit, and the part file holds what was counted.
pub record IsTracked (s : Service) (conn : ℕ) (u : Upload) : Type 0 where
  pub held : find_upload conn s.uploads ≡ some u
  pub within : u.received ≤ u.limit
  pub written : length (content s u.part_path) ≡ u.received

-- The blocks of a body in their order, each with whether the disk takes it.
unfoldable pub receive : ℕ → List (Text × Bool) → Service → Service
receive conn [] s = s
receive conn ((block, writes) ∷ blocks) s = receive conn blocks (deliver conn block writes s)

pub find-insert_upload :
    (conn : ℕ) (u : Upload) (us : List (ℕ × Upload))
    → find_upload conn (insert_upload conn u us) ≡ some u
find-insert_upload conn u us = ground (arith, ==_iff conn conn)

content-append_block :
    (conn : ℕ) (block : Text) (u : Upload) (s : Service)
    → content (append_block conn block u s) u.part_path ≡ content s u.part_path ++ block
unfolding append_block
content-append_block conn block u s = ground (
  arith,
  find-insert u.part_path u.part_path (content s u.part_path ++ block) s.disk,
  text_eq_iff u.part_path u.part_path,
)

length-append : (s t : Text) → length (s ++ t) ≡ length s + length t
length-append [] t = omega arith
length-append (c ∷ s) t = omega (arith, length-append s t)

append_block-IsTracked :
    (conn : ℕ) (block : Text) (u : Upload) (s : Service)
    → IsTracked s conn u
    → u.received + length block ≤ u.limit
    → IsTracked
        (append_block conn block u s)
        conn
        (record u { received = u.received + length block })
unfolding append_block
append_block-IsTracked conn block u s v fits = record {
  held = find-insert_upload conn _ s.uploads;
  within = fits;
  written =
      ap length (content-append_block conn block u s)
      ∙ length-append (content s u.part_path) block
      ∙ ap (λ n. n + length block) v.written;
}

respond-kept :
    (conn status : ℕ) (s : Service)
    → ((respond conn status s).uploads ≡ s.uploads) × ((respond conn status s).disk ≡ s.disk)
unfolding answer
respond-kept conn status s = ground arith

respond-IsTracked :
    (conn status c : ℕ) (u : Upload) (s : Service)
    → IsTracked s c u
    → IsTracked (respond conn status s) c u
respond-IsTracked conn status c u s v =
    let (uploads, disk) = respond-kept conn status s in
    record { held = rw uploads v.held; within = v.within; written = rw disk v.written }

-- What a block does to a connection that holds an upload.
deliver-cases :
    (conn : ℕ) (block : Text) (writes : Bool) (u : Upload) (s : Service)
    → find_upload conn s.uploads ≡ some u
    → (deliver conn block writes s ≡ s)
      ⊎ ((status : ℕ) × (deliver conn block writes s ≡ respond conn status s))
      ⊎ ((u.received + length block ≤ u.limit)
          × (deliver conn block writes s ≡ append_block conn block u s))
unfolding deliver
deliver-cases conn block writes u s held = elim (Bool-cases (has_answered conn s.answers)) [
  | inl told ↦ inl (rw told refl)
  | inr open_still ↦ elim (Bool-cases (is_empty block)) [
    | inl nothing ↦ inl (rw (open_still, held, nothing) refl)
    | inr bytes ↦ elim (Bool-cases (ltb u.limit (u.received + length block))) [
      | inl over ↦ inr (inl (413, rw (open_still, held, bytes, over) refl))
      | inr fits ↦ elim (Bool-cases writes) [
        | inl good ↦ inr (inr (ground arith, rw (open_still, held, bytes, fits, good) refl))
        | inr bad ↦ inr (inl (500, rw (open_still, held, bytes, fits, bad) refl))
      ]
    ]
  ]
]

deliver-IsTracked :
    (conn : ℕ) (block : Text) (writes : Bool) (u : Upload) (s : Service)
    → IsTracked s conn u
    → (w : Upload) × IsTracked (deliver conn block writes s) conn w
      × (w.limit ≡ u.limit)
      × (w.part_path ≡ u.part_path)
deliver-IsTracked conn block writes u s v = elim (deliver-cases conn block writes u s v.held) [
  | inl same ↦ (u, subst (λ t. IsTracked t conn u) (sym same) v, refl, refl)
  | inr (inl (status, refused)) ↦ (
    u,
    subst (λ t. IsTracked t conn u) (sym refused) (respond-IsTracked conn status conn u s v),
    refl,
    refl,
  )
  | inr (inr (fits, written)) ↦
      let w : Upload = record u { received = u.received + length block } in
      (
        w,
        subst (λ t. IsTracked t conn w) (sym written)
            (append_block-IsTracked conn block u s v fits),
        refl,
        refl,
      )
]

receive-IsTracked :
    (conn : ℕ) (blocks : List (Text × Bool)) (u : Upload) (s : Service)
    → IsTracked s conn u
    → (w : Upload) × IsTracked (receive conn blocks s) conn w
      × (w.limit ≡ u.limit)
      × (w.part_path ≡ u.part_path)
unfolding receive
receive-IsTracked conn [] u s v = (u, v, refl, refl)
receive-IsTracked conn ((block, writes) ∷ blocks) u s v =
    let (w, tracked, limit, path) = deliver-IsTracked conn block writes u s v in
    let (x, last, limit', path') =
      receive-IsTracked conn blocks w (deliver conn block writes s) tracked in
    (x, last, limit' ∙ limit, path' ∙ path)

-- For an upload within its limit, whose part file holds what was counted: however many bytes the
-- sender sends, and however they are cut into blocks, the part file never grows past the limit,
-- which is the size that was announced.
pub length-receive-le :
    (conn : ℕ) (blocks : List (Text × Bool)) (u : Upload) (s : Service)
    → IsTracked s conn u
    → length (content (receive conn blocks s) u.part_path) ≤ u.limit
length-receive-le conn blocks u s v =
    let (w, tracked, limit, path) = receive-IsTracked conn blocks u s v in
    subst (λ p. length (content (receive conn blocks s) p) ≤ u.limit) path
      (omega (arith, tracked.written, tracked.within, limit))

-- All the bytes of a body.
abbrev pub joined : List (Text × Bool) → Text
joined [] = []
joined ((block, writes) ∷ blocks) = block ++ joined blocks

deliver_written :
    (conn : ℕ) (block : Text) (u : Upload) (s : Service)
    → find_upload conn s.uploads ≡ some u
    → has_answered conn s.answers ≡ false
    → u.received + length block ≤ u.limit
    → deliver conn block true s ≡ (if is_empty block then s else append_block conn block u s)
unfolding deliver
deliver_written conn block u s held fresh fits = rw (fresh, held) (ground arith)

answers_kept :
    (conn : ℕ) (block : Text) (u : Upload) (s : Service)
    → has_answered conn s.answers ≡ false
    → has_answered conn (append_block conn block u s).answers ≡ false
unfolding append_block
answers_kept conn block u s h = h

-- A body within its limit arrives whole: if the disk takes every block, the part file then holds
-- what it held before and all the bytes behind it, in the order they were sent.
pub receive-joined :
    (conn : ℕ) (blocks : List (Text × Bool)) (u : Upload) (s : Service)
    → IsTracked s conn u
    → has_answered conn s.answers ≡ false
    → All (λ b. b.1 ≡ true) blocks
    → u.received + length (joined blocks) ≤ u.limit
    → content (receive conn blocks s) u.part_path ≡ content s u.part_path ++ joined blocks
unfolding receive
receive-joined conn [] u s v fresh good fits = sym (append-nil (content s u.part_path))
receive-joined conn ((block, false) ∷ blocks) u s v fresh good fits = absurd (bad good.0)
  where
    bad : false ≡ true → ⊥
    bad h = cc
receive-joined conn (([], true) ∷ blocks) u s v fresh good fits =
    let same : deliver conn [] true s ≡ s =
      deliver_written conn [] u s v.held fresh (omega (arith, v.within)) in
    subst
      (λ t. content (receive conn blocks t) u.part_path ≡ content s u.part_path ++ joined blocks)
      (sym same) (receive-joined conn blocks u s v fresh good.1 fits)
receive-joined conn ((c ∷ t, true) ∷ blocks) u s v fresh good fits =
    subst
      (λ x.
        content (receive conn blocks x) u.part_path
        ≡ content s u.part_path ++ (block ++ joined blocks))
      (sym (deliver_written conn block u s v.held fresh room))
      (receive-joined conn blocks (record u { received = u.received + length block })
          (append_block conn block u s) (append_block-IsTracked conn block u s v room)
          (answers_kept conn block u s fresh) good.1
          (omega (arith, fits, length-append block (joined blocks)))
        ∙ ap (λ x. x ++ joined blocks) (content-append_block conn block u s)
        ∙ append_assoc (content s u.part_path) block (joined blocks))
  where
    block : Text
    block = c ∷ t

    room : u.received + length block ≤ u.limit
    room = omega (arith, fits, length-append block (joined blocks))
