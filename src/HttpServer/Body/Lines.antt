-- ===== src/HttpServer/Body/Lines.antt =====
-- src/httpserver.cpp: the line breaks between the parts of a chunked body.
use harbour_localsend.Common.{
  ℕ, suc, ◌+◌, ◌≤◌, ◌≡◌, refl, sym, ap, ◌∙◌, arith, Bool, true, false, List, [], ◌∷◌, ◌++◌, Option,
  none, some, length, take, drop, if◌then◌else◌, Text, append_assoc, length-append,
}
use mathlib.Core.Option.{some-injective}
use harbour_localsend.HttpServer.Wire.{index_of, crlf, starts_with, next}

starts_with-append : (p t r : Text) → length p ≤ length t → starts_with p (t ++ r) ≡ starts_with p t
starts_with-append [] t r h = refl
starts_with-append (a ∷ p) [] r h = absurd (omega arith)
starts_with-append (a ∷ p) (b ∷ t) r h = ground (arith, starts_with-append p t r)

pub take-append : {A : Type 0} (s t : List A) → take (length s) (s ++ t) ≡ s
take-append [] t = refl
take-append (c ∷ s) t = ap (◌∷◌ c) (take-append s t)

pub drop-append : {A : Type 0} (s t : List A) → drop (length s) (s ++ t) ≡ t
drop-append [] t = refl
drop-append (c ∷ s) t = drop-append s t

-- Behind a line and its line break.
pub drop_line : (t r : Text) → drop (length t + 2) (t ++ (crlf ++ r)) ≡ r
drop_line [] r = refl
drop_line (c ∷ t) r =
    let further : suc (length t) + 2 ≡ suc (length t + 2) = omega arith in
    rw further (drop_line t r)

pub if_false {ℓ} : {A : Type ℓ} (b : Bool) (x y : A) → b ≡ false → (if b then x else y) ≡ y
if_false b x y e = rw e refl

-- A line without a line break of its own.
abbrev pub IsLine : Text → Type 0
IsLine t = index_of crlf (t ++ crlf) ≡ some (length t)

next-some : (o : Option ℕ) (n : ℕ) → next o ≡ some (suc n) → o ≡ some n
next-some none n h = absurd (cc)
next-some (some i) n h = let same : suc i ≡ suc n = some-injective _ _ h in ap some (omega arith)

-- What is behind the first line does not matter.
pub index_of-IsLine : (t r : Text) → IsLine t → index_of crlf (t ++ (crlf ++ r)) ≡ some (length t)
unfolding index_of
index_of-IsLine [] r h = refl
index_of-IsLine (c ∷ t) r h = go (starts_with crlf ((c ∷ t) ++ crlf)) refl (index_of-IsLine t r) h
  where
    same : starts_with crlf ((c ∷ t) ++ (crlf ++ r)) ≡ starts_with crlf ((c ∷ t) ++ crlf)
    same =
        ap (starts_with crlf) (sym (append_assoc (c ∷ t) crlf r))
        ∙ starts_with-append crlf ((c ∷ t) ++ crlf) r (omega (arith, length-append t crlf))

    go :
        (b : Bool)
        → starts_with crlf ((c ∷ t) ++ crlf) ≡ b
        → (IsLine t → index_of crlf (t ++ (crlf ++ r)) ≡ some (length t))
        → (if b then some 0 else next (index_of crlf (t ++ crlf))) ≡ some (suc (length t))
        → (if starts_with crlf ((c ∷ t) ++ (crlf ++ r))
            then some 0
            else next (index_of crlf (t ++ (crlf ++ r))))
          ≡ some (suc (length t))
    go true e f k = absurd (cc)
    go false e f k = rw (same, e) (ap next (f (next-some _ (length t) k)))
