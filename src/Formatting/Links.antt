-- ===== src/Formatting/Links.antt =====
-- qml/components/Formatting.js, fileUrl: what a URL says of its path.
use harbour_localsend.Common.{
  ℕ, ◌/◌, ◌%◌, ◌<◌, ◌≡◌, refl, sym, ap, ap₂, ◌∙◌, arith, Bool, true, false, ◌||◌, List, [], ◌∷◌,
  ◌++◌, none, some, exists, is_empty, All, ◌==◌, ==_iff, Text, codes, Bool-cases, Option-cases,
  if◌then◌else◌, inl, inr,
}
use mathlib.Core.Option.{some-injective}
use harbour_localsend.Engine.Uri.{
  code_points, is_kept, utf8, hex_upper, percents, escape, escapes, encode_uri,
}
use harbour_localsend.Engine.Uri.Decode.{decode, decode_plain, decode-escapes, utf8_all, utf8-All}
use harbour_localsend.Engine.Uri.Points.{code_points-Points, Points-All, Points-exists}
use harbour_localsend.Formatting.{file_url}

-- The characters that start a fragment and a query.
abbrev pub is_mark : ℕ → Bool
is_mark c = c == b'#' || c == b'?'

exists-append :
    (mark : ℕ) (s t : Text)
    → exists (λ c. c == mark) (s ++ t) ≡ (exists (λ c. c == mark) s || exists (λ c. c == mark) t)
exists-append mark [] t = refl
exists-append mark (c ∷ s) t = ground (arith, exists-append mark s t)

hex_upper-ne : (mark n : ℕ) → is_mark mark ≡ true → n < 16 → (hex_upper n == mark) ≡ false
hex_upper-ne mark n h k = ground arith

exists-percents :
    (mark : ℕ) (bs : List ℕ)
    → is_mark mark ≡ true
    → All (λ b. b < 256) bs
    → exists (λ c. c == mark) (percents bs) ≡ false
unfolding percents
exists-percents mark [] h k = refl
exists-percents mark (b ∷ bs) h k = ground (
  arith,
  hex_upper-ne mark (b / 16) h (omega (arith, k.0)),
  hex_upper-ne mark (b % 16) h (omega arith),
  exists-percents mark bs h k.1,
)

kept_mark : (mark : ℕ) → is_mark mark ≡ true → is_kept mark ≡ true
kept_mark mark h = ground arith

not_kept-ne : (mark p : ℕ) → is_mark mark ≡ true → is_kept p ≡ false → (p == mark) ≡ false
not_kept-ne mark p h other = elim (Bool-cases (p == mark)) [
  | inl same ↦ absurd (both (sym (rw ((==_iff p mark).0 same) at other) ∙ kept_mark mark h))
  | inr ne ↦ ne
]
  where
    both : false ≡ true → ⊥
    both e = cc

exists-escape :
    (mark p : ℕ)
    → is_mark mark ≡ true
    → p < 0x110000
    → exists (λ c. c == mark) (escape p) ≡ (p == mark)
unfolding escape
exists-escape mark p h k = elim (Bool-cases (is_kept p)) [
  | inl kept ↦ rw kept (ground arith)
  | inr other ↦
      rw other (exists-percents mark (utf8 p) h (utf8-All p k) ∙ sym (not_kept-ne mark p h other))
]

exists-escapes :
    (mark : ℕ) (ps : List ℕ)
    → is_mark mark ≡ true
    → All (λ p. p < 0x110000) ps
    → exists (λ c. c == mark) (escapes ps) ≡ exists (λ p. p == mark) ps
unfolding escapes
exists-escapes mark [] h k = refl
exists-escapes mark (p ∷ ps) h k =
    exists-append mark (escape p) (escapes ps)
    ∙ rw (exists-escape mark p h k.0, exists-escapes mark ps h k.1) refl

-- The code points behind a URL.
record IsUrl (path url : Text) : Type 0 where
  points : List ℕ
  of_path : code_points path ≡ some points
  shape : url ≡ codes "file://" ++ escapes points

file_url-IsUrl :
    (path url : Text) → is_empty path ≡ false → file_url path ≡ some url → IsUrl path url
unfolding file_url encode_uri
file_url-IsUrl path url full e = elim (Option-cases (code_points path)) [
  | inl bad ↦ absurd (impossible (rw (full, bad) at e))
  | inr (ps, good) ↦ record {
    points = ps;
    of_path = good;
    shape = sym (some-injective _ _ (rw (full, good) at e));
  }
]
  where
    impossible : none ≡ some url → ⊥
    impossible h = cc

-- The URL of a file has a number sign, or a question mark, exactly if the path has one: where a name
-- has one, it starts a fragment or a query as it would in the path itself.
pub exists-file_url :
    (mark : ℕ) (path url : Text)
    → is_mark mark ≡ true
    → All (λ c. c < 0x10000) path
    → is_empty path ≡ false
    → file_url path ≡ some url
    → exists (λ c. c == mark) url ≡ exists (λ c. c == mark) path
exists-file_url mark path url h units full e =
    let v = file_url-IsUrl path url full e in
    let view = code_points-Points path v.points v.of_path in
    rw v.shape (
      exists-append mark (codes "file://") (escapes v.points)
      ∙ ap₂ ◌||◌ (no_mark mark h) (
          exists-escapes mark v.points h (Points-All view units)
          ∙ Points-exists mark (small mark h) view))
  where
    no_mark : (m : ℕ) → is_mark m ≡ true → exists (λ c. c == m) (codes "file://") ≡ false
    no_mark m k = ground arith

    small : (m : ℕ) → is_mark m ≡ true → m < 0x80
    small m k = ground arith

-- What a reader of URLs takes for the part before the query and the fragment.
abbrev pub until_mark : List ℕ → List ℕ
until_mark [] = []
until_mark (c ∷ t) = if is_mark c then [] else c ∷ until_mark t

until_mark-append :
    (s t : Text)
    → exists (λ c. c == b'#') s ≡ false
    → exists (λ c. c == b'?') s ≡ false
    → until_mark (s ++ t) ≡ s ++ until_mark t
until_mark-append [] t h k = refl
until_mark-append (c ∷ s) t h k = ground (arith, until_mark-append s t)

escape_mark : (p : ℕ) → is_mark p ≡ true → escape p ≡ p ∷ []
unfolding escape
escape_mark p h = rw (kept_mark p h) refl

until_mark-cons : (p : ℕ) (t : Text) → is_mark p ≡ true → until_mark (p ∷ t) ≡ []
until_mark-cons p t h = rw h refl

until_mark-next : (p : ℕ) (t : Text) → is_mark p ≡ false → until_mark (p ∷ t) ≡ p ∷ until_mark t
until_mark-next p t h = rw h refl

no_mark : (p : ℕ) → is_mark p ≡ false → ((p == b'#') ≡ false) × ((p == b'?') ≡ false)
no_mark p h = ground arith

until_mark-escapes :
    (ps : List ℕ) → All (λ p. p < 0x110000) ps → until_mark (escapes ps) ≡ escapes (until_mark ps)
unfolding escapes
until_mark-escapes [] h = refl
until_mark-escapes (p ∷ ps) h = elim (Bool-cases (is_mark p)) [
  | inl mark ↦
      ap (λ e. until_mark (e ++ escapes ps)) (escape_mark p mark)
      ∙ until_mark-cons p (escapes ps) mark
      ∙ sym (ap escapes (until_mark-cons p ps mark))
  | inr plain ↦
      let (sharp, question) = no_mark p plain in
      until_mark-append (escape p) (escapes ps) (exists-escape b'#' p refl h.0 ∙ sharp)
        (exists-escape b'?' p refl h.0 ∙ question)
      ∙ ap (λ t. escape p ++ t) (until_mark-escapes ps h.1)
      ∙ sym (ap escapes (until_mark-next p ps plain))
]

until_mark-All :
    (ps : List ℕ) → All (λ p. p < 0x110000) ps → All (λ p. p < 0x110000) (until_mark ps)
until_mark-All [] h = tt
until_mark-All (p ∷ ps) h = ground (arith, until_mark-All ps h.1)

-- What a reader of URLs takes for the part of the URL of a file before its query and its fragment
-- decodes to the scheme and the UTF-8 of the path's code points in front of its first number sign or
-- question mark.
pub decode-file_url :
    (path url : Text)
    → All (λ c. c < 0x10000) path
    → is_empty path ≡ false
    → file_url path ≡ some url
    → (points : List ℕ) × (code_points path ≡ some points)
      × (decode (until_mark url) ≡ codes "file://" ++ utf8_all (until_mark points))
decode-file_url path url units full e =
    let v = file_url-IsUrl path url full e in
    let small = Points-All (code_points-Points path v.points v.of_path) units in
    (
      v.points,
      v.of_path,
      ap (λ u. decode (until_mark u)) v.shape
          ∙ ap decode
              (until_mark-append (codes "file://") (escapes v.points) (ground arith) (ground arith))
          ∙ ap (λ u. decode (codes "file://" ++ u)) (until_mark-escapes v.points small)
          ∙ decode_plain (codes "file://") (escapes (until_mark v.points))
              (refl, (refl, (refl, (refl, (refl, (refl, (refl, tt)))))))
          ∙ ap (λ bs. codes "file://" ++ bs)
              (decode-escapes (until_mark v.points) (until_mark-All v.points small)),
    )
