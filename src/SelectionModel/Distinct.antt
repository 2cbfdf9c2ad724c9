-- ===== src/SelectionModel/Distinct.antt =====
-- src/selectionmodel.cpp: no file is chosen twice.
use harbour_localsend.Common.{
  ℕ, zero, suc, ◌≡◌, refl, arith, Bool, true, false, not, List, [], ◌∷◌, ◌++◌, length, is_empty,
  ltb, if◌then◌else◌, Text, text_eq, text_eq_iff, ℤ, pos, negsuc,
}
use harbour_localsend.Platform.{Platform}
use harbour_localsend.SelectionModel.{
  Item, SelectionModel, Disk, holds, with_items, remove_row, remove_at, clear, path_of, item_of,
  add_path, add, add_all, Call, adds, adds_all, removes, clears, step, run,
}

-- Every path is the canonical one of a file that can be read, and none stands twice.
abbrev pub IsChosen : Disk → List Item → Type 0
IsChosen d [] = Unit
IsChosen d (i ∷ items) =
    ((path : Text) × (d.is_readable path ≡ true) × (i.path ≡ d.canonical path))
    × (holds i.path items ≡ false)
    × IsChosen d items

holds-snoc :
    (path : Text) (items : List Item) (j : Item)
    → holds path items ≡ false
    → text_eq j.path path ≡ false
    → holds path (items ++ j ∷ []) ≡ false
unfolding holds
holds-snoc path [] j h e = ground (arith)
holds-snoc path (i ∷ items) j h e = ground (arith, holds-snoc path items j)

holds-head :
    (path : Text) (i : Item) (items : List Item)
    → holds path (i ∷ items) ≡ false
    → (text_eq path i.path ≡ false) × (holds path items ≡ false)
unfolding holds
holds-head path i items h = ground (arith, text_eq_iff i.path path, text_eq_iff path i.path)

snoc-IsChosen :
    (d : Disk) (items : List Item) (j : Item)
    → IsChosen d items
    → holds j.path items ≡ false
    → ((path : Text) × (d.is_readable path ≡ true) × (j.path ≡ d.canonical path))
    → IsChosen d (items ++ j ∷ [])
unfolding holds
snoc-IsChosen d [] j k h r = (r, refl, tt)
snoc-IsChosen d (i ∷ items) j (own, new, rest) h r =
    let (other, below) = holds-head j.path i items h in
    (own, holds-snoc i.path items j new other, snoc-IsChosen d items j rest below r)

holds-remove_row :
    (path : Text) (row : ℕ) (items : List Item)
    → holds path items ≡ false
    → holds path (remove_row row items) ≡ false
unfolding holds remove_row
holds-remove_row path row [] h = h
holds-remove_row path zero (i ∷ items) h = ground (arith)
holds-remove_row path (suc row) (i ∷ items) h = ground (arith, holds-remove_row path row items)

remove_row-IsChosen :
    (d : Disk) (row : ℕ) (items : List Item) → IsChosen d items → IsChosen d (remove_row row items)
unfolding remove_row
remove_row-IsChosen d row [] k = k
remove_row-IsChosen d zero (i ∷ items) (own, new, rest) = rest
remove_row-IsChosen d (suc row) (i ∷ items) (own, new, rest) =
    (own, holds-remove_row i.path row items new, remove_row-IsChosen d row items rest)

pick :
    (P : SelectionModel → Type 0) (b : Bool) (x y : SelectionModel)
    → P x
    → P y
    → P (if b then x else y)
pick P true x y k l = k
pick P false x y k l = l

remove_at-IsChosen :
    (d : Disk) (row : ℤ) (m : SelectionModel)
    → IsChosen d m.items
    → IsChosen d (remove_at row m).items
unfolding remove_at
remove_at-IsChosen d (negsuc n) m k = k
remove_at-IsChosen d (pos row) m k =
    pick (λ n. IsChosen d n.items) (ltb row (length m.items)) _ _
      (remove_row-IsChosen d row m.items k) k

clear-IsChosen : (d : Disk) (m : SelectionModel) → IsChosen d m.items → IsChosen d (clear m).items
unfolding clear
clear-IsChosen d m k = pick (λ n. IsChosen d n.items) (is_empty m.items) _ _ k tt

module _ (q : Platform) (d : Disk) where
  add_path-IsChosen :
      (path : Text) (m : SelectionModel)
      → IsChosen d m.items
      → IsChosen d (add_path q d path m).1.items
  add_path-IsChosen path m k = by_path (is_empty path)
    where
      kept : Bool × SelectionModel
      kept = (false, m)

      grown : Bool × SelectionModel
      grown = (true, with_items (m.items ++ item_of q d path ∷ []) m)

      by_items :
          (b : Bool)
          → holds (d.canonical path) m.items ≡ b
          → d.is_readable path ≡ true
          → IsChosen d (if b then kept else grown).1.items
      by_items true h r = k
      by_items false h r = snoc-IsChosen d m.items (item_of q d path) k h (path, r, refl)

      by_disk :
          (b : Bool)
          → d.is_readable path ≡ b
          → IsChosen d
              (if not b
                then kept
                else if holds (d.canonical path) m.items
                then kept
                else grown).1.items
      by_disk false r = k
      by_disk true r = by_items (holds (d.canonical path) m.items) refl r

      by_path :
          (b : Bool)
          → IsChosen d
              (if b
                then kept
                else if not (d.is_readable path)
                then kept
                else if holds (d.canonical path) m.items
                then kept
                else grown).1.items
      by_path true = k
      by_path false = by_disk (d.is_readable path) refl

  add-IsChosen :
      (t : Text) (m : SelectionModel) → IsChosen d m.items → IsChosen d (add q d t m).1.items
  unfolding add
  add-IsChosen t m k = add_path-IsChosen (path_of q d t) m k

  add_all-IsChosen :
      (texts : List Text) (m : SelectionModel)
      → IsChosen d m.items
      → IsChosen d (add_all q d texts m).1.items
  unfolding add_all
  add_all-IsChosen [] m k = k
  add_all-IsChosen (t ∷ texts) m k = add_all-IsChosen texts (add q d t m).1 (add-IsChosen t m k)

  step-IsChosen :
      (c : Call) (m : SelectionModel) → IsChosen d m.items → IsChosen d (step q d c m).items
  step-IsChosen (adds t) m k = add-IsChosen t m k
  step-IsChosen (adds_all texts) m k = add_all-IsChosen texts m k
  step-IsChosen (removes row) m k = remove_at-IsChosen d row m k
  step-IsChosen clears m k = clear-IsChosen d m k

  -- Whatever is called on a model in which every path is the canonical one of a readable file and
  -- none stands twice, that holds of it afterwards.
  pub run-IsChosen :
      (calls : List Call) (m : SelectionModel)
      → IsChosen d m.items
      → IsChosen d (run q d calls m).items
  run-IsChosen [] m k = k
  run-IsChosen (c ∷ calls) m k = run-IsChosen calls (step q d c m) (step-IsChosen c m k)
