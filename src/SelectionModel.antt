-- ===== src/SelectionModel.antt =====
-- src/selectionmodel.cpp: the files that are chosen for sending.
pub mod Distinct
mod Tests
use harbour_localsend.Common.{
  ℕ, zero, suc, ◌+◌, Bool, true, false, not, List, [], ◌∷◌, ◌++◌, is_empty, if◌then◌else◌, Text,
  ltb, length, codes, text_eq, ℤ, pos, negsuc,
}
use harbour_localsend.Platform.{Platform}
use harbour_localsend.SendService.Prepare.{starts_with}

pub record Item : Type 0 where
  pub path : Text
  pub file_name : Text
  pub file_type : Text
  pub size : ℕ

-- `changes` counts the emissions of `changed`.
pub record SelectionModel : Type 0 where
  pub items : List Item
  pub changes : ℕ

abbrev pub init : SelectionModel
init = record { items = []; changes = 0 }

-- The disk as QFileInfo tells of it, and QUrl.
pub record Disk : Type 0 where
  pub is_readable : Text → Bool
  pub canonical : Text → Text
  pub size : Text → ℕ
  pub mime_type : Text → Text
  pub to_local_file : Text → Text

unfoldable pub total_bytes : List Item → ℕ
total_bytes [] = 0
total_bytes (i ∷ items) = i.size + total_bytes items

unfoldable pub paths : List Item → List Text
paths [] = []
paths (i ∷ items) = i.path ∷ paths items

unfoldable pub holds : Text → List Item → Bool
holds path [] = false
holds path (i ∷ items) = if text_eq i.path path then true else holds path items

abbrev pub with_items : List Item → SelectionModel → SelectionModel
with_items items m = record { items = items; changes = m.changes + 1 }

unfoldable pub remove_row : ℕ → List Item → List Item
remove_row row [] = []
remove_row zero (i ∷ items) = items
remove_row (suc row) (i ∷ items) = i ∷ remove_row row items

abbrev pub remove_from : ℤ → SelectionModel → SelectionModel
remove_from (negsuc n) m = m
remove_from (pos row) m =
    if ltb row (length m.items) then with_items (remove_row row m.items) m else m

unfoldable pub remove_at : ℤ → SelectionModel → SelectionModel
remove_at row m = remove_from row m

unfoldable pub clear : SelectionModel → SelectionModel
clear m = if is_empty m.items then m else with_items [] m

pub data Call : Type 0 where
  adds : Text → Call
  adds_all : List Text → Call
  removes : ℤ → Call
  clears : Call

module _ (q : Platform) (d : Disk) where
  abbrev pub path_of : Text → Text
  path_of t = if starts_with (codes "file://") t then d.to_local_file t else t

  abbrev pub item_of : Text → Item
  item_of path = record {
    path = d.canonical path;
    file_name = q.file_name path;
    file_type = d.mime_type path;
    size = d.size path;
  }

  abbrev pub add_path : Text → SelectionModel → Bool × SelectionModel
  add_path path m =
      if is_empty path
      then (false, m)
      else if not (d.is_readable path)
      then (false, m)
      else if holds (d.canonical path) m.items
      then (false, m)
      else (true, with_items (m.items ++ item_of path ∷ []) m)

  -- Whether the file was added, and the model behind it.
  unfoldable pub add : Text → SelectionModel → Bool × SelectionModel
  add t m = add_path (path_of t) m

  unfoldable pub add_all : List Text → SelectionModel → ℕ × SelectionModel
  add_all [] m = (0, m)
  add_all (t ∷ texts) m =
      let (is_added, n) = add t m in
      let (added, last) = add_all texts n in (if is_added then suc added else added, last)

  abbrev pub step : Call → SelectionModel → SelectionModel
  step (adds t) m = (add t m).1
  step (adds_all texts) m = (add_all texts m).1
  step (removes row) m = remove_at row m
  step clears m = clear m

  abbrev pub run : List Call → SelectionModel → SelectionModel
  run [] m = m
  run (c ∷ calls) m = run calls (step c m)
