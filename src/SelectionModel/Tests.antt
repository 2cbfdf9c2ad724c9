-- ===== src/SelectionModel/Tests.antt =====
-- src/selectionmodel.cpp: a picker that hands back a file twice.
use harbour_localsend.Common.{List, [], ◌∷◌, codes, true, pos}
use harbour_localsend.Platform.{ascii}
use harbour_localsend.SelectionModel.{Disk, Call, adds, adds_all, removes, run, init}
use harbour_localsend.SelectionModel.Distinct.{IsChosen, run-IsChosen}

abbrev disk : Disk
disk = record {
  is_readable = λ p. true;
  canonical = λ p. p;
  size = λ p. 4;
  mime_type = λ p. codes "text/plain";
  to_local_file = λ p. p;
}

abbrev calls : List Call
calls =
    adds_all (codes "/h/a" ∷ codes "/h/b" ∷ codes "/h/a" ∷ [])
    ∷ removes (pos 0)
    ∷ adds (codes "/h/b")
    ∷ []

run-IsChosen_example : IsChosen disk (run ascii disk calls init).items
run-IsChosen_example = run-IsChosen ascii disk calls init tt
