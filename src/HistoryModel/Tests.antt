-- ===== src/HistoryModel/Tests.antt =====
-- src/historymodel.cpp, at concrete inputs.
use harbour_localsend.Common.{◌≡◌, refl, arith, [], ◌∷◌, some, codes, Text, get_elem?, length}
use harbour_localsend.HistoryModel.{
  HistoryModel, Record, append, remove_at, clear, step, removes, IsValid, history_step-IsValid,
  append-get_elem?,
}

log : Unit {0}
unfolding append remove_at clear step
log = tt

abbrev named : Text → Record
named id = record {
  id = id;
  direction = codes "receive";
  peer_alias = codes "Ann";
  peer_device_type = codes "mobile";
  timestamp = 1;
  file_names = codes "a.jpg" ∷ [];
  total_bytes = 3000;
  status = codes "finished";
  destination = codes "/home";
}

abbrev two : HistoryModel
two = append (named (codes "2")) (append (named (codes "1")) (record { records = []; file = [] }))

two_tests : ((remove_at 0 two).records ≡ named (codes "1") ∷ []) × (length (clear two).records ≡ 0)
unfolding log
two_tests = (refl, refl)

two-IsValid : IsValid two
unfolding log
two-IsValid = record { bounded = omega arith; stored = refl }

history_step-IsValid_example : IsValid (step (removes 1) two)
history_step-IsValid_example = history_step-IsValid (removes 1) two two-IsValid

append-get_elem?_example :
    (get_elem? (append (named (codes "3")) two).records 0 ≡ some (named (codes "3")))
    × (get_elem? (append (named (codes "3")) two).records 1 ≡ get_elem? two.records 0)
append-get_elem?_example = append-get_elem? (named (codes "3")) two 0 (omega arith)
