-- ===== src/RateLimiter/Invariant.antt =====
-- src/ratelimiter.cpp, what every state of the limiter satisfies: the hash's keys are distinct and
-- the table never holds more than MaxEntries addresses.
use harbour_localsend.Common.{
  ℕ, ◌≤◌, arith, List, Text, length, KeysDistinct, find, keep_values-KeysDistinct,
  insert-KeysDistinct, remove-KeysDistinct, length-insert, length-remove-le, length-keep_values-le,
  not,
}
use harbour_localsend.RateLimiter.{
  RateLimiter, init, now, set_clock_offset, prune, record_pruned, record_failure, is_full_for,
  record_success, clear, max_entries, is_forgotten, count_failure, entry_or_new,
}

pub record IsValid (l : RateLimiter) : Type 0 where
  pub distinct : KeysDistinct l.entries
  pub bounded : length l.entries ≤ max_entries

pub init-IsValid : IsValid init
unfolding init
init-IsValid = record { distinct = tt; bounded = omega arith }

pub prune-IsValid : (l : RateLimiter) (elapsed : ℕ) → IsValid l → IsValid (prune l elapsed)
unfolding prune
prune-IsValid l elapsed v = record {
  distinct = keep_values-KeysDistinct _ l.entries v.distinct;
  bounded = omega (
    arith,
    length-keep_values-le (λ e. not (is_forgotten (now l elapsed) e)) l.entries,
    v.bounded,
  );
}

pub record_pruned-IsValid :
    (l : RateLimiter) (key : Text) (elapsed : ℕ) → IsValid l → IsValid (record_pruned l key elapsed)
unfolding record_pruned is_full_for
record_pruned-IsValid l key elapsed v =
    let e = count_failure (now l elapsed) (entry_or_new (find key l.entries)) in
    ground (
      arith,
      v.distinct,
      v.bounded,
      insert-KeysDistinct key e l.entries v.distinct,
      length-insert key e l.entries,
    )

pub record_failure-IsValid :
    (l : RateLimiter) (key : Text) (elapsed : ℕ)
    → IsValid l
    → IsValid (record_failure l key elapsed)
unfolding record_failure
record_failure-IsValid l key elapsed v =
    record_pruned-IsValid (prune l elapsed) key elapsed (prune-IsValid l elapsed v)

pub record_success-IsValid :
    (l : RateLimiter) (key : Text) → IsValid l → IsValid (record_success l key)
unfolding record_success
record_success-IsValid l key v = record {
  distinct = remove-KeysDistinct key l.entries v.distinct;
  bounded = omega (arith, length-remove-le key l.entries, v.bounded);
}

-- The calls that change the limiter, with the clock's reading where one is taken.
pub data Call : Type 0 where
  failure : Text → ℕ → Call
  success : Text → Call
  shift_clock : ℕ → Call
  forget_all : Call

unfoldable pub step : RateLimiter → Call → RateLimiter
step l (failure key elapsed) = record_failure l key elapsed
step l (success key) = record_success l key
step l (shift_clock ms) = set_clock_offset l ms
step l forget_all = clear l

unfoldable pub run : RateLimiter → List Call → RateLimiter
run l List.[] = l
run l (List.◌∷◌ c cs) = run (step l c) cs

step-IsValid : (l : RateLimiter) (c : Call) → IsValid l → IsValid (step l c)
unfolding step set_clock_offset clear
step-IsValid l (failure key elapsed) v = record_failure-IsValid l key elapsed v
step-IsValid l (success key) v = record_success-IsValid l key v
step-IsValid l (shift_clock ms) v = record { distinct = v.distinct; bounded = v.bounded }
step-IsValid l forget_all v = record { distinct = tt; bounded = omega arith }

pub run-IsValid : (l : RateLimiter) (cs : List Call) → IsValid l → IsValid (run l cs)
unfolding run
run-IsValid l List.[] v = v
run-IsValid l (List.◌∷◌ c cs) v = run-IsValid (step l c) cs (step-IsValid l c v)

-- After any sequence of calls on a new limiter, at any clock readings, no address is tracked twice
-- and at most MaxEntries addresses are tracked.
pub run-init-IsValid : (cs : List Call) → IsValid (run init cs)
run-init-IsValid cs = run-IsValid init cs init-IsValid
