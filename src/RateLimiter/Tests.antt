-- ===== src/RateLimiter/Tests.antt =====
-- src/ratelimiter.cpp, at concrete inputs.
use harbour_localsend.Common.{
  ℕ, zero, suc, ap, sym, text_eq_iff, ◌+◌, ◌≡◌, ◌≢◌, ◌↔◌, refl, arith, true, false, List, [], ◌∷◌,
  Text, codes, text_eq, find, insert, contains, remove, keep_values, length, All, map,
}
use harbour_localsend.RateLimiter.{
  RateLimiter, Entry, init, allow, retry_after, record_failure, record_success, backoff_for,
  double_backoff, record_pruned, count_failure, is_full_for, is_forgotten, prune,
}
use harbour_localsend.RateLimiter.Invariant.{run-init-IsValid, IsValid, Call, failure, run, step}
use harbour_localsend.RateLimiter.Policy.{
  allow_after_retry_after, allow_iff_retry_after_zero, allow-record_success, allow-record_failure,
  allow-record_failure_ne, allow-record_failure_free, never_refused_when_full,
}
use harbour_localsend.RateLimiter.Backoff.{backoff_for-min}

limiter : Unit {0}
unfolding init run step record_failure record_success record_pruned count_failure backoff_for
    double_backoff is_full_for is_forgotten prune allow retry_after find insert contains remove
    keep_values text_eq
limiter = tt

abbrev phone : Text
phone = codes "192.168.1.7"

abbrev laptop : Text
laptop = codes "192.168.1.8"

abbrev three_failures : List Call
three_failures = failure phone 10 ∷ failure phone 20 ∷ failure phone 30 ∷ []

abbrev three_entry : Entry
three_entry = record { failures = 3; blocked_until = 0 }

abbrev tried : RateLimiter
tried = record { entries = (phone, three_entry) ∷ []; offset = 0 }

after_three : run init three_failures ≡ tried
unfolding limiter
after_three = refl

backoff_table :
    (backoff_for 4 ≡ 1000)
    × (backoff_for 10 ≡ 64000)
    × (backoff_for 13 ≡ 512000)
    × (backoff_for 14 ≡ 900000)
    × (backoff_for 100 ≡ 900000)
unfolding limiter
backoff_table = (refl, refl, refl, refl, refl)

tried-IsValid : IsValid tried
unfolding limiter
tried-IsValid = record { distinct = (refl, tt); bounded = omega arith }

shut_out :
    (allow (record_failure tried phone 40) phone 1039 ≡ false)
    × (retry_after (record_failure tried phone 40) phone 41 ≡ 1)
unfolding limiter
shut_out = (refl, refl)

backoff_for-min_example : backoff_for 5 ≡ 2000
backoff_for-min_example = backoff_for-min 5

allow_iff_retry_after_zero_example :
    (allow tried phone 50 ≡ true) ↔ (retry_after tried phone 50 ≡ 0)
allow_iff_retry_after_zero_example = allow_iff_retry_after_zero tried phone 50

abbrev refused : RateLimiter
refused = record {
  entries = (phone, record { failures = 5; blocked_until = 2500 }) ∷ [];
  offset = 0;
}

allow_after_retry_after_example : allow refused phone (0 + 3000) ≡ true
unfolding limiter
allow_after_retry_after_example = allow_after_retry_after refused phone 0

allow-record_success_example : allow (record_success refused phone) phone 0 ≡ true
unfolding limiter
allow-record_success_example = allow-record_success refused phone phone 0

phone-ne-laptop : phone ≢ laptop
phone-ne-laptop = ground (arith, text_eq_iff phone laptop)

allow-record_failure_ne_example :
    allow (record_failure tried laptop 40) phone 40 ≡ allow tried phone 40
allow-record_failure_ne_example =
    allow-record_failure_ne tried laptop phone 40 tried-IsValid (λ e. phone-ne-laptop (sym e))

allow-record_failure_example : allow (record_failure tried phone 40) phone 1040 ≡ true
unfolding limiter
allow-record_failure_example =
    allow-record_failure tried phone 40 1040 three_entry tried-IsValid refl refl (omega arith)

allow-record_failure_free_example : allow (record_failure tried laptop 40) laptop 41 ≡ true
unfolding limiter
allow-record_failure_free_example =
    allow-record_failure_free tried laptop 40 41 tried-IsValid (omega arith) refl

-- A scan from many addresses, each of which has failed once.
scanned : ℕ → List (Text × Entry)
scanned zero = []
scanned (suc n) = (n ∷ [], record { failures = 1; blocked_until = 0 }) ∷ scanned n

scanned_free : (n : ℕ) → All (λ b. b.1.blocked_until ≡ 0) (scanned n)
unfolding scanned
scanned_free zero = tt
scanned_free (suc n) = (refl, scanned_free n)

length-scanned : (n : ℕ) → length (scanned n) ≡ n
unfolding scanned
length-scanned zero = refl
length-scanned (suc n) = ap suc (length-scanned n)

contains-scanned : (n : ℕ) → contains phone (scanned n) ≡ false
unfolding scanned contains text_eq
contains-scanned zero = refl
contains-scanned (suc n) = ground (arith, contains-scanned n)

abbrev full_table : RateLimiter
full_table = record { entries = scanned 512; offset = 0 }

never_refused_when_full_example :
    allow (run full_table (map (failure phone) (1 ∷ 2 ∷ 3 ∷ 4 ∷ 5 ∷ []))) phone 6 ≡ true
never_refused_when_full_example =
    never_refused_when_full full_table phone (1 ∷ 2 ∷ 3 ∷ 4 ∷ 5 ∷ []) 6 (scanned_free 512)
      (omega (arith, length-scanned 512)) (contains-scanned 512)

run-init-IsValid_example : IsValid (run init three_failures)
run-init-IsValid_example = run-init-IsValid three_failures
