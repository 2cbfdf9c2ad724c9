-- ===== src/RateLimiter/Policy.antt =====
-- src/ratelimiter.cpp, what the operations promise about an address: when it is refused, for how
-- long, and that other addresses are left alone.
use harbour_localsend.Common.{
  ℕ, ◌+◌, ◌*◌, ◌≤◌, ◌<◌, ◌≡◌, ◌≢◌, ◌↔◌, arith, true, false, not, List, [], ◌∷◌, some, length, leb,
  Text, text_eq, text_eq_iff, text_eq_refl, find, contains, find-insert, contains_of_find,
  contains-find, keep_values-All, All, map, find-remove, find-keep_values, if◌then◌else◌,
  filter_value,
}
use harbour_localsend.RateLimiter.{
  RateLimiter, Entry, now, allow, retry_after, prune, record_pruned, record_failure, record_success,
  is_forgotten, is_full_for, count_failure, entry_or_new, backoff_for, free_attempts, max_entries,
}
use harbour_localsend.RateLimiter.Invariant.{IsValid, failure, step, run}

-- An address is let through exactly when it is told to wait for no time at all; a refused address
-- is never told to come back in zero seconds.
pub allow_iff_retry_after_zero :
    (l : RateLimiter) (key : Text) (elapsed : ℕ)
    → (allow l key elapsed ≡ true) ↔ (retry_after l key elapsed ≡ 0)
unfolding allow retry_after
allow_iff_retry_after_zero l key elapsed = ground arith

-- Whoever waits the seconds that retryAfter announces is let through, and the answer is less than
-- a second more than the wait that is left.
pub allow_after_retry_after :
    (l : RateLimiter) (key : Text) (elapsed : ℕ)
    → allow l key (elapsed + 1000 * retry_after l key elapsed) ≡ true
unfolding allow retry_after
allow_after_retry_after l key elapsed = ground arith

-- A success forgets the failures of its address: it is let through at any time; every other address
-- keeps its standing.
pub allow-record_success :
    (l : RateLimiter) (key other : Text) (elapsed : ℕ)
    → allow (record_success l key) other elapsed
      ≡ (if text_eq key other then true else allow l other elapsed)
unfolding allow record_success
allow-record_success l key other elapsed = ground (arith, find-remove key other l.entries)

find-prune :
    (l : RateLimiter) (key : Text) (elapsed : ℕ)
    → IsValid l
    → find key (prune l elapsed).entries
      ≡ filter_value (λ e. not (is_forgotten (now l elapsed) e)) (find key l.entries)
unfolding prune
find-prune l key elapsed v = find-keep_values _ key l.entries v.distinct

-- The standing of another address does not change with a failure: pruning drops only entries that
-- no longer block anybody.
pub allow-record_failure_ne :
    (l : RateLimiter) (key other : Text) (elapsed : ℕ)
    → IsValid l
    → key ≢ other
    → allow (record_failure l key elapsed) other elapsed ≡ allow l other elapsed
unfolding allow record_failure record_pruned is_forgotten prune
allow-record_failure_ne l key other elapsed v ne = ground (
  arith,
  find-prune l other elapsed v,
  text_eq_iff key other,
  find-insert key other
      (count_failure (now l elapsed) (entry_or_new (find key (prune l elapsed).entries)))
      (prune l elapsed).entries,
)

-- A further failure of an address whose entry has not been forgotten and that has used up its free
-- attempts shuts it out: it is refused for the whole backoff of its new count of failures, and let
-- through from its end on.
pub allow-record_failure :
    (l : RateLimiter) (key : Text) (elapsed later : ℕ) (e : Entry)
    → IsValid l
    → find key l.entries ≡ some e
    → is_forgotten (now l elapsed) e ≡ false
    → free_attempts ≤ e.failures
    → allow (record_failure l key elapsed) key later
      ≡ leb (elapsed + l.offset + backoff_for (e.failures + 1)) (later + l.offset)
unfolding allow record_failure record_pruned is_full_for count_failure prune
allow-record_failure l key elapsed later e v found kept spent = ground (
  arith,
  find-prune l key elapsed v,
  contains_of_find key (prune l elapsed).entries {v = e},
  text_eq_refl key,
  find-insert key key (count_failure (now l elapsed) e) (prune l elapsed).entries,
)

-- The first failures of an address block nobody: until the free attempts are used up it is let
-- through whenever it was before.
pub allow-record_failure_free :
    (l : RateLimiter) (key : Text) (elapsed later : ℕ)
    → IsValid l
    → (entry_or_new (find key l.entries)).failures < free_attempts
    → allow l key later ≡ true
    → allow (record_failure l key elapsed) key later ≡ true
unfolding allow record_failure record_pruned is_full_for count_failure prune
allow-record_failure_free l key elapsed later v free open_now = ground (
  arith,
  find-prune l key elapsed v,
  text_eq_refl key,
  find-insert key key
      (count_failure (now l elapsed) (entry_or_new (find key (prune l elapsed).entries)))
      (prune l elapsed).entries,
)

record_failure_full :
    (l : RateLimiter) (key : Text) (elapsed : ℕ)
    → All (λ b. b.1.blocked_until ≡ 0) l.entries
    → max_entries ≤ length l.entries
    → contains key l.entries ≡ false
    → record_failure l key elapsed ≡ l
unfolding record_failure record_pruned is_full_for prune is_forgotten
record_failure_full l key elapsed never full absent =
    rw
      (keep_values-All (λ e. not (is_forgotten (now l elapsed) e)) l.entries (kept l.entries never))
      (ground arith)
  where
    kept :
        (m : List (Text × Entry))
        → All (λ b. b.1.blocked_until ≡ 0) m
        → All (λ b. not (is_forgotten (now l elapsed) b.1) ≡ true) m
    kept [] h = tt
    kept (b ∷ m) (e, h) = (ground arith, kept m h)

-- A table that is full of addresses with free failures only never makes room, whatever time
-- passes: an address that is not in it may fail as often as it likes and is never refused.
pub never_refused_when_full :
    (l : RateLimiter) (key : Text) (times : List ℕ) (later : ℕ)
    → All (λ b. b.1.blocked_until ≡ 0) l.entries
    → max_entries ≤ length l.entries
    → contains key l.entries ≡ false
    → allow (run l (map (failure key) times)) key later ≡ true
unfolding run step allow
never_refused_when_full l key [] later never full absent =
    ground (arith, contains-find key l.entries)
never_refused_when_full l key (t ∷ times) later never full absent =
    rw (record_failure_full l key t never full absent, run, step)
      (never_refused_when_full l key times later never full absent)
