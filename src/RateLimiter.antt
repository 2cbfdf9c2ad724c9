-- ===== src/RateLimiter.antt =====
-- src/ratelimiter.cpp: the backoff on repeated PIN failures from one address.
-- `m_clock.elapsed()` is the argument `elapsed` of each operation; times are milliseconds.
pub mod Backoff
pub mod Invariant
pub mod Policy
mod Tests
use harbour_localsend.Common.{
  ℕ, zero, suc, ◌+◌, ◌-◌, ◌*◌, ◌/◌, Bool, true, not, ◌&&◌, List, [], Option, none, some, length,
  ltb, leb, ◌==◌, if◌then◌else◌, Text, find, contains, insert, remove, keep_values,
}

abbrev pub free_attempts : ℕ
free_attempts = 3

abbrev pub base_backoff_ms : ℕ
base_backoff_ms = 1000

abbrev pub max_backoff_ms : ℕ
max_backoff_ms = 15 * 60 * 1000

abbrev pub forget_after_ms : ℕ
forget_after_ms = 60 * 60 * 1000

abbrev pub max_entries : ℕ
max_entries = 512

pub record Entry : Type 0 where
  pub failures : ℕ
  pub blocked_until : ℕ

abbrev pub new_entry : Entry
new_entry = record { failures = 0; blocked_until = 0 }

pub record RateLimiter : Type 0 where
  pub entries : List (Text × Entry)
  pub offset : ℕ

unfoldable pub init : RateLimiter
init = record { entries = []; offset = 0 }

abbrev pub now : RateLimiter → ℕ → ℕ
now l elapsed = elapsed + l.offset

unfoldable pub set_clock_offset : RateLimiter → ℕ → RateLimiter
set_clock_offset l milliseconds = record l { offset = milliseconds }

allows : Option Entry → ℕ → Bool
allows none current = true
allows (some e) current = leb e.blocked_until current

unfoldable pub allow : RateLimiter → Text → ℕ → Bool
unfolding allows
allow l key elapsed = allows (find key l.entries) (now l elapsed)

-- `remaining` is a signed difference in the source: it is not positive exactly when the block has
-- run out.
seconds_left : Option Entry → ℕ → ℕ
seconds_left none current = 0
seconds_left (some e) current =
    if leb e.blocked_until current then 0 else (e.blocked_until - current + 999) / 1000

unfoldable pub retry_after : RateLimiter → Text → ℕ → ℕ
unfolding seconds_left
retry_after l key elapsed = seconds_left (find key l.entries) (now l elapsed)

-- `for (int i = FreeAttempts + 1; i < failures && backoff < MaxBackoffMs; ++i) backoff *= 2`,
-- on the number of rounds that the first condition leaves.
pub double_backoff : ℕ → ℕ → ℕ
double_backoff zero backoff = backoff
double_backoff (suc rounds) backoff =
    let rest = double_backoff rounds (backoff * 2) in
    if ltb backoff max_backoff_ms then rest else backoff

pub backoff_for : ℕ → ℕ
backoff_for failures =
    let backoff = double_backoff (failures - (free_attempts + 1)) base_backoff_ms in
    if ltb max_backoff_ms backoff then max_backoff_ms else backoff

-- `current - blockedUntil > ForgetAfterMs`, with the signed difference moved to the other side.
pub is_forgotten : ℕ → Entry → Bool
is_forgotten current e =
    not (e.blocked_until == 0) && ltb (e.blocked_until + forget_after_ms) current

unfoldable pub prune : RateLimiter → ℕ → RateLimiter
prune l elapsed = record l {
  entries = keep_values (λ e. not (is_forgotten (now l elapsed) e)) l.entries;
}

-- `m_entries[key]`, which makes a new entry for a key that is not there.
abbrev pub entry_or_new : Option Entry → Entry
entry_or_new none = new_entry
entry_or_new (some e) = e

pub count_failure : ℕ → Entry → Entry
count_failure current e =
    let failures = e.failures + 1 in
    if leb failures free_attempts
    then record e { failures = failures }
    else record { failures = failures; blocked_until = current + backoff_for failures }

-- `!m_entries.contains(key) && m_entries.size() >= MaxEntries`
pub is_full_for : Text → List (Text × Entry) → Bool
is_full_for key entries = not (contains key entries) && leb max_entries (length entries)

pub record_pruned : RateLimiter → Text → ℕ → RateLimiter
record_pruned l key elapsed = if is_full_for key l.entries then l else record l {
  entries =
      insert key (count_failure (now l elapsed) (entry_or_new (find key l.entries))) l.entries;
}

unfoldable pub record_failure : RateLimiter → Text → ℕ → RateLimiter
record_failure l key elapsed = record_pruned (prune l elapsed) key elapsed

unfoldable pub record_success : RateLimiter → Text → RateLimiter
record_success l key = record l { entries = remove key l.entries }

unfoldable pub clear : RateLimiter → RateLimiter
clear l = record l { entries = [] }
