-- ===== src/TransferModel.antt =====
-- src/transfermodel.cpp: the one transfer that can be in flight. The clock's reading is the argument
-- `now`; emitting a signal to the pages is not modelled. A row is a natural number, since every
-- caller tests for -1 before.
pub mod Totals
pub mod Progress
pub mod Rows
pub mod Files
pub mod Middle
mod Tests
use harbour_localsend.Common.{
  ℕ, zero, suc, ◌+◌, ◌-◌, ◌*◌, ◌/◌, Bool, true, false, not, ◌&&◌, ◌||◌, List, [], ◌∷◌, Option, none,
  some, length, is_empty, modify, get_elem?, leb, ltb, ◌==◌, if◌then◌else◌, Text, codes, text_eq, ℤ,
  pos, negsuc, pos_part, sub_ℕ, ◌+ℤ◌, mul_ℕ, quot, is_positive,
}

pub data State : Type 0 where
  idle pending requesting active finished failed cancelled : State

pub data Direction : Type 0 where
  no_direction sending receiving : Direction

pub data FileStatus : Type 0 where
  file_waiting file_transferring file_done file_failed file_skipped : FileStatus

abbrev pub state_eq : State → State → Bool
state_eq idle idle = true
state_eq pending pending = true
state_eq requesting requesting = true
state_eq active active = true
state_eq finished finished = true
state_eq failed failed = true
state_eq cancelled cancelled = true
state_eq _ _ = false

abbrev pub is_done : FileStatus → Bool
is_done file_done = true
is_done _ = false

-- `status == FileFailed || status == FileSkipped`
abbrev pub is_lost : FileStatus → Bool
is_lost file_failed = true
is_lost file_skipped = true
is_lost _ = false

abbrev pub is_transferring : FileStatus → Bool
is_transferring file_transferring = true
is_transferring _ = false

abbrev pub is_waiting : FileStatus → Bool
is_waiting file_waiting = true
is_waiting _ = false

pub record FileEntry : Type 0 where
  pub id : Text
  pub file_name : Text
  pub size : ℕ
  pub file_type : Text
  pub sha256 : Text
  pub preview : Text
  pub token : Text
  pub local_path : Text
  pub transferred : ℕ
  pub status : FileStatus
  pub error : Text

-- `FileEntry()`
abbrev pub new_file : FileEntry
new_file = record {
  id = [];
  file_name = [];
  size = 0;
  file_type = [];
  sha256 = [];
  preview = [];
  token = [];
  local_path = [];
  transferred = 0;
  status = file_waiting;
  error = [];
}

pub record TransferModel : Type 0 where
  pub files : List FileEntry
  pub state : State
  pub direction : Direction
  pub peer_alias : Text
  pub peer_address : Text
  pub peer_device_type : Text
  pub peer_fingerprint : Text
  pub destination : Text
  pub error_text : Text
  pub total_bytes : ℕ
  pub transferred_bytes : ℕ
  pub dirty_first : Option ℕ  -- none is -1
  pub dirty_last : Option ℕ
  pub flush_pending : Bool  -- the flush timer is running
  pub clock : Option ℕ  -- the time at which it was started
  pub speed_sample_ms : ℕ
  pub speed_sample_bytes : ℕ
  pub bytes_per_second : ℤ

unfoldable pub init : TransferModel
init = record {
  files = [];
  state = idle;
  direction = no_direction;
  peer_alias = [];
  peer_address = [];
  peer_device_type = [];
  peer_fingerprint = [];
  destination = [];
  error_text = [];
  total_bytes = 0;
  transferred_bytes = 0;
  dirty_first = none;
  dirty_last = none;
  flush_pending = false;
  clock = none;
  speed_sample_ms = 0;
  speed_sample_bytes = 0;
  bytes_per_second = pos 0;
}

unfoldable pub state_name : State → Text
state_name pending = codes "pending"
state_name requesting = codes "requesting"
state_name active = codes "active"
state_name finished = codes "finished"
state_name failed = codes "failed"
state_name cancelled = codes "cancelled"
state_name idle = codes "idle"

unfoldable pub is_active : TransferModel → Bool
is_active m = state_eq m.state active || state_eq m.state pending || state_eq m.state requesting

abbrev pub count_status : (FileStatus → Bool) → List FileEntry → ℕ
count_status p [] = 0
count_status p (f ∷ fs) = if p f.status then suc (count_status p fs) else count_status p fs

abbrev pub file_count : TransferModel → ℕ
file_count m = length m.files

unfoldable pub completed_count : TransferModel → ℕ
completed_count m = count_status is_done m.files

unfoldable pub failed_count : TransferModel → ℕ
failed_count m = count_status is_lost m.files

-- The first row from `row` on whose file passes the test.
unfoldable pub find_row : (FileEntry → Bool) → ℕ → List FileEntry → Option ℕ
find_row p row [] = none
find_row p row (f ∷ fs) = if p f then some row else find_row p (row + 1) fs

abbrev pub first_some : Option ℕ → Option ℕ → Option ℕ
first_some none o = o
first_some (some r) o = some r

unfoldable pub current_index : TransferModel → Option ℕ
unfolding find_row
current_index m = first_some (find_row (λ f. is_transferring f.status) 0 m.files) (
    first_some (find_row (λ f. is_waiting f.status) 0 m.files)
      (if is_empty m.files then none else some (length m.files - 1)))

unfoldable pub index_of_file : TransferModel → Text → Option ℕ
index_of_file m file_id = find_row (λ f. text_eq f.id file_id) 0 m.files

-- The quotient of two numbers that `progress` returns, before it is rounded to a float.
pub record Fraction : Type 0 where
  pub over : ℕ
  pub under : ℕ

unfoldable pub progress : TransferModel → Fraction
unfolding completed_count
progress m =
    if m.total_bytes == 0
    then if is_empty m.files
      then record { over = 0; under = 1 }
      else record { over = completed_count m; under = length m.files }
    else if ltb m.total_bytes m.transferred_bytes
    then record { over = 1; under = 1 }
    else record { over = m.transferred_bytes; under = m.total_bytes }

-- `none` is -1. What is left is a signed difference in the source.
unfoldable pub seconds_remaining : TransferModel → Option ℕ
seconds_remaining m =
    if not (is_positive m.bytes_per_second) || m.total_bytes == 0 || not (state_eq m.state active)
    then none
    else if leb m.total_bytes m.transferred_bytes
    then some 0
    else some ((m.total_bytes - m.transferred_bytes) / pos_part m.bytes_per_second)

abbrev pub sum_sizes : List FileEntry → ℕ
sum_sizes [] = 0
sum_sizes (f ∷ fs) = f.size + sum_sizes fs

unfoldable pub begin :
    Direction → Text → Text → Text → Text → List FileEntry → ℕ → TransferModel → TransferModel
begin direction alias address device_type fingerprint files now m = record m {
  files = files;
  direction = direction;
  peer_alias = alias;
  peer_address = address;
  peer_device_type = device_type;
  peer_fingerprint = fingerprint;
  error_text = [];
  destination = [];
  transferred_bytes = 0;
  bytes_per_second = pos 0;
  speed_sample_bytes = 0;
  dirty_first = none;
  dirty_last = none;
  total_bytes = sum_sizes files;
  clock = some now;
  speed_sample_ms = 0;
}

abbrev pub speed_window_ms : ℕ
speed_window_ms = 1000

-- The speed part of `flush`, at `elapsed` milliseconds of the clock.
unfoldable pub sample_speed : ℕ → TransferModel → TransferModel
sample_speed elapsed m =
    let span = elapsed - m.speed_sample_ms in
    let moved = sub_ℕ m.transferred_bytes m.speed_sample_bytes in
    let sampled = quot (mul_ℕ moved 1000) span in
    if leb speed_window_ms span
    then record m {
      bytes_per_second =
          if is_positive m.bytes_per_second
          then quot (m.bytes_per_second +ℤ mul_ℕ sampled 2) 3
          else sampled;
      speed_sample_ms = elapsed;
      speed_sample_bytes = m.transferred_bytes;
    }
    else m

abbrev sample_if_running : ℕ → Option ℕ → TransferModel → TransferModel
sample_if_running now none m = m
sample_if_running now (some started) m = sample_speed (now - started) m

unfoldable pub flush : ℕ → TransferModel → TransferModel
unfolding sample_speed
flush now m = sample_if_running now m.clock (record m { dirty_first = none; dirty_last = none })

abbrev or_now : ℕ → Option ℕ → Option ℕ
or_now now none = some now
or_now now (some started) = some started

unfoldable pub set_state : State → Text → ℕ → TransferModel → TransferModel
set_state state error now m =
    if state_eq m.state state && text_eq m.error_text error
    then m
    else if state_eq state active
    then record m { state = state; error_text = error; clock = or_now now m.clock }
    else record (flush now
        (record m { state = state; error_text = error; flush_pending = false })) {
          bytes_per_second = pos 0;
        }

unfoldable pub set_destination : Text → TransferModel → TransferModel
set_destination path m = record m { destination = path }

abbrev lower : Option ℕ → ℕ → Option ℕ
lower none row = some row
lower (some r) row = if ltb row r then some row else some r

abbrev higher : Option ℕ → ℕ → Option ℕ
higher none row = some row
higher (some r) row = if ltb r row then some row else some r

unfoldable pub touch : ℕ → TransferModel → TransferModel
touch row m = record m {
  dirty_first = lower m.dirty_first row;
  dirty_last = higher m.dirty_last row;
  flush_pending = true;
}

unfoldable pub set_file_token : ℕ → Text → TransferModel → TransferModel
set_file_token row token m = record m {
  files = modify m.files row (λ f. record f { token = token });
}

unfoldable pub set_file_local_path : ℕ → Text → TransferModel → TransferModel
set_file_local_path row path m =
    if leb (length m.files) row
    then m
    else touch row (record m { files = modify m.files row (λ f. record f { local_path = path }) })

-- What `setFileStatus` makes of an entry. A finished file counts for its whole size.
abbrev pub with_status : FileStatus → Text → FileEntry → FileEntry
with_status status error f =
    if is_done status
    then record f { status = status; error = error; transferred = f.size }
    else record f { status = status; error = error }

status_at : ℕ → FileStatus → Text → ℕ → Option FileEntry → TransferModel → TransferModel
status_at row status error now none m = m
status_at row status error now (some f) m =
    flush now
      (record (touch row (record m {
        files = modify m.files row (with_status status error);
        transferred_bytes =
            m.transferred_bytes + (with_status status error f).transferred - f.transferred;
      })) { flush_pending = false })

unfoldable pub set_file_status : ℕ → FileStatus → Text → ℕ → TransferModel → TransferModel
unfolding status_at
set_file_status row status error now m = status_at row status error now (get_elem? m.files row) m

-- The count of `setFileTransferred` after its two clamps.
abbrev pub clamp_bytes : ℤ → ℕ → ℕ
clamp_bytes (negsuc n) size = 0
clamp_bytes (pos n) size = if ltb size n && ltb 0 size then size else n

transferred_at : ℕ → ℤ → Option FileEntry → TransferModel → TransferModel
transferred_at row bytes none m = m
transferred_at row bytes (some f) m =
    let counted = clamp_bytes bytes f.size in
    if counted == f.transferred
    then m
    else touch row (record m {
      files = modify m.files row (λ g. record g { transferred = counted });
      transferred_bytes = m.transferred_bytes + counted - f.transferred;
    })

unfoldable pub set_file_transferred : ℕ → ℤ → TransferModel → TransferModel
unfolding transferred_at
set_file_transferred row bytes m = transferred_at row bytes (get_elem? m.files row) m

unfoldable pub transferred_paths : List FileEntry → List Text
transferred_paths [] = []
transferred_paths (f ∷ fs) =
    if is_done f.status && not (is_empty f.local_path)
    then f.local_path ∷ transferred_paths fs
    else transferred_paths fs
