-- ===== src/ReceiveService/State.antt =====
-- src/receiveservice.h: the state of the service. A connection is a number; `answers` lists what was
-- answered to whom, the last answer first; `disk` maps the path of each file to its bytes;
-- `registered` lists the introductions handed to the device list. Timers are flags that say whether
-- they run, and random tokens are taken from a supply, of which `drawn` counts the used ones.
use harbour_localsend.Common.{
  ℕ, Bool, true, false, List, [], ◌∷◌, Option, none, some, exists, ◌==◌, if◌then◌else◌, Text,
  contains,
}
use harbour_localsend.AppSettings.{AppSettings}
use harbour_localsend.DeviceInfo.{DeviceInfo, Payload}
use harbour_localsend.HistoryModel.{HistoryModel}
use harbour_localsend.KnownDevices.{KnownDevices}
use harbour_localsend.RateLimiter.{RateLimiter}
use harbour_localsend.TransferModel.{TransferModel, FileEntry, new_file}

-- An answer: its status, and for an accepted request the session and the tokens of the files.
pub record Answer : Type 0 where
  pub status : ℕ
  pub session : Text
  pub tokens : List (Text × Text)

abbrev pub plain : ℕ → Answer
plain status = record { status = status; session = []; tokens = [] }

-- The parked prepare-upload.
pub record Pending : Type 0 where
  pub conn : ℕ
  pub peer_address : Text

-- One file being written; `limit` is what `streamBodyTo` was given, `received` what was written.
pub record Upload : Type 0 where
  pub row : ℕ
  pub part_path : Text
  pub final_path : Text
  pub limit : ℕ
  pub received : ℕ

pub record Service : Type 0 where
  pub settings : AppSettings
  pub transfer : TransferModel
  pub known : Option KnownDevices
  pub history : HistoryModel
  pub pin_attempts : RateLimiter
  pub pending : Option Pending
  pub peer : DeviceInfo
  pub session_id : Text
  pub session_address : Text
  pub session_directory : Text
  pub tokens : List (Text × Text)
  pub uploads : List (ℕ × Upload)
  pub accept_running : Bool
  pub idle_running : Bool
  pub listening : Bool
  pub disk : List (Text × Text)
  pub answers : List (ℕ × Answer)
  pub registered : List (Payload × Text)
  pub drawn : ℕ

-- What the system around the service decides: the random tokens, and whether a directory can be
-- written to, a file opened and a file renamed.
pub record Env : Type 0 where
  pub random : ℕ → Text
  pub can_write : Text → Bool
  pub can_open : Text → Bool
  pub can_rename : Text → Bool

abbrev pub is_some {ℓ} : {A : Type ℓ} → Option A → Bool
is_some none = false
is_some (some a) = true

abbrev pub has_answered : ℕ → List (ℕ × Answer) → Bool
has_answered conn answers = exists (λ b. b.0 == conn) answers

-- HttpConnection::respond: a connection is answered once.
unfoldable pub answer : ℕ → Answer → Service → Service
answer conn a s =
    if has_answered conn s.answers then s else record s { answers = (conn, a) ∷ s.answers }

abbrev pub respond : ℕ → ℕ → Service → Service
respond conn status s = answer conn (plain status) s

abbrev pub answer_of : ℕ → List (ℕ × Answer) → Option Answer
answer_of conn [] = none
answer_of conn ((c, a) ∷ rest) = if c == conn then some a else answer_of conn rest

-- `m_uploads.find(connection)` and `m_uploads.erase(it)`
abbrev pub find_upload : ℕ → List (ℕ × Upload) → Option Upload
find_upload conn [] = none
find_upload conn ((c, u) ∷ rest) = if c == conn then some u else find_upload conn rest

abbrev pub erase_upload : ℕ → List (ℕ × Upload) → List (ℕ × Upload)
erase_upload conn [] = []
erase_upload conn ((c, u) ∷ rest) =
    if c == conn then erase_upload conn rest else (c, u) ∷ erase_upload conn rest

abbrev pub insert_upload : ℕ → Upload → List (ℕ × Upload) → List (ℕ × Upload)
insert_upload conn u uploads = (conn, u) ∷ erase_upload conn uploads

-- `m_transfer->entry(row)`; every row that the service asks for is one of the list.
abbrev pub entry_at : List FileEntry → ℕ → FileEntry
entry_at [] row = new_file
entry_at (f ∷ fs) ℕ.zero = f
entry_at (f ∷ fs) (ℕ.suc row) = entry_at fs row

abbrev pub exists_on : List (Text × Text) → Text → Bool
exists_on disk path = contains path disk
