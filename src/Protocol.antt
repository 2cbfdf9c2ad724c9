-- ===== src/Protocol.antt =====
-- src/protocol.cpp: the constants and the filter that every text from the network goes through.
pub mod Sanitize
mod Tests
use harbour_localsend.Common.{
  ℕ, zero, suc, Bool, true, false, ◌&&◌, ◌||◌, List, [], ◌∷◌, is_empty, leb, ltb, ◌==◌,
  if◌then◌else◌, Text, codes, text_eq,
}
use harbour_localsend.Platform.{Platform}

abbrev pub default_port : ℕ
default_port = 53317

abbrev pub api_prefix : Text
api_prefix = codes "/api/localsend/v2"

abbrev pub path_info : Text
path_info = codes "/info"

abbrev pub path_register : Text
path_register = codes "/register"

abbrev pub path_prepare_upload : Text
path_prepare_upload = codes "/prepare-upload"

abbrev pub path_upload : Text
path_upload = codes "/upload"

abbrev pub path_cancel : Text
path_cancel = codes "/cancel"

abbrev pub path_legacy_info : Text
path_legacy_info = codes "/api/localsend/v1/info"

-- The characters that `sanitizeText` skips, in the order of its tests.
unfoldable pub is_stripped : ℕ → Bool
is_stripped c =
    ltb c 0x20
    || c == 0x7f
    || (leb 0x80 c && leb c 0x9f)
    || (leb 0x202a c && leb c 0x202e)
    || (leb 0x2066 c && leb c 0x2069)
    || (c == 0x200b || c == 0x200c || c == 0x200d || c == 0xfeff)
    || (c == b'<' || c == b'>')

-- The loop: `room` is what `maxLength` leaves for `clean`.
unfoldable pub strip : ℕ → Text → Text
strip room [] = []
strip zero (c ∷ t) = []
strip (suc room) (c ∷ t) = elim (is_stripped c) [
  | true ↦ strip (suc room) t
  | false ↦ c ∷ strip room t
]

module _ (q : Platform) where
  open q use {is_space}

  -- QString::trimmed
  unfoldable pub trim_start : Text → Text
  trim_start [] = []
  trim_start (c ∷ t) = if is_space c then trim_start t else c ∷ t

  unfoldable pub trim_end : Text → Text
  trim_end [] = []
  trim_end (c ∷ t) = let rest = trim_end t in if is_empty rest && is_space c then [] else c ∷ rest

  unfoldable pub trimmed : Text → Text
  unfolding trim_start trim_end
  trimmed t = trim_end (trim_start t)

  unfoldable pub sanitize_text : Text → ℕ → Text
  unfolding strip trimmed
  sanitize_text text max_length = trimmed (strip max_length text)
