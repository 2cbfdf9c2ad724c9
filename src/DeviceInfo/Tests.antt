-- ===== src/DeviceInfo/Tests.antt =====
-- src/deviceinfo.cpp, at concrete inputs.
use harbour_localsend.Common.{◌≡◌, refl, true, [], none, codes, pos, text_eq}
use harbour_localsend.Platform.{ascii}
use harbour_localsend.Protocol.{sanitize_text, strip, trimmed, trim_start, trim_end, is_stripped}
use harbour_localsend.DeviceInfo.{Payload, from_payload, IsShown, from_payload-IsShown}

abbrev nameless : Payload
nameless = record {
  alias = codes " <> ";
  version = codes "2.0";
  device_model = [];
  device_type = codes "mobile";
  fingerprint = codes "ab12";
  download = true;
  port = none;
  protocol = codes "gopher";
}

reading :
    ((from_payload ascii nameless).alias ≡ codes "Unknown device")
    × ((from_payload ascii nameless).port ≡ pos 53317)
    × ((from_payload ascii nameless).protocol ≡ codes "http")
unfolding from_payload sanitize_text strip trimmed trim_start trim_end is_stripped text_eq
reading = (refl, refl, refl)

from_payload-IsShown_example : IsShown ascii (from_payload ascii nameless)
from_payload-IsShown_example = from_payload-IsShown ascii nameless
