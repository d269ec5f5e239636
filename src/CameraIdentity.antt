-- ===== src/CameraIdentity.antt =====
-- camadmiral/camera_identity.py: which observed device an adopted camera is, by the physical
-- identity that was confirmed for it. Devices are the dictionaries of the inventory.
pub mod Linking
mod Tests
use package.text.Mathlib.Text.{is_le}
use Prim.Native.String.{compare}
use reefy_camadmiral.Prelude.{
  String, Bool, true, false, not, ◌&&◌, ◌||◌, Option, none, some, List, [], ◌∷◌, any, keep, length,
  ltb, ◌==◌, str_eq, if◌then◌else◌,
}
use reefy_camadmiral.Prelude.Dict.{Dict, get}
use reefy_camadmiral.Json.{Value, null, text, is_given, get_field, fields}
use reefy_camadmiral.Inventory.{Device, Python, str_or_empty, or_else}

unfoldable pub physical_identity : Python → Device → String × String
physical_identity py candidate = (
  py.normal (str_or_empty py (get_field (fields (get candidate "onvif")) "endpoint_reference")),
  py.normal (str_or_empty py (get candidate "mac")),
)

-- `a and b` of texts, as a test
abbrev pub both : String → String → Bool
both a b = not (str_eq a "") && not (str_eq b "")

unfoldable pub same_identity : Python → Device → Device → Bool
same_identity py expected observed =
    let known = physical_identity py expected in
    let new = physical_identity py observed in
    if both known.0 new.0 then str_eq known.0 new.0 else both known.1 new.1 && str_eq known.1 new.1

abbrev pub values : Dict Device → List Device
values [] = []
values ((k, d) ∷ rest) = d ∷ values rest

-- `str(current.get('last_service_seen') or current.get('last_seen') or '') >= str(saved.get('last_seen') or '')`
unfoldable pub is_current : Python → Device → Device → Bool
is_current py saved current = is_le (
    compare (str_or_empty py (get saved "last_seen"))
      (str_or_empty py (or_else (get current "last_service_seen") (get current "last_seen"))))

unfoldable pub in_conflict : Device → Bool
in_conflict d = is_given (get d "identity_conflict")

abbrev pub newer_of : Python → Device → List Device → Device
newer_of py saved [] = saved
newer_of py saved (current ∷ _) = if is_current py saved current then current else saved

unfoldable pub matches : Python → Device → Dict Device → List Device
matches py saved candidates = keep (same_identity py saved) (values candidates)

unfoldable pub resolve : Python → Device → List Device → Option Device
resolve py saved found =
    if ltb 1 (length found) || any in_conflict found then none else some (newer_of py saved found)

-- `str(candidate_uuid or adoption.get('candidate_uuid'))`
abbrev as_str : Python → Option Value → String
as_str py (some (text s)) = s
as_str py (some v) = py.show v
as_str py none = py.show null

abbrev candidate_key : Python → Option String → Option Value → String
candidate_key py none own = as_str py own
candidate_key py (some given) own = if str_eq given "" then as_str py own else given

-- What `links.get(camera_uuid)` gives: nothing, or an empty dictionary, is no link.
abbrev link : Option Device → Option Device
link none = none
link (some saved) = if length saved == 0 then none else some saved

abbrev from_link : Python → Option Device → Dict Device → String → Option Device
from_link py none candidates key = get candidates key
from_link py (some saved) candidates key = resolve py saved (matches py saved candidates)

-- `linked_candidate`, of an adoption with its two identifiers.
unfoldable pub linked_candidate :
    Python → String → Option Value → Dict Device → Dict Device → Option String → Option Device
linked_candidate py camera_uuid own candidates links candidate_uuid =
    from_link py (link (get links camera_uuid)) candidates (candidate_key py candidate_uuid own)
