-- ===== src/Repository/Blocked.antt =====
-- The blocked devices of camadmiral/storage.py: `blocked_device_for_candidate`, `block_candidate`
-- and `unblock_device`. A candidate is a device of the inventory, whose `onvif` is a dictionary
-- where it is given. A call is one transaction.
pub mod Table
pub mod Unique
mod Tests
use reefy_camadmiral.Prelude.{
  ℕ, String, Bool, true, false, not, ◌&&◌, ◌||◌, Option, none, some, List, [], ◌∷◌, ◌++◌, any, keep,
  update_rows, str_eq, if◌then◌else◌,
}
use reefy_camadmiral.Prelude.Dict.{get}
use reefy_camadmiral.Json.{Value, truthy, is_given, get_field, fields}
use reefy_camadmiral.Media.{as_str}
use reefy_camadmiral.Inventory.{Device, Python}

pub record BlockedDevice : Type 0 where
  pub block_uuid : String
  pub candidate_uuid : Option String
  pub onvif_identity : Option String
  pub mac : Option String
  pub display_name : String
  pub last_ip : Option String
  pub blocked_at : ℕ
  pub updated_at : ℕ

-- `s or None`
abbrev some_text : String → Option String
some_text s = if str_eq s "" then none else some s

-- `str(v or "")`
abbrev text_of : Python → Option Value → String
text_of py none = ""
text_of py (some v) = if truthy v then as_str py.show v else ""

unfoldable pub candidate_stable_identity : Python → Device → Option String × Option String
candidate_stable_identity py candidate = (
  some_text
      (py.normal (text_of py (get_field (fields (get candidate "onvif")) "endpoint_reference"))),
  some_text (py.normal (text_of py (get candidate "mac"))),
)

-- `column = ?`, which no row satisfies where either is NULL
abbrev pub is_equal : Option String → Option String → Bool
is_equal (some a) (some b) = str_eq a b
is_equal _ _ = false

unfoldable pub is_match : Option String × Option String → BlockedDevice → Bool
is_match identity row = is_equal row.onvif_identity identity.0 || is_equal row.mac identity.1

-- More than one row is none.
abbrev pub single : List BlockedDevice → Option BlockedDevice
single [] = none
single (row ∷ []) = some row
single (row ∷ other ∷ rows) = none

unfoldable pub blocked_device_for_candidate :
    Python → Device → List BlockedDevice → Option BlockedDevice
blocked_device_for_candidate py candidate rows =
    single (keep (is_match (candidate_stable_identity py candidate)) rows)

abbrev pub has_uuid : String → BlockedDevice → Bool
has_uuid uuid row = str_eq row.block_uuid uuid

-- `COALESCE(new, old)`
abbrev pub coalesce : Option String → Option String → Option String
coalesce none old = old
coalesce (some s) old = some s

unfoldable pub renewed : BlockedDevice → BlockedDevice → BlockedDevice
renewed excluded row = record row {
  candidate_uuid = excluded.candidate_uuid;
  onvif_identity = coalesce excluded.onvif_identity row.onvif_identity;
  mac = coalesce excluded.mac row.mac;
  display_name = excluded.display_name;
  last_ip = excluded.last_ip;
  updated_at = excluded.updated_at;
}

-- `INSERT … ON CONFLICT(block_uuid) DO UPDATE`
unfoldable pub upsert : BlockedDevice → List BlockedDevice → List BlockedDevice
upsert row rows =
    if any (has_uuid row.block_uuid) rows
    then update_rows (has_uuid row.block_uuid) (renewed row) rows
    else rows ++ row ∷ []

abbrev first_given : String → String → String → String
first_given a b c = if str_eq a "" then (if str_eq b "" then c else b) else a

-- The row that is written, under the identifier that was found or a new one.
unfoldable pub row_of : Python → ℕ → Device → String → BlockedDevice
row_of py now candidate uuid = record {
  block_uuid = uuid;
  candidate_uuid = some_text (text_of py (get candidate "candidate_uuid"));
  onvif_identity = (candidate_stable_identity py candidate).0;
  mac = (candidate_stable_identity py candidate).1;
  display_name =
      first_given (text_of py (get candidate "display_name")) (text_of py (get candidate "ip"))
        "Blocked device";
  last_ip = some_text (text_of py (get candidate "ip"));
  blocked_at = now;
  updated_at = now;
}

-- The three ValueErrors, the AssertionError after the commit, and what is returned.
pub data Blocking : Type 0 where
  conflicting unstable ambiguous : Blocking
  unasserted : List BlockedDevice → Blocking
  blocked : BlockedDevice → List BlockedDevice → Blocking

-- `blocked = self.blocked_device_for_candidate(candidate)`, `assert blocked is not None`
unfoldable pub asserted : Option BlockedDevice → List BlockedDevice → Blocking
asserted none rows = unasserted rows
asserted (some row) rows = blocked row rows

unfoldable pub written : Python → ℕ → Device → List BlockedDevice → String → Blocking
written py now candidate rows uuid =
    let after = upsert (row_of py now candidate uuid) rows in
    asserted (blocked_device_for_candidate py candidate after) after

-- By the rows that match.
unfoldable pub write_block :
    Python → String → ℕ → Device → List BlockedDevice → List BlockedDevice → Blocking
write_block py fresh now candidate rows [] = written py now candidate rows fresh
write_block py fresh now candidate rows (row ∷ []) = written py now candidate rows row.block_uuid
write_block py fresh now candidate rows (row ∷ other ∷ matches) = ambiguous

abbrev pub is_none : Option String → Bool
is_none none = true
is_none (some _) = false

unfoldable pub block_candidate : Python → String → ℕ → Device → List BlockedDevice → Blocking
block_candidate py fresh now candidate rows =
    let identity = candidate_stable_identity py candidate in
    if is_given (get candidate "identity_conflict")
    then conflicting
    else if is_none identity.0 && is_none identity.1
    then unstable
    else write_block py fresh now candidate rows (keep (is_match identity) rows)

-- `DELETE … WHERE block_uuid = ?`
unfoldable pub unblock_device : String → List BlockedDevice → Bool × List BlockedDevice
unblock_device uuid rows = (any (has_uuid uuid) rows, keep (λ row. not (has_uuid uuid row)) rows)
