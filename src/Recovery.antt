-- ===== src/Recovery.antt =====
-- camadmiral/recovery.py: cameras that discovery finds at another address get their sources
-- rewritten. Times are milliseconds.
pub mod Validation
pub mod Planning
pub mod Applying
pub mod Store
pub mod Rollback
pub mod Spacing
mod Tests
use reefy_camadmiral.Prelude.{
  ◌*◌, ℕ, suc, ◌+◌, String, Bool, true, false, not, ◌&&◌, ◌||◌, Option, none, some, List, [], ◌∷◌,
  ◌++◌, map, any, all, keep, find_row, update_rows, str_eq, ◌==◌, leb, ltb, if◌then◌else◌,
}
use reefy_camadmiral.Prelude.Dict.{Dict, get}
use reefy_camadmiral.Json.{Value, is_given, get_field, fields}
use reefy_camadmiral.Inventory.{Device, Python, is_text, str_or_empty}
use reefy_camadmiral.Repository.{ProbeResult}

-- A stream of `adoption_map`; a missing URI is the empty text.
pub record AdoptedStream : Type 0 where
  pub profile_token : String
  pub stream_uuid : String
  pub uri : String
  pub enabled : Bool
  pub source_kind : Option String

pub record Adoption : Type 0 where
  pub camera_uuid : String
  pub candidate_uuid : Option Value
  pub camera_enabled : Bool
  pub streams : List AdoptedStream

-- What the code takes from `urllib.parse`: the host of a URI (`none` is a ValueError or no host),
-- its port as a text if it has one, and the URI with another network location and no fragment.
pub record Urls : Type 0 where
  pub hostname : String → Option String
  pub port : String → Option String
  pub with_netloc : String → String → String

abbrev pub fast_retry_interval : ℕ
fast_retry_interval = 10 * 1000

abbrev pub fast_retries : ℕ
fast_retries = 4

-- A row of ATTEMPTED_AT and of ATTEMPT_COUNTS, which are written and removed together.
pub record Attempt : Type 0 where
  pub attempt_camera : String
  pub attempt_address : String
  pub attempted_at : ℕ
  pub count : ℕ

unfoldable pub clear_attempts : String → List Attempt → List Attempt
clear_attempts camera attempts = keep (λ a. not (str_eq a.attempt_camera camera)) attempts

-- The attempts on cameras that are adopted no more are forgotten.
unfoldable pub forget_inactive : List (String × Adoption) → List Attempt → List Attempt
forget_inactive adoptions attempts =
    keep (λ a. any (λ adoption. str_eq adoption.1.camera_uuid a.attempt_camera) adoptions) attempts

abbrev pub is_attempt : String → String → Attempt → Bool
is_attempt camera address a = str_eq a.attempt_camera camera && str_eq a.attempt_address address

abbrev pub interval : ℕ → ℕ → ℕ
interval retry_interval count =
    if leb count fast_retries then fast_retry_interval else retry_interval

-- The attempt that is made now, or `none` where the last one is too recent.
unfoldable pub attempt : ℕ → String → String → ℕ → List Attempt → Option (List Attempt)
attempt retry_interval camera address now attempts =
    elim (find_row (is_attempt camera address) attempts) [
      | none ↦ some (
          attempts
          ++ record {
            attempt_camera = camera;
            attempt_address = address;
            attempted_at = now;
            count = 1;
          }
            ∷ [])
      | some last ↦
          if ltb now (last.attempted_at + interval retry_interval last.count)
          then none
          else some (
              update_rows (is_attempt camera address)
                (λ a. record a { attempted_at = now; count = a.count + 1 }) attempts)
    ]

unfoldable pub source_host : Urls → String → String
source_host urls uri = elim (urls.hostname uri) [ none ↦ "" | some host ↦ host ]

pub data Evidence : Type 0 where
  onvif_endpoint unique_mac : Evidence

unfoldable pub evidence_of : Device → Option Evidence
evidence_of candidate =
    if is_given (get_field (fields (get candidate "onvif")) "endpoint_reference")
    then some onvif_endpoint
    else if is_given (get candidate "mac")
    then some unique_mac
    else none

-- `previous_hosts`: the hosts of the enabled streams that have a URI, without the empty one.
unfoldable pub previous_hosts : Urls → List AdoptedStream → List String
previous_hosts urls streams =
    keep (λ host. not (str_eq host ""))
      (map (λ s. source_host urls s.uri) (keep (λ s. not (str_eq s.uri "") && s.enabled) streams))

-- The element of a set that has one.
unfoldable pub single : List String → Option String
single [] = none
single (host ∷ hosts) = if all (λ h. str_eq h host) hosts then some host else none

-- How a camera stands: passed over, where its sources say, or found elsewhere.
pub data Standing : Type 0 where
  passed_over at_home : Standing
  moved : (evidence : Evidence) (previous_address current_address : String) → Standing

abbrev stands_at : Evidence → String → Option String → Standing
stands_at evidence address none = passed_over
stands_at evidence address (some previous) =
    if str_eq address ""
    then passed_over
    else if str_eq previous address
    then at_home
    else moved evidence previous address

abbrev by_evidence : Python → Urls → Device → List AdoptedStream → Option Evidence → Standing
by_evidence py urls candidate streams none = passed_over
by_evidence py urls candidate streams (some evidence) =
    stands_at evidence (str_or_empty py (get candidate "ip")) (single (previous_hosts urls streams))

unfoldable pub standing : Python → Urls → Adoption → Option Device → Standing
standing py urls adoption none = passed_over
standing py urls adoption (some candidate) =
    if not adoption.camera_enabled
      || (not (is_text (get candidate "status") "online")
          || is_given (get candidate "identity_conflict"))
    then passed_over
    else by_evidence py urls candidate adoption.streams (evidence_of candidate)
