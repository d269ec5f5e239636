-- ===== src/Repository/Blocked/Tests.antt =====
-- A camera that is blocked by its MAC address, and again with its ONVIF identity.
use reefy_camadmiral.Prelude.{◌≡◌, ◌≢◌, refl, none, some, [], ◌∷◌, arith}
use reefy_camadmiral.Prelude.Dict.{get}
use reefy_camadmiral.Json.{no_fields, field, object, text}
use reefy_camadmiral.Inventory.{Device, Python}
use reefy_camadmiral.Repository.Blocked.{
  BlockedDevice, unasserted, blocked, block_candidate, write_block, written, asserted, upsert,
  row_of, renewed, is_match, candidate_stable_identity, blocked_device_for_candidate,
  unblock_device,
}
use reefy_camadmiral.Repository.Blocked.Table.{IsUnique}
use reefy_camadmiral.Repository.Blocked.Unique.{
  rows_after, block_candidate-IsUnique, blocked_is_found, unblocked_is_free,
}

abbrev py : Python
py = record {
  normal = λ s. s;
  lower = λ s. s;
  show = λ v. "?";
  uuid4 = λ n. "u";
  ipv4_network = λ s. none;
  ipv4_address = λ s. none;
}

abbrev camera : Device
camera =
    ("mac", text "aa")
    ∷ ("onvif", object (field "endpoint_reference" (text "urn:1") no_fields))
    ∷ ("ip", text "10.0.0.2")
    ∷ []

abbrev by_mac : BlockedDevice
by_mac = record {
  block_uuid = "b";
  candidate_uuid = none;
  onvif_identity = none;
  mac = some "aa";
  display_name = "Door";
  last_ip = none;
  blocked_at = 1;
  updated_at = 1;
}

-- The row of the MAC address is renewed.
abbrev by_both : BlockedDevice
by_both = record by_mac {
  onvif_identity = some "urn:1";
  display_name = "10.0.0.2";
  last_ip = some "10.0.0.2";
  updated_at = 9;
}

blocked_run : block_candidate py "u" 9 camera (by_mac ∷ []) ≡ blocked by_both (by_both ∷ [])
unfolding block_candidate write_block written asserted upsert row_of renewed is_match get
    candidate_stable_identity blocked_device_for_candidate
blocked_run = refl

by_mac-IsUnique : IsUnique (by_mac ∷ [])
by_mac-IsUnique = record {
  one_uuid = λ s. ground arith;
  one_onvif = λ s. ground arith;
  one_mac = λ s. ground arith;
}

constraints_example :
    IsUnique (rows_after (by_mac ∷ []) (block_candidate py "u" 9 camera (by_mac ∷ [])))
constraints_example = block_candidate-IsUnique py "u" 9 camera (by_mac ∷ []) by_mac-IsUnique

found_example : block_candidate py "u" 9 camera (by_mac ∷ []) ≢ unasserted (by_mac ∷ [])
found_example = blocked_is_found py "u" 9 camera (by_mac ∷ []) (by_mac ∷ []) by_mac-IsUnique

unblocked_example :
    blocked_device_for_candidate py camera (unblock_device "b" (by_mac ∷ [])).1 ≡ none
unfolding blocked_device_for_candidate is_match candidate_stable_identity get
unblocked_example = unblocked_is_free py camera (by_mac ∷ []) by_mac refl
