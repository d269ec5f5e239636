-- ===== src/Inventory/Tests.antt =====
-- Scans of a small network, run through the inventory.
use reefy_camadmiral.Prelude.{
  ◌+◌, ◌≡◌, str_eq, if◌then◌else◌, refl, String, Option, some, List, [], ◌∷◌, map, length,
}
use reefy_camadmiral.Prelude.Dict.{get, pop, put}
use reefy_camadmiral.Json.{Value, number, text, object, field, no_fields}
use reefy_camadmiral.Inventory.{
  Device, Python, annotate, annotate_identity_conflicts, annotate_from, onvif_key, str_or_empty,
  mac_key, stable_keys, key_eq, owners_of, collect, add_owner, has_label, merge,
}
use reefy_camadmiral.Inventory.Reconcile.{
  unobserved, choose, stable_index, stable_count, carry, ip_index, mark_online, same_address,
  merge_online, network_only, offline, match_all,
}
use reefy_camadmiral.Inventory.Matching.Accounts.{reconciled-accounts}
use reefy_camadmiral.Inventory.Summary.{
  sorted, insert, before, is_online, reconciled, reconcile_inventory, inventory_summary, rescan,
}
use reefy_camadmiral.Inventory.Counts.{count_unmatched}
use reefy_camadmiral.Inventory.Counts.Totals.{summary-reconcile}
use reefy_camadmiral.Inventory.Identity.{identifier_survives}
use reefy_camadmiral.Inventory.Scope.{summary-rescan, is_outside}

abbrev plain : Python
plain = record {
  normal = λ s. s;
  lower = λ s. s;
  show = λ v. "?";
  uuid4 = λ n. "fresh";
  ipv4_network = λ s. some (256, 24);
  ipv4_address = λ s. some 300;
}

abbrev endpoint : String → Value
endpoint reference = object (field "endpoint_reference" (text reference) no_fields)

abbrev door : Device
door =
    ("ip", text "10.0.0.5")
    ∷ ("mac", text "aa")
    ∷ ("candidate_uuid", text "u1")
    ∷ ("missed_scans", number 2)
    ∷ ("status", text "online")
    ∷ []

abbrev yard : Device
yard =
    ("ip", text "10.0.0.6")
    ∷ ("onvif", endpoint "e6")
    ∷ ("candidate_uuid", text "u2")
    ∷ ("status", text "online")
    ∷ []

-- The door camera with another address.
abbrev moved : Device
moved = ("ip", text "10.0.0.9") ∷ ("mac", text "aa") ∷ []

abbrev copy_of_moved : Device
copy_of_moved = ("ip", text "10.0.0.10") ∷ ("mac", text "aa") ∷ []

abbrev scanned : List Device → List Device → String → List (Option Value)
scanned previous current name =
    map (λ d. get d name) (reconcile_inventory plain previous current (text "t") [])

-- A known device is found at its new address, the other one misses a scan; and of two
-- observations with one hardware address neither is taken for the device that was known.
scans_run :
    (scanned (door ∷ yard ∷ []) (moved ∷ []) "candidate_uuid"
      ≡ some (text "u1") ∷ some (text "u2") ∷ [])
    × (scanned (door ∷ yard ∷ []) (moved ∷ []) "missed_scans"
        ≡ some (number 0) ∷ some (number 1) ∷ [])
    × (scanned (door ∷ []) (moved ∷ copy_of_moved ∷ []) "identity_conflict_reason"
        ≡ some (text "Duplicate MAC address")
          ∷ some (text "Duplicate MAC address")
          ∷ some (text "Duplicate MAC address")
          ∷ [])
unfolding reconcile_inventory reconciled sorted annotate_identity_conflicts annotate_from match_all
    insert unobserved choose onvif_key str_or_empty get mac_key stable_index stable_count
    stable_keys key_eq owners_of collect carry ip_index mark_online merge_online network_only
    offline same_address before is_online add_owner annotate has_label merge pop put
scans_run = (refl, refl, refl)

accounts_example :
    length (reconciled plain (door ∷ yard ∷ []) (moved ∷ []) (text "t") [])
      + length (match_all plain (door ∷ yard ∷ []) (moved ∷ []) (text "t") 0 [] (moved ∷ [])).1
    ≡ 3
accounts_example = (reconciled-accounts plain (door ∷ yard ∷ []) (moved ∷ []) (text "t") []).1

summary_example :
    (inventory_summary (
      reconcile_inventory plain
        (door ∷ yard ∷ [])
        (moved ∷ [])
        (text "t")
        ("10.0.0.6" ∷ []))).devices
    ≡ (inventory_summary (
        reconcile_inventory plain
          (door ∷ yard ∷ [])
          (moved ∷ [])
          (text "t")
          ("10.0.0.6" ∷ []))).online
      + (inventory_summary (
          reconcile_inventory plain
            (door ∷ yard ∷ [])
            (moved ∷ [])
            (text "t")
            ("10.0.0.6" ∷ []))).offline
summary_example =
    (summary-reconcile plain (door ∷ yard ∷ []) (moved ∷ []) (text "t") ("10.0.0.6" ∷ [])).2

survives_example :
    (get (merge_online plain 0 (some door) moved (text "t")) "candidate_uuid" ≡ some (text "u1"))
    × (get (network_only plain 0 door (text "t")) "candidate_uuid" ≡ some (text "u1"))
    × (get (offline plain 0 door (text "t")) "candidate_uuid" ≡ some (text "u1"))
unfolding get
survives_example = identifier_survives plain 0 door moved (text "t") refl

-- The address of the yard camera lies outside of the scanned network.
abbrev zoned : Python
zoned = record plain { ipv4_address = λ s. if str_eq s "10.0.0.6" then some 600 else some 300 }

rescan_example :
    (inventory_summary (
      rescan zoned
        (door ∷ yard ∷ [])
        (moved ∷ [])
        (text "t")
        ("10.0.0.5" ∷ [])
        ((256, 24) ∷ []))).devices
    ≡ 2
unfolding is_outside stable_keys str_or_empty get key_eq mac_key onvif_key match_all choose
    stable_index stable_count carry ip_index mark_online same_address merge_online put pop merge
    count_unmatched owners_of collect add_owner
rescan_example =
    (summary-rescan zoned (door ∷ yard ∷ []) (moved ∷ []) (text "t") ("10.0.0.5" ∷ [])
      ((256, 24) ∷ [])).2
