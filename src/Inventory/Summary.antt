-- ===== src/Inventory/Summary.antt =====
-- `reconcile_inventory`, `reconcile_scanned_subnets` and `inventory_summary` of
-- camadmiral/inventory.py: the parts put together, the order of the result, and its counts.
use Prim.Native.String.{compare}
use text.Mathlib.Text.{is_le}
use reefy_camadmiral.Prelude.{
  ℕ, ◌-◌, ◌/◌, ◌^◌, String, Bool, false, not, ◌&&◌, ◌||◌, Option, none, some, List, [], ◌∷◌, ◌++◌,
  length, any, keep, tally, ◌==◌, if◌then◌else◌,
}
use reefy_camadmiral.Prelude.Dict.{get}
use reefy_camadmiral.Json.{Value, is_given}
use reefy_camadmiral.Inventory.{
  Device, Python, key_eq, is_text, str_or_empty, stable_keys, annotate_identity_conflicts, or_else,
}
use reefy_camadmiral.Inventory.Reconcile.{match_all, unobserved}

unfoldable pub is_online : Device → Bool
is_online device = is_text (get device "status") "online"

-- The key of the order: those that are not online last, then the name in lower case.
abbrev name_key : Python → Device → String
name_key py device =
    py.lower (str_or_empty py (or_else (get device "display_name") (get device "ip")))

unfoldable pub before : Python → Device → Device → Bool
before py a b =
    if is_online a
    then not (is_online b) || is_le (compare (name_key py a) (name_key py b))
    else not (is_online b) && is_le (compare (name_key py a) (name_key py b))

-- `sorted`, which keeps the order of equal elements
unfoldable pub insert : Python → Device → List Device → List Device
insert py d [] = d ∷ []
insert py d (e ∷ devices) =
    let rest = insert py d devices in if before py d e then d ∷ e ∷ devices else e ∷ rest

unfoldable pub sorted : Python → List Device → List Device
sorted py [] = []
sorted py (d ∷ devices) = insert py d (sorted py devices)

-- What `reconcile_inventory` annotates and sorts.
unfoldable pub reconciled : Python → List Device → List Device → Value → List String → List Device
reconciled py previous current seen_at reachable =
    let matching = match_all py previous current seen_at 0 [] current in
    matching.0 ++ unobserved py (length current) reachable seen_at matching.1 0 previous

unfoldable pub reconcile_inventory :
    Python → List Device → List Device → Value → List String → List Device
reconcile_inventory py previous current seen_at reachable =
    sorted py (annotate_identity_conflicts py (reconciled py previous current seen_at reachable))

infixl 5 ◌>>=◌
abbrev ◌>>=◌ {ℓ κ} : {A : Type ℓ} {B : Type κ} → Option A → (A → Option B) → Option B
none >>= f = none
some a >>= f = f a

-- `[ipaddress.IPv4Network(subnet, strict=False) for subnet in subnets]`, `none` where one raises
unfoldable pub networks : Python → List String → Option (List (ℕ × ℕ))
networks py [] = some []
networks py (subnet ∷ subnets) = do
  network ← py.ipv4_network subnet
  rest ← networks py subnets
  some (network ∷ rest)

-- `address in network`, of an address and a prefix's length
abbrev pub is_in : ℕ → ℕ × ℕ → Bool
is_in address (base, prefix) = address / 2 ^ (32 - prefix) == base / 2 ^ (32 - prefix)

abbrev pub in_networks : Option ℕ → List (ℕ × ℕ) → Bool
in_networks none ns = false
in_networks (some address) ns = any (is_in address) ns

-- `observed_keys.intersection(_stable_keys(device))`
abbrev pub is_observed : Python → List Device → Device → Bool
is_observed py current device =
    any (λ k. any (λ d. any (key_eq k) (stable_keys py d)) current) (stable_keys py device)

unfoldable pub is_targeted : Python → List (ℕ × ℕ) → List Device → Device → Bool
is_targeted py ns current device =
    in_networks (py.ipv4_address (str_or_empty py (get device "ip"))) ns
    || is_observed py current device

unfoldable pub rescan :
    Python → List Device → List Device → Value → List String → List (ℕ × ℕ) → List Device
rescan py previous current seen_at reachable ns =
    let targeted = keep (is_targeted py ns current) previous in
    let untouched = keep (λ d. not (is_targeted py ns current d)) previous in
    sorted py (
      annotate_identity_conflicts py
        (untouched ++ reconcile_inventory py targeted current seen_at reachable))

unfoldable pub reconcile_scanned_subnets :
    Python → List Device → List Device → Value → List String → List String → Option (List Device)
reconcile_scanned_subnets py previous current seen_at subnets reachable = do
  ns ← networks py subnets
  some (rescan py previous current seen_at reachable ns)

pub record InventorySummary : Type 0 where
  pub devices : ℕ
  pub online : ℕ
  pub offline : ℕ
  pub onvif : ℕ
  pub rtsp : ℕ
  pub services_unavailable : ℕ
  pub conflicts : ℕ

unfoldable pub inventory_summary : List Device → InventorySummary
inventory_summary items = record {
  devices = length items;
  online = tally is_online items;
  offline = tally (λ d. is_text (get d "status") "offline") items;
  onvif = tally (λ d. is_given (get d "onvif")) items;
  rtsp = tally (λ d. is_given (get d "rtsp")) items;
  services_unavailable =
      tally (λ d. is_online d && is_text (get d "service_status") "unavailable") items;
  conflicts = tally (λ d. is_given (get d "identity_conflict")) items;
}
