-- ===== src/Inventory.antt =====
-- camadmiral/inventory.py: what a scan observed is merged with the devices that were known.
-- A device is the dictionary that the code keeps, `onvif` is a dictionary where it is given, and
-- `missed_scans` an integer that is not negative; `ip`, `display_name` and `status` are texts or null.
pub mod Counts
pub mod Identity
pub mod Matching
pub mod Reconcile
pub mod Summary
pub mod Scope
mod Tests
use reefy_camadmiral.Prelude.{
  ℕ, zero, suc, ◌+◌, ◌-◌, ◌*◌, ◌/◌, ◌^◌, String, Bool, true, false, not, ◌&&◌, ◌||◌, Option, none,
  some, List, [], ◌∷◌, ◌++◌, map, length, any, keep, tally, str_eq, ◌==◌, leb, ltb, if◌then◌else◌,
}
use reefy_camadmiral.Prelude.Dict.{Dict, get, put, pop, has}
use reefy_camadmiral.Json.{Value, null, flag, number, text, truthy, is_given, get_field, fields}

abbrev pub Device : Type 0
Device = Dict Value

-- What the code takes from Python: `str.strip` with `str.lower`, `str.lower`, `str` of a value
-- that is not a text, the `n`th `str(uuid.uuid4())`, and the two parsers of `ipaddress`.
pub record Python : Type 0 where
  pub normal : String → String
  pub lower : String → String
  pub show : Value → String
  pub uuid4 : ℕ → String
  pub ipv4_network : String → Option (ℕ × ℕ)
  pub ipv4_address : String → Option ℕ

-- A stable key is "mac:" or "onvif:" with what follows.
pub data Key : Type 0 where
  mac onvif : String → Key

unfoldable pub key_eq : Key → Key → Bool
key_eq (mac a) (mac b) = str_eq a b
key_eq (onvif a) (onvif b) = str_eq a b
key_eq _ _ = false

abbrev pub member : ℕ → List ℕ → Bool
member i indices = any (λ j. j == i) indices

abbrev nth {ℓ} : {A : Type ℓ} → List A → ℕ → Option A
nth [] i = none
nth (x ∷ xs) zero = some x
nth (x ∷ xs) (suc i) = nth xs i

-- `d.get(k, v)`
abbrev get_or : Option Value → Value → Value
get_or none v = v
get_or (some w) v = w

-- `{**a, **b}`
unfoldable pub merge : Device → Device → Device
merge a [] = a
merge a ((k, v) ∷ b) = merge (put a k v) b

-- `d.setdefault(k, v)`
abbrev set_default : Device → String → Value → Device
set_default d k v = if has d k then d else put d k v

-- `a or b` of two values that are read
abbrev pub or_else : Option Value → Option Value → Option Value
or_else a b = if is_given a then a else b

abbrev or_null : Option Value → Value
or_null none = null
or_null (some v) = v

-- `device.get("status") == word`
abbrev pub is_text : Option Value → String → Bool
is_text (some (text s)) word = str_eq s word
is_text _ word = false

-- `str(v)`
abbrev as_str : Python → Value → String
as_str py (text s) = s
as_str py v = py.show v

-- `str(v or "")`
unfoldable pub str_or_empty : Python → Option Value → String
str_or_empty py none = ""
str_or_empty py (some v) = if truthy v then as_str py v else ""

unfoldable pub mac_key : Python → Device → Option Key
mac_key py device =
    let address = py.normal (str_or_empty py (get device "mac")) in
    if str_eq address "" then none else some (mac address)

unfoldable pub onvif_key : Python → Device → Option Key
onvif_key py device =
    let reference =
      py.normal (str_or_empty py (get_field (fields (get device "onvif")) "endpoint_reference")) in
    if str_eq reference "" then none else some (onvif reference)

abbrev one_key : Option Key → List Key
one_key none = []
one_key (some k) = k ∷ []

unfoldable pub stable_keys : Python → Device → List Key
stable_keys py device = one_key (mac_key py device) ++ one_key (onvif_key py device)

-- `owners[key].append(index)` for every key of a device
abbrev pub Owners : Type 0
Owners = List (Key × List ℕ)

unfoldable pub add_owner : Owners → Key → ℕ → Owners
add_owner [] k i = (k, i ∷ []) ∷ []
add_owner ((j, indices) ∷ owners) k i =
    let rest = add_owner owners k i in
    if key_eq j k then (j, indices ++ i ∷ []) ∷ owners else (j, indices) ∷ rest

abbrev add_keys : Owners → List Key → ℕ → Owners
add_keys owners [] i = owners
add_keys owners (k ∷ keys) i = add_keys (add_owner owners k i) keys i

unfoldable pub collect : Python → ℕ → List Device → Owners → Owners
collect py i [] owners = owners
collect py i (d ∷ devices) owners =
    collect py (suc i) devices (add_keys owners (stable_keys py d) i)

unfoldable pub owners_of : Owners → Key → List ℕ
owners_of [] k = []
owners_of ((j, indices) ∷ owners) k = if key_eq j k then indices else owners_of owners k

-- What is in `set(conflicts[index])`: the label "MAC address", and the label "ONVIF identity".
abbrev is_mac : Key → Bool
is_mac (mac _) = true
is_mac (onvif _) = false

unfoldable pub has_label : (Key → Bool) → Owners → ℕ → Bool
has_label sort owners i =
    any (λ entry. sort entry.0 && (ltb 1 (length entry.1) && member i entry.1)) owners

-- `"Duplicate " + " and ".join(sorted(labels))`
abbrev reason : Bool → Bool → String
reason true true = "Duplicate MAC address and ONVIF identity"
reason true false = "Duplicate MAC address"
reason false _ = "Duplicate ONVIF identity"

unfoldable pub annotate : Bool → Bool → Device → Device
annotate by_mac by_onvif device =
    let marked = put device "identity_conflict" (flag (by_mac || by_onvif)) in
    if by_mac || by_onvif
    then put marked "identity_conflict_reason" (text (reason by_mac by_onvif))
    else pop marked "identity_conflict_reason"

unfoldable pub annotate_from : Owners → ℕ → List Device → List Device
annotate_from owners i [] = []
annotate_from owners i (d ∷ devices) =
    annotate (has_label is_mac owners i) (has_label (λ k. not (is_mac k)) owners i) d
    ∷ annotate_from owners (suc i) devices

unfoldable pub annotate_identity_conflicts : Python → List Device → List Device
annotate_identity_conflicts py devices = annotate_from (collect py 0 devices []) 0 devices
