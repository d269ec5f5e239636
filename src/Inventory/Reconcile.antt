-- ===== src/Inventory/Reconcile.antt =====
-- The reconciliation of camadmiral/inventory.py: the matching of observations with the devices
-- that were known, what becomes of those that were not observed, the order, and the summary.
use reefy_camadmiral.Prelude.{
  ℕ, suc, ◌+◌, String, Bool, true, false, not, ◌&&◌, Option, none, some, List, [], ◌∷◌, length, any,
  tally, str_eq, ◌==◌, if◌then◌else◌,
}
use reefy_camadmiral.Prelude.Dict.{get, put, pop}
use reefy_camadmiral.Json.{Value, null, number, text, is_given}
use reefy_camadmiral.Inventory.{
  Device, Python, Key, key_eq, member, nth, get_or, merge, set_default, or_else, or_null,
  str_or_empty, mac_key, onvif_key, stable_keys, collect, owners_of,
}

-- `merged[field] = previous[field]` for a field that only the previous device gives
unfoldable pub carry : Device → Device → Device → String → Device
carry previous current merged name =
    if not (is_given (get current name)) && is_given (get previous name)
    then put merged name (or_null (get previous name))
    else merged

-- `a == b` of texts or null, which a missing field reads as
abbrev same_value : Value → Value → Bool
same_value null null = true
same_value (text s) (text r) = str_eq s r
same_value _ _ = false

abbrev same : Option Value → Option Value → Bool
same a b = same_value (or_null a) (or_null b)

abbrev keep_name : Device → Device → Device → Device
keep_name previous current merged =
    if same (get current "display_name") (get current "ip")
      && is_given (get previous "display_name")
    then put merged "display_name" (or_null (get previous "display_name"))
    else merged

unfoldable pub same_address : Device → Device → Device → Device
same_address previous current merged =
    if same (get previous "ip") (get current "ip")
    then keep_name previous current
        (carry previous current (carry previous current merged "onvif") "rtsp")
    else merged

-- `x or y or str(uuid.uuid4())`
abbrev pub identify : Python → ℕ → Option Value → Value
identify py n v = if is_given v then or_null v else text (py.uuid4 n)

-- `merged.update({...})` of `_merge_online`
unfoldable pub mark_online : Device → Value → Value → Value → Device
mark_online merged uuid first_seen seen_at =
    put
      (put
        (put
          (put
            (put (put (put merged "candidate_uuid" uuid) "status" (text "online")) "first_seen"
              first_seen)
            "last_seen" seen_at)
          "last_service_seen" seen_at)
        "service_status" (text "available"))
      "missed_scans" (number 0)

unfoldable pub merge_online : Python → ℕ → Option Device → Device → Value → Device
merge_online py n none current seen_at =
    mark_online (pop (merge [] current) "ignored") (identify py n (get current "candidate_uuid"))
      seen_at seen_at
merge_online py n (some previous) current seen_at =
    let merged = pop (merge previous current) "ignored" in
    let merged = if length previous == 0 then merged else same_address previous current merged in
    mark_online merged
      (identify py n (or_else (get previous "candidate_uuid") (get current "candidate_uuid")))
      (get_or (get previous "first_seen") seen_at) seen_at

-- `current_stable_counts[key]`
unfoldable pub stable_count : Python → List Device → Key → ℕ
stable_count py [] k = 0
stable_count py (d ∷ devices) k = tally (key_eq k) (stable_keys py d) + stable_count py devices k

-- `stable_index.get(key)`: the one previous device that has the key, if one observation has it.
abbrev pub only : List ℕ → Option ℕ
only (i ∷ []) = some i
only _ = none

unfoldable pub stable_index : Python → List Device → List Device → Key → Option ℕ
stable_index py previous current k =
    if stable_count py current k == 1 then only (owners_of (collect py 0 previous []) k) else none

-- `ip_index.get(address)`: the first previous device with the address.
unfoldable pub ip_index : Python → ℕ → List Device → String → Option ℕ
ip_index py i [] address = none
ip_index py i (d ∷ devices) address =
    let own = str_or_empty py (get d "ip") in
    if not (str_eq own "") && str_eq own address
    then some i
    else ip_index py (suc i) devices address

-- `candidate is not None and candidate not in matched`
abbrev pub free : List ℕ → Option ℕ → Option ℕ
free matched none = none
free matched (some i) = if member i matched then none else some i

abbrev pub by_key : Python → List Device → List Device → List ℕ → Option Key → Option ℕ
by_key py previous current matched none = none
by_key py previous current matched (some k) = free matched (stable_index py previous current k)

-- `a` if it is there, else `b`
abbrev pub first_of : Option ℕ → Option ℕ → Option ℕ
first_of none b = b
first_of (some i) b = some i

unfoldable pub choose : Python → List Device → List Device → List ℕ → Device → Option ℕ
choose py previous current matched observation =
    first_of
      (first_of (by_key py previous current matched (onvif_key py observation))
        (by_key py previous current matched (mac_key py observation)))
      (if length (stable_keys py observation) == 0
        then free matched (ip_index py 0 previous (str_or_empty py (get observation "ip")))
        else none)

abbrev pub at : List Device → Option ℕ → Option Device
at previous none = none
at previous (some i) = nth previous i

-- `matched.add(previous_index)`
abbrev pub add : Option ℕ → List ℕ → List ℕ
add none matched = matched
add (some i) matched = i ∷ matched

-- The loop over the observations: what it appends to `reconciled`, and `matched`.
unfoldable pub match_all :
    Python → List Device → List Device → Value → ℕ → List ℕ → List Device → List Device × List ℕ
match_all py previous current seen_at n matched [] = ([], matched)
match_all py previous current seen_at n matched (observation ∷ rest) =
    let index = choose py previous current matched observation in
    let later = match_all py previous current seen_at (suc n) (add index matched) rest in
    (merge_online py n (at previous index) observation seen_at ∷ later.0, later.1)

abbrev pub count_missed : Option Value → ℕ
count_missed (some (number n)) = suc n
count_missed _ = 1

unfoldable pub network_only : Python → ℕ → Device → Value → Device
network_only py n old seen_at =
    set_default
      (put
        (put
          (put
            (put
              (put
                (put (pop old "ignored") "candidate_uuid"
                  (identify py n (get old "candidate_uuid")))
                "status" (text "online"))
              "service_status" (text "unavailable"))
            "last_seen" seen_at)
          "last_service_seen"
          (or_null (or_else (get old "last_service_seen") (get old "last_seen"))))
        "missed_scans" (number 0))
      "first_seen" (get_or (get old "last_seen") seen_at)

unfoldable pub offline : Python → ℕ → Device → Value → Device
offline py n old seen_at =
    set_default
      (set_default
        (put
          (put (put (pop old "ignored") "candidate_uuid" (identify py n (get old "candidate_uuid")))
            "status" (text "offline"))
          "missed_scans" (number (count_missed (get old "missed_scans"))))
        "first_seen" (get_or (get old "last_seen") seen_at))
      "last_seen" seen_at

abbrev pub is_reachable : Python → List String → Device → Bool
is_reachable py reachable old = any (λ a. str_eq a (str_or_empty py (get old "ip"))) reachable

-- The loop over the previous devices that no observation matched.
-- The `i`th of them draws its identifier after the `drawn` observations.
unfoldable pub unobserved :
    Python → ℕ → List String → Value → List ℕ → ℕ → List Device → List Device
unobserved py drawn reachable seen_at matched i [] = []
unobserved py drawn reachable seen_at matched i (old ∷ rest) =
    let later = unobserved py drawn reachable seen_at matched (suc i) rest in
    if member i matched
    then later
    else (if is_reachable py reachable old
        then network_only py (drawn + i) old seen_at
        else offline py (drawn + i) old seen_at)
      ∷ later
