-- ===== src/Inventory/Counts/Totals.antt =====
-- The summary of an inventory after a scan (camadmiral/inventory.py).
use reefy_camadmiral.Prelude.{
  length-append, ℕ, ◌+◌, ◌≡◌, refl, Bool, true, not, List, [], ◌∷◌, ◌++◌, length, tally, arith,
  String,
}
use reefy_camadmiral.Json.{Value}
use reefy_camadmiral.Inventory.{Device, Python, annotate, annotate_identity_conflicts}
use reefy_camadmiral.Inventory.Reconcile.{match_all, unobserved, is_reachable}
use reefy_camadmiral.Inventory.Matching.{length-match_all}
use reefy_camadmiral.Inventory.Summary.{
  is_online, sorted, reconciled, reconcile_inventory, inventory_summary,
}
use reefy_camadmiral.Inventory.Counts.{
  tally-append_lists, tally-annotated, get-annotate, is_offline, online-match_all,
  offline-match_all, count_unmatched, online-unobserved, offline-unobserved, length-unobserved,
}

pub length-tally : (devices : List Device) → tally (λ _. true) devices ≡ length devices
length-tally [] = refl
length-tally (d ∷ devices) = omega (arith, length-tally devices)

pub online-annotate : (m o : Bool) (d : Device) → is_online (annotate m o d) ≡ is_online d
unfolding is_online
online-annotate m o d = rw (get-annotate m o d "status" refl refl) refl

pub offline-annotate : (m o : Bool) (d : Device) → is_offline (annotate m o d) ≡ is_offline d
unfolding is_offline
offline-annotate m o d = rw (get-annotate m o d "status" refl refl) refl

-- After a scan every device is counted either as online or as offline: online are the observed
-- ones and those of the unmatched ones whose address answered, offline the other unmatched ones.
pub summary-reconcile :
    (py : Python) (previous current : List Device) (seen_at : Value) (reachable : List String)
    → let result = inventory_summary (reconcile_inventory py previous current seen_at reachable) in
      let matched = (match_all py previous current seen_at 0 [] current).1 in
      (result.online
        ≡ length current + count_unmatched (is_reachable py reachable) matched 0 previous)
      × (result.offline
          ≡ count_unmatched (λ d. not (is_reachable py reachable d)) matched 0 previous)
      × (result.devices ≡ result.online + result.offline)
unfolding inventory_summary reconcile_inventory reconciled is_offline
summary-reconcile py previous current seen_at reachable = (
  omega (arith, online_count, tally-append_lists is_online observed rest, seen, online_rest),
  omega (arith, offline_count, tally-append_lists is_offline observed rest, unseen, offline_rest),
  omega (
    arith,
    all_count,
    online_count,
    offline_count,
    tally-append_lists is_online observed rest,
    seen,
    online_rest,
    tally-append_lists is_offline observed rest,
    unseen,
    offline_rest,
    length-tally (observed ++ rest),
    length-append observed rest,
    length_rest,
    length_observed,
    length-tally (sorted py (annotate_identity_conflicts py (observed ++ rest))),
  ),
)
  where
    observed : List Device
    observed = (match_all py previous current seen_at 0 [] current).0

    matched : List ℕ
    matched = (match_all py previous current seen_at 0 [] current).1

    rest : List Device
    rest = unobserved py (length current) reachable seen_at matched 0 previous

    seen : tally is_online observed ≡ length current
    seen = online-match_all py previous current seen_at 0 [] current

    unseen : tally is_offline observed ≡ 0
    unseen = offline-match_all py previous current seen_at 0 [] current

    online_rest :
        tally is_online rest ≡ count_unmatched (is_reachable py reachable) matched 0 previous
    online_rest = online-unobserved py (length current) reachable seen_at matched 0 previous

    offline_rest :
        tally is_offline rest
        ≡ count_unmatched (λ d. not (is_reachable py reachable d)) matched 0 previous
    offline_rest = offline-unobserved py (length current) reachable seen_at matched 0 previous

    length_rest :
        length rest
        ≡ count_unmatched (is_reachable py reachable) matched 0 previous
          + count_unmatched (λ d. not (is_reachable py reachable d)) matched 0 previous
    length_rest = length-unobserved py (length current) reachable seen_at matched 0 previous

    length_observed : length observed ≡ length current
    length_observed = length-match_all py previous current seen_at 0 [] current

    online_count :
        tally is_online (sorted py (annotate_identity_conflicts py (observed ++ rest)))
        ≡ tally is_online (observed ++ rest)
    online_count = tally-annotated is_online py online-annotate (observed ++ rest)

    offline_count :
        tally is_offline (sorted py (annotate_identity_conflicts py (observed ++ rest)))
        ≡ tally is_offline (observed ++ rest)
    offline_count = tally-annotated is_offline py offline-annotate (observed ++ rest)

    all_count :
        tally (λ _. true) (sorted py (annotate_identity_conflicts py (observed ++ rest)))
        ≡ tally (λ _. true) (observed ++ rest)
    all_count = tally-annotated (λ _. true) py (λ m o d. refl) (observed ++ rest)
