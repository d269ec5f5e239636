-- ===== src/Inventory/Identity.antt =====
-- What a scan keeps of a device (camadmiral/inventory.py).
use reefy_camadmiral.Prelude.{
  ℕ, ◌+◌, ◌≡◌, refl, Bool, true, not, Option, none, some, List, ◌++◌, String, tally, keep, arith,
}
use reefy_camadmiral.Prelude.Dict.{get, get-put}
use reefy_camadmiral.Json.{Value, is_given}
use reefy_camadmiral.Inventory.{Device, Python, annotate}
use reefy_camadmiral.Inventory.Reconcile.{
  identify, mark_online, merge_online, network_only, offline,
}
use reefy_camadmiral.Inventory.Summary.{is_targeted, reconcile_inventory, rescan}
use reefy_camadmiral.Inventory.Counts.{get-set_default, tally-annotated, tally-append_lists}

identify-given :
    (py : Python) (n : ℕ) (o : Option Value) → is_given o ≡ true → some (identify py n o) ≡ o
identify-given py n none h = cc
identify-given py n (some v) h = rw h refl

uuid-mark_online :
    (merged : Device) (uuid first_seen seen_at : Value)
    → get (mark_online merged uuid first_seen seen_at) "candidate_uuid" ≡ some uuid
unfolding mark_online
uuid-mark_online merged uuid first_seen seen_at = simp (get-put) refl

first-mark_online :
    (merged : Device) (uuid first_seen seen_at : Value)
    → get (mark_online merged uuid first_seen seen_at) "first_seen" ≡ some first_seen
unfolding mark_online
first-mark_online merged uuid first_seen seen_at = simp (get-put) refl

uuid-merge_online :
    (py : Python) (n : ℕ) (old current : Device) (seen_at : Value)
    → is_given (get old "candidate_uuid") ≡ true
    → get (merge_online py n (some old) current seen_at) "candidate_uuid" ≡ get old "candidate_uuid"
unfolding merge_online
uuid-merge_online py n old current seen_at h =
    rw (uuid-mark_online _ _ _ seen_at) (rw h (identify-given py n (get old "candidate_uuid") h))

uuid-network_only :
    (py : Python) (n : ℕ) (old : Device) (seen_at : Value)
    → is_given (get old "candidate_uuid") ≡ true
    → get (network_only py n old seen_at) "candidate_uuid" ≡ get old "candidate_uuid"
unfolding network_only
uuid-network_only py n old seen_at h =
    rw (get-set_default _ "first_seen" "candidate_uuid" _ refl)
      (simp (get-put) (identify-given py n (get old "candidate_uuid") h))

uuid-offline :
    (py : Python) (n : ℕ) (old : Device) (seen_at : Value)
    → is_given (get old "candidate_uuid") ≡ true
    → get (offline py n old seen_at) "candidate_uuid" ≡ get old "candidate_uuid"
unfolding offline
uuid-offline py n old seen_at h = rw (get-set_default _ "last_seen" "candidate_uuid" seen_at refl) (
    rw (get-set_default _ "first_seen" "candidate_uuid" _ refl)
      (simp (get-put) (identify-given py n (get old "candidate_uuid") h)))

-- A device that has an identifier keeps it, whether an observation matches it, only its address
-- answers, or nothing does.
pub identifier_survives :
    (py : Python) (n : ℕ) (old current : Device) (seen_at : Value)
    → is_given (get old "candidate_uuid") ≡ true
    → (get (merge_online py n (some old) current seen_at) "candidate_uuid"
        ≡ get old "candidate_uuid")
      × (get (network_only py n old seen_at) "candidate_uuid" ≡ get old "candidate_uuid")
      × (get (offline py n old seen_at) "candidate_uuid" ≡ get old "candidate_uuid")
identifier_survives py n old current seen_at h = (
  uuid-merge_online py n old current seen_at h,
  uuid-network_only py n old seen_at h,
  uuid-offline py n old seen_at h,
)

-- The rescan of some subnets adds and drops nothing outside of them: by any test that the
-- annotation of conflicts does not change, it leaves as many devices as are out of its scope and
-- as a scan of those in scope leaves.
pub tally-rescan :
    (test : Device → Bool) (py : Python) (previous current : List Device) (seen_at : Value)
    (reachable : List String) (ns : List (ℕ × ℕ))
    → ((m o : Bool) (d : Device) → test (annotate m o d) ≡ test d)
    → tally test (rescan py previous current seen_at reachable ns)
      ≡ tally test (keep (λ d. not (is_targeted py ns current d)) previous)
        + tally test (
            reconcile_inventory py
              (keep (is_targeted py ns current) previous)
              current
              seen_at
              reachable)
unfolding rescan
tally-rescan test py previous current seen_at reachable ns unseen =
    let untouched = keep (λ d. not (is_targeted py ns current d)) previous in
    let scanned =
      reconcile_inventory py (keep (is_targeted py ns current) previous) current seen_at
        reachable in
    omega (
      arith,
      tally-annotated test py unseen (untouched ++ scanned),
      tally-append_lists test untouched scanned,
    )
