-- ===== src/Inventory/Counts.antt =====
-- What the counts of an inventory say after a scan (camadmiral/inventory.py).
pub mod Totals
use reefy_camadmiral.Prelude.{
  length-append, ℕ, suc, ◌+◌, ◌≡◌, refl, Bool, true, false, not, ◌&&◌, Option, none, some, List, [],
  ◌∷◌, ◌++◌, length, tally, arith, if◌then◌else◌, String, str_eq, Bool-cases, inl, inr,
}
use reefy_camadmiral.Prelude.Dict.{get, has, get-put, get-pop}
use reefy_camadmiral.Json.{Value, text}
use reefy_camadmiral.Inventory.{
  Device, Python, member, Owners, collect, annotate, annotate_from, annotate_identity_conflicts,
  has_label, is_mac, is_text, set_default,
}
use reefy_camadmiral.Inventory.Reconcile.{
  mark_online, merge_online, network_only, offline, match_all, unobserved, is_reachable, choose,
  add, at,
}
use reefy_camadmiral.Inventory.Matching.{length-match_all}
use reefy_camadmiral.Inventory.Summary.{
  is_online, insert, sorted, reconciled, reconcile_inventory, inventory_summary,
}

pub tally-append_lists :
    {A : Type 0} (test : A → Bool) (xs ys : List A)
    → tally test (xs ++ ys) ≡ tally test xs + tally test ys
tally-append_lists test [] ys = omega arith
tally-append_lists test (x ∷ xs) ys = omega (arith, tally-append_lists test xs ys)

module _ (test : Device → Bool) (py : Python) where
  tally-insert :
      (d : Device) (devices : List Device)
      → tally test (insert py d devices) ≡ tally test (d ∷ devices)
  unfolding insert
  tally-insert d [] = refl
  tally-insert d (e ∷ devices) = ground (arith, tally-insert d devices)

  pub tally-sorted : (devices : List Device) → tally test (sorted py devices) ≡ tally test devices
  unfolding sorted
  tally-sorted [] = refl
  tally-sorted (d ∷ devices) =
      omega (arith, tally-insert d (sorted py devices), tally-sorted devices)

  module _ (unseen : (m o : Bool) (d : Device) → test (annotate m o d) ≡ test d) where
    tally-annotate_from :
        (owners : Owners) (i : ℕ) (devices : List Device)
        → tally test (annotate_from owners i devices) ≡ tally test devices
    unfolding annotate_from
    tally-annotate_from owners i [] = refl
    tally-annotate_from owners i (d ∷ devices) =
        rw (unseen (has_label is_mac owners i) (has_label (λ k. not (is_mac k)) owners i) d)
          (omega (arith, tally-annotate_from owners (suc i) devices))

    pub tally-annotated :
        (devices : List Device)
        → tally test (sorted py (annotate_identity_conflicts py devices)) ≡ tally test devices
    unfolding annotate_identity_conflicts
    tally-annotated devices = omega (
      arith,
      tally-sorted (annotate_from (collect py 0 devices []) 0 devices),
      tally-annotate_from (collect py 0 devices []) 0 devices,
    )

-- The fields that annotation does not touch.
pub get-annotate :
    (m o : Bool) (d : Device) (k : String)
    → str_eq "identity_conflict" k ≡ false
    → str_eq "identity_conflict_reason" k ≡ false
    → get (annotate m o d) k ≡ get d k
unfolding annotate
get-annotate true o d k a b = rw (get-put, b) (rw (get-put, a) refl)
get-annotate false true d k a b = rw (get-put, b) (rw (get-put, a) refl)
get-annotate false false d k a b = rw (get-pop, b) (rw (get-put, a) refl)

unfoldable pub is_offline : Device → Bool
is_offline device = is_text (get device "status") "offline"

pub get-set_default :
    (d : Device) (k j : String) (v : Value)
    → str_eq k j ≡ false
    → get (set_default d k v) j ≡ get d j
get-set_default d k j v h = elim (Bool-cases (has d k)) [
  | inl e ↦ rw e refl
  | inr e ↦ rw e (rw (get-put, h) refl)
]

status-mark_online :
    (merged : Device) (uuid first_seen seen_at : Value)
    → get (mark_online merged uuid first_seen seen_at) "status" ≡ some (text "online")
unfolding mark_online
status-mark_online merged uuid first_seen seen_at = simp (get-put) refl

status-merge_online :
    (py : Python) (n : ℕ) (previous : Option Device) (d : Device) (seen_at : Value)
    → get (merge_online py n previous d seen_at) "status" ≡ some (text "online")
unfolding merge_online
status-merge_online py n none d seen_at = status-mark_online _ _ _ seen_at
status-merge_online py n (some p) d seen_at = status-mark_online _ _ _ seen_at

is_online-merge_online :
    (py : Python) (n : ℕ) (previous : Option Device) (d : Device) (seen_at : Value)
    → is_online (merge_online py n previous d seen_at) ≡ true
unfolding is_online
is_online-merge_online py n previous d seen_at =
    rw (status-merge_online py n previous d seen_at) refl

status-network_only :
    (py : Python) (n : ℕ) (old : Device) (seen_at : Value)
    → get (network_only py n old seen_at) "status" ≡ some (text "online")
unfolding network_only
status-network_only py n old seen_at =
    rw (get-set_default _ "first_seen" "status" _ refl) (simp (get-put) refl)

status-offline :
    (py : Python) (n : ℕ) (old : Device) (seen_at : Value)
    → get (offline py n old seen_at) "status" ≡ some (text "offline")
unfolding offline
status-offline py n old seen_at =
    rw (get-set_default _ "last_seen" "status" seen_at refl)
      (rw (get-set_default _ "first_seen" "status" _ refl) (simp (get-put) refl))

module _ (py : Python) (previous current : List Device) (seen_at : Value) where
  pub online-match_all :
      (n : ℕ) (matched : List ℕ) (rest : List Device)
      → tally is_online (match_all py previous current seen_at n matched rest).0 ≡ length rest
  unfolding match_all
  online-match_all n matched [] = refl
  online-match_all n matched (d ∷ rest) =
      rw
        (is_online-merge_online py n (at previous (choose py previous current matched d)) d seen_at)
        (omega (
          arith,
          online-match_all (suc n) (add (choose py previous current matched d) matched) rest,
        ))

  pub offline-match_all :
      (n : ℕ) (matched : List ℕ) (rest : List Device)
      → tally is_offline (match_all py previous current seen_at n matched rest).0 ≡ 0
  unfolding match_all is_offline is_online
  offline-match_all n matched [] = refl
  offline-match_all n matched (d ∷ rest) =
      rw (status-merge_online py n (at previous (choose py previous current matched d)) d seen_at) (
        omega (
          arith,
          offline-match_all (suc n) (add (choose py previous current matched d) matched) rest,
        ))

-- How many devices no observation matched, of those that satisfy a test.
unfoldable pub count_unmatched : (Device → Bool) → List ℕ → ℕ → List Device → ℕ
count_unmatched test matched i [] = 0
count_unmatched test matched i (d ∷ devices) =
    (if not (member i matched) && test d then 1 else 0)
    + count_unmatched test matched (suc i) devices

module _ (py : Python) (drawn : ℕ) (reachable : List String) (seen_at : Value)
    (matched : List ℕ) where
  pub online-unobserved :
      (i : ℕ) (devices : List Device)
      → tally is_online (unobserved py drawn reachable seen_at matched i devices)
        ≡ count_unmatched (is_reachable py reachable) matched i devices
  unfolding unobserved count_unmatched is_online
  online-unobserved i [] = refl
  online-unobserved i (d ∷ devices) = ground (
    arith,
    online-unobserved (suc i) devices,
    status-network_only py (drawn + i) d seen_at,
    status-offline py (drawn + i) d seen_at,
  )

  pub offline-unobserved :
      (i : ℕ) (devices : List Device)
      → tally is_offline (unobserved py drawn reachable seen_at matched i devices)
        ≡ count_unmatched (λ d. not (is_reachable py reachable d)) matched i devices
  unfolding unobserved count_unmatched is_offline
  offline-unobserved i [] = refl
  offline-unobserved i (d ∷ devices) = ground (
    arith,
    offline-unobserved (suc i) devices,
    status-network_only py (drawn + i) d seen_at,
    status-offline py (drawn + i) d seen_at,
  )

  pub length-unobserved :
      (i : ℕ) (devices : List Device)
      → length (unobserved py drawn reachable seen_at matched i devices)
        ≡ count_unmatched (is_reachable py reachable) matched i devices
          + count_unmatched (λ d. not (is_reachable py reachable d)) matched i devices
  unfolding unobserved count_unmatched
  length-unobserved i [] = refl
  length-unobserved i (d ∷ devices) = ground (arith, length-unobserved (suc i) devices)
