-- ===== src/Repository/Incidents/Single.antt =====
-- A camera has at most one open incident of each sort, as the unique indexes of
-- camadmiral/storage.py demand: no insertion ever meets them.
use reefy_camadmiral.Prelude.{
  ℕ, suc, ◌≤◌, ◌≡◌, refl, String, Bool, true, ◌&&◌, Option, none, some, List, [], ◌∷◌, ◌++◌, arith,
  find_row, update_rows, tally, ◌==◌, inl, inr, Bool-cases, Option-cases,
}
use reefy_camadmiral.Prelude.Rows.{
  tally-append, tally-find_none, find_row-test, tally-update, tally-update_found, tally-update_same,
}
use reefy_camadmiral.Repository.{
  healthy, CameraState, of_streams, disabled, Reason, IncidentKind, camera_address_changed,
  Resolution, cause_changed, recovered, by_operator, EventType, Incident, Database, is_kind,
  is_health_kind, is_null,
}
use reefy_camadmiral.Repository.Health.{camera_health_state, record_event}
use reefy_camadmiral.Repository.Incidents.{
  find_incident, is_open_health, is_open_address, enqueue_incident_notification, resolve_incident,
  open_incident, desired_kind, open_health_of, resolve_row, new_incident, touch, settle, reconcile,
  reconcile_state, transition, open_address_found, reconcile_camera_incident,
  record_camera_health_transition, open_camera_address_incident,
}

-- A notification touches the outbox only.
pub incidents-enqueue :
    (db : Database) (incident camera : ℕ) (kind : IncidentKind) (event : EventType) (now : ℕ)
    → (enqueue_incident_notification db incident camera kind event now).incidents ≡ db.incidents
unfolding enqueue_incident_notification
incidents-enqueue db incident camera kind event now = ground arith

pub incidents-open :
    (db : Database) (camera : ℕ) (kind : IncidentKind) (now : ℕ) (previous current : String)
    → (open_incident db camera kind now previous current).incidents
      ≡ db.incidents ++ new_incident db.next_uuid camera kind now previous current ∷ []
unfolding open_incident
incidents-open db camera kind now previous current = incidents-enqueue _ _ _ _ _ _

abbrev pub closes : ℕ → Incident → Bool
closes uuid i = i.incident_uuid == uuid && is_null i.resolved_at

pub incidents-resolve :
    (db : Database) (uuid now : ℕ) (reason : Resolution) {found : Incident}
    → find_incident db uuid ≡ some found
    → (resolve_incident db uuid now reason).incidents
      ≡ update_rows (closes uuid) (resolve_row now reason) db.incidents
unfolding resolve_incident
incidents-resolve db uuid now reason h = rw h (incidents-enqueue _ _ _ _ _ _)

incidents-resolve_none :
    (db : Database) (uuid now : ℕ) (reason : Resolution)
    → find_incident db uuid ≡ none
    → (resolve_incident db uuid now reason).incidents ≡ db.incidents
unfolding resolve_incident
incidents-resolve_none db uuid now reason h = rw h

-- The open incidents of a camera, of either sort.
abbrev pub open_healths : ℕ → Database → ℕ
open_healths camera db = tally (is_open_health camera) db.incidents

abbrev pub open_addresses : ℕ → Database → ℕ
open_addresses camera db = tally (is_open_address camera) db.incidents

abbrev pub IsSingle : Database → Type 0
IsSingle db = (camera : ℕ) → (open_healths camera db ≤ 1) × (open_addresses camera db ≤ 1)

module _ (db : Database) (uuid now : ℕ) (reason : Resolution) (camera : ℕ) where
  resolve-healths :
      open_healths camera (resolve_incident db uuid now reason) ≤ open_healths camera db
  resolve-healths = elim (Option-cases (find_incident db uuid)) [
    | inl missing ↦ rw (incidents-resolve_none db uuid now reason missing) (omega arith)
    | inr (found, e) ↦ rw (incidents-resolve db uuid now reason e) (
        tally-update (is_open_health camera) (closes uuid) (resolve_row now reason)
          (λ x h. ground arith) db.incidents)
  ]

  resolve-addresses :
      open_addresses camera (resolve_incident db uuid now reason) ≤ open_addresses camera db
  resolve-addresses = elim (Option-cases (find_incident db uuid)) [
    | inl missing ↦ rw (incidents-resolve_none db uuid now reason missing) (omega arith)
    | inr (found, e) ↦ rw (incidents-resolve db uuid now reason e) (
        tally-update (is_open_address camera) (closes uuid) (resolve_row now reason)
          (λ x h. ground arith) db.incidents)
  ]

-- An incident that is found by its identifier.
find_incident-some :
    (xs : List Incident) (test : Incident → Bool) {r : Incident}
    → find_row test xs ≡ some r
    → (found : Incident) × (find_row (λ i. i.incident_uuid == r.incident_uuid) xs ≡ some found)
find_incident-some [] test h = cc
find_incident-some (x ∷ xs) test {r} h = elim (Bool-cases (x.incident_uuid == r.incident_uuid)) [
  | inl same ↦ (x, rw same)
  | inr other ↦
      let (found, e) = find_incident-some xs test {r = r} (ground arith) in (found, rw other e)
]

-- Closing the open health incident of a camera leaves it none.
pub resolve-open_health :
    (db : Database) (camera now : ℕ) (reason : Resolution) {opened : Incident}
    → open_health_of db camera ≡ some opened
    → suc (open_healths camera (resolve_incident db opened.incident_uuid now reason))
      ≤ open_healths camera db
resolve-open_health db camera now reason {opened} h =
    let (found, e) = find_incident-some db.incidents (is_open_health camera) {r = opened} h in
    let t : is_open_health camera opened ≡ true =
      find_row-test (is_open_health camera) db.incidents h in
    rw (incidents-resolve db opened.incident_uuid now reason e) (
      tally-update_found (is_open_health camera) (closes opened.incident_uuid)
        (resolve_row now reason) (λ x h. ground arith) db.incidents h (ground arith) (ground arith))

-- Opening a health incident for a camera that has none.
open_health-IsSingle :
    (db : Database) (camera : ℕ) (kind : IncidentKind) (now : ℕ)
    → open_healths camera db ≡ 0
    → is_health_kind kind ≡ true
    → IsSingle db
    → IsSingle (open_incident db camera kind now "" "")
open_health-IsSingle db camera kind now free hk single j = rw incidents-open (
    rw (tally-append (is_open_health j), tally-append (is_open_address j))
      (ground (arith, single j, free), ground (arith, single j)))

-- Opening an address incident for a camera that has none.
open_address-IsSingle :
    (db : Database) (camera now : ℕ) (previous current : String)
    → open_addresses camera db ≡ 0
    → IsSingle db
    → IsSingle (open_incident db camera camera_address_changed now previous current)
open_address-IsSingle db camera now previous current free single j = rw incidents-open (
    rw (tally-append (is_open_health j), tally-append (is_open_address j))
      (ground (arith, single j), ground (arith, single j, free)))

resolve-IsSingle :
    (db : Database) (uuid now : ℕ) (reason : Resolution)
    → IsSingle db
    → IsSingle (resolve_incident db uuid now reason)
resolve-IsSingle db uuid now reason single j = (
  omega (arith, resolve-healths db uuid now reason j, (single j).0),
  omega (arith, resolve-addresses db uuid now reason j, (single j).1),
)

touch-IsSingle : (db : Database) (uuid now : ℕ) → IsSingle db → IsSingle (touch db uuid now)
touch-IsSingle db uuid now single j = (
  rw
      (tally-update_same (is_open_health j) (λ i. i.incident_uuid == uuid)
        (λ i. record i { last_observed_at = now }) (λ x. refl))
      (single j).0,
  rw
      (tally-update_same (is_open_address j) (λ i. i.incident_uuid == uuid)
        (λ i. record i { last_observed_at = now }) (λ x. refl))
      (single j).1,
)

desired-is_health_kind :
    (state : CameraState) {kind : IncidentKind}
    → desired_kind state ≡ some kind
    → is_health_kind kind ≡ true
desired-is_health_kind state h = ground arith

settle-IsSingle :
    (db : Database) (opened : Incident) (state : CameraState) (now : ℕ)
    → IsSingle db
    → IsSingle (settle db opened state now)
settle-IsSingle db opened (of_streams healthy) now single =
    resolve-IsSingle db opened.incident_uuid now recovered single
settle-IsSingle db opened disabled now single =
    resolve-IsSingle db opened.incident_uuid now by_operator single
settle-IsSingle db opened _ now single = single

module _ (db : Database) (camera now : ℕ) (single : IsSingle db) where
  reconcile-IsSingle :
      (state : CameraState) (wanted : Option IncidentKind) (opened : Option Incident)
      → desired_kind state ≡ wanted
      → open_health_of db camera ≡ opened
      → IsSingle (reconcile db camera state wanted opened now)
  reconcile-IsSingle state (some kind) none d o =
      open_health-IsSingle db camera kind now
        (tally-find_none (is_open_health camera) db.incidents o) (desired-is_health_kind state d)
        single
  reconcile-IsSingle state (some kind) (some opened) d o =
      elim (Bool-cases (is_kind opened.kind kind)) [
        | inl same ↦ rw same (touch-IsSingle db opened.incident_uuid now single)
        | inr other ↦ rw other (
            open_health-IsSingle (resolve_incident db opened.incident_uuid now cause_changed) camera
              kind now
              (omega (arith, resolve-open_health db camera now cause_changed o, (single camera).0))
              (desired-is_health_kind state d)
              (resolve-IsSingle db opened.incident_uuid now cause_changed single))
      ]
  reconcile-IsSingle state none none d o = single
  reconcile-IsSingle state none (some opened) d o = settle-IsSingle db opened state now single

  reconcile_state-IsSingle :
      (current : Option (CameraState × Reason)) → IsSingle (reconcile_state db camera now current)
  reconcile_state-IsSingle none = single
  reconcile_state-IsSingle (some (state, reason)) =
      reconcile-IsSingle state (desired_kind state) (open_health_of db camera) refl refl

incidents-record_event :
    (db : Database) (camera now : ℕ) (c : CameraState × Reason)
    → (record_event db camera now c).incidents ≡ db.incidents
unfolding record_event
incidents-record_event db camera now (state, reason) = ground arith

-- Whatever a camera's health has become, recording it keeps at most one open health incident and
-- at most one open address incident for every camera.
pub transition-IsSingle :
    (db : Database) (camera now : ℕ)
    → IsSingle db
    → IsSingle (record_camera_health_transition db camera now)
unfolding record_camera_health_transition reconcile_camera_incident
transition-IsSingle db camera now single = go (camera_health_state db camera)
  where
    go : (current : Option (CameraState × Reason)) → IsSingle (transition db camera now current)
    go none = single
    go (some current) =
        reconcile_state-IsSingle (record_event db camera now current) camera now
          (λ j. rw (incidents-record_event db camera now current) (single j))
          (camera_health_state (record_event db camera now current) camera)

-- Opening an address incident, or finding the one that is open, keeps that too.
pub open_camera_address_incident-IsSingle :
    (db : Database) (camera : ℕ) (previous current : String) (now : ℕ)
    → IsSingle db
    → IsSingle (open_camera_address_incident db camera previous current now).0
unfolding open_camera_address_incident
open_camera_address_incident-IsSingle db camera previous current now single =
    go (find_row (is_open_address camera) db.incidents) refl
  where
    go :
        (opened : Option Incident)
        → find_row (is_open_address camera) db.incidents ≡ opened
        → IsSingle (open_address_found db camera previous current now opened).0
    go none e j =
        open_address-IsSingle db camera now previous current
          (tally-find_none (is_open_address camera) db.incidents e) single j
    go (some opened) e j = (
      rw
          (tally-update_same (is_open_health j) (λ i. i.incident_uuid == opened.incident_uuid)
            (λ i. record i {
              last_observed_at = now;
              previous_address = previous;
              current_address = current;
            })
            (λ x. refl))
          (single j).0,
      rw
          (tally-update_same (is_open_address j) (λ i. i.incident_uuid == opened.incident_uuid)
            (λ i. record i {
              last_observed_at = now;
              previous_address = previous;
              current_address = current;
            })
            (λ x. refl))
          (single j).1,
    )
