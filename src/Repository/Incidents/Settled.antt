-- ===== src/Repository/Incidents/Settled.antt =====
-- Which health incident is open after a camera's health was recorded (camadmiral/storage.py).
use reefy_camadmiral.Prelude.{
  ℕ, ◌≡◌, refl, ap, ◌∙◌, true, Option, none, some, arith, ◌==◌, inl, inr, Bool-cases,
}
use reefy_camadmiral.Prelude.Rows.{
  tally-find_none, find_none-tally, find_row-append, find_row-update,
}
use reefy_camadmiral.Repository.{
  unknown, healthy, degraded, offline, auth_failed, CameraState, of_streams, disabled, Reason,
  IncidentKind, media_offline, authentication_failed, Resolution, cause_changed, recovered,
  by_operator, Incident, Database, is_kind, is_health_kind,
}
use reefy_camadmiral.Repository.Health.{camera_health_state}
use reefy_camadmiral.Repository.Incidents.{
  is_open_health, resolve_incident, open_incident, desired_kind, open_health_of, new_incident,
  touch, reconcile, reconcile_state, reconcile_camera_incident,
}
use reefy_camadmiral.Repository.Incidents.Single.{
  IsSingle, open_healths, incidents-open, resolve-open_health,
}

abbrev pub kind_of : Option Incident → Option IncidentKind
kind_of none = none
kind_of (some i) = some i.kind

-- The sort of health incident that should be open, by the state of the camera and what was open
-- before: a degraded camera, and one whose check is pending, keep theirs.
abbrev pub wanted : CameraState → Option IncidentKind → Option IncidentKind
wanted (of_streams offline) old = some media_offline
wanted (of_streams auth_failed) old = some authentication_failed
wanted (of_streams healthy) old = none
wanted disabled old = none
wanted (of_streams degraded) old = old
wanted (of_streams unknown) old = old

abbrev pub wanted_by : Option (CameraState × Reason) → Option IncidentKind → Option IncidentKind
wanted_by none old = old
wanted_by (some (state, reason)) old = wanted state old

opened_kind :
    (db : Database) (camera : ℕ) (kind : IncidentKind) (now : ℕ)
    → open_healths camera db ≡ 0
    → is_health_kind kind ≡ true
    → kind_of (open_health_of (open_incident db camera kind now "" "") camera) ≡ some kind
opened_kind db camera kind now free hk = rw incidents-open (
    rw
      (find_row-append (is_open_health camera) db.incidents
        (new_incident db.next_uuid camera kind now "" "")
        (find_none-tally (is_open_health camera) db.incidents free))
      (ground arith))

none_left :
    (db : Database) (camera now : ℕ) (reason : Resolution) {opened : Incident}
    → IsSingle db
    → open_health_of db camera ≡ some opened
    → open_healths camera (resolve_incident db opened.incident_uuid now reason) ≡ 0
none_left db camera now reason single o =
    omega (arith, resolve-open_health db camera now reason o, (single camera).0)

resolved_kind :
    (db : Database) (camera now : ℕ) (reason : Resolution) {opened : Incident}
    → IsSingle db
    → open_health_of db camera ≡ some opened
    → kind_of (open_health_of (resolve_incident db opened.incident_uuid now reason) camera) ≡ none
resolved_kind db camera now reason {opened} single o = ap kind_of (
    find_none-tally (is_open_health camera)
      (resolve_incident db opened.incident_uuid now reason).incidents
      (none_left db camera now reason single o))

touched_kind :
    (db : Database) (camera uuid now : ℕ)
    → kind_of (open_health_of (touch db uuid now) camera) ≡ kind_of (open_health_of db camera)
touched_kind db camera uuid now =
    rw
      (find_row-update (is_open_health camera) (λ i. i.incident_uuid == uuid)
        (λ i. record i { last_observed_at = now }) (λ x. refl))
      (ground arith)

is_kind-eq : (a b : IncidentKind) → is_kind a b ≡ true → a ≡ b
is_kind-eq a b h = ground arith

module _ (db : Database) (camera now : ℕ) (single : IsSingle db) where
  switched_kind :
      (kind : IncidentKind) (opened : Option Incident) (state : CameraState)
      → is_health_kind kind ≡ true
      → open_health_of db camera ≡ opened
      → kind_of (open_health_of (reconcile db camera state (some kind) opened now) camera)
        ≡ some kind
  switched_kind kind none state hk o =
      opened_kind db camera kind now (tally-find_none (is_open_health camera) db.incidents o) hk
  switched_kind kind (some opened) state hk o = elim (Bool-cases (is_kind opened.kind kind)) [
    | inl same ↦ rw same (
        touched_kind db camera opened.incident_uuid now
        ∙ rw o (ap some (is_kind-eq opened.kind kind same)))
    | inr other ↦ rw other (
        opened_kind (resolve_incident db opened.incident_uuid now cause_changed) camera kind now
          (none_left db camera now cause_changed single o) hk)
  ]

  settled_kind :
      (state : CameraState) (opened : Option Incident)
      → open_health_of db camera ≡ opened
      → kind_of (open_health_of (reconcile db camera state (desired_kind state) opened now) camera)
        ≡ wanted state (kind_of opened)
  settled_kind (of_streams offline) opened o =
      switched_kind media_offline opened (of_streams offline) refl o
  settled_kind (of_streams auth_failed) opened o =
      switched_kind authentication_failed opened (of_streams auth_failed) refl o
  settled_kind (of_streams healthy) none o = ap kind_of o
  settled_kind (of_streams healthy) (some opened) o = resolved_kind db camera now recovered single o
  settled_kind disabled none o = ap kind_of o
  settled_kind disabled (some opened) o = resolved_kind db camera now by_operator single o
  settled_kind (of_streams degraded) none o = ap kind_of o
  settled_kind (of_streams degraded) (some opened) o = ap kind_of o
  settled_kind (of_streams unknown) none o = ap kind_of o
  settled_kind (of_streams unknown) (some opened) o = ap kind_of o

-- After a camera's incidents are reconciled: an offline camera has an open `media_offline`
-- incident, one whose credentials are refused an `authentication_failed` incident, a healthy or
-- disabled one none, and any other camera the sort of incident that it had before.
pub reconcile-wanted :
    (db : Database) (camera now : ℕ)
    → IsSingle db
    → kind_of (open_health_of (reconcile_camera_incident db camera now) camera)
      ≡ wanted_by (camera_health_state db camera) (kind_of (open_health_of db camera))
unfolding reconcile_camera_incident
reconcile-wanted db camera now single = go (camera_health_state db camera)
  where
    go :
        (current : Option (CameraState × Reason))
        → kind_of (open_health_of (reconcile_state db camera now current) camera)
          ≡ wanted_by current (kind_of (open_health_of db camera))
    go none = refl
    go (some (state, reason)) =
        settled_kind db camera now single state (open_health_of db camera) refl
