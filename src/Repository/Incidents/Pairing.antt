-- ===== src/Repository/Incidents/Pairing.antt =====
-- Notifications that an incident is over follow one that it began (camadmiral/storage.py).
use reefy_camadmiral.Prelude.{
  ℕ, ◌≡◌, refl, sym, ◌∙◌, String, true, false, not, ◌&&◌, ◌||◌, Option, none, some, List, [], ◌∷◌,
  ◌++◌, arith, ◌==◌, inl, inr, Bool-cases, ==_iff,
}
use reefy_camadmiral.Repository.{
  healthy, CameraState, of_streams, disabled, Reason, IncidentKind, Camera, EventType,
  incident_opened, incident_resolved, Resolution, cause_changed, recovered, by_operator, Incident,
  OutboxItem, Payload, Database, is_kind,
}
use reefy_camadmiral.Repository.Health.{find_camera, camera_health_state, record_event}
use reefy_camadmiral.Repository.Incidents.{
  has_channel, has_item, is_event, insert_item, enqueue_for, enqueue_incident_notification,
  find_incident, resolve_found, resolve_incident, open_incident, desired_kind, open_health_of,
  settle, reconcile, reconcile_state, reconcile_camera_incident, transition,
  record_camera_health_transition,
}

has_item-added :
    (i incident : ℕ) (event : EventType) (items : List OutboxItem) (item : OutboxItem)
    → item.item_incident ≡ some incident
    → has_item i event (items ++ item ∷ [])
      ≡ (has_item i event items || incident == i && is_event event item.event_type)
unfolding has_item
has_item-added i incident event [] item e = ground arith
has_item-added i incident event (x ∷ items) item e =
    ground (arith, has_item-added i incident event items item e)

-- Every incident with a notification that it is over has one that it began.
abbrev pub IsPaired : List OutboxItem → Type 0
IsPaired items =
    (i : ℕ) → has_item i incident_resolved items ≡ true → has_item i incident_opened items ≡ true

-- What an event needs before it may be queued.
abbrev MayFollow : EventType → ℕ → List OutboxItem → Type 0
MayFollow incident_resolved incident items = has_item incident incident_opened items ≡ true
MayFollow _ incident items = Unit

-- The last item resolves an incident that has its first notification, or resolves none.
one_more :
    (i incident : ℕ) (event : EventType) (items : List OutboxItem)
    → MayFollow event incident items
    → (has_item i incident_resolved items || incident == i && is_event incident_resolved event)
      ≡ true
    → (has_item i incident_resolved items ≡ true → has_item i incident_opened items ≡ true)
    → (has_item i incident_opened items || incident == i && is_event incident_opened event) ≡ true
one_more i incident incident_resolved items may h paired = elim (Bool-cases (incident == i)) [
  | inl same ↦ let e : incident ≡ i = (==_iff incident i).0 same in rw (← e, may)
  | inr other ↦ ground arith
]
one_more i incident _ items may h paired = ground arith

append-IsPaired :
    (items : List OutboxItem) (item : OutboxItem) (incident : ℕ)
    → item.item_incident ≡ some incident
    → MayFollow item.event_type incident items
    → IsPaired items
    → IsPaired (items ++ item ∷ [])
append-IsPaired items item incident e may paired i h =
    has_item-added i incident incident_opened items item e
    ∙ one_more i incident item.event_type items may
        (sym (has_item-added i incident incident_resolved items item e) ∙ h) (paired i)

insert_item-IsPaired :
    (db : Database) (incident : ℕ) (event : EventType) (payload : Payload) (now : ℕ)
    → MayFollow event incident db.outbox
    → IsPaired db.outbox
    → IsPaired (insert_item db incident event payload now).outbox
insert_item-IsPaired db incident event payload now may paired =
    elim (Bool-cases (has_item incident event db.outbox)) [
      | inl taken ↦ rw taken paired
      | inr free ↦ rw free (append-IsPaired db.outbox _ incident refl may paired)
    ]

may_follow :
    (event : EventType) (incident : ℕ) (items : List OutboxItem)
    → (is_event event incident_resolved && not (has_item incident incident_opened items)) ≡ false
    → MayFollow event incident items
may_follow incident_resolved incident items h = ground arith
may_follow _ incident items h = tt

enqueue_for-IsPaired :
    (db : Database) (incident camera : ℕ) (kind : IncidentKind) (event : EventType) (now : ℕ)
    (row : Option Camera)
    → IsPaired db.outbox
    → IsPaired (enqueue_for db incident camera kind event now row).outbox
enqueue_for-IsPaired db incident camera kind event now none paired = paired
enqueue_for-IsPaired db incident camera kind event now (some row) paired =
    elim (Bool-cases row.notifications_silenced) [
      | inl silent ↦ rw silent paired
      | inr loud ↦
          rw loud
            (elim (Bool-cases (
              is_event event incident_resolved
              && not (has_item incident incident_opened db.outbox))) [
                | inl orphan ↦ rw orphan paired
                | inr fine ↦ rw fine (
                    insert_item-IsPaired db incident event _ now
                      (may_follow event incident db.outbox fine) paired)
              ])
    ]

-- Queueing a notification keeps the pairs: the end of an incident whose beginning was not queued
-- is not queued either.
pub enqueue-IsPaired :
    (db : Database) (incident camera : ℕ) (kind : IncidentKind) (event : EventType) (now : ℕ)
    → IsPaired db.outbox
    → IsPaired (enqueue_incident_notification db incident camera kind event now).outbox
unfolding enqueue_incident_notification
enqueue-IsPaired db incident camera kind event now paired =
    elim (Bool-cases (has_channel db.settings)) [
      | inl on ↦
          rw on
            (enqueue_for-IsPaired db incident camera kind event now (find_camera db camera) paired)
      | inr off ↦ rw off paired
    ]

open-IsPaired :
    (db : Database) (camera : ℕ) (kind : IncidentKind) (now : ℕ) (previous current : String)
    → IsPaired db.outbox
    → IsPaired (open_incident db camera kind now previous current).outbox
unfolding open_incident
open-IsPaired db camera kind now previous current paired = enqueue-IsPaired _ _ _ _ _ _ paired

resolve-IsPaired :
    (db : Database) (uuid now : ℕ) (reason : Resolution)
    → IsPaired db.outbox
    → IsPaired (resolve_incident db uuid now reason).outbox
unfolding resolve_incident
resolve-IsPaired db uuid now reason paired = go (find_incident db uuid)
  where
    go : (found : Option Incident) → IsPaired (resolve_found db uuid now reason found).outbox
    go none = paired
    go (some found) = enqueue-IsPaired _ _ _ _ _ _ paired

settle-IsPaired :
    (db : Database) (opened : Incident) (state : CameraState) (now : ℕ)
    → IsPaired db.outbox
    → IsPaired (settle db opened state now).outbox
settle-IsPaired db opened (of_streams healthy) now paired =
    resolve-IsPaired db opened.incident_uuid now recovered paired
settle-IsPaired db opened disabled now paired =
    resolve-IsPaired db opened.incident_uuid now by_operator paired
settle-IsPaired db opened _ now paired = paired

reconcile-IsPaired :
    (db : Database) (camera : ℕ) (state : CameraState) (kind : Option IncidentKind)
    (opened : Option Incident) (now : ℕ)
    → IsPaired db.outbox
    → IsPaired (reconcile db camera state kind opened now).outbox
reconcile-IsPaired db camera state (some kind) none now paired =
    open-IsPaired db camera kind now "" "" paired
reconcile-IsPaired db camera state (some kind) (some opened) now paired =
    elim (Bool-cases (is_kind opened.kind kind)) [
      | inl same ↦ rw same paired
      | inr other ↦ rw other (
          open-IsPaired (resolve_incident db opened.incident_uuid now cause_changed) camera kind now
            "" "" (resolve-IsPaired db opened.incident_uuid now cause_changed paired))
    ]
reconcile-IsPaired db camera state none none now paired = paired
reconcile-IsPaired db camera state none (some opened) now paired =
    settle-IsPaired db opened state now paired

reconcile_state-IsPaired :
    (db : Database) (camera now : ℕ) (current : Option (CameraState × Reason))
    → IsPaired db.outbox
    → IsPaired (reconcile_state db camera now current).outbox
reconcile_state-IsPaired db camera now none paired = paired
reconcile_state-IsPaired db camera now (some (state, reason)) paired =
    reconcile-IsPaired db camera state (desired_kind state) (open_health_of db camera) now paired

outbox-record_event :
    (db : Database) (camera now : ℕ) (c : CameraState × Reason)
    → (record_event db camera now c).outbox ≡ db.outbox
unfolding record_event
outbox-record_event db camera now (state, reason) = ground arith

-- Whatever a camera's health has become, recording it keeps the pairs: no notification that an
-- incident is over stands in the outbox without one that it began.
pub transition-IsPaired :
    (db : Database) (camera now : ℕ)
    → IsPaired db.outbox
    → IsPaired (record_camera_health_transition db camera now).outbox
unfolding record_camera_health_transition reconcile_camera_incident
transition-IsPaired db camera now paired = go (camera_health_state db camera)
  where
    go :
        (current : Option (CameraState × Reason))
        → IsPaired (transition db camera now current).outbox
    go none = paired
    go (some current) =
        reconcile_state-IsPaired (record_event db camera now current) camera now
          (camera_health_state (record_event db camera now current) camera)
          (rw (outbox-record_event db camera now current) paired)
