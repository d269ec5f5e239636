-- ===== src/Repository/Incidents.antt =====
-- The incidents of a camera and the notifications that they queue: `_reconcile_camera_incident`,
-- `_resolve_incident`, `_enqueue_incident_notification`, `open_camera_address_incident` and
-- `resolve_camera_address_incident` of camadmiral/storage.py.
pub mod Single
pub mod Settled
pub mod Pairing
use reefy_camadmiral.Prelude.{
  ℕ, ◌+◌, ◌≡◌, String, str_eq, Bool, true, false, not, ◌&&◌, ◌||◌, Option, none, some, List, [],
  ◌∷◌, ◌++◌, find_row, update_rows, ◌==◌, if◌then◌else◌,
}
use reefy_camadmiral.Repository.{
  HealthStatus, unknown, healthy, degraded, offline, auth_failed, CameraState, of_streams, disabled,
  Reason, IncidentKind, media_offline, authentication_failed, camera_address_changed, Resolution,
  cause_changed, recovered, by_operator, stream_recovered, EventType, incident_opened,
  incident_resolved, relay_restarted, pending, Camera, Incident, Payload, OutboxItem, Settings,
  Database, is_kind, is_health_kind, is_null,
}
use reefy_camadmiral.Repository.Health.{find_camera, camera_health_state, record_event}

abbrev pub find_incident : Database → ℕ → Option Incident
find_incident db uuid = find_row (λ i. i.incident_uuid == uuid) db.incidents

-- The two kinds of open incident; a unique index allows a camera one of each.
abbrev pub is_open_health : ℕ → Incident → Bool
is_open_health camera i =
    i.incident_camera == camera && is_null i.resolved_at && is_health_kind i.kind

abbrev pub is_open_address : ℕ → Incident → Bool
is_open_address camera i =
    i.incident_camera == camera && is_null i.resolved_at && is_kind i.kind camera_address_changed

-- `settings_row is None or not enabled or not chat_id`
unfoldable pub has_channel : Option Settings → Bool
has_channel none = false
has_channel (some s) = elim s.chat_id [
  | none ↦ false
  | some chat ↦ s.notifications_enabled && not (str_eq chat "")
]

abbrev is_event : EventType → EventType → Bool
is_event incident_opened incident_opened = true
is_event incident_resolved incident_resolved = true
is_event _ _ = false

-- The row with the idempotency key `{incident}:{event}`.
unfoldable pub has_item : ℕ → EventType → List OutboxItem → Bool
has_item incident event [] = false
has_item incident event (item ∷ items) =
    elim item.item_incident [
      | none ↦ false
      | some i ↦ i == incident && is_event event item.event_type
    ]
    || has_item incident event items

abbrev non_empty_text : String → Option String
non_empty_text t = if str_eq t "" then none else some t

abbrev plain_payload : ℕ → String → IncidentKind → ℕ → Payload
plain_payload camera name kind now = record {
  camera_id = camera;
  camera_name = name;
  payload_kind = kind;
  payload_observed_at = now;
  payload_opened_at = none;
  payload_previous = none;
  payload_current = none;
}

-- An address incident adds when it opened and the two addresses.
abbrev with_details : Option Incident → Payload → Payload
with_details none p = p
with_details (some i) p = record p {
  payload_opened_at = some i.opened_at;
  payload_previous = non_empty_text i.previous_address;
  payload_current = non_empty_text i.current_address;
}

abbrev incident_payload : Database → ℕ → ℕ → String → IncidentKind → ℕ → Payload
incident_payload db incident camera name kind now =
    let plain = plain_payload camera name kind now in
    if is_kind kind camera_address_changed
    then with_details (find_incident db incident) plain
    else plain

-- `INSERT OR IGNORE`: nothing is written where the idempotency key is taken.
abbrev insert_item : Database → ℕ → EventType → Payload → ℕ → Database
insert_item db incident event payload now =
    if has_item incident event db.outbox
    then record db { next_uuid = db.next_uuid + 1 }
    else record db {
      outbox =
          db.outbox
          ++ record {
            outbox_uuid = db.next_uuid;
            item_incident = some incident;
            event_type = event;
            payload = some payload;
            status = pending;
            attempt_count = 0;
            next_attempt_at = now;
            provider_message_id = none;
            last_error_code = none;
            created_at = now;
            sent_at = none;
          }
            ∷ [];
      next_uuid = db.next_uuid + 1;
    }

abbrev enqueue_for : Database → ℕ → ℕ → IncidentKind → EventType → ℕ → Option Camera → Database
enqueue_for db incident camera kind event now none = db
enqueue_for db incident camera kind event now (some row) =
    if row.notifications_silenced
    then db
    else if is_event event incident_resolved && not (has_item incident incident_opened db.outbox)
    then db
    else insert_item db incident event
        (incident_payload db incident camera row.display_name kind now) now

unfoldable pub enqueue_incident_notification :
    Database → ℕ → ℕ → IncidentKind → EventType → ℕ → Database
unfolding has_channel has_item
enqueue_incident_notification db incident camera kind event now =
    if has_channel db.settings
    then enqueue_for db incident camera kind event now (find_camera db camera)
    else db

abbrev resolve_row : ℕ → Resolution → Incident → Incident
resolve_row now reason i = record i {
  last_observed_at = now;
  resolved_at = some now;
  resolution_reason = some reason;
}

abbrev resolve_found : Database → ℕ → ℕ → Resolution → Option Incident → Database
resolve_found db uuid now reason none = db
resolve_found db uuid now reason (some found) =
    let db' = record db {
      incidents =
          update_rows (λ i. i.incident_uuid == uuid && is_null i.resolved_at)
            (resolve_row now reason) db.incidents;
    } in
    enqueue_incident_notification db' uuid found.incident_camera found.kind incident_resolved now

unfoldable pub resolve_incident : Database → ℕ → ℕ → Resolution → Database
resolve_incident db uuid now reason = resolve_found db uuid now reason (find_incident db uuid)

abbrev new_incident : ℕ → ℕ → IncidentKind → ℕ → String → String → Incident
new_incident uuid camera kind now previous current = record {
  incident_uuid = uuid;
  incident_camera = camera;
  kind = kind;
  opened_at = now;
  last_observed_at = now;
  resolved_at = none;
  resolution_reason = none;
  previous_address = previous;
  current_address = current;
}

unfoldable pub open_incident : Database → ℕ → IncidentKind → ℕ → String → String → Database
open_incident db camera kind now previous current =
    let uuid = db.next_uuid in
    let db' = record db {
      incidents = db.incidents ++ new_incident uuid camera kind now previous current ∷ [];
      next_uuid = uuid + 1;
    } in
    enqueue_incident_notification db' uuid camera kind incident_opened now

-- `{"offline": "media_offline", "auth_failed": "authentication_failed"}.get(state)`
abbrev pub desired_kind : CameraState → Option IncidentKind
desired_kind (of_streams offline) = some media_offline
desired_kind (of_streams auth_failed) = some authentication_failed
desired_kind _ = none

abbrev touch : Database → ℕ → ℕ → Database
touch db uuid now = record db {
  incidents =
      update_rows (λ i. i.incident_uuid == uuid) (λ i. record i { last_observed_at = now })
        db.incidents;
}

abbrev settle : Database → Incident → CameraState → ℕ → Database
settle db opened (of_streams healthy) now = resolve_incident db opened.incident_uuid now recovered
settle db opened disabled now = resolve_incident db opened.incident_uuid now by_operator
settle db opened _ now = db

abbrev reconcile : Database → ℕ → CameraState → Option IncidentKind → Option Incident → ℕ → Database
reconcile db camera state (some kind) none now = open_incident db camera kind now "" ""
reconcile db camera state (some kind) (some opened) now =
    if is_kind opened.kind kind
    then touch db opened.incident_uuid now
    else open_incident (resolve_incident db opened.incident_uuid now cause_changed) camera kind now
        "" ""
reconcile db camera state none none now = db
reconcile db camera state none (some opened) now = settle db opened state now

abbrev pub open_health_of : Database → ℕ → Option Incident
open_health_of db camera = find_row (is_open_health camera) db.incidents

abbrev reconcile_state : Database → ℕ → ℕ → Option (CameraState × Reason) → Database
reconcile_state db camera now none = db
reconcile_state db camera now (some (state, reason)) =
    reconcile db camera state (desired_kind state) (open_health_of db camera) now

unfoldable pub reconcile_camera_incident : Database → ℕ → ℕ → Database
reconcile_camera_incident db camera now =
    reconcile_state db camera now (camera_health_state db camera)

abbrev transition : Database → ℕ → ℕ → Option (CameraState × Reason) → Database
transition db camera now none = db
transition db camera now (some current) =
    reconcile_camera_incident (record_event db camera now current) camera now

unfoldable pub record_camera_health_transition : Database → ℕ → ℕ → Database
record_camera_health_transition db camera now =
    transition db camera now (camera_health_state db camera)

abbrev open_address_found : Database → ℕ → String → String → ℕ → Option Incident → Database × ℕ
open_address_found db camera previous current now none =
    (open_incident db camera camera_address_changed now previous current, db.next_uuid)
open_address_found db camera previous current now (some opened) = (
  record db {
    incidents =
        update_rows (λ i. i.incident_uuid == opened.incident_uuid)
          (λ i. record i {
            last_observed_at = now;
            previous_address = previous;
            current_address = current;
          })
          db.incidents;
  },
  opened.incident_uuid,
)

-- Returns the incident's identifier too. The evidence, part of `details_json`, is never read back.
unfoldable pub open_camera_address_incident : Database → ℕ → String → String → ℕ → Database × ℕ
open_camera_address_incident db camera previous current now =
    open_address_found db camera previous current now
      (find_row (is_open_address camera) db.incidents)

abbrev resolve_address_found : Database → ℕ → ℕ → Option Incident → Database
resolve_address_found db uuid now none = db
resolve_address_found db uuid now (some i) =
    if is_kind i.kind camera_address_changed && is_null i.resolved_at
    then resolve_incident db uuid now stream_recovered
    else db

unfoldable pub resolve_camera_address_incident : Database → ℕ → ℕ → Database
resolve_camera_address_incident db uuid now =
    resolve_address_found db uuid now (find_incident db uuid)
