-- ===== src/Repository.antt =====
-- The tables of camadmiral/storage.py that carry the health of cameras: cameras, their streams and
-- role bindings, health events, incidents, the notification outbox and the retries of streams whose
-- credentials were refused. A table is the list of its rows in the order of insertion. Texts are
-- kept where they are compared or shown; identifiers and times are numbers: `uuid4()` takes the
-- next unused identifier, a time is in seconds.
pub mod Health
pub mod Incidents
pub mod Probes
pub mod Retries
pub mod Outbox
pub mod Revisions
pub mod Blocked
pub mod Frigate
mod Tests
use reefy_camadmiral.Prelude.{
  ℕ, ◌+◌, String, Bool, true, false, Option, none, some, List, [], ◌∷◌, ◌==◌,
}

pub data HealthStatus : Type 0 where
  unknown healthy degraded offline auth_failed : HealthStatus

-- The state of a camera: that of its streams taken together, or `disabled`.
pub data CameraState : Type 0 where
  of_streams : HealthStatus → CameraState
  disabled : CameraState

pub data Reason : Type 0 where
  operator_disabled media_check_pending authentication_failed_reason all_streams_healthy : Reason
  all_streams_offline partial_stream_failure media_probe_failed : Reason

pub data IncidentKind : Type 0 where
  media_offline authentication_failed camera_address_changed : IncidentKind

pub data Resolution : Type 0 where
  cause_changed recovered by_operator stream_recovered : Resolution

pub data EventType : Type 0 where
  incident_opened incident_resolved relay_restarted test : EventType

pub data OutboxStatus : Type 0 where
  pending retry sent failed : OutboxStatus

-- `ProbeResult.status` of camadmiral/media.py: the statuses that storage tells apart, and the rest.
pub data ProbeStatus : Type 0 where
  ready idle refused : ProbeStatus
  failing : String → ProbeStatus

pub record ProbeResult : Type 0 where
  pub result_status : ProbeStatus
  pub latency_ms : ℕ
  pub video : Option String
  pub audio : Option String
  pub width : ℕ
  pub height : ℕ
  pub fps : ℕ  -- thousandths

pub record Camera : Type 0 where
  pub camera_uuid : ℕ
  pub display_name : String
  pub enabled : Bool
  pub notifications_silenced : Bool

pub record Stream : Type 0 where
  pub stream_uuid : ℕ
  pub owner : ℕ
  pub stream_enabled : Bool
  pub health_status : HealthStatus
  pub consecutive_failures : ℕ
  pub probe_status : Option ProbeStatus
  pub probed_at : Option ℕ
  pub probe_latency_ms : Option ℕ
  pub last_ready_at : Option ℕ
  pub last_failure_at : Option ℕ
  pub video_codec : Option String
  pub audio_codec : Option String
  pub probed_width : ℕ
  pub probed_height : ℕ
  pub probed_fps : ℕ  -- thousandths

-- A row of `consumer_bindings`.
pub record Binding : Type 0 where
  pub bound_camera : ℕ
  pub role : String
  pub bound_stream : ℕ

pub record HealthEvent : Type 0 where
  pub of_camera : ℕ
  pub state : CameraState
  pub reason : Reason
  pub observed_at : ℕ

pub record Incident : Type 0 where
  pub incident_uuid : ℕ
  pub incident_camera : ℕ
  pub kind : IncidentKind
  pub opened_at : ℕ
  pub last_observed_at : ℕ
  pub resolved_at : Option ℕ
  pub resolution_reason : Option Resolution
  pub previous_address : String
  pub current_address : String

pub record Payload : Type 0 where
  pub camera_id : ℕ
  pub camera_name : String
  pub payload_kind : IncidentKind
  pub payload_observed_at : ℕ
  pub payload_opened_at : Option ℕ
  pub payload_previous : Option String
  pub payload_current : Option String

pub record OutboxItem : Type 0 where
  pub outbox_uuid : ℕ
  pub item_incident : Option ℕ
  pub event_type : EventType
  pub payload : Option Payload
  pub status : OutboxStatus
  pub attempt_count : ℕ
  pub next_attempt_at : ℕ
  pub provider_message_id : Option String
  pub last_error_code : Option String
  pub created_at : ℕ
  pub sent_at : Option ℕ

pub record Settings : Type 0 where
  pub notifications_enabled : Bool
  pub chat_id : Option String

-- A row of `stream_auth_retries`.
pub record AuthRetry : Type 0 where
  pub retry_stream : ℕ
  pub attempts : ℕ
  pub next_attempt : ℕ

pub record Database : Type 0 where
  pub cameras : List Camera
  pub streams : List Stream
  pub bindings : List Binding
  pub health_events : List HealthEvent
  pub incidents : List Incident
  pub settings : Option Settings
  pub outbox : List OutboxItem
  pub auth_retries : List AuthRetry
  pub next_uuid : ℕ

abbrev pub is_health : HealthStatus → HealthStatus → Bool
is_health unknown unknown = true
is_health healthy healthy = true
is_health degraded degraded = true
is_health offline offline = true
is_health auth_failed auth_failed = true
is_health _ _ = false

abbrev pub is_kind : IncidentKind → IncidentKind → Bool
is_kind media_offline media_offline = true
is_kind authentication_failed authentication_failed = true
is_kind camera_address_changed camera_address_changed = true
is_kind _ _ = false

-- `kind IN ('media_offline', 'authentication_failed')`
abbrev pub is_health_kind : IncidentKind → Bool
is_health_kind camera_address_changed = false
is_health_kind _ = true

abbrev pub is_null {ℓ} : {A : Type ℓ} → Option A → Bool
is_null none = true
is_null (some _) = false
