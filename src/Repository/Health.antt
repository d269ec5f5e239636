-- ===== src/Repository/Health.antt =====
-- `_camera_health_state` and `_record_camera_health_transition` of camadmiral/storage.py, up to the
-- incidents.
use reefy_camadmiral.Prelude.{
  ℕ, Bool, true, false, not, ◌&&◌, Option, none, some, List, [], ◌∷◌, ◌++◌, map, any, all, keep,
  find_row, leb, ◌==◌, if◌then◌else◌,
}
use reefy_camadmiral.Repository.{
  HealthStatus, unknown, healthy, degraded, offline, auth_failed, CameraState, of_streams, disabled,
  Reason, operator_disabled, media_check_pending, authentication_failed_reason, all_streams_healthy,
  all_streams_offline, partial_stream_failure, media_probe_failed, Camera, HealthEvent, Database,
  is_health,
}

-- The streams of a camera that some role is bound to; a stream bound twice counts once.
unfoldable pub bound_states : Database → ℕ → List HealthStatus
bound_states db camera =
    map (λ s. s.health_status)
      (keep (λ s. s.owner == camera && any (λ b. b.bound_stream == s.stream_uuid) db.bindings)
        db.streams)

abbrev observed : List HealthStatus → List HealthStatus
observed = keep (λ h. not (is_health h unknown))

-- What the states of the streams say together; the tests stand in the order of the code.
unfoldable pub streams_state : List HealthStatus → HealthStatus × Reason
streams_state states = elim (observed states) [
  | [] ↦ (unknown, media_check_pending)
  | (o ∷ os) ↦
      if any (is_health auth_failed) (o ∷ os)
      then (auth_failed, authentication_failed_reason)
      else if all (is_health healthy) (o ∷ os)
      then (healthy, all_streams_healthy)
      else if all (is_health offline) states
      then (offline, all_streams_offline)
      else if any (is_health offline) (o ∷ os)
      then (degraded, partial_stream_failure)
      else if any (is_health degraded) (o ∷ os)
      then (degraded, media_probe_failed)
      else (unknown, media_check_pending)
]

abbrev of_row : Database → ℕ → Option Camera → Option (CameraState × Reason)
of_row db camera none = none
of_row db camera (some row) =
    if row.enabled
    then (let (state, reason) = streams_state (bound_states db camera) in
        some (of_streams state, reason))
    else some (disabled, operator_disabled)

abbrev pub find_camera : Database → ℕ → Option Camera
find_camera db camera = find_row (λ c. c.camera_uuid == camera) db.cameras

unfoldable pub camera_health_state : Database → ℕ → Option (CameraState × Reason)
camera_health_state db camera = of_row db camera (find_camera db camera)

-- `ORDER BY observed_at DESC, event_id DESC LIMIT 1` over the rows of one camera
abbrev later : HealthEvent → Option HealthEvent → HealthEvent
later e none = e
later e (some l) = if leb e.observed_at l.observed_at then l else e

unfoldable pub latest_event : ℕ → List HealthEvent → Option HealthEvent
latest_event camera [] = none
latest_event camera (e ∷ es) =
    let rest = latest_event camera es in if e.of_camera == camera then some (later e rest) else rest

abbrev same_reason : Reason → Reason → Bool
same_reason operator_disabled operator_disabled = true
same_reason media_check_pending media_check_pending = true
same_reason authentication_failed_reason authentication_failed_reason = true
same_reason all_streams_healthy all_streams_healthy = true
same_reason all_streams_offline all_streams_offline = true
same_reason partial_stream_failure partial_stream_failure = true
same_reason media_probe_failed media_probe_failed = true
same_reason _ _ = false

abbrev pub same_state : CameraState → CameraState → Bool
same_state disabled disabled = true
same_state (of_streams a) (of_streams b) = is_health a b
same_state _ _ = false

abbrev is_news : CameraState → Reason → Option HealthEvent → Bool
is_news state reason none = true
is_news state reason (some e) = not (same_state e.state state && same_reason e.reason reason)

-- The health event that a transition writes: only where the state or the reason is a new one.
unfoldable pub record_event : Database → ℕ → ℕ → CameraState × Reason → Database
unfolding latest_event
record_event db camera now (state, reason) =
    if is_news state reason (latest_event camera db.health_events)
    then record db {
      health_events =
          db.health_events
          ++ record { of_camera = camera; state = state; reason = reason; observed_at = now } ∷ [];
    }
    else db
