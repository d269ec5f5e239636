-- ===== src/Repository/Probes.antt =====
-- `record_probe_results` and `record_camera_auth_failure` of camadmiral/storage.py. The status
-- `auth_failed` of a probe is `refused` here.
pub mod Thresholds
pub mod Invariants
use reefy_camadmiral.Prelude.{
  ℕ, suc, ◌+◌, ◌<◌, Bool, true, false, not, ◌&&◌, ◌||◌, Option, none, some, List, [], ◌∷◌, ◌++◌,
  any, keep, map, find_row, update_rows, leb, ltb, ◌==◌, if◌then◌else◌,
}
use reefy_camadmiral.Repository.{
  HealthStatus, unknown, healthy, degraded, offline, auth_failed, ProbeStatus, ready, idle, refused,
  failing, ProbeResult, Stream, AuthRetry, Database, is_health,
}
use reefy_camadmiral.Repository.Incidents.{record_camera_health_transition}

abbrev pub is_ready : ProbeStatus → Bool
is_ready ready = true
is_ready _ = false

unfoldable pub next_failures : ProbeStatus → ℕ → ℕ
next_failures ready n = 0
next_failures idle n = 0
next_failures _ n = n + 1

abbrev by_failures : ℕ → HealthStatus → HealthStatus
by_failures failures old =
    if leb 3 failures
    then offline
    else if leb 2 failures
    then degraded
    else if is_health old healthy
    then healthy
    else unknown

-- The health of a stream behind a probe, by the failures in a row with it and the health before.
unfoldable pub next_health : ProbeStatus → ℕ → HealthStatus → HealthStatus
next_health ready failures old = healthy
next_health idle failures old = unknown
next_health refused failures old = auth_failed
next_health (failing _) failures old = by_failures failures old

-- `COALESCE(?, column)`
abbrev coalesce {ℓ} : {A : Type ℓ} → Option A → Option A → Option A
coalesce none old = old
coalesce (some a) old = some a

-- `CASE WHEN ?>0 THEN ? ELSE column END`
abbrev positive_or : ℕ → ℕ → ℕ
positive_or new old = if ltb 0 new then new else old

abbrev keep_media : ProbeResult → Stream → Stream
keep_media r s =
    if is_ready r.result_status
    then record s {
      video_codec = coalesce r.video s.video_codec;
      audio_codec = coalesce r.audio s.audio_codec;
      probed_width = positive_or r.width s.probed_width;
      probed_height = positive_or r.height s.probed_height;
      probed_fps = positive_or r.fps s.probed_fps;
    }
    else s

-- The two updates of a stream's row.
unfoldable pub observe : ProbeResult → ℕ → Stream → Stream
unfolding next_failures next_health
observe r now s =
    let failures = next_failures r.result_status s.consecutive_failures in
    keep_media r (record s {
      probe_status = some r.result_status;
      probed_at = some now;
      probe_latency_ms = some r.latency_ms;
      health_status = next_health r.result_status failures s.health_status;
      consecutive_failures = failures;
      last_ready_at = if is_ready r.result_status then some now else s.last_ready_at;
      last_failure_at = if is_ready r.result_status then s.last_failure_at else some now;
    })

abbrev pub is_retry_of : ℕ → AuthRetry → Bool
is_retry_of stream r = r.retry_stream == stream

-- Refused credentials enrol a stream for a retry unless it is enrolled; a ready stream leaves.
unfoldable pub enrol : ProbeStatus → ℕ → ℕ → List AuthRetry → List AuthRetry
enrol refused stream now retries =
    if any (is_retry_of stream) retries
    then retries
    else retries ++ record { retry_stream = stream; attempts = 0; next_attempt = now + 60 } ∷ []
enrol ready stream now retries = keep (λ r. not (is_retry_of stream r)) retries
enrol _ stream now retries = retries

abbrev record_found : Database → ℕ → ProbeResult → ℕ → Option Stream → Database
record_found db stream r now none = db
record_found db stream r now (some _) = record db {
  auth_retries = enrol r.result_status stream now db.auth_retries;
  streams = update_rows (λ s. s.stream_uuid == stream) (observe r now) db.streams;
}

abbrev pub find_stream : Database → ℕ → Option Stream
find_stream db stream = find_row (λ s. s.stream_uuid == stream) db.streams

unfoldable pub record_result : Database → ℕ → ProbeResult → ℕ → Database
unfolding observe enrol
record_result db stream r now = record_found db stream r now (find_stream db stream)

-- `affected_cameras.add(…)`: the set in the order in which its cameras are met
abbrev add_camera : Option Stream → List ℕ → List ℕ
add_camera none cameras = cameras
add_camera (some s) cameras =
    if any (λ c. c == s.owner) cameras then cameras else cameras ++ s.owner ∷ []

-- The loop over the results, with the cameras affected so far.
unfoldable pub record_results : Database → List (ℕ × ProbeResult) → ℕ → List ℕ → Database × List ℕ
record_results db [] now cameras = (db, cameras)
record_results db ((stream, r) ∷ rest) now cameras =
    record_results (record_result db stream r now) rest now
      (add_camera (find_stream db stream) cameras)

-- The loop over the affected cameras.
unfoldable pub record_transitions : Database → List ℕ → ℕ → Database
record_transitions db [] now = db
record_transitions db (camera ∷ cameras) now =
    record_transitions (record_camera_health_transition db camera now) cameras now

unfoldable pub record_probe_results : Database → List (ℕ × ProbeResult) → ℕ → Database
record_probe_results db results now =
    let (db', cameras) = record_results db results now [] in record_transitions db' cameras now

-- The same result for every stream of a camera.
unfoldable pub record_camera_auth_failure : Database → ℕ → ProbeResult → ℕ → Database
record_camera_auth_failure db camera r now =
    record_probe_results db
      (map (λ s. (s.stream_uuid, r)) (keep (λ s. s.owner == camera) db.streams)) now
