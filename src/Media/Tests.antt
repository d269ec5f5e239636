-- ===== src/Media/Tests.antt =====
-- Streams and frames, run through the monitors.
use reefy_camadmiral.Prelude.{
  ℕ, ◌≡◌, ◌≢◌, ◌≤◌, refl, String, true, false, none, some, [], ◌∷◌, arith, length,
}
use reefy_camadmiral.Prelude.Dict.{get, put, pop}
use reefy_camadmiral.Repository.{refused}
use reefy_camadmiral.Json.{
  Value, number, text, array, object, Fields, no_fields, field, empty, first,
}
use reefy_camadmiral.Media.{
  FrameCache, total, cache_frame, active_video_sample, first_sample, video_packets,
  has_external_consumers,
}
use reefy_camadmiral.Media.Activity.{
  ActivityMonitor, RuntimeSource, member, poll, current_sample, is_viewed, visit, visit_all, forget,
  next_sample, advance,
}
use reefy_camadmiral.Media.Sampling.{
  ManagedSource, Samples, not_done, broken, measured, capacity, same_source, by_stream,
  preferred_streams, note, collect_one, collect, is_due, insert_due, due_sources, take, start_all,
  dispatch, sample_periodic_sources,
}
use reefy_camadmiral.Media.Capacity.{sampling_bounded}
use reefy_camadmiral.Media.Authentication.{waiting}
use reefy_camadmiral.Media.Probing.{
  HealthMonitor, Cycle, missing_source, probed, observe, observe_all, merge, count_failure,
  count_result, count_all, auth_failures, update, restrict, cleaned, conclude, sampled, observed,
  merged, probe_runtime, answered, probe,
}
use reefy_camadmiral.Media.Known.{known_sources}
use reefy_camadmiral.Media.Verdicts.{reports_ready}
use reefy_camadmiral.Media.Watched.{AreApart, is_running, runs, running_is_ready}
use reefy_camadmiral.Media.Bounds.{IsBounded, cache_frame-IsBounded}
use reefy_camadmiral.Media.Stalls.{poll-stalled, has_stalled, AreDistinct}

abbrev show : Value → String
show v = "?"

abbrev video : ℕ → Value
video n = object (
    field "codec" (object (field "codec_type" (text "video") no_fields))
      (field "packets" (number n) no_fields))

-- A stream that one viewer watches, with `n` packets of video.
abbrev watched : ℕ → Fields
watched n =
    field "door"
      (object (
        field "consumers" (array (first (object no_fields) empty)) (
          field "producers"
            (array (
              first
                (object (
                  field "bytes_recv" (number 1) (
                    field "id" (text "p")
                      (field "receivers" (array (first (video n) empty)) no_fields))))
                empty))
            no_fields)))
      no_fields

abbrev door : RuntimeSource
door = record { stream_uuid = "s"; camera_uuid = "c"; stream_key = "door" }

abbrev seen_at_1000 : ActivityMonitor
seen_at_1000 = record {
  stall_threshold = 5000;
  samples = ("s", record { producer = "p"; packets = 40; last_advanced_at = 1000 }) ∷ [];
  stalled_camera_uuids = [];
}

-- No packet came for five seconds; one came.
polls_run :
    ((poll show seen_at_1000 (door ∷ []) (some (watched 40)) 6000).0 ≡ some ("c" ∷ []))
    × ((poll show seen_at_1000 (door ∷ []) (some (watched 41)) 6000).0 ≡ some [])
    × ((poll show seen_at_1000 (door ∷ []) (some (watched 40)) 5999).0 ≡ some [])
unfolding poll visit_all visit current_sample is_viewed next_sample advance active_video_sample
    first_sample video_packets has_external_consumers get put forget
polls_run = (refl, refl, refl)

stalled_example :
    ((poll show seen_at_1000 (door ∷ []) (some (watched 40)) 6000).0
      ≡ some (poll show seen_at_1000 (door ∷ []) (some (watched 40)) 6000).1.stalled_camera_uuids)
    × (member "c"
          (poll show seen_at_1000 (door ∷ []) (some (watched 40)) 6000).1.stalled_camera_uuids
        ≡ has_stalled show 5000 6000 (watched 40) seen_at_1000.samples (door ∷ []) "c")
unfolding AreDistinct
stalled_example = poll-stalled show seen_at_1000 (door ∷ []) (watched 40) 6000 "c" (tt, tt)

abbrev small : FrameCache
small = record {
  thumbnail_cache_items = 2;
  thumbnail_cache_max_bytes = 4;
  frames =
      ("a", record { content = 1 ∷ 2 ∷ []; captured_at = 5 })
      ∷ ("b", record { content = 3 ∷ []; captured_at = 4 })
      ∷ [];
}

small-IsBounded : IsBounded 2 4 small.frames
unfolding IsBounded total
small-IsBounded = (omega arith, omega arith)

cached_example : IsBounded 2 4 (cache_frame small "c" (7 ∷ 8 ∷ []) 9).1.frames
cached_example = cache_frame-IsBounded small "c" (7 ∷ 8 ∷ []) 9 small-IsBounded

abbrev source : ManagedSource
source = record {
  stream_uuid = "s";
  camera_uuid = "c";
  stream_key = "door";
  uri = "rtsp://camera/1";
  username = "admin";
  password = "secret";
  credential_uuid = "k";
}

abbrev health_monitor : HealthMonitor
health_monitor = record {
  pool = record { frame_probe_interval = 60000; frame_probe_batch_size = 4; probe_workers = 4 };
  video_samples = ("s", ("p", 39)) ∷ [];
  failure_samples = ("s", 1) ∷ [];
  attempts = [];
  retries = [];
  pending = [];
  cache = small;
  pending_auth = [];
}

abbrev no_cycle : Cycle
no_cycle = record {
  now = record { wall = 9000; monotonic = 1000 };
  latency_ms = 7;
  auth_retry_schedule = [];
  auth_sources = [];
  validations = λ camera. waiting;
  claims = λ uid. false;
  sources = source ∷ [];
  preferred_sources = source ∷ [];
  runtime = some (watched 40);
  early = λ uid. not_done;
  late = λ uid. broken;
  diagnose = λ s. none;
}

-- A packet came for a viewer; a snapshot that fails right away does not change the report.
watched_example : reports_ready (probe show health_monitor no_cycle).1 "s" ≡ true
unfolding AreApart runs is_running has_external_consumers active_video_sample first_sample
    video_packets get
watched_example = running_is_ready show health_monitor no_cycle (watched 40) "s" (tt, tt) refl refl

looked_up_example : (probe show health_monitor no_cycle).1 ≢ missing_source
looked_up_example = known_sources show health_monitor no_cycle

abbrev samples_at_rest : Samples
samples_at_rest = record { pending = []; retries = []; attempts = []; cache = small; results = [] }

sampled_example :
    length
      (sample_periodic_sources health_monitor.pool
        (source ∷ [])
        (source ∷ [])
        no_cycle.now
        no_cycle.early
        no_cycle.late
        samples_at_rest).pending
    ≤ capacity 4
sampled_example =
    sampling_bounded health_monitor.pool (source ∷ []) (source ∷ []) no_cycle.now no_cycle.early
      no_cycle.late samples_at_rest (omega arith)

-- A failed snapshot of a stream that nobody watches is the second failure: the camera is asked, and
-- its answer, that the credentials are refused, is the report.
diagnosed_run :
    answered show health_monitor
      (record no_cycle { diagnose = λ s. some (measured refused 3) })
      (some no_fields)
    ≡ probed (("s", measured refused 3) ∷ []) (record health_monitor {
      video_samples = [];
      failure_samples = ("s", 2) ∷ [];
      attempts = ("s", 1000) ∷ [];
      retries = "s" ∷ [];
      cache = record small { frames = [] };
    })
unfolding answered probe_runtime merged observed sampled conclude cleaned restrict update
    auth_failures count_all count_result count_failure merge observe_all observe
    sample_periodic_sources dispatch start_all take due_sources insert_due is_due collect
    collect_one note by_stream preferred_streams same_source get put pop has_external_consumers
diagnosed_run = refl
