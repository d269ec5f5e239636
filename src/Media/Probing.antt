-- ===== src/Media/Probing.antt =====
-- `probe` of RelayHealthMonitor in camadmiral/media.py: one cycle of the health loop. What the
-- repository, go2rtc, the futures and the diagnostics answer stands in a Cycle.
use reefy_camadmiral.Prelude.{
  ℕ, suc, String, Bool, true, false, not, ◌||◌, Option, none, some, List, [], ◌∷◌, any, keep, ◌==◌,
  str_eq, ltb, if◌then◌else◌,
}
use reefy_camadmiral.Prelude.Dict.{Dict, get, put, pop, has}
use reefy_camadmiral.Json.{Value, Fields, get_field}
use reefy_camadmiral.Repository.{ProbeResult, ProbeStatus, ready, refused, failing}
use reefy_camadmiral.Repository.Probes.{is_ready}
use reefy_camadmiral.Media.{FrameCache, has_external_consumers, active_video_sample}
use reefy_camadmiral.Media.Sampling.{
  ManagedSource, Clock, Pending, Snapshot, Samples, Pool, measured, unavailable, discard, by_stream,
  sample_periodic_sources,
}
use reefy_camadmiral.Media.Authentication.{Validation, Retries, retry_authentication}

abbrev pub is_unavailable : ProbeStatus → Bool
is_unavailable (failing reason) = str_eq reason "unavailable"
is_unavailable _ = false

abbrev pub is_auth_failed : ProbeStatus → Bool
is_auth_failed refused = true
is_auth_failed _ = false

-- What the loop over the sources changes.
pub record Observed : Type 0 where
  pub video_samples : Dict (String × ℕ)
  pub results : Dict ProbeResult

abbrev pub is_advancing : Option (String × ℕ) → String → ℕ → Bool
is_advancing none producer packets = true
is_advancing (some previous) producer packets =
    not (str_eq previous.0 producer) || ltb previous.1 packets

abbrev no_video : ℕ → String → Observed → Observed
no_video latency uid o = record {
  video_samples = pop o.video_samples uid;
  results = put o.results uid (measured unavailable latency);
}

unfoldable pub report : ℕ → String → Option (String × ℕ) → Observed → Observed
report latency uid none o = no_video latency uid o
report latency uid (some (producer, packets)) o =
    let advancing = is_advancing (get o.video_samples uid) producer packets in
    if ltb 0 packets
    then record {
      video_samples = put o.video_samples uid (producer, packets);
      results = put o.results uid (measured (if advancing then ready else unavailable) latency);
    }
    else no_video latency uid o

module _ (show : Value → String) (latency : ℕ) (runtime : Fields) where
  unfoldable pub observe : ManagedSource → Observed → Observed
  observe source o =
      if has_external_consumers (get_field runtime source.stream_key)
      then report latency source.stream_uuid
          (active_video_sample show (get_field runtime source.stream_key)) o
      else record o { video_samples = pop o.video_samples source.stream_uuid }

  unfoldable pub observe_all : List ManagedSource → Observed → Observed
  observe_all [] o = o
  observe_all (source ∷ sources) o = observe_all sources (observe source o)

-- What the periodic results change.
pub record Merged : Type 0 where
  pub retries : List String
  pub results : Dict ProbeResult

abbrev pub overrides : Option ProbeResult → ProbeResult → Bool
overrides none result = true
overrides (some active) result =
    not (is_ready active.result_status) || is_ready result.result_status

unfoldable pub merge : Dict ProbeResult → Dict ProbeResult → Merged → Merged
merge active [] m = m
merge active ((uid, result) ∷ periodic) m =
    let taken = merge active periodic (record m { results = put m.results uid result }) in
    let left = merge active periodic (record m { retries = discard uid m.retries }) in
    if overrides (get active uid) result then taken else left

-- What the count of the failures changes.
pub record Failures : Type 0 where
  pub failure_samples : Dict ℕ
  pub diagnostic_sources : Dict ManagedSource  -- by camera

abbrev failures_of : Option ℕ → ℕ
failures_of none = 0
failures_of (some n) = n

-- The second failure in a row asks for a diagnostic, one per camera.
unfoldable pub count_failure : String → ManagedSource → ℕ → Failures → Failures
count_failure uid source failures f =
    if failures == 2
    then if has f.diagnostic_sources source.camera_uuid
      then record f { failure_samples = put f.failure_samples uid 1 }
      else record {
        failure_samples = put f.failure_samples uid failures;
        diagnostic_sources = put f.diagnostic_sources source.camera_uuid source;
      }
    else record f { failure_samples = put f.failure_samples uid failures }

unfoldable pub count_result : String → ManagedSource → ProbeResult → Failures → Failures
count_result uid source result f =
    if is_unavailable result.result_status
    then count_failure uid source (suc (failures_of (get f.failure_samples uid))) f
    else record f { failure_samples = pop f.failure_samples uid }

-- The loop over the results; `none` is the KeyError of `source_by_stream[stream_uuid]`.
unfoldable pub count_all : Dict ManagedSource → Dict ProbeResult → Failures → Option Failures
count_all sources [] f = some f
count_all sources ((uid, result) ∷ results) f = elim (get sources uid) [
  | none ↦ none
  | some source ↦ count_all sources results (count_result uid source result f)
]

-- The answers of `probe_source`, `none` where it raises.
abbrev pub failure_of : String → Option ProbeResult → Dict ProbeResult → Dict ProbeResult
failure_of uid none failures = failures
failure_of uid (some diagnostic) failures =
    if is_auth_failed diagnostic.result_status then put failures uid diagnostic else failures

unfoldable pub auth_failures :
    (ManagedSource → Option ProbeResult) → Dict ManagedSource → Dict ProbeResult → Dict ProbeResult
auth_failures diagnose [] failures = failures
auth_failures diagnose ((camera, source) ∷ sources) failures =
    auth_failures diagnose sources (failure_of source.stream_uuid (diagnose source) failures)

-- `results.update(…)`
unfoldable pub update : Dict ProbeResult → Dict ProbeResult → Dict ProbeResult
update results [] = results
update results ((uid, result) ∷ more) = update (put results uid result) more

-- `for key in set(d) - active: d.pop(key, None)`
unfoldable pub restrict : {V : Type 0} → (String → Bool) → Dict V → Dict V
restrict is_active [] = []
restrict is_active ((k, v) ∷ d) =
    let rest = restrict is_active d in if is_active k then (k, v) ∷ rest else rest

-- RelayHealthMonitor: its settings and its collections.
pub record HealthMonitor : Type 0 where
  pub pool : Pool
  pub video_samples : Dict (String × ℕ)
  pub failure_samples : Dict ℕ
  pub attempts : Dict ℕ
  pub retries : List String
  pub pending : Dict Pending
  pub cache : FrameCache
  pub pending_auth : Dict Pending

-- What a cycle is told: `auth_sources` are the sources with the refused ones, `runtime` is none
-- where go2rtc answers with no object, `early` and `late` are the snapshots at the two collections.
pub record Cycle : Type 0 where
  pub now : Clock
  pub latency_ms : ℕ
  pub auth_retry_schedule : Dict ℕ
  pub auth_sources : List ManagedSource
  pub validations : String → Validation
  pub claims : String → Bool
  pub sources : List ManagedSource
  pub preferred_sources : List ManagedSource
  pub runtime : Option Fields
  pub early : String → Snapshot
  pub late : String → Snapshot
  pub diagnose : ManagedSource → Option ProbeResult

pub data Probed : Type 0 where
  invalid_state missing_source : Probed  -- RuntimeError, KeyError
  probed : Dict ProbeResult → HealthMonitor → Probed

unfoldable pub cleaned : List ManagedSource → HealthMonitor → HealthMonitor
cleaned sources monitor =
    let is_active : String → Bool = λ uid. any (λ s. str_eq s.stream_uuid uid) sources in
    let is_watched : String → Bool = λ uid. any (λ s. str_eq s.camera_uuid uid) sources in
    record monitor {
      video_samples = restrict is_active monitor.video_samples;
      failure_samples = restrict is_active monitor.failure_samples;
      attempts = restrict is_active monitor.attempts;
      retries = keep (λ uid. is_active uid || not (has monitor.attempts uid)) monitor.retries;
      cache = record monitor.cache { frames = restrict is_watched monitor.cache.frames };
    }

-- After the count: the diagnostics, the cleanup and the results.
unfoldable pub conclude :
    (ManagedSource → Option ProbeResult)
    → List ManagedSource
    → Dict ProbeResult
    → HealthMonitor
    → Option Failures
    → Probed
conclude diagnose sources results monitor none = missing_source
conclude diagnose sources results monitor (some f) =
    probed (update results (auth_failures diagnose f.diagnostic_sources []))
      (cleaned sources (record monitor { failure_samples = f.failure_samples }))

unfoldable pub sampled : HealthMonitor → Cycle → Samples
sampled monitor cycle =
    sample_periodic_sources monitor.pool cycle.sources cycle.preferred_sources cycle.now cycle.early
      cycle.late
      record {
        pending = monitor.pending;
        retries = monitor.retries;
        attempts = monitor.attempts;
        cache = monitor.cache;
        results = [];
      }

unfoldable pub observed : (Value → String) → HealthMonitor → Cycle → Fields → Observed
observed show monitor cycle runtime =
    observe_all show cycle.latency_ms runtime cycle.sources
      record { video_samples = monitor.video_samples; results = [] }

unfoldable pub merged : (Value → String) → HealthMonitor → Cycle → Fields → Merged
merged show monitor cycle runtime =
    let active = (observed show monitor cycle runtime).results in
    merge active (sampled monitor cycle).results
      record { retries = (sampled monitor cycle).retries; results = active }

-- The cycle after go2rtc has answered with an object.
unfoldable pub probe_runtime : (Value → String) → HealthMonitor → Cycle → Fields → Probed
probe_runtime show monitor cycle runtime =
    let results = (merged show monitor cycle runtime).results in
    conclude cycle.diagnose cycle.sources results
      (record monitor {
        video_samples = (observed show monitor cycle runtime).video_samples;
        attempts = (sampled monitor cycle).attempts;
        retries = (merged show monitor cycle runtime).retries;
        pending = (sampled monitor cycle).pending;
        cache = (sampled monitor cycle).cache;
      })
      (count_all (by_stream cycle.sources []) results
        record { failure_samples = monitor.failure_samples; diagnostic_sources = [] })

unfoldable pub answered : (Value → String) → HealthMonitor → Cycle → Option Fields → Probed
answered show monitor cycle none = invalid_state
answered show monitor cycle (some runtime) = probe_runtime show monitor cycle runtime

-- The validations of credentials first, whatever comes of the cycle.
unfoldable pub probe : (Value → String) → HealthMonitor → Cycle → Retries × Probed
probe show monitor cycle =
    let retried =
      retry_authentication monitor.pool.probe_workers cycle.now cycle.auth_retry_schedule
        cycle.auth_sources cycle.validations cycle.claims monitor.pending_auth in
    (
      retried,
      answered show (record monitor { pending_auth = retried.pending_auth }) cycle cycle.runtime,
    )
