-- ===== src/Media/Known.antt =====
-- The sources that a cycle of the health loop looks up (camadmiral/media.py, `probe`).
use reefy_camadmiral.Prelude.{
  ◌≡◌, refl, String, Bool, true, false, Option, none, some, List, [], ◌∷◌, All, eq_iff, arith, ◌≢◌,
}
use reefy_camadmiral.Prelude.Dict.{Dict, get, put, has, get-put}
use reefy_camadmiral.Json.{Value, Fields}
use reefy_camadmiral.Repository.{ProbeResult}
use reefy_camadmiral.Media.Sampling.{ManagedSource, by_stream}
use reefy_camadmiral.Media.Capacity.{sampled-current}
use reefy_camadmiral.Media.Probing.{
  HealthMonitor, Cycle, Failures, missing_source, count_result, count_all, conclude, sampled,
  observed, merged, probe_runtime, answered, probe,
}
use reefy_camadmiral.Media.Keys.{AllKeys, merge-AllKeys, observe_all-AllKeys, has-AllKeys}

-- All results are of sources: the count does not stop.
pub count_all-counts :
    (sources : Dict ManagedSource) (results : Dict ProbeResult) (f : Failures)
    → AllKeys (λ uid. has sources uid) results
    → count_all sources results f ≢ none
unfolding count_all AllKeys
count_all-counts sources [] f h = λ e. cc
count_all-counts sources ((uid, result) ∷ results) f h =
    go (λ g. count_all-counts sources results g h.1) (get sources uid) h.0
  where
    go :
        ((g : Failures) → count_all sources results g ≢ none)
        → (o : Option ManagedSource) → elim o [ none ↦ false | some source ↦ true ] ≡ true
        → elim o [
          | none ↦ none
          | some source ↦ count_all sources results (count_result uid source result f)
        ]
          ≢ none
    go rest none e = ground (arith, e)
    go rest (some source) e = rest (count_result uid source result f)

by_stream-has :
    (sources : List ManagedSource) (known : Dict ManagedSource) (uid : String)
    → has known uid ≡ true
    → has (by_stream sources known) uid ≡ true
unfolding by_stream
by_stream-has [] known uid h = h
by_stream-has (s ∷ sources) known uid h =
    by_stream-has sources (put known s.stream_uuid s) uid
      (ground (arith, h, get-put known s.stream_uuid uid s))

by_stream-each :
    (sources : List ManagedSource) (known : Dict ManagedSource)
    → All (λ s. has (by_stream sources known) s.stream_uuid ≡ true) sources
unfolding by_stream
by_stream-each [] known = tt
by_stream-each (s ∷ sources) known = (
  by_stream-has sources (put known s.stream_uuid s) s.stream_uuid (
      ground
        (arith, eq_iff s.stream_uuid s.stream_uuid, get-put known s.stream_uuid s.stream_uuid s)),
  by_stream-each sources (put known s.stream_uuid s),
)

module _ (show : Value → String) (monitor : HealthMonitor) (cycle : Cycle) (runtime : Fields) where
  pub merged-known :
      AllKeys
        (λ uid. has (by_stream cycle.sources []) uid)
        (merged show monitor cycle runtime).results
  unfolding merged observed sampled AllKeys
  merged-known =
      merge-AllKeys is_known (observed show monitor cycle runtime).results
        (sampled monitor cycle).results _
        (has-AllKeys is_known (sampled monitor cycle).results (λ uid.
          sampled-current monitor.pool cycle.sources cycle.preferred_sources cycle.now cycle.early
            cycle.late _ uid))
        (observe_all-AllKeys is_known show cycle.latency_ms runtime cycle.sources _
          (by_stream-each cycle.sources []) tt)
    where
      is_known : String → Bool
      is_known uid = has (by_stream cycle.sources []) uid

conclude-counted :
    (diagnose : ManagedSource → Option ProbeResult) (sources : List ManagedSource)
    (results : Dict ProbeResult) (monitor : HealthMonitor) (o : Option Failures)
    → o ≢ none
    → conclude diagnose sources results monitor o ≢ missing_source
unfolding conclude
conclude-counted diagnose sources results monitor none n = λ e. n refl
conclude-counted diagnose sources results monitor (some f) n = λ e. cc

-- A cycle never looks up a source that it does not have: each result, of a viewer or of a
-- snapshot that was asked for in an earlier cycle, is of one of the sources of this cycle.
pub known_sources :
    (show : Value → String) (monitor : HealthMonitor) (cycle : Cycle)
    → (probe show monitor cycle).1 ≢ missing_source
unfolding probe answered probe_runtime
known_sources show monitor cycle = go _ cycle.runtime
  where
    go : (m : HealthMonitor) (o : Option Fields) → answered show m cycle o ≢ missing_source
    go m none = λ e. cc
    go m (some runtime) =
        conclude-counted cycle.diagnose cycle.sources (merged show m cycle runtime).results _ _ (
          count_all-counts (by_stream cycle.sources []) (merged show m cycle runtime).results _
            (merged-known show m cycle runtime))
