-- ===== src/Media/Watched.antt =====
-- The streams that a viewer watches, in a cycle of the health loop (camadmiral/media.py, `probe`).
use reefy_camadmiral.Prelude.{
  ℕ, ◌≡◌, refl, String, Bool, true, false, ◌&&◌, Option, none, some, List, [], ◌∷◌, All, any,
  str_eq, eq_iff, ltb, Bool-cases, inl, inr, arith, ◌∙◌,
}
use reefy_camadmiral.Prelude.Dict.{Dict, get, get-put, get-pop}
use reefy_camadmiral.Json.{Value, Fields, get_field}
use reefy_camadmiral.Media.{has_external_consumers, active_video_sample}
use reefy_camadmiral.Media.Sampling.{ManagedSource}
use reefy_camadmiral.Media.Probing.{
  HealthMonitor, Cycle, Observed, is_advancing, report, observe, observe_all, observed, answered,
  probe,
}
use reefy_camadmiral.Media.Verdicts.{has_ready, has_ready-put, reports_ready, probe_runtime-ready}

-- No two sources are of one stream.
unfoldable pub AreApart : List ManagedSource → Type 0
AreApart [] = Unit
AreApart (s ∷ sources) =
    All (λ r. str_eq s.stream_uuid r.stream_uuid ≡ false) sources × AreApart sources

flipped :
    (s : ManagedSource) (sources : List ManagedSource)
    → All (λ r. str_eq s.stream_uuid r.stream_uuid ≡ false) sources
    → All (λ r. str_eq r.stream_uuid s.stream_uuid ≡ false) sources
flipped s [] h = tt
flipped s (r ∷ sources) h = (
  ground (arith, h.0, eq_iff s.stream_uuid r.stream_uuid, eq_iff r.stream_uuid s.stream_uuid),
  flipped s sources h.1,
)

-- Packets of video came, more than before or from another producer.
abbrev has_advanced : Option (String × ℕ) → Option (String × ℕ) → Bool
has_advanced previous none = false
has_advanced previous (some (producer, packets)) =
    ltb 0 packets && is_advancing previous producer packets

module _ (show : Value → String) (runtime : Fields) where
  -- A viewer watches the stream, and the stream has advanced since the samples.
  unfoldable pub is_running : Dict (String × ℕ) → ManagedSource → Bool
  is_running samples s =
      has_external_consumers (get_field runtime s.stream_key)
      && has_advanced (get samples s.stream_uuid)
          (active_video_sample show (get_field runtime s.stream_key))

  unfoldable pub runs : Dict (String × ℕ) → List ManagedSource → String → Bool
  runs samples sources uid = any (λ s. str_eq s.stream_uuid uid && is_running samples s) sources

  module _ (latency : ℕ) where
    report-apart :
        (uid other : String) (sample : Option (String × ℕ)) (o : Observed)
        → str_eq uid other ≡ false
        → (has_ready (report latency uid sample o).results other ≡ has_ready o.results other)
          × (get (report latency uid sample o).video_samples other ≡ get o.video_samples other)
    unfolding report
    report-apart uid other none o e = (rw (has_ready-put, e) refl, rw (get-pop, e) refl)
    report-apart uid other (some (producer, packets)) o e = elim (Bool-cases (ltb 0 packets)) [
      | inl q ↦ rw q (rw (has_ready-put, e) refl, rw (get-put, e) refl)
      | inr q ↦ rw q (rw (has_ready-put, e) refl, rw (get-pop, e) refl)
    ]

    report-ready :
        (uid : String) (sample : Option (String × ℕ)) (o : Observed)
        → has_advanced (get o.video_samples uid) sample ≡ true
        → has_ready (report latency uid sample o).results uid ≡ true
    unfolding report
    report-ready uid none o h = ground (arith, h)
    report-ready uid (some (producer, packets)) o h =
        rw moved (rw (has_ready-put, same, advanced) refl)
      where
        same : str_eq uid uid ≡ true
        same = ground (arith, eq_iff uid uid)

        moved : ltb 0 packets ≡ true
        moved = ground (arith, h)

        advanced : is_advancing (get o.video_samples uid) producer packets ≡ true
        advanced = ground (arith, h)

    observe-apart :
        (s : ManagedSource) (other : String) (o : Observed)
        → str_eq s.stream_uuid other ≡ false
        → (has_ready (observe show latency runtime s o).results other ≡ has_ready o.results other)
          × (get (observe show latency runtime s o).video_samples other ≡ get o.video_samples other)
    unfolding observe
    observe-apart s other o e =
        elim (Bool-cases (has_external_consumers (get_field runtime s.stream_key))) [
          | inl q ↦ rw q (report-apart s.stream_uuid other _ o e)
          | inr q ↦ rw q (refl, rw (get-pop, e) refl)
        ]

    observe-ready :
        (s : ManagedSource) (o : Observed)
        → is_running o.video_samples s ≡ true
        → has_ready (observe show latency runtime s o).results s.stream_uuid ≡ true
    unfolding observe is_running
    observe-ready s o h =
        elim (Bool-cases (has_external_consumers (get_field runtime s.stream_key))) [
          | inl q ↦ rw q (
              report-ready s.stream_uuid (active_video_sample show (get_field runtime s.stream_key))
                o (rw q at h))
          | inr q ↦ ground (arith, h, q)
        ]

    observe_all-apart :
        (sources : List ManagedSource) (other : String) (o : Observed)
        → All (λ r. str_eq r.stream_uuid other ≡ false) sources
        → has_ready (observe_all show latency runtime sources o).results other
          ≡ has_ready o.results other
    unfolding observe_all
    observe_all-apart [] other o h = refl
    observe_all-apart (s ∷ sources) other o h =
        observe_all-apart sources other _ h.1 ∙ (observe-apart s other o h.0).0

    runs-observe :
        (s : ManagedSource) (sources : List ManagedSource) (o : Observed) (uid : String)
        → All (λ r. str_eq s.stream_uuid r.stream_uuid ≡ false) sources
        → runs (observe show latency runtime s o).video_samples sources uid
          ≡ runs o.video_samples sources uid
    unfolding runs is_running
    runs-observe s [] o uid h = refl
    runs-observe s (r ∷ sources) o uid h =
        rw ((observe-apart s r.stream_uuid o h.0).1, runs-observe s sources o uid h.1) refl

    observe_all-ready :
        (sources : List ManagedSource) (o : Observed) (uid : String)
        → AreApart sources
        → runs o.video_samples sources uid ≡ true
        → has_ready (observe_all show latency runtime sources o).results uid ≡ true
    unfolding observe_all runs AreApart
    observe_all-ready [] o uid d h = ground (arith, h)
    observe_all-ready (s ∷ sources) o uid d h =
        elim (Bool-cases (str_eq s.stream_uuid uid && is_running o.video_samples s)) [
          | inl q ↦ rw⁻¹ ((eq_iff s.stream_uuid uid).0 (ground (arith, q))) (
              observe_all-apart sources s.stream_uuid _ (flipped s sources d.0)
              ∙ observe-ready s o (ground (arith, q)))
          | inr q ↦
              observe_all-ready sources _ uid d.1 (runs-observe s sources o uid d.0 ∙ rw q at h)
        ]

-- A stream that a viewer watches and whose packets have come since the last cycle is reported as
-- ready, whatever becomes of its snapshots and of the diagnostics of other streams; the sources
-- are of distinct streams and go2rtc answers with an object.
pub running_is_ready :
    (show : Value → String) (monitor : HealthMonitor) (cycle : Cycle) (runtime : Fields)
    (uid : String)
    → AreApart cycle.sources
    → cycle.runtime ≡ some runtime
    → runs show runtime monitor.video_samples cycle.sources uid ≡ true
    → reports_ready (probe show monitor cycle).1 uid ≡ true
unfolding probe answered observed
running_is_ready show monitor cycle runtime uid d e h =
    go (record monitor { pending_auth = _ }) cycle.runtime e h
  where
    go :
        (m : HealthMonitor) (o : Option Fields)
        → o ≡ some runtime
        → runs show runtime m.video_samples cycle.sources uid ≡ true
        → reports_ready (answered show m cycle o) uid ≡ true
    go m none e h = cc
    go m (some other) e h =
        let same : other ≡ runtime = cc in
        rw same (
          probe_runtime-ready show m cycle runtime uid
            (observe_all-ready show runtime cycle.latency_ms cycle.sources _ uid d h))
