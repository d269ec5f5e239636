-- ===== src/Media/Verdicts.antt =====
-- What a cycle of the health loop reports (camadmiral/media.py, `probe`).
use reefy_camadmiral.Prelude.{
  ◌≡◌, refl, String, Bool, true, false, Option, none, some, List, [], ◌∷◌, str_eq, eq_iff,
  Bool-cases, inl, inr, arith, if◌then◌else◌, ◌≢◌, ◌∙◌,
}
use reefy_camadmiral.Prelude.Dict.{Dict, get, put, has, get-put}
use reefy_camadmiral.Json.{Value, Fields}
use reefy_camadmiral.Repository.{ProbeResult, ProbeStatus, ready, idle, refused, failing}
use reefy_camadmiral.Repository.Probes.{is_ready}
use reefy_camadmiral.Media.Sampling.{ManagedSource, by_stream}
use reefy_camadmiral.Media.Probing.{
  HealthMonitor, Cycle, Merged, Failures, Probed, probed, overrides, merge, auth_failures, update,
  conclude, sampled, observed, merged, probe_runtime, is_unavailable,
}
use reefy_camadmiral.Media.Keys.{merged-IsKeyed}
use reefy_camadmiral.Media.Known.{count_all-counts, merged-known}
use reefy_camadmiral.Media.Diagnosed.{
  Spares, by_stream-named, spared, count_all-Spares, auth_failures-absent,
}

abbrev is_ready_result : Option ProbeResult → Bool
is_ready_result none = false
is_ready_result (some result) = is_ready result.result_status

-- A stream is reported as ready.
unfoldable pub has_ready : Dict ProbeResult → String → Bool
has_ready results uid = is_ready_result (get results uid)

pub has_ready-put :
    (d : Dict ProbeResult) (k uid : String) (r : ProbeResult)
    → has_ready (put d k r) uid
      ≡ (if str_eq k uid then is_ready r.result_status else has_ready d uid)
unfolding has_ready
has_ready-put d k uid r = elim (Bool-cases (str_eq k uid)) [
  | inl e ↦ rw (has_ready, get-put, e) refl
  | inr e ↦ rw (has_ready, get-put, e) refl
]

overrides-ready :
    (active : Dict ProbeResult) (uid : String) (r : ProbeResult)
    → has_ready active uid ≡ true
    → overrides (get active uid) r ≡ true
    → is_ready r.result_status ≡ true
unfolding has_ready
overrides-ready active uid r h e = go (get active uid) h e
  where
    go :
        (o : Option ProbeResult)
        → is_ready_result o ≡ true
        → overrides o r ≡ true
        → is_ready r.result_status ≡ true
    go none h e = ground (arith, h)
    go (some result) h e = ground (arith, h, e)

-- A reading of ready is not taken back by a snapshot that failed.
merge-ready :
    (active periodic : Dict ProbeResult) (m : Merged) (uid : String)
    → has_ready active uid ≡ true
    → has_ready m.results uid ≡ true
    → has_ready (merge active periodic m).results uid ≡ true
unfolding merge
merge-ready active [] m uid h g = g
merge-ready active ((other, result) ∷ periodic) m uid h g =
    elim (Bool-cases (overrides (get active other) result)) [
      | inl e ↦ rw e (merge-ready active periodic _ uid h (kept e))
      | inr e ↦ rw e (merge-ready active periodic _ uid h g)
    ]
  where
    kept :
        overrides (get active other) result ≡ true
        → has_ready (put m.results other result) uid ≡ true
    kept e = ground (arith, has_ready-put m.results other uid result, eq_iff other uid, g, ready_if)
      where
        ready_if : str_eq other uid ≡ true → is_ready result.result_status ≡ true
        ready_if q = overrides-ready active other result (rw ((eq_iff other uid).0 q) h) e

has_ready-update :
    (results failures : Dict ProbeResult) (uid : String)
    → has failures uid ≡ false
    → has_ready (update results failures) uid ≡ has_ready results uid
unfolding update get
has_ready-update results [] uid h = refl
has_ready-update results ((k, r) ∷ failures) uid h = elim (Bool-cases (str_eq k uid)) [
  | inl q ↦ ground (arith, h, q)
  | inr q ↦
      (has_ready-update (put results k r) failures uid (ground (arith, h, q))
        ∙ (has_ready-put results k uid r ∙ rw q refl))
]

-- A stream is reported as ready by a cycle that reports.
unfoldable pub reports_ready : Probed → String → Bool
reports_ready (probed results monitor) uid = has_ready results uid
reports_ready _ uid = false

has_ready-spared :
    (results : Dict ProbeResult) (uid : String)
    → has_ready results uid ≡ true
    → spared (get results uid) ≡ true
unfolding has_ready
has_ready-spared results uid h = go (get results uid) h
  where
    status : (s : ProbeStatus) → is_ready s ≡ true → is_unavailable s ≡ false
    status ready h = refl
    status idle h = refl
    status refused h = refl
    status (failing reason) h = ground (arith, h)

    go : (o : Option ProbeResult) → is_ready_result o ≡ true → spared o ≡ true
    go none h = refl
    go (some result) h = ground (arith, status result.result_status h)

conclude-ready :
    (diagnose : ManagedSource → Option ProbeResult) (sources : List ManagedSource)
    (results : Dict ProbeResult) (monitor : HealthMonitor) (uid : String) (o : Option Failures)
    → o ≢ none
    → ((f : Failures) → o ≡ some f → Spares uid f.diagnostic_sources)
    → has_ready results uid ≡ true
    → reports_ready (conclude diagnose sources results monitor o) uid ≡ true
unfolding conclude reports_ready get
conclude-ready diagnose sources results monitor uid none n s h = elim (n refl) [ ]
conclude-ready diagnose sources results monitor uid (some f) n s h =
    has_ready-update results (auth_failures diagnose f.diagnostic_sources []) uid
      (auth_failures-absent diagnose f.diagnostic_sources [] uid (s f refl) refl)
    ∙ h

module _ (show : Value → String) (monitor : HealthMonitor) (cycle : Cycle) (runtime : Fields) where
  pub probe_runtime-ready :
      (uid : String)
      → has_ready (observed show monitor cycle runtime).results uid ≡ true
      → reports_ready (probe_runtime show monitor cycle runtime) uid ≡ true
  unfolding probe_runtime merged Spares get
  probe_runtime-ready uid h =
      conclude-ready cycle.diagnose cycle.sources results _ uid _
        (count_all-counts (by_stream cycle.sources []) results _
          (merged-known show monitor cycle runtime))
        (λ f.
          count_all-Spares (by_stream cycle.sources []) results _ f uid
            (by_stream-named cycle.sources [] (λ k. refl))
            (merged-IsKeyed show monitor cycle runtime) (has_ready-spared results uid is_kept) tt)
        is_kept
    where
      results : Dict ProbeResult
      results = (merged show monitor cycle runtime).results

      is_kept : has_ready results uid ≡ true
      is_kept =
          merge-ready (observed show monitor cycle runtime).results (sampled monitor cycle).results
            _ uid h h
