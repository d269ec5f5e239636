-- ===== src/Media/Keys.antt =====
-- The keys of what a cycle of the health loop gathers (camadmiral/media.py, `probe`).
use reefy_camadmiral.Prelude.{
  ℕ, ◌≡◌, refl, String, Bool, true, false, Option, none, some, List, [], ◌∷◌, All, str_eq, eq_iff,
  ltb, Bool-cases, inl, inr, arith,
}
use reefy_camadmiral.Prelude.Dict.{Dict, get, put, has, get-put}
use reefy_camadmiral.Json.{Value, Fields, get_field}
use reefy_camadmiral.Repository.{ProbeResult}
use reefy_camadmiral.Media.{has_external_consumers}
use reefy_camadmiral.Media.Sampling.{ManagedSource}
use reefy_camadmiral.Media.Probing.{
  HealthMonitor, Cycle, Observed, Merged, report, observe, observe_all, overrides, merge, sampled,
  observed, merged,
}

-- Keys stand once in a dictionary that is built by putting.
unfoldable pub IsKeyed : {V : Type 0} → Dict V → Type 0
IsKeyed [] = Unit
IsKeyed ((k, v) ∷ d) = (has d k ≡ false) × IsKeyed d

put-IsKeyed : {V : Type 0} (d : Dict V) (k : String) (v : V) → IsKeyed d → IsKeyed (put d k v)
unfolding IsKeyed put get
put-IsKeyed [] k v h = (refl, tt)
put-IsKeyed ((j, w) ∷ d) k v h = elim (Bool-cases (str_eq j k)) [
  | inl e ↦ rw e h
  | inr e ↦ rw e (free e, put-IsKeyed d k v h.1)
]
  where
    free : str_eq j k ≡ false → has (put d k v) j ≡ false
    free e = ground (arith, e, h.0, eq_iff j k, eq_iff k j, get-put d k j v)

-- What putting a result of a known stream keeps, the loop over the sources keeps.
module _ (P : Dict ProbeResult → Type 0) where
  report-keeps :
      (latency : ℕ) (uid : String) (sample : Option (String × ℕ)) (o : Observed)
      → ((d : Dict ProbeResult) (r : ProbeResult) → P d → P (put d uid r))
      → P o.results
      → P (report latency uid sample o).results
  unfolding report
  report-keeps latency uid none o step h = step o.results _ h
  report-keeps latency uid (some (producer, packets)) o step h = elim (Bool-cases (ltb 0 packets)) [
    | inl e ↦ rw e (step o.results _ h)
    | inr e ↦ rw e (step o.results _ h)
  ]

  observe-keeps :
      (show : Value → String) (latency : ℕ) (runtime : Fields) (s : ManagedSource) (o : Observed)
      → ((d : Dict ProbeResult) (r : ProbeResult) → P d → P (put d s.stream_uuid r))
      → P o.results
      → P (observe show latency runtime s o).results
  unfolding observe
  observe-keeps show latency runtime s o step h =
      elim (Bool-cases (has_external_consumers (get_field runtime s.stream_key))) [
        | inl e ↦ rw e (report-keeps latency s.stream_uuid _ o step h)
        | inr e ↦ rw e h
      ]

pub observe_all-IsKeyed :
    (show : Value → String) (latency : ℕ) (runtime : Fields) (sources : List ManagedSource)
    (o : Observed)
    → IsKeyed o.results
    → IsKeyed (observe_all show latency runtime sources o).results
unfolding observe_all
observe_all-IsKeyed show latency runtime [] o h = h
observe_all-IsKeyed show latency runtime (s ∷ sources) o h =
    observe_all-IsKeyed show latency runtime sources _
      (observe-keeps IsKeyed show latency runtime s o (λ d r k. put-IsKeyed d s.stream_uuid r k) h)

pub merge-IsKeyed :
    (active periodic : Dict ProbeResult) (m : Merged)
    → IsKeyed m.results
    → IsKeyed (merge active periodic m).results
unfolding merge
merge-IsKeyed active [] m h = h
merge-IsKeyed active ((uid, result) ∷ periodic) m h =
    elim (Bool-cases (overrides (get active uid) result)) [
      | inl e ↦ rw e (merge-IsKeyed active periodic _ (put-IsKeyed m.results uid result h))
      | inr e ↦ rw e (merge-IsKeyed active periodic _ h)
    ]

-- Every key of a dictionary satisfies a test.
unfoldable pub AllKeys : {V : Type 0} → (String → Bool) → Dict V → Type 0
AllKeys is_known [] = Unit
AllKeys is_known ((k, v) ∷ d) = (is_known k ≡ true) × AllKeys is_known d

module _ (is_known : String → Bool) where
  put-AllKeys :
      {V : Type 0} (d : Dict V) (k : String) (v : V)
      → AllKeys is_known d
      → is_known k ≡ true
      → AllKeys is_known (put d k v)
  unfolding AllKeys put
  put-AllKeys [] k v h e = (e, tt)
  put-AllKeys ((j, w) ∷ d) k v h e = elim (Bool-cases (str_eq j k)) [
    | inl q ↦ rw q h
    | inr q ↦ rw q (h.0, put-AllKeys d k v h.1 e)
  ]

  pub merge-AllKeys :
      (active periodic : Dict ProbeResult) (m : Merged)
      → AllKeys is_known periodic
      → AllKeys is_known m.results
      → AllKeys is_known (merge active periodic m).results
  unfolding merge AllKeys
  merge-AllKeys active [] m p h = h
  merge-AllKeys active ((uid, result) ∷ periodic) m p h =
      elim (Bool-cases (overrides (get active uid) result)) [
        | inl e ↦
            rw e (merge-AllKeys active periodic _ p.1 (put-AllKeys m.results uid result h p.0))
        | inr e ↦ rw e (merge-AllKeys active periodic _ p.1 h)
      ]

  pub observe_all-AllKeys :
      (show : Value → String) (latency : ℕ) (runtime : Fields) (sources : List ManagedSource)
      (o : Observed)
      → All (λ s. is_known s.stream_uuid ≡ true) sources
      → AllKeys is_known o.results
      → AllKeys is_known (observe_all show latency runtime sources o).results
  unfolding observe_all
  observe_all-AllKeys show latency runtime [] o a h = h
  observe_all-AllKeys show latency runtime (s ∷ sources) o a h =
      observe_all-AllKeys show latency runtime sources _ a.1 (
        observe-keeps (AllKeys is_known) show latency runtime s o
          (λ d r k. put-AllKeys d s.stream_uuid r k a.0) h)

  pub has-AllKeys :
      {V : Type 0} (d : Dict V)
      → ((uid : String) → has d uid ≡ true → is_known uid ≡ true)
      → AllKeys is_known d
  unfolding AllKeys get
  has-AllKeys [] h = tt
  has-AllKeys ((k, v) ∷ d) h =
      (h k (ground (arith, eq_iff k k)), has-AllKeys d (λ uid e. h uid (ground (arith, e))))

module _ (show : Value → String) (monitor : HealthMonitor) (cycle : Cycle) (runtime : Fields) where
  pub merged-IsKeyed : IsKeyed (merged show monitor cycle runtime).results
  unfolding merged observed IsKeyed
  merged-IsKeyed =
      merge-IsKeyed (observed show monitor cycle runtime).results (sampled monitor cycle).results _
        (observe_all-IsKeyed show cycle.latency_ms runtime cycle.sources _ tt)
