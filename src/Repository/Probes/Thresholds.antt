-- ===== src/Repository/Probes/Thresholds.antt =====
-- How many failures in a row a stream may have (camadmiral/storage.py).
use native.Mathlib.Nat.{zero-add, add-zero, suc-add, add-suc}
use reefy_camadmiral.Prelude.{
  ℕ, zero, suc, ◌+◌, ◌≡◌, refl, ap, ◌∙◌, inl, inr, Bool, true, false, List, [], ◌∷◌, arith, length,
  Bool-cases,
}
use reefy_camadmiral.Repository.{
  HealthStatus, unknown, healthy, degraded, offline, ProbeStatus, ready, idle, refused, failing,
  ProbeResult, Stream,
}
use reefy_camadmiral.Repository.Probes.{observe, is_ready, next_failures, next_health}

-- Probes of one stream, in order, each with its time.
pub observe_all : List (ProbeResult × ℕ) → Stream → Stream
observe_all [] s = s
observe_all ((r, now) ∷ rest) s = observe_all rest (observe r now s)

abbrev pub IsFailing : ProbeStatus → Type 0
IsFailing (failing _) = Unit
IsFailing _ = ⊥

abbrev pub AreFailing : List (ProbeResult × ℕ) → Type 0
AreFailing [] = Unit
AreFailing ((r, now) ∷ rest) = IsFailing r.result_status × AreFailing rest

-- A stream's health by its failures in a row, from a stream that was healthy or was not.
abbrev pub health_after : ℕ → Bool → HealthStatus
health_after zero true = healthy
health_after zero false = unknown
health_after (suc zero) true = healthy
health_after (suc zero) false = unknown
health_after (suc (suc zero)) _ = degraded
health_after (suc (suc (suc n))) _ = offline

module _ (r : ProbeResult) (now : ℕ) (s : Stream) where
  pub failures-observe :
      (observe r now s).consecutive_failures ≡ next_failures r.result_status s.consecutive_failures
  unfolding observe
  failures-observe = elim (Bool-cases (is_ready r.result_status)) [
    | inl yes_ ↦ rw yes_
    | inr no_ ↦ rw no_
  ]

  pub health-observe :
      (observe r now s).health_status
      ≡ next_health r.result_status
          (next_failures r.result_status s.consecutive_failures)
          s.health_status
  unfolding observe
  health-observe = elim (Bool-cases (is_ready r.result_status)) [
    | inl yes_ ↦ rw yes_
    | inr no_ ↦ rw no_
  ]

step_failing :
    (p : ProbeStatus) (n : ℕ) (was : Bool)
    → IsFailing p
    → (next_failures p n ≡ suc n)
      × (next_health p (suc n) (health_after n was) ≡ health_after (suc n) was)
unfolding next_failures next_health
step_failing ready n was f = absurd f
step_failing idle n was f = absurd f
step_failing refused n was f = absurd f
step_failing (failing t) zero true f = ground arith
step_failing (failing t) zero false f = ground arith
step_failing (failing t) (suc zero) was f = ground arith
step_failing (failing t) (suc (suc n)) was f = ground arith

observe_failing :
    (r : ProbeResult) (now n : ℕ) (was : Bool) (s : Stream)
    → IsFailing r.result_status
    → s.consecutive_failures ≡ n
    → s.health_status ≡ health_after n was
    → ((observe r now s).consecutive_failures ≡ suc n)
      × ((observe r now s).health_status ≡ health_after (suc n) was)
observe_failing r now n was s f e h =
    let (failures, health) = step_failing r.result_status n was f in
    rw (failures-observe r now s, health-observe r now s, e, h, failures) (refl, health)

failing_from :
    (probes : List (ProbeResult × ℕ)) (s : Stream) (n : ℕ) (was : Bool)
    → AreFailing probes
    → s.consecutive_failures ≡ n
    → s.health_status ≡ health_after n was
    → ((observe_all probes s).consecutive_failures ≡ length probes + n)
      × ((observe_all probes s).health_status ≡ health_after (length probes + n) was)
unfolding observe_all
failing_from [] s n was f e h = rw (zero-add) (e, h)
failing_from ((r, now) ∷ rest) s n was f e h =
    let (failures, health) = observe_failing r now n was s f.0 e h in
    rw (suc-add, ← add-suc) (failing_from rest (observe r now s) (suc n) was f.1 failures health)

-- From a ready stream: a single failed probe leaves it healthy, the second in a row makes it
-- degraded and every one from the third on offline; one ready probe makes it healthy again and
-- starts the count anew.
pub three_strikes :
    (probes : List (ProbeResult × ℕ)) (s : Stream) (r : ProbeResult) (now : ℕ)
    → AreFailing probes
    → s.consecutive_failures ≡ 0
    → s.health_status ≡ healthy
    → r.result_status ≡ ready
    → let after = observe_all probes s in
      (after.consecutive_failures ≡ length probes)
      × (after.health_status ≡ health_after (length probes) true)
      × ((observe r now after).consecutive_failures ≡ 0)
      × ((observe r now after).health_status ≡ healthy)
three_strikes probes s r now f e h ok =
    let (failures, health) = failing_from probes s 0 true f e h in
    (
      failures ∙ add-zero (length probes),
      health ∙ ap (λ n. health_after n true) (add-zero (length probes)),
      rw (failures-observe r now (observe_all probes s), ok) (unfold next_failures in refl),
      rw (health-observe r now (observe_all probes s), ok) (unfold next_health in refl),
    )
