-- ===== src/Recovery/Rollback/Restored.antt =====
-- That a recovery that fails leaves the sources as they were (camadmiral/recovery.py): the handler
-- of the exception.
use reefy_camadmiral.Prelude.{
  ℕ, ◌≡◌, refl, ◌⊎◌, inl, inr, String, Bool, true, false, ◌&&◌, Option, none, some, List, [], ◌∷◌,
  All, keep, length, str_eq, eq_iff, arith, if◌then◌else◌, Bool-cases,
}
use reefy_camadmiral.Prelude.Dict.{Dict, get}
use reefy_camadmiral.Effects.{Outcome, raised, returned, has_returned, Call, continue, ◌>>=◌}
use reefy_camadmiral.Repository.{ProbeResult}
use reefy_camadmiral.Repository.Revisions.{RevisionStatus}
use reefy_camadmiral.Recovery.Planning.{Plan}
use reefy_camadmiral.Recovery.Applying.{
  Source, Services, Progress, concerns, serves_every, empirical_results, lift, update_plans,
  raise_unless, replace_relay, desire_relay, swap_relay, attempted, announce, restart_relay,
  announce_relay, probe_relay, judge_relay, body, restore_sources,
}
use reefy_camadmiral.Recovery.Rollback.{
  View, overwrite, IsRepository, Keeps, Keeps-continue, Restores, touched, StandsBefore, Undoable,
  Keeps-lift, update_plans-Undoable,
}

module _ {S : Type 0} (services : Services S) (view : View S) (laws : IsRepository services view)
    (before : String → String → Option String) where
  abbrev pub Safe : S × Progress → Type 0
  Safe = Undoable services view laws before

  Safe-raise_unless : (b : Bool) → Keeps Safe (raise_unless services b)
  Safe-raise_unless true sp h = h
  Safe-raise_unless false sp h = h

  -- A service that writes no source, and what follows it.
  Safe-step {κ} :
      {A : Type 0} {B : Type κ} (call : Call S A) (next : A → Call (S × Progress) B)
      → ((s : S) → view (call s).1 ≡ view s)
      → ((a : A) → Keeps Safe (next a))
      → Keeps Safe (lift services call >>= next)
  Safe-step call next same k sp h =
      Keeps-continue Safe next (lift services call sp) k
        (Keeps-lift services view laws before call same sp h)

  Safe-judge_relay :
      (plans : List Plan) (sources : List Source) (downstream : Dict ProbeResult)
      → Keeps Safe (judge_relay services plans sources downstream)
  unfolding judge_relay
  Safe-judge_relay plans sources downstream sp h =
      Keeps-continue Safe
        (λ _. lift services (services.record_probe_results (empirical_results plans [])))
        (raise_unless services (serves_every sources downstream) sp)
        (λ _.
          Keeps-lift services view laws before
            (services.record_probe_results (empirical_results plans []))
            (laws.records (empirical_results plans [])))
        (Safe-raise_unless (serves_every sources downstream) sp h)

  Safe-restart_relay :
      (plans : List Plan) (sources : List Source)
      → Keeps Safe (restart_relay services plans sources)
  unfolding restart_relay announce_relay probe_relay
  Safe-restart_relay plans sources =
      Safe-step {B = Unit {0}} (services.replace_streams sources)
        (λ _. announce_relay services plans sources) (laws.replaces sources)
        λ _.
          Safe-step {B = Unit {0}} (announce services plans)
            (λ _. probe_relay services plans sources)
            (laws.notifies "camera_address_recovery" (length plans))
            λ _.
              Safe-step {B = Unit {0}} (services.probe_streams sources)
                (judge_relay services plans sources) (laws.probes sources)
                (Safe-judge_relay plans sources)

  Safe-swap_relay :
      (plans : List Plan) (sources : List Source) (revision : ℕ × RevisionStatus)
      → Keeps Safe (swap_relay services plans sources revision)
  unfolding swap_relay Undoable
  Safe-swap_relay plans sources revision (s, p) h =
      Safe-restart_relay plans (keep (concerns plans) sources) (s, attempted services revision p) h

  Safe-replace_relay : (plans : List Plan) → Keeps Safe (replace_relay services plans)
  unfolding replace_relay desire_relay
  Safe-replace_relay plans =
      Safe-step {B = Unit {0}} services.managed_stream_sources (desire_relay services plans)
        laws.lists
        λ sources.
          Safe-step {B = Unit {0}} (services.record_desired_media_revision sources)
            (swap_relay services plans sources) (laws.desires sources)
            (Safe-swap_relay plans sources)

  pub Safe-body :
      (plans : List Plan) → All (Restores before) plans → Keeps Safe (body services plans)
  unfolding body
  Safe-body plans good sp h =
      Keeps-continue Safe (λ _. replace_relay services plans) (update_plans services plans sp)
        (λ _. Safe-replace_relay plans)
        (update_plans-Undoable services view laws before plans good sp h)

  -- One plan is undone.
  restore-StandsBefore :
      (plan : Plan) (plans : List Plan) (s : S) (r : Outcome (Unit {0}) × S)
      → Restores before plan
      → ((c t : String)
          → view r.1 c t ≡ (
              if has_returned r.0 && str_eq plan.plan_camera c
              then overwrite plan.previous_sources t (view s c t)
              else view s c t))
      → has_returned r.0 ≡ true
      → StandsBefore before (plan ∷ plans) (view s)
      → StandsBefore before plans (view r.1)
  unfolding StandsBefore Restores
  restore-StandsBefore plan plans s (raised, s') good law ok h = cc
  restore-StandsBefore plan plans s (returned u, s') good law ok h =
      λ c t e. undone c t (good t) (law c t) (h c t) e (Bool-cases (str_eq plan.plan_camera c))
    where
      undone :
          (c t : String)
          → ((uri : String) × (get plan.previous_sources t ≡ some uri)
              × (before plan.plan_camera t ≡ some uri))
            ⊎ ((get plan.updates t ≡ none) × (get plan.previous_sources t ≡ none))
          → view s' c t ≡ (
              if str_eq plan.plan_camera c
              then overwrite plan.previous_sources t (view s c t)
              else view s c t)
          → (touched (plan ∷ plans) c t ≡ false → view s c t ≡ before c t)
          → touched plans c t ≡ false
          → (str_eq plan.plan_camera c ≡ true) ⊎ (str_eq plan.plan_camera c ≡ false)
          → view s' c t ≡ before c t
      undone c t g l k e (inr f) = ground (arith, l, k, e, f)
      undone c t (inl (uri, g, b)) l k e (inl f) =
          ground (arith, l, g, b, f, eq_iff plan.plan_camera c)
      undone c t (inr (g, b)) l k e (inl f) = ground (arith, l, g, b, k, e, f)

  pub restore_sources-StandsBefore :
      (plans : List Plan) (s : S)
      → All (Restores before) plans
      → has_returned (restore_sources services plans s).0 ≡ true
      → StandsBefore before plans (view s)
      → StandsBefore before [] (view (restore_sources services plans s).1)
  unfolding restore_sources
  restore_sources-StandsBefore [] s good ok h = h
  restore_sources-StandsBefore (plan ∷ plans) s good ok h =
      go (services.update_profile_sources plan.plan_camera plan.previous_sources s)
        (laws.updates_all plan.plan_camera plan.previous_sources s)
        (restore_sources-StandsBefore plans) ok
    where
      go :
          (r : Outcome (Unit {0}) × S)
          → ((c t : String)
              → view r.1 c t ≡ (
                  if has_returned r.0 && str_eq plan.plan_camera c
                  then overwrite plan.previous_sources t (view s c t)
                  else view s c t))
          → ((s' : S)
              → All (Restores before) plans
              → has_returned (restore_sources services plans s').0 ≡ true
              → StandsBefore before plans (view s')
              → StandsBefore before [] (view (restore_sources services plans s').1))
          → has_returned (continue (λ _. restore_sources services plans) r).0 ≡ true
          → StandsBefore before [] (view (continue (λ _. restore_sources services plans) r).1)
      go (raised, s') law rest fine = cc
      go (returned u, s') law rest fine =
          rest s' good.1 fine (restore-StandsBefore plan plans s (returned u, s') good.0 law refl h)
