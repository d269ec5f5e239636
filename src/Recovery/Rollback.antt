-- ===== src/Recovery/Rollback.antt =====
-- That a recovery that fails leaves the sources as they were (camadmiral/recovery.py): the body
-- of its `try`.
pub mod Restored
pub mod Failure
pub mod Program
use reefy_camadmiral.Prelude.{
  ℕ, ◌≡◌, refl, sym, ◌∙◌, ap, ◌⊎◌, inl, inr, String, Bool, true, false, not, ◌&&◌, ◌||◌, Option,
  none, some, List, [], ◌∷◌, ◌++◌, map, any, All, keep, length, str_eq, eq_iff, arith,
  if◌then◌else◌, Bool-cases,
}
use reefy_camadmiral.Prelude.Dict.{Dict, get, put, has}
use reefy_camadmiral.Effects.{
  Outcome, raised, returned, has_returned, Call, done, suppress, continue, ◌>>=◌, ◌>>◌,
}
use reefy_camadmiral.Inventory.{Device}
use reefy_camadmiral.Repository.{ProbeResult}
use reefy_camadmiral.Repository.Revisions.{RevisionStatus, desired, applied, failed}
use reefy_camadmiral.Recovery.{Attempt}
use reefy_camadmiral.Recovery.Planning.{Plan, RecoveryResult, result_of}
use reefy_camadmiral.Recovery.Applying.{
  Source, Services, Progress, untouched, concerns, serves_every, empirical_results, lift, assign,
  update_plan, update_plans, raise_unless, replace_relay, body, complete, restore_sources,
  restore_relay, roll_back, conclude, after_body, apply_plans,
}

-- A source of a stream, by its camera and its profile's token.
abbrev pub View : Type 0 → Type 0
View S = S → String → String → Option String

-- The value of a dictionary at a key, or what was there.
abbrev pub overwrite : Dict String → String → Option String → Option String
overwrite updates token old = elim (get updates token) [ none ↦ old | some uri ↦ some uri ]

-- What the repository promises: sources are written by `update_profile_sources` only, which writes
-- all that it is given or, where it raises, nothing.
pub record IsRepository {S : Type 0} (services : Services S) (view : View S) : Type 0 where
  pub updates_all :
      (camera : String) (updates : Dict String) (s : S) (c t : String)
      → view (services.update_profile_sources camera updates s).1 c t ≡ (
          if has_returned (services.update_profile_sources camera updates s).0 && str_eq camera c
          then overwrite updates t (view s c t)
          else view s c t)
  pub opens : (p : Plan) (s : S) → view (services.open_camera_address_incident p s).1 ≡ view s
  pub lists : (s : S) → view (services.managed_stream_sources s).1 ≡ view s
  pub desires :
      (sources : List Source) (s : S)
      → view (services.record_desired_media_revision sources s).1 ≡ view s
  pub replaces :
      (sources : List Source) (s : S) → view (services.replace_streams sources s).1 ≡ view s
  pub notifies :
      (reason : String) (n : ℕ) (s : S)
      → view (services.enqueue_relay_restart_notification reason n s).1 ≡ view s
  pub probes : (sources : List Source) (s : S) → view (services.probe_streams sources s).1 ≡ view s
  pub records :
      (results : Dict ProbeResult) (s : S)
      → view (services.record_probe_results results s).1 ≡ view s
  pub completes :
      (id : ℕ) (status : RevisionStatus) (code : Option String) (s : S)
      → view (services.complete_media_revision id status code s).1 ≡ view s

-- A call keeps a predicate of the state, whether it raises or not.
abbrev pub Keeps {ℓ} : {S : Type 0} {A : Type ℓ} → (S → Type 0) → Call S A → Type 0
Keeps {S = S} P call = (s : S) → P s → P (call s).1

pub Keeps-continue {ℓ κ} :
    {S : Type 0} {A : Type ℓ} {B : Type κ} (P : S → Type 0) (next : A → Call S B)
    (r : Outcome A × S)
    → ((a : A) → Keeps P (next a))
    → P r.1
    → P (continue next r).1
Keeps-continue P next (raised, s) k h = h
Keeps-continue P next (returned a, s) k h = k a s h

-- The plan restores what it changes: where it has a new or a previous source, it has a previous
-- one, which is what stands there.
unfoldable pub Restores : (String → String → Option String) → Plan → Type 0
Restores before plan =
    (t : String)
    → ((uri : String) × (get plan.previous_sources t ≡ some uri)
        × (before plan.plan_camera t ≡ some uri))
      ⊎ ((get plan.updates t ≡ none) × (get plan.previous_sources t ≡ none))

abbrev pub touched : List Plan → String → String → Bool
touched plans c t = any (λ p. str_eq p.plan_camera c && has p.updates t) plans

-- The sources that no plan of the list touches stand as before.
pub StandsBefore :
    (String → String → Option String) → List Plan → (String → String → Option String) → Type 0
StandsBefore before plans now = (c t : String) → touched plans c t ≡ false → now c t ≡ before c t

touched-append :
    (plans : List Plan) (p : Plan) (c t : String)
    → touched (plans ++ p ∷ []) c t
      ≡ (touched plans c t || (str_eq p.plan_camera c && has p.updates t))
touched-append [] p c t = ground arith
touched-append (q ∷ plans) p c t = ground (arith, touched-append plans p c t)

All-snoc :
    (P : Plan → Type 0) (plans : List Plan) (p : Plan) → All P plans → P p → All P (plans ++ p ∷ [])
All-snoc P [] p h k = (k, tt)
All-snoc P (q ∷ plans) p h k = (h.0, All-snoc P plans p h.1 k)

module _ {S : Type 0} (services : Services S) (view : View S) (laws : IsRepository services view)
    (before : String → String → Option String) where
  -- What holds during the body of `try`.
  pub Undoable : S × Progress → Type 0
  Undoable (s, p) =
      StandsBefore before p.updated_plans (view s) × All (Restores before) p.updated_plans

  update-StandsBefore :
      (plan : Plan) (plans : List Plan) (s : S) (r : Outcome (Unit {0}) × S)
      → ((c t : String)
          → view r.1 c t ≡ (
              if has_returned r.0 && str_eq plan.plan_camera c
              then overwrite plan.updates t (view s c t)
              else view s c t))
      → StandsBefore before plans (view s)
      → StandsBefore before (if has_returned r.0 then plans ++ plan ∷ [] else plans) (view r.1)
  unfolding StandsBefore
  update-StandsBefore plan plans s (raised, s') law h = λ c t e. law c t ∙ h c t e
  update-StandsBefore plan plans s (returned u, s') law h =
      λ c t e. ground (arith, law c t, h c t, touched-append plans plan c t)

  -- A service that writes no source, called within the body.
  pub Keeps-lift :
      {A : Type 0} (call : Call S A)
      → ((s : S) → view (call s).1 ≡ view s)
      → Keeps Undoable (lift services call)
  unfolding Undoable StandsBefore
  Keeps-lift call same (s, p) h = (λ c t e. ap (λ f. f c t) (same s) ∙ h.0 c t e, h.1)

  write_then_note :
      (plan : Plan) (s : S) (p : Progress) (r : Outcome (Unit {0}) × S)
      → Restores before plan
      → All (Restores before) p.updated_plans
      → StandsBefore before
          (if has_returned r.0 then p.updated_plans ++ plan ∷ [] else p.updated_plans)
          (view r.1)
      → Undoable
          (continue
            (λ _. assign services (λ q. record q { updated_plans = q.updated_plans ++ plan ∷ [] }))
            (r.0, (r.1, p))).1
  unfolding Undoable
  write_then_note plan s p (raised, s') good all_good h = (h, all_good)
  write_then_note plan s p (returned u, s') good all_good h =
      (h, All-snoc (Restores before) p.updated_plans plan all_good good)

  update_plan-Undoable :
      (plan : Plan) → Restores before plan → Keeps Undoable (update_plan services plan)
  unfolding update_plan Undoable
  update_plan-Undoable plan good (s, p) h =
      Keeps-continue Undoable _ (lift services (services.open_camera_address_incident plan) (s, p))
        (λ incident sp k. after incident sp.0 sp.1 k)
        (Keeps-lift (services.open_camera_address_incident plan) (laws.opens plan) (s, p) h)
    where
      after :
          (incident : String) (s : S) (p : Progress)
          → Undoable (s, p)
          → Undoable
              ((assign services (λ q. record q {
                address_incidents = put q.address_incidents plan.plan_camera incident;
              })
                  >> (lift services (services.update_profile_sources plan.plan_camera plan.updates)
                      >> assign services
                          (λ q. record q { updated_plans = q.updated_plans ++ plan ∷ [] })))
                (s, p)).1
      after incident s p k =
          write_then_note plan s
            (record p { address_incidents = put p.address_incidents plan.plan_camera incident })
            (services.update_profile_sources plan.plan_camera plan.updates s) good k.1
            (update-StandsBefore plan p.updated_plans s
              (services.update_profile_sources plan.plan_camera plan.updates s)
              (laws.updates_all plan.plan_camera plan.updates s) k.0)

  pub update_plans-Undoable :
      (plans : List Plan)
      → All (Restores before) plans
      → Keeps Undoable (update_plans services plans)
  unfolding update_plans
  update_plans-Undoable [] good sp h = h
  update_plans-Undoable (plan ∷ plans) good sp h =
      Keeps-continue Undoable _ (update_plan services plan sp)
        (λ _. update_plans-Undoable plans good.1) (update_plan-Undoable plan good.0 sp h)
