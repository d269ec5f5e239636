-- ===== src/Recovery/Rollback/Failure.antt =====
-- What a recovery that fails leaves behind (camadmiral/recovery.py).
use reefy_camadmiral.Prelude.{
  ℕ, ◌≡◌, refl, ◌∙◌, ap, String, Bool, true, false, Option, none, some, List, [], ◌∷◌, ◌++◌, map,
  All, keep, length, if◌then◌else◌,
}
use reefy_camadmiral.Prelude.Dict.{Dict}
use reefy_camadmiral.Effects.{Outcome, raised, returned, has_returned, Call, done, continue, ◌>>◌}
use reefy_camadmiral.Inventory.{Device}
use reefy_camadmiral.Repository.Revisions.{RevisionStatus, desired, applied, failed}
use reefy_camadmiral.Recovery.{Attempt}
use reefy_camadmiral.Recovery.Planning.{Plan, RecoveryResult, result_of}
use reefy_camadmiral.Recovery.Applying.{
  Services, Progress, untouched, concerns, body, complete, restore_sources, restore_relay,
  roll_back, conclude, after_body, apply_plans,
}
use reefy_camadmiral.Recovery.Rollback.{View, IsRepository, Restores, StandsBefore, Undoable}
use reefy_camadmiral.Recovery.Rollback.Restored.{restore_sources-StandsBefore, Safe-body}

-- A call that returned did so after the one before it had.
then-returned {ℓ κ} :
    {S : Type 0} {A : Type ℓ} {B : Type κ} (Q : S → Type 0) (next : Call S B) (r : Outcome A × S)
    → (has_returned r.0 ≡ true → has_returned (next r.1).0 ≡ true → Q (next r.1).1)
    → has_returned (continue (λ _. next) r).0 ≡ true
    → Q (continue (λ _. next) r).1
then-returned Q next (raised, s) k ok = cc
then-returned Q next (returned a, s) k ok = k refl ok

same-continue {ℓ κ} :
    {S : Type 0} {A : Type ℓ} {B : Type κ} {V : Type 0} (view : S → V) (v : V) (next : A → Call S B)
    (r : Outcome A × S)
    → view r.1 ≡ v
    → ((a : A) → view (next a r.1).1 ≡ v)
    → view (continue next r).1 ≡ v
same-continue view v next (raised, s) h k = h
same-continue view v next (returned a, s) h k = k a

same_view :
    (before : String → String → Option String) (plans : List Plan)
    {now old : String → String → Option String}
    → now ≡ old
    → StandsBefore before plans old
    → StandsBefore before plans now
unfolding StandsBefore
same_view before plans e h = λ c t f. ap (λ v. v c t) e ∙ h c t f

module _ {S : Type 0} (services : Services S) (view : View S)
    (laws : IsRepository services view) where
  complete-view :
      (revision : Option (ℕ × RevisionStatus)) (status : RevisionStatus) (code : Option String)
      (s : S)
      → view (complete services revision status code s).1 ≡ view s
  complete-view none status code s = refl
  complete-view (some (id, desired)) status code s = laws.completes id status code s
  complete-view (some (id, applied)) status code s = refl
  complete-view (some (id, failed)) status code s = refl

  restore_relay-view :
      (updated : List Plan) (s : S) → view (restore_relay services updated s).1 ≡ view s
  restore_relay-view updated s =
      same-continue view (view s) _ (services.managed_stream_sources s) (laws.lists s) λ sources.
        same-continue view (view s)
          (λ _.
            services.enqueue_relay_restart_notification "camera_address_recovery_rollback"
              (length updated))
          (services.replace_streams (keep (concerns updated) sources)
            (services.managed_stream_sources s).1)
          (laws.replaces (keep (concerns updated) sources) (services.managed_stream_sources s).1
            ∙ laws.lists s)
          λ _.
            laws.notifies "camera_address_recovery_rollback" (length updated)
              (services.replace_streams (keep (concerns updated) sources)
                (services.managed_stream_sources s).1).1
            ∙ (laws.replaces (keep (concerns updated) sources) (services.managed_stream_sources s).1
                ∙ laws.lists s)

  maybe_relay-view :
      (b : Bool) (updated : List Plan) (s : S)
      → view ((if b then restore_relay services updated else done) s).1 ≡ view s
  maybe_relay-view true updated s = restore_relay-view updated s
  maybe_relay-view false updated s = refl

  roll_back-view :
      (before : String → String → Option String) (p : Progress) (s : S)
      → All (Restores before) p.updated_plans
      → StandsBefore before p.updated_plans (view s)
      → has_returned (roll_back services p s).0 ≡ true
      → StandsBefore before [] (view (roll_back services p s).1)
  unfolding roll_back
  roll_back-view before p s good stands =
      then-returned (λ s'. StandsBefore before [] (view s'))
        (restore_sources services p.updated_plans
          >> (if p.runtime_attempted then restore_relay services p.updated_plans else done))
        (completed s)
        λ _.
          then-returned (λ s'. StandsBefore before [] (view s'))
            (if p.runtime_attempted then restore_relay services p.updated_plans else done)
            (restore_sources services p.updated_plans (completed s).1)
            λ ok _.
              same_view before []
                (maybe_relay-view p.runtime_attempted p.updated_plans
                  (restore_sources services p.updated_plans (completed s).1).1)
                (restore_sources-StandsBefore services view laws before p.updated_plans
                  (completed s).1 good ok
                  (same_view before p.updated_plans
                    (complete-view p.revision failed (some "runtime_replacement_failed") s) stands))
    where
      completed : Call S (Unit {0})
      completed = complete services p.revision failed (some "runtime_replacement_failed")

  -- What the handler makes of the body's outcome.
  after_body-failed :
      (links : Dict Device) (results : List RecoveryResult) (plans : List Plan)
      (before : String → String → Option String) (r : Outcome (Unit {0}) × (S × Progress))
      → Undoable services view laws before r.1
      → has_returned r.0 ≡ false
      → has_returned (after_body services links results plans r).0 ≡ true
      → ((after_body services links results plans r).0
          ≡ returned (results ++ map (result_of "runtime_failed") plans))
        × StandsBefore before [] (view (after_body services links results plans r).1.0)
  unfolding Undoable
  after_body-failed links results plans before (returned u, (s, p)) h fails ok = cc
  after_body-failed links results plans before (raised, (s, p)) h fails ok =
      handled (roll_back services p s) ok (roll_back-view before p s h.1 h.0)
    where
      handled :
          (r : Outcome (Unit {0}) × S)
          → has_returned
              (conclude services
                (results ++ map (result_of "runtime_failed") plans)
                (r.0, (r.1, p))).0
            ≡ true
          → (has_returned r.0 ≡ true → StandsBefore before [] (view r.1))
          → ((conclude services
                (results ++ map (result_of "runtime_failed") plans)
                (r.0, (r.1, p))).0
              ≡ returned (results ++ map (result_of "runtime_failed") plans))
            × StandsBefore before [] (
                view
                  (conclude services
                    (results ++ map (result_of "runtime_failed") plans)
                    (r.0, (r.1, p))).1.0)
      handled (raised, s') fine k = cc
      handled (returned u, s') fine k = (refl, k refl)

  -- Where the relay cannot be replaced, and the handler itself does not raise, the recovery answers
  -- `runtime_failed` for every planned camera and every source of every camera is what it was; the
  -- plans know the previous source of what they change.
  pub sources_after_failure :
      (links : Dict Device) (results : List RecoveryResult) (plan : Plan) (plans : List Plan)
      (s : S) (attempts : List Attempt)
      → All (Restores (view s)) (plan ∷ plans)
      → has_returned (body services (plan ∷ plans) (s, untouched attempts)).0 ≡ false
      → has_returned (apply_plans services links results (plan ∷ plans) (s, attempts)).0 ≡ true
      → ((apply_plans services links results (plan ∷ plans) (s, attempts)).0
          ≡ returned (results ++ map (result_of "runtime_failed") (plan ∷ plans)))
        × ((c t : String)
            → view (apply_plans services links results (plan ∷ plans) (s, attempts)).1.0 c t
              ≡ view s c t)
  unfolding apply_plans StandsBefore Undoable
  sources_after_failure links results plan plans s attempts good fails ok =
      let safe : Undoable services view laws (view s)
          (body services (plan ∷ plans) (s, untouched attempts)).1 =
        Safe-body services view laws (view s) (plan ∷ plans) good (s, untouched attempts)
          (λ c t e. refl, tt) in
      let result =
        after_body-failed links results (plan ∷ plans) (view s)
          (body services (plan ∷ plans) (s, untouched attempts)) safe fails ok in
      (result.0, λ c t. result.1 c t refl)
