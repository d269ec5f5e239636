-- ===== src/Recovery/Applying.antt =====
-- What `recover_inventory_addresses` of camadmiral/recovery.py does with its plans: the new sources
-- are written and the relay is replaced, and all of it is undone where anything raises.
use reefy_camadmiral.Prelude.{
  ℕ, String, Bool, true, false, ◌&&◌, Option, none, some, List, [], ◌∷◌, ◌++◌, map, any, all, keep,
  length, str_eq, if◌then◌else◌,
}
use reefy_camadmiral.Prelude.Dict.{Dict, get, put, has}
use reefy_camadmiral.Effects.{Outcome, raised, returned, Call, done, suppress, ◌>>=◌, ◌>>◌}
use reefy_camadmiral.Inventory.{Device}
use reefy_camadmiral.Repository.{ProbeResult}
use reefy_camadmiral.Repository.Revisions.{RevisionStatus, desired, applied, failed}
use reefy_camadmiral.Recovery.{Adoption, AdoptedStream, Attempt, clear_attempts}
use reefy_camadmiral.Recovery.Planning.{Scene, plan_recovery, Plan, RecoveryResult, result_of}
use reefy_camadmiral.Recovery.Validation.{is_ready}

-- A source of `managed_stream_sources`.
pub record Source : Type 0 where
  pub source_stream : String
  pub source_camera : String

-- What the recovery asks of the repository and of the relay, on the state `S` of both.
pub record Services (S : Type 0) : Type 0 where
  pub open_camera_address_incident : Plan → Call S String
  pub update_profile_sources : String → Dict String → Call S (Unit {0})
  pub managed_stream_sources : Call S (List Source)
  pub record_desired_media_revision : List Source → Call S (ℕ × RevisionStatus)
  pub replace_streams : List Source → Call S (Unit {0})
  pub enqueue_relay_restart_notification : String → ℕ → Call S (Unit {0})
  pub probe_streams : List Source → Call S (Dict ProbeResult)
  pub record_probe_results : Dict ProbeResult → Call S (Unit {0})
  pub complete_media_revision : ℕ → RevisionStatus → Option String → Call S (Unit {0})
  pub record_address_change : Plan → Call S (Unit {0})
  pub observe_camera_identity : String → Device → Call S (Unit {0})
  pub bind_camera_identity : String → Device → Call S (Unit {0})
  pub resolve_camera_address_incident : String → Call S (Unit {0})

-- The local variables that the handler of the exception reads, and the attempts.
pub record Progress : Type 0 where
  pub revision : Option (ℕ × RevisionStatus)
  pub updated_plans : List Plan
  pub address_incidents : Dict String
  pub runtime_attempted : Bool
  pub attempts : List Attempt

abbrev pub untouched : List Attempt → Progress
untouched attempts = record {
  revision = none;
  updated_plans = [];
  address_incidents = [];
  runtime_attempted = false;
  attempts = attempts;
}

abbrev pub concerns : List Plan → Source → Bool
concerns plans source = any (λ p. str_eq p.plan_camera source.source_camera) plans

-- `set(downstream_results) != expected_stream_uuids or any(status != "ready")`
unfoldable pub serves_every : List Source → Dict ProbeResult → Bool
serves_every sources results =
    all (λ s. has results s.source_stream) sources
    && all
        (λ result.
          any (λ s. str_eq s.source_stream result.0) sources && is_ready result.1.result_status)
        results

-- `stream_ids_by_token`
abbrev streams_by_token : List AdoptedStream → Dict String → Dict String
streams_by_token [] ids = ids
streams_by_token (s ∷ streams) ids =
    streams_by_token streams (put ids s.profile_token s.stream_uuid)

unfoldable pub add_empirical : Dict String → Dict ProbeResult → Dict ProbeResult → Dict ProbeResult
add_empirical ids [] results = results
add_empirical ids ((token, result) ∷ probes) results =
    add_empirical ids probes
      (elim (get ids token) [ none ↦ results | some stream ↦ put results stream result ])

unfoldable pub empirical_results : List Plan → Dict ProbeResult → Dict ProbeResult
empirical_results [] results = results
empirical_results (p ∷ plans) results =
    empirical_results plans
      (add_empirical (streams_by_token p.plan_streams []) p.probe_results results)

module _ {S : Type 0} (services : Services S) where
  -- A call with the local variables beside the state, and an assignment to them.
  abbrev pub lift {ℓ} : {A : Type ℓ} → Call S A → Call (S × Progress) A
  lift call (s, p) = let result = call s in (result.0, (result.1, p))

  abbrev pub assign : (Progress → Progress) → Call (S × Progress) (Unit {0})
  assign change (s, p) = (returned tt, (s, change p))

  unfoldable pub update_plan : Plan → Call (S × Progress) (Unit {0})
  update_plan plan = do
    incident ← lift (services.open_camera_address_incident plan)
    assign (λ p. record p { address_incidents = put p.address_incidents plan.plan_camera incident })
    lift (services.update_profile_sources plan.plan_camera plan.updates)
    assign (λ p. record p { updated_plans = p.updated_plans ++ plan ∷ [] })

  unfoldable pub update_plans : List Plan → Call (S × Progress) (Unit {0})
  update_plans [] = done
  update_plans (plan ∷ plans) = update_plan plan >> update_plans plans

  abbrev pub raise_unless : Bool → Call (S × Progress) (Unit {0})
  raise_unless true s = (returned tt, s)
  raise_unless false s = (raised, s)

  -- The rest of the body of `try`, from its end: the probes of the relay are judged and recorded.
  unfoldable pub judge_relay :
      List Plan → List Source → Dict ProbeResult → Call (S × Progress) (Unit {0})
  judge_relay plans sources downstream =
      raise_unless (serves_every sources downstream)
      >> lift (services.record_probe_results (empirical_results plans []))

  unfoldable pub probe_relay : List Plan → List Source → Call (S × Progress) (Unit {0})
  probe_relay plans sources = lift (services.probe_streams sources) >>= judge_relay plans sources

  abbrev pub announce : List Plan → Call S (Unit {0})
  announce plans =
      suppress
        (services.enqueue_relay_restart_notification "camera_address_recovery" (length plans))

  unfoldable pub announce_relay : List Plan → List Source → Call (S × Progress) (Unit {0})
  announce_relay plans sources = lift (announce plans) >> probe_relay plans sources

  unfoldable pub restart_relay : List Plan → List Source → Call (S × Progress) (Unit {0})
  restart_relay plans sources =
      lift (services.replace_streams sources) >> announce_relay plans sources

  abbrev pub attempted : ℕ × RevisionStatus → Progress → Progress
  attempted revision p = record p { revision = some revision; runtime_attempted = true }

  unfoldable pub swap_relay :
      List Plan → List Source → ℕ × RevisionStatus → Call (S × Progress) (Unit {0})
  swap_relay plans all_sources revision = do
    assign (attempted revision)
    restart_relay plans (keep (concerns plans) all_sources)

  unfoldable pub desire_relay : List Plan → List Source → Call (S × Progress) (Unit {0})
  desire_relay plans all_sources =
      lift (services.record_desired_media_revision all_sources) >>= swap_relay plans all_sources

  unfoldable pub replace_relay : List Plan → Call (S × Progress) (Unit {0})
  replace_relay plans = lift services.managed_stream_sources >>= desire_relay plans

  unfoldable pub body : List Plan → Call (S × Progress) (Unit {0})
  body plans = update_plans plans >> replace_relay plans

  -- `if revision_id is not None and revision_status == "desired"`
  abbrev pub complete :
      Option (ℕ × RevisionStatus) → RevisionStatus → Option String → Call S (Unit {0})
  complete (some (id, desired)) status code = services.complete_media_revision id status code
  complete _ status code = done

  unfoldable pub restore_sources : List Plan → Call S (Unit {0})
  restore_sources [] = done
  restore_sources (plan ∷ plans) =
      services.update_profile_sources plan.plan_camera plan.previous_sources
      >> restore_sources plans

  abbrev pub restore_relay : List Plan → Call S (Unit {0})
  restore_relay updated = do
    sources ← services.managed_stream_sources
    suppress (
        services.replace_streams (keep (concerns updated) sources)
        >> services.enqueue_relay_restart_notification "camera_address_recovery_rollback"
            (length updated))

  -- The handler of the exception.
  unfoldable pub roll_back : Progress → Call S (Unit {0})
  roll_back p = do
    complete p.revision failed (some "runtime_replacement_failed")
    restore_sources p.updated_plans
    if p.runtime_attempted then restore_relay p.updated_plans else done

  abbrev rebind : Dict Device → Plan → Call S (Unit {0})
  rebind links plan =
      if has links plan.plan_camera
      then services.bind_camera_identity plan.plan_camera plan.candidate
      else done

  -- `address_incidents[plan.camera_uuid]`
  abbrev resolve : Option String → Call S (Unit {0})
  resolve none s = (raised, s)
  resolve (some incident) s = services.resolve_camera_address_incident incident s

  unfoldable pub settle_plan : Dict Device → Dict String → Plan → Call S (Unit {0})
  settle_plan links incidents plan = do
    services.record_address_change plan
    services.observe_camera_identity plan.plan_camera plan.candidate
    rebind links plan
    resolve (get incidents plan.plan_camera)

  unfoldable pub settle : Dict Device → Dict String → List Plan → Call (S × Progress) (Unit {0})
  settle links incidents [] = done
  settle links incidents (plan ∷ plans) = do
    lift (settle_plan links incidents plan)
    assign (λ p. record p { attempts = clear_attempts plan.plan_camera p.attempts })
    settle links incidents plans

  -- `return`, with the state and the attempts that are left
  abbrev pub conclude :
      List RecoveryResult
      → Outcome (Unit {0}) × (S × Progress)
      → Outcome (List RecoveryResult) × (S × List Attempt)
  conclude results (raised, (s, p)) = (raised, (s, p.attempts))
  conclude results (returned _, (s, p)) = (returned results, (s, p.attempts))

  unfoldable pub succeed : Dict Device → List Plan → Call (S × Progress) (Unit {0})
  succeed links plans (s, p) =
      (lift (complete p.revision applied none) >> settle links p.address_incidents plans) (s, p)

  -- What follows the body of `try`.
  abbrev pub after_body :
      Dict Device
      → List RecoveryResult
      → List Plan
      → Outcome (Unit {0}) × (S × Progress)
      → Outcome (List RecoveryResult) × (S × List Attempt)
  after_body links results plans (raised, (s, p)) =
      conclude (results ++ map (result_of "runtime_failed") plans) (lift (roll_back p) (s, p))
  after_body links results plans (returned _, (s, p)) =
      conclude (results ++ map (result_of "recovered") plans) (succeed links plans (s, p))

  unfoldable pub apply_plans :
      Dict Device → List RecoveryResult → List Plan → Call (S × List Attempt) (List RecoveryResult)
  apply_plans links results [] s = (returned results, s)
  apply_plans links results (plan ∷ plans) (s, attempts) =
      after_body links results (plan ∷ plans) (body (plan ∷ plans) (s, untouched attempts))

  -- `recover_inventory_addresses`, for the adoptions and the attempts so far.
  unfoldable pub recover_inventory_addresses :
      Scene → List (String × Adoption) → Call (S × List Attempt) (List RecoveryResult)
  recover_inventory_addresses scene adoptions (s, attempts) =
      let round = plan_recovery scene adoptions attempts in
      apply_plans scene.identity_links round.results round.plans (s, round.attempts)
