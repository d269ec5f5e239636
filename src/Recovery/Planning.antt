-- ===== src/Recovery/Planning.antt =====
-- The loop over the adoptions in `recover_inventory_addresses` of camadmiral/recovery.py: which
-- cameras are to be moved, and with which sources.
use reefy_camadmiral.Prelude.{
  ℕ, String, Bool, Option, none, some, List, [], ◌∷◌, ◌++◌, str_eq, if◌then◌else◌,
}
use reefy_camadmiral.Prelude.Dict.{Dict, put}
use reefy_camadmiral.Inventory.{Device, Python}
use reefy_camadmiral.CameraIdentity.{linked_candidate}
use reefy_camadmiral.Repository.{ProbeResult}
use reefy_camadmiral.Recovery.{
  AdoptedStream, Adoption, Urls, Attempt, Evidence, Standing, passed_over, at_home, moved, standing,
  attempt, clear_attempts, forget_inactive,
}
use reefy_camadmiral.Recovery.Validation.{Network, Validation, validated_updates}

pub record RecoveryResult : Type 0 where
  pub result_camera : String
  pub result_status : String
  pub from_address : String
  pub to_address : String

pub record Plan : Type 0 where
  pub plan_candidate : String
  pub plan_camera : String
  pub candidate : Device
  pub plan_streams : List AdoptedStream
  pub previous_address : String
  pub current_address : String
  pub evidence : Evidence
  pub updates : Dict String
  pub previous_sources : Dict String
  pub probe_results : Dict ProbeResult

abbrev pub result_of : String → Plan → RecoveryResult
result_of status plan = record {
  result_camera = plan.plan_camera;
  result_status = status;
  from_address = plan.previous_address;
  to_address = plan.current_address;
}

-- `{token: uri for stream in streams if uri}`
unfoldable pub sources_of : List AdoptedStream → Dict String → Dict String
sources_of [] sources = sources
sources_of (s ∷ streams) sources =
    sources_of streams (if str_eq s.uri "" then sources else put sources s.profile_token s.uri)

-- What the loop has so far.
pub record Round : Type 0 where
  pub attempts : List Attempt
  pub results : List RecoveryResult
  pub plans : List Plan

-- What the loop is given: the settings, the network, the inventory, the confirmed identities, the
-- credentials of a candidate and the time at which each candidate is looked at.
pub record Scene : Type 0 where
  pub python : Python
  pub urls : Urls
  pub network : Network
  pub has_colon : String → Bool
  pub retry_interval : ℕ
  pub inventory : Dict Device
  pub identity_links : Dict Device
  pub credentials_for_candidate : String → Option (String × String)
  pub clock : String → ℕ

abbrev finish : String → Adoption → Device → Evidence → String → String → Validation → Round → Round
finish candidate_uuid adoption candidate evidence previous current validation round =
    if str_eq validation.status "ready"
    then record round {
      plans =
          round.plans
          ++ record {
            plan_candidate = candidate_uuid;
            plan_camera = adoption.camera_uuid;
            candidate = candidate;
            plan_streams = adoption.streams;
            previous_address = previous;
            current_address = current;
            evidence = evidence;
            updates = validation.updates;
            previous_sources = sources_of adoption.streams [];
            probe_results = validation.results;
          }
            ∷ [];
    }
    else record round {
      results =
          round.results
          ++ record {
            result_camera = adoption.camera_uuid;
            result_status = validation.status;
            from_address = previous;
            to_address = current;
          }
            ∷ [];
    }

module _ (scene : Scene) where
  abbrev with_credentials :
      String
      → Adoption
      → Device
      → Evidence
      → String
      → String
      → Option (String × String)
      → Round
      → Round
  with_credentials candidate_uuid adoption candidate evidence previous current none round = round
  with_credentials candidate_uuid adoption candidate evidence previous current
        (some (username, password)) round =
      finish candidate_uuid adoption candidate evidence previous current
        (validated_updates scene.urls scene.network scene.has_colon current adoption.streams
          username password)
        round

  abbrev try_move :
      String
      → Adoption
      → Device
      → Evidence
      → String
      → String
      → Option (List Attempt)
      → Round
      → Round
  try_move candidate_uuid adoption candidate evidence previous current none round = round
  try_move candidate_uuid adoption candidate evidence previous current (some attempts) round =
      with_credentials candidate_uuid adoption candidate evidence previous current
        (scene.credentials_for_candidate candidate_uuid) (record round { attempts = attempts })

  abbrev act : String → Adoption → Device → Standing → Round → Round
  act candidate_uuid adoption candidate passed_over round = round
  act candidate_uuid adoption candidate at_home round = record round {
    attempts = clear_attempts adoption.camera_uuid round.attempts;
  }
  act candidate_uuid adoption candidate (moved evidence previous current) round =
      try_move candidate_uuid adoption candidate evidence previous current
        (attempt scene.retry_interval adoption.camera_uuid current (scene.clock candidate_uuid)
          round.attempts)
        round

  -- `linked_candidate`; an empty dictionary is no candidate.
  abbrev candidate_of : String → Adoption → Option Device
  candidate_of candidate_uuid adoption =
      elim (linked_candidate scene.python adoption.camera_uuid adoption.candidate_uuid
        scene.inventory scene.identity_links (some candidate_uuid)) [
          | none ↦ none
          | some [] ↦ none
          | some (entry ∷ entries) ↦ some (entry ∷ entries)
        ]

  abbrev look : String → Adoption → Option Device → Round → Round
  look candidate_uuid adoption none round = round
  look candidate_uuid adoption (some candidate) round =
      act candidate_uuid adoption candidate
        (standing scene.python scene.urls adoption (some candidate)) round

  unfoldable pub consider : String × Adoption → Round → Round
  consider (candidate_uuid, adoption) round =
      look candidate_uuid adoption (candidate_of candidate_uuid adoption) round

  unfoldable pub consider_all : List (String × Adoption) → Round → Round
  consider_all [] round = round
  consider_all (adoption ∷ adoptions) round = consider_all adoptions (consider adoption round)

  unfoldable pub plan_recovery : List (String × Adoption) → List Attempt → Round
  plan_recovery adoptions attempts =
      consider_all adoptions
        record { attempts = forget_inactive adoptions attempts; results = []; plans = [] }
