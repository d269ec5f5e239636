-- ===== src/Recovery/Tests.antt =====
-- A recovery that fails, on a repository that keeps the sources in a function.
use reefy_camadmiral.Prelude.{
  ◌≡◌, refl, String, Bool, true, false, Option, none, some, [], ◌∷◌, map, str_eq, if◌then◌else◌,
  inl, inr, ◌⊎◌,
}
use reefy_camadmiral.Prelude.Dict.{get, put}
use reefy_camadmiral.Effects.{raised, returned}
use reefy_camadmiral.Repository.Revisions.{
  record_desired_media_revision, complete_media_revision, newest,
}
use reefy_camadmiral.Recovery.{AdoptedStream, onvif_endpoint, attempt}
use reefy_camadmiral.Recovery.Planning.{Plan, result_of, sources_of}
use reefy_camadmiral.Recovery.Applying.{
  body, update_plans, update_plan, replace_relay, desire_relay, swap_relay, restart_relay,
  roll_back, restore_sources, apply_plans,
}
use reefy_camadmiral.Recovery.Store.{
  Profile, Store, Surroundings, write_source, update_profile_sources, program,
}
use reefy_camadmiral.Recovery.Rollback.{Restores}
use reefy_camadmiral.Recovery.Rollback.Program.{uri_of, stored_source, sources_survive_failure}
use reefy_camadmiral.Recovery.Spacing.{attempt-spaced, attempts_made}

-- The tables of one camera with a stream, and a relay that does not take its streams.
abbrev tables : Store (Unit {0})
tables = record {
  db = record {
    cameras =
        record {
          camera_uuid = 1;
          display_name = "Door";
          enabled = true;
          notifications_silenced = false;
        }
        ∷ [];
    streams = [];
    bindings = [];
    health_events = [];
    incidents = [];
    settings = none;
    outbox = [];
    auth_retries = [];
    next_uuid = 5;
  };
  revisions = record { rows = []; next_id = 7 };
  profiles =
      record {
        profile_camera = "door";
        token = "main";
        profile_uri = some "rtsp://10.0.0.5/main";
        profile_streams = 3 ∷ [];
      }
      ∷ [];
  outside = tt;
}

abbrev broken_relay : Surroundings (Unit {0})
broken_relay = record {
  number = λ camera. 1;
  name = λ id. "incident";
  now = 9;
  listing = λ s. returned [];
  digest = λ sources. "d";
  replace = λ sources s. (raised, s);
  probe = λ sources s. (returned [], s);
  change_address = λ p s. (returned tt, s);
  observe_identity = λ camera candidate s. (returned tt, s);
  bind_identity = λ camera candidate s. (returned tt, s);
}

abbrev main_stream : AdoptedStream
main_stream = record {
  profile_token = "main";
  stream_uuid = "s";
  uri = "rtsp://10.0.0.5/main";
  enabled = true;
  source_kind = none;
}

abbrev door_moves : Plan
door_moves = record {
  plan_candidate = "u1";
  plan_camera = "door";
  candidate = [];
  plan_streams = main_stream ∷ [];
  previous_address = "10.0.0.5";
  current_address = "10.0.0.9";
  evidence = onvif_endpoint;
  updates = ("main", "rtsp://10.0.0.9/main") ∷ [];
  previous_sources = sources_of (main_stream ∷ []) [];
  probe_results = [];
}

door-Restores : Restores (stored_source tables) door_moves
unfolding Restores get put sources_of stored_source
door-Restores t = go (str_eq "main" t)
  where
    one : Bool → String → Option String
    one b uri = if b then some uri else none

    row : Profile
    row = record {
      profile_camera = "door";
      token = "main";
      profile_uri = some "rtsp://10.0.0.5/main";
      profile_streams = 3 ∷ [];
    }

    go :
        (b : Bool)
        → ((uri : String) × (one b "rtsp://10.0.0.5/main" ≡ some uri)
            × (uri_of (if b then some row else none) ≡ some uri))
          ⊎ ((one b "rtsp://10.0.0.9/main" ≡ none) × (one b "rtsp://10.0.0.5/main" ≡ none))
    go true = inl ("rtsp://10.0.0.5/main", refl, refl)
    go false = inr (refl, refl)

undone_example :
    ((apply_plans (program broken_relay) [] [] (door_moves ∷ []) (tables, [])).0
      ≡ returned (map (result_of "runtime_failed") (door_moves ∷ [])))
    × ((c t : String)
        → stored_source
            (apply_plans (program broken_relay) [] [] (door_moves ∷ []) (tables, [])).1.0
            c
            t
          ≡ stored_source tables c t)
unfolding apply_plans body update_plans update_plan replace_relay desire_relay swap_relay
    restart_relay roll_back restore_sources program update_profile_sources get put sources_of
    record_desired_media_revision complete_media_revision newest write_source
undone_example =
    sources_survive_failure broken_relay [] [] door_moves [] tables [] (door-Restores, tt) refl refl

spaced_example :
    attempt 300000 "door" "10.0.0.9" 9999 (
      record { attempt_camera = "door"; attempt_address = "10.0.0.9"; attempted_at = 0; count = 1 }
      ∷ [])
    ≡ none
unfolding attempt attempts_made
spaced_example =
    attempt-spaced 300000 "door" "10.0.0.9" 0 9999 []
      {made = record {
        attempt_camera = "door";
        attempt_address = "10.0.0.9";
        attempted_at = 0;
        count = 1;
      }
        ∷ []}
      refl refl
