-- ===== src/Repository/Tests.antt =====
-- One camera with two streams, a chat to notify, and what a day does to them.
use reefy_camadmiral.Prelude.{
  ◌&&◌, min, max, tally, ℕ, String, ◌≤◌, ◌≡◌, refl, true, false, Option, none, some, List, [], ◌∷◌,
  arith, All,
}
use reefy_camadmiral.Repository.{
  HealthStatus, healthy, ProbeStatus, ready, refused, failing, ProbeResult, Stream,
  authentication_failed, OutboxItem, pending, test, Database,
}
use reefy_camadmiral.Repository.Health.{
  camera_health_state, bound_states, streams_state, record_event, latest_event,
}
use reefy_camadmiral.Repository.Incidents.{
  record_camera_health_transition, reconcile_camera_incident, open_health_of, has_item,
  enqueue_incident_notification, open_incident,
}
use reefy_camadmiral.Repository.Incidents.Single.{IsSingle}
use reefy_camadmiral.Repository.Incidents.Settled.{kind_of, wanted_by, reconcile-wanted}
use reefy_camadmiral.Repository.Incidents.Pairing.{IsPaired}
use reefy_camadmiral.Repository.Probes.{
  record_probe_results, record_results, record_result, record_transitions, observe,
}
use reefy_camadmiral.Repository.Probes.Thresholds.{observe_all, health_after, three_strikes}
use reefy_camadmiral.Repository.Probes.Invariants.{record_probe_results-keeps}
use reefy_camadmiral.Repository.Retries.{claim_auth_retry, claim-exclusive}
use reefy_camadmiral.Repository.Outbox.{is_due, due_notifications, refuse}
use reefy_camadmiral.Repository.Outbox.Delivery.{
  IsOrdered, is_until, due_notifications_lem, refuse_all, eighth_failure_ends,
}
use reefy_camadmiral.Repository.Revisions.{
  Revisions, desired, applied, failed, complete_media_revision, last_known_good_media_revision,
  failed_keeps_last_known_good,
}

abbrev stream : ℕ → HealthStatus → Stream
stream uuid health = record {
  stream_uuid = uuid;
  owner = 1;
  stream_enabled = true;
  health_status = health;
  consecutive_failures = 0;
  probe_status = none;
  probed_at = none;
  probe_latency_ms = none;
  last_ready_at = none;
  last_failure_at = none;
  video_codec = none;
  audio_codec = none;
  probed_width = 0;
  probed_height = 0;
  probed_fps = 0;
}

abbrev result : ProbeStatus → ProbeResult
result status = record {
  result_status = status;
  latency_ms = 20;
  video = none;
  audio = none;
  width = 0;
  height = 0;
  fps = 0;
}

abbrev home : Database
home = record {
  cameras =
      record {
        camera_uuid = 1;
        display_name = "Door";
        enabled = true;
        notifications_silenced = false;
      }
      ∷ [];
  streams = stream 11 healthy ∷ stream 12 healthy ∷ [];
  bindings =
      record { bound_camera = 1; role = "record"; bound_stream = 11 }
      ∷ record { bound_camera = 1; role = "detect"; bound_stream = 12 }
      ∷ [];
  health_events = [];
  incidents = [];
  settings = some (record { notifications_enabled = true; chat_id = some "42" });
  outbox = [];
  auth_retries = [];
  next_uuid = 100;
}

IsSingle-home : IsSingle home
IsSingle-home camera = omega arith

IsPaired-home : IsPaired home.outbox
unfolding has_item
IsPaired-home i h = h

wanted_example :
    kind_of (open_health_of (reconcile_camera_incident home 1 7) 1)
    ≡ wanted_by (camera_health_state home 1) (kind_of (open_health_of home 1))
wanted_example = reconcile-wanted home 1 7 IsSingle-home

abbrev lost : List (ℕ × ProbeResult)
lost = (11, result (failing "unavailable")) ∷ (12, result refused) ∷ []

keeps_example :
    IsSingle (record_probe_results home lost 7) × IsPaired (record_probe_results home lost 7).outbox
keeps_example = record_probe_results-keeps home lost 7 IsSingle-home IsPaired-home

-- A refused stream opens an incident, which is notified.
refused_opens :
    kind_of (open_health_of (record_probe_results home lost 7) 1) ≡ some authentication_failed
unfolding record_probe_results record_results record_result record_transitions
    record_camera_health_transition reconcile_camera_incident camera_health_state bound_states
    streams_state record_event latest_event open_incident enqueue_incident_notification
refused_opens = refl

abbrev two_failures : List (ProbeResult × ℕ)
two_failures = (result (failing "unavailable"), 1) ∷ (result (failing "error"), 2) ∷ []

three_strikes_example :
    let after = observe_all two_failures (stream 11 healthy) in
    (after.consecutive_failures ≡ 2)
    × (after.health_status ≡ health_after 2 true)
    × ((observe (result ready) 3 after).consecutive_failures ≡ 0)
    × ((observe (result ready) 3 after).health_status ≡ healthy)
three_strikes_example =
    three_strikes two_failures (stream 11 healthy) (result ready) 3 (tt, (tt, tt)) refl refl refl

abbrev enrolled : Database
enrolled = record home {
  auth_retries = record { retry_stream = 11; attempts = 1; next_attempt = 5 } ∷ [];
}

claim_example : (claim_auth_retry (claim_auth_retry enrolled 11 7).0 11 306).1 ≡ false
unfolding claim_auth_retry
claim_example = claim-exclusive enrolled 11 7 306 refl (omega arith)

abbrev item : OutboxItem
item = record {
  outbox_uuid = 200;
  item_incident = none;
  event_type = test;
  payload = none;
  status = pending;
  attempt_count = 0;
  next_attempt_at = 3;
  provider_message_id = none;
  last_error_code = none;
  created_at = 3;
  sent_at = none;
}

due_example :
    let db = record home { outbox = item ∷ [] } in
    All (λ i. is_due 9 i ≡ true) (due_notifications db 10 9)
    × IsOrdered (due_notifications db 10 9)
    × (tally (is_until 3) (due_notifications db 10 9) ≤ tally (is_until 3) (item ∷ []))
    × (tally (is_until 4) (due_notifications db 10 9)
        ≡ min (max 1 (min 100 10)) (tally (λ i. is_due 9 i && is_until 4 i) (item ∷ [])))
due_example = due_notifications_lem (record home { outbox = item ∷ [] }) 10 9 (is_until 3) 4

abbrev refusal : String × Option ℕ × ℕ
refusal = ("telegram_rate_limited", some 60, 5)

abbrev seven : List (String × Option ℕ × ℕ)
seven = refusal ∷ refusal ∷ refusal ∷ refusal ∷ refusal ∷ refusal ∷ refusal ∷ []

eighth_example :
    (is_due 9 (refuse "telegram_unavailable" (some 60) 9 item) ≡ false)
    × (is_due 999 (refuse "telegram_unavailable" (some 60) 9 (refuse_all seven item)) ≡ false)
eighth_example = eighth_failure_ends item seven "telegram_unavailable" (some 60) 9 999 refl

abbrev none_yet : Revisions
none_yet = record { rows = []; next_id = 1 }

abbrev one_applied : Revisions
one_applied = record {
  rows =
      record {
        revision_id = 1;
        desired_hash = "a";
        status = applied;
        error_code = none;
        completed_at = some 4;
      }
      ∷ record {
        revision_id = 2;
        desired_hash = "b";
        status = desired;
        error_code = none;
        completed_at = none;
      }
      ∷ [];
  next_id = 3;
}

abbrev one_failed : Revisions
one_failed = record one_applied {
  rows =
      record {
        revision_id = 1;
        desired_hash = "a";
        status = applied;
        error_code = none;
        completed_at = some 4;
      }
      ∷ record {
        revision_id = 2;
        desired_hash = "b";
        status = failed;
        error_code = some "runtime";
        completed_at = some 9;
      }
      ∷ [];
}

failed_example :
    last_known_good_media_revision one_failed ≡ last_known_good_media_revision one_applied
unfolding complete_media_revision
failed_example = failed_keeps_last_known_good one_applied one_failed 2 (some "runtime") 9 refl

abbrev second_applied : Revisions
second_applied = record one_applied {
  rows =
      record {
        revision_id = 1;
        desired_hash = "a";
        status = applied;
        error_code = none;
        completed_at = some 4;
      }
      ∷ record {
        revision_id = 2;
        desired_hash = "b";
        status = applied;
        error_code = none;
        completed_at = some 9;
      }
      ∷ [];
}
