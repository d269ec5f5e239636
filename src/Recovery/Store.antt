-- ===== src/Recovery/Store.antt =====
-- What the program gives `recover_inventory_addresses` to work with: CameraRepository of
-- camadmiral/storage.py, with `update_profile_sources`, and the relay of camadmiral/media.py, of
-- which nothing but its answers is known here.
use reefy_camadmiral.Prelude.{
  ℕ, ◌+◌, ◌==◌, String, Bool, false, not, ◌&&◌, Option, none, some, List, [], ◌∷◌, ◌++◌, map, any,
  all, update_rows, str_eq, if◌then◌else◌,
}
use reefy_camadmiral.Prelude.Dict.{Dict, get, has}
use reefy_camadmiral.Effects.{Outcome, raised, returned, Call}
use reefy_camadmiral.Inventory.{Device}
use reefy_camadmiral.Repository.{
  ProbeResult, unknown, OutboxItem, relay_restarted, pending, Settings, Stream, Database,
}
use reefy_camadmiral.Repository.Incidents.{
  record_camera_health_transition, open_camera_address_incident, resolve_camera_address_incident,
}
use reefy_camadmiral.Repository.Probes.{record_probe_results}
use reefy_camadmiral.Repository.Revisions.{
  RevisionStatus, Revisions, record_desired_media_revision, complete_media_revision,
}
use reefy_camadmiral.Recovery.Planning.{Plan}
use reefy_camadmiral.Recovery.Applying.{Source, Services}

-- A row of `onvif_profiles`, with the streams that are made from it.
pub record Profile : Type 0 where
  pub profile_camera : String
  pub token : String
  pub profile_uri : Option String
  pub profile_streams : List ℕ

-- The tables, and what else the recovery changes: `R` is the relay with the cameras.
pub record Store (R : Type 0) : Type 0 where
  pub db : Database
  pub revisions : Revisions
  pub profiles : List Profile
  pub outside : R

abbrev pub is_profile : String → String → Profile → Bool
is_profile camera token p = str_eq p.profile_camera camera && str_eq p.token token

-- The row takes the entry of its token: `UPDATE onvif_profiles SET uri=?`, for each entry.
abbrev pub take_entry : Option String → Option String → Option String
take_entry none old = old
take_entry (some uri) old = some uri

unfoldable pub write_source : String → Dict String → Profile → Profile
write_source camera sources p =
    if str_eq p.profile_camera camera
    then record p { profile_uri = take_entry (get sources p.token) p.profile_uri }
    else p

abbrev is_written : String → Dict String → Profile → Bool
is_written camera sources p = str_eq p.profile_camera camera && has sources p.token

-- The streams of the changed profiles are to be probed again.
abbrev is_changed : String → Dict String → List Profile → Stream → Bool
is_changed camera sources profiles s =
    any (λ p. is_written camera sources p && any (λ uuid. uuid == s.stream_uuid) p.profile_streams)
      profiles

-- `probe_status='pending'` is `none`.
unfoldable pub forget_probes : String → Dict String → List Profile → Database → Database
forget_probes camera sources profiles db = record db {
  streams =
      update_rows (is_changed camera sources profiles)
        (λ s. record s {
          probe_status = none;
          probed_at = none;
          health_status = unknown;
          consecutive_failures = 0;
          last_failure_at = none;
        })
        db.streams;
}

abbrev pub are_known : String → Dict String → List Profile → Bool
are_known camera sources profiles = all (λ entry. any (is_profile camera entry.0) profiles) sources

-- A ValueError where a token is of no profile of the camera.
unfoldable pub update_profile_sources :
    {R : Type 0} → (String → ℕ) → ℕ → String → Dict String → Call (Store R) (Unit {0})
update_profile_sources number now camera [] s = (returned tt, s)
update_profile_sources number now camera (entry ∷ entries) s =
    let sources = entry ∷ entries in
    if are_known camera sources s.profiles
    then (
      returned tt,
      record s {
        profiles = map (write_source camera sources) s.profiles;
        db =
            record_camera_health_transition (forget_probes camera sources s.profiles s.db)
              (number camera) now;
      },
    )
    else (raised, s)

abbrev has_chat : Option Settings → Bool
has_chat none = false
has_chat (some settings) =
    settings.notifications_enabled
    && (elim settings.chat_id [ none ↦ false | some chat ↦ not (str_eq chat "") ])

-- The payload, of the reason and the number of cameras, is never compared.
unfoldable pub enqueue_relay_restart_notification : ℕ → Database → Database
enqueue_relay_restart_notification now db =
    let item : OutboxItem = record {
      outbox_uuid = db.next_uuid;
      item_incident = none;
      event_type = relay_restarted;
      payload = none;
      status = pending;
      attempt_count = 0;
      next_attempt_at = now;
      provider_message_id = none;
      last_error_code = none;
      created_at = now;
      sent_at = none;
    } in
    if has_chat db.settings
    then record db { outbox = db.outbox ++ item ∷ []; next_uuid = db.next_uuid + 1 }
    else db

-- What stands outside of the tables above: how identifiers are numbered, the clock, the listing of
-- sources, which only reads and may fail to open a password, the digest of a configuration, the
-- relay's answers, and the tables of addresses and identities.
pub record Surroundings (R : Type 0) : Type 0 where
  pub number : String → ℕ
  pub name : ℕ → String
  pub now : ℕ
  pub listing : Store R → Outcome (List Source)
  pub digest : List Source → String
  pub replace : List Source → Call R (Unit {0})
  pub probe : List Source → Call R (Dict ProbeResult)
  pub change_address : Plan → Call R (Unit {0})
  pub observe_identity : String → Device → Call R (Unit {0})
  pub bind_identity : String → Device → Call R (Unit {0})

abbrev pub on_outside {ℓ} : {R : Type 0} {A : Type ℓ} → Call R A → Call (Store R) A
on_outside call s = let result = call s.outside in (result.0, record s { outside = result.1 })

abbrev pub on_tables : {R : Type 0} → (Database → Database) → Call (Store R) (Unit {0})
on_tables change s = (returned tt, record s { db = change s.db })

abbrev pub completed : {R : Type 0} → Option Revisions → Call (Store R) (Unit {0})
completed none s = (raised, s)
completed (some revisions) s = (returned tt, record s { revisions = revisions })

module _ {R : Type 0} (env : Surroundings R) where
  abbrev pub opened : Database × ℕ → Store R → Outcome String × Store R
  opened (db, incident) s = (returned (env.name incident), record s { db = db })

  abbrev pub desired_now :
      Revisions × ℕ × RevisionStatus → Store R → Outcome (ℕ × RevisionStatus) × Store R
  desired_now (revisions, id, status) s =
      (returned (id, status), record s { revisions = revisions })

  unfoldable pub program : Services (Store R)
  program = record {
    open_camera_address_incident = λ p s.
        opened
          (open_camera_address_incident s.db (env.number p.plan_camera) p.previous_address
            p.current_address env.now)
          s;
    update_profile_sources = update_profile_sources env.number env.now;
    managed_stream_sources = λ s. (env.listing s, s);
    record_desired_media_revision =
        λ sources s. desired_now (record_desired_media_revision s.revisions (env.digest sources)) s;
    replace_streams = λ sources. on_outside (env.replace sources);
    enqueue_relay_restart_notification =
        λ reason n. on_tables (enqueue_relay_restart_notification env.now);
    probe_streams = λ sources. on_outside (env.probe sources);
    record_probe_results = λ results.
        on_tables
          (λ db. record_probe_results db (map (λ r. (env.number r.0, r.1)) results) env.now);
    complete_media_revision = λ id status code s.
        completed (complete_media_revision s.revisions id status code env.now) s;
    record_address_change = λ p. on_outside (env.change_address p);
    observe_camera_identity =
        λ camera candidate. on_outside (env.observe_identity camera candidate);
    bind_camera_identity = λ camera candidate. on_outside (env.bind_identity camera candidate);
    resolve_camera_address_incident = λ incident.
        on_tables (λ db. resolve_camera_address_incident db (env.number incident) env.now);
  }
