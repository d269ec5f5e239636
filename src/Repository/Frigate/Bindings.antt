-- ===== src/Repository/Frigate/Bindings.antt =====
-- The bindings of cameras to Frigate targets and the cameras that were retired from Frigate
-- (camadmiral/storage.py).
use reefy_camadmiral.Prelude.{
  ℕ, String, Bool, true, not, ◌&&◌, Option, none, some, List, [], ◌∷◌, ◌++◌, any, keep, find_row,
  update_rows, str_eq, if◌then◌else◌,
}
use reefy_camadmiral.Effects.{raised, returned, Call}
use reefy_camadmiral.Repository.Frigate.{Retired, Frigate, is_target, gives}

pub data BindingStatus : Type 0 where
  pending applied error : BindingStatus

pub record Binding : Type 0 where
  pub bound_to : String
  pub bound_camera : String
  pub frigate_camera_key : String
  pub record_stream_uuid : String
  pub detect_stream_uuid : String
  pub desired_hash : String
  pub applied_hash : Option String
  pub status : BindingStatus
  pub last_error_code : Option String
  pub last_attempt_at : ℕ
  pub updated_at : ℕ
  pub camera_enabled_applied : Bool

-- The table, with the cameras and the streams that a binding may name.
pub record Bindings : Type 0 where
  pub rows : List Binding
  pub cameras : List String
  pub streams : List String

abbrev pub is_binding : String → String → Binding → Bool
is_binding id camera b = str_eq b.bound_to id && str_eq b.bound_camera camera

unfoldable pub frigate_binding : String → String → Bindings → Option Binding
frigate_binding id camera db = find_row (is_binding id camera) db.rows

abbrev knows : List String → String → Bool
knows known name = any (λ k. str_eq k name) known

-- The foreign keys, and `UNIQUE(target_id, frigate_camera_key)` with another camera.
unfoldable pub admits : String → String → String → String → String → Bindings → Bool
admits id camera key for_record for_detect db =
    knows db.cameras camera
    && (knows db.streams for_record
        && (knows db.streams for_detect
            && not (
                any
                  (λ b.
                    str_eq b.bound_to id
                    && (str_eq b.frigate_camera_key key && not (str_eq b.bound_camera camera)))
                  db.rows)))

abbrev pub attempted : String → String → String → String → ℕ → Binding → Binding
attempted key for_record for_detect hash now b = record b {
  frigate_camera_key = key;
  record_stream_uuid = for_record;
  detect_stream_uuid = for_detect;
  desired_hash = hash;
  status = pending;
  last_error_code = none;
  last_attempt_at = now;
  updated_at = now;
}

abbrev pub new_binding : String → String → String → String → String → String → ℕ → Binding
new_binding id camera key for_record for_detect hash now = record {
  bound_to = id;
  bound_camera = camera;
  frigate_camera_key = key;
  record_stream_uuid = for_record;
  detect_stream_uuid = for_detect;
  desired_hash = hash;
  applied_hash = none;
  status = pending;
  last_error_code = none;
  last_attempt_at = now;
  updated_at = now;
  camera_enabled_applied = true;
}

unfoldable pub record_frigate_attempt :
    String → String → String → String → String → String → ℕ → Call Bindings (Unit {0})
record_frigate_attempt id camera key for_record for_detect hash now db =
    if admits id camera key for_record for_detect db
    then (
      returned tt,
      record db {
        rows =
            if any (is_binding id camera) db.rows
            then update_rows (is_binding id camera) (attempted key for_record for_detect hash now)
                db.rows
            else db.rows ++ new_binding id camera key for_record for_detect hash now ∷ [];
      },
    )
    else (raised, db)

abbrev pub completed : BindingStatus → Option String → Option String → ℕ → Binding → Binding
completed applied hash code now b = record b {
  status = applied;
  applied_hash = hash;
  last_error_code = code;
  updated_at = now;
}
completed status hash code now b = record b {
  status = status;
  last_error_code = code;
  updated_at = now;
}

abbrev status_of : String → Option BindingStatus
status_of word =
    if str_eq word "applied" then some applied else if str_eq word "error" then some error else none

abbrev pub complete :
    String
    → String
    → Option String
    → Option String
    → ℕ
    → Option BindingStatus
    → Call Bindings (Unit {0})
complete id camera hash code now none db = (raised, db)
complete id camera hash code now (some status) db = (
  returned tt,
  record db { rows = update_rows (is_binding id camera) (completed status hash code now) db.rows },
)

unfoldable pub complete_frigate_attempt :
    String → String → String → Option String → Option String → ℕ → Call Bindings (Unit {0})
complete_frigate_attempt id camera word hash code now =
    complete id camera hash code now (status_of word)

unfoldable pub mark_frigate_binding_pending : String → String → ℕ → Call Bindings (Unit {0})
mark_frigate_binding_pending id camera now db = (
  returned tt,
  record db {
    rows =
        update_rows (is_binding id camera)
          (λ b. record b {
            status = pending;
            last_error_code = none;
            last_attempt_at = now;
            updated_at = now;
          })
          db.rows;
  },
)

unfoldable pub remove_frigate_binding : String → String → Call Bindings Bool
remove_frigate_binding id camera db = (
  returned (any (is_binding id camera) db.rows),
  record db { rows = keep (λ b. not (is_binding id camera b)) db.rows },
)

unfoldable pub set_frigate_camera_enabled_applied :
    String → String → Bool → ℕ → Call Bindings (Unit {0})
set_frigate_camera_enabled_applied id camera enabled now db = (
  returned tt,
  record db {
    rows =
        update_rows (is_binding id camera)
          (λ b. record b { camera_enabled_applied = enabled; updated_at = now }) db.rows;
  },
)

abbrev pub is_retired : String → String → Retired → Bool
is_retired id key r = str_eq r.retired_from id && str_eq r.camera_key key

-- `INSERT OR IGNORE`, which does not ignore a missing target.
unfoldable pub remember_retired_frigate_camera : String → String → String → Call Frigate (Unit {0})
remember_retired_frigate_camera id key restore db =
    if any (is_retired id key) db.retired
    then gives tt db
    else if any (is_target id) db.targets
    then gives tt (record db {
      retired =
          db.retired ++ record { retired_from = id; camera_key = key; restore_json = restore } ∷ [];
    })
    else (raised, db)

unfoldable pub forget_retired_frigate_camera : String → String → Call Frigate (Unit {0})
forget_retired_frigate_camera id key db =
    gives tt (record db { retired = keep (λ r. not (is_retired id key r)) db.retired })

-- `retired_frigate_cameras(target_id).get(key)`
unfoldable pub retired_frigate_camera : String → String → Frigate → Option String
retired_frigate_camera id key db = elim (find_row (is_retired id key) db.retired) [
  | none ↦ none
  | some r ↦ some r.restore_json
]
