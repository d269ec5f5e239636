-- ===== src/Repository/Frigate.antt =====
-- The Frigate targets of camadmiral/storage.py and the cameras that are selected for them. A table
-- is the list of its rows in the order of insertion; a call raises where the code or a constraint
-- of the table does. Times are numbers.
pub mod Bindings
pub mod Aligned
pub mod Kept
mod Tests
use reefy_camadmiral.Prelude.{
  ℕ, ◌+◌, ◌%◌, String, Bool, true, false, not, ◌&&◌, ◌||◌, Option, none, some, List, [], ◌∷◌, ◌++◌,
  any, keep, map, tally, find_row, update_rows, str_eq, ◌==◌, leb, if◌then◌else◌,
}
use reefy_camadmiral.Effects.{Outcome, raised, returned, Call}

pub data ConnectionStatus : Type 0 where
  pending connected error : ConnectionStatus

pub data AddressMode : Type 0 where
  lan localhost : AddressMode

pub record Target : Type 0 where
  pub target_id : String
  pub name : String
  pub api_url : String
  pub connection_status : ConnectionStatus
  pub last_error_code : Option String
  pub last_checked_at : Option ℕ
  pub restart_recommended : Bool
  pub address_mode : Option AddressMode
  pub created_at : ℕ
  pub updated_at : ℕ

pub record Selection : Type 0 where
  pub selected_for : String
  pub selected_camera : String
  pub selected_at : ℕ
  pub selected_mode : AddressMode
  pub detect_width : Option ℕ
  pub detect_height : Option ℕ
  pub sync_error : Option String

-- A row of `frigate_retired_cameras`: what is to be restored, as its JSON text.
pub record Retired : Type 0 where
  pub retired_from : String
  pub camera_key : String
  pub restore_json : String

-- The tables, and the cameras that selections may name.
pub record Frigate : Type 0 where
  pub targets : List Target
  pub selections : List Selection
  pub retired : List Retired
  pub cameras : List String

abbrev pub is_target : String → Target → Bool
is_target id t = str_eq t.target_id id

abbrev pub is_selection : String → String → Selection → Bool
is_selection id camera s = str_eq s.selected_for id && str_eq s.selected_camera camera

abbrev pub same_mode : AddressMode → AddressMode → Bool
same_mode lan lan = true
same_mode localhost localhost = true
same_mode _ _ = false

unfoldable pub mode_of : String → Option AddressMode
mode_of word =
    if str_eq word "lan" then some lan else if str_eq word "localhost" then some localhost else none

-- What a call returns on a state, and that state.
abbrev pub gives {ℓ} : {A : Type ℓ} → A → Frigate → Outcome A × Frigate
gives a db = (returned a, db)

-- The column's default is 'lan'.
abbrev insert_target : String → String → String → ℕ → Target
insert_target id name url now = record {
  target_id = id;
  name = name;
  api_url = url;
  connection_status = pending;
  last_error_code = none;
  last_checked_at = none;
  restart_recommended = false;
  address_mode = some lan;
  created_at = now;
  updated_at = now;
}

-- `ON CONFLICT(target_id) DO UPDATE`: another URL forgets what is known of the connection.
unfoldable pub overwrite_target : String → String → ℕ → Target → Target
overwrite_target name url now t =
    if str_eq t.api_url url
    then record t { name = name; api_url = url; updated_at = now }
    else record t {
      name = name;
      api_url = url;
      connection_status = pending;
      last_error_code = none;
      last_checked_at = none;
      restart_recommended = false;
      updated_at = now;
    }

unfoldable pub save_frigate_target : String → String → String → ℕ → Call Frigate (Unit {0})
save_frigate_target id name url now db =
    if any (λ t. str_eq t.api_url url && not (is_target id t)) db.targets
    then (raised, db)
    else gives tt (
        if any (is_target id) db.targets
        then record db {
          targets = update_rows (is_target id) (overwrite_target name url now) db.targets;
        }
        else record db { targets = db.targets ++ insert_target id name url now ∷ [] })

-- `frigate_target`, with the number of its selections.
unfoldable pub frigate_target : String → Frigate → Option (Target × ℕ)
frigate_target id db = elim (find_row (is_target id) db.targets) [
  | none ↦ none
  | some t ↦ some (t, tally (λ s. str_eq s.selected_for id) db.selections)
]

abbrev pub with_mode : AddressMode → ℕ → Target → Target
with_mode mode now t = record t { address_mode = some mode; updated_at = now }

abbrev pub same_option : Option AddressMode → AddressMode → Bool
same_option none mode = false
same_option (some m) mode = same_mode m mode

abbrev set_mode_found : String → AddressMode → ℕ → Option Target → Call Frigate Bool
set_mode_found id mode now none db = gives false db
set_mode_found id mode now (some t) db = gives (not (same_option t.address_mode mode)) (record db {
  targets = update_rows (is_target id) (with_mode mode now) db.targets;
  selections =
      update_rows (λ s. str_eq s.selected_for id) (λ s. record s { selected_mode = mode })
        db.selections;
})

abbrev set_mode : String → ℕ → Option AddressMode → Call Frigate Bool
set_mode id now none db = (raised, db)
set_mode id now (some mode) db = set_mode_found id mode now (find_row (is_target id) db.targets) db

unfoldable pub set_frigate_target_address_mode : String → String → ℕ → Call Frigate Bool
set_frigate_target_address_mode id word now = set_mode id now (mode_of word)

-- The mode of the target, where it has one, over the one that is asked for.
abbrev pub chosen_mode : Option Target → AddressMode → AddressMode
chosen_mode none asked = asked
chosen_mode (some t) asked = elim t.address_mode [ none ↦ asked | some mode ↦ mode ]

abbrev new_selection : String → String → AddressMode → ℕ → Selection
new_selection id camera mode now = record {
  selected_for = id;
  selected_camera = camera;
  selected_at = now;
  selected_mode = mode;
  detect_width = none;
  detect_height = none;
  sync_error = none;
}

abbrev is_changed : Option Selection → AddressMode → Bool
is_changed none mode = true
is_changed (some s) mode = not (same_mode s.selected_mode mode)

unfoldable pub select_with : String → String → AddressMode → ℕ → Call Frigate Bool
select_with id camera mode now db =
    if any (is_target id) db.targets && any (λ c. str_eq c camera) db.cameras
    then gives (is_changed (find_row (is_selection id camera) db.selections) mode) (
        if any (is_selection id camera) db.selections
        then record db {
          selections =
              update_rows (is_selection id camera) (λ s. record s { selected_mode = mode })
                db.selections;
        }
        else record db { selections = db.selections ++ new_selection id camera mode now ∷ [] })
    else (raised, db)

abbrev select_mode : String → String → ℕ → Option AddressMode → Call Frigate Bool
select_mode id camera now none db = (raised, db)
select_mode id camera now (some asked) db =
    select_with id camera (chosen_mode (find_row (is_target id) db.targets) asked) now db

unfoldable pub select_frigate_camera : String → String → String → ℕ → Call Frigate Bool
select_frigate_camera id camera word now = select_mode id camera now (mode_of word)

unfoldable pub deselect_frigate_camera : String → String → Call Frigate Bool
deselect_frigate_camera id camera db =
    gives (any (is_selection id camera) db.selections)
      (record db { selections = keep (λ s. not (is_selection id camera s)) db.selections })

-- `type(v) is int and 16 <= v <= 8192 and not v % 2`
abbrev is_dimension : ℕ → Bool
is_dimension v = leb 16 v && (leb v 8192 && (v % 2 == 0))

unfoldable pub are_dimensions : Option ℕ → Option ℕ → Bool
are_dimensions none none = true
are_dimensions (some width) (some height) = is_dimension width && is_dimension height
are_dimensions _ _ = false

unfoldable pub set_frigate_detection_resolution :
    String → String → Option ℕ → Option ℕ → Call Frigate (Unit {0})
set_frigate_detection_resolution id camera width height db =
    if are_dimensions width height
    then gives tt (record db {
      selections =
          update_rows (is_selection id camera)
            (λ s. record s { detect_width = width; detect_height = height }) db.selections;
    })
    else (raised, db)

unfoldable pub set_frigate_selection_error :
    String → String → Option String → Call Frigate (Unit {0})
set_frigate_selection_error id camera code db = gives tt (record db {
  selections =
      update_rows (is_selection id camera) (λ s. record s { sync_error = code }) db.selections;
})

unfoldable pub frigate_camera_address_mode : String → String → Frigate → Option AddressMode
frigate_camera_address_mode id camera db = elim (find_row (is_selection id camera) db.selections) [
  | none ↦ none
  | some s ↦ some s.selected_mode
]

-- `ON DELETE CASCADE`: the selections and the retired cameras of a target go with it.
unfoldable pub remove_frigate_target : String → Call Frigate Bool
remove_frigate_target id db = gives (any (is_target id) db.targets) (record db {
  targets = keep (λ t. not (is_target id t)) db.targets;
  selections = keep (λ s. not (str_eq s.selected_for id)) db.selections;
  retired = keep (λ r. not (str_eq r.retired_from id)) db.retired;
})

abbrev pub checked : ConnectionStatus → Option String → Option Bool → ℕ → Target → Target
checked status code none now t = record t {
  connection_status = status;
  last_error_code = code;
  last_checked_at = some now;
  updated_at = now;
}
checked status code (some restart) now t = record t {
  connection_status = status;
  last_error_code = code;
  restart_recommended = restart;
  last_checked_at = some now;
  updated_at = now;
}

abbrev status_of : String → Option ConnectionStatus
status_of word =
    if str_eq word "connected"
    then some connected
    else if str_eq word "error"
    then some error
    else none

abbrev record_check :
    String → Option String → Option Bool → ℕ → Option ConnectionStatus → Call Frigate (Unit {0})
record_check id code restart now none db = (raised, db)
record_check id code restart now (some status) db = gives tt (record db {
  targets = update_rows (is_target id) (checked status code restart now) db.targets;
})

unfoldable pub record_frigate_target_check :
    String → String → Option String → Option Bool → ℕ → Call Frigate (Unit {0})
record_frigate_target_check id word code restart now =
    record_check id code restart now (status_of word)
