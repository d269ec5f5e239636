-- ===== src/Supervisor.antt =====
-- camadmiral/supervisor.py: the processes that `main` keeps running and the loop that restarts
-- them. What `poll()` says of each process is an argument; delays are seconds.
pub mod Restarts
mod Tests
use reefy_camadmiral.Prelude.{
  ℕ, zero, suc, ◌+◌, ◌-◌, ◌^◌, min, String, Bool, true, false, ◌&&◌, Option, none, some, List, [],
  ◌∷◌, ◌++◌, ltb, str_eq, if◌then◌else◌,
}

pub record Child : Type 0 where
  pub name : String
  pub restartable : Bool
  pub restarts : ℕ

-- `returncode`: a status, or minus the number of the signal that ended the process.
pub data ReturnCode : Type 0 where
  status signal : ℕ → ReturnCode

pub data Poll : Type 0 where
  running : Poll
  ended : ReturnCode → Poll

-- What the supervisor does.
pub data Event : Type 0 where
  sleep : ℕ → Event
  start restart_notification : String → Event

-- `process.returncode or 1`
unfoldable pub exit_code : ReturnCode → ReturnCode
exit_code (status zero) = status 1
exit_code code = code

-- `min(8, 2 ** (child.restarts - 1))`, after `child.restarts += 1`
unfoldable pub delay : ℕ → ℕ
delay restarts = min 8 (2 ^ (restarts - 1))

-- A child whose process ended: restarted, with what that does, or the code that `main` returns.
unfoldable pub restart : Bool → Child → Child × List Event
restart repository child =
    let restarts = child.restarts + 1 in
    (
      record child { restarts = restarts },
      sleep (delay restarts)
          ∷ start child.name
          ∷ (if str_eq child.name "go2rtc" && repository
              then restart_notification child.name ∷ []
              else []),
    )

-- The pass over the children, up to the first that makes `main` return; `repository` is whether
-- there is one to queue the notification in.
pub record Pass : Type 0 where
  pub children : List Child
  pub events : List Event
  pub returned : Option ReturnCode

abbrev with_child : Child → List Event → Pass → Pass
with_child child events pass = record pass {
  children = child ∷ pass.children;
  events = events ++ pass.events;
}

unfoldable pub may_restart : Child → Bool
may_restart child = child.restartable && ltb child.restarts 5

abbrev pub children_of : List (Child × Poll) → List Child
children_of [] = []
children_of ((child, poll) ∷ rest) = child ∷ children_of rest

unfoldable pub pass_over : Bool → List (Child × Poll) → Pass
pass_over repository [] = record { children = []; events = []; returned = none }
pass_over repository ((child, running) ∷ rest) = with_child child [] (pass_over repository rest)
pass_over repository ((child, ended code) ∷ rest) =
    let later = pass_over repository rest in
    let restarted = restart repository child in
    if may_restart child then with_child restarted.0 restarted.1 later else record {
      children = child ∷ children_of rest;
      events = [];
      returned = some (exit_code code);
    }

-- What is asked of the operating system for a child in `stop_children`: `terminate` where the
-- process runs, in the opposite order of the starts.
unfoldable pub terminated : List (Child × Poll) → List String
terminated [] = []
terminated ((child, running) ∷ rest) = terminated rest ++ child.name ∷ []
terminated ((child, ended code) ∷ rest) = terminated rest
