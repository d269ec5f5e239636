-- ===== src/Repository/Frigate/Tests.antt =====
-- A Frigate target with one camera.
use reefy_camadmiral.Prelude.{◌≡◌, refl, none, some, [], ◌∷◌}
use reefy_camadmiral.Effects.{raised}
use reefy_camadmiral.Repository.Frigate.{
  Frigate, lan, localhost, mode_of, save_frigate_target, set_frigate_target_address_mode,
  select_with, select_frigate_camera, frigate_camera_address_mode, are_dimensions,
  set_frigate_detection_resolution,
}
use reefy_camadmiral.Repository.Frigate.Bindings.{
  Bindings, frigate_binding, record_frigate_attempt, complete_frigate_attempt,
}
use reefy_camadmiral.Repository.Frigate.Aligned.{IsAligned}
use reefy_camadmiral.Repository.Frigate.Aligned.Calls.{
  saves, selects, sets_mode, here, next, Reach-IsAligned,
}
use reefy_camadmiral.Repository.Frigate.Kept.{applied_of, failed_sync_keeps_applied}

abbrev nothing : Frigate
nothing = record { targets = []; selections = []; retired = []; cameras = "door" ∷ [] }

abbrev with_target : Frigate
with_target = (save_frigate_target "nvr" "Recorder" "http://nvr" 1 nothing).1

abbrev with_camera : Frigate
with_camera = (select_frigate_camera "nvr" "door" "lan" 2 with_target).1

abbrev on_localhost : Frigate
on_localhost = (set_frigate_target_address_mode "nvr" "localhost" 3 with_camera).1

-- The mode of a new target is lan, and the target's mode is the camera's, whatever is asked for.
modes_run :
    (frigate_camera_address_mode "nvr" "door"
        (select_frigate_camera "nvr" "door" "localhost" 2 with_target).1
      ≡ some lan)
    × (frigate_camera_address_mode "nvr" "door" on_localhost ≡ some localhost)
    × (frigate_camera_address_mode "nvr" "door"
          (select_frigate_camera "nvr" "door" "lan" 4 on_localhost).1
        ≡ some localhost)
    × ((select_frigate_camera "nvr" "gate" "lan" 4 on_localhost).0 ≡ raised)
    × ((set_frigate_detection_resolution "nvr" "door" (some 641) (some 480) on_localhost).0
        ≡ raised)
unfolding save_frigate_target select_frigate_camera set_frigate_target_address_mode select_with
    mode_of frigate_camera_address_mode set_frigate_detection_resolution are_dimensions
modes_run = (refl, refl, refl, refl, refl)

steps_example : IsAligned on_localhost
unfolding IsAligned
steps_example =
    Reach-IsAligned
      (next
        (next (next here (saves "nvr" "Recorder" "http://nvr" 1 nothing))
          (selects "nvr" "door" "lan" 2 with_target))
        (sets_mode "nvr" "localhost" 3 with_camera))
      tt

abbrev one_binding : Bindings
one_binding =
    (complete_frigate_attempt "nvr" "door" "applied" (some "h1") none 2
      (record_frigate_attempt "nvr" "door" "door_key" "s1" "s2" "h1" 1
        (record { rows = []; cameras = "door" ∷ []; streams = "s1" ∷ "s2" ∷ [] })).1).1

kept_example :
    applied_of (
      frigate_binding "nvr" "door"
        (complete_frigate_attempt "nvr" "door" "error" none
          (some "timeout")
          4
          (record_frigate_attempt "nvr" "door" "door_key" "s1" "s1" "h2" 3 one_binding).1).1)
    ≡ applied_of (frigate_binding "nvr" "door" one_binding)
kept_example =
    failed_sync_keeps_applied "nvr" "door" "door_key" "s1" "s1" "h2" "error" none (some "timeout") 3
      4 one_binding refl
