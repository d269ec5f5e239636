-- ===== src/CameraIdentity/Tests.antt =====
-- A camera that was linked to a device, and what discovery finds of it.
use reefy_camadmiral.Prelude.{◌≡◌, refl, ◌⊎◌, true, false, none, [], ◌∷◌, tally}
use reefy_camadmiral.Prelude.Dict.{Dict, get}
use reefy_camadmiral.Json.{text}
use reefy_camadmiral.Inventory.{Device, Python, str_or_empty}
use reefy_camadmiral.CameraIdentity.{
  physical_identity, same_identity, values, is_current, in_conflict, matches, resolve,
  linked_candidate,
}
use reefy_camadmiral.CameraIdentity.Linking.{linked_candidate-same}

abbrev verbatim : Python
verbatim = record {
  normal = λ s. s;
  lower = λ s. s;
  show = λ v. "None";
  uuid4 = λ n. "fresh";
  ipv4_network = λ s. none;
  ipv4_address = λ s. none;
}

abbrev confirmed : Device
confirmed = ("mac", text "aa") ∷ ("last_seen", text "2024-05-01") ∷ []

abbrev rediscovered : Device
rediscovered = ("mac", text "aa") ∷ ("ip", text "10.0.0.9") ∷ ("last_seen", text "2024-06-01") ∷ []

abbrev stranger : Device
stranger = ("mac", text "bb") ∷ ("last_seen", text "2024-06-01") ∷ []

abbrev candidates : Dict Device
candidates = ("u1", rediscovered) ∷ ("u2", stranger) ∷ []

abbrev links : Dict Device
links = ("camera", confirmed) ∷ []

linked_example :
    (rediscovered ≡ confirmed)
    ⊎ ((tally (same_identity verbatim confirmed) (values candidates) ≡ 1)
        × (same_identity verbatim confirmed rediscovered ≡ true)
        × (in_conflict rediscovered ≡ false)
        × (is_current verbatim confirmed rediscovered ≡ true))
unfolding linked_candidate get matches resolve same_identity physical_identity is_current
    in_conflict str_or_empty
linked_example =
    linked_candidate-same verbatim "camera" none candidates links none {saved = confirmed}
      {d = rediscovered} refl refl refl
