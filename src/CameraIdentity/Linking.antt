-- ===== src/CameraIdentity/Linking.antt =====
-- Which device a linked camera resolves to (camadmiral/camera_identity.py).
use mathlib.Core.Path.{subst, ap}
use reefy_camadmiral.Prelude.{
  ◌==◌, ◌≡◌, refl, sym, ◌⊎◌, inl, inr, String, Bool, true, false, ◌&&◌, Option, some, List, [], ◌∷◌,
  keep, tally, length, str_eq, eq_iff, if◌then◌else◌, arith, Bool-cases,
}
use reefy_camadmiral.Prelude.Dict.{Dict, get}
use reefy_camadmiral.Json.{Value}
use reefy_camadmiral.Inventory.{Device, Python}
use reefy_camadmiral.CameraIdentity.{
  physical_identity, same_identity, both, values, is_current, in_conflict, matches, resolve,
  linked_candidate,
}

-- Whether two devices are one does not depend on which of them is the known one.
pub same_identity-sym : (py : Python) (a b : Device) → same_identity py a b ≡ same_identity py b a
unfolding same_identity
same_identity-sym py a b = go (physical_identity py a) (physical_identity py b)
  where
    go :
        (x y : String × String)
        → (if both x.0 y.0 then str_eq x.0 y.0 else both x.1 y.1 && str_eq x.1 y.1)
          ≡ (if both y.0 x.0 then str_eq y.0 x.0 else both y.1 x.1 && str_eq y.1 x.1)
    go x y = ground (arith, eq_iff x.0 y.0, eq_iff y.0 x.0, eq_iff x.1 y.1, eq_iff y.1 x.1)

length-keep : (test : Device → Bool) (ds : List Device) → length (keep test ds) ≡ tally test ds
length-keep test [] = refl
length-keep test (d ∷ ds) = ground (arith, length-keep test ds)

keep-first :
    (test : Device → Bool) (ds : List Device) {d : Device} {rest : List Device}
    → keep test ds ≡ d ∷ rest
    → test d ≡ true
keep-first test [] h = cc
keep-first test (x ∷ ds) {d} {rest} h = elim (Bool-cases (test x)) [
  | inl e ↦ let same : x ∷ keep test ds ≡ d ∷ rest = (rw e at h) in ground (arith, e, same)
  | inr e ↦ keep-first test ds (rw e at h)
]

one : (x : Device) {d : Device} → some x ≡ some d → x ≡ d
one x h = cc

resolve-some :
    (py : Python) (saved : Device) (found : List Device) {d : Device}
    → resolve py saved found ≡ some d
    → (d ≡ saved) ⊎ ((found ≡ d ∷ []) × (in_conflict d ≡ false) × (is_current py saved d ≡ true))
unfolding resolve
resolve-some py saved [] {d} h = inl cc
resolve-some py saved (x ∷ []) {d} h = elim (Bool-cases (in_conflict x)) [
  | inl e ↦ absurd (ground (arith, e, h))
  | inr e ↦ (elim (Bool-cases (is_current py saved x)) [
    | inl f ↦
        (let same : x ≡ d = one x (rw (e, f) at h) in
          inr (
            subst
              (λ z. ((x ∷ []) ≡ z ∷ []) × (in_conflict z ≡ false) × (is_current py saved z ≡ true))
              same (refl, e, f)))
    | inr f ↦ (inl (sym (one saved (rw (e, f) at h))))
  ])
]
resolve-some py saved (x ∷ y ∷ rest) {d} h = absurd (ground (arith, h))

-- A camera with a confirmed identity resolves to that saved identity, or to a device that is the
-- only one of the same identity, is in no conflict and was seen no earlier.
pub linked_candidate-same :
    (py : Python) (camera_uuid : String) (own : Option Value) (candidates links : Dict Device)
    (candidate_uuid : Option String) {saved d : Device}
    → get links camera_uuid ≡ some saved
    → (length saved == 0) ≡ false
    → linked_candidate py camera_uuid own candidates links candidate_uuid ≡ some d
    → (d ≡ saved)
      ⊎ ((tally (same_identity py saved) (values candidates) ≡ 1)
          × (same_identity py saved d ≡ true)
          × (in_conflict d ≡ false)
          × (is_current py saved d ≡ true))
unfolding linked_candidate matches
linked_candidate-same py camera_uuid own candidates links candidate_uuid {saved} {d} link_given full
      h =
    elim (resolve-some py saved (keep (same_identity py saved) (values candidates))
      (rw (link_given, full) at h)) [
        | inl same ↦ inl same
        | inr only ↦ inr (
          omega (
            arith,
            sym (length-keep (same_identity py saved) (values candidates)),
            ap length only.0,
          ),
          keep-first (same_identity py saved) (values candidates) only.0,
          only.1,
          only.2,
        )
      ]
