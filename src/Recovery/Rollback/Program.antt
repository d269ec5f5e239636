-- ===== src/Recovery/Rollback/Program.antt =====
-- That a recovery that fails leaves the sources in the tables of camadmiral/storage.py as they were
-- (camadmiral/recovery.py, on its repository and relay).
use reefy_camadmiral.Prelude.{
  ◌≡◌, refl, String, Bool, true, false, ◌&&◌, Option, none, some, List, [], ◌∷◌, ◌++◌, map, any,
  All, find_row, str_eq, eq_iff, arith, if◌then◌else◌, Bool-cases, inl, inr,
}
use reefy_camadmiral.Prelude.Dict.{Dict, get, has}
use reefy_camadmiral.Effects.{returned, has_returned}
use reefy_camadmiral.Inventory.{Device}
use reefy_camadmiral.Repository.Revisions.{Revisions, complete_media_revision}
use reefy_camadmiral.Recovery.{Attempt}
use reefy_camadmiral.Recovery.Planning.{Plan, RecoveryResult, result_of}
use reefy_camadmiral.Recovery.Applying.{untouched, body, apply_plans}
use reefy_camadmiral.Recovery.Store.{
  Profile, Store, is_profile, take_entry, write_source, are_known, update_profile_sources,
  Surroundings, completed, program,
}
use reefy_camadmiral.Recovery.Rollback.{View, overwrite, IsRepository, Restores}
use reefy_camadmiral.Recovery.Rollback.Failure.{sources_after_failure}

abbrev pub uri_of : Option Profile → Option String
uri_of none = none
uri_of (some p) = p.profile_uri

-- The source of a camera's profile, of the first row with its token.
unfoldable pub stored_source : {R : Type 0} → View (Store R)
stored_source s camera token = uri_of (find_row (is_profile camera token) s.profiles)

abbrev rewritten : Bool → Option String → Option Profile → Option Profile
rewritten writes entry none = none
rewritten writes entry (some p) =
    some (if writes then record p { profile_uri = take_entry entry p.profile_uri } else p)

find-write :
    (camera : String) (sources : Dict String) (c t : String) (rows : List Profile)
    → find_row (is_profile c t) (map (write_source camera sources) rows)
      ≡ rewritten (str_eq camera c) (get sources t) (find_row (is_profile c t) rows)
unfolding write_source
find-write camera sources c t [] = refl
find-write camera sources c t (p ∷ rows) = elim (Bool-cases (str_eq p.profile_camera camera)) [
  | inl e ↦ rw e (elim (Bool-cases (is_profile c t p)) [
    | inl q ↦ rw q (rw (owns e q, token q) refl)
    | inr q ↦ rw q (find-write camera sources c t rows)
  ])
  | inr e ↦ rw e (elim (Bool-cases (is_profile c t p)) [
    | inl q ↦ rw q (rw (other e q) refl)
    | inr q ↦ rw q (find-write camera sources c t rows)
  ])
]
  where
    token : is_profile c t p ≡ true → p.token ≡ t
    token q = (eq_iff p.token t).0 (ground (arith, q))

    owns : str_eq p.profile_camera camera ≡ true → is_profile c t p ≡ true → str_eq camera c ≡ true
    owns e q =
        ground
          (arith, e, q, eq_iff p.profile_camera camera, eq_iff p.profile_camera c, eq_iff camera c)

    other :
        str_eq p.profile_camera camera ≡ false → is_profile c t p ≡ true → str_eq camera c ≡ false
    other e q =
        ground
          (arith, e, q, eq_iff p.profile_camera camera, eq_iff p.profile_camera c, eq_iff camera c)

-- A known token has a row.
known-found :
    (camera t : String) (sources : Dict String) (rows : List Profile)
    → are_known camera sources rows ≡ true
    → has sources t ≡ true
    → any (is_profile camera t) rows ≡ true
unfolding get
known-found camera t [] rows k h = ground (arith, h)
known-found camera t ((j, uri) ∷ sources) rows k h = elim (Bool-cases (str_eq j t)) [
  | inl e ↦
      (let known : any (is_profile camera j) rows ≡ true = ground (arith, k) in
        rw ((eq_iff j t).0 e) at known)
  | inr e ↦ known-found camera t sources rows (ground (arith, k)) (ground (arith, h, e))
]

find_none-any :
    (test : Profile → Bool) (rows : List Profile)
    → find_row test rows ≡ none
    → any test rows ≡ false
find_none-any test [] h = refl
find_none-any test (p ∷ rows) h = ground (arith, h, find_none-any test rows)

uri-rewritten :
    (o : Option Profile) (entry : Option String) (writes : Bool)
    → (writes ≡ true → o ≡ none → entry ≡ none)
    → uri_of (rewritten writes entry o)
      ≡ (if writes then (elim entry [ none ↦ uri_of o | some uri ↦ some uri ]) else uri_of o)
uri-rewritten none entry false h = refl
uri-rewritten (some p) entry false h = refl
uri-rewritten none none true h = refl
uri-rewritten none (some uri) true h = absurd (none_some (h refl refl))
  where
    none_some : some uri ≡ none → ⊥
    none_some q = cc
uri-rewritten (some p) none true h = refl
uri-rewritten (some p) (some uri) true h = refl

module _ {R : Type 0} (env : Surroundings R) where
  written-source :
      (camera : String) (updates : Dict String) (s : Store R) (c t : String)
      → stored_source (update_profile_sources env.number env.now camera updates s).1 c t ≡ (
          if has_returned (update_profile_sources env.number env.now camera updates s).0
            && str_eq camera c
          then overwrite updates t (stored_source s c t)
          else stored_source s c t)
  unfolding update_profile_sources stored_source get
  written-source camera [] s c t = ground arith
  written-source camera (entry ∷ entries) s c t =
      elim (Bool-cases (are_known camera (entry ∷ entries) s.profiles)) [
        | inl k ↦ rw k (
            rw (find-write camera (entry ∷ entries) c t s.profiles) (
              uri-rewritten (find_row (is_profile c t) s.profiles) (get (entry ∷ entries) t)
                (str_eq camera c) (unknown k)))
        | inr k ↦ rw k refl
      ]
    where
      unknown :
          are_known camera (entry ∷ entries) s.profiles ≡ true
          → str_eq camera c ≡ true
          → find_row (is_profile c t) s.profiles ≡ none
          → get (entry ∷ entries) t ≡ none
      unknown k e f = go (get (entry ∷ entries) t) refl
        where
          go : (o : Option String) → get (entry ∷ entries) t ≡ o → o ≡ none
          go none q = refl
          go (some uri) q =
              let found : any (is_profile camera t) s.profiles ≡ true =
                known-found camera t (entry ∷ entries) s.profiles k (rw (has, q) refl) in
              let gone = find_none-any (is_profile c t) s.profiles f in
              let there : any (is_profile c t) s.profiles ≡ true =
                rw ((eq_iff camera c).0 e) at found in
              absurd (ground (arith, there, gone))

  sources-completed :
      (o : Option Revisions) (s : Store R) → stored_source (completed o s).1 ≡ stored_source s
  unfolding stored_source
  sources-completed none s = refl
  sources-completed (some revisions) s = refl

  -- The repository of the program is one.
  program-IsRepository : IsRepository (program env) stored_source
  unfolding program stored_source
  program-IsRepository = record {
    updates_all = λ camera updates s c t. written-source camera updates s c t;
    opens = λ p s. refl;
    lists = λ s. refl;
    desires = λ sources s. refl;
    replaces = λ sources s. refl;
    notifies = λ reason n s. refl;
    probes = λ sources s. refl;
    records = λ results s. refl;
    completes = λ id status code s.
        sources-completed (complete_media_revision s.revisions id status code env.now) s;
  }

-- Where the relay cannot be replaced, and the handler itself does not raise, a recovery answers
-- `runtime_failed` for every planned camera, and the source of every profile in the tables is what
-- it was before; the plans know the previous source of what they change.
pub sources_survive_failure :
    {R : Type 0} (env : Surroundings R) (links : Dict Device) (results : List RecoveryResult)
    (plan : Plan) (plans : List Plan) (s : Store R) (attempts : List Attempt)
    → All (Restores (stored_source s)) (plan ∷ plans)
    → has_returned (body (program env) (plan ∷ plans) (s, untouched attempts)).0 ≡ false
    → has_returned (apply_plans (program env) links results (plan ∷ plans) (s, attempts)).0 ≡ true
    → ((apply_plans (program env) links results (plan ∷ plans) (s, attempts)).0
        ≡ returned (results ++ map (result_of "runtime_failed") (plan ∷ plans)))
      × ((c t : String)
          → stored_source
              (apply_plans (program env) links results (plan ∷ plans) (s, attempts)).1.0
              c
              t
            ≡ stored_source s c t)
sources_survive_failure env links results plan plans s attempts good fails ok =
    sources_after_failure (program env) stored_source (program-IsRepository env) links results plan
      plans s attempts good fails ok
