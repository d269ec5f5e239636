-- ===== src/Repository/Revisions.antt =====
-- The revisions of the media configuration: `record_desired_media_revision`,
-- `complete_media_revision` and `last_known_good_media_revision` of camadmiral/storage.py. A
-- configuration is known by its hash, of which the code compares nothing else.
use text.Mathlib.TextPositions.{eq_refl}
use mathlib.Core.Path.{subst}
use reefy_camadmiral.Prelude.{
  ℕ, ◌+◌, ◌≡◌, refl, String, str_eq, Bool, true, false, not, ◌&&◌, Option, none, some, List, [],
  ◌∷◌, ◌++◌, arith, update_rows, ◌==◌, if◌then◌else◌, inl, inr, Bool-cases, Option-cases,
}

pub data RevisionStatus : Type 0 where
  desired applied failed : RevisionStatus

pub record Revision : Type 0 where
  pub revision_id : ℕ
  pub desired_hash : String
  pub status : RevisionStatus
  pub error_code : Option String
  pub completed_at : Option ℕ

-- The rows in the order of their identifiers, which `AUTOINCREMENT` never uses twice.
pub record Revisions : Type 0 where
  pub rows : List Revision
  pub next_id : ℕ

abbrev is_status : RevisionStatus → RevisionStatus → Bool
is_status desired desired = true
is_status applied applied = true
is_status failed failed = true
is_status _ _ = false

-- `ORDER BY revision_id DESC LIMIT 1` over the rows that a test admits
unfoldable pub newest : (Revision → Bool) → List Revision → Option Revision
newest test [] = none
newest test (r ∷ rs) = elim (newest test rs) [
  | some later ↦ some later
  | none ↦ if test r then some r else none
]

abbrev latest : List Revision → Option Revision
latest = newest (λ r. true)

abbrev insert_revision : Revisions → String → Revisions × ℕ × RevisionStatus
insert_revision t hash = (
  record {
    rows =
        t.rows
        ++ record {
          revision_id = t.next_id;
          desired_hash = hash;
          status = desired;
          error_code = none;
          completed_at = none;
        }
          ∷ [];
    next_id = t.next_id + 1;
  },
  t.next_id,
  desired,
)

abbrev reuse_or_insert : Revisions → String → Option Revision → Revisions × ℕ × RevisionStatus
reuse_or_insert t hash none = insert_revision t hash
reuse_or_insert t hash (some r) =
    if str_eq r.desired_hash hash && not (is_status r.status failed)
    then (t, r.revision_id, r.status)
    else insert_revision t hash

unfoldable pub record_desired_media_revision : Revisions → String → Revisions × ℕ × RevisionStatus
unfolding newest
record_desired_media_revision t hash = reuse_or_insert t hash (latest t.rows)

abbrev is_desired : ℕ → Revision → Bool
is_desired id r = r.revision_id == id && is_status r.status desired

abbrev finish : RevisionStatus → Option String → ℕ → Revision → Revision
finish status error now r = record r {
  status = status;
  error_code = error;
  completed_at = some now;
}

-- `none` stands for the `ValueError`.
unfoldable pub complete_media_revision :
    Revisions → ℕ → RevisionStatus → Option String → ℕ → Option Revisions
complete_media_revision t id desired error now = none
complete_media_revision t id status error now =
    some (record t { rows = update_rows (is_desired id) (finish status error now) t.rows })

abbrev is_applied : Revision → Bool
is_applied r = is_status r.status applied

unfoldable pub last_known_good_media_revision : Revisions → Option Revision
unfolding newest
last_known_good_media_revision t = newest is_applied t.rows

newest-append :
    (test : Revision → Bool) (rs : List Revision) (r : Revision)
    → newest test (rs ++ r ∷ []) ≡ (if test r then some r else newest test rs)
unfolding newest
newest-append test [] r = refl
newest-append test (x ∷ rs) r = ground (arith, newest-append test rs r)

reused :
    (t : Revisions) (hash : String) (r : Revision)
    → latest t.rows ≡ some r
    → (str_eq r.desired_hash hash && not (is_status r.status failed)) ≡ true
    → record_desired_media_revision t hash ≡ (t, r.revision_id, r.status)
unfolding record_desired_media_revision
reused t hash r e h = rw (e, reuse_or_insert) (rw h)

inserted_again :
    (t : Revisions) (hash : String)
    → record_desired_media_revision (insert_revision t hash).0 hash ≡ insert_revision t hash
inserted_again t hash =
    reused (insert_revision t hash).0 hash _ (newest-append (λ r. true) t.rows _)
      (ground (arith, eq_refl hash))

-- Asking twice for the same configuration gives the same revision, and the second time writes
-- nothing.
pub record_desired_idem :
    (t : Revisions) (hash : String)
    → let (t', id, status) = record_desired_media_revision t hash in
      record_desired_media_revision t' hash ≡ (t', id, status)
unfolding record_desired_media_revision
record_desired_idem t hash = go (latest t.rows) refl
  where
    go :
        (l : Option Revision)
        → latest t.rows ≡ l
        → let (t', id, status) = reuse_or_insert t hash l in
          record_desired_media_revision t' hash ≡ (t', id, status)
    go none e = inserted_again t hash
    go (some r) e =
        elim (Bool-cases (str_eq r.desired_hash hash && not (is_status r.status failed))) [
          | inl same ↦ rw same (reused t hash r e same)
          | inr other ↦ rw other (inserted_again t hash)
        ]

newest-finish :
    (id : ℕ) (error : Option String) (now : ℕ) (rs : List Revision)
    → newest is_applied (update_rows (is_desired id) (finish failed error now) rs)
      ≡ newest is_applied rs
unfolding newest
newest-finish id error now [] = refl
newest-finish id error now (r ∷ rs) = ground (arith, newest-finish id error now rs)

-- A revision that fails is not taken back to: the last known good one stays what it was.
pub failed_keeps_last_known_good :
    (t t' : Revisions) (id : ℕ) (error : Option String) (now : ℕ)
    → complete_media_revision t id failed error now ≡ some t'
    → last_known_good_media_revision t' ≡ last_known_good_media_revision t
unfolding complete_media_revision last_known_good_media_revision
failed_keeps_last_known_good t t' id error now h =
    let e : record t { rows = update_rows (is_desired id) (finish failed error now) t.rows } ≡ t' =
      cc in
    subst (λ x. newest is_applied x.rows ≡ newest is_applied t.rows) e
      (newest-finish id error now t.rows)

nothing_newer : (rs : List Revision) → latest rs ≡ none → rs ≡ []
unfolding newest
nothing_newer [] h = refl
nothing_newer (x ∷ rs) h = ground arith

newest_applied :
    (error : Option String) (now : ℕ) (rs : List Revision) (r : Revision)
    → latest rs ≡ some r
    → r.status ≡ desired
    → newest is_applied (update_rows (is_desired r.revision_id) (finish applied error now) rs)
      ≡ some (finish applied error now r)
unfolding newest
newest_applied error now [] r e d = cc
newest_applied error now (x ∷ rs) r e d = elim (Option-cases (newest (λ r. true) rs)) [
  | inl none_ ↦ ground (arith, nothing_newer rs)
  | inr (l, later) ↦ rw (newest_applied error now rs r (ground arith) d)
]

desired_latest :
    (t : Revisions) (hash : String) (l : Option Revision) (id : ℕ)
    → latest t.rows ≡ l
    → (reuse_or_insert t hash l).1 ≡ id
    → (reuse_or_insert t hash l).2 ≡ desired
    → (r : Revision) × (latest (reuse_or_insert t hash l).0.rows ≡ some r)
      × (r.revision_id ≡ id)
      × (r.status ≡ desired)
desired_latest t hash none id e i d = (_, newest-append (λ r. true) t.rows _, i, refl)
desired_latest t hash (some r) id e i d =
    elim (Bool-cases (str_eq r.desired_hash hash && not (is_status r.status failed))) [
      | inl same ↦ rw same (r, e, ground arith, ground arith)
      | inr other ↦ rw other (_, newest-append (λ r. true) t.rows _, ground arith, refl)
    ]

-- The revision that was recorded as desired is the last known good one once it is applied.
pub applied_is_last_known_good :
    (t t' : Revisions) (hash : String) (id now : ℕ)
    → (record_desired_media_revision t hash).1 ≡ id
    → (record_desired_media_revision t hash).2 ≡ desired
    → complete_media_revision (record_desired_media_revision t hash).0 id applied none now ≡ some t'
    → (good : Revision) × (last_known_good_media_revision t' ≡ some good) × (good.revision_id ≡ id)
unfolding complete_media_revision last_known_good_media_revision record_desired_media_revision
applied_is_last_known_good t t' hash id now i d h =
    let (r, e, same, wanted) = desired_latest t hash (latest t.rows) id refl i d in
    let recorded : Revisions = (reuse_or_insert t hash (latest t.rows)).0 in
    let p : record recorded {
      rows = update_rows (is_desired id) (finish applied none now) recorded.rows;
    }
        ≡ t' =
      cc in
    (
      finish applied none now r,
      subst (λ x. newest is_applied x.rows ≡ some (finish applied none now r)) p
          (rw (← same) (newest_applied none now recorded.rows r e wanted)),
      same,
    )
