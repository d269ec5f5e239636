-- ===== src/Repository/Blocked/Table.antt =====
-- How the upsert of a blocked device changes what tests find (camadmiral/storage.py).
use reefy_camadmiral.Prelude.{
  ◌≤◌, ◌≡◌, refl, String, Bool, true, false, ◌||◌, Option, none, some, List, [], ◌∷◌, ◌++◌, All,
  any, keep, tally, length, update_rows, eq_iff, arith, if◌then◌else◌, Bool-cases, inl, inr,
}
use reefy_camadmiral.Prelude.Rows.{tally-append, tally-update_same}
use reefy_camadmiral.Repository.Blocked.{
  BlockedDevice, is_equal, is_match, has_uuid, coalesce, renewed, upsert,
}

abbrev pub has_onvif : String → BlockedDevice → Bool
has_onvif s row = is_equal row.onvif_identity (some s)

abbrev pub has_mac : String → BlockedDevice → Bool
has_mac s row = is_equal row.mac (some s)

-- PRIMARY KEY (block_uuid), UNIQUE (onvif_identity) and UNIQUE (mac)
pub record IsUnique (rows : List BlockedDevice) : Type 0 where
  pub one_uuid : (s : String) → tally (has_uuid s) rows ≤ 1
  pub one_onvif : (s : String) → tally (has_onvif s) rows ≤ 1
  pub one_mac : (s : String) → tally (has_mac s) rows ≤ 1

module _ (p q : BlockedDevice → Bool) where
  pub tally-le :
      (rows : List BlockedDevice)
      → All (λ r. p r ≡ true → q r ≡ true) rows
      → tally p rows ≤ tally q rows
  tally-le [] h = omega arith
  tally-le (r ∷ rows) h = ground (arith, tally-le rows h.1, h.0)

  pub everywhere :
      (rows : List BlockedDevice)
      → ((r : BlockedDevice) → p r ≡ true → q r ≡ true)
      → All (λ r. p r ≡ true → q r ≡ true) rows
  everywhere [] h = tt
  everywhere (r ∷ rows) h = (h r, everywhere rows h)

  pub narrow :
      (s : BlockedDevice → Bool) (rows : List BlockedDevice)
      → ((r : BlockedDevice) → s r ≡ true → (q r || p r) ≡ true)
      → All (λ r. p r ≡ true → q r ≡ true) rows
      → All (λ r. s r ≡ true → q r ≡ true) rows
  narrow s [] g h = tt
  narrow s (r ∷ rows) g h = ((λ e. ground (arith, g r e, h.0)), narrow s rows g h.1)

  -- The rows that satisfy `p` are all in a list of rows that satisfy `q`.
  pub kept_imply :
      (rows : List BlockedDevice)
      → All (λ r. q r ≡ true) (keep p rows)
      → All (λ r. p r ≡ true → q r ≡ true) rows
  kept_imply [] h = tt
  kept_imply (r ∷ rows) h = elim (Bool-cases (p r)) [
    | inl e ↦ (let g = rw e at h in ((λ _. g.0), kept_imply rows g.1))
    | inr e ↦ (let g = rw e at h in ((λ t. ground (arith, t, e)), kept_imply rows g))
  ]

module _ (p : BlockedDevice → Bool) where
  pub tally-keep : (rows : List BlockedDevice) → tally p rows ≡ length (keep p rows)
  tally-keep [] = refl
  tally-keep (r ∷ rows) = ground (arith, tally-keep rows)

  pub tally-update_rows :
      (which : BlockedDevice → Bool) (change : BlockedDevice → BlockedDevice)
      (rows : List BlockedDevice)
      → tally p (update_rows which change rows)
        ≡ tally (λ r. p (if which r then change r else r)) rows
  tally-update_rows which change [] = refl
  tally-update_rows which change (r ∷ rows) = ground (arith, tally-update_rows which change rows)

  pub any-tally : (rows : List BlockedDevice) → any p rows ≡ true → 1 ≤ tally p rows
  any-tally [] h = ground (arith, h)
  any-tally (r ∷ rows) h = ground (arith, h, any-tally rows)

  pub tally-any_none : (rows : List BlockedDevice) → any p rows ≡ false → tally p rows ≡ 0
  tally-any_none [] h = refl
  tally-any_none (r ∷ rows) h = ground (arith, h, tally-any_none rows)

abbrev pub identity_of : BlockedDevice → Option String × Option String
identity_of row = (row.onvif_identity, row.mac)

-- A test that the written row satisfies finds matches only, and one that it does not satisfy finds
-- no row that it did not find before.
pub record Follows (row : BlockedDevice) (t : BlockedDevice → Bool) : Type 0 where
  pub matching :
      t row ≡ true → (r : BlockedDevice) → t r ≡ true → is_match (identity_of row) r ≡ true
  pub known : t row ≡ false → (r : BlockedDevice) → t (renewed row r) ≡ true → t r ≡ true

is_equal-eq :
    (a b : Option String) (s : String)
    → is_equal a (some s) ≡ true
    → is_equal b (some s) ≡ true
    → is_equal b a ≡ true
is_equal-eq none b s h g = ground (arith, h)
is_equal-eq (some a) none s h g = ground (arith, g)
is_equal-eq (some a) (some b) s h g = ground (arith, h, g, eq_iff a s, eq_iff b s, eq_iff b a)

coalesce-old :
    (a old : Option String) (s : String)
    → is_equal a (some s) ≡ false
    → is_equal (coalesce a old) (some s) ≡ true
    → is_equal old (some s) ≡ true
coalesce-old none old s h g = g
coalesce-old (some a) old s h g = ground (arith, h, g)

has_onvif-Follows : (row : BlockedDevice) (s : String) → Follows row (has_onvif s)
unfolding is_match renewed
has_onvif-Follows row s = record {
  matching =
      λ h r g. let e = is_equal-eq row.onvif_identity r.onvif_identity s h g in ground (arith, e);
  known = λ h r g. coalesce-old row.onvif_identity r.onvif_identity s h g;
}

has_mac-Follows : (row : BlockedDevice) (s : String) → Follows row (has_mac s)
unfolding is_match renewed
has_mac-Follows row s = record {
  matching = λ h r g. let e = is_equal-eq row.mac r.mac s h g in ground (arith, e);
  known = λ h r g. coalesce-old row.mac r.mac s h g;
}

module _ (row : BlockedDevice) (rows : List BlockedDevice)
    (others : All
      (λ r. is_match (identity_of row) r ≡ true → has_uuid row.block_uuid r ≡ true)
      rows)
    (one : tally (has_uuid row.block_uuid) rows ≤ 1) where
  -- The rows that the test finds once the row is written.
  updated :
      (t : BlockedDevice → Bool)
      → Follows row t
      → tally t rows ≤ 1
      → tally (λ r. t (if has_uuid row.block_uuid r then renewed row r else r)) rows ≤ 1
  updated t f h = elim (Bool-cases (t row)) [
    | inl e ↦ omega (
      arith,
      one,
      tally-le after (has_uuid row.block_uuid) rows (
          narrow (is_match (identity_of row)) (has_uuid row.block_uuid) after rows (found e)
            others),
    )
    | inr e ↦ omega (arith, h, tally-le after t rows (everywhere after t rows (kept e)))
  ]
    where
      after : BlockedDevice → Bool
      after r = t (if has_uuid row.block_uuid r then renewed row r else r)

      found :
          t row ≡ true
          → (r : BlockedDevice) → after r ≡ true
          → (has_uuid row.block_uuid r || is_match (identity_of row) r) ≡ true
      found e r = elim (Bool-cases (has_uuid row.block_uuid r)) [
        | inl q ↦ rw q (λ g. refl)
        | inr q ↦ rw q (λ g. f.matching e r g)
      ]

      kept : t row ≡ false → (r : BlockedDevice) → after r ≡ true → t r ≡ true
      kept e r = elim (Bool-cases (has_uuid row.block_uuid r)) [
        | inl q ↦ rw q (λ g. f.known e r g)
        | inr q ↦ rw q (λ g. g)
      ]

  inserted :
      (t : BlockedDevice → Bool)
      → Follows row t
      → tally t rows ≤ 1
      → any (has_uuid row.block_uuid) rows ≡ false
      → tally t (rows ++ row ∷ []) ≤ 1
  inserted t f h a = elim (Bool-cases (t row)) [
    | inl e ↦ ground (
      arith,
      e,
      tally-append t rows row,
      tally-any_none (has_uuid row.block_uuid) rows a,
      tally-le t (has_uuid row.block_uuid) rows (
          narrow (is_match (identity_of row)) (has_uuid row.block_uuid) t rows
            (λ r g. let m = f.matching e r g in ground (arith, m)) others),
    )
    | inr e ↦ ground (arith, e, h, tally-append t rows row)
  ]

  -- The test still finds at most one row.
  pub tally-upsert :
      (t : BlockedDevice → Bool) → Follows row t → tally t rows ≤ 1 → tally t (upsert row rows) ≤ 1
  unfolding upsert
  tally-upsert t f h = elim (Bool-cases (any (has_uuid row.block_uuid) rows)) [
    | inl e ↦
        rw e (rw (tally-update_rows t (has_uuid row.block_uuid) (renewed row) rows) (updated t f h))
    | inr e ↦ rw e (inserted t f h e)
  ]

  uuid-upsert :
      (s : String) → tally (has_uuid s) rows ≤ 1 → tally (has_uuid s) (upsert row rows) ≤ 1
  unfolding upsert renewed
  uuid-upsert s h = elim (Bool-cases (any (has_uuid row.block_uuid) rows)) [
    | inl e ↦ rw e (
        rw (tally-update_same (has_uuid s) (has_uuid row.block_uuid) (renewed row) (λ x. refl) rows)
          h)
    | inr e ↦ rw e (new e)
  ]
    where
      new : any (has_uuid row.block_uuid) rows ≡ false → tally (has_uuid s) (rows ++ row ∷ []) ≤ 1
      new e = ground (
        arith,
        h,
        tally-append (has_uuid s) rows row,
        tally-any_none (has_uuid row.block_uuid) rows e,
        eq_iff row.block_uuid s,
      )

pub upsert-IsUnique :
    (row : BlockedDevice) (rows : List BlockedDevice)
    → All (λ r. is_match (identity_of row) r ≡ true → has_uuid row.block_uuid r ≡ true) rows
    → IsUnique rows
    → IsUnique (upsert row rows)
upsert-IsUnique row rows others u = record {
  one_uuid = λ s. uuid-upsert row rows others (u.one_uuid row.block_uuid) s (u.one_uuid s);
  one_onvif = λ s.
      tally-upsert row rows others (u.one_uuid row.block_uuid) (has_onvif s)
        (has_onvif-Follows row s) (u.one_onvif s);
  one_mac = λ s.
      tally-upsert row rows others (u.one_uuid row.block_uuid) (has_mac s) (has_mac-Follows row s)
        (u.one_mac s);
}
