-- ===== src/Repository/Blocked/Unique.antt =====
-- That blocked devices keep their UNIQUE constraints and are found (camadmiral/storage.py).
use reefy_camadmiral.Prelude.{
  ℕ, ◌≤◌, ◌≡◌, ◌≢◌, refl, String, Bool, true, false, not, ◌&&◌, ◌||◌, Option, none, some, List, [],
  ◌∷◌, All, any, keep, tally, length, eq_iff, arith, if◌then◌else◌, Bool-cases, inl, inr,
}
use reefy_camadmiral.Prelude.Rows.{tally-append}
use reefy_camadmiral.Inventory.{Device, Python}
use reefy_camadmiral.Repository.Blocked.{
  BlockedDevice, candidate_stable_identity, is_equal, is_match, single, is_none, has_uuid, coalesce,
  renewed, upsert, row_of, Blocking, conflicting, unstable, ambiguous, unasserted, blocked,
  asserted, written, unblock_device, write_block, block_candidate, blocked_device_for_candidate,
}
use reefy_camadmiral.Prelude.Dict.{get}
use reefy_camadmiral.Json.{is_given}
use reefy_camadmiral.Repository.Blocked.Table.{
  IsUnique, tally-le, everywhere, kept_imply, tally-keep, tally-update_rows, any-tally, identity_of,
  Follows, tally-upsert, upsert-IsUnique,
}

-- The rows that a call leaves.
abbrev pub rows_after : List BlockedDevice → Blocking → List BlockedDevice
rows_after rows (blocked row after) = after
rows_after rows (unasserted after) = after
rows_after rows _ = rows

rows_after-asserted :
    (o : Option BlockedDevice) (rows after : List BlockedDevice)
    → rows_after rows (asserted o after) ≡ after
unfolding asserted
rows_after-asserted none rows after = refl
rows_after-asserted (some row) rows after = refl

module _ (py : Python) (fresh : String) (now : ℕ) (candidate : Device) (rows : List BlockedDevice)
    (u : IsUnique rows) where
  abbrev matches : BlockedDevice → Bool
  matches = is_match (candidate_stable_identity py candidate)

  written-IsUnique :
      (uuid : String)
      → All (λ r. matches r ≡ true → has_uuid uuid r ≡ true) rows
      → IsUnique (rows_after rows (written py now candidate rows uuid))
  unfolding written row_of
  written-IsUnique uuid h =
      rw
        (rows_after-asserted
          (blocked_device_for_candidate py candidate (upsert (row_of py now candidate uuid) rows))
          rows (upsert (row_of py now candidate uuid) rows))
        (upsert-IsUnique (row_of py now candidate uuid) rows h u)

  -- What holds of each answer holds of the call; every match is of the identifier that is written.
  block_candidate-covers :
      (P : Blocking → Type 0)
      → P conflicting
      → P unstable
      → P ambiguous
      → ((uuid : String)
          → (is_none (candidate_stable_identity py candidate).0
              && is_none (candidate_stable_identity py candidate).1)
            ≡ false
          → All (λ r. matches r ≡ true → has_uuid uuid r ≡ true) rows
          → P (written py now candidate rows uuid))
      → P (block_candidate py fresh now candidate rows)
  unfolding block_candidate write_block
  block_candidate-covers P c n a w =
      elim (Bool-cases (is_given (get candidate "identity_conflict"))) [
        | inl e ↦ rw e c
        | inr e ↦
            (elim (Bool-cases (
              is_none (candidate_stable_identity py candidate).0
              && is_none (candidate_stable_identity py candidate).1)) [
                | inl q ↦ rw (e, q) n
                | inr q ↦
                    rw (e, q)
                      (go (keep matches rows)
                        (λ uuid h. w uuid q (kept_imply matches (has_uuid uuid) rows h)))
              ])
      ]
    where
      go :
          (found : List BlockedDevice)
          → ((uuid : String)
              → All (λ r. has_uuid uuid r ≡ true) found
              → P (written py now candidate rows uuid))
          → P (write_block py fresh now candidate rows found)
      go [] f = f fresh tt
      go (row ∷ []) f = f row.block_uuid (ground (arith, eq_iff row.block_uuid row.block_uuid), tt)
      go (row ∷ other ∷ more) f = a

-- Blocking a device keeps the constraints of the table, whatever it answers: PRIMARY KEY
-- (block_uuid), UNIQUE (onvif_identity) and UNIQUE (mac).
pub block_candidate-IsUnique :
    (py : Python) (fresh : String) (now : ℕ) (candidate : Device) (rows : List BlockedDevice)
    → IsUnique rows
    → IsUnique (rows_after rows (block_candidate py fresh now candidate rows))
block_candidate-IsUnique py fresh now candidate rows u =
    block_candidate-covers py fresh now candidate rows u (λ b. IsUnique (rows_after rows b)) u u u
      (λ uuid q h. written-IsUnique py fresh now candidate rows u uuid h)

is_match-renewed :
    (row r : BlockedDevice)
    → (is_none row.onvif_identity && is_none row.mac) ≡ false
    → is_match (identity_of row) (renewed row r) ≡ true
unfolding is_match renewed
is_match-renewed row r h = go row.onvif_identity row.mac r.onvif_identity r.mac h
  where
    go :
        (a b c d : Option String)
        → (is_none a && is_none b) ≡ false
        → (is_equal (coalesce a c) a || is_equal (coalesce b d) b) ≡ true
    go none none c d h = ground (arith, h)
    go none (some b) c d h = ground (arith, eq_iff b b)
    go (some a) b c d h = ground (arith, eq_iff a a)

is_match_self :
    (row : BlockedDevice)
    → (is_none row.onvif_identity && is_none row.mac) ≡ false
    → is_match (identity_of row) row ≡ true
unfolding is_match
is_match_self row h = go row.onvif_identity row.mac h
  where
    go :
        (a b : Option String)
        → (is_none a && is_none b) ≡ false
        → (is_equal a a || is_equal b b) ≡ true
    go none none h = ground (arith, h)
    go none (some b) h = ground (arith, eq_iff b b)
    go (some a) b h = ground (arith, eq_iff a a)

-- The written row, or the one that it renews, is a match.
upsert-found :
    (row : BlockedDevice) (rows : List BlockedDevice)
    → (is_none row.onvif_identity && is_none row.mac) ≡ false
    → 1 ≤ tally (is_match (identity_of row)) (upsert row rows)
unfolding upsert
upsert-found row rows h = elim (Bool-cases (any (has_uuid row.block_uuid) rows)) [
  | inl e ↦
      rw e (rw (tally-update_rows test (has_uuid row.block_uuid) (renewed row) rows) (renewals e))
  | inr e ↦ rw e (ground (arith, tally-append test rows row, is_match_self row h))
]
  where
    test : BlockedDevice → Bool
    test = is_match (identity_of row)

    after : BlockedDevice → Bool
    after r = test (if has_uuid row.block_uuid r then renewed row r else r)

    renewals : any (has_uuid row.block_uuid) rows ≡ true → 1 ≤ tally after rows
    renewals e = omega (
      arith,
      any-tally (has_uuid row.block_uuid) rows e,
      tally-le (has_uuid row.block_uuid) after rows (
          everywhere (has_uuid row.block_uuid) after rows (λ r q. rw q (is_match-renewed row r h))),
    )

match-Follows :
    (row : BlockedDevice)
    → (is_none row.onvif_identity && is_none row.mac) ≡ false
    → Follows row (is_match (identity_of row))
match-Follows row h = record {
  matching = λ e r g. g;
  known = λ e r g. let m = is_match_self row h in ground (arith, e, m);
}

single-one : (rows : List BlockedDevice) → length rows ≡ 1 → single rows ≢ none
single-one [] h = ground (arith, h)
single-one (row ∷ []) h = λ e. cc
single-one (row ∷ other ∷ rows) h = ground (arith, h)

asserted-some :
    (o : Option BlockedDevice) (rows after : List BlockedDevice)
    → o ≢ none
    → asserted o rows ≢ unasserted after
unfolding asserted
asserted-some none rows after h = λ e. h refl
asserted-some (some row) rows after h = λ e. cc

upsert-single :
    (row : BlockedDevice) (rows : List BlockedDevice)
    → (is_none row.onvif_identity && is_none row.mac) ≡ false
    → All (λ r. is_match (identity_of row) r ≡ true → has_uuid row.block_uuid r ≡ true) rows
    → IsUnique rows
    → single (keep (is_match (identity_of row)) (upsert row rows)) ≢ none
upsert-single row rows q h u = single-one (keep test (upsert row rows)) (
    omega (
      arith,
      tally-keep test (upsert row rows),
      upsert-found row rows q,
      tally-upsert row rows h one test (match-Follows row q)
          (omega (arith, one, tally-le test (has_uuid row.block_uuid) rows h)),
    ))
  where
    test : BlockedDevice → Bool
    test = is_match (identity_of row)

    one : tally (has_uuid row.block_uuid) rows ≤ 1
    one = u.one_uuid row.block_uuid

-- A device that was blocked is found in the table that is left, so the assertion holds.
pub blocked_is_found :
    (py : Python) (fresh : String) (now : ℕ) (candidate : Device) (rows after : List BlockedDevice)
    → IsUnique rows
    → block_candidate py fresh now candidate rows ≢ unasserted after
unfolding written row_of blocked_device_for_candidate
blocked_is_found py fresh now candidate rows after u =
    block_candidate-covers py fresh now candidate rows u (λ b. b ≢ unasserted after) (λ e. cc)
      (λ e. cc) (λ e. cc) found
  where
    found :
        (uuid : String)
        → (is_none (candidate_stable_identity py candidate).0
            && is_none (candidate_stable_identity py candidate).1)
          ≡ false
        → All
            (λ r.
              is_match (candidate_stable_identity py candidate) r ≡ true → has_uuid uuid r ≡ true)
            rows
        → written py now candidate rows uuid ≢ unasserted after
    found uuid q h =
        asserted-some
          (single (
            keep (is_match (candidate_stable_identity py candidate))
              (upsert (row_of py now candidate uuid) rows)))
          (upsert (row_of py now candidate uuid) rows) after
          (upsert-single (row_of py now candidate uuid) rows q h u)

keep-unblocked :
    (test : BlockedDevice → Bool) (uuid : String) (rows : List BlockedDevice)
    → All (λ r. test r ≡ true → has_uuid uuid r ≡ true) rows
    → keep test (keep (λ row. not (has_uuid uuid row)) rows) ≡ []
keep-unblocked test uuid [] h = refl
keep-unblocked test uuid (r ∷ rows) h = ground (arith, h.0, keep-unblocked test uuid rows h.1)

-- Unblocking the device that a candidate is recognised as makes the candidate free: it is not
-- recognised as any blocked device.
pub unblocked_is_free :
    (py : Python) (candidate : Device) (rows : List BlockedDevice) (row : BlockedDevice)
    → blocked_device_for_candidate py candidate rows ≡ some row
    → blocked_device_for_candidate py candidate (unblock_device row.block_uuid rows).1 ≡ none
unfolding blocked_device_for_candidate unblock_device
unblocked_is_free py candidate rows row e =
    rw
      (keep-unblocked (is_match (candidate_stable_identity py candidate)) row.block_uuid rows (
        kept_imply (is_match (candidate_stable_identity py candidate)) (has_uuid row.block_uuid)
          rows (only (keep (is_match (candidate_stable_identity py candidate)) rows) e)))
      refl
  where
    only :
        (found : List BlockedDevice)
        → single found ≡ some row
        → All (λ r. has_uuid row.block_uuid r ≡ true) found
    only [] h = tt
    only (r ∷ []) h =
        let same : r ≡ row = cc in
        (rw same (ground (arith, eq_iff row.block_uuid row.block_uuid)), tt)
    only (r ∷ other ∷ more) h = cc
