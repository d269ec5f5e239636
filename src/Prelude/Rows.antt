-- ===== src/Prelude/Rows.antt =====
-- How updates and insertions change the number of rows that satisfy a test.
use Prim.Native.Nat.{suc, ◌+◌, ◌≤◌}
use mathlib.Core.Path.{◌≡◌, refl}
use mathlib.Core.Bool.{Bool, true, false}
use mathlib.Core.List.{List, [], ◌∷◌, ◌++◌}
use mathlib.Core.Option.{none, some}
use native.Mathlib.Omega.{arith}
use reefy_camadmiral.Prelude.Tests.{if◌then◌else◌}
use reefy_camadmiral.Prelude.Lists.{find_row, update_rows, tally}

module _ {ℓ} {A : Type ℓ} (test : A → Bool) where
  pub tally-append :
      (xs : List A) (x : A) → tally test (xs ++ x ∷ []) ≡ tally test xs + (if test x then 1 else 0)
  tally-append [] x = ground arith
  tally-append (y ∷ xs) x = omega (arith, tally-append xs x)

  pub tally-find_none : (xs : List A) → find_row test xs ≡ none → tally test xs ≡ 0
  tally-find_none [] h = refl
  tally-find_none (x ∷ xs) h = ground (arith, tally-find_none xs)

  pub find_none-tally : (xs : List A) → tally test xs ≡ 0 → find_row test xs ≡ none
  find_none-tally [] h = refl
  find_none-tally (x ∷ xs) h = ground (arith, find_none-tally xs)

  pub find_row-test : (xs : List A) {x : A} → find_row test xs ≡ some x → test x ≡ true
  find_row-test [] h = cc
  find_row-test (y ∷ xs) {x} h = ground (arith, find_row-test xs {x = x})

  pub find_row-append :
      (xs : List A) (x : A)
      → find_row test xs ≡ none
      → find_row test (xs ++ x ∷ []) ≡ (if test x then some x else none)
  find_row-append [] x h = refl
  find_row-append (y ∷ xs) x h = ground (arith, find_row-append xs x)

  pub find_row-append_some :
      (xs : List A) (x : A) {r : A}
      → find_row test xs ≡ some r
      → find_row test (xs ++ x ∷ []) ≡ some r
  find_row-append_some [] x h = cc
  find_row-append_some (y ∷ xs) x {r} h = ground (arith, find_row-append_some xs x {r = r})

-- Rows are changed so that none comes to satisfy the test.
module _ {ℓ} {A : Type ℓ} (test which : A → Bool) (change : A → A)
    (keeps : (x : A) → test (change x) ≡ true → test x ≡ true) where
  pub tally-update : (xs : List A) → tally test (update_rows which change xs) ≤ tally test xs
  tally-update [] = omega arith
  tally-update (x ∷ xs) = ground (arith, tally-update xs, keeps x)

  -- A found row that is changed so that it no longer does.
  pub tally-update_found :
      (xs : List A) {r : A}
      → find_row test xs ≡ some r
      → which r ≡ true
      → test (change r) ≡ false
      → suc (tally test (update_rows which change xs)) ≤ tally test xs
  tally-update_found [] f w c = cc
  tally-update_found (x ∷ xs) {r} f w c =
      ground (arith, tally-update_found xs {r = r}, tally-update xs, keeps x)

-- A change that no test sees.
module _ {ℓ} {A : Type ℓ} (test which : A → Bool) (change : A → A)
    (same : (x : A) → test (change x) ≡ test x) where
  pub tally-update_same : (xs : List A) → tally test (update_rows which change xs) ≡ tally test xs
  tally-update_same [] = refl
  tally-update_same (x ∷ xs) = ground (arith, tally-update_same xs, same x)

  -- What is found is the same row, changed or not.
  pub find_row-update :
      (xs : List A)
      → find_row test (update_rows which change xs)
        ≡ elim (find_row test xs) [ none ↦ none | some r ↦ some (if which r then change r else r) ]
  find_row-update [] = refl
  find_row-update (x ∷ xs) = ground (arith, find_row-update xs, same x)
