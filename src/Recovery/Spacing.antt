-- ===== src/Recovery/Spacing.antt =====
-- How far apart the attempts to move a camera are (camadmiral/recovery.py).
use text.Mathlib.TextPositions.{eq_refl}
use mathlib.Core.Path.{subst}
use reefy_camadmiral.Prelude.{
  ℕ, ◌+◌, ◌≡◌, refl, sym, ◌∙◌, String, true, Option, none, some, List, [], ◌∷◌, ◌++◌, find_row,
  update_rows, ltb, arith, if◌then◌else◌, Bool-cases, inl, inr,
}
use reefy_camadmiral.Prelude.Rows.{find_row-update, find_row-append, find_row-test}
use reefy_camadmiral.Recovery.{Attempt, attempt, is_attempt, interval}

-- How many attempts were made to move a camera to an address.
unfoldable pub attempts_made : String → String → List Attempt → ℕ
attempts_made camera address attempts = elim (find_row (is_attempt camera address) attempts) [
  | none ↦ 0
  | some last ↦ last.count
]

module _ (retry_interval : ℕ) (camera address : String) where
  first_attempt :
      (now : ℕ) (attempts : List Attempt)
      → find_row (is_attempt camera address) attempts ≡ none
      → attempt retry_interval camera address now attempts
        ≡ some (
            attempts
            ++ record {
              attempt_camera = camera;
              attempt_address = address;
              attempted_at = now;
              count = 1;
            }
              ∷ [])
  unfolding attempt
  first_attempt now attempts e = rw (e, attempt) refl

  later_attempt :
      (now : ℕ) (attempts : List Attempt) (last : Attempt)
      → find_row (is_attempt camera address) attempts ≡ some last
      → attempt retry_interval camera address now attempts ≡ (
          if ltb now (last.attempted_at + interval retry_interval last.count)
          then none
          else some (
              update_rows
                (is_attempt camera address)
                (λ a. record a { attempted_at = now; count = a.count + 1 })
                attempts))
  unfolding attempt
  later_attempt now attempts last e = rw (e, attempt) refl

  abbrev made_first : ℕ → Attempt
  made_first now = record {
    attempt_camera = camera;
    attempt_address = address;
    attempted_at = now;
    count = 1;
  }

  abbrev made_again : ℕ → Attempt → Attempt
  made_again now a = record a { attempted_at = now; count = a.count + 1 }

  -- An attempt is not made while the interval after the last one runs.
  too_soon :
      (later : ℕ) (attempts : List Attempt) (last : Attempt)
      → find_row (is_attempt camera address) attempts ≡ some last
      → ltb later (last.attempted_at + interval retry_interval last.count) ≡ true
      → attempt retry_interval camera address later attempts ≡ none
  too_soon later attempts last e soon = later_attempt later attempts last e ∙ rw soon refl

  found_first :
      (now : ℕ) (attempts : List Attempt)
      → find_row (is_attempt camera address) attempts ≡ none
      → find_row (is_attempt camera address) (attempts ++ made_first now ∷ [])
        ≡ some (made_first now)
  found_first now attempts e =
      find_row-append (is_attempt camera address) attempts (made_first now) e
      ∙ rw (eq_refl camera, eq_refl address) refl

  found_again :
      (now : ℕ) (attempts : List Attempt) (last : Attempt)
      → find_row (is_attempt camera address) attempts ≡ some last
      → find_row
          (is_attempt camera address)
          (update_rows (is_attempt camera address) (made_again now) attempts)
        ≡ some (made_again now last)
  found_again now attempts last e =
      find_row-update (is_attempt camera address) (is_attempt camera address) (made_again now)
        (λ a. refl) attempts
      ∙ rw e (rw (find_row-test (is_attempt camera address) attempts e) refl)

  -- The same with the attempts that the call leaves.
  spaced_first :
      (now later : ℕ) (attempts : List Attempt) {made : List Attempt}
      → find_row (is_attempt camera address) attempts ≡ none
      → some (attempts ++ made_first now ∷ []) ≡ some made
      → ltb later (now + interval retry_interval 1) ≡ true
      → attempt retry_interval camera address later made ≡ none
  spaced_first now later attempts {made} e h soon =
      let same : attempts ++ made_first now ∷ [] ≡ made = cc in
      subst (λ m. attempt retry_interval camera address later m ≡ none) same
        (too_soon later (attempts ++ made_first now ∷ []) (made_first now)
          (found_first now attempts e) soon)

  spaced_again :
      (now later : ℕ) (attempts : List Attempt) (last : Attempt) {made : List Attempt}
      → find_row (is_attempt camera address) attempts ≡ some last
      → some (update_rows (is_attempt camera address) (made_again now) attempts) ≡ some made
      → ltb later (now + interval retry_interval (last.count + 1)) ≡ true
      → attempt retry_interval camera address later made ≡ none
  spaced_again now later attempts last {made} e h soon =
      let same : update_rows (is_attempt camera address) (made_again now) attempts ≡ made = cc in
      subst (λ m. attempt retry_interval camera address later m ≡ none) same
        (too_soon later (update_rows (is_attempt camera address) (made_again now) attempts)
          (made_again now last) (found_again now attempts last e) soon)

  -- After an attempt, the next one to move the camera to the address is made no sooner than the
  -- interval for the number of attempts so far: the fast one for up to four, then the long one.
  pub attempt-spaced :
      (now later : ℕ) (attempts : List Attempt) {made : List Attempt}
      → attempt retry_interval camera address now attempts ≡ some made
      → ltb later (now + interval retry_interval (attempts_made camera address attempts + 1)) ≡ true
      → attempt retry_interval camera address later made ≡ none
  unfolding attempts_made
  attempt-spaced now later attempts {made} h soon =
      by_last (find_row (is_attempt camera address) attempts) refl
    where
      by_last :
          (o : Option Attempt)
          → find_row (is_attempt camera address) attempts ≡ o
          → attempt retry_interval camera address later made ≡ none
      by_last none e =
          spaced_first now later attempts e (sym (first_attempt now attempts e) ∙ h)
            (rw (e, attempts_made) at soon)
      by_last (some last) e =
          elim (Bool-cases (ltb now (last.attempted_at + interval retry_interval last.count))) [
            | inl f ↦ absurd (ground (arith, too_soon now attempts last e f, h))
            | inr f ↦
                spaced_again now later attempts last e
                  (sym (later_attempt now attempts last e ∙ rw f refl) ∙ h)
                  (rw (e, attempts_made) at soon)
          ]
