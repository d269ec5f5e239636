-- ===== src/Auth/Tests.antt =====
-- Requests to one authenticator: the password is `pw`.
use reefy_camadmiral.Prelude.{
  ℕ, ◌+◌, ◌≤◌, ◌≡◌, ◌≢◌, ◌↔◌, refl, String, Option, none, some, List, [], ◌∷◌, ◌++◌, arith, eq_iff,
}
use reefy_camadmiral.Prelude.Dict.{get}
use reefy_camadmiral.Bytes.{codes, is_space, strip, is_utf8, split_colon}
use reefy_camadmiral.Base64.{b64decode_validate}
use reefy_camadmiral.Auth.{
  AdminAuthenticator, granted, throttled, given, admin, credentials, or_zero, or_empty,
  authenticate, check, lockout, lockout_seconds,
}
use reefy_camadmiral.Auth.Decision.{authenticate-granted_iff, authenticate-raises_iff, IsNonAscii}
use reefy_camadmiral.Auth.Window.{IsWindowed, authenticate-IsWindowed, recent}
use reefy_camadmiral.Auth.Lockout.{
  outcome, after_refusal, attempt_all, authenticate-outcome, fifth_miss_locks,
}

abbrev fresh : AdminAuthenticator
fresh = record { failures = []; locked_until = [] }

abbrev password : List ℕ
password = codes "pw"

-- admin:pw
abbrev good : Option (List ℕ)
good = some (codes "Basic YWRtaW46cHc=")

-- admin:no
abbrev bad : Option (List ℕ)
bad = some (codes "Basic YWRtaW46bm8=")

good-credentials : credentials good ≡ given admin password
unfolding credentials b64decode_validate strip is_utf8 split_colon
good-credentials = refl

bad-credentials : credentials bad ≡ given admin (codes "no")
unfolding credentials b64decode_validate strip is_utf8 split_colon
bad-credentials = refl

granted_example :
    ((authenticate fresh (some password) "a" good 7).0 ≡ some granted)
    ↔ ((or_zero (get fresh.locked_until "a") ≤ 7) × (credentials good ≡ given admin password))
granted_example = authenticate-granted_iff fresh password "a" good 7

good-granted : (authenticate fresh (some password) "a" good 7).0 ≡ some granted
unfolding get
good-granted = granted_example.1 (omega arith, good-credentials)

abbrev one_failure : AdminAuthenticator
one_failure = record { failures = ("a", 5 ∷ []) ∷ []; locked_until = ("b", 90) ∷ [] }

one_failure-granted : (authenticate one_failure (some password) "a" good 7).0 ≡ some granted
unfolding get
one_failure-granted =
    (authenticate-granted_iff one_failure password "a" good 7).1 (omega arith, good-credentials)

a_not_b : ◌≢◌ {A = String} "a" "b"
a_not_b = ground (arith, eq_iff "a" "b")

raises_example :
    ((authenticate one_failure (some password) "a" (some (codes "Basic " ++ 233 ∷ [])) 7).0 ≡ none)
    ↔ ((or_zero (get one_failure.locked_until "a") ≤ 7)
        × IsNonAscii (some (codes "Basic " ++ 233 ∷ [])))
raises_example =
    authenticate-raises_iff one_failure password "a" (some (codes "Basic " ++ 233 ∷ [])) 7

-- It does raise; white space beyond Latin-1 around the text is stripped.
raises_run :
    ((authenticate one_failure (some password) "a" (some (codes "Basic " ++ 233 ∷ [])) 7).0 ≡ none)
    × (strip is_space (0x3000 ∷ 65 ∷ 0x2003 ∷ []) ≡ 65 ∷ [])
unfolding get strip authenticate check credentials
raises_run = (refl, refl)

IsWindowed-fresh : IsWindowed 5 fresh
unfolding get
IsWindowed-fresh c = record { short = omega arith; rising = tt; past = tt }

IsWindowed_example : IsWindowed 7 (authenticate fresh (some password) "a" bad 7).1
IsWindowed_example =
    authenticate-IsWindowed fresh (some password) "a" bad 5 7 (omega arith) IsWindowed-fresh

outcome_example :
    outcome "a" (authenticate fresh (some password) "a" bad 7)
    ≡ after_refusal (recent 7 (or_empty (get fresh.failures "a"))) 7
unfolding credentials b64decode_validate strip is_utf8 split_colon get
outcome_example =
    authenticate-outcome fresh password "a" bad 7 refl (omega arith)
      (record { short = omega arith; rising = tt; past = tt })

fifth_example :
    outcome "a" (
      authenticate
        (attempt_all fresh password "a" ((bad, 1) ∷ (none, 2) ∷ (bad, 3) ∷ (bad, 4) ∷ []))
        (some password)
        "a"
        bad
        9)
    ≡ (some (throttled lockout_seconds), some [], some (9 + lockout))
unfolding credentials b64decode_validate strip is_utf8 split_colon get
fifth_example =
    fifth_miss_locks fresh password "a" ((bad, 1) ∷ (none, 2) ∷ (bad, 3) ∷ (bad, 4) ∷ []) bad 1 9
      refl refl refl
      (
        (refl, omega arith, omega arith),
        (
          (tt, omega arith, omega arith),
          ((refl, omega arith, omega arith), ((refl, omega arith, omega arith), tt)),
        ),
      )
      (refl, omega arith, omega arith)
