-- ===== src/Repository/Retries.antt =====
-- The retries of streams whose credentials were refused: `auth_retry_schedule` and
-- `claim_auth_retry` of camadmiral/storage.py. A claim is one transaction (`BEGIN IMMEDIATE`), so
-- concurrent claims are claims one after the other.
use reefy_camadmiral.Prelude.{
  ℕ, zero, suc, ◌+◌, ◌≤◌, ◌<◌, ◌≡◌, refl, ◌∙◌, ap, Bool, true, false, not, ◌&&◌, ◌||◌, Option, none,
  some, List, [], ◌∷◌, ◌++◌, arith, any, keep, find_row, update_rows, leb, ◌==◌, if◌then◌else◌, inl,
  inr, Bool-cases, Option-cases, ==_iff,
}
use reefy_camadmiral.Repository.{auth_failed, Stream, AuthRetry, Database, is_health}
use reefy_camadmiral.Repository.Probes.{is_retry_of}

-- `health_status='auth_failed' AND enabled=1`
abbrev pub needs_retry : Stream → Bool
needs_retry s = is_health s.health_status auth_failed && s.stream_enabled

abbrev is_settled : List Stream → AuthRetry → Bool
is_settled streams r = any (λ s. s.stream_uuid == r.retry_stream && not (needs_retry s)) streams

-- `INSERT OR IGNORE … SELECT`
unfoldable pub enrol_missing : List Stream → ℕ → List AuthRetry → List AuthRetry
enrol_missing [] now retries = retries
enrol_missing (s ∷ streams) now retries = enrol_missing streams now (
    if needs_retry s && not (any (is_retry_of s.stream_uuid) retries)
    then retries
      ++ record { retry_stream = s.stream_uuid; attempts = 0; next_attempt = now + 60 } ∷ []
    else retries)

-- The new table is the schedule that is returned.
unfoldable pub auth_retry_schedule : Database → ℕ → Database
unfolding enrol_missing
auth_retry_schedule db now = record db {
  auth_retries =
      enrol_missing db.streams now (keep (λ r. not (is_settled db.streams r)) db.auth_retries);
}

-- `(300, 900, 1800)[min(attempts, 2)]`
unfoldable pub backoff : ℕ → ℕ
backoff zero = 300
backoff (suc zero) = 900
backoff (suc (suc _)) = 1800

abbrev is_due : ℕ → ℕ → AuthRetry → Bool
is_due stream now r = r.retry_stream == stream && leb r.next_attempt now

abbrev claim_row : ℕ → AuthRetry → AuthRetry → AuthRetry
claim_row now found r = record r {
  attempts = r.attempts + 1;
  next_attempt = now + backoff found.attempts;
}

abbrev claim_found : Database → ℕ → ℕ → Option AuthRetry → Database × Bool
claim_found db stream now none = (db, false)
claim_found db stream now (some found) = (
  record db {
    auth_retries = update_rows (is_retry_of stream) (claim_row now found) db.auth_retries;
  },
  true,
)

unfoldable pub claim_auth_retry : Database → ℕ → ℕ → Database × Bool
claim_auth_retry db stream now =
    claim_found db stream now (find_row (is_due stream now) db.auth_retries)

none_due :
    (stream now later : ℕ) (found : AuthRetry) (retries : List AuthRetry)
    → later < now + backoff found.attempts
    → find_row
        (is_due stream later)
        (update_rows (is_retry_of stream) (claim_row now found) retries)
      ≡ none
none_due stream now later found [] h = refl
none_due stream now later found (r ∷ retries) h =
    ground (arith, none_due stream now later found retries)

claimed_found :
    (db : Database) (stream now : ℕ)
    → (claim_auth_retry db stream now).1 ≡ true
    → (found : AuthRetry) × (find_row (is_due stream now) db.auth_retries ≡ some found)
      × ((claim_auth_retry db stream now).0.auth_retries
          ≡ update_rows (is_retry_of stream) (claim_row now found) db.auth_retries)
unfolding claim_auth_retry
claimed_found db stream now h = elim (Option-cases (find_row (is_due stream now) db.auth_retries)) [
  | inl none_ ↦ absurd (ground arith)
  | inr (found, e) ↦ (found, e, rw e)
]

backoff_bounds : (n : ℕ) → (300 ≤ backoff n) × (backoff n ≤ 1800)
unfolding backoff
backoff_bounds zero = omega arith
backoff_bounds (suc zero) = omega arith
backoff_bounds (suc (suc n)) = omega arith

-- A stream that was claimed cannot be claimed again within the next 300 seconds, by nobody: of two
-- concurrent claims one fails.
pub claim-exclusive :
    (db : Database) (stream now later : ℕ)
    → (claim_auth_retry db stream now).1 ≡ true
    → later < now + 300
    → (claim_auth_retry (claim_auth_retry db stream now).0 stream later).1 ≡ false
claim-exclusive db stream now later h soon =
    let (found, e, t) = claimed_found db stream now h in
    again (claim_auth_retry db stream now).0 (
      rw t (
        none_due stream now later found db.auth_retries
          (omega (arith, backoff_bounds found.attempts))))
  where
    again :
        (after : Database)
        → find_row (is_due stream later) after.auth_retries ≡ none
        → (claim_auth_retry after stream later).1 ≡ false
    again after e = unfold claim_auth_retry in rw e

-- Whether some row of a stream needs a retry, and whether some row does not.
abbrev pub some_need : List Stream → ℕ → Bool
some_need streams j = any (λ s. s.stream_uuid == j && needs_retry s) streams

abbrev pub some_settled : List Stream → ℕ → Bool
some_settled streams j = any (λ s. s.stream_uuid == j && not (needs_retry s)) streams

any-added :
    (j : ℕ) (retries : List AuthRetry) (r : AuthRetry)
    → any (is_retry_of j) (retries ++ r ∷ []) ≡ (any (is_retry_of j) retries || r.retry_stream == j)
any-added j [] r = ground arith
any-added j (x ∷ retries) r = ground (arith, any-added j retries r)

any-kept :
    (j : ℕ) (streams : List Stream) (retries : List AuthRetry)
    → any (is_retry_of j) (keep (λ r. not (is_settled streams r)) retries)
      ≡ (any (is_retry_of j) retries && not (some_settled streams j))
any-kept j streams [] = refl
any-kept j streams (r ∷ retries) = elim (Bool-cases (r.retry_stream == j)) [
  | inl same ↦
      let e : r.retry_stream ≡ j = (==_iff r.retry_stream j).0 same in
      rw e (ground (arith, any-kept j streams retries))
  | inr other ↦ ground (arith, any-kept j streams retries)
]

-- What one stream adds, with `need` for whether it needs a retry.
any-enrol_one :
    (j uuid now : ℕ) (need : Bool) (retries : List AuthRetry)
    → any (is_retry_of j) (
        if need && not (any (is_retry_of uuid) retries)
        then retries ++ record { retry_stream = uuid; attempts = 0; next_attempt = now + 60 } ∷ []
        else retries)
      ≡ (any (is_retry_of j) retries || uuid == j && need)
any-enrol_one j uuid now false retries = ground arith
any-enrol_one j uuid now true retries = elim (Bool-cases (uuid == j)) [
  | inl same ↦
      let e : uuid ≡ j = (==_iff uuid j).0 same in
      rw (← e) (elim (Bool-cases (any (is_retry_of uuid) retries)) [
        | inl old ↦ rw old (ground (arith, old))
        | inr new ↦ rw new (any-added uuid retries _ ∙ ground (arith, new))
      ])
  | inr other ↦ elim (Bool-cases (any (is_retry_of uuid) retries)) [
    | inl old ↦ rw old (ground (arith, other))
    | inr new ↦ rw new (any-added j retries _ ∙ ground (arith, other))
  ]
]

or_assoc : (a b c : Bool) → ((a || b) || c) ≡ (a || (b || c))
or_assoc true b c = refl
or_assoc false b c = refl

any-enrol_missing :
    (j now : ℕ) (streams : List Stream) (retries : List AuthRetry)
    → any (is_retry_of j) (enrol_missing streams now retries)
      ≡ (any (is_retry_of j) retries || some_need streams j)
unfolding enrol_missing
any-enrol_missing j now [] retries = ground arith
any-enrol_missing j now (s ∷ streams) retries =
    any-enrol_missing j now streams _
    ∙ ap (λ b. b || some_need streams j) (any-enrol_one j s.stream_uuid now (needs_retry s) retries)
    ∙ or_assoc (any (is_retry_of j) retries) (s.stream_uuid == j && needs_retry s)
        (some_need streams j)

-- The schedule holds exactly the streams that need a retry, with those of an earlier schedule
-- whose stream is not known to be settled: a stream enters it where its credentials are refused
-- and it is enabled, and leaves it where it recovers or is disabled.
pub schedule-enrolled :
    (db : Database) (now j : ℕ)
    → any (is_retry_of j) (auth_retry_schedule db now).auth_retries ≡ (
        any (is_retry_of j) db.auth_retries && not (some_settled db.streams j)
        || some_need db.streams j)
unfolding auth_retry_schedule
schedule-enrolled db now j =
    any-enrol_missing j now db.streams _
    ∙ ap (λ b. b || some_need db.streams j) (any-kept j db.streams db.auth_retries)
