-- ===== src/Auth/Lockout.antt =====
-- When a client is locked out, and for how long (camadmiral/auth.py).
use reefy_camadmiral.Prelude.{
  ℕ, suc, ◌+◌, ◌-◌, ◌≤◌, ◌<◌, max, String, ◌≡◌, inl, inr, refl, ap, ◌∙◌, true, false, Option, none,
  some, List, [], ◌∷◌, ◌++◌, ◌&&◌, arith, All, length, length-append, ltb, leb, if◌then◌else◌,
  Bool-cases,
}
use mathlib.Core.Path.{subst}
use mathlib.Core.List.{append_assoc, append-nil}
use reefy_camadmiral.Prelude.Dict.{get, pop, get-put_self, get-pop_self}
use reefy_camadmiral.Bytes.{bytes_eq}
use reefy_camadmiral.Auth.{
  AdminAuthenticator, AuthDecision, Credentials, given, absent, value_error, admin, unauthorized,
  throttled, credentials, drop_old, or_empty, record_failure, or_zero, check, round_seconds,
  authenticate, max_failures, failure_window, lockout_seconds, lockout,
}
use reefy_camadmiral.Auth.Window.{recent, drop_old-eq-recent, IsWindow}

round_seconds_bounds : (ms : ℕ) → ms ≤ lockout → round_seconds ms ≤ lockout_seconds
unfolding round_seconds
round_seconds_bounds ms h = ground arith

-- Until a lock ends, every request of its client is refused with status 429 whatever it sends,
-- the right password included, and nothing changes; the time to wait lies between 1 and 300
-- seconds.
pub authenticate-locked :
    (s : AdminAuthenticator) (p : List ℕ) (c : String) (header : Option (List ℕ)) (now until : ℕ)
    → get s.locked_until c ≡ some until
    → now < until
    → until ≤ now + lockout
    → (seconds : ℕ) × (authenticate s (some p) c header now ≡ (some (throttled seconds), s))
      × (1 ≤ seconds)
      × (seconds ≤ lockout_seconds)
unfolding authenticate
authenticate-locked s p c header now until e before bound = (
  max 1 (round_seconds (until - now)),
  ground arith,
  omega arith,
  omega (arith, round_seconds_bounds (until - now) (omega arith)),
)

abbrev pub Refuses : List ℕ → Credentials → Type 0
Refuses p value_error = ⊥
Refuses p absent = Unit
Refuses p (given u q) = (bytes_eq u admin && bytes_eq q p) ≡ false

check-refused :
    (s : AdminAuthenticator) (p : List ℕ) (c : String) (cr : Credentials) (now : ℕ)
    → Refuses p cr
    → check s p c cr now ≡ (some (record_failure s c now).0, (record_failure s c now).1)
unfolding check
check-refused s p c value_error now h = absurd h
check-refused s p c absent now h = refl
check-refused s p c (given u q) now h = rw h

authenticate-refused :
    (s : AdminAuthenticator) (p : List ℕ) (c : String) (header : Option (List ℕ)) (now : ℕ)
    → Refuses p (credentials header)
    → ltb now (or_zero (get s.locked_until c)) ≡ false
    → let s' = record s { locked_until = pop s.locked_until c } in
      authenticate s (some p) c header now
      ≡ (some (record_failure s' c now).0, (record_failure s' c now).1)
unfolding authenticate
authenticate-refused s p c header now h e = rw e (
    check-refused (record s { locked_until = pop s.locked_until c }) p c (credentials header) now h)

-- The answer, and what is kept of the client: its failures and the end of its lock.
abbrev pub Outcome : Type 0
Outcome = Option AuthDecision × Option (List ℕ) × Option ℕ

abbrev pub outcome : String → Option AuthDecision × AdminAuthenticator → Outcome
outcome c r = (r.0, get r.1.failures c, get r.1.locked_until c)

-- What a refused request leaves behind, by the recent failures before it.
abbrev pub after_refusal : List ℕ → ℕ → Outcome
after_refusal ts now =
    if leb (max_failures - 1) (length ts)
    then (some (throttled lockout_seconds), some [], some (now + lockout))
    else (some unauthorized, some (ts ++ now ∷ []), none)

length-snoc : (ts : List ℕ) (t : ℕ) → length (ts ++ t ∷ []) ≡ suc (length ts)
length-snoc ts t = omega (arith, length-append ts (t ∷ []))

record_failure-outcome :
    (s : AdminAuthenticator) (c : String) (now : ℕ) (ts : List ℕ)
    → drop_old now (or_empty (get s.failures c)) ≡ ts
    → get s.locked_until c ≡ none
    → outcome c (some (record_failure s c now).0, (record_failure s c now).1) ≡ after_refusal ts now
unfolding record_failure
record_failure-outcome s c now ts e u = rw e (elim (Bool-cases (leb 4 (length ts))) [
  | inl full ↦ rw (full_test full) (rw (full, get-put_self, get-put_self))
  | inr room ↦ rw (room_test room) (rw (room, get-put_self, u))
])
  where
    full_test : leb 4 (length ts) ≡ true → leb max_failures (length (ts ++ now ∷ [])) ≡ true
    full_test h = ground (arith, length-snoc ts now)

    room_test : leb 4 (length ts) ≡ false → leb max_failures (length (ts ++ now ∷ [])) ≡ false
    room_test h = ground (arith, length-snoc ts now)

-- A wrong or missing password, from a client that is not locked out: with four failures in the
-- last five minutes before it, the client is locked out for five minutes and its failures are
-- forgotten; with fewer, the answer is 401 and the failure is added to the recent ones.
pub authenticate-outcome :
    (s : AdminAuthenticator) (p : List ℕ) (c : String) (header : Option (List ℕ)) (now : ℕ)
    → Refuses p (credentials header)
    → or_zero (get s.locked_until c) ≤ now
    → IsWindow now (or_empty (get s.failures c))
    → outcome c (authenticate s (some p) c header now)
      ≡ after_refusal (recent now (or_empty (get s.failures c))) now
authenticate-outcome s p c header now h free w =
    rw (authenticate-refused s p c header now h (ground arith)) (
      record_failure-outcome (record s { locked_until = pop s.locked_until c }) c now
        (recent now (or_empty (get s.failures c)))
        (drop_old-eq-recent now (or_empty (get s.failures c)) w.rising)
        (get-pop_self s.locked_until c))

-- A client's requests in order, each with its time.
pub attempt_all :
    AdminAuthenticator → List ℕ → String → List (Option (List ℕ) × ℕ) → AdminAuthenticator
attempt_all s p c [] = s
attempt_all s p c ((header, now) ∷ rest) =
    attempt_all (authenticate s (some p) c header now).1 p c rest

abbrev times : List (Option (List ℕ) × ℕ) → List ℕ
times [] = []
times ((header, now) ∷ rest) = now ∷ times rest

module _ (p : List ℕ) (first : ℕ) where
  -- A refused request within five minutes of the first one.
  abbrev pub IsMiss : Option (List ℕ) × ℕ → Type 0
  IsMiss (header, now) =
      Refuses p (credentials header) × (first ≤ now) × (now < first + failure_window)

  fresh :
      (now : ℕ) (ts : List ℕ)
      → All (λ t. first ≤ t) ts
      → now < first + failure_window
      → drop_old now ts ≡ ts
  unfolding drop_old
  fresh now [] a h = refl
  fresh now (t ∷ ts) a h = ground arith

  record_failure-room :
      (s : AdminAuthenticator) (c : String) (now : ℕ) (ts : List ℕ)
      → or_empty (get s.failures c) ≡ ts
      → get s.locked_until c ≡ none
      → All (λ t. first ≤ t) ts
      → now < first + failure_window
      → outcome c (some (record_failure s c now).0, (record_failure s c now).1)
        ≡ after_refusal ts now
  record_failure-room s c now ts e u a h =
      record_failure-outcome s c now ts (rw e (fresh now ts a h)) u

  miss-outcome :
      (s : AdminAuthenticator) (c : String) (header : Option (List ℕ)) (now : ℕ) (ts : List ℕ)
      → or_empty (get s.failures c) ≡ ts
      → get s.locked_until c ≡ none
      → All (λ t. first ≤ t) ts
      → IsMiss (header, now)
      → outcome c (authenticate s (some p) c header now) ≡ after_refusal ts now
  miss-outcome s c header now ts e u a m =
      rw (authenticate-refused s p c header now m.0 (rw u (ground arith))) (
        record_failure-room (record s { locked_until = pop s.locked_until c }) c now ts e
          (get-pop_self s.locked_until c) a m.2)

  All-first :
      (ts : List ℕ) (t : ℕ)
      → All (λ t. first ≤ t) ts
      → first ≤ t
      → All (λ t. first ≤ t) (ts ++ t ∷ [])
  All-first [] t a h = (h, tt)
  All-first (x ∷ ts) t a h = (a.0, All-first ts t a.1 h)

  misses_kept :
      (s : AdminAuthenticator) (c : String) (ts : List ℕ) (requests : List (Option (List ℕ) × ℕ))
      → or_empty (get s.failures c) ≡ ts
      → get s.locked_until c ≡ none
      → All (λ t. first ≤ t) ts
      → All IsMiss requests
      → length ts + length requests ≤ 4
      → (or_empty (get (attempt_all s p c requests).failures c) ≡ ts ++ times requests)
        × (get (attempt_all s p c requests).locked_until c ≡ none)
        × All (λ t. first ≤ t) (ts ++ times requests)
  unfolding attempt_all
  misses_kept s c ts [] e u a m l = rw append-nil (e, u, a)
  misses_kept s c ts ((header, now) ∷ rest) e u a m l =
      let o : outcome c (authenticate s (some p) c header now)
          ≡ (some unauthorized, some (ts ++ now ∷ []), none) =
        miss-outcome s c header now ts e u a m.0 ∙ room in
      subst
        (λ l.
          (or_empty (get (attempt_all s' p c rest).failures c) ≡ l)
          × (get (attempt_all s' p c rest).locked_until c ≡ none)
          × All (λ t. first ≤ t) l)
        (append_assoc ts (now ∷ []) (times rest))
        (misses_kept s' c (ts ++ now ∷ []) rest (ap (λ x. or_empty x.1) o) (ap (λ x. x.2) o)
          (All-first ts now a m.0.1) m.1 (omega (arith, length-snoc ts now)))
    where
      s' : AdminAuthenticator
      s' = (authenticate s (some p) c header now).1

      room : after_refusal ts now ≡ (some unauthorized, some (ts ++ now ∷ []), none)
      room = ground arith

-- Five refused requests of a client within five minutes, from one that had no failure and no
-- lock: the fifth is answered with 429 and locks the client out for five minutes from then.
pub fifth_miss_locks :
    (s : AdminAuthenticator) (p : List ℕ) (c : String) (four : List (Option (List ℕ) × ℕ))
    (header : Option (List ℕ)) (first now : ℕ)
    → get s.failures c ≡ none
    → get s.locked_until c ≡ none
    → length four ≡ 4
    → All (IsMiss p first) four
    → IsMiss p first (header, now)
    → outcome c (authenticate (attempt_all s p c four) (some p) c header now)
      ≡ (some (throttled lockout_seconds), some [], some (now + lockout))
fifth_miss_locks s p c four header first now f u l ms m =
    let k : _ = misses_kept p first s c [] four (rw f) u tt ms (omega arith) in
    miss-outcome p first (attempt_all s p c four) c header now (times four) k.0 k.1 k.2 m ∙ full
  where
    length-times : (rs : List (Option (List ℕ) × ℕ)) → length (times rs) ≡ length rs
    length-times [] = refl
    length-times ((h, t) ∷ rs) = ap suc (length-times rs)

    full :
        after_refusal (times four) now
        ≡ (some (throttled lockout_seconds), some [], some (now + lockout))
    full = ground (arith, length-times four)
