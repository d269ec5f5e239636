-- ===== src/Auth/Decision.antt =====
-- What one call of `authenticate` decides (camadmiral/auth.py).
use reefy_camadmiral.Prelude.{
  ℕ, ◌+◌, ◌≤◌, String, ◌≡◌, ◌≢◌, ◌↔◌, inl, inr, refl, false, Option, none, some, List, [], ◌∷◌,
  ◌++◌, ◌∙◌, ap, arith, ltb, Bool-cases,
}
use reefy_camadmiral.Prelude.Dict.{get, pop, get-put_ne, get-pop_ne, get-pop_self}
use reefy_camadmiral.Bytes.{
  bytes_eq, bytes_eq_iff, is_ascii, is_space, is_utf8, split_colon, strip, codes,
}
use reefy_camadmiral.Base64.{b64decode_validate}
use reefy_camadmiral.Auth.{
  AdminAuthenticator, AuthDecision, split_credentials, decode_credentials, basic_credentials,
  after_basic, Credentials, given, absent, value_error, granted, admin, credentials, record_failure,
  drop_old, or_empty, or_zero, check, authenticate, lockout,
}

-- `record_failure` never grants access.
pub record_failure-denies :
    (s : AdminAuthenticator) (c : String) (now : ℕ) → (record_failure s c now).0.allowed ≡ false
unfolding record_failure
record_failure-denies s c now = ground arith

check-granted :
    (s : AdminAuthenticator) (p : List ℕ) (c : String) (cr : Credentials) (now : ℕ)
    → ((check s p c cr now).0 ≡ some granted) ↔ (cr ≡ given admin p)
unfolding check
check-granted s p c value_error now = (λ h. cc, λ h. cc)
check-granted s p c absent now = (λ h. ground (arith, record_failure-denies s c now), λ h. cc)
check-granted s p c (given u q) now = (
  λ h. ground (arith, bytes_eq_iff u admin, bytes_eq_iff q p, record_failure-denies s c now),
  λ h. ground (arith, bytes_eq_iff u admin, bytes_eq_iff q p),
)

-- With a password set, access is granted exactly to a client that is not locked out and that
-- sends the user name `admin` with that password.
pub authenticate-granted_iff :
    (s : AdminAuthenticator) (p : List ℕ) (c : String) (header : Option (List ℕ)) (now : ℕ)
    → ((authenticate s (some p) c header now).0 ≡ some granted)
      ↔ ((or_zero (get s.locked_until c) ≤ now) × (credentials header ≡ given admin p))
unfolding authenticate
authenticate-granted_iff s p c header now = (
  λ h. ground (
    arith,
    check-granted (record s { locked_until = pop s.locked_until c }) p c (credentials header) now,
  ),
  λ h. ground (
    arith,
    check-granted (record s { locked_until = pop s.locked_until c }) p c (credentials header) now,
  ),
)

check-forgets :
    (s : AdminAuthenticator) (p : List ℕ) (c : String) (cr : Credentials) (now : ℕ)
    → (check s p c cr now).0 ≡ some granted
    → (get (check s p c cr now).1.failures c ≡ none)
      × (get (check s p c cr now).1.locked_until c ≡ none)
unfolding check
check-forgets s p c value_error now h = cc
check-forgets s p c absent now h = absurd (ground (arith, record_failure-denies s c now))
check-forgets s p c (given u q) now h =
    ground (
      arith,
      record_failure-denies s c now,
      get-pop_self s.failures c,
      get-pop_self s.locked_until c,
    )

-- A granted request forgets the failures and the lock of its client.
pub authenticate-forgets :
    (s : AdminAuthenticator) (p : List ℕ) (c : String) (header : Option (List ℕ)) (now : ℕ)
    → (authenticate s (some p) c header now).0 ≡ some granted
    → let s' = (authenticate s (some p) c header now).1 in
      (get s'.failures c ≡ none) × (get s'.locked_until c ≡ none)
unfolding authenticate
authenticate-forgets s p c header now h = ground (
  arith,
  check-forgets (record s { locked_until = pop s.locked_until c }) p c (credentials header) now,
)

module _ (c j : String) (ne : c ≢ j) where
  abbrev SameClient : AdminAuthenticator → AdminAuthenticator → Type 0
  SameClient s s' =
      (get s'.failures j ≡ get s.failures j) × (get s'.locked_until j ≡ get s.locked_until j)

  record_failure-other :
      (s : AdminAuthenticator) (now : ℕ) → SameClient s (record_failure s c now).1
  unfolding record_failure
  record_failure-other s now = ground (
    arith,
    get-put_ne s.locked_until c j (now + lockout),
    get-put_ne s.failures c j [],
    get-put_ne s.failures c j (drop_old now (or_empty (get s.failures c)) ++ now ∷ []),
  )

  check-other :
      (s : AdminAuthenticator) (p : List ℕ) (cr : Credentials) (now : ℕ)
      → SameClient s (check s p c cr now).1
  unfolding check
  check-other s p value_error now = (refl, refl)
  check-other s p absent now = record_failure-other s now
  check-other s p (given u q) now =
      ground (
        arith,
        record_failure-other s now,
        get-pop_ne s.failures c j,
        get-pop_ne s.locked_until c j,
      )

-- A request of one client leaves the failures and the lock of every other client as they were.
pub authenticate-other :
    (s : AdminAuthenticator) (password : Option (List ℕ)) (c j : String) (header : Option (List ℕ))
    (now : ℕ)
    → c ≢ j
    → let s' = (authenticate s password c header now).1 in
      (get s'.failures j ≡ get s.failures j) × (get s'.locked_until j ≡ get s.locked_until j)
unfolding authenticate
authenticate-other s none c j header now ne = (refl, refl)
authenticate-other s (some p) c j header now ne = ground (
  arith,
  check-other c j ne (record s { locked_until = pop s.locked_until c }) p (credentials header) now,
  get-pop_ne s.locked_until c j,
)

-- The header is `Basic ` with a text that is not ASCII between its spaces.
abbrev pub IsNonAscii : Option (List ℕ) → Type 0
IsNonAscii header =
    (rest : List ℕ) × (header ≡ some (codes "Basic " ++ rest))
    × (is_ascii (strip is_space rest) ≡ false)

check-raises :
    (s : AdminAuthenticator) (p : List ℕ) (c : String) (cr : Credentials) (now : ℕ)
    → ((check s p c cr now).0 ≡ none) ↔ (cr ≡ value_error)
unfolding check
check-raises s p c value_error now = (λ h. refl, λ h. refl)
check-raises s p c absent now = (λ h. cc, λ h. cc)
check-raises s p c (given u q) now = (λ h. ground (arith, h), λ h. cc)

split-catches : (o : Option (List ℕ × List ℕ)) → split_credentials o ≢ value_error
split-catches none = λ h. cc
split-catches (some (u, q)) = λ h. cc

decode-catches : (o : Option (List ℕ)) → decode_credentials o ≢ value_error
decode-catches none = λ h. cc
decode-catches (some decoded) = elim (Bool-cases (is_utf8 decoded)) [
  | inl e ↦ rw e (split-catches (split_colon decoded))
  | inr e ↦ rw e (λ h. cc)
]

after_basic-prefix :
    (header rest : List ℕ) → after_basic header ≡ some rest → header ≡ codes "Basic " ++ rest
after_basic-prefix [] rest h = cc
after_basic-prefix (b ∷ []) rest h = cc
after_basic-prefix (b ∷ a ∷ []) rest h = cc
after_basic-prefix (b ∷ a ∷ s ∷ []) rest h = cc
after_basic-prefix (b ∷ a ∷ s ∷ i ∷ []) rest h = cc
after_basic-prefix (b ∷ a ∷ s ∷ i ∷ c ∷ []) rest h = cc
after_basic-prefix (b ∷ a ∷ s ∷ i ∷ c ∷ space ∷ tail) rest h =
    elim (Bool-cases (bytes_eq (b ∷ a ∷ s ∷ i ∷ c ∷ space ∷ []) (codes "Basic "))) [
      | inl e ↦
          (let same : tail ≡ rest = cases (rw e at h) in
            ap (λ word. word ++ tail)
              ((bytes_eq_iff (b ∷ a ∷ s ∷ i ∷ c ∷ space ∷ []) (codes "Basic ")).0 e)
            ∙ ap (λ r. codes "Basic " ++ r) same)
      | inr e ↦ absurd (none_some (rw e at h))
    ]
  where
    cases : some tail ≡ some rest → tail ≡ rest
    cases q = cc

    none_some : ◌≡◌ {A = Option (List ℕ)} none (some rest) → ⊥
    none_some q = cc

credentials-raises :
    (header : Option (List ℕ)) → (credentials header ≡ value_error) ↔ IsNonAscii header
unfolding credentials
credentials-raises none = (λ h. cc, λ h. cc)
credentials-raises (some header) = (raised (after_basic header) refl, given_back)
  where
    given_back : IsNonAscii (some header) → basic_credentials (after_basic header) ≡ value_error
    given_back (rest, e, q) = let same : header ≡ codes "Basic " ++ rest = cc in rw (same, q) refl

    raised :
        (o : Option (List ℕ))
        → after_basic header ≡ o
        → basic_credentials o ≡ value_error
        → IsNonAscii (some header)
    raised none e h = cc
    raised (some rest) e h = elim (Bool-cases (is_ascii (strip is_space rest))) [
      | inl q ↦ absurd (decode-catches (b64decode_validate (strip is_space rest)) (rw q at h))
      | inr q ↦ (rest, ap some (after_basic-prefix header rest e), q)
    ]

-- With a password set, a request makes `authenticate` raise `ValueError`, and get no decision,
-- exactly if its client is not locked out and its header is `Basic ` with a text that is not ASCII.
pub authenticate-raises_iff :
    (s : AdminAuthenticator) (p : List ℕ) (c : String) (header : Option (List ℕ)) (now : ℕ)
    → ((authenticate s (some p) c header now).0 ≡ none)
      ↔ ((or_zero (get s.locked_until c) ≤ now) × IsNonAscii header)
unfolding authenticate
authenticate-raises_iff s p c header now = (
  λ h. elim (Bool-cases (ltb now (or_zero (get s.locked_until c)))) [
    | inl e ↦ absurd (some_none (rw e at h))
    | inr e ↦ (ground (arith, e), (credentials-raises header).0 (checked.0 (rw e at h)))
  ],
  λ h. elim (Bool-cases (ltb now (or_zero (get s.locked_until c)))) [
    | inl e ↦ absurd (ground (arith, e, h.0))
    | inr e ↦ rw e (checked.1 ((credentials-raises header).1 h.1))
  ],
)
  where
    checked :
        ((check (record s { locked_until = pop s.locked_until c }) p c (credentials header) now).0
          ≡ none)
        ↔ (credentials header ≡ value_error)
    checked =
        check-raises (record s { locked_until = pop s.locked_until c }) p c (credentials header) now

    some_none : {d : AuthDecision} → some d ≡ none → ⊥
    some_none q = cc
