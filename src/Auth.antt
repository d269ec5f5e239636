-- ===== src/Auth.antt =====
-- camadmiral/auth.py: HTTP Basic authentication with a lockout for each client.
-- Times are milliseconds of the monotonic clock. A text is the list of its code points, and what
-- the decoder returns is kept as its UTF-8 bytes, which the code compares.
pub mod Decision
pub mod Lockout
pub mod Window
mod Tests
use reefy_camadmiral.Prelude.{
  ℕ, suc, ◌+◌, ◌-◌, ◌*◌, ◌/◌, ◌%◌, max, String, Bool, true, false, ◌&&◌, Option, none, some, List,
  [], ◌∷◌, ◌++◌, leb, ltb, ◌==◌, if◌then◌else◌, length,
}
use reefy_camadmiral.Prelude.Dict.{Dict, get, put, pop}
use reefy_camadmiral.Bytes.{bytes_eq, is_ascii, is_space, strip, is_utf8, split_colon}
use reefy_camadmiral.Base64.{b64decode_validate}

abbrev pub max_failures : ℕ
max_failures = 5

abbrev pub failure_window : ℕ
failure_window = 5 * 60 * 1000

abbrev pub lockout_seconds : ℕ
lockout_seconds = 5 * 60

abbrev pub lockout : ℕ
lockout = lockout_seconds * 1000

pub record AuthDecision : Type 0 where
  pub allowed : Bool
  pub status_code : ℕ
  pub retry_after : Option ℕ

abbrev pub granted : AuthDecision
granted = record { allowed = true; status_code = 200; retry_after = none }

abbrev pub unauthorized : AuthDecision
unauthorized = record { allowed = false; status_code = 401; retry_after = none }

abbrev pub throttled : ℕ → AuthDecision
throttled seconds = record { allowed = false; status_code = 429; retry_after = some seconds }

pub record AdminAuthenticator : Type 0 where
  pub failures : Dict (List ℕ)
  pub locked_until : Dict ℕ

-- What `_credentials` does: `None`, a pair, or a `ValueError` that it does not catch.
pub data Credentials : Type 0 where
  absent value_error : Credentials
  given : List ℕ → List ℕ → Credentials

abbrev pub split_credentials : Option (List ℕ × List ℕ) → Credentials
split_credentials none = absent
split_credentials (some (username, password)) = given username password

abbrev pub decode_credentials : Option (List ℕ) → Credentials
decode_credentials none = absent
decode_credentials (some decoded) =
    if is_utf8 decoded then split_credentials (split_colon decoded) else absent

-- `header[6:]` if `header.startswith("Basic ")`
abbrev pub after_basic : List ℕ → Option (List ℕ)
after_basic (b ∷ a ∷ s ∷ i ∷ c ∷ space ∷ rest) =
    if bytes_eq (b ∷ a ∷ s ∷ i ∷ c ∷ space ∷ []) (b'B' ∷ b'a' ∷ b's' ∷ b'i' ∷ b'c' ∷ 32 ∷ [])
    then some rest
    else none
after_basic _ = none

-- `b64decode` of a text that is not ASCII raises `ValueError`, which is no `binascii.Error`.
abbrev pub basic_credentials : Option (List ℕ) → Credentials
basic_credentials none = absent
basic_credentials (some rest) =
    let text = strip is_space rest in
    if is_ascii text then decode_credentials (b64decode_validate text) else value_error

unfoldable pub credentials : Option (List ℕ) → Credentials
credentials none = absent
credentials (some header) = basic_credentials (after_basic header)

-- `while failures and failures[0] <= now - FAILURE_WINDOW_SECONDS: failures.popleft()`
unfoldable pub drop_old : ℕ → List ℕ → List ℕ
drop_old now [] = []
drop_old now (t ∷ ts) = if leb (t + failure_window) now then drop_old now ts else t ∷ ts

abbrev pub or_empty : Option (List ℕ) → List ℕ
or_empty none = []
or_empty (some ts) = ts

unfoldable pub record_failure : AdminAuthenticator → String → ℕ → AuthDecision × AdminAuthenticator
unfolding drop_old
record_failure s client now =
    let failures = drop_old now (or_empty (get s.failures client)) ++ now ∷ [] in
    if leb max_failures (length failures)
    then (
      throttled lockout_seconds,
      record {
        failures = put s.failures client [];
        locked_until = put s.locked_until client (now + lockout);
      },
    )
    else (unauthorized, record s { failures = put s.failures client failures })

-- Python's `round` of a number of milliseconds to seconds, halves to the even second.
unfoldable pub round_seconds : ℕ → ℕ
round_seconds ms =
    let q = ms / 1000 in
    let r = ms % 1000 in if ltb r 500 then q else if ltb 500 r then q + 1 else q + q % 2

abbrev pub or_zero : Option ℕ → ℕ
or_zero none = 0
or_zero (some t) = t

-- `b"admin"`
abbrev pub admin : List ℕ
admin = b'a' ∷ b'd' ∷ b'm' ∷ b'i' ∷ b'n' ∷ []

-- The part of `authenticate` behind the lockout; `none` stands for the uncaught `ValueError`.
unfoldable pub check :
    AdminAuthenticator
    → List ℕ
    → String
    → Credentials
    → ℕ
    → Option AuthDecision × AdminAuthenticator
check s password client value_error now = (none, s)
check s password client absent now = let (d, s') = record_failure s client now in (some d, s')
check s password client (given username candidate) now =
    if bytes_eq username admin && bytes_eq candidate password
    then (
      some granted,
      record { failures = pop s.failures client; locked_until = pop s.locked_until client },
    )
    else (let (d, s') = record_failure s client now in (some d, s'))

-- `password` is what `password_loader()` returned.
unfoldable pub authenticate :
    AdminAuthenticator
    → Option (List ℕ)
    → String
    → Option (List ℕ)
    → ℕ
    → Option AuthDecision × AdminAuthenticator
unfolding check
authenticate s none client header now = (some granted, s)
authenticate s (some password) client header now =
    let locked_until = or_zero (get s.locked_until client) in
    if ltb now locked_until
    then (some (throttled (max 1 (round_seconds (locked_until - now)))), s)
    else check (record s { locked_until = pop s.locked_until client }) password client
        (credentials header) now
