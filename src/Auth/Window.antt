-- ===== src/Auth/Window.antt =====
-- The failures that count are those of the last five minutes (camadmiral/auth.py).
use reefy_camadmiral.Prelude.{
  ℕ, ◌+◌, ◌≤◌, ◌<◌, String, ◌≡◌, inl, inr, refl, false, ◌&&◌, Option, none, some, List, [], ◌∷◌,
  ◌++◌, arith, All, keep, length, ltb, leb, if◌then◌else◌, Bool-cases, str_eq,
}
use reefy_camadmiral.Prelude.Dict.{get, pop, get-put, get-pop}
use reefy_camadmiral.Bytes.{bytes_eq}
use reefy_camadmiral.Auth.{
  AdminAuthenticator, Credentials, given, absent, value_error, admin, credentials, drop_old,
  or_empty, record_failure, or_zero, check, authenticate, max_failures, failure_window,
}

-- The failures of the last five minutes, whatever their order.
abbrev pub recent : ℕ → List ℕ → List ℕ
recent now = keep (λ t. ltb now (t + failure_window))

abbrev pub Rising : List ℕ → Type 0
Rising [] = Unit
Rising (x ∷ xs) = All (λ y. x ≤ y) xs × Rising xs

recent-All :
    (now x : ℕ) (ts : List ℕ) → now < x + failure_window → All (λ y. x ≤ y) ts → recent now ts ≡ ts
recent-All now x [] h a = refl
recent-All now x (t ∷ ts) h a = ground (arith, recent-All now x ts h a.1)

-- On times in order, dropping from the front keeps exactly the recent ones.
pub drop_old-eq-recent : (now : ℕ) (ts : List ℕ) → Rising ts → drop_old now ts ≡ recent now ts
unfolding drop_old
drop_old-eq-recent now [] r = refl
drop_old-eq-recent now (t ∷ ts) r = elim (Bool-cases (leb (t + failure_window) now)) [
  | inl old ↦ ground (arith, drop_old-eq-recent now ts r.1)
  | inr fresh ↦ ground (arith, recent-All now t ts)
]

All-drop_old {κ} : (P : ℕ → Type κ) (now : ℕ) (ts : List ℕ) → All P ts → All P (drop_old now ts)
unfolding drop_old
All-drop_old P now [] a = a
All-drop_old P now (t ∷ ts) a = elim (Bool-cases (leb (t + failure_window) now)) [
  | inl old ↦ rw old (All-drop_old P now ts a.1)
  | inr fresh ↦ rw fresh a
]

Rising-drop_old : (now : ℕ) (ts : List ℕ) → Rising ts → Rising (drop_old now ts)
unfolding drop_old
Rising-drop_old now [] r = r
Rising-drop_old now (t ∷ ts) r = elim (Bool-cases (leb (t + failure_window) now)) [
  | inl old ↦ rw old (Rising-drop_old now ts r.1)
  | inr fresh ↦ rw fresh r
]

All-snoc {κ} : (P : ℕ → Type κ) (ts : List ℕ) (t : ℕ) → All P ts → P t → All P (ts ++ t ∷ [])
All-snoc P [] t a p = (p, tt)
All-snoc P (x ∷ ts) t a p = (a.0, All-snoc P ts t a.1 p)

Rising-snoc : (ts : List ℕ) (t : ℕ) → Rising ts → All (λ y. y ≤ t) ts → Rising (ts ++ t ∷ [])
Rising-snoc [] t r a = (tt, tt)
Rising-snoc (x ∷ ts) t r a = (All-snoc (λ y. x ≤ y) ts t r.0 a.0, Rising-snoc ts t r.1 a.1)

-- What a client's failures look like between two requests, at time `now`.
pub record IsWindow (now : ℕ) (ts : List ℕ) : Type 0 where
  pub short : length ts < max_failures
  pub rising : Rising ts
  pub past : All (λ t. t ≤ now) ts

abbrev pub IsWindowed : ℕ → AdminAuthenticator → Type 0
IsWindowed now s = (c : String) → IsWindow now (or_empty (get s.failures c))

All-le_trans : (a b : ℕ) (ts : List ℕ) → a ≤ b → All (λ t. t ≤ a) ts → All (λ t. t ≤ b) ts
All-le_trans a b [] h x = tt
All-le_trans a b (t ∷ ts) h x = (omega arith, All-le_trans a b ts h x.1)

IsWindow-later : (a b : ℕ) (ts : List ℕ) → a ≤ b → IsWindow a ts → IsWindow b ts
IsWindow-later a b ts h w = record {
  short = w.short;
  rising = w.rising;
  past = All-le_trans a b ts h w.past;
}

IsWindow-nil : (now : ℕ) → IsWindow now []
IsWindow-nil now = record { short = omega arith; rising = tt; past = tt }

abbrev appended : ℕ → List ℕ → List ℕ
appended now ts = drop_old now ts ++ now ∷ []

IsWindow-appended :
    (now : ℕ) (ts : List ℕ)
    → IsWindow now ts
    → leb max_failures (length (appended now ts)) ≡ false
    → IsWindow now (appended now ts)
IsWindow-appended now ts w h = record {
  short = ground arith;
  rising =
      Rising-snoc (drop_old now ts) now (Rising-drop_old now ts w.rising)
        (All-drop_old (λ t. t ≤ now) now ts w.past);
  past =
      All-snoc (λ t. t ≤ now) (drop_old now ts) now (All-drop_old (λ t. t ≤ now) now ts w.past)
        (omega arith);
}

module _ (a now : ℕ) (le : a ≤ now) where
  record_failure-IsWindowed :
      (s : AdminAuthenticator) (c : String)
      → IsWindowed a s
      → IsWindowed now (record_failure s c now).1
  unfolding record_failure
  record_failure-IsWindowed s c w j =
      let old = or_empty (get s.failures c) in
      elim (Bool-cases (leb max_failures (length (appended now old)))) [
        | inl full ↦ rw full (rw get-put (by_key [] (IsWindow-nil now)))
        | inr room ↦ rw room (
            rw get-put (
              by_key (appended now old)
                (IsWindow-appended now old (IsWindow-later a now old le (w c)) room)))
      ]
    where
      by_key :
          (ts : List ℕ)
          → IsWindow now ts
          → IsWindow now (or_empty (if str_eq c j then some ts else get s.failures j))
      by_key ts h = elim (Bool-cases (str_eq c j)) [
        | inl same ↦ rw same h
        | inr other ↦ rw other (IsWindow-later a now (or_empty (get s.failures j)) le (w j))
      ]

  pop-IsWindowed :
      (s : AdminAuthenticator) (c j : String)
      → IsWindowed a s
      → IsWindow now (or_empty (get (pop s.failures c) j))
  pop-IsWindowed s c j w = rw get-pop (elim (Bool-cases (str_eq c j)) [
    | inl same ↦ rw same (IsWindow-nil now)
    | inr other ↦ rw other (IsWindow-later a now (or_empty (get s.failures j)) le (w j))
  ])

  check-IsWindowed :
      (s : AdminAuthenticator) (p : List ℕ) (c : String) (cr : Credentials)
      → IsWindowed a s
      → IsWindowed now (check s p c cr now).1
  unfolding check
  check-IsWindowed s p c value_error w j =
      IsWindow-later a now (or_empty (get s.failures j)) le (w j)
  check-IsWindowed s p c absent w j = record_failure-IsWindowed s c w j
  check-IsWindowed s p c (given u q) w j = elim (Bool-cases (bytes_eq u admin && bytes_eq q p)) [
    | inl good ↦ rw good (pop-IsWindowed s c j w)
    | inr bad ↦ rw bad (record_failure-IsWindowed s c w j)
  ]

-- Whatever requests come, at times that do not go back: for every client fewer than five failures
-- are kept, in order of time, none of them later than now.
pub authenticate-IsWindowed :
    (s : AdminAuthenticator) (password : Option (List ℕ)) (c : String) (header : Option (List ℕ))
    (a now : ℕ)
    → a ≤ now
    → IsWindowed a s
    → IsWindowed now (authenticate s password c header now).1
unfolding authenticate
authenticate-IsWindowed s none c header a now le w j =
    IsWindow-later a now (or_empty (get s.failures j)) le (w j)
authenticate-IsWindowed s (some p) c header a now le w j =
    elim (Bool-cases (ltb now (or_zero (get s.locked_until c)))) [
      | inl shut ↦ rw shut (IsWindow-later a now (or_empty (get s.failures j)) le (w j))
      | inr open_ ↦ rw open_ (
          check-IsWindowed a now le (record s { locked_until = pop s.locked_until c }) p c
            (credentials header) w j)
    ]
