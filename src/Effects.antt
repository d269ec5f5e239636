-- ===== src/Effects.antt =====
-- Calls that change a state and may raise: what was written before an exception stays written.
use reefy_camadmiral.Prelude.{Bool, true, false}

pub data Outcome {ℓ} (A : Type ℓ) : Type ℓ where
  raised : Outcome A
  returned : A → Outcome A

abbrev pub has_returned {ℓ} : {A : Type ℓ} → Outcome A → Bool
has_returned raised = false
has_returned (returned _) = true

-- A call on the state `S`.
abbrev pub Call {ℓ} : Type 0 → Type ℓ → Type ℓ
Call S A = S → Outcome A × S

abbrev pub done : {S : Type 0} → Call S (Unit {0})
done s = (returned tt, s)

-- `try: call` with `except Exception: pass`
abbrev pub suppress {ℓ} : {S : Type 0} {A : Type ℓ} → Call S A → Call S (Unit {0})
suppress call s = (returned tt, (call s).1)

-- What follows a call, unless it raised.
abbrev pub continue {ℓ κ} :
    {S : Type 0} {A : Type ℓ} {B : Type κ} → (A → Call S B) → Outcome A × S → Outcome B × S
continue next (raised, s) = (raised, s)
continue next (returned a, s) = next a s

infixl 5 ◌>>=◌ ◌>>◌
abbrev pub ◌>>=◌ {ℓ κ} :
    {S : Type 0} {A : Type ℓ} {B : Type κ} → Call S A → (A → Call S B) → Call S B
◌>>=◌ call next s = continue next (call s)

abbrev pub ◌>>◌ {ℓ κ} : {S : Type 0} {A : Type ℓ} {B : Type κ} → Call S A → Call S B → Call S B
◌>>◌ call next s = continue (λ _. next) (call s)
