-- ===== src/Supervisor/Restarts.antt =====
-- How often a process is restarted (camadmiral/supervisor.py).
use reefy_camadmiral.Prelude.{
  zero, suc, ◌≤◌, ◌≡◌, ◌≢◌, refl, Bool, true, false, not, Option, none, some, List, [], ◌∷◌, All,
  any, arith, Bool-cases, inl, inr,
}
use reefy_camadmiral.Supervisor.{
  Child, ReturnCode, status, signal, Poll, running, ended, children_of, exit_code, restart,
  may_restart, pass_over,
}

-- No child was restarted more than five times.
unfoldable pub AreLimited : List Child → Type 0
AreLimited children = All (λ c. c.restarts ≤ 5) children

unfoldable pub ArePolledLimited : List (Child × Poll) → Type 0
ArePolledLimited polled = All (λ p. p.0.restarts ≤ 5) polled

-- What ends a pass: a process that ended and may not be restarted.
unfoldable pub is_final : Child × Poll → Bool
is_final (child, running) = false
is_final (child, ended code) = not (may_restart child)

abbrev is_some : Option ReturnCode → Bool
is_some none = false
is_some (some code) = true

ends-pass_over :
    (repository : Bool) (polled : List (Child × Poll))
    → is_some (pass_over repository polled).returned ≡ any is_final polled
unfolding pass_over is_final
ends-pass_over repository [] = refl
ends-pass_over repository ((child, running) ∷ rest) = ends-pass_over repository rest
ends-pass_over repository ((child, ended code) ∷ rest) = elim (Bool-cases (may_restart child)) [
  | inl e ↦ rw e (ends-pass_over repository rest)
  | inr e ↦ (rw e refl)
]

exit_code-failure : (code : ReturnCode) → some (exit_code code) ≢ some (status 0)
unfolding exit_code
exit_code-failure (status zero) = λ e. cc
exit_code-failure (status (suc n)) = λ e. cc
exit_code-failure (signal n) = λ e. cc

fails-pass_over :
    (repository : Bool) (polled : List (Child × Poll))
    → (pass_over repository polled).returned ≢ some (status 0)
unfolding pass_over
fails-pass_over repository [] = λ e. cc
fails-pass_over repository ((child, running) ∷ rest) = fails-pass_over repository rest
fails-pass_over repository ((child, ended code) ∷ rest) = elim (Bool-cases (may_restart child)) [
  | inl e ↦ rw e (fails-pass_over repository rest)
  | inr e ↦ rw e (exit_code-failure code)
]

-- A pass makes `main` return exactly if some process ended that may not be restarted, and then
-- never with success.
pub returned-pass_over :
    (repository : Bool) (polled : List (Child × Poll))
    → (is_some (pass_over repository polled).returned ≡ any is_final polled)
      × ((pass_over repository polled).returned ≢ some (status 0))
returned-pass_over repository polled =
    (ends-pass_over repository polled, fails-pass_over repository polled)

children_of-AreLimited :
    (polled : List (Child × Poll)) → ArePolledLimited polled → AreLimited (children_of polled)
unfolding ArePolledLimited AreLimited
children_of-AreLimited [] h = tt
children_of-AreLimited ((child, poll) ∷ rest) h = (h.0, children_of-AreLimited rest h.1)

restart-limited :
    (repository : Bool) (child : Child)
    → may_restart child ≡ true
    → (restart repository child).0.restarts ≤ 5
unfolding restart may_restart
restart-limited repository child h = ground (arith, h)

-- If no child was restarted more than five times before a pass, none was after it.
pub pass_over-AreLimited :
    (repository : Bool) (polled : List (Child × Poll))
    → ArePolledLimited polled
    → AreLimited (pass_over repository polled).children
unfolding pass_over AreLimited ArePolledLimited
pass_over-AreLimited repository [] h = tt
pass_over-AreLimited repository ((child, running) ∷ rest) h =
    (h.0, pass_over-AreLimited repository rest h.1)
pass_over-AreLimited repository ((child, ended code) ∷ rest) h =
    elim (Bool-cases (may_restart child)) [
      | inl e ↦ rw e (restart-limited repository child e, pass_over-AreLimited repository rest h.1)
      | inr e ↦ rw e (h.0, children_of-AreLimited rest h.1)
    ]
