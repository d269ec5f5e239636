-- ===== src/Inventory/Matching/Accounts.antt =====
-- That a scan loses no device and merges none twice (camadmiral/inventory.py).
use reefy_camadmiral.Prelude.{
  ℕ, zero, suc, ◌+◌, ◌≤◌, ◌≡◌, refl, true, ◌&&◌, List, [], ◌∷◌, length, length-append, tally, arith,
  ◌==◌, leb, ltb, if◌then◌else◌, String, Bool-cases, inl, inr,
}
use reefy_camadmiral.Json.{Value}
use reefy_camadmiral.Inventory.{Device, Python, member}
use reefy_camadmiral.Inventory.Reconcile.{match_all, unobserved}
use reefy_camadmiral.Inventory.Summary.{reconciled}
use reefy_camadmiral.Inventory.Matching.{
  AllBelow, IsMatching, no_member-tally, match_all-IsMatching, length-match_all,
}

-- How many of the indices lie in `i`, …, `i + n - 1`.
within : ℕ → ℕ → List ℕ → ℕ
within i zero matched = 0
within i (suc n) matched = tally (λ j. j == i) matched + within (suc i) n matched

within-cons :
    (i n x : ℕ) (xs : List ℕ)
    → within i n (x ∷ xs) ≡ (if leb i x && ltb x (i + n) then 1 else 0) + within i n xs
unfolding within
within-cons i zero x xs = ground arith
within-cons i (suc n) x xs = ground (arith, within-cons (suc i) n x xs)

within-none : (i n : ℕ) → within i n [] ≡ 0
unfolding within
within-none i zero = refl
within-none i (suc n) = omega (arith, within-none (suc i) n)

within-all : (n : ℕ) (xs : List ℕ) → AllBelow n xs → within 0 n xs ≡ length xs
unfolding AllBelow
within-all n [] h = within-none 0 n
within-all n (x ∷ xs) h = ground (arith, within-cons 0 n x xs, within-all n xs h.1, h.0)

member-tally : (i : ℕ) (xs : List ℕ) → member i xs ≡ true → 1 ≤ tally (λ j. j == i) xs
member-tally i [] h = cc
member-tally i (x ∷ xs) h = ground (arith, member-tally i xs)

length-unobserved :
    (py : Python) (drawn : ℕ) (reachable : List String) (seen_at : Value) (matched : List ℕ) (i : ℕ)
    (previous : List Device)
    → ((j : ℕ) → tally (λ x. x == j) matched ≤ 1)
    → length (unobserved py drawn reachable seen_at matched i previous)
        + within i (length previous) matched
      ≡ length previous
unfolding unobserved within
length-unobserved py drawn reachable seen_at matched i [] h = refl
length-unobserved py drawn reachable seen_at matched i (d ∷ previous) h =
    let rest = length-unobserved py drawn reachable seen_at matched (suc i) previous h in
    elim (Bool-cases (member i matched)) [
      | inl e ↦ rw e (ground (arith, rest, member-tally i matched e, h i))
      | inr e ↦ rw e (ground (arith, rest, no_member-tally i matched e))
    ]

-- An observation is merged with at most one previous device and no device is merged twice, and
-- none is lost: what a scan leaves is one device for each observation and one for each previous
-- device that was not matched.
pub reconciled-accounts :
    (py : Python) (previous current : List Device) (seen_at : Value) (reachable : List String)
    → IsMatching (length previous) (match_all py previous current seen_at 0 [] current).1
      × (length (reconciled py previous current seen_at reachable)
            + length (match_all py previous current seen_at 0 [] current).1
          ≡ length current + length previous)
unfolding reconciled IsMatching AllBelow
reconciled-accounts py previous current seen_at reachable = (matching, counts)
  where
    matched : List ℕ
    matched = (match_all py previous current seen_at 0 [] current).1

    matching : IsMatching (length previous) matched
    matching = match_all-IsMatching py previous current seen_at 0 [] current (tt, λ i. omega arith)

    counts :
        length (reconciled py previous current seen_at reachable) + length matched
        ≡ length current + length previous
    counts = omega (
      arith,
      length-append (match_all py previous current seen_at 0 [] current).0
          (unobserved py (length current) reachable seen_at matched 0 previous),
      length-match_all py previous current seen_at 0 [] current,
      length-unobserved py (length current) reachable seen_at matched 0 previous matching.1,
      within-all (length previous) matched matching.0,
    )
