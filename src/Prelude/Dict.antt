-- ===== src/Prelude/Dict.antt =====
-- Python's `dict` with text keys, as the list of its items in insertion order: a write to a key
-- that is there keeps its place, a new key goes to the end.
use Prim.Native.String.{String}
use Prim.Native.Nat.{suc, ◌≤◌}
use reefy_camadmiral.Prelude.Lists.{length}
use text.Mathlib.TextPositions.{eq_refl}
use mathlib.Core.Logic.{◌≢◌}
use mathlib.Core.Path.{◌≡◌, refl}
use mathlib.Core.Bool.{Bool, true, false}
use mathlib.Core.List.{List, [], ◌∷◌}
use mathlib.Core.Option.{Option, none, some}
use native.Mathlib.Omega.{arith}
use reefy_camadmiral.Prelude.Tests.{str_eq, eq_iff, if◌then◌else◌}

abbrev pub Dict {ℓ} : Type ℓ → Type ℓ
Dict V = List (String × V)

module _ {ℓ} {V : Type ℓ} where
  -- `d.get(k)`
  unfoldable pub get : Dict V → String → Option V
  get [] k = none
  get ((j, v) ∷ d) k = if str_eq j k then some v else get d k

  -- `d[k] = v`
  unfoldable pub put : Dict V → String → V → Dict V
  put [] k v = (k, v) ∷ []
  put ((j, w) ∷ d) k v = if str_eq j k then (j, v) ∷ d else (j, w) ∷ put d k v

  -- `d.pop(k, None)`
  unfoldable pub pop : Dict V → String → Dict V
  pop [] k = []
  pop ((j, w) ∷ d) k = let rest = pop d k in if str_eq j k then rest else (j, w) ∷ rest

  -- `k in d`
  abbrev pub has : Dict V → String → Bool
  has d k = elim (get d k) [ none ↦ false | some _ ↦ true ]

  pub get-put :
      (d : Dict V) (k j : String) (v : V)
      → get (put d k v) j ≡ (if str_eq k j then some v else get d j)
  unfolding get put
  get-put [] k j v = refl
  get-put ((i, w) ∷ d) k j v = ground (arith, eq_iff i k, eq_iff i j, eq_iff k j, get-put d k j v)

  pub get-pop :
      (d : Dict V) (k j : String) → get (pop d k) j ≡ (if str_eq k j then none else get d j)
  unfolding get pop
  get-pop [] k j = ground arith
  get-pop ((i, w) ∷ d) k j = ground (arith, eq_iff i k, eq_iff i j, eq_iff k j, get-pop d k j)

module _ {ℓ} {V : Type ℓ} where
  pub length-put : (d : Dict V) (k : String) (v : V) → length (put d k v) ≤ suc (length d)
  unfolding put
  length-put [] k v = omega arith
  length-put ((j, w) ∷ d) k v = ground (arith, length-put d k v)

  pub length-pop : (d : Dict V) (k : String) → length (pop d k) ≤ length d
  unfolding pop
  length-pop [] k = omega arith
  length-pop ((j, w) ∷ d) k = ground (arith, length-pop d k)

module _ {ℓ} {V : Type ℓ} (d : Dict V) where
  pub get-put_self : (k : String) (v : V) → get (put d k v) k ≡ some v
  get-put_self k v = rw get-put (rw eq_refl)

  pub get-put_ne : (k j : String) (v : V) → k ≢ j → get (put d k v) j ≡ get d j
  get-put_ne k j v h = rw get-put (ground (arith, eq_iff k j))

  pub get-pop_self : (k : String) → get (pop d k) k ≡ none
  get-pop_self k = rw get-pop (rw eq_refl)

  pub get-pop_ne : (k j : String) → k ≢ j → get (pop d k) j ≡ get d j
  get-pop_ne k j h = rw get-pop (ground (arith, eq_iff k j))

pub ruleset dict_laws = (get-put, get-pop)
