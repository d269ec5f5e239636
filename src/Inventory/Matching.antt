-- ===== src/Inventory/Matching.antt =====
-- Which previous devices the observations of a scan match (camadmiral/inventory.py).
pub mod Accounts
use reefy_camadmiral.Prelude.{
  ℕ, zero, suc, ◌+◌, ◌≤◌, ◌<◌, ◌≡◌, refl, Bool, true, false, not, ◌&&◌, Option, none, some, List,
  [], ◌∷◌, ◌++◌, length, length-append, tally, All, arith, ◌==◌, ==_iff, leb, ltb, if◌then◌else◌,
  String, str_eq, Bool-cases, inl, inr,
}
use reefy_camadmiral.Prelude.Dict.{get}
use reefy_camadmiral.Json.{Value}
use reefy_camadmiral.Inventory.{
  Device, Python, Key, key_eq, member, Owners, add_owner, add_keys, collect, owners_of, stable_keys,
  str_or_empty, mac_key, onvif_key,
}
use reefy_camadmiral.Inventory.Reconcile.{
  free, first_of, by_key, choose, add, match_all, only, stable_count, stable_index, ip_index,
  unobserved,
}
use reefy_camadmiral.Inventory.Summary.{reconciled}

-- A candidate: `none`, or an index below `n` that is not matched.
IsFresh : ℕ → List ℕ → Option ℕ → Type 0
IsFresh n matched none = Unit
IsFresh n matched (some i) = (i < n) × (member i matched ≡ false)

IsBelow : ℕ → Option ℕ → Type 0
IsBelow n none = Unit
IsBelow n (some i) = i < n

pub AllBelow : ℕ → List ℕ → Type 0
AllBelow n indices = All (λ j. j < n) indices

OwnersBelow : ℕ → Owners → Type 0
OwnersBelow n owners = All (λ e. AllBelow n e.1) owners

free-IsFresh :
    (n : ℕ) (matched : List ℕ) (o : Option ℕ) → IsBelow n o → IsFresh n matched (free matched o)
unfolding IsFresh IsBelow
free-IsFresh n matched none h = tt
free-IsFresh n matched (some i) h = elim (Bool-cases (member i matched)) [
  | inl e ↦ rw e tt
  | inr e ↦ rw e (h, e)
]

first_of-IsFresh :
    (n : ℕ) (matched : List ℕ) (a b : Option ℕ)
    → IsFresh n matched a
    → IsFresh n matched b
    → IsFresh n matched (first_of a b)
first_of-IsFresh n matched none b f g = g
first_of-IsFresh n matched (some i) b f g = f

append-AllBelow : (n : ℕ) (xs : List ℕ) (i : ℕ) → AllBelow n xs → i < n → AllBelow n (xs ++ i ∷ [])
unfolding AllBelow
append-AllBelow n [] i h b = (b, tt)
append-AllBelow n (x ∷ xs) i h b = (h.0, append-AllBelow n xs i h.1 b)

add_owner-OwnersBelow :
    (n : ℕ) (owners : Owners) (k : Key) (i : ℕ)
    → OwnersBelow n owners
    → i < n
    → OwnersBelow n (add_owner owners k i)
unfolding OwnersBelow add_owner AllBelow
add_owner-OwnersBelow n [] k i h b = ((b, tt), tt)
add_owner-OwnersBelow n ((j, indices) ∷ owners) k i h b = elim (Bool-cases (key_eq j k)) [
  | inl e ↦ rw e (append-AllBelow n indices i h.0 b, h.1)
  | inr e ↦ rw e (h.0, add_owner-OwnersBelow n owners k i h.1 b)
]

add_keys-OwnersBelow :
    (n : ℕ) (owners : Owners) (keys : List Key) (i : ℕ)
    → OwnersBelow n owners
    → i < n
    → OwnersBelow n (add_keys owners keys i)
add_keys-OwnersBelow n owners [] i h b = h
add_keys-OwnersBelow n owners (k ∷ keys) i h b =
    add_keys-OwnersBelow n (add_owner owners k i) keys i (add_owner-OwnersBelow n owners k i h b) b

collect-OwnersBelow :
    (py : Python) (n i : ℕ) (devices : List Device) (owners : Owners)
    → OwnersBelow n owners
    → i + length devices ≤ n
    → OwnersBelow n (collect py i devices owners)
unfolding collect
collect-OwnersBelow py n i [] owners h b = h
collect-OwnersBelow py n i (d ∷ devices) owners h b =
    collect-OwnersBelow py n (suc i) devices (add_keys owners (stable_keys py d) i)
      (add_keys-OwnersBelow n owners (stable_keys py d) i h (omega arith)) (omega arith)

owners_of-AllBelow :
    (n : ℕ) (owners : Owners) (k : Key) → OwnersBelow n owners → AllBelow n (owners_of owners k)
unfolding OwnersBelow owners_of AllBelow
owners_of-AllBelow n [] k h = tt
owners_of-AllBelow n ((j, indices) ∷ owners) k h = elim (Bool-cases (key_eq j k)) [
  | inl e ↦ rw e h.0
  | inr e ↦ rw e (owners_of-AllBelow n owners k h.1)
]

only-IsBelow : (n : ℕ) (indices : List ℕ) → AllBelow n indices → IsBelow n (only indices)
unfolding IsBelow AllBelow
only-IsBelow n [] h = tt
only-IsBelow n (i ∷ []) h = h.0
only-IsBelow n (i ∷ j ∷ rest) h = tt

stable_index-IsBelow :
    (py : Python) (previous current : List Device) (k : Key)
    → IsBelow (length previous) (stable_index py previous current k)
unfolding stable_index IsBelow OwnersBelow
stable_index-IsBelow py previous current k = go (stable_count py current k == 1)
  where
    go :
        (b : Bool)
        → IsBelow
            (length previous)
            (if b then only (owners_of (collect py 0 previous []) k) else none)
    go true = only-IsBelow (length previous) (owners_of (collect py 0 previous []) k) (
        owners_of-AllBelow (length previous) (collect py 0 previous []) k
          (collect-OwnersBelow py (length previous) 0 previous [] tt (omega arith)))
    go false = tt

if-IsBelow :
    (n i : ℕ) (o : Option ℕ) (b : Bool) → i < n → IsBelow n o → IsBelow n (if b then some i else o)
unfolding IsBelow
if-IsBelow n i o true h k = h
if-IsBelow n i o false h k = k

ip_index-IsBelow :
    (py : Python) (n i : ℕ) (devices : List Device) (address : String)
    → i + length devices ≤ n
    → IsBelow n (ip_index py i devices address)
unfolding ip_index IsBelow
ip_index-IsBelow py n i [] address h = tt
ip_index-IsBelow py n i (d ∷ devices) address h =
    if-IsBelow n i (ip_index py (suc i) devices address)
      (not (str_eq (str_or_empty py (get d "ip")) "")
        && str_eq (str_or_empty py (get d "ip")) address)
      (omega arith) (ip_index-IsBelow py n (suc i) devices address (omega arith))

by_key-IsFresh :
    (py : Python) (previous current : List Device) (matched : List ℕ) (k : Option Key)
    → IsFresh (length previous) matched (by_key py previous current matched k)
unfolding IsFresh
by_key-IsFresh py previous current matched none = tt
by_key-IsFresh py previous current matched (some k) =
    free-IsFresh (length previous) matched (stable_index py previous current k)
      (stable_index-IsBelow py previous current k)

choose-IsFresh :
    (py : Python) (previous current : List Device) (matched : List ℕ) (d : Device)
    → IsFresh (length previous) matched (choose py previous current matched d)
unfolding choose IsFresh
choose-IsFresh py previous current matched d =
    first_of-IsFresh (length previous) matched
      (first_of (by_key py previous current matched (onvif_key py d))
        (by_key py previous current matched (mac_key py d)))
      (if length (stable_keys py d) == 0 then by_address else none)
      (first_of-IsFresh (length previous) matched
        (by_key py previous current matched (onvif_key py d))
        (by_key py previous current matched (mac_key py d))
        (by_key-IsFresh py previous current matched (onvif_key py d))
        (by_key-IsFresh py previous current matched (mac_key py d)))
      (go (length (stable_keys py d) == 0))
  where
    by_address : Option ℕ
    by_address = free matched (ip_index py 0 previous (str_or_empty py (get d "ip")))

    go : (b : Bool) → IsFresh (length previous) matched (if b then by_address else none)
    go true =
        free-IsFresh (length previous) matched
          (ip_index py 0 previous (str_or_empty py (get d "ip")))
          (ip_index-IsBelow py (length previous) 0 previous (str_or_empty py (get d "ip"))
            (omega arith))
    go false = tt

-- Indices below a number, each at most once.
pub IsMatching : ℕ → List ℕ → Type 0
IsMatching n matched = AllBelow n matched × ((i : ℕ) → tally (λ j. j == i) matched ≤ 1)

pub no_member-tally : (i : ℕ) (xs : List ℕ) → member i xs ≡ false → tally (λ j. j == i) xs ≡ 0
no_member-tally i [] h = refl
no_member-tally i (x ∷ xs) h = ground (arith, no_member-tally i xs)

add-IsMatching :
    (n : ℕ) (matched : List ℕ) (o : Option ℕ)
    → IsFresh n matched o
    → IsMatching n matched
    → IsMatching n (add o matched)
unfolding IsFresh IsMatching AllBelow
add-IsMatching n matched none f h = h
add-IsMatching n matched (some i) f h =
    ((f.0, h.0), λ j. ground (arith, no_member-tally i matched f.1, h.1 j, ==_iff i j))

pub match_all-IsMatching :
    (py : Python) (previous current : List Device) (seen_at : Value) (n : ℕ) (matched : List ℕ)
    (rest : List Device)
    → IsMatching (length previous) matched
    → IsMatching (length previous) (match_all py previous current seen_at n matched rest).1
unfolding match_all
match_all-IsMatching py previous current seen_at n matched [] h = h
match_all-IsMatching py previous current seen_at n matched (d ∷ rest) h =
    match_all-IsMatching py previous current seen_at (suc n)
      (add (choose py previous current matched d) matched) rest
      (add-IsMatching (length previous) matched (choose py previous current matched d)
        (choose-IsFresh py previous current matched d) h)

pub length-match_all :
    (py : Python) (previous current : List Device) (seen_at : Value) (n : ℕ) (matched : List ℕ)
    (rest : List Device)
    → length (match_all py previous current seen_at n matched rest).0 ≡ length rest
unfolding match_all
length-match_all py previous current seen_at n matched [] = refl
length-match_all py previous current seen_at n matched (d ∷ rest) = omega (
  arith,
  length-match_all py previous current seen_at (suc n)
      (add (choose py previous current matched d) matched) rest,
)
