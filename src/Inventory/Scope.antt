-- ===== src/Inventory/Scope.antt =====
-- What a rescan of some subnets leaves alone (`reconcile_scanned_subnets` of camadmiral/inventory.py).
use native.Mathlib.Nat.{mul-le-mul_right, mod-lt, div-add-mod', add-mul, one-le-pow}
use reefy_camadmiral.Prelude.{
  ℕ, ◌+◌, ◌-◌, ◌*◌, ◌/◌, ◌%◌, ◌^◌, ◌≤◌, ◌<◌, ◌≡◌, refl, Bool, true, false, not, ◌&&◌, Option, none,
  some, List, [], ◌∷◌, String, tally, keep, any, length, arith, leb, ltb, ◌==◌, ==_iff, inl, inr,
  Bool-cases,
}
use reefy_camadmiral.Prelude.Dict.{get}
use reefy_camadmiral.Json.{Value}
use reefy_camadmiral.Inventory.{Device, Python, key_eq, stable_keys, str_or_empty}
use reefy_camadmiral.Inventory.Summary.{
  is_online, is_in, in_networks, is_targeted, reconcile_inventory, rescan, inventory_summary,
}
use reefy_camadmiral.Inventory.Reconcile.{match_all, is_reachable}
use reefy_camadmiral.Inventory.Counts.{is_offline, count_unmatched}
use reefy_camadmiral.Inventory.Counts.Totals.{
  online-annotate, offline-annotate, length-tally, summary-reconcile,
}
use reefy_camadmiral.Inventory.Identity.{tally-rescan}

-- The addresses of a block are those from its first one on, as many as it has.
same_block : (m a b : ℕ) → 0 < m → (a / m == b / m) ≡ (leb (b / m * m) a && ltb a (b / m * m + m))
same_block m a b h = go (a / m) (b / m) (div-add-mod' a m) (mod-lt a h)
  where
    go : (q p : ℕ) → q * m + a % m ≡ a → a % m < m → (q == p) ≡ (leb (p * m) a && ltb a (p * m + m))
    go q p e l = elim (Bool-cases (q == p)) [
      | inl f ↦
          (let same : q ≡ p = (==_iff q p).0 f in
            let moved : p * m + a % m ≡ a = rw same at e in rw f (ground (arith, moved, l)))
      | inr f ↦ rw f (elim (Bool-cases (ltb q p)) [
        | inl g ↦ ground (arith, e, l, block_before q p (ground (arith, g)))
        | inr g ↦ ground (arith, e, l, block_before p q (ground (arith, f, g)))
      ])
    ]
      where
        block_before : (x y : ℕ) → x < y → x * m + m ≤ y * m
        block_before x y below =
            omega
              (arith, mul-le-mul_right {m = x + 1} {n = y} m (omega (arith, below)), add-mul x 1 m)

module _ (py : Python) (ns : List (ℕ × ℕ)) (current : List Device) where
  -- The address lies between the first and the last one of a network, of 32 bits less its prefix.
  abbrev in_range : ℕ → ℕ × ℕ → Bool
  in_range address (base, prefix) =
      let size = 2 ^ (32 - prefix) in
      leb (base / size * size) address && ltb address (base / size * size + size)

  abbrev lies_in : Option ℕ → Bool
  lies_in none = false
  lies_in (some address) = any (in_range address) ns

  -- No network of the scan has the device's address, and no observed device one of its stable keys.
  unfoldable pub is_outside : Device → Bool
  is_outside d =
      not (lies_in (py.ipv4_address (str_or_empty py (get d "ip"))))
      && not (any (λ k. any (λ o. any (key_eq k) (stable_keys py o)) current) (stable_keys py d))

  any-range :
      (address : ℕ) (rest : List (ℕ × ℕ)) → any (is_in address) rest ≡ any (in_range address) rest
  any-range address [] = refl
  any-range address ((base, prefix) ∷ rest) =
      rw
        (
          same_block (2 ^ (32 - prefix)) address base (one-le-pow (32 - prefix) 2 (omega arith)),
          any-range address rest,
        )
        refl

  networks-range : (o : Option ℕ) → in_networks o ns ≡ lies_in o
  networks-range none = refl
  networks-range (some address) = any-range address ns

  targeted-outside : (d : Device) → not (is_targeted py ns current d) ≡ is_outside d
  unfolding is_targeted is_outside
  targeted-outside d =
      ground (arith, networks-range (py.ipv4_address (str_or_empty py (get d "ip"))))

keep-same :
    (p q : Device → Bool)
    → ((d : Device) → p d ≡ q d)
    → (devices : List Device) → keep p devices ≡ keep q devices
keep-same p q h [] = refl
keep-same p q h (d ∷ devices) = rw (h d, keep-same p q h devices) refl

-- The same counts, of the devices the scan is about and of the others.
summary-targeted :
    (py : Python) (previous current : List Device) (seen_at : Value) (reachable : List String)
    (ns : List (ℕ × ℕ)) (outside inside : List Device)
    → keep (λ d. not (is_targeted py ns current d)) previous ≡ outside
    → keep (is_targeted py ns current) previous ≡ inside
    → let result = inventory_summary (rescan py previous current seen_at reachable ns) in
      let scanned = inventory_summary (reconcile_inventory py inside current seen_at reachable) in
      (result.online ≡ tally is_online outside + scanned.online)
      × (result.offline ≡ tally is_offline outside + scanned.offline)
      × (result.devices ≡ length outside + scanned.devices)
unfolding inventory_summary is_offline
summary-targeted py previous current seen_at reachable ns outside inside apart within = (
  rw⁻¹ (apart, within)
      (tally-rescan is_online py previous current seen_at reachable ns online-annotate),
  rw⁻¹ (apart, within)
      (tally-rescan is_offline py previous current seen_at reachable ns offline-annotate),
  rw⁻¹ (apart, within)
      (omega (
        arith,
        tally-rescan (λ _. true) py previous current seen_at reachable ns (λ m o d. refl),
        length-tally (rescan py previous current seen_at reachable ns),
        length-tally (keep (λ d. not (is_targeted py ns current d)) previous),
        length-tally (
            reconcile_inventory py (keep (is_targeted py ns current) previous) current seen_at
              reachable),
      )),
)

-- After a rescan of some subnets the summary counts every device outside of the scan as it was,
-- beside what the scan found: outside is a device whose address lies in no scanned network and none
-- of whose stable keys was observed. Online are the observed ones and those inside, unmatched, whose
-- address answered, offline the others inside that are unmatched.
pub summary-rescan :
    (py : Python) (previous current : List Device) (seen_at : Value) (reachable : List String)
    (ns : List (ℕ × ℕ))
    → let result = inventory_summary (rescan py previous current seen_at reachable ns) in
      let outside = keep (is_outside py ns current) previous in
      let inside = keep (λ d. not (is_outside py ns current d)) previous in
      let matched = (match_all py inside current seen_at 0 [] current).1 in
      (result.online
        ≡ tally is_online outside
          + (length current + count_unmatched (is_reachable py reachable) matched 0 inside))
      × (result.offline
          ≡ tally is_offline outside
            + count_unmatched (λ d. not (is_reachable py reachable d)) matched 0 inside)
      × (result.devices
          ≡ length outside
            + (length current
                + count_unmatched (is_reachable py reachable) matched 0 inside
                + count_unmatched (λ d. not (is_reachable py reachable d)) matched 0 inside))
summary-rescan py previous current seen_at reachable ns =
    let outside = keep (is_outside py ns current) previous in
    let inside = keep (λ d. not (is_outside py ns current d)) previous in
    let parts =
      summary-targeted py previous current seen_at reachable ns outside inside
        (keep-same _ _ (targeted-outside py ns current) previous)
        (keep-same _ _ (λ d. ground (arith, targeted-outside py ns current d)) previous) in
    let counts = summary-reconcile py inside current seen_at reachable in
    (
      omega (arith, parts.0, counts.0),
      omega (arith, parts.1, counts.1),
      omega (arith, parts.2, counts.0, counts.1, counts.2),
    )
