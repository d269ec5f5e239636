-- ===== src/Repository/Outbox/Delivery.antt =====
-- What is delivered, when, and how often (camadmiral/storage.py).
use native.Mathlib.Nat.{one-le-pow}
use reefy_camadmiral.Prelude.{
  refl, ℕ, zero, suc, ◌+◌, ◌-◌, ◌≤◌, ◌≡◌, min, max, String, Bool, true, false, ◌&&◌, ◌<◌, tally,
  Option, none, some, List, [], ◌∷◌, arith, keep, All, length, leb, inl, inr, Bool-cases,
}
use reefy_camadmiral.Repository.{failed, OutboxItem, Database}
use reefy_camadmiral.Repository.Outbox.{
  is_due, insert_by_created, order_by_created, take, due_notifications, delay, refuse,
}

All-keep {κ} :
    (P : OutboxItem → Type κ) (test : OutboxItem → Bool) (xs : List OutboxItem)
    → ((x : OutboxItem) → test x ≡ true → P x)
    → All P (keep test xs)
All-keep P test [] h = tt
All-keep P test (x ∷ xs) h = elim (Bool-cases (test x)) [
  | inl kept ↦ rw kept (h x kept, All-keep P test xs h)
  | inr gone ↦ rw gone (All-keep P test xs h)
]

All-insert {κ} :
    (P : OutboxItem → Type κ) (i : OutboxItem) (xs : List OutboxItem)
    → P i
    → All P xs
    → All P (insert_by_created i xs)
unfolding insert_by_created
All-insert P i [] p a = (p, tt)
All-insert P i (x ∷ xs) p a = elim (Bool-cases (leb i.created_at x.created_at)) [
  | inl first ↦ rw first (p, a)
  | inr after ↦ rw after (a.0, All-insert P i xs p a.1)
]

All-order {κ} :
    (P : OutboxItem → Type κ) (xs : List OutboxItem) → All P xs → All P (order_by_created xs)
unfolding order_by_created
All-order P [] a = tt
All-order P (x ∷ xs) a = All-insert P x (order_by_created xs) a.0 (All-order P xs a.1)

All-take {κ} :
    (P : OutboxItem → Type κ) (n : ℕ) (xs : List OutboxItem) → All P xs → All P (take n xs)
All-take P zero xs a = tt
All-take P (suc n) [] a = tt
All-take P (suc n) (x ∷ xs) a = (a.0, All-take P n xs a.1)

-- The oldest first.
abbrev pub IsOrdered : List OutboxItem → Type 0
IsOrdered [] = Unit
IsOrdered (x ∷ xs) = All (λ y. x.created_at ≤ y.created_at) xs × IsOrdered xs

All-le_trans :
    (a b : ℕ) (xs : List OutboxItem)
    → a ≤ b
    → All (λ y. b ≤ y.created_at) xs
    → All (λ y. a ≤ y.created_at) xs
All-le_trans a b [] h x = tt
All-le_trans a b (y ∷ xs) h x = (omega arith, All-le_trans a b xs h x.1)

insert-IsOrdered :
    (i : OutboxItem) (xs : List OutboxItem) → IsOrdered xs → IsOrdered (insert_by_created i xs)
unfolding insert_by_created
insert-IsOrdered i [] o = (tt, tt)
insert-IsOrdered i (x ∷ xs) o = elim (Bool-cases (leb i.created_at x.created_at)) [
  | inl first ↦
      rw first ((ground arith, All-le_trans i.created_at x.created_at xs (ground arith) o.0), o)
  | inr after ↦ rw after (
    All-insert (λ y. x.created_at ≤ y.created_at) i xs (ground arith) o.0,
    insert-IsOrdered i xs o.1,
  )
]

order-IsOrdered : (xs : List OutboxItem) → IsOrdered (order_by_created xs)
unfolding order_by_created
order-IsOrdered [] = tt
order-IsOrdered (x ∷ xs) = insert-IsOrdered x (order_by_created xs) (order-IsOrdered xs)

take-IsOrdered : (n : ℕ) (xs : List OutboxItem) → IsOrdered xs → IsOrdered (take n xs)
take-IsOrdered zero xs o = tt
take-IsOrdered (suc n) [] o = tt
take-IsOrdered (suc n) (x ∷ xs) o =
    (All-take (λ y. x.created_at ≤ y.created_at) n xs o.0, take-IsOrdered n xs o.1)

module _ (test : OutboxItem → Bool) where
  tally-insert :
      (i : OutboxItem) (xs : List OutboxItem)
      → tally test (insert_by_created i xs) ≡ tally test (i ∷ xs)
  unfolding insert_by_created
  tally-insert i [] = refl
  tally-insert i (x ∷ xs) = ground (arith, tally-insert i xs)

  tally-order : (xs : List OutboxItem) → tally test (order_by_created xs) ≡ tally test xs
  unfolding order_by_created
  tally-order [] = refl
  tally-order (x ∷ xs) = omega (arith, tally-insert x (order_by_created xs), tally-order xs)

  tally-keep :
      (kept : OutboxItem → Bool) (xs : List OutboxItem)
      → tally test (keep kept xs) ≡ tally (λ x. kept x && test x) xs
  tally-keep kept [] = refl
  tally-keep kept (x ∷ xs) = ground (arith, tally-keep kept xs)

  tally-both :
      (kept : OutboxItem → Bool) (xs : List OutboxItem)
      → tally (λ x. kept x && test x) xs ≤ tally test xs
  tally-both kept [] = omega arith
  tally-both kept (x ∷ xs) = ground (arith, tally-both kept xs)

  tally-take : (n : ℕ) (xs : List OutboxItem) → tally test (take n xs) ≤ tally test xs
  tally-take zero xs = omega arith
  tally-take (suc n) [] = omega arith
  tally-take (suc n) (x ∷ xs) = omega (arith, tally-take n xs)

-- Of the items that were queued until a time.
abbrev pub is_until : ℕ → OutboxItem → Bool
is_until b item = leb item.created_at b

none_until :
    (b : ℕ) (xs : List OutboxItem) (a : ℕ)
    → b < a
    → All (λ y. a ≤ y.created_at) xs
    → tally (is_until b) xs ≡ 0
none_until b [] a h k = refl
none_until b (x ∷ xs) a h k = ground (arith, h, k.0, none_until b xs a h k.1)

take-oldest :
    (b n : ℕ) (xs : List OutboxItem)
    → IsOrdered xs
    → tally (is_until b) (take n xs) ≡ min n (tally (is_until b) xs)
take-oldest b zero xs o = omega arith
take-oldest b (suc n) [] o = omega arith
take-oldest b (suc n) (x ∷ xs) o = elim (Bool-cases (leb x.created_at b)) [
  | inl e ↦ rw e (omega (arith, take-oldest b n xs o.1))
  | inr e ↦ rw e (
      omega
        (arith, tally-take (is_until b) n xs, none_until b xs x.created_at (ground (arith, e)) o.0))
]

-- What is fetched for delivery is in the outbox, waiting and due, the oldest first, and nothing
-- older is left out: whatever time one looks back to, as many of the items that were queued until
-- then are fetched as are due, up to the limit, which is at least 1 and at most 100.
pub due_notifications_lem :
    (db : Database) (limit now : ℕ) (test : OutboxItem → Bool) (until : ℕ)
    → All (λ item. is_due now item ≡ true) (due_notifications db limit now)
      × IsOrdered (due_notifications db limit now)
      × (tally test (due_notifications db limit now) ≤ tally test db.outbox)
      × (tally (is_until until) (due_notifications db limit now)
          ≡ min
              (max 1 (min 100 limit))
              (tally (λ item. is_due now item && is_until until item) db.outbox))
unfolding due_notifications
due_notifications_lem db limit now test until =
    let due : List OutboxItem = keep (is_due now) db.outbox in
    (
      All-take _ _ _ (
          All-order (λ item. is_due now item ≡ true) due
            (All-keep _ (is_due now) db.outbox (λ x h. h))),
      take-IsOrdered _ _ (order-IsOrdered due),
      omega (
        arith,
        tally-take test (max 1 (min 100 limit)) (order_by_created due),
        tally-order test due,
        tally-keep test (is_due now) db.outbox,
        tally-both test (is_due now) db.outbox,
      ),
      omega (
        arith,
        take-oldest until (max 1 (min 100 limit)) (order_by_created due) (order-IsOrdered due),
        tally-order (is_until until) due,
        tally-keep (is_until until) (is_due now) db.outbox,
      ),
    )

delay-pos : (retry_after : Option ℕ) (attempts : ℕ) → 1 ≤ delay retry_after attempts
unfolding delay
delay-pos none attempts = omega (arith, one-le-pow (attempts - 1) 2 (omega arith))
delay-pos (some zero) attempts = omega (arith, one-le-pow (attempts - 1) 2 (omega arith))
delay-pos (some (suc n)) attempts = omega arith

-- The failures of one item, in order, each with the wait that was asked for and its time.
pub refuse_all : List (String × Option ℕ × ℕ) → OutboxItem → OutboxItem
refuse_all [] item = item
refuse_all ((code, retry_after, now) ∷ rest) item =
    refuse_all rest (refuse code retry_after now item)

attempts-refuse_all :
    (failures : List (String × Option ℕ × ℕ)) (item : OutboxItem)
    → (refuse_all failures item).attempt_count ≡ length failures + item.attempt_count
unfolding refuse_all refuse
attempts-refuse_all [] item = omega arith
attempts-refuse_all ((code, retry_after, now) ∷ rest) item =
    omega (arith, attempts-refuse_all rest (refuse code retry_after now item))

refuse-last :
    (code : String) (retry_after : Option ℕ) (now : ℕ) (item : OutboxItem)
    → 7 ≤ item.attempt_count
    → (refuse code retry_after now item).status ≡ failed
unfolding refuse
refuse-last code retry_after now item h = ground arith

-- A failed delivery is not tried again in the same second, and the eighth failure is the last:
-- from then on the notification is never due.
pub eighth_failure_ends :
    (item : OutboxItem) (seven : List (String × Option ℕ × ℕ)) (code : String)
    (retry_after : Option ℕ) (now later : ℕ)
    → length seven ≡ 7
    → (is_due now (refuse code retry_after now item) ≡ false)
      × (is_due later (refuse code retry_after now (refuse_all seven item)) ≡ false)
eighth_failure_ends item seven code retry_after now later h = (
  not_yet,
  rw (
      refuse-last code retry_after now (refuse_all seven item)
        (omega (arith, attempts-refuse_all seven item))),
)
  where
    not_yet : is_due now (refuse code retry_after now item) ≡ false
    not_yet = unfold refuse in ground (arith, delay-pos retry_after (item.attempt_count + 1))
