-- ===== src/Media/Authentication.antt =====
-- `_retry_authentication` of RelayHealthMonitor in camadmiral/media.py. What the repository answers
-- to a claim, and whether a future is done, is an argument; what is recorded is returned.
use reefy_camadmiral.Prelude.{
  ℕ, ◌-◌, ◌≤◌, String, Bool, false, ◌||◌, Option, none, some, List, [], ◌∷◌, ◌++◌, keep, length,
  ltb, leb, if◌then◌else◌, arith,
}
use reefy_camadmiral.Prelude.Dict.{Dict, get, put, pop, has, length-put, length-pop}
use reefy_camadmiral.Repository.{ProbeResult, ready}
use reefy_camadmiral.Media.Sampling.{
  ManagedSource, Clock, Pending, same_source, by_stream, measured, capacity,
}

-- What a future has: nothing yet, an exception, or a validated stream.
pub data Validation : Type 0 where
  waiting refused accepted : Validation

pub record Retries : Type 0 where
  pub pending_auth : Dict Pending  -- by camera
  pub sources : Dict ManagedSource
  pub recorded : List (String × ProbeResult)
  pub claimed : List String

abbrev is_unchanged : Option ManagedSource → ManagedSource → Bool
is_unchanged none b = false
is_unchanged (some a) b = same_source a b

unfoldable pub validated : ℕ → Pending → Retries → Retries
validated now p r = record r {
  recorded = r.recorded ++ (p.source.stream_uuid, measured ready (now - p.started)) ∷ [];
  sources = pop r.sources p.source.stream_uuid;
}

unfoldable pub finish : ℕ → String → Pending → Validation → Retries → Retries
finish now camera p waiting r = r
finish now camera p refused r = record r { pending_auth = pop r.pending_auth camera }
finish now camera p accepted r =
    let removed = record r { pending_auth = pop r.pending_auth camera } in
    if is_unchanged (get r.sources p.source.stream_uuid) p.source
    then validated now p removed
    else removed

unfoldable pub finish_all : ℕ → (String → Validation) → Dict Pending → Retries → Retries
finish_all now answers [] r = r
finish_all now answers ((camera, p) ∷ items) r =
    finish_all now answers items (finish now camera p (answers camera) r)

-- `schedule[uid]`, of a stream that is in the schedule
abbrev time_of : Dict ℕ → ManagedSource → ℕ
time_of schedule s = elim (get schedule s.stream_uuid) [ none ↦ 0 | some at ↦ at ]

unfoldable pub insert_by_time : Dict ℕ → ManagedSource → List ManagedSource → List ManagedSource
insert_by_time schedule s [] = s ∷ []
insert_by_time schedule s (r ∷ due) =
    let rest = insert_by_time schedule s due in
    if leb (time_of schedule s) (time_of schedule r) then s ∷ r ∷ due else r ∷ rest

-- `sorted(sources, key=lambda uid: schedule[uid])`
unfoldable pub by_time : Dict ℕ → Dict ManagedSource → List ManagedSource
by_time schedule [] = []
by_time schedule ((uid, s) ∷ sources) = insert_by_time schedule s (by_time schedule sources)

abbrev start : ℕ → ManagedSource → Retries → Retries
start now s r = record r {
  claimed = r.claimed ++ s.stream_uuid ∷ [];
  pending_auth = put r.pending_auth s.camera_uuid (record { source = s; started = now });
}

-- The loop that claims retries and starts them, with `break` where the pool is full.
unfoldable pub start_due :
    ℕ → Clock → Dict ℕ → (String → Bool) → List ManagedSource → Retries → Retries
start_due workers now schedule claims [] r = r
start_due workers now schedule claims (s ∷ due) r =
    let skipped = start_due workers now schedule claims due r in
    let started = start_due workers now schedule claims due (start now.monotonic s r) in
    if leb (capacity workers) (length r.pending_auth)
    then r
    else if has r.pending_auth s.camera_uuid || ltb now.wall (time_of schedule s)
    then skipped
    else if claims s.stream_uuid
    then started
    else skipped

unfoldable pub retry_authentication :
    ℕ
    → Clock
    → Dict ℕ
    → List ManagedSource
    → (String → Validation)
    → (String → Bool)
    → Dict Pending
    → Retries
retry_authentication workers now schedule sources answers claims pending_auth =
    let scheduled = by_stream (keep (λ s. has schedule s.stream_uuid) sources) [] in
    let finished =
      finish_all now.monotonic answers pending_auth
        record { pending_auth = pending_auth; sources = scheduled; recorded = []; claimed = [] } in
    start_due workers now schedule claims (by_time schedule finished.sources) finished

length-finish :
    (now : ℕ) (camera : String) (p : Pending) (answer : Validation) (r : Retries)
    → length (finish now camera p answer r).pending_auth ≤ length r.pending_auth
unfolding finish validated
length-finish now camera p waiting r = omega arith
length-finish now camera p refused r = omega (arith, length-pop r.pending_auth camera)
length-finish now camera p accepted r = ground (arith, length-pop r.pending_auth camera)

length-finish_all :
    (now : ℕ) (answers : String → Validation) (items : Dict Pending) (r : Retries)
    → length (finish_all now answers items r).pending_auth ≤ length r.pending_auth
unfolding finish_all
length-finish_all now answers [] r = omega arith
length-finish_all now answers ((camera, p) ∷ items) r = omega (
  arith,
  length-finish_all now answers items (finish now camera p (answers camera) r),
  length-finish now camera p (answers camera) r,
)

length-start_due :
    (workers : ℕ) (now : Clock) (schedule : Dict ℕ) (claims : String → Bool)
    (due : List ManagedSource) (r : Retries)
    → length r.pending_auth ≤ capacity workers
    → length (start_due workers now schedule claims due r).pending_auth ≤ capacity workers
unfolding start_due
length-start_due workers now schedule claims [] r h = h
length-start_due workers now schedule claims (s ∷ due) r h = ground (
  arith,
  h,
  length-start_due workers now schedule claims due r h,
  length-start_due workers now schedule claims due (start now.monotonic s r),
  length-put r.pending_auth s.camera_uuid (record { source = s; started = now.monotonic }),
)

-- Never are more validations of credentials in work than there are workers for, if there were no
-- more before.
pub retries_bounded :
    (workers : ℕ) (now : Clock) (schedule : Dict ℕ) (sources : List ManagedSource)
    (answers : String → Validation) (claims : String → Bool) (pending_auth : Dict Pending)
    → length pending_auth ≤ capacity workers
    → length
        (retry_authentication workers now schedule sources answers claims pending_auth).pending_auth
      ≤ capacity workers
unfolding retry_authentication
retries_bounded workers now schedule sources answers claims pending_auth h =
    length-start_due workers now schedule claims _ _
      (omega (arith, h, length-finish_all now.monotonic answers pending_auth _))
