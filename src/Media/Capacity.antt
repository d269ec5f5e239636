-- ===== src/Media/Capacity.antt =====
-- How much work runs beside the health loop (camadmiral/media.py).
use reefy_camadmiral.Prelude.{
  ℕ, zero, suc, ◌+◌, ◌-◌, ◌≤◌, ◌≡◌, refl, min, String, str_eq, eq_iff, true, ◌||◌, List, [], ◌∷◌,
  length, arith,
}
use reefy_camadmiral.Prelude.Dict.{Dict, get, pop, has, get-put, length-put, length-pop}
use reefy_camadmiral.Repository.{ready}
use reefy_camadmiral.Media.Sampling.{
  ManagedSource, Clock, Pending, Snapshot, not_done, busy, broken, taken, Samples, measured,
  unavailable, note, collect_one, collect, due_sources, take, start_all, Pool, capacity, dispatch,
  by_stream, preferred_streams, sample_periodic_sources,
}

pending-note :
    (preferred : Dict String) (now : Clock) (uid : String) (p : Pending) (answer : Snapshot)
    (s : Samples)
    → (note preferred now uid p answer s).pending ≡ s.pending
unfolding note
pending-note preferred now uid p not_done s = refl
pending-note preferred now uid p busy s = refl
pending-note preferred now uid p broken s = refl
pending-note preferred now uid p (taken content) s = refl

length-take : (n : ℕ) (due : List ManagedSource) → length (take n due) ≤ n
unfolding take
length-take zero due = omega arith
length-take (suc n) [] = omega arith
length-take (suc n) (s ∷ due) = omega (arith, length-take n due)

module _ (current : Dict ManagedSource) (preferred : Dict String) (now : Clock) where
  pending-collect_one :
      (uid : String) (p : Pending) (answer : Snapshot) (s : Samples)
      → length (collect_one current preferred now uid p answer s).pending ≤ length s.pending
  unfolding collect_one
  pending-collect_one uid p answer s = ground (
    arith,
    length-pop s.pending uid,
    pending-note preferred now uid p answer (record s { pending = pop s.pending uid }),
  )

  pending-collect :
      (answers : String → Snapshot) (items : Dict Pending) (s : Samples)
      → length (collect current preferred now answers items s).pending ≤ length s.pending
  unfolding collect
  pending-collect answers [] s = omega arith
  pending-collect answers ((uid, p) ∷ items) s = omega (
    arith,
    pending-collect answers items (collect_one current preferred now uid p (answers uid) s),
    pending-collect_one uid p (answers uid) s,
  )

pending-start_all :
    (now : ℕ) (due : List ManagedSource) (s : Samples)
    → length (start_all now due s).pending ≤ length due + length s.pending
unfolding start_all
pending-start_all now [] s = omega arith
pending-start_all now (source ∷ due) s = omega (
  arith,
  pending-start_all now due _,
  length-put s.pending source.stream_uuid (record { source = source; started = now }),
)

pending-dispatch :
    (pool : Pool) (now : ℕ) (current : Dict ManagedSource) (s : Samples)
    → length s.pending ≤ capacity pool.probe_workers
    → length (dispatch pool now current s).pending ≤ capacity pool.probe_workers
unfolding dispatch
pending-dispatch pool now current s h = omega (
  arith,
  h,
  pending-start_all now
      (take (min pool.frame_probe_batch_size (capacity pool.probe_workers - length s.pending))
        (due_sources pool.frame_probe_interval now s current))
      s,
  length-take (min pool.frame_probe_batch_size (capacity pool.probe_workers - length s.pending))
      (due_sources pool.frame_probe_interval now s current),
)

-- Sampling never has more snapshots in work than there are workers for, if it had no more before:
-- none is queued without bound, whatever the sources are and however slow the cameras.
pub sampling_bounded :
    (pool : Pool) (sources preferred_sources : List ManagedSource) (now : Clock)
    (early late : String → Snapshot) (s : Samples)
    → length s.pending ≤ capacity pool.probe_workers
    → length (sample_periodic_sources pool sources preferred_sources now early late s).pending
      ≤ capacity pool.probe_workers
unfolding sample_periodic_sources
sampling_bounded pool sources preferred_sources now early late s h =
    let current = by_stream sources [] in
    let preferred = preferred_streams preferred_sources [] in
    let collected = collect current preferred now early s.pending (record s { results = [] }) in
    let started = dispatch pool now.monotonic current collected in
    omega (
      arith,
      pending-collect current preferred now late started.pending started,
      pending-dispatch pool now.monotonic current collected (
          omega (
            arith,
            h,
            pending-collect current preferred now early s.pending (record s { results = [] }),
          )),
    )

results-note :
    (preferred : Dict String) (now : Clock) (uid other : String) (p : Pending) (answer : Snapshot)
    (s : Samples)
    → has (note preferred now uid p answer s).results other ≡ true
    → (str_eq uid other || has s.results other) ≡ true
unfolding note
results-note preferred now uid other p not_done s h = ground (arith, h)
results-note preferred now uid other p busy s h = ground (arith, h)
results-note preferred now uid other p broken s h =
    ground
      (arith, h, get-put s.results uid other (measured unavailable (now.monotonic - p.started)))
results-note preferred now uid other p (taken content) s h =
    ground (arith, h, get-put s.results uid other (measured ready (now.monotonic - p.started)))

module _ (current : Dict ManagedSource) (preferred : Dict String) (now : Clock)
    (other : String) where
  results-collect_one :
      (uid : String) (p : Pending) (answer : Snapshot) (s : Samples)
      → has (collect_one current preferred now uid p answer s).results other ≡ true
      → (has current other || has s.results other) ≡ true
  unfolding collect_one
  results-collect_one uid p answer s h = ground (
    arith,
    h,
    eq_iff uid other,
    results-note preferred now uid other p answer (record s { pending = pop s.pending uid }),
  )

  results-collect :
      (answers : String → Snapshot) (items : Dict Pending) (s : Samples)
      → has (collect current preferred now answers items s).results other ≡ true
      → (has current other || has s.results other) ≡ true
  unfolding collect
  results-collect answers [] s h = ground (arith, h)
  results-collect answers ((uid, p) ∷ items) s h = ground (
    arith,
    results-collect answers items (collect_one current preferred now uid p (answers uid) s) h,
    results-collect_one uid p (answers uid) s,
  )

results-start_all :
    (now : ℕ) (due : List ManagedSource) (s : Samples) → (start_all now due s).results ≡ s.results
unfolding start_all
results-start_all now [] s = refl
results-start_all now (source ∷ due) s = results-start_all now due _

-- Sampling reports on a stream only if the stream is one of the sources.
pub sampled-current :
    (pool : Pool) (sources preferred_sources : List ManagedSource) (now : Clock)
    (early late : String → Snapshot) (s : Samples) (uid : String)
    → has (sample_periodic_sources pool sources preferred_sources now early late s).results uid
      ≡ true
    → has (by_stream sources []) uid ≡ true
unfolding sample_periodic_sources dispatch get
sampled-current pool sources preferred_sources now early late s uid h =
    let current = by_stream sources [] in
    let preferred = preferred_streams preferred_sources [] in
    let collected = collect current preferred now early s.pending (record s { results = [] }) in
    let started = dispatch pool now.monotonic current collected in
    ground (
      arith,
      results-collect current preferred now uid late started.pending started h,
      results-start_all now.monotonic
          (take
            (min pool.frame_probe_batch_size
              (capacity pool.probe_workers - length collected.pending))
            (due_sources pool.frame_probe_interval now.monotonic collected current))
          collected,
      results-collect current preferred now uid early s.pending (record s { results = [] }),
    )
