-- ===== src/Media/Sampling.antt =====
-- `_sample_periodic_sources` of RelayHealthMonitor in camadmiral/media.py: the snapshots that run
-- beside the health loop. Times are milliseconds, and no time passes within a call. Whether a future
-- is done, and with what, is an argument.
use reefy_camadmiral.Prelude.{
  ℕ, zero, suc, ◌+◌, ◌-◌, min, max, String, Bool, true, false, not, ◌&&◌, ◌||◌, Option, none, some,
  List, [], ◌∷◌, any, keep, length, str_eq, leb, if◌then◌else◌,
}
use reefy_camadmiral.Prelude.Dict.{Dict, get, put, pop, has}
use reefy_camadmiral.Repository.{ProbeResult, ProbeStatus, ready, failing}
use reefy_camadmiral.Media.{FrameCache, cache_frame}

-- A row of `managed_stream_sources`.
pub record ManagedSource : Type 0 where
  pub stream_uuid : String
  pub camera_uuid : String
  pub stream_key : String
  pub uri : String
  pub username : String
  pub password : String
  pub credential_uuid : String

unfoldable pub same_source : ManagedSource → ManagedSource → Bool
same_source a b =
    str_eq a.stream_uuid b.stream_uuid
    && (str_eq a.camera_uuid b.camera_uuid
        && (str_eq a.stream_key b.stream_key
            && (str_eq a.uri b.uri
                && (str_eq a.username b.username
                    && (str_eq a.password b.password
                        && str_eq a.credential_uuid b.credential_uuid)))))

-- `time.time()` and `time.monotonic()`
pub record Clock : Type 0 where
  pub wall : ℕ
  pub monotonic : ℕ

-- What a worker was given, and when.
pub record Pending : Type 0 where
  pub source : ManagedSource
  pub started : ℕ

-- What a future has: nothing yet, a frame, SnapshotBusyError, or another exception.
pub data Snapshot : Type 0 where
  not_done busy broken : Snapshot
  taken : List ℕ → Snapshot

-- The collections of the monitor that sampling changes, and `results`.
pub record Samples : Type 0 where
  pub pending : Dict Pending
  pub retries : List String
  pub attempts : Dict ℕ
  pub cache : FrameCache
  pub results : Dict ProbeResult

abbrev pub measured : ProbeStatus → ℕ → ProbeResult
measured status latency = record {
  result_status = status;
  latency_ms = latency;
  video = none;
  audio = none;
  width = 0;
  height = 0;
  fps = 0;
}

abbrev pub unavailable : ProbeStatus
unavailable = failing "unavailable"

abbrev pub is_in : String → List String → Bool
is_in uid set = any (λ u. str_eq u uid) set

abbrev pub discard : String → List String → List String
discard uid set = keep (λ u. not (str_eq u uid)) set

abbrev pub add : String → List String → List String
add uid set = if is_in uid set then set else uid ∷ set

-- `{source["stream_uuid"]: source for source in sources}`
unfoldable pub by_stream : List ManagedSource → Dict ManagedSource → Dict ManagedSource
by_stream [] sources = sources
by_stream (s ∷ rest) sources = by_stream rest (put sources s.stream_uuid s)

-- `{source["camera_uuid"]: source["stream_uuid"] for source in preferred_sources}`
unfoldable pub preferred_streams : List ManagedSource → Dict String → Dict String
preferred_streams [] preferred = preferred
preferred_streams (s ∷ rest) preferred =
    preferred_streams rest (put preferred s.camera_uuid s.stream_uuid)

abbrev is_same : Option ManagedSource → ManagedSource → Bool
is_same none b = false
is_same (some a) b = same_source a b

abbrev is_preferred : Dict String → ManagedSource → String → Bool
is_preferred preferred s uid = elim (get preferred s.camera_uuid) [
  | none ↦ true
  | some stream ↦ str_eq stream uid
]

-- What a done future of a current source leads to.
unfoldable pub note : Dict String → Clock → String → Pending → Snapshot → Samples → Samples
note preferred now uid p not_done s = s
note preferred now uid p busy s = record s { retries = add uid s.retries }
note preferred now uid p broken s = record s {
  retries = add uid s.retries;
  results = put s.results uid (measured unavailable (now.monotonic - p.started));
}
note preferred now uid p (taken content) s = record s {
  cache =
      if is_preferred preferred p.source uid
      then (cache_frame s.cache p.source.camera_uuid content now.wall).1
      else s.cache;
  retries = discard uid s.retries;
  results = put s.results uid (measured ready (now.monotonic - p.started));
}

abbrev pub is_done : Snapshot → Bool
is_done not_done = false
is_done _ = true

unfoldable pub collect_one :
    Dict ManagedSource → Dict String → Clock → String → Pending → Snapshot → Samples → Samples
collect_one current preferred now uid p answer s =
    let removed = record s { pending = pop s.pending uid } in
    if is_done answer
    then if is_same (get current uid) p.source
      then note preferred now uid p answer removed
      else removed
    else s

-- The loop over a copy of the items.
unfoldable pub collect :
    Dict ManagedSource
    → Dict String
    → Clock
    → (String → Snapshot)
    → Dict Pending
    → Samples
    → Samples
collect current preferred now answers [] s = s
collect current preferred now answers ((uid, p) ∷ items) s =
    collect current preferred now answers items
      (collect_one current preferred now uid p (answers uid) s)

unfoldable pub is_due : ℕ → ℕ → Samples → String → Bool
is_due interval now s uid =
    not (has s.pending uid)
    && (not (has s.results uid) && (elim (get s.attempts uid) [
      | none ↦ true
      | some previous ↦ is_in uid s.retries || leb (previous + interval) now
    ]))

-- The streams that were never attempted first, then those whose attempt is oldest.
unfoldable pub before : Dict ℕ → ManagedSource → ManagedSource → Bool
before attempts a b = elim (get attempts a.stream_uuid) [
  | none ↦ true
  | some at ↦ elim (get attempts b.stream_uuid) [ none ↦ false | some other ↦ leb at other ]
]

unfoldable pub insert_due : Dict ℕ → ManagedSource → List ManagedSource → List ManagedSource
insert_due attempts s [] = s ∷ []
insert_due attempts s (r ∷ due) =
    let rest = insert_due attempts s due in if before attempts s r then s ∷ r ∷ due else r ∷ rest

unfoldable pub due_sources : ℕ → ℕ → Samples → Dict ManagedSource → List ManagedSource
due_sources interval now s [] = []
due_sources interval now s ((uid, source) ∷ current) =
    let rest = due_sources interval now s current in
    if is_due interval now s uid then insert_due s.attempts source rest else rest

-- `due[:n]`
unfoldable pub take : ℕ → List ManagedSource → List ManagedSource
take zero due = []
take (suc n) [] = []
take (suc n) (s ∷ due) = s ∷ take n due

unfoldable pub start_all : ℕ → List ManagedSource → Samples → Samples
start_all now [] s = s
start_all now (source ∷ due) s = start_all now due (record s {
  attempts = put s.attempts source.stream_uuid now;
  retries = discard source.stream_uuid s.retries;
  pending = put s.pending source.stream_uuid (record { source = source; started = now });
})

-- `max(1, min(PROBE_WORKERS, 4))`
abbrev pub capacity : ℕ → ℕ
capacity workers = max 1 (min workers 4)

pub record Pool : Type 0 where
  pub frame_probe_interval : ℕ
  pub frame_probe_batch_size : ℕ
  pub probe_workers : ℕ

unfoldable pub dispatch : Pool → ℕ → Dict ManagedSource → Samples → Samples
dispatch pool now current s =
    start_all now
      (take (min pool.frame_probe_batch_size (capacity pool.probe_workers - length s.pending))
        (due_sources pool.frame_probe_interval now s current))
      s

-- What the futures have at the first and at the second `collect()`.
unfoldable pub sample_periodic_sources :
    Pool
    → List ManagedSource
    → List ManagedSource
    → Clock
    → (String → Snapshot)
    → (String → Snapshot)
    → Samples
    → Samples
sample_periodic_sources pool sources preferred_sources now early late s =
    let current = by_stream sources [] in
    let preferred = preferred_streams preferred_sources [] in
    let collected = collect current preferred now early s.pending (record s { results = [] }) in
    let started = dispatch pool now.monotonic current collected in
    collect current preferred now late started.pending started
