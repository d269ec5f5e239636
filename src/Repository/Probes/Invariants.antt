-- ===== src/Repository/Probes/Invariants.antt =====
-- What recording probe results keeps, whatever the results (camadmiral/storage.py).
use reefy_camadmiral.Prelude.{
  ℕ, ◌≡◌, refl, ◌∙◌, Bool, true, false, not, ◌||◌, Option, none, some, List, [], ◌∷◌, ◌++◌, arith,
  any, keep, ◌==◌, if◌then◌else◌, inl, inr, Bool-cases, ==_iff,
}
use reefy_camadmiral.Repository.{
  ProbeStatus, ready, idle, refused, failing, ProbeResult, Stream, AuthRetry, Database,
}
use reefy_camadmiral.Repository.Incidents.{record_camera_health_transition}
use reefy_camadmiral.Repository.Incidents.Single.{IsSingle, transition-IsSingle}
use reefy_camadmiral.Repository.Incidents.Pairing.{IsPaired, transition-IsPaired}
use reefy_camadmiral.Repository.Probes.{
  find_stream, add_camera, record_found, record_result, record_results, record_transitions,
  record_probe_results, enrol, is_retry_of,
}

record_result-keeps :
    (db : Database) (stream : ℕ) (r : ProbeResult) (now : ℕ)
    → ((record_result db stream r now).incidents ≡ db.incidents)
      × ((record_result db stream r now).outbox ≡ db.outbox)
unfolding record_result
record_result-keeps db stream r now = go (find_stream db stream)
  where
    go :
        (found : Option Stream)
        → ((record_found db stream r now found).incidents ≡ db.incidents)
          × ((record_found db stream r now found).outbox ≡ db.outbox)
    go none = (refl, refl)
    go (some _) = (refl, refl)

record_results-keeps :
    (db : Database) (results : List (ℕ × ProbeResult)) (now : ℕ) (cameras : List ℕ)
    → ((record_results db results now cameras).0.incidents ≡ db.incidents)
      × ((record_results db results now cameras).0.outbox ≡ db.outbox)
unfolding record_results
record_results-keeps db [] now cameras = (refl, refl)
record_results-keeps db ((stream, r) ∷ rest) now cameras =
    let (i, o) = record_result-keeps db stream r now in
    let (i', o') =
      record_results-keeps (record_result db stream r now) rest now
        (add_camera (find_stream db stream) cameras) in
    (i' ∙ i, o' ∙ o)

record_transitions-keeps :
    (db : Database) (cameras : List ℕ) (now : ℕ)
    → IsSingle db × IsPaired db.outbox
    → IsSingle (record_transitions db cameras now)
      × IsPaired (record_transitions db cameras now).outbox
unfolding record_transitions
record_transitions-keeps db [] now h = h
record_transitions-keeps db (camera ∷ cameras) now h =
    record_transitions-keeps (record_camera_health_transition db camera now) cameras now
      (transition-IsSingle db camera now h.0, transition-IsPaired db camera now h.1)

-- Whatever the probes of any streams say: every camera keeps at most one open incident of each
-- sort, and no notification that an incident is over stands without the one that it began.
pub record_probe_results-keeps :
    (db : Database) (results : List (ℕ × ProbeResult)) (now : ℕ)
    → IsSingle db
    → IsPaired db.outbox
    → IsSingle (record_probe_results db results now)
      × IsPaired (record_probe_results db results now).outbox
unfolding record_probe_results
record_probe_results-keeps db results now single paired =
    let (i, o) = record_results-keeps db results now [] in
    record_transitions-keeps (record_results db results now []).0
      (record_results db results now []).1 now
      (λ camera. rw i (single camera), λ incident. rw o (paired incident))

any-dropped :
    (stream j : ℕ) (retries : List AuthRetry)
    → any (is_retry_of j) (keep (λ r. not (is_retry_of stream r)) retries)
      ≡ (if stream == j then false else any (is_retry_of j) retries)
any-dropped stream j [] = ground arith
any-dropped stream j (r ∷ retries) = ground (arith, any-dropped stream j retries)

any-append :
    (j : ℕ) (retries : List AuthRetry) (r : AuthRetry)
    → any (is_retry_of j) (retries ++ r ∷ []) ≡ (any (is_retry_of j) retries || r.retry_stream == j)
any-append j [] r = ground arith
any-append j (x ∷ retries) r = ground (arith, any-append j retries r)

-- Which streams are enrolled for a retry after a probe: a refused one is, a ready one is not, and
-- nothing changes for another status or another stream.
abbrev pub enrolled_after : ProbeStatus → Bool → Bool
enrolled_after refused old = true
enrolled_after ready old = false
enrolled_after _ old = old

pub enrol-enrolled :
    (p : ProbeStatus) (stream j now : ℕ) (retries : List AuthRetry)
    → any (is_retry_of j) (enrol p stream now retries) ≡ (
        if stream == j
        then enrolled_after p (any (is_retry_of j) retries)
        else any (is_retry_of j) retries)
unfolding enrol
enrol-enrolled ready stream j now retries = any-dropped stream j retries ∙ ground arith
enrol-enrolled idle stream j now retries = ground arith
enrol-enrolled (failing t) stream j now retries = ground arith
enrol-enrolled refused stream j now retries = elim (Bool-cases (any (is_retry_of stream) retries)) [
  | inl old ↦ rw old (elim (Bool-cases (stream == j)) [
    | inl same ↦ let e : stream ≡ j = (==_iff stream j).0 same in rw (same, ← e, old)
    | inr other ↦ rw other
  ])
  | inr new ↦ rw new (any-append j retries _ ∙ ground arith)
]
