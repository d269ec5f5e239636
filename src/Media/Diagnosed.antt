-- ===== src/Media/Diagnosed.antt =====
-- Which streams a cycle diagnoses (camadmiral/media.py, `probe`).
use reefy_camadmiral.Prelude.{
  ℕ, ◌≡◌, refl, String, Bool, true, false, not, Option, none, some, List, [], ◌∷◌, str_eq, eq_iff,
  ◌==◌, Bool-cases, inl, inr, arith,
}
use reefy_camadmiral.Prelude.Dict.{Dict, get, put, has, get-put}
use reefy_camadmiral.Repository.{ProbeResult}
use reefy_camadmiral.Media.Sampling.{ManagedSource, by_stream}
use reefy_camadmiral.Media.Probing.{
  Failures, count_failure, count_result, count_all, failure_of, is_auth_failed, auth_failures,
  is_unavailable,
}
use reefy_camadmiral.Media.Keys.{IsKeyed}

-- No source of a diagnostic is of the stream.
unfoldable pub Spares : String → Dict ManagedSource → Type 0
Spares uid [] = Unit
Spares uid ((camera, s) ∷ d) = (str_eq s.stream_uuid uid ≡ false) × Spares uid d

put-Spares :
    (uid : String) (d : Dict ManagedSource) (camera : String) (s : ManagedSource)
    → Spares uid d
    → str_eq s.stream_uuid uid ≡ false
    → Spares uid (put d camera s)
unfolding Spares put
put-Spares uid [] camera s h e = (e, tt)
put-Spares uid ((k, r) ∷ d) camera s h e = elim (Bool-cases (str_eq k camera)) [
  | inl q ↦ rw q (e, h.1)
  | inr q ↦ rw q (h.0, put-Spares uid d camera s h.1 e)
]

abbrev is_named : Option ManagedSource → String → Bool
is_named none uid = true
is_named (some s) uid = str_eq s.stream_uuid uid

pub by_stream-named :
    (sources : List ManagedSource) (known : Dict ManagedSource)
    → ((uid : String) → is_named (get known uid) uid ≡ true)
    → (uid : String) → is_named (get (by_stream sources known) uid) uid ≡ true
unfolding by_stream
by_stream-named [] known h uid = h uid
by_stream-named (s ∷ sources) known h uid =
    by_stream-named sources (put known s.stream_uuid s) step uid
  where
    step : (k : String) → is_named (get (put known s.stream_uuid s) k) k ≡ true
    step k = elim (Bool-cases (str_eq s.stream_uuid k)) [
      | inl e ↦ rw (get-put, e) e
      | inr e ↦ rw (get-put, e) (h k)
    ]

abbrev pub spared : Option ProbeResult → Bool
spared none = true
spared (some result) = not (is_unavailable result.result_status)

count_result-Spares :
    (uid k : String) (s : ManagedSource) (result : ProbeResult) (f : Failures)
    → str_eq s.stream_uuid k ≡ true
    → (str_eq k uid ≡ true → is_unavailable result.result_status ≡ false)
    → Spares uid f.diagnostic_sources
    → Spares uid (count_result k s result f).diagnostic_sources
unfolding count_result count_failure
count_result-Spares uid k s result f e g h =
    elim (Bool-cases (is_unavailable result.result_status)) [
      | inl q ↦ rw q (counted q _)
      | inr q ↦ rw q h
    ]
  where
    apart : is_unavailable result.result_status ≡ true → str_eq s.stream_uuid uid ≡ false
    apart q =
        ground (arith, e, g, q, eq_iff s.stream_uuid k, eq_iff s.stream_uuid uid, eq_iff k uid)

    counted :
        is_unavailable result.result_status ≡ true
        → (n : ℕ) → Spares uid (count_failure k s n f).diagnostic_sources
    counted q n = elim (Bool-cases (n == 2)) [
      | inl t ↦ (elim (Bool-cases (has f.diagnostic_sources s.camera_uuid)) [
        | inl w ↦ rw (t, w) h
        | inr w ↦ rw (t, w) (put-Spares uid f.diagnostic_sources s.camera_uuid s h (apart q))
      ])
      | inr t ↦ rw t h
    ]

-- A stream whose result is not a failure gets no diagnostic.
pub count_all-Spares :
    (sources : Dict ManagedSource) (results : Dict ProbeResult) (f g : Failures) (uid : String)
    → ((k : String) → is_named (get sources k) k ≡ true)
    → IsKeyed results
    → spared (get results uid) ≡ true
    → Spares uid f.diagnostic_sources
    → count_all sources results f ≡ some g
    → Spares uid g.diagnostic_sources
unfolding count_all IsKeyed get
count_all-Spares sources [] f g uid named keyed e h c = same c
  where
    same : some f ≡ some g → Spares uid g.diagnostic_sources
    same c = let q : f ≡ g = cc in rw q at h
count_all-Spares sources ((k, result) ∷ results) f g uid named keyed e h c =
    go (λ n s. count_all-Spares sources results n g uid named keyed.1 later s) (get sources k)
      (named k) c
  where
    later : spared (get results uid) ≡ true
    later = elim (Bool-cases (str_eq k uid)) [
      | inl q ↦ absent (get results uid) (rw ((eq_iff k uid).0 q) at keyed.0)
      | inr q ↦ rw q at e
    ]
      where
        absent :
            (o : Option ProbeResult)
            → elim o [ none ↦ false | some x ↦ true ] ≡ false
            → spared o ≡ true
        absent none a = refl
        absent (some x) a = ground (arith, a)

    go :
        ((n : Failures)
          → Spares uid n.diagnostic_sources
          → count_all sources results n ≡ some g
          → Spares uid g.diagnostic_sources)
        → (o : Option ManagedSource) → is_named o k ≡ true
        → elim o [
          | none ↦ none
          | some source ↦ count_all sources results (count_result k source result f)
        ]
          ≡ some g
        → Spares uid g.diagnostic_sources
    go rest none n c = cc
    go rest (some s) n c =
        rest (count_result k s result f) (count_result-Spares uid k s result f n own h) c
      where
        own : str_eq k uid ≡ true → is_unavailable result.result_status ≡ false
        own q = let d = rw q at e in ground (arith, d)

pub auth_failures-absent :
    (diagnose : ManagedSource → Option ProbeResult) (diagnosed : Dict ManagedSource)
    (failures : Dict ProbeResult) (uid : String)
    → Spares uid diagnosed
    → has failures uid ≡ false
    → has (auth_failures diagnose diagnosed failures) uid ≡ false
unfolding auth_failures Spares
auth_failures-absent diagnose [] failures uid h a = a
auth_failures-absent diagnose ((camera, s) ∷ diagnosed) failures uid h a =
    auth_failures-absent diagnose diagnosed _ uid h.1 (still (diagnose s))
  where
    still : (o : Option ProbeResult) → has (failure_of s.stream_uuid o failures) uid ≡ false
    still none = a
    still (some diagnostic) = elim (Bool-cases (is_auth_failed diagnostic.result_status)) [
      | inl q ↦ rw q (ground (arith, a, h.0, get-put failures s.stream_uuid uid diagnostic))
      | inr q ↦ rw q a
    ]
