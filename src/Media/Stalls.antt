-- ===== src/Media/Stalls.antt =====
-- When a camera counts as stalled (camadmiral/media.py).
use reefy_camadmiral.Prelude.{
  ℕ, ◌+◌, ◌≡◌, refl, String, Bool, true, false, not, ◌&&◌, ◌||◌, Option, none, some, ltb, List, [],
  ◌∷◌, any, All, leb, str_eq, eq_iff, arith, Bool-cases, inl, inr, if◌then◌else◌,
}
use reefy_camadmiral.Prelude.Dict.{Dict, get, get-put}
use reefy_camadmiral.Json.{Value, Fields, get_field}
use reefy_camadmiral.Media.{has_external_consumers, active_video_sample}
use reefy_camadmiral.Media.Activity.{
  Sample, ActivityMonitor, RuntimeSource, Round, member, insert, reset, current_sample, is_viewed,
  next_sample, advance, visit, visit_all, poll,
}

-- No two sources are of one stream.
unfoldable pub AreDistinct : List RuntimeSource → Type 0
AreDistinct [] = Unit
AreDistinct (s ∷ sources) =
    All (λ r. str_eq s.stream_uuid r.stream_uuid ≡ false) sources × AreDistinct sources

member-insert :
    (c s : String) (set : List String) → member c (insert s set) ≡ (member c set || str_eq s c)
member-insert c s set = elim (Bool-cases (member s set)) [
  | inl e ↦ rw e (same set e)
  | inr e ↦ rw e (swap (str_eq s c) (member c set))
]
  where
    same : (xs : List String) → member s xs ≡ true → member c xs ≡ (member c xs || str_eq s c)
    same [] h = cc
    same (x ∷ xs) h = ground (arith, eq_iff x s, eq_iff s c, eq_iff x c, same xs)

    swap : (a b : Bool) → (a || b) ≡ (b || a)
    swap a b = ground arith

-- Video that was not seen before: the first of a stream, more packets than before, or packets of
-- another producer.
abbrev pub is_news : Option Sample → Option (String × ℕ) → Bool
is_news previous none = false
is_news none (some video) = true
is_news (some before) (some (producer, packets)) =
    ltb before.packets packets || (ltb 0 packets && not (str_eq before.producer producer))

-- A stream that was never polled counts as new.
abbrev since : ℕ → Option Sample → ℕ
since now none = now
since now (some before) = before.last_advanced_at

unfoldable pub last_news : ℕ → Option Sample → Option (String × ℕ) → ℕ
last_news now previous video = if is_news previous video then now else since now previous

advance-news :
    (now : ℕ) (video : Option (String × ℕ)) (previous : Option Sample)
    → (next_sample now video previous).last_advanced_at ≡ last_news now previous video
unfolding next_sample advance last_news
advance-news now none none = refl
advance-news now none (some before) = refl
advance-news now (some video) none = refl
advance-news now (some (producer, packets)) (some before) = ground arith

module _ (show : Value → String) (threshold now : ℕ) (runtime : Fields) where
  current_sample-news :
      (s : RuntimeSource) (previous : Option Sample)
      → (current_sample show threshold now runtime s previous).last_advanced_at
        ≡ last_news now previous (active_video_sample show (get_field runtime s.stream_key))
  unfolding current_sample
  current_sample-news s previous =
      advance-news now (active_video_sample show (get_field runtime s.stream_key)) previous

  -- A stream that somebody watches brings nothing new, and brought something the last time at
  -- least the threshold ago.
  unfoldable pub is_stalled : Dict Sample → RuntimeSource → Bool
  is_stalled samples s =
      has_external_consumers (get_field runtime s.stream_key)
      && leb
          (last_news now (get samples s.stream_uuid)
              (active_video_sample show (get_field runtime s.stream_key))
            + threshold)
          now

  unfoldable pub has_stalled : Dict Sample → List RuntimeSource → String → Bool
  has_stalled samples sources c = any (λ s. str_eq s.camera_uuid c && is_stalled samples s) sources

  visit-stalled :
      (c : String) (s : RuntimeSource) (round : Round)
      → member c (visit show threshold now runtime s round).stalled
        ≡ (member c round.stalled || (str_eq s.camera_uuid c && is_stalled round.samples s))
  unfolding visit is_stalled is_viewed
  visit-stalled c s round =
      elim (Bool-cases (has_external_consumers (get_field runtime s.stream_key))) [
        | inl e ↦
            (let sample =
                current_sample show threshold now runtime s (get round.samples s.stream_uuid) in
              rw (e, ← current_sample-news s (get round.samples s.stream_uuid))
                (late (leb (sample.last_advanced_at + threshold) now)))
        | inr e ↦ rw e (ground arith)
      ]
    where
      late :
          (b : Bool)
          → member c (if b then insert s.camera_uuid round.stalled else round.stalled)
            ≡ (member c round.stalled || (str_eq s.camera_uuid c && b))
      late true = ground (arith, member-insert c s.camera_uuid round.stalled)
      late false = ground arith

  visit-samples :
      (s r : RuntimeSource) (round : Round)
      → str_eq s.stream_uuid r.stream_uuid ≡ false
      → get (visit show threshold now runtime s round).samples r.stream_uuid
        ≡ get round.samples r.stream_uuid
  unfolding visit
  visit-samples s r round h = elim (Bool-cases (is_viewed show threshold now runtime s)) [
    | inl e ↦ rw e (rw (get-put, h) refl)
    | inr e ↦ (rw e refl)
  ]

  has_stalled-visit :
      (c : String) (s : RuntimeSource) (round : Round) (sources : List RuntimeSource)
      → All (λ r. str_eq s.stream_uuid r.stream_uuid ≡ false) sources
      → has_stalled (visit show threshold now runtime s round).samples sources c
        ≡ has_stalled round.samples sources c
  unfolding has_stalled is_stalled
  has_stalled-visit c s round [] h = refl
  has_stalled-visit c s round (r ∷ sources) h =
      rw (visit-samples s r round h.0, has_stalled-visit c s round sources h.1) refl

  visit_all-stalled :
      (c : String) (sources : List RuntimeSource) (round : Round)
      → AreDistinct sources
      → member c (visit_all show threshold now runtime sources round).stalled
        ≡ (member c round.stalled || has_stalled round.samples sources c)
  unfolding visit_all has_stalled AreDistinct
  visit_all-stalled c [] round h = ground arith
  visit_all-stalled c (s ∷ sources) round h = ground (
    arith,
    visit_all-stalled c sources (visit show threshold now runtime s round) h.1,
    has_stalled-visit c s round sources h.0,
    visit-stalled c s round,
  )

-- What a poll reports is what it stores, and a camera is in it exactly if somebody watches a
-- stream of the camera whose last news, by this poll or the samples of those before, are at least
-- the threshold ago: no packets of video were added and no other producer brought any. The sources
-- are of distinct streams, and go2rtc answers with an object.
pub poll-stalled :
    (show : Value → String) (monitor : ActivityMonitor) (sources : List RuntimeSource)
    (runtime : Fields) (now : ℕ) (c : String)
    → AreDistinct sources
    → ((poll show monitor sources (some runtime) now).0
        ≡ some (poll show monitor sources (some runtime) now).1.stalled_camera_uuids)
      × (member c (poll show monitor sources (some runtime) now).1.stalled_camera_uuids
          ≡ has_stalled show monitor.stall_threshold now runtime monitor.samples sources c)
unfolding poll reset has_stalled
poll-stalled show monitor [] runtime now c h = (refl, refl)
poll-stalled show monitor (s ∷ sources) runtime now c h =
    (refl, visit_all-stalled show monitor.stall_threshold now runtime c (s ∷ sources) _ h)
