-- ===== src/Media/Bounds.antt =====
-- The bounds of the cache of frames (camadmiral/media.py).
use text.Mathlib.TextPositions.{eq_refl}
use reefy_camadmiral.Prelude.{
  ℕ, zero, suc, ◌≤◌, ◌≡◌, refl, inl, inr, String, true, ◌||◌, List, [], ◌∷◌, length, ltb, str_eq,
  arith, Bool-cases,
}
use reefy_camadmiral.Prelude.Dict.{length-pop, Dict, get, put, pop, has}
use reefy_camadmiral.Media.{
  CachedFrame, FrameCache, total, oldest_from, remove_oldest, evict, cache_frame,
}

length-pop_there :
    (d : Dict CachedFrame) (k : String) → has d k ≡ true → suc (length (pop d k)) ≤ length d
unfolding pop get
length-pop_there [] k h = cc
length-pop_there ((j, v) ∷ d) k h = elim (Bool-cases (str_eq j k)) [
  | inl e ↦ rw e (omega (arith, length-pop d k))
  | inr e ↦ rw e (omega (arith, length-pop_there d k (rw (e, has) at h)))
]

total-pop : (d : Dict CachedFrame) (k : String) → total (pop d k) ≤ total d
unfolding pop total
total-pop [] k = omega arith
total-pop ((j, v) ∷ d) k = ground (arith, total-pop d k)

oldest_from-has :
    (k : String) (at : ℕ) (frames : Dict CachedFrame)
    → (str_eq k (oldest_from k at frames) || has frames (oldest_from k at frames)) ≡ true
unfolding oldest_from get
oldest_from-has k at [] = rw eq_refl refl
oldest_from-has k at ((j, frame) ∷ frames) = elim (Bool-cases (ltb frame.captured_at at)) [
  | inl e ↦ rw e (ground (arith, oldest_from-has j frame.captured_at frames))
  | inr e ↦ rw e (ground (arith, oldest_from-has k at frames))
]

remove_oldest-shorter :
    (k : String) (frame : CachedFrame) (frames : Dict CachedFrame)
    → length (remove_oldest ((k, frame) ∷ frames)) ≤ length frames
unfolding get
remove_oldest-shorter k frame frames = omega (
  arith,
  length-pop_there ((k, frame) ∷ frames) (oldest_from k frame.captured_at frames)
      (ground (arith, oldest_from-has k frame.captured_at frames)),
)

-- Within the bounds of the cache.
unfoldable pub IsBounded : ℕ → ℕ → Dict CachedFrame → Type 0
IsBounded items bytes frames = (length frames ≤ items) × (total frames ≤ bytes)

evict-IsBounded :
    (items bytes fuel : ℕ) (frames : Dict CachedFrame)
    → length frames ≤ fuel
    → IsBounded items bytes (evict items bytes fuel frames)
unfolding IsBounded evict total
evict-IsBounded items bytes zero [] h = (omega arith, omega arith)
evict-IsBounded items bytes zero (f ∷ frames) h = absurd (omega arith)
evict-IsBounded items bytes (suc fuel) [] h = ground arith
evict-IsBounded items bytes (suc fuel) ((k, frame) ∷ frames) h = ground (
  arith,
  evict-IsBounded items bytes fuel (remove_oldest ((k, frame) ∷ frames))
      (omega (arith, remove_oldest-shorter k frame frames)),
)

-- Caching a frame keeps the cache within its bounds on the number of frames and on their bytes.
pub cache_frame-IsBounded :
    (cache : FrameCache) (camera_uuid : String) (content : List ℕ) (now : ℕ)
    → IsBounded cache.thumbnail_cache_items cache.thumbnail_cache_max_bytes cache.frames
    → IsBounded cache.thumbnail_cache_items cache.thumbnail_cache_max_bytes
        (cache_frame cache camera_uuid content now).1.frames
unfolding cache_frame IsBounded
cache_frame-IsBounded cache camera_uuid content now h =
    elim (Bool-cases (ltb cache.thumbnail_cache_max_bytes (length content))) [
      | inl e ↦ rw e (
        omega (arith, length-pop cache.frames camera_uuid, h.0),
        omega (arith, total-pop cache.frames camera_uuid, h.1),
      )
      | inr e ↦ rw e (
          evict-IsBounded cache.thumbnail_cache_items cache.thumbnail_cache_max_bytes
            (length
              (put cache.frames camera_uuid (record { content = content; captured_at = now })))
            (put cache.frames camera_uuid (record { content = content; captured_at = now }))
            (omega arith))
    ]
