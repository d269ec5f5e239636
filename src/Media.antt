-- ===== src/Media.antt =====
-- camadmiral/media.py: what go2rtc reports of a stream, and the cache of frames. The runtime state
-- is a JSON document in which a receiver's `packets` is an integer that is not negative, and
-- `consumers`, `producers` and `receivers` are arrays where they are given.
pub mod Activity
pub mod Bounds
pub mod Stalls
pub mod Sampling
pub mod Capacity
pub mod Authentication
pub mod Probing
pub mod Keys
pub mod Known
pub mod Diagnosed
pub mod Verdicts
pub mod Watched
mod Tests
use reefy_camadmiral.Prelude.{
  ℕ, zero, suc, ◌+◌, String, Bool, true, false, not, ◌||◌, Option, none, some, List, [], ◌∷◌,
  length, ltb, str_eq, if◌then◌else◌,
}
use reefy_camadmiral.Prelude.Dict.{Dict, get, put, pop}
use reefy_camadmiral.Json.{
  Value, null, flag, number, text, array, object, Fields, no_fields, field, Elements, empty, first,
  get_field, truthy,
}

abbrev snapshot_user_agent : String
snapshot_user_agent = "CamAdmiral-Snapshot"

-- `x or []`, of an array or of what is false
abbrev elements : Option Value → Elements
elements (some (array vs)) = vs
elements _ = empty

abbrev is_text : Option Value → String → Bool
is_text (some (text s)) word = str_eq s word
is_text _ word = false

abbrev is_external : Value → Bool
is_external (object consumer) = not (is_text (get_field consumer "user_agent") snapshot_user_agent)
is_external _ = true

abbrev any_external : Elements → Bool
any_external empty = false
any_external (first consumer rest) = is_external consumer || any_external rest

unfoldable pub has_external_consumers : Option Value → Bool
has_external_consumers (some (object stream)) =
    any_external (elements (get_field stream "consumers"))
has_external_consumers _ = false

-- `int(v or 0)`
abbrev count : Option Value → ℕ
count (some (number n)) = n
count _ = 0

abbrev is_video : Option Value → Bool
is_video (some (object codec)) = is_text (get_field codec "codec_type") "video"
is_video _ = false

-- The loop over the receivers: `packets`, once `found_video` is set.
abbrev add_packets : Option ℕ → ℕ → Option ℕ
add_packets none n = some n
add_packets (some packets) n = some (packets + n)

unfoldable pub video_packets : Elements → Option ℕ → Option ℕ
video_packets empty packets = packets
video_packets (first (object receiver) rest) packets =
    let counted = video_packets rest (add_packets packets (count (get_field receiver "packets"))) in
    let skipped = video_packets rest packets in
    if is_video (get_field receiver "codec") then counted else skipped
video_packets (first _ rest) packets = video_packets rest packets

-- `str(producer.get("id") or "producer")`, with Python's `str` of a value that is no text
abbrev pub as_str : (Value → String) → Value → String
as_str show (text s) = s
as_str show v = show v

abbrev producer_id : (Value → String) → Option Value → String
producer_id show none = "producer"
producer_id show (some v) = if truthy v then as_str show v else "producer"

abbrev sample_or : String → Option ℕ → Option (String × ℕ) → Option (String × ℕ)
sample_or id none later = later
sample_or id (some packets) later = some (id, packets)

abbrev is_there : Option Value → Bool
is_there none = false
is_there (some _) = true

unfoldable pub first_sample : (Value → String) → Elements → Option (String × ℕ)
first_sample show empty = none
first_sample show (first (object producer) rest) =
    let later = first_sample show rest in
    if is_there (get_field producer "bytes_recv")
    then sample_or (producer_id show (get_field producer "id"))
        (video_packets (elements (get_field producer "receivers")) none) later
    else later
first_sample show (first _ rest) = first_sample show rest

unfoldable pub active_video_sample : (Value → String) → Option Value → Option (String × ℕ)
active_video_sample show (some (object stream)) =
    first_sample show (elements (get_field stream "producers"))
active_video_sample show _ = none

pub record CachedFrame : Type 0 where
  pub content : List ℕ
  pub captured_at : ℕ

-- The part of `RelayHealthMonitor` that `cache_frame` works on.
pub record FrameCache : Type 0 where
  pub thumbnail_cache_items : ℕ
  pub thumbnail_cache_max_bytes : ℕ
  pub frames : Dict CachedFrame

-- `sum(len(item.content) for item in self._frames.values())`
unfoldable pub total : Dict CachedFrame → ℕ
total [] = 0
total ((k, frame) ∷ frames) = length frame.content + total frames

-- `min(self._frames, key=captured_at)`: the first of the oldest, given one that is the oldest so far.
unfoldable pub oldest_from : String → ℕ → Dict CachedFrame → String
oldest_from k at [] = k
oldest_from k at ((j, frame) ∷ frames) =
    let newer = oldest_from k at frames in
    let older = oldest_from j frame.captured_at frames in
    if ltb frame.captured_at at then older else newer

abbrev pub remove_oldest : Dict CachedFrame → Dict CachedFrame
remove_oldest [] = []
remove_oldest ((k, frame) ∷ frames) =
    pop ((k, frame) ∷ frames) (oldest_from k frame.captured_at frames)

-- The `while` loop, on fuel: each round removes a frame.
unfoldable pub evict : ℕ → ℕ → ℕ → Dict CachedFrame → Dict CachedFrame
evict items bytes zero frames = frames
evict items bytes (suc fuel) frames =
    let rest = evict items bytes fuel (remove_oldest frames) in
    if ltb items (length frames) || ltb bytes (total frames) then rest else frames

unfoldable pub cache_frame : FrameCache → String → List ℕ → ℕ → CachedFrame × FrameCache
cache_frame cache camera_uuid content now =
    let frame : CachedFrame = record { content = content; captured_at = now } in
    let added = put cache.frames camera_uuid frame in
    if ltb cache.thumbnail_cache_max_bytes (length content)
    then (frame, record cache { frames = pop cache.frames camera_uuid })
    else (
      frame,
      record cache {
        frames =
            evict cache.thumbnail_cache_items cache.thumbnail_cache_max_bytes (length added) added;
      },
    )

unfoldable pub cached_frame : FrameCache → String → Option CachedFrame
cached_frame cache camera_uuid = get cache.frames camera_uuid
