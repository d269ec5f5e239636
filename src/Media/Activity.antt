-- ===== src/Media/Activity.antt =====
-- `RelayRuntimeActivityMonitor` of camadmiral/media.py. Times are milliseconds.
use reefy_camadmiral.Prelude.{
  ℕ, ◌+◌, String, Bool, not, ◌&&◌, ◌||◌, Option, none, some, List, [], ◌∷◌, any, ltb, leb, str_eq,
  if◌then◌else◌,
}
use reefy_camadmiral.Prelude.Dict.{Dict, get, put}
use reefy_camadmiral.Json.{Value, Fields, get_field}
use reefy_camadmiral.Media.{has_external_consumers, active_video_sample}

-- `(producer_id, packets, last_advanced_at)`
pub record Sample : Type 0 where
  pub producer : String
  pub packets : ℕ
  pub last_advanced_at : ℕ

pub record ActivityMonitor : Type 0 where
  pub stall_threshold : ℕ
  pub samples : Dict Sample
  pub stalled_camera_uuids : List String

-- What `managed_stream_runtime_sources` gives of a stream.
pub record RuntimeSource : Type 0 where
  pub stream_uuid : String
  pub camera_uuid : String
  pub stream_key : String

unfoldable pub reset : ActivityMonitor → ActivityMonitor
reset monitor = record monitor { samples = []; stalled_camera_uuids = [] }

-- `current` given `previous`: the time of the last advance
unfoldable pub advance : ℕ → Option (String × ℕ) → Option Sample → ℕ
advance now none none = now
advance now none (some previous) = previous.last_advanced_at
advance now (some current) none = now
advance now (some (producer, packets)) (some previous) =
    if ltb previous.packets packets || (not (str_eq previous.producer producer) && ltb 0 packets)
    then now
    else previous.last_advanced_at

-- `producer_id, packets`
abbrev counted : Option (String × ℕ) → Option Sample → String × ℕ
counted (some current) previous = current
counted none (some previous) = (previous.producer, previous.packets)
counted none none = ("", 0)

unfoldable pub next_sample : ℕ → Option (String × ℕ) → Option Sample → Sample
next_sample now current previous = record {
  producer = (counted current previous).0;
  packets = (counted current previous).1;
  last_advanced_at = advance now current previous;
}

-- A set, as the list of what was added.
abbrev pub member : String → List String → Bool
member s set = any (λ r. str_eq r s) set

abbrev pub insert : String → List String → List String
insert s set = if member s set then set else s ∷ set

-- The three collections that the loop changes.
pub record Round : Type 0 where
  pub samples : Dict Sample
  pub active : List String
  pub stalled : List String

module _ (show : Value → String) (threshold now : ℕ) (runtime : Fields) where
  unfoldable pub current_sample : RuntimeSource → Option Sample → Sample
  current_sample source previous =
      next_sample now (active_video_sample show (get_field runtime source.stream_key)) previous

  unfoldable pub is_viewed : RuntimeSource → Bool
  is_viewed source = has_external_consumers (get_field runtime source.stream_key)

  unfoldable pub visit : RuntimeSource → Round → Round
  visit source round =
      let sample = current_sample source (get round.samples source.stream_uuid) in
      if is_viewed source
      then record {
        samples = put round.samples source.stream_uuid sample;
        active = insert source.stream_uuid round.active;
        stalled =
            if leb (sample.last_advanced_at + threshold) now
            then insert source.camera_uuid round.stalled
            else round.stalled;
      }
      else round

  unfoldable pub visit_all : List RuntimeSource → Round → Round
  visit_all [] round = round
  visit_all (source ∷ sources) round = visit_all sources (visit source round)

-- `for stream_uuid in set(self._samples) - active_stream_uuids: self._samples.pop(…)`
unfoldable pub forget : List String → Dict Sample → Dict Sample
forget active [] = []
forget active ((k, sample) ∷ samples) =
    let rest = forget active samples in if member k active then (k, sample) ∷ rest else rest

-- `poll`, given the sources, what go2rtc answers (`none` where that is no object) and the clock;
-- `none` is the RuntimeError.
unfoldable pub poll :
    (Value → String)
    → ActivityMonitor
    → List RuntimeSource
    → Option Fields
    → ℕ
    → Option (List String) × ActivityMonitor
poll show monitor [] answer now = (some [], reset monitor)
poll show monitor (source ∷ sources) none now = (none, monitor)
poll show monitor (source ∷ sources) (some runtime) now =
    let round =
      visit_all show monitor.stall_threshold now runtime (source ∷ sources)
        record { samples = monitor.samples; active = []; stalled = [] } in
    (
      some round.stalled,
      record monitor {
        samples = forget round.active round.samples;
        stalled_camera_uuids = round.stalled;
      },
    )
