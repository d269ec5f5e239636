-- ===== src/Recovery/Validation.antt =====
-- `_validated_updates` of camadmiral/recovery.py: the sources of a camera at its new address, if
-- every one of them plays.
use Prim.Native.String.{◌++◌ as ◌<>◌}
use reefy_camadmiral.Prelude.{
  ◌⊎◌, inl, inr, String, Bool, true, false, not, ◌&&◌, ◌||◌, Option, none, some, List, [], ◌∷◌, any,
  all, keep, str_eq, if◌then◌else◌,
}
use reefy_camadmiral.Prelude.Dict.{Dict, get, put, has}
use reefy_camadmiral.Effects.{Outcome, raised, returned}
use reefy_camadmiral.Repository.{ProbeResult, ProbeStatus, ready, idle, refused, failing}
use reefy_camadmiral.Recovery.{AdoptedStream, Urls, source_host}

-- What the validation asks of the network: the inspection of the candidate with ONVIF, as its
-- profiles (token and URI) or the code of its error, the probe of a source, and the order in
-- which the probes complete.
pub record Network : Type 0 where
  pub inspect : Option (String × String) → List (String × String) ⊎ String
  pub probe_source : String → String → String → Outcome ProbeResult
  pub as_completed : Dict String → Dict String

pub record Validation : Type 0 where
  pub updates : Dict String
  pub status : String
  pub results : Dict ProbeResult

abbrev refuse : String → Validation
refuse status = record { updates = []; status = status; results = [] }

abbrev pub is_ready : ProbeStatus → Bool
is_ready ready = true
is_ready _ = false

abbrev status_text : ProbeStatus → String
status_text ready = "ready"
status_text idle = "idle"
status_text refused = "auth_failed"
status_text (failing word) = word

-- `_replace_host`
unfoldable pub replace_host : Urls → (String → Bool) → String → String → String
replace_host urls has_colon uri address =
    let host = if has_colon address then "[" <> address <> "]" else address in
    urls.with_netloc uri (elim (urls.port uri) [ none ↦ host | some port ↦ host <> ":" <> port ])

-- `{str(token): str(uri) for profile in … if token and uri}`
unfoldable pub discovered : List (String × String) → Dict String → Dict String
discovered [] found = found
discovered ((token, uri) ∷ profiles) found =
    discovered profiles (if str_eq token "" || str_eq uri "" then found else put found token uri)

-- `{token: discovered[token] for token in tokens if token in discovered}`
unfoldable pub picked : Dict String → List AdoptedStream → Dict String → Dict String
picked found [] updates = updates
picked found (s ∷ streams) updates = picked found streams (elim (get found s.profile_token) [
  | none ↦ updates
  | some uri ↦ put updates s.profile_token uri
])

-- `{token: _replace_host(uri, address) for stream in streams if uri}`
unfoldable pub readdressed :
    Urls → (String → Bool) → String → List AdoptedStream → Dict String → Dict String
readdressed urls has_colon address [] updates = updates
readdressed urls has_colon address (s ∷ streams) updates =
    readdressed urls has_colon address streams (
      if str_eq s.uri ""
      then updates
      else put updates s.profile_token (replace_host urls has_colon s.uri address))

abbrev kind_of : AdoptedStream → String
kind_of s = elim s.source_kind [
  | none ↦ "onvif"
  | some kind ↦ if str_eq kind "" then "onvif" else kind
]

abbrev pub enabled_streams : List AdoptedStream → List AdoptedStream
enabled_streams streams = keep (λ s. s.enabled) streams

abbrev is_enabled_token : List AdoptedStream → String → Bool
is_enabled_token streams token = any (λ s. str_eq s.profile_token token) (enabled_streams streams)

-- The loop over the completed probes.
unfoldable pub probe_all :
    Network → String → String → Dict String → Dict String → Dict ProbeResult → Validation
probe_all network username password updates [] results = record {
  updates = updates;
  status = "ready";
  results = results;
}
probe_all network username password updates ((token, uri) ∷ pending) results =
    elim (network.probe_source uri username password) [
      | raised ↦ refuse "error"
      | returned result ↦
          let rest =
            probe_all network username password updates pending (put results token result) in
          if is_ready result.result_status then rest else refuse (status_text result.result_status)
    ]

abbrev pending_of : Network → List AdoptedStream → Dict String → Dict String
pending_of network streams updates =
    network.as_completed (keep (λ update. is_enabled_token streams update.0) updates)

unfoldable pub validate_updates :
    Network → String → String → List AdoptedStream → Dict String → Validation
validate_updates network username password streams updates =
    probe_all network username password updates (pending_of network streams updates) []

abbrev by_discovery :
    Urls → Network → String → String → String → List AdoptedStream → Dict String → Validation
by_discovery urls network username password address streams found =
    let updates = picked found streams [] in
    let probed = validate_updates network username password streams updates in
    if all (λ s. has found s.profile_token) (enabled_streams streams)
      && any (λ s. s.enabled) streams
    then if any (λ update. not (str_eq (source_host urls update.1) address)) updates
      then refuse "endpoint_mismatch"
      else probed
    else refuse "profiles_changed"

-- `username if username else None`, with the password only then
abbrev login : String → String → Option (String × String)
login username password = if str_eq username "" then none else some (username, password)

abbrev from_inspection :
    Urls
    → Network
    → String
    → String
    → String
    → List AdoptedStream
    → List (String × String) ⊎ String
    → Validation
from_inspection urls network username password address streams (inl profiles) =
    by_discovery urls network username password address streams (discovered profiles [])
from_inspection urls network username password address streams (inr code) = refuse code

unfoldable pub validated_updates :
    Urls → Network → (String → Bool) → String → List AdoptedStream → String → String → Validation
validated_updates urls network has_colon address streams username password =
    let onvif =
      from_inspection urls network username password address streams
        (network.inspect (login username password)) in
    let manual =
      validate_updates network username password streams
        (readdressed urls has_colon address streams []) in
    if not (all (λ s. not (str_eq (kind_of s) "onvif")) streams)
      && all (λ s. str_eq (kind_of s) "onvif") streams
    then onvif
    else if all (λ s. str_eq (kind_of s) "manual_rtsp" || str_eq (kind_of s) "catalog_rtsp") streams
    then manual
    else refuse "mixed_sources"
