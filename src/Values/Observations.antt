-- ===== src/Values/Observations.antt =====
-- tellyq/domain/values.py: what an adapter reports of the receiver.
use tellyq.Prelude.{
  ℕ, String, Bool, Option, none, some, Result, Fault, ok, raise_if, ◌>>◌, Eq, ◌==◌, nat_eq,
  string_eq, bool_eq, option_eq, is_some, is_false, ◌&&◌, ◌||◌,
}
use tellyq.Values.Instants.{Instant, Datetime, datetime_eq, require_aware}
use tellyq.Values.Media.{ContentRef, PlaybackTarget, content_ref_eq, playback_target_eq}

pub data PlayerState : Type 0 where
  unknown idle buffering playing paused ended stopped : PlayerState

abbrev pub player_state_tag : PlayerState → ℕ
player_state_tag PlayerState.unknown = 0
player_state_tag PlayerState.idle = 1
player_state_tag PlayerState.buffering = 2
player_state_tag PlayerState.playing = 3
player_state_tag PlayerState.paused = 4
player_state_tag PlayerState.ended = 5
player_state_tag PlayerState.stopped = 6

instance abbrev pub player_state_eq : Eq PlayerState
player_state_eq = record { beq = λ a b. player_state_tag a == player_state_tag b }

pub data IdleReason : Type 0 where
  finished canceled error : IdleReason

abbrev pub idle_reason_tag : IdleReason → ℕ
idle_reason_tag IdleReason.finished = 0
idle_reason_tag IdleReason.canceled = 1
idle_reason_tag IdleReason.error = 2

instance abbrev pub idle_reason_eq : Eq IdleReason
idle_reason_eq = record { beq = λ a b. idle_reason_tag a == idle_reason_tag b }

pub data IdentityUpdate : Type 0 where
  unknown explicit omitted : IdentityUpdate

abbrev pub identity_update_tag : IdentityUpdate → ℕ
identity_update_tag IdentityUpdate.unknown = 0
identity_update_tag IdentityUpdate.explicit = 1
identity_update_tag IdentityUpdate.omitted = 2

instance abbrev pub identity_update_eq : Eq IdentityUpdate
identity_update_eq = record { beq = λ a b. identity_update_tag a == identity_update_tag b }

pub data ContentPhase : Type 0 where
  unknown playing paused buffering finished ad : ContentPhase

abbrev pub content_phase_tag : ContentPhase → ℕ
content_phase_tag ContentPhase.unknown = 0
content_phase_tag ContentPhase.playing = 1
content_phase_tag ContentPhase.paused = 2
content_phase_tag ContentPhase.buffering = 3
content_phase_tag ContentPhase.finished = 4
content_phase_tag ContentPhase.ad = 5

instance abbrev pub content_phase_eq : Eq ContentPhase
content_phase_eq = record { beq = λ a b. content_phase_tag a == content_phase_tag b }

pub record ProviderEvidence : Type 0 where
  pub source : String
  pub phase : ContentPhase

instance abbrev pub provider_evidence_eq : Eq ProviderEvidence
provider_evidence_eq = record { beq = λ a b. a.source == b.source && a.phase == b.phase }

pub record PlaybackObservation : Type 0 where
  pub target : PlaybackTarget
  pub connection_generation : String
  pub sequence : ℕ
  pub observed_at : Datetime
  pub monotonic : Instant
  pub session_id : Option String
  pub content : Option ContentRef
  pub state : PlayerState
  pub position : Option Instant
  pub duration : Option Instant
  pub ad_active : Option Bool
  pub idle_reason : Option IdleReason
  pub source : String
  pub application_id : Option String
  pub playback_id : Option String
  pub session_active : Option Bool
  pub connection_reset : Bool
  pub pause_supported : Option Bool
  pub identity_update : IdentityUpdate
  pub provider_evidence : Option ProviderEvidence

-- The generated `==` of the dataclass: every field, by that field's own equality.
unfoldable pub observation_beq : PlaybackObservation → PlaybackObservation → Bool
observation_beq a b =
    a.target == b.target
    && a.connection_generation == b.connection_generation
    && a.sequence == b.sequence
    && a.observed_at == b.observed_at
    && a.monotonic == b.monotonic
    && a.session_id == b.session_id
    && a.content == b.content
    && a.state == b.state
    && a.position == b.position
    && a.duration == b.duration
    && a.ad_active == b.ad_active
    && a.idle_reason == b.idle_reason
    && a.source == b.source
    && a.application_id == b.application_id
    && a.playback_id == b.playback_id
    && a.session_active == b.session_active
    && a.connection_reset == b.connection_reset
    && a.pause_supported == b.pause_supported
    && a.identity_update == b.identity_update
    && a.provider_evidence == b.provider_evidence

instance abbrev pub playback_observation_eq : Eq PlaybackObservation
playback_observation_eq = record { beq = observation_beq }

abbrev check_provider : Option ProviderEvidence → Result (Unit {0})
check_provider none = ok tt
check_provider (some e) = raise_if (e.source == "") Fault.value_error

-- `__post_init__` of the observation and of the provider evidence that it carries.
abbrev pub check_observation : PlaybackObservation → Result PlaybackObservation
check_observation o = do
  check_provider o.provider_evidence
  require_aware o.observed_at
  raise_if (o.connection_generation == "" || o.source == "") Fault.value_error
  raise_if
      (is_false o.session_active
        && (is_some o.session_id || is_some o.application_id || is_some o.content))
      Fault.value_error
  raise_if (o.state == PlayerState.ended || o.state == PlayerState.stopped) Fault.value_error
  ok o
