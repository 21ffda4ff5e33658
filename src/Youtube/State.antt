-- ===== src/Youtube/State.antt =====
-- tellyq/youtube_state.py: `interpret_player_state`. A field has the type that tellyq/models.py declares
-- for it, and is `none` where it is absent or null.
use tellyq.Prelude.{
  ℕ, ℤ, String, Bool, Option, none, some, ◌==◌, ◌!=◌, nat_eq, string_eq, option_eq, ◌&&◌, ◌||◌, not,
  leb, is_true, if◌then◌else◌,
}
use tellyq.Values.{ContentPhase, ProviderEvidence}

abbrev pub youtube_application_id : String
youtube_application_id = "233637DE"

abbrev pub youtube_state_source : String
youtube_state_source = "youtube.remote.4fd832e7:status.customData.playerState"

-- The fields of `Observation` that are read.
pub record Observation : Type 0 where
  pub wire_status_count : Option ℕ
  pub custom_player_state_shape : Option String
  pub custom_player_state : Option ℤ
  pub player_state : Option String
  pub idle_reason : Option String
  pub wire_break_status : Option String
  pub ad_break : Option Bool

abbrev pub evidence_for : ContentPhase → ProviderEvidence
evidence_for phase = record { source = youtube_state_source; phase = phase }

unfoldable pub is_uncorrelated : Observation → Option String → Bool
is_uncorrelated event application_id =
    application_id != some youtube_application_id
    || event.wire_status_count != some 1
    || event.custom_player_state_shape != some "valid"

-- `code in range(1080, 1086)`
abbrev pub is_ad_code : ℕ → Bool
is_ad_code code = leb 1080 code && leb code 1085

-- The standard telemetry and the phase that the code goes with.
unfoldable pub expected_of_code : ℕ → Option (String × ContentPhase)
expected_of_code code =
    if code == 0
    then some ("IDLE", ContentPhase.finished)
    else if code == 1
    then some ("PLAYING", ContentPhase.playing)
    else if code == 2
    then some ("PAUSED", ContentPhase.paused)
    else if code == 3
    then some ("BUFFERING", ContentPhase.buffering)
    else none

unfoldable pub is_consistent : Observation → ℕ → String → Bool
is_consistent event code expected =
    event.player_state == some expected
    && event.idle_reason == (if code == 0 then some "FINISHED" else none)
    && event.wire_break_status == some "absent"
    && not (is_true event.ad_break)

abbrev pub expected_phase : Observation → ℕ → Option (String × ContentPhase) → ContentPhase
expected_phase event code none = ContentPhase.unknown
expected_phase event code (some (expected, phase)) =
    if is_consistent event code expected then phase else ContentPhase.unknown

abbrev pub phase_of_code : Observation → Option ℤ → ContentPhase
phase_of_code event none = ContentPhase.unknown
phase_of_code event (some (ℤ.negsuc n)) = ContentPhase.unknown
phase_of_code event (some (ℤ.pos code)) =
    if is_ad_code code then ContentPhase.ad else expected_phase event code (expected_of_code code)

unfoldable pub interpret_player_state : Observation → Option String → ProviderEvidence
interpret_player_state event application_id =
    if is_uncorrelated event application_id
    then evidence_for ContentPhase.unknown
    else evidence_for (phase_of_code event event.custom_player_state)
