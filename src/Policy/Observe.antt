-- ===== src/Policy/Observe.antt =====
-- tellyq/domain/policy.py: `observe`, from the freshness tests to the ownership tests.
use tellyq.Prelude.{
  ℕ, ◌+◌, ◌-◌, Bool, true, false, Option, none, some, Result, ok, ◌>>=◌, ◌==◌, ◌!=◌, string_eq,
  option_eq, ◌&&◌, ◌||◌, not, ltb, leb, is_some, is_true, is_false, if◌then◌else◌,
}
use tellyq.Values.{
  Instant, PlaybackObservation, PlayerState, player_state_eq, playback_target_eq, content_ref_eq,
  CommandAction, command_action_eq, CommandOutcome, command_outcome_eq, CommandReceipt,
  EvidenceReason, SessionSnapshot, EvidencePolicy,
}
use tellyq.Policy.Intents.{proof_of, refresh, lost}
use tellyq.Policy.Media.{observe_media}

-- The sample is out of scope, or not fresh.
unfoldable pub out_of_scope :
    SessionSnapshot → PlaybackObservation → Instant → EvidencePolicy → Bool
out_of_scope s o now policy =
    s.ownership_lost
    || o.target != s.scope.request.target
    || o.connection_generation != s.scope.connection_generation
    || leb o.monotonic s.scope.started_monotonic
    || not (leb o.monotonic now && leb (now - o.monotonic) policy.max_age_seconds)

-- `last is not None and value <= last`; a `last_sequence` of -1 is below every sequence.
abbrev pub reached : Option ℕ → ℕ → Bool
reached none value = false
reached (some last) value = leb value last

unfoldable pub repeated : SessionSnapshot → PlaybackObservation → Bool
repeated s o = reached s.last_sequence o.sequence || reached s.last_monotonic o.monotonic

-- `last_sequence >= 0 and sequence > last_sequence + 1`
abbrev pub skips : Option ℕ → ℕ → Bool
skips none sequence = false
skips (some last) sequence = ltb (last + 1) sequence

-- A gap in the sequence numbers ends the chain; then the sample is counted.
unfoldable pub count_sample : SessionSnapshot → PlaybackObservation → SessionSnapshot
count_sample s o =
    let s' =
      if skips s.last_sequence o.sequence
      then record s {
        progress_anchor = none;
        completion_anchor = none;
        has_confirmed_playback = false;
        release_boundary = none;
        release_confirmed = false;
      }
      else s in
    record s' { last_sequence = some o.sequence; last_monotonic = some o.monotonic }

unfoldable pub drop_release : SessionSnapshot → PlaybackObservation → SessionSnapshot
drop_release s o =
    if is_some s.release_boundary
      && (is_true o.ad_active || o.state == PlayerState.playing || o.state == PlayerState.paused)
    then record s { release_boundary = none; release_confirmed = false }
    else s

abbrev passed : Option Instant → Instant → Bool
passed none at = false
passed (some boundary) at = ltb boundary at

abbrev release_accepted : Option CommandReceipt → Bool
release_accepted none = false
release_accepted (some receipt) =
    receipt.action == CommandAction.release && receipt.outcome == CommandOutcome.accepted

-- `session_active is False`: our release or stop explains it, or the session is lost.
unfoldable pub observe_exit : SessionSnapshot → PlaybackObservation → SessionSnapshot
observe_exit s o =
    if passed s.release_boundary o.monotonic
      && is_some s.completion
      && not s.stop_requested
      && release_accepted s.receipt
    then record s {
      revision = s.revision + 1;
      latest = some o;
      state = PlayerState.ended;
      release_confirmed = true;
      evidence = proof_of false false true EvidenceReason.natural_completion;
    }
    else if s.stop_requested && passed s.stop_boundary o.monotonic
    then record s {
      revision = s.revision + 1;
      latest = some o;
      state = PlayerState.stopped;
      progress_anchor = none;
      completion_anchor = none;
      evidence = proof_of false false (is_some s.completion) EvidenceReason.stop_observed;
    }
    else lost s o

unfoldable pub foreign : SessionSnapshot → PlaybackObservation → Bool
foreign s o =
    (is_some o.application_id
      && is_some s.scope.application_id
      && o.application_id != s.scope.application_id)
    || (is_some o.session_id && o.session_id != some s.scope.session_id)
    || (is_some o.content && o.content != some s.scope.request.content)

-- Matching control-plane status: ownership, and no new media evidence.
unfoldable pub controls : SessionSnapshot → PlaybackObservation → Bool
controls s o = is_true o.session_active && o.session_id == some s.scope.session_id

unfoldable pub control : SessionSnapshot → SessionSnapshot
control s = record s { revision = s.revision + 1 }

-- A later sample neither revokes nor repeats a historical end.
unfoldable pub settle : SessionSnapshot → PlaybackObservation → SessionSnapshot
settle s o = record s {
  revision = s.revision + 1;
  latest = some o;
  state = PlayerState.ended;
  evidence = proof_of false false true EvidenceReason.natural_completion;
}

unfoldable pub observe_owned :
    SessionSnapshot → PlaybackObservation → Instant → EvidencePolicy → Result SessionSnapshot
observe_owned s o now policy =
    if foreign s o
    then ok (lost s o)
    else if controls s o
    then ok (control s)
    else if is_some s.completion
    then ok (settle s o)
    else observe_media s o now policy

unfoldable pub receive :
    SessionSnapshot → PlaybackObservation → Instant → EvidencePolicy → Result SessionSnapshot
receive s o now policy =
    if o.connection_reset
    then ok (lost s o)
    else if is_false o.session_active
    then ok (observe_exit (drop_release s o) o)
    else observe_owned (drop_release s o) o now policy

unfoldable pub observe :
    SessionSnapshot → PlaybackObservation → Instant → EvidencePolicy → Result SessionSnapshot
observe s o now policy = refresh s now policy >>= (λ s'.
    if out_of_scope s' o now policy || repeated s' o
    then ok s'
    else receive (count_sample s' o) o now policy)
