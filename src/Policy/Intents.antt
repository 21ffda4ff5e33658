-- ===== src/Policy/Intents.antt =====
-- tellyq/domain/policy.py: receipts, stop intents, reports, expiry and lost ownership.
use tellyq.Prelude.{
  ◌+◌, ◌-◌, Bool, true, false, Option, none, some, Result, Fault, ok, err, ◌==◌, ◌!=◌, string_eq,
  ◌||◌, ltb, leb, is_some, if◌then◌else◌,
}
use tellyq.Values.{
  Instant, PlaybackObservation, PlayerState, CommandReceipt, CommandAction, command_action_eq,
  content_ref_eq, playback_target_eq, DisplayEvidence, PlaybackEvidence, EvidenceReason, is_stale,
  SessionSnapshot, EvidencePolicy,
}

abbrev pub proof_of : Bool → Bool → Bool → EvidenceReason → PlaybackEvidence
proof_of identity receiver natural reason = record {
  identity_confirmed = identity;
  receiver_playback_confirmed = receiver;
  natural_completion_confirmed = natural;
  reason = reason;
}

abbrev pub or_else {ℓ} : {A : Type ℓ} → Option A → Option A → Option A
or_else none b = b
or_else (some a) b = some a

unfoldable pub request_stop : SessionSnapshot → Option Instant → SessionSnapshot
request_stop s boundary = record s {
  revision = s.revision + 1;
  stop_requested = true;
  stop_boundary = or_else boundary s.stop_boundary;
  completion_anchor = none;
  has_confirmed_playback = false;
  evidence = proof_of false false (is_some s.completion) EvidenceReason.awaiting_observation;
}

unfoldable pub record_receipt : SessionSnapshot → CommandReceipt → Result SessionSnapshot
unfolding request_stop
record_receipt s receipt =
    let result = if receipt.action == CommandAction.stop then request_stop s none else s in
    if receipt.request_id != s.scope.request.request_id
      || receipt.attempt_id != s.scope.request.attempt_id
    then err Fault.value_error
    else ok (record result { revision = result.revision + 1; receipt = some receipt })

unfoldable pub record_display : SessionSnapshot → DisplayEvidence → Result SessionSnapshot
record_display s display =
    if display.target != s.scope.request.target || display.content != s.scope.request.content
    then err Fault.value_error
    else ok (record s { revision = s.revision + 1; display = some display })

-- The state that a session with no current telemetry is left in.
abbrev pub resting_state : SessionSnapshot → PlayerState
resting_state s = if is_some s.completion then PlayerState.ended else PlayerState.unknown

unfoldable pub expire : SessionSnapshot → SessionSnapshot
expire s = record s {
  revision = s.revision + 1;
  state = resting_state s;
  evidence = proof_of false false (is_some s.completion) EvidenceReason.stale;
  progress_anchor = none;
  completion_anchor = none;
  has_confirmed_playback = false;
}

abbrev refresh_latest :
    SessionSnapshot → Option PlaybackObservation → Instant → EvidencePolicy → Result SessionSnapshot
refresh_latest s none now policy = ok s
refresh_latest s (some latest) now policy =
    if s.ownership_lost
    then ok s
    else if ltb now latest.monotonic
    then err Fault.value_error
    else if leb (now - latest.monotonic) policy.max_age_seconds
    then ok s
    else if is_stale s.evidence.reason
    then ok s
    else ok (expire s)

unfoldable pub refresh : SessionSnapshot → Instant → EvidencePolicy → Result SessionSnapshot
refresh s now policy = refresh_latest s s.latest now policy

unfoldable pub invalidate_history : SessionSnapshot → SessionSnapshot
invalidate_history s = record s {
  revision = s.revision + 1;
  progress_anchor = none;
  completion_anchor = none;
  has_confirmed_playback = false;
  release_boundary = none;
  release_confirmed = false;
  state = resting_state s;
  evidence = proof_of false false (is_some s.completion) EvidenceReason.identity_unknown;
}

unfoldable pub lost : SessionSnapshot → PlaybackObservation → SessionSnapshot
lost s o = record s {
  revision = s.revision + 1;
  latest = some o;
  state = PlayerState.unknown;
  progress_anchor = none;
  completion_anchor = none;
  has_confirmed_playback = false;
  ownership_lost = true;
  release_boundary = none;
  release_confirmed = false;
  evidence = proof_of false false (is_some s.completion) EvidenceReason.session_replaced;
}

unfoldable pub unconfirmed :
    SessionSnapshot → PlaybackObservation → EvidenceReason → Bool → Bool → SessionSnapshot
unconfirmed s o reason identity retain_completion = record s {
  revision = s.revision + 1;
  latest = some o;
  state = if identity then o.state else PlayerState.unknown;
  progress_anchor = none;
  completion_anchor = if retain_completion then s.completion_anchor else none;
  has_confirmed_playback = if retain_completion then s.has_confirmed_playback else false;
  evidence = proof_of identity false false reason;
}
