-- ===== src/Handoff/Release.antt =====
-- tellyq/handoff.py: `release_decision` explains whether the receiver may be given back.
use tellyq.Prelude.{
  Bool, Option, none, some, List, [], ◌∷◌, ◌==◌, ◌!=◌, nat_eq, string_eq, bool_eq, option_eq, ◌&&◌,
  ◌||◌, not, is_some, is_true, is_false, last, if◌then◌else◌,
}
use tellyq.Values.{
  Instant, is_fresh, content_ref_eq, playback_target_eq, PlayerState, player_state_eq, IdleReason,
  idle_reason_eq, IdentityUpdate, identity_update_eq, ContentPhase, content_phase_eq, PlaybackScope,
  PlaybackObservation, CompletionEvidence, SessionSnapshot,
}
use tellyq.Handoff.Diagnostics.{
  HandoffStage, HandoffDisposition, handoff_disposition_eq, HandoffReason, HandoffDiagnostic,
  ReleaseAuthority, flat_some, handoff_evidence,
}
use tellyq.Handoff.Tracking.{in_phase, is_witnessed}

-- `hold`
abbrev pub hold_release :
    SessionSnapshot
    → Option ReleaseAuthority
    → Instant
    → HandoffReason
    → Option PlaybackObservation
    → HandoffDiagnostic
hold_release snapshot authority now reason event = record {
  stage = HandoffStage.release;
  disposition = HandoffDisposition.hold;
  reason = reason;
  evidence = handoff_evidence snapshot event authority (some now);
  first_veto = flat_some authority (λ a. a.first_veto);
  queue_reason = none;
}

unfoldable pub unqualified_terminal : PlaybackScope → PlaybackObservation → Bool
unqualified_terminal scope terminal =
    not (is_some terminal.playback_id)
    || not (is_false terminal.ad_active)
    || terminal.state != PlayerState.idle
    || terminal.idle_reason != some IdleReason.finished
    || terminal.target != scope.request.target
    || terminal.connection_generation != scope.connection_generation
    || terminal.session_id != some scope.session_id
    || terminal.application_id != scope.application_id
    || (is_some terminal.content && terminal.content != some scope.request.content)

unfoldable pub receiver_differs : PlaybackScope → PlaybackObservation → Bool
receiver_differs scope receiver =
    receiver.session_id != some scope.session_id
    || receiver.application_id != scope.application_id
    || receiver.target != scope.request.target
    || receiver.connection_generation != scope.connection_generation

unfoldable pub media_differs : PlaybackScope → PlaybackObservation → PlaybackObservation → Bool
media_differs scope terminal media =
    media.content != some scope.request.content
    || media.session_id != some scope.session_id
    || media.application_id != scope.application_id
    || media.playback_id != terminal.playback_id
    || media.target != scope.request.target
    || media.connection_generation != scope.connection_generation

unfoldable pub state_unqualified : PlaybackObservation → Bool
state_unqualified media =
    not (media.state == PlayerState.idle || media.state == PlayerState.buffering)
    || (media.state == PlayerState.idle && media.idle_reason != some IdleReason.finished)

unfoldable pub is_unqualified_phase : ContentPhase → Bool
is_unqualified_phase phase = not (
    phase == ContentPhase.unknown
    || phase == ContentPhase.buffering
    || phase == ContentPhase.finished)

-- `next(event for event in reversed(events) if p(event))`
abbrev pub last_where :
    (PlaybackObservation → Bool) → List PlaybackObservation → Option PlaybackObservation
last_where p [] = none
last_where p (event ∷ events) = elim (last_where p events) [
  | none ↦ if p event then some event else none
  | some found ↦ some found
]

abbrev pub is_receiver : PlaybackObservation → Bool
is_receiver event = is_some event.session_active

module _ (snapshot : SessionSnapshot) (authority : ReleaseAuthority) (now : Instant) where
  abbrev pub held_at : HandoffReason → PlaybackObservation → HandoffDiagnostic
  held_at reason event = hold_release snapshot (some authority) now reason (some event)

  abbrev pub eligible : PlaybackObservation → HandoffDiagnostic
  eligible media = record {
    stage = HandoffStage.release;
    disposition = HandoffDisposition.ready;
    reason = HandoffReason.release_eligible;
    evidence = handoff_evidence snapshot (some media) (some authority) (some now);
    first_veto = none;
    queue_reason = none;
  }

  -- The tests of the sample of media.
  unfoldable pub media_decision : PlaybackObservation → HandoffDiagnostic
  media_decision media =
      let scope = snapshot.scope in
      if not (is_fresh now media.monotonic)
      then held_at HandoffReason.media_stale media
      else if not (is_some media.content) || media.identity_update != IdentityUpdate.explicit
      then held_at HandoffReason.media_identity_missing media
      else if media_differs scope authority.terminal media
      then held_at HandoffReason.media_identity_mismatch media
      else if is_true media.ad_active
      then held_at HandoffReason.ad_active media
      else if state_unqualified media
      then held_at HandoffReason.media_state_unqualified media
      else if in_phase is_unqualified_phase media.provider_evidence
      then held_at HandoffReason.provider_phase_unqualified media
      else eligible media

  -- The tests of the sample of the receiver, and then those of the media.
  unfoldable pub receiver_decision : PlaybackObservation → PlaybackObservation → HandoffDiagnostic
  receiver_decision receiver media =
      if not (is_true receiver.session_active)
      then held_at HandoffReason.receiver_inactive receiver
      else if receiver_differs snapshot.scope receiver
      then held_at HandoffReason.receiver_identity_mismatch receiver
      else if not (is_fresh now receiver.monotonic)
      then held_at HandoffReason.receiver_stale receiver
      else media_decision media

  abbrev pub sampled_decision :
      Option PlaybackObservation → Option PlaybackObservation → HandoffDiagnostic
  sampled_decision none media =
      hold_release snapshot (some authority) now HandoffReason.receiver_missing none
  sampled_decision (some receiver) none =
      hold_release snapshot (some authority) now HandoffReason.media_missing none
  sampled_decision (some receiver) (some media) = receiver_decision receiver media

  -- The tests of the session and of its terminal sample.
  unfoldable pub terminal_decision :
      List PlaybackObservation → CompletionEvidence → HandoffDiagnostic
  terminal_decision events witness =
      let terminal = authority.terminal in
      if snapshot.ownership_lost
      then hold_release snapshot (some authority) now HandoffReason.ownership_lost snapshot.latest
      else if snapshot.stop_requested
      then hold_release snapshot (some authority) now HandoffReason.stop_requested snapshot.latest
      else if not (is_fresh now terminal.monotonic)
      then held_at HandoffReason.terminal_stale terminal
      else if not (is_witnessed witness terminal)
      then held_at HandoffReason.completion_mismatch terminal
      else if unqualified_terminal snapshot.scope terminal
      then held_at HandoffReason.terminal_unqualified terminal
      else sampled_decision (last_where is_receiver events)
          (last_where (λ e. not (is_receiver e)) events)

  abbrev pub witnessed_decision :
      List PlaybackObservation → Option CompletionEvidence → HandoffDiagnostic
  witnessed_decision events none =
      hold_release snapshot (some authority) now HandoffReason.completion_required none
  witnessed_decision events (some witness) = terminal_decision events witness

unfoldable pub release_decision :
    SessionSnapshot
    → Option ReleaseAuthority
    → List PlaybackObservation
    → Instant
    → HandoffDiagnostic
release_decision snapshot none events now =
    hold_release snapshot none now HandoffReason.authority_required none
release_decision snapshot (some authority) events now =
    if authority.blocked
    then hold_release snapshot (some authority) now HandoffReason.authority_blocked (last events)
    else witnessed_decision snapshot authority now events snapshot.completion

unfoldable pub may_release :
    SessionSnapshot → Option ReleaseAuthority → List PlaybackObservation → Instant → Bool
may_release snapshot authority events now =
    (release_decision snapshot authority events now).disposition == HandoffDisposition.ready
