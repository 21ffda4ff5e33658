-- ===== src/Policy/Media.antt =====
-- tellyq/domain/policy.py: the part of `observe` that reads a media sample of an owned session with
-- no completion yet.
use tellyq.Prelude.{
  ◌+◌, ◌-◌, Bool, true, false, Option, none, some, Result, ok, ◌==◌, ◌!=◌, string_eq, option_eq,
  ◌&&◌, ◌||◌, not, ltb, leb, is_some, is_true, is_false, if◌then◌else◌,
}
use tellyq.Values.{
  Instant, PlaybackObservation, PlayerState, player_state_eq, IdleReason, idle_reason_eq,
  IdentityUpdate, identity_update_eq, EvidenceReason, SessionSnapshot, EvidencePolicy,
}
use tellyq.Policy.Intents.{proof_of, unconfirmed}
use tellyq.Policy.Attribution.{qualified, incremental_identity, same_provider, finish}

-- The position has moved on from where the anchor showed it.
abbrev pub moved_on :
    PlaybackObservation
    → Instant
    → Instant
    → EvidencePolicy
    → PlaybackObservation
    → Option Instant
    → Bool
moved_on o position now policy progress none = false
moved_on o position now policy progress (some start) =
    progress.playback_id == o.playback_id
    && leb (now - progress.monotonic) policy.max_age_seconds
    && leb (progress.monotonic + policy.min_progress_interval_seconds) o.monotonic
    && ltb start position

abbrev pub confirms :
    PlaybackObservation → Instant → Instant → EvidencePolicy → Option PlaybackObservation → Bool
confirms o position now policy none = false
confirms o position now policy (some progress) =
    moved_on o position now policy progress progress.position

abbrev restarts : PlaybackObservation → Instant → EvidencePolicy → Option PlaybackObservation → Bool
restarts o position policy none = true
restarts o position policy (some progress) = elim progress.position [
  | none ↦ true
  | some start ↦
      progress.playback_id != o.playback_id
      || ltb position start
      || leb (progress.monotonic + policy.max_age_seconds) o.monotonic
]

-- A playing sample with a position: progress since the anchor confirms receiver playback.
unfoldable pub progress :
    SessionSnapshot → PlaybackObservation → Instant → Instant → EvidencePolicy → SessionSnapshot
progress s o position now policy =
    let confirmed = confirms o position now policy s.progress_anchor in
    record s {
      revision = s.revision + 1;
      latest = some o;
      progress_anchor =
          if confirmed || restarts o position policy s.progress_anchor
          then some o
          else s.progress_anchor;
      completion_anchor = some o;
      state = PlayerState.playing;
      has_confirmed_playback = s.has_confirmed_playback || confirmed;
      evidence = proof_of true confirmed false (
          if confirmed
          then EvidenceReason.progress_confirmed
          else EvidenceReason.awaiting_progress);
    }

unfoldable pub at_position :
    SessionSnapshot
    → PlaybackObservation
    → Instant
    → EvidencePolicy
    → Option Instant
    → SessionSnapshot
at_position s o now policy none = unconfirmed s o EvidenceReason.position_unknown true false
at_position s o now policy (some position) = progress s o position now policy

abbrev pub retained : PlayerState → Bool
retained state = state == PlayerState.paused || state == PlayerState.buffering

unfoldable pub hold_place : SessionSnapshot → PlaybackObservation → SessionSnapshot
hold_place s o = if retained o.state then record s { completion_anchor = some o } else s

-- A sample with its own identity that is no terminal event.
unfoldable pub present :
    SessionSnapshot → PlaybackObservation → Instant → EvidencePolicy → SessionSnapshot
present s o now policy =
    if o.state != PlayerState.playing
    then unconfirmed (hold_place s o) o EvidenceReason.not_playing true (retained o.state)
    else at_position s o now policy o.position

unfoldable pub observe_stop : SessionSnapshot → PlaybackObservation → SessionSnapshot
observe_stop s o = record s {
  revision = s.revision + 1;
  latest = some o;
  state = PlayerState.stopped;
  progress_anchor = none;
  completion_anchor = none;
  evidence = proof_of true false false EvidenceReason.stop_observed;
}

-- The sample ends what the session played.
unfoldable pub is_terminal : SessionSnapshot → PlaybackObservation → Bool
is_terminal s o =
    o.state == PlayerState.idle
    && o.idle_reason == some IdleReason.finished
    && s.has_confirmed_playback
    && is_some s.completion_anchor
    && not s.stop_requested

-- The natural end at its anchor, or else what a sample says that ends nothing.
unfoldable pub end_or_go :
    SessionSnapshot → PlaybackObservation → Bool → Instant → EvidencePolicy → Result SessionSnapshot
end_or_go s o history now policy =
    if is_terminal s o
    then finish s o history
    else if history
    then ok (unconfirmed s o EvidenceReason.identity_unknown false true)
    else ok (present s o now policy)

unfoldable pub conclude :
    SessionSnapshot → PlaybackObservation → Bool → Instant → EvidencePolicy → Result SessionSnapshot
conclude s o history now policy =
    if o.state == PlayerState.idle && s.stop_requested && o.idle_reason == some IdleReason.canceled
    then ok (observe_stop s o)
    else end_or_go s o history now policy

abbrev rewinds : PlaybackObservation → PlaybackObservation → Bool
rewinds anchor o = elim anchor.position [
  | none ↦ false
  | some start ↦ elim o.position [ none ↦ false | some position ↦ ltb position start ]
]

abbrev continues : PlaybackObservation → Option PlaybackObservation → Bool
continues o none = false
continues o (some anchor) =
    anchor.playback_id == o.playback_id
    && ((not (is_some anchor.provider_evidence) && not (is_some o.provider_evidence))
        || same_provider anchor.provider_evidence o.provider_evidence)
    && not (rewinds anchor o)

-- Another playback, another source or a rewind ends the chain that a completion would rest on.
unfoldable pub keep_chain : SessionSnapshot → PlaybackObservation → SessionSnapshot
keep_chain s o = if continues o s.completion_anchor then s else record s {
  has_confirmed_playback = false;
  completion_anchor = none;
  progress_anchor = none;
}

unfoldable pub unidentified : PlaybackObservation → Bool → Bool
unidentified o history = not (is_some o.session_id) || (not (is_some o.content) && not history)

unfoldable pub interrupted : PlaybackObservation → Bool
interrupted o = not (is_false o.ad_active)

unfoldable pub unqualified : PlaybackObservation → Bool
unqualified o =
    is_some o.provider_evidence
    && (not (qualified o) || o.identity_update == IdentityUpdate.unknown)

unfoldable pub observe_media :
    SessionSnapshot → PlaybackObservation → Instant → EvidencePolicy → Result SessionSnapshot
observe_media s o now policy =
    let history = incremental_identity s o policy in
    if unidentified o history
    then ok (unconfirmed s o EvidenceReason.identity_unknown false false)
    else if interrupted o
    then ok (
        unconfirmed s o
          (if is_true o.ad_active then EvidenceReason.ad_active else EvidenceReason.ad_unknown)
          (is_some o.content) false)
    else if unqualified o
    then ok (unconfirmed s o EvidenceReason.identity_unknown false false)
    else conclude (keep_chain s o) o history now policy
