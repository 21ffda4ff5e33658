-- ===== src/QueuePolicy/Receivers.antt =====
-- tellyq/domain/queue_policy.py: the tests on live evidence.
use tellyq.Prelude.{
  ℕ, ◌-◌, String, Bool, true, false, Option, none, some, Result, Fault, ok, err, ◌==◌, ◌!=◌, nat_eq,
  string_eq, option_eq, ◌&&◌, ◌||◌, not, ltb, leb, is_some, is_false, all, first, last,
  if◌then◌else◌,
}
use tellyq.Values.{
  Instant, PlaybackObservation, playback_observation_eq, playback_target_eq, content_ref_eq,
  PlayerState, player_state_eq, IdleReason, idle_reason_eq, ContentPhase, content_phase_eq,
  ProviderEvidence, CompletionAttribution, completion_attribution_eq, CompletionEvidence,
  SessionSnapshot, EvidencePolicy,
}
use tellyq.Queue.{QueueMode, queue_mode_eq, QueueEntry, QueueAttempt, QueueSnapshot}
use tellyq.QueuePolicy.Decisions.{QueueAuthority}

abbrev pub matches_attempt :
    QueueSnapshot → SessionSnapshot → QueueAuthority → Instant → QueueAttempt → QueueEntry → Bool
matches_attempt queue session authority now attempt item =
    let scope = session.scope in
    let request = scope.request in
    request.target == queue.target
    && request.queue_item_id == attempt.item_id
    && request.attempt_id == attempt.attempt_id
    && request.content == item.content
    && scope.connection_generation == authority.connection_generation
    && leb authority.started_monotonic scope.started_monotonic
    && leb scope.started_monotonic now
    && (queue.mode == QueueMode.native
        || all (λ c. c.attempt_id != attempt.attempt_id || c.generation == queue.generation)
            queue.commands)

abbrev pub matches_found :
    QueueSnapshot
    → SessionSnapshot
    → QueueAuthority
    → Instant
    → QueueAttempt
    → Option QueueEntry
    → Result Bool
matches_found queue session authority now attempt none = err Fault.stop_iteration
matches_found queue session authority now attempt (some item) =
    ok (matches_attempt queue session authority now attempt item)

abbrev pub matches_latest :
    QueueSnapshot → SessionSnapshot → QueueAuthority → Instant → Option QueueAttempt → Result Bool
matches_latest queue session authority now none = ok false
matches_latest queue session authority now (some attempt) =
    matches_found queue session authority now attempt
      (first (λ i. i.item_id == attempt.item_id) queue.items)

unfoldable pub session_matches :
    QueueSnapshot → SessionSnapshot → QueueAuthority → Instant → Result Bool
session_matches queue session authority now =
    matches_latest queue session authority now (last queue.attempts)

-- `value <= last` for a `last_sequence` that is -1 before the first sample
abbrev pub at_most_last : ℕ → Option ℕ → Bool
at_most_last value none = false
at_most_last value (some last) = leb value last

abbrev pub attributed : CompletionEvidence → Bool
attributed c =
    (c.attribution == CompletionAttribution.explicit && c.identity_sequence == c.sequence)
    || (c.attribution == CompletionAttribution.ordered_history
        && ltb c.identity_sequence c.sequence)

abbrev pub timed : SessionSnapshot → Instant → Instant → Option Instant → Bool
timed session at now none = false
timed session at now (some last) =
    ltb session.scope.started_monotonic at && leb at last && leb last now

abbrev pub valid_evidence : SessionSnapshot → Instant → Option CompletionEvidence → Bool
valid_evidence session now none = false
valid_evidence session now (some c) =
    session.evidence.natural_completion_confirmed
    && c.source != ""
    && c.observed_at.aware
    && leb c.identity_sequence c.sequence
    && at_most_last c.sequence session.last_sequence
    && timed session c.monotonic now session.last_monotonic
    && attributed c

unfoldable pub valid_completion : SessionSnapshot → Instant → Bool
valid_completion session now = valid_evidence session now session.completion

abbrev pub below_last : ℕ → Option ℕ → Bool
below_last value none = false
below_last value (some last) = ltb value last

-- The receiver's packet is older than what the session knows, or competes with it.
unfoldable pub outdated : SessionSnapshot → PlaybackObservation → Bool
outdated session receiver =
    below_last receiver.monotonic session.last_monotonic
    || below_last receiver.sequence session.last_sequence
    || (some receiver != session.latest
        && (some receiver.sequence == session.last_sequence
            || some receiver.monotonic == session.last_monotonic))

abbrev pub outdated_in : Option SessionSnapshot → PlaybackObservation → Bool
outdated_in none receiver = false
outdated_in (some session) receiver = outdated session receiver

abbrev pub latest_of : Option SessionSnapshot → Option PlaybackObservation
latest_of none = none
latest_of (some session) = session.latest

abbrev pub behind_session : Option SessionSnapshot → PlaybackObservation → Bool
behind_session none latest = false
behind_session (some session) latest =
    below_last latest.sequence session.last_sequence
    || below_last latest.monotonic session.last_monotonic

unfoldable pub unusable :
    QueueSnapshot
    → Option SessionSnapshot
    → QueueAuthority
    → Instant
    → EvidencePolicy
    → PlaybackObservation
    → Bool
unusable queue session authority now policy latest =
    latest.target != queue.target
    || latest.connection_generation != authority.connection_generation
    || leb latest.monotonic authority.started_monotonic
    || not (leb latest.monotonic now && leb (now - latest.monotonic) policy.max_age_seconds)
    || latest.connection_reset
    || behind_session session latest

abbrev pub finished_by : Option ProviderEvidence → String → Bool
finished_by none source = false
finished_by (some provider) source =
    provider.phase == ContentPhase.finished && provider.source == source

abbrev pub ends_with :
    SessionSnapshot → PlaybackObservation → Instant → Option CompletionEvidence → Bool
ends_with session latest now none = false
ends_with session latest now (some c) =
    some latest == session.latest
    && valid_completion session now
    && some latest.sequence == session.last_sequence
    && latest.sequence == c.sequence
    && some latest.monotonic == session.last_monotonic
    && latest.monotonic == c.monotonic
    && latest.session_id == some session.scope.session_id
    && latest.application_id == session.scope.application_id
    && (not (is_some latest.content) || latest.content == some session.scope.request.content)
    && latest.state == PlayerState.idle
    && latest.idle_reason == some IdleReason.finished
    && is_false latest.ad_active
    && finished_by latest.provider_evidence c.source

abbrev pub ended_session : Option SessionSnapshot → PlaybackObservation → Instant → Bool
ended_session none latest now = false
ended_session (some session) latest now = ends_with session latest now session.completion

abbrev pub baseline :
    QueueSnapshot
    → Option SessionSnapshot
    → QueueAuthority
    → Instant
    → EvidencePolicy
    → Option PlaybackObservation
    → Bool
baseline queue session authority now policy none = false
baseline queue session authority now policy (some latest) =
    if unusable queue session authority now policy latest
    then false
    else if is_false latest.session_active
    then true
    else ended_session session latest now

-- An older idle packet does not override a newer one of the session.
unfoldable pub receiver_ready :
    QueueSnapshot
    → Option SessionSnapshot
    → QueueAuthority
    → Option PlaybackObservation
    → Instant
    → EvidencePolicy
    → Bool
receiver_ready queue session authority none now policy =
    baseline queue session authority now policy (latest_of session)
receiver_ready queue session authority (some receiver) now policy =
    if outdated_in session receiver
    then false
    else baseline queue session authority now policy (some receiver)
