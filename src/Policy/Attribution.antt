-- ===== src/Policy/Attribution.antt =====
-- tellyq/domain/policy.py: when a sample without content still belongs to the confirmed media, and
-- the record of a natural end.
use tellyq.Prelude.{
  ◌+◌, ◌-◌, String, Bool, true, false, Option, none, some, Result, Fault, ok, require, ◌>>=◌, ◌==◌,
  ◌!=◌, string_eq, option_eq, ◌&&◌, ◌||◌, not, ltb, leb, is_some, is_false, if◌then◌else◌,
}
use tellyq.Values.{
  PlaybackObservation, PlayerState, player_state_eq, IdleReason, idle_reason_eq, ContentPhase,
  content_phase_eq, ProviderEvidence, IdentityUpdate, identity_update_eq, content_ref_eq,
  CompletionAttribution, EvidenceReason, SessionSnapshot, EvidencePolicy,
}
use tellyq.Policy.Intents.{proof_of}

-- `phases.get(observation.state)`
abbrev pub phase_of : PlayerState → Option ContentPhase
phase_of PlayerState.playing = some ContentPhase.playing
phase_of PlayerState.paused = some ContentPhase.paused
phase_of PlayerState.buffering = some ContentPhase.buffering
phase_of PlayerState.idle = some ContentPhase.finished
phase_of _ = none

abbrev qualified_by : PlaybackObservation → Option ProviderEvidence → Bool
qualified_by o none = false
qualified_by o (some evidence) =
    phase_of o.state == some evidence.phase
    && is_false o.ad_active
    && (o.state != PlayerState.idle || o.idle_reason == some IdleReason.finished)

unfoldable pub qualified : PlaybackObservation → Bool
qualified o = qualified_by o o.provider_evidence

abbrev pub follows_anchor :
    SessionSnapshot → PlaybackObservation → EvidencePolicy → Option PlaybackObservation → Bool
follows_anchor s o policy none = false
follows_anchor s o policy (some anchor) =
    s.has_confirmed_playback
    && is_some anchor.playback_id
    && anchor.playback_id == o.playback_id
    && anchor.session_id == o.session_id
    && o.session_id == some s.scope.session_id
    && anchor.application_id == o.application_id
    && o.application_id == s.scope.application_id
    && ltb anchor.monotonic o.monotonic
    && leb (o.monotonic - anchor.monotonic) policy.max_age_seconds
    && ltb anchor.sequence o.sequence

unfoldable pub history_matches : SessionSnapshot → PlaybackObservation → EvidencePolicy → Bool
history_matches s o policy = follows_anchor s o policy s.completion_anchor

-- both are present and name one source
abbrev pub same_provider : Option ProviderEvidence → Option ProviderEvidence → Bool
same_provider (some a) (some b) = a.source == b.source
same_provider (some a) none = false
same_provider none b = false

abbrev pub exact_anchor : SessionSnapshot → PlaybackObservation → Option PlaybackObservation → Bool
exact_anchor s o none = false
exact_anchor s o (some anchor) =
    anchor.content == some s.scope.request.content
    && anchor.identity_update == IdentityUpdate.explicit
    && same_provider anchor.provider_evidence o.provider_evidence

unfoldable pub incremental_identity : SessionSnapshot → PlaybackObservation → EvidencePolicy → Bool
incremental_identity s o policy =
    not (is_some o.content)
    && o.identity_update == IdentityUpdate.omitted
    && qualified o
    && history_matches s o policy
    && exact_anchor s o s.completion_anchor

abbrev pub source_of : PlaybackObservation → Option ProviderEvidence → String
source_of o none = o.source
source_of o (some evidence) = evidence.source

-- What `_finish` returns, by the anchor it has found.
unfoldable pub finish_at :
    SessionSnapshot → PlaybackObservation → PlaybackObservation → Bool → SessionSnapshot
finish_at s o anchor history = record s {
  revision = s.revision + 1;
  latest = some o;
  state = PlayerState.ended;
  progress_anchor = none;
  completion_anchor = none;
  completion = some (record {
    observed_at = o.observed_at;
    monotonic = o.monotonic;
    sequence = o.sequence;
    identity_sequence = if history then anchor.sequence else o.sequence;
    attribution =
        if history then CompletionAttribution.ordered_history else CompletionAttribution.explicit;
    source = source_of o o.provider_evidence;
  });
  has_confirmed_playback = false;
  evidence = proof_of (not history) false true EvidenceReason.natural_completion;
}

-- `assert anchor is not None`, and the session with its end recorded
unfoldable pub finish : SessionSnapshot → PlaybackObservation → Bool → Result SessionSnapshot
finish s o history = do
  anchor ← require s.completion_anchor Fault.assertion_error
  ok (finish_at s o anchor history)
