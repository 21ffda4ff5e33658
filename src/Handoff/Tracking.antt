-- ===== src/Handoff/Tracking.antt =====
-- tellyq/handoff.py: `track_release` keeps the terminal sample and the first veto of a release.
use tellyq.Prelude.{
  ◌-◌, Bool, false, Option, none, some, List, [], ◌∷◌, ◌+◌, ◌==◌, ◌!=◌, nat_eq, string_eq,
  option_eq, ◌&&◌, ◌||◌, ltb, leb, is_some, is_true, first, if◌then◌else◌,
}
use tellyq.Values.{
  five_seconds, content_ref_eq, playback_target_eq, PlayerState, player_state_eq, ContentPhase,
  content_phase_eq, ProviderEvidence, PlaybackObservation, CompletionEvidence, SessionSnapshot,
}
use tellyq.Handoff.Diagnostics.{HandoffReason, HandoffVeto, ReleaseAuthority, evidence_of}

abbrev pub in_phase : (ContentPhase → Bool) → Option ProviderEvidence → Bool
in_phase p none = false
in_phase p (some e) = p e.phase

unfoldable pub is_active_phase : ContentPhase → Bool
is_active_phase phase =
    phase == ContentPhase.ad || phase == ContentPhase.playing || phase == ContentPhase.paused

abbrev pub rewound : PlaybackObservation → PlaybackObservation → Bool
rewound event terminal = elim event.position [
  | none ↦ false
  | some position ↦ elim terminal.position [ none ↦ false | some end ↦ ltb position end ]
]

unfoldable pub veto_checks :
    SessionSnapshot → PlaybackObservation → ReleaseAuthority → List (Bool × HandoffReason)
veto_checks snapshot event authority =
    let terminal = authority.terminal in
    let scope = snapshot.scope in
    (event.sequence != authority.last_sequence + 1, HandoffReason.sequence_gap)
    ∷ (leb event.monotonic authority.last_monotonic, HandoffReason.clock_discontinuity)
    ∷ (ltb five_seconds (event.monotonic - authority.last_monotonic), HandoffReason.observation_gap)
    ∷ (event.target != scope.request.target, HandoffReason.target_changed)
    ∷ (event.connection_generation != scope.connection_generation, HandoffReason.connection_changed)
    ∷ (event.connection_reset, HandoffReason.connection_reset)
    ∷ (is_true event.ad_active, HandoffReason.ad_active)
    ∷ (
      is_some event.content && event.content != some scope.request.content,
      HandoffReason.content_changed,
    )
    ∷ (
      is_some event.session_id && event.session_id != some scope.session_id,
      HandoffReason.session_changed,
    )
    ∷ (
      is_some event.application_id && event.application_id != scope.application_id,
      HandoffReason.application_changed,
    )
    ∷ (
      is_some event.playback_id && event.playback_id != terminal.playback_id,
      HandoffReason.media_changed,
    )
    ∷ (
      event.state == PlayerState.playing || event.state == PlayerState.paused,
      HandoffReason.playback_restarted,
    )
    ∷ (in_phase is_active_phase event.provider_evidence, HandoffReason.provider_active)
    ∷ (rewound event terminal, HandoffReason.position_rewound)
    ∷ []

abbrev pub first_failed : List (Bool × HandoffReason) → Option HandoffReason
first_failed [] = none
first_failed ((failed, reason) ∷ checks) = if failed then some reason else first_failed checks

-- `_veto_reason`
unfoldable pub veto_reason :
    SessionSnapshot → PlaybackObservation → ReleaseAuthority → Option HandoffReason
veto_reason snapshot event authority = first_failed (veto_checks snapshot event authority)

abbrev pub first_vetoed :
    Option HandoffVeto
    → Option HandoffReason
    → SessionSnapshot
    → PlaybackObservation
    → ReleaseAuthority
    → Option HandoffVeto
first_vetoed (some veto) reason snapshot event authority = some veto
first_vetoed none none snapshot event authority = none
first_vetoed none (some reason) snapshot event authority =
    some (record { reason = reason; evidence = evidence_of snapshot event (some authority) none })

abbrev pub already_tracked : PlaybackObservation → ReleaseAuthority → Bool
already_tracked event authority =
    leb event.sequence authority.terminal.sequence || leb event.sequence authority.last_sequence

unfoldable pub tracked : SessionSnapshot → PlaybackObservation → ReleaseAuthority → ReleaseAuthority
tracked snapshot event authority =
    let reason = veto_reason snapshot event authority in
    record authority {
      last_sequence = event.sequence;
      last_monotonic = event.monotonic;
      blocked = authority.blocked || is_some reason;
      first_veto = first_vetoed authority.first_veto reason snapshot event authority;
    }

-- One round of the loop.
unfoldable pub track_event :
    SessionSnapshot → PlaybackObservation → ReleaseAuthority → ReleaseAuthority
track_event snapshot event authority =
    if already_tracked event authority then authority else tracked snapshot event authority

abbrev pub track_events :
    SessionSnapshot → List PlaybackObservation → ReleaseAuthority → ReleaseAuthority
track_events snapshot [] authority = authority
track_events snapshot (event ∷ events) authority =
    track_events snapshot events (track_event snapshot event authority)

abbrev pub is_witnessed : CompletionEvidence → PlaybackObservation → Bool
is_witnessed witness event =
    event.sequence == witness.sequence && event.monotonic == witness.monotonic

abbrev pub new_authority : PlaybackObservation → ReleaseAuthority
new_authority terminal = record {
  terminal = terminal;
  last_sequence = terminal.sequence;
  last_monotonic = terminal.monotonic;
  blocked = false;
  first_veto = none;
}

abbrev pub track_from :
    Option PlaybackObservation
    → SessionSnapshot
    → List PlaybackObservation
    → Option ReleaseAuthority
track_from none snapshot events = none
track_from (some terminal) snapshot events =
    some (track_events snapshot events (new_authority terminal))

abbrev pub track_witnessed :
    CompletionEvidence
    → SessionSnapshot
    → List PlaybackObservation
    → Option ReleaseAuthority
    → Option ReleaseAuthority
track_witnessed witness snapshot events none =
    track_from (first (is_witnessed witness) events) snapshot events
track_witnessed witness snapshot events (some authority) =
    some (track_events snapshot events authority)

abbrev pub track_completed :
    Option CompletionEvidence
    → SessionSnapshot
    → List PlaybackObservation
    → Option ReleaseAuthority
    → Option ReleaseAuthority
track_completed none snapshot events authority = none
track_completed (some witness) snapshot events authority =
    track_witnessed witness snapshot events authority

unfoldable pub track_release :
    SessionSnapshot → List PlaybackObservation → Option ReleaseAuthority → Option ReleaseAuthority
track_release snapshot events authority =
    track_completed snapshot.completion snapshot events authority
