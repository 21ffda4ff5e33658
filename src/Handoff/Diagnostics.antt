-- ===== src/Handoff/Diagnostics.antt =====
-- tellyq/handoff.py: what is told of a release, and the authority for it.
use tellyq.Prelude.{
  ℕ, ℤ, difference, Bool, Option, none, some, Eq, ◌==◌, nat_eq, string_eq, option_eq,
}
use tellyq.Values.{
  Instant, content_ref_eq, playback_target_eq, PlayerState, IdleReason, IdentityUpdate,
  ContentPhase, PlaybackObservation, SessionSnapshot,
}
use tellyq.QueuePolicy.{QueueReason}

pub data HandoffStage : Type 0 where
  queue release successor : HandoffStage

pub data HandoffDisposition : Type 0 where
  hold ready complete : HandoffDisposition

abbrev pub handoff_disposition_tag : HandoffDisposition → ℕ
handoff_disposition_tag HandoffDisposition.hold = 0
handoff_disposition_tag HandoffDisposition.ready = 1
handoff_disposition_tag HandoffDisposition.complete = 2

instance abbrev pub handoff_disposition_eq : Eq HandoffDisposition
handoff_disposition_eq = record {
  beq = λ a b. handoff_disposition_tag a == handoff_disposition_tag b;
}

pub data HandoffReason : Type 0 where
  awaiting_start awaiting_completion attempt_not_finished canceled session_required : HandoffReason
  ownership_lost stop_requested authority_required authority_blocked : HandoffReason
  completion_required completion_mismatch terminal_stale terminal_unqualified : HandoffReason
  sequence_gap observation_gap clock_discontinuity target_changed : HandoffReason
  connection_changed connection_reset ad_active content_changed session_changed : HandoffReason
  application_changed media_changed playback_restarted provider_active : HandoffReason
  position_rewound receiver_missing media_missing receiver_inactive : HandoffReason
  receiver_identity_mismatch receiver_stale media_identity_missing : HandoffReason
  media_identity_mismatch media_stale media_state_unqualified : HandoffReason
  provider_phase_unqualified release_eligible release_rejected release_unresolved : HandoffReason
  awaiting_release_idle awaiting_fresh_idle queue_policy_hold successor_eligible : HandoffReason
  exhausted native_successor_pending stop_awaiting_native_observation : HandoffReason
  native_reconciliation_required : HandoffReason

pub record HandoffEvidence : Type 0 where
  pub sequence : ℕ
  pub age_seconds : Option ℤ
  pub since_terminal_seconds : Option ℤ
  pub sequence_delta : Option ℤ
  pub observation_delta_seconds : Option ℤ
  pub terminal_sequence : Option ℕ
  pub terminal_position : Option Instant
  pub state : PlayerState
  pub idle_reason : Option IdleReason
  pub position : Option Instant
  pub ad_active : Option Bool
  pub provider_phase : Option ContentPhase
  pub identity_update : IdentityUpdate
  pub session_active : Option Bool
  pub connection_reset : Bool
  pub target_matches : Bool
  pub connection_matches : Bool
  pub content_matches : Option Bool
  pub session_matches : Option Bool
  pub application_matches : Option Bool
  pub media_matches : Option Bool

pub record HandoffVeto : Type 0 where
  pub reason : HandoffReason
  pub evidence : HandoffEvidence

pub record HandoffDiagnostic : Type 0 where
  pub stage : HandoffStage
  pub disposition : HandoffDisposition
  pub reason : HandoffReason
  pub evidence : Option HandoffEvidence
  pub first_veto : Option HandoffVeto
  pub queue_reason : Option QueueReason

pub record ReleaseAuthority : Type 0 where
  pub terminal : PlaybackObservation
  pub last_sequence : ℕ
  pub last_monotonic : Instant
  pub blocked : Bool
  pub first_veto : Option HandoffVeto

-- `f(a) if a is not None else None`
abbrev pub with_some : {A B : Type 0} → Option A → (A → B) → Option B
with_some none f = none
with_some (some a) f = some (f a)

abbrev pub flat_some : {A B : Type 0} → Option A → (A → Option B) → Option B
flat_some none f = none
flat_some (some a) f = f a

-- `handoff_evidence` of an event that is there
unfoldable pub evidence_of :
    SessionSnapshot
    → PlaybackObservation
    → Option ReleaseAuthority
    → Option Instant
    → HandoffEvidence
evidence_of snapshot event authority now =
    let scope = snapshot.scope in
    record {
      sequence = event.sequence;
      age_seconds = with_some now (λ t. difference t event.monotonic);
      since_terminal_seconds =
          with_some authority (λ a. difference event.monotonic a.terminal.monotonic);
      sequence_delta = with_some authority (λ a. difference event.sequence a.last_sequence);
      observation_delta_seconds =
          with_some authority (λ a. difference event.monotonic a.last_monotonic);
      terminal_sequence = with_some authority (λ a. a.terminal.sequence);
      terminal_position = flat_some authority (λ a. a.terminal.position);
      state = event.state;
      idle_reason = event.idle_reason;
      position = event.position;
      ad_active = event.ad_active;
      provider_phase = with_some event.provider_evidence (λ e. e.phase);
      identity_update = event.identity_update;
      session_active = event.session_active;
      connection_reset = event.connection_reset;
      target_matches = event.target == scope.request.target;
      connection_matches = event.connection_generation == scope.connection_generation;
      content_matches = with_some event.content (λ c. c == scope.request.content);
      session_matches = with_some event.session_id (λ id. id == scope.session_id);
      application_matches = with_some event.application_id (λ id. some id == scope.application_id);
      media_matches =
          flat_some authority
            (λ a. with_some event.playback_id (λ id. some id == a.terminal.playback_id));
    }

abbrev pub handoff_evidence :
    SessionSnapshot
    → Option PlaybackObservation
    → Option ReleaseAuthority
    → Option Instant
    → Option HandoffEvidence
handoff_evidence snapshot event authority now =
    with_some event (λ e. evidence_of snapshot e authority now)
