-- ===== src/Values/Sessions.antt =====
-- tellyq/domain/values.py: the session snapshot, its evidence and the evidence policy.
use tellyq.Prelude.{
  ℕ, String, Bool, true, false, Option, none, Result, Fault, ok, raise_if, ◌>>◌, Eq, ◌==◌, nat_eq,
  ltb, ◌||◌,
}
use tellyq.Values.Instants.{Instant, Datetime}
use tellyq.Values.Media.{ContentRef, PlaybackTarget, PlaybackScope}
use tellyq.Values.Commands.{CommandReceipt}
use tellyq.Values.Observations.{PlayerState, PlaybackObservation}

pub data CompletionAttribution : Type 0 where
  explicit ordered_history : CompletionAttribution

abbrev pub completion_attribution_tag : CompletionAttribution → ℕ
completion_attribution_tag CompletionAttribution.explicit = 0
completion_attribution_tag CompletionAttribution.ordered_history = 1

instance abbrev pub completion_attribution_eq : Eq CompletionAttribution
completion_attribution_eq = record {
  beq = λ a b. completion_attribution_tag a == completion_attribution_tag b;
}

pub record CompletionEvidence : Type 0 where
  pub observed_at : Datetime
  pub monotonic : Instant
  pub sequence : ℕ
  pub identity_sequence : ℕ
  pub attribution : CompletionAttribution
  pub source : String

pub record DisplayEvidence : Type 0 where
  pub target : PlaybackTarget
  pub content : ContentRef
  pub confirmed : Bool
  pub observed_at : Datetime
  pub source : String

pub data EvidenceReason : Type 0 where
  awaiting_observation stale identity_unknown session_replaced ad_active : EvidenceReason
  ad_unknown not_playing position_unknown awaiting_progress : EvidenceReason
  progress_confirmed natural_completion stop_observed : EvidenceReason

abbrev pub is_stale : EvidenceReason → Bool
is_stale EvidenceReason.stale = true
is_stale _ = false

pub record PlaybackEvidence : Type 0 where
  pub identity_confirmed : Bool
  pub receiver_playback_confirmed : Bool
  pub natural_completion_confirmed : Bool
  pub reason : EvidenceReason

-- `last_sequence` is -1 before the first sample: `none` here.
pub record SessionSnapshot : Type 0 where
  pub scope : PlaybackScope
  pub revision : ℕ
  pub state : PlayerState
  pub evidence : PlaybackEvidence
  pub receipt : Option CommandReceipt
  pub latest : Option PlaybackObservation
  pub progress_anchor : Option PlaybackObservation
  pub has_confirmed_playback : Bool
  pub completion_anchor : Option PlaybackObservation
  pub completion : Option CompletionEvidence
  pub stop_requested : Bool
  pub stop_boundary : Option Instant
  pub last_sequence : Option ℕ
  pub last_monotonic : Option Instant
  pub ownership_lost : Bool
  pub release_boundary : Option Instant
  pub release_confirmed : Bool
  pub display : Option DisplayEvidence

unfoldable pub new_session : PlaybackScope → SessionSnapshot
new_session scope = record {
  scope = scope;
  revision = 0;
  state = PlayerState.unknown;
  evidence = record {
    identity_confirmed = false;
    receiver_playback_confirmed = false;
    natural_completion_confirmed = false;
    reason = EvidenceReason.awaiting_observation;
  };
  receipt = none;
  latest = none;
  progress_anchor = none;
  has_confirmed_playback = false;
  completion_anchor = none;
  completion = none;
  stop_requested = false;
  stop_boundary = none;
  last_sequence = none;
  last_monotonic = none;
  ownership_lost = false;
  release_boundary = none;
  release_confirmed = false;
  display = none;
}

pub record EvidencePolicy : Type 0 where
  pub max_age_seconds : Instant
  pub min_progress_interval_seconds : Instant

abbrev pub check_policy : EvidencePolicy → Result EvidencePolicy
check_policy p = do
  raise_if (p.max_age_seconds == 0 || p.min_progress_interval_seconds == 0) Fault.value_error
  raise_if (ltb p.max_age_seconds p.min_progress_interval_seconds) Fault.value_error
  ok p
