-- ===== src/Policy/Validity.antt =====
-- tellyq/domain/policy.py: what holds of every session between two events, whatever the receiver
-- reports. The child modules show that each event keeps it.
pub mod Samples
pub mod Events
use tellyq.Prelude.{
  ℕ, ◌≤◌, ◌<◌, ◌≡◌, refl, Bool, true, false, Option, none, some, Result, ok, err, ◌==◌, string_eq,
  is_some, arith,
}
use tellyq.Values.{
  Instant, PlaybackObservation, check_observation, PlaybackScope, CompletionAttribution,
  CompletionEvidence, SessionSnapshot, EvidencePolicy, EvidenceReason,
}
use tellyq.Policy.Intents.{refresh, expire, lost, unconfirmed}
use tellyq.Policy.Attribution.{finish_at, source_of, incremental_identity}
use tellyq.Policy.Media.{progress, hold_place, observe_stop, conclude, keep_chain, observe_media}
use tellyq.Policy.Observe.{
  out_of_scope, repeated, count_sample, drop_release, observe_exit, foreign, observe_owned, receive,
  observe,
}

-- A value has been reached, or nothing later than `now` has.
abbrev pub Within : ℕ → Option ℕ → Type 0
Within n none = ⊥
Within n (some last) = n ≤ last

abbrev pub Bounded : Option ℕ → ℕ → Type 0
Bounded none now = Unit
Bounded (some last) now = last ≤ now

abbrev pub Attributed : CompletionAttribution → ℕ → ℕ → Type 0
Attributed CompletionAttribution.explicit identity sequence = identity ≡ sequence
Attributed CompletionAttribution.ordered_history identity sequence = identity < sequence

-- What a recorded completion says of the samples of its session.
pub record IsWitness (s : SessionSnapshot) (c : CompletionEvidence) : Type 0 where
  pub sourced : (c.source == "") ≡ false
  pub dated : c.observed_at.aware ≡ true
  pub attributed : Attributed c.attribution c.identity_sequence c.sequence
  pub counted : Within c.sequence s.last_sequence
  pub started : s.scope.started_monotonic < c.monotonic
  pub timed : Within c.monotonic s.last_monotonic

abbrev pub Recorded : SessionSnapshot → Option CompletionEvidence → Type 0
Recorded s none = Unit
Recorded s (some c) = IsWitness s c

abbrev pub Anchored : Option PlaybackObservation → Option ℕ → Type 0
Anchored none last = Unit
Anchored (some anchor) last = Within anchor.sequence last

abbrev pub Seen : Option PlaybackObservation → Instant → Type 0
Seen none now = Unit
Seen (some latest) now = latest.monotonic ≤ now

pub record IsValid (now : Instant) (s : SessionSnapshot) : Type 0 where
  pub clock : Bounded s.last_monotonic now
  pub recorded : Recorded s s.completion
  pub confirmed : s.evidence.natural_completion_confirmed ≡ is_some s.completion
  pub anchored : Anchored s.completion_anchor s.last_sequence
  pub seen : Seen s.latest now

abbrev pub Behind : Option PlaybackObservation → ℕ → Type 0
Behind none sequence = Unit
Behind (some anchor) sequence = anchor.sequence < sequence

-- The sample `o` is the last one counted, and every anchor is older.
pub record IsCounted (now : Instant) (o : PlaybackObservation) (s : SessionSnapshot) : Type 0 where
  pub sequenced : s.last_sequence ≡ some o.sequence
  pub timed : s.last_monotonic ≡ some o.monotonic
  pub started : s.scope.started_monotonic < o.monotonic
  pub reported : o.monotonic ≤ now
  pub behind : Behind s.completion_anchor o.sequence
