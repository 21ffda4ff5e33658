-- ===== src/Policy/Validity/Samples.antt =====
-- tellyq/domain/policy.py: a fresh sample keeps a session valid, stage by stage of `observe`.
use tellyq.Prelude.{◌≡◌, ◌<◌, Bool, true, none, some, ok, is_some, arith, Attains}
use tellyq.Values.{
  Instant, PlaybackObservation, check_observation, EvidenceReason, SessionSnapshot, EvidencePolicy,
}
use tellyq.Policy.Intents.{lost, unconfirmed}
use tellyq.Policy.Attribution.{finish_at}
use tellyq.Policy.Media.{progress, retained, hold_place, observe_stop, keep_chain}
use tellyq.Policy.Observe.{drop_release, observe_exit, control, settle, receive}
use tellyq.Policy.Rule.{Stages, receive-rule}
use tellyq.Policy.Validity.{IsValid, IsCounted}

-- A valid session that has counted the sample, and not yet drawn conclusions from it.
abbrev Taken : Instant → PlaybackObservation → SessionSnapshot → Type 0
Taken now o s = IsValid now s × IsCounted now o s

module _ (now : Instant) (o : PlaybackObservation) where
  drop_release-Taken : (s : SessionSnapshot) → Taken now o s → Taken now o (drop_release s o)
  unfolding drop_release
  drop_release-Taken s v = ground arith

  keep_chain-Taken :
      (s : SessionSnapshot) → Taken now o s → s.completion ≡ none → Taken now o (keep_chain s o)
  unfolding keep_chain
  keep_chain-Taken s v open_end = ground arith

  lost-IsValid : (s : SessionSnapshot) → Taken now o s → IsValid now (lost s o)
  unfolding lost
  lost-IsValid s v = ground arith

  observe_exit-IsValid : (s : SessionSnapshot) → Taken now o s → IsValid now (observe_exit s o)
  unfolding observe_exit lost
  observe_exit-IsValid s v = ground arith

  control-IsValid : (s : SessionSnapshot) → Taken now o s → IsValid now (control s)
  unfolding control
  control-IsValid s v = ground arith

  settle-IsValid :
      (s : SessionSnapshot) → Taken now o s → is_some s.completion ≡ true → IsValid now (settle s o)
  unfolding settle
  settle-IsValid s v ended = ground arith

  unconfirmed-IsValid :
      (s : SessionSnapshot) (reason : EvidenceReason) (identity retain : Bool)
      → Taken now o s
      → s.completion ≡ none
      → IsValid now (unconfirmed s o reason identity retain)
  unfolding unconfirmed
  unconfirmed-IsValid s reason identity retain v open_end = ground arith

  hold_place-IsValid :
      (s : SessionSnapshot)
      → Taken now o s
      → s.completion ≡ none
      → IsValid now
          (unconfirmed (hold_place s o) o EvidenceReason.not_playing true (retained o.state))
  unfolding hold_place unconfirmed
  hold_place-IsValid s v open_end = ground arith

  observe_stop-IsValid :
      (s : SessionSnapshot) → Taken now o s → s.completion ≡ none → IsValid now (observe_stop s o)
  unfolding observe_stop
  observe_stop-IsValid s v open_end = ground arith

  progress-IsValid :
      (s : SessionSnapshot) (position : Instant) (policy : EvidencePolicy)
      → Taken now o s
      → s.completion ≡ none
      → IsValid now (progress s o position now policy)
  unfolding progress
  progress-IsValid s position policy v open_end = ground arith

  anchor-lt :
      (s : SessionSnapshot) (anchor : PlaybackObservation)
      → Taken now o s
      → s.completion_anchor ≡ some anchor
      → anchor.sequence < o.sequence
  anchor-lt s anchor v found = ground arith

  -- An older anchor and a checked sample make the recorded completion a witness.
  finish_at-IsValid :
      (s : SessionSnapshot) (anchor : PlaybackObservation) (history : Bool)
      → check_observation o ≡ ok o
      → Taken now o s
      → anchor.sequence < o.sequence
      → IsValid now (finish_at s o anchor history)
  unfolding finish_at
  finish_at-IsValid s anchor history checked v older = ground arith

  Stages-IsValid :
      (policy : EvidencePolicy)
      → check_observation o ≡ ok o
      → Stages now policy o (Taken now o) (IsValid now)
  Stages-IsValid policy checked = record {
    dropped = drop_release-Taken;
    chained = keep_chain-Taken;
    released = lost-IsValid;
    exited = observe_exit-IsValid;
    controlled = control-IsValid;
    settled = settle-IsValid;
    unclear = unconfirmed-IsValid;
    held = hold_place-IsValid;
    stopped = observe_stop-IsValid;
    progressed = λ s position v open_end _ _ _ _ _. progress-IsValid s position policy v open_end;
    finished = λ _ s anchor _ v _ _ _ _ _ _ found.
        finish_at-IsValid s anchor _ checked v (anchor-lt s anchor v found);
  }

  pub receive-IsValid :
      (s : SessionSnapshot) (policy : EvidencePolicy)
      → check_observation o ≡ ok o
      → Taken now o s
      → Attains (IsValid now) (receive s o now policy)
  receive-IsValid s policy checked v =
      receive-rule o policy (Taken now o) (IsValid now) (Stages-IsValid policy checked) s v
