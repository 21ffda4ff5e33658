-- ===== src/Examples/Sessions.antt =====
-- tellyq/domain/policy.py: one playback to its natural end, and one that is stopped.
use tellyq.Prelude.{
  ℕ, ◌≡◌, refl, true, false, Option, none, some, List, [], ◌∷◌, ok, is_some, arith,
}
use tellyq.Values.{
  Instant, ContentKind, ContentRef, PlaybackTarget, PlaybackScope, PlayerState, IdleReason,
  IdentityUpdate, ContentPhase, PlaybackObservation, SessionSnapshot, EvidencePolicy, new_session,
}
use tellyq.Policy.{
  request_stop, refresh, observe, expire, out_of_scope, repeated, count_sample, receive,
  drop_release, observe_owned, foreign, controls, observe_media, unidentified, interrupted,
  unqualified, qualified, incremental_identity, history_matches, keep_chain, conclude, is_terminal,
  end_or_go, present, at_position, progress, finish, finish_at, observe_stop, unconfirmed,
  hold_place,
}
use tellyq.Policy.Validity.{IsValid}
use tellyq.Policy.History.{Follows}
use tellyq.Policy.Completion.{Ended, observe-Ended}
use tellyq.Policy.Confirmation.{IsProgressed, observe-IsProgressed}
use tellyq.Policy.Expiry.{refresh_idem}
use tellyq.Policy.Runs.{Event, step, run}
use tellyq.Policy.Runs.Safety.{run-IsValid, run-Follows, observe-run_total}
use tellyq.QueuePolicy.{valid_completion}
use tellyq.QueuePolicy.Evidence.{run-valid_completion}

abbrev pub film : ContentRef
film = record {
  provider = "youtube";
  content_id = "FozIp7Va7dY";
  kind = ContentKind.video;
  title = none;
}

abbrev pub tv : PlaybackTarget
tv = record { device_id = "uuid-1"; route = "cast"; name = none }

abbrev pub scope : PlaybackScope
scope = record {
  request = record {
    request_id = "r1";
    attempt_id = "a1";
    queue_item_id = "i1";
    content = film;
    target = tv;
  };
  session_id = "s1";
  connection_generation = "g1";
  started_monotonic = 1;
  application_id = some "app";
}

abbrev pub policy : EvidencePolicy
policy = record { max_age_seconds = 5; min_progress_interval_seconds = 1 }

abbrev pub seen :
    ℕ → Instant → PlayerState → Option Instant → Option IdleReason → PlaybackObservation
seen sequence monotonic state position idle_reason = record {
  target = tv;
  connection_generation = "g1";
  sequence = sequence;
  observed_at = record { ticks = monotonic; aware = true };
  monotonic = monotonic;
  session_id = some "s1";
  content = some film;
  state = state;
  position = position;
  duration = none;
  ad_active = some false;
  idle_reason = idle_reason;
  source = "receiver";
  application_id = some "app";
  playback_id = some "p1";
  session_active = none;
  connection_reset = false;
  pause_supported = none;
  identity_update = IdentityUpdate.explicit;
  provider_evidence = none;
}

-- The provider's word for the phase of the content.
abbrev told : ContentPhase → PlaybackObservation → PlaybackObservation
told phase o = record o { provider_evidence = some (record { source = "youtube"; phase = phase }) }

abbrev pub first_sample : PlaybackObservation
first_sample = told ContentPhase.playing (seen 0 2 PlayerState.playing (some 100) none)

abbrev pub second_sample : PlaybackObservation
second_sample = told ContentPhase.playing (seen 1 4 PlayerState.playing (some 102) none)

abbrev pub last_sample : PlaybackObservation
last_sample = told ContentPhase.finished (seen 2 6 PlayerState.idle none (some IdleReason.finished))

abbrev pub whole : List (Instant × Event)
whole =
    (2, Event.sample first_sample)
    ∷ (4, Event.sample second_sample)
    ∷ (6, Event.sample last_sample)
    ∷ []

abbrev pub stopped_early : List (Instant × Event)
stopped_early =
    (2, Event.sample first_sample)
    ∷ (4, Event.sample second_sample)
    ∷ (5, Event.stop_intent (some 5))
    ∷ (6, Event.sample last_sample)
    ∷ []

abbrev playing : List (Instant × Event)
playing = (2, Event.sample first_sample) ∷ (4, Event.sample second_sample) ∷ []

-- Its line opens all that a session runs through.
unfoldable pub trace : List (Instant × Event) → SessionSnapshot
unfolding run step observe refresh new_session out_of_scope repeated count_sample receive
    drop_release observe_owned foreign controls observe_media unidentified interrupted unqualified
    qualified incremental_identity history_matches keep_chain conclude is_terminal end_or_go present
    at_position progress finish finish_at request_stop observe_stop unconfirmed hold_place
trace events = run policy (new_session scope) events

abbrev confirmed : SessionSnapshot
confirmed = run policy (new_session scope) playing

pub whole_ends : is_some (run policy (new_session scope) whole).completion ≡ true
unfolding trace
whole_ends = refl

stopped_early_ends : (run policy (new_session scope) stopped_early).completion ≡ none
unfolding trace
stopped_early_ends = refl

run-IsValid_example : IsValid 6 (run policy (new_session scope) whole)
run-IsValid_example =
    run-IsValid policy scope 1 whole
      (omega arith, refl, (omega arith, refl, (omega arith, refl, tt)))

run-Follows_example : Follows confirmed (run policy confirmed stopped_early)
run-Follows_example = run-Follows policy confirmed stopped_early

run-valid_completion_example : valid_completion (run policy (new_session scope) whole) 6 ≡ true
run-valid_completion_example =
    run-valid_completion policy scope 1 whole
      (omega arith, refl, (omega arith, refl, (omega arith, refl, tt))) whole_ends

observe_ends : observe confirmed last_sample 6 policy ≡ ok (run policy (new_session scope) whole)
unfolding trace
observe_ends = refl

open_before : confirmed.completion ≡ none
unfolding trace
open_before = refl

observe-Ended_example :
    Ended confirmed last_sample policy (run policy (new_session scope) whole).completion
observe-Ended_example =
    observe-Ended confirmed last_sample 6 policy (run policy (new_session scope) whole) open_before
      observe_ends

abbrev started : SessionSnapshot
started = run policy (new_session scope) ((2, Event.sample first_sample) ∷ [])

started_unconfirmed : started.evidence.receiver_playback_confirmed ≡ false
unfolding trace
started_unconfirmed = refl

observe_confirms : observe started second_sample 4 policy ≡ ok confirmed
unfolding trace
observe_confirms = refl

confirmed_now : confirmed.evidence.receiver_playback_confirmed ≡ true
unfolding trace
confirmed_now = refl

observe-IsProgressed_example : IsProgressed started second_sample 4 policy
observe-IsProgressed_example =
    observe-IsProgressed started second_sample 4 policy confirmed started_unconfirmed
      observe_confirms confirmed_now

observe-run_total_example :
    (t : SessionSnapshot) × (observe (run policy (new_session scope) playing) last_sample 6 policy
      ≡ ok t)
observe-run_total_example =
    observe-run_total policy scope 1 playing last_sample 6
      (omega arith, refl, (omega arith, refl, tt)) (omega arith)

abbrev stale : SessionSnapshot
stale = expire confirmed

refresh_at_20 : refresh confirmed 20 policy ≡ ok stale
unfolding trace
refresh_at_20 = refl

refresh_idem_example : refresh stale 20 policy ≡ ok stale
refresh_idem_example = refresh_idem confirmed 20 policy refresh_at_20
