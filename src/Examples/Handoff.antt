-- ===== src/Examples/Handoff.antt =====
-- tellyq/handoff.py: a natural end that may be released, and one that an ad vetoed.
use tellyq.Prelude.{◌≡◌, refl, true, false, none, some, List, [], ◌∷◌}
use tellyq.Values.{PlayerState, IdleReason, PlaybackObservation, SessionSnapshot, new_session}
use tellyq.Policy.Runs.{run}
use tellyq.Handoff.{
  HandoffReason, HandoffVeto, evidence_of, ReleaseAuthority, is_active_phase, veto_checks,
  veto_reason, tracked, track_event, new_authority, track_release, unqualified_terminal,
  receiver_differs, media_differs, state_unqualified, is_unqualified_phase, media_decision,
  receiver_decision, terminal_decision, release_decision, may_release,
}
use tellyq.Handoff.Vetoes.{track_batches, track_release-again, track_batches-vetoed}
use tellyq.Handoff.Eligibility.{IsReleasable, may_release-IsReleasable}
use tellyq.Examples.Sessions.{scope, policy, seen, last_sample, whole, trace, whole_ends}

abbrev ended : SessionSnapshot
ended = run policy (new_session scope) whole

abbrev receiver_sample : PlaybackObservation
receiver_sample = record (seen 3 7 PlayerState.unknown none none) {
  session_active = some true;
  content = none;
  playback_id = none;
}

abbrev media_sample : PlaybackObservation
media_sample = seen 4 8 PlayerState.idle none (some IdleReason.finished)

abbrev batch : List PlaybackObservation
batch = last_sample ∷ receiver_sample ∷ media_sample ∷ []

releasable : may_release ended (track_release ended batch none) batch 8 ≡ true
unfolding trace may_release release_decision terminal_decision receiver_decision media_decision
    unqualified_terminal receiver_differs media_differs state_unqualified is_unqualified_phase
    track_release track_event tracked veto_reason veto_checks is_active_phase
releasable = refl

may_release-IsReleasable_example :
    (a : ReleaseAuthority) × (track_release ended batch none ≡ some a)
    × IsReleasable ended a batch 8
may_release-IsReleasable_example =
    may_release-IsReleasable ended (track_release ended batch none) batch 8 releasable

track_release-again_example :
    track_release ended batch (track_release ended batch none) ≡ track_release ended batch none
track_release-again_example = track_release-again ended batch none

-- An ad starts right after the end.
abbrev ad_sample : PlaybackObservation
ad_sample = record (seen 3 7 PlayerState.idle none none) { ad_active = some true }

abbrev ad_veto : HandoffVeto
ad_veto = record {
  reason = HandoffReason.ad_active;
  evidence = evidence_of ended ad_sample (some (new_authority last_sample)) none;
}

abbrev vetoed : ReleaseAuthority
vetoed = tracked ended ad_sample (new_authority last_sample)

has_veto : vetoed.first_veto ≡ some ad_veto
unfolding trace tracked veto_reason veto_checks is_active_phase
has_veto = refl

blocked : vetoed.blocked ≡ true
unfolding trace tracked veto_reason veto_checks is_active_phase
blocked = refl

abbrev later : List (SessionSnapshot × List PlaybackObservation)
later = (ended, media_sample ∷ []) ∷ (ended, batch) ∷ []

track_batches-vetoed_example :
    (may_release ended (track_batches later (some vetoed)) batch 8 ≡ false)
    × ((release_decision ended (track_batches later (some vetoed)) batch 8).first_veto
        ≡ some ad_veto)
track_batches-vetoed_example =
    track_batches-vetoed later vetoed ad_veto has_veto blocked (whole_ends, (whole_ends, tt)) ended
      batch 8
