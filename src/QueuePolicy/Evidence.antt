-- ===== src/QueuePolicy/Evidence.antt =====
-- tellyq/domain/policy.py, tellyq/domain/queue_policy.py: the completion that the playback policy
-- records is the one that the queue policy asks for.
use tellyq.Prelude.{◌≡◌, true, List, is_some, arith}
use tellyq.Values.{Instant, PlaybackScope, SessionSnapshot, EvidencePolicy, new_session}
use tellyq.Policy.Validity.{IsValid}
use tellyq.Policy.Runs.{Event, run, InOrder, end_time}
use tellyq.Policy.Runs.Safety.{run-IsValid}
use tellyq.QueuePolicy.Receivers.{valid_completion}

valid_completion-IsValid :
    (s : SessionSnapshot) (now : Instant)
    → IsValid now s
    → is_some s.completion ≡ true
    → valid_completion s now ≡ true
unfolding valid_completion
valid_completion-IsValid s now v ended = ground arith

-- A completion that a session has recorded, after any events from a fresh start, passes the
-- queue's test of completions at the time of the last event, where the clock does not go back and
-- every sample has passed its constructor's checks.
pub run-valid_completion :
    (policy : EvidencePolicy) (scope : PlaybackScope) (start : Instant)
    (events : List (Instant × Event))
    → InOrder start events
    → is_some (run policy (new_session scope) events).completion ≡ true
    → valid_completion (run policy (new_session scope) events) (end_time start events) ≡ true
run-valid_completion policy scope start events order ended =
    valid_completion-IsValid (run policy (new_session scope) events) (end_time start events)
      (run-IsValid policy scope start events order) ended
