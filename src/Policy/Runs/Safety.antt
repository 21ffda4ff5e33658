-- ===== src/Policy/Runs/Safety.antt =====
-- tellyq/domain/policy.py: whatever the events, a session stays valid, and keeps what it settled.
use tellyq.Prelude.{◌≡◌, Result, ◌≤◌, ok, err, List, [], ◌∷◌, arith, subst, refl, ok-injective}
use tellyq.Values.{
  Instant, PlaybackScope, PlaybackObservation, SessionSnapshot, EvidencePolicy, new_session,
}
use tellyq.Policy.Observe.{observe}
use tellyq.Policy.Validity.{IsValid}
use tellyq.Policy.Validity.Events.{
  new_session-IsValid, later-IsValid, request_stop-IsValid, record_receipt-IsValid,
  record_display-IsValid, invalidate_history-IsValid, refresh-IsValid, observe-IsValid,
}
use tellyq.Policy.History.{
  Follows, Follows-refl, Follows-trans, refresh-Follows, observe-Follows, request_stop-Follows,
  record_receipt-Follows, record_display-Follows, invalidate_history-Follows,
}
use tellyq.Policy.Expiry.{observe_total}
use tellyq.Policy.Runs.{
  Event, begin_release, withdraw_release, step, kept_by, run, Checked, InOrder, end_time,
}

step-IsValid :
    (policy : EvidencePolicy) (now : Instant) (event : Event) (s : SessionSnapshot)
    {t : SessionSnapshot}
    → Checked event
    → IsValid now s
    → step policy now event s ≡ ok t
    → IsValid now t
unfolding step begin_release withdraw_release
step-IsValid policy now (Event.sample o) s checked v h = observe-IsValid s o now policy checked v h
step-IsValid policy now Event.expiry s checked v h = refresh-IsValid s now policy now v h
step-IsValid policy now (Event.stop_intent boundary) s checked v h =
    ground (arith, request_stop-IsValid s boundary now v)
step-IsValid policy now (Event.receipt r) s checked v h = record_receipt-IsValid s r now v h
step-IsValid policy now (Event.display d) s checked v h = record_display-IsValid s d now v h
step-IsValid policy now Event.gap s checked v h = ground (arith, invalidate_history-IsValid s now v)
step-IsValid policy now Event.release s checked v h = ground arith
step-IsValid policy now Event.release_withdrawn s checked v h = ground arith

step-Follows :
    (policy : EvidencePolicy) (now : Instant) (event : Event) (s : SessionSnapshot)
    {t : SessionSnapshot}
    → step policy now event s ≡ ok t
    → Follows s t
unfolding step begin_release withdraw_release
step-Follows policy now (Event.sample o) s h = observe-Follows s o now policy h
step-Follows policy now Event.expiry s h = refresh-Follows s now policy h
step-Follows policy now (Event.stop_intent boundary) s h =
    subst (Follows s) (ok-injective h) (request_stop-Follows s boundary)
step-Follows policy now (Event.receipt r) s h = record_receipt-Follows s r h
step-Follows policy now (Event.display d) s h = record_display-Follows s d h
step-Follows policy now Event.gap s h =
    subst (Follows s) (ok-injective h) (invalidate_history-Follows s)
step-Follows policy now Event.release s h = ground arith
step-Follows policy now Event.release_withdrawn s h = ground arith

kept_by-IsValid :
    (policy : EvidencePolicy) (now : Instant) (event : Event) (s : SessionSnapshot)
    (r : Result SessionSnapshot)
    → Checked event
    → IsValid now s
    → step policy now event s ≡ r
    → IsValid now (kept_by s r)
kept_by-IsValid policy now event s (ok t) checked v h = step-IsValid policy now event s checked v h
kept_by-IsValid policy now event s (err fault) checked v h = v

kept_by-Follows :
    (policy : EvidencePolicy) (now : Instant) (event : Event) (s : SessionSnapshot)
    (r : Result SessionSnapshot)
    → step policy now event s ≡ r
    → Follows s (kept_by s r)
kept_by-Follows policy now event s (ok t) h = step-Follows policy now event s h
kept_by-Follows policy now event s (err fault) h = Follows-refl s

run_from-IsValid :
    (policy : EvidencePolicy) (start : Instant) (s : SessionSnapshot)
    (events : List (Instant × Event))
    → IsValid start s
    → InOrder start events
    → IsValid (end_time start events) (run policy s events)
unfolding run
run_from-IsValid policy start s [] v order = v
run_from-IsValid policy start s ((now, event) ∷ events) v (later, checked, order) =
    run_from-IsValid policy now (kept_by s (step policy now event s)) events
      (kept_by-IsValid policy now event s (step policy now event s) checked
        (later-IsValid s start now later v) refl)
      order

-- A session that starts fresh is valid after any events, whichever of them are refused, where the
-- clock does not go back and every sample has passed its constructor's checks: its completion, if
-- it has one, is dated, sourced, attributed in order and no later than the last counted sample.
pub run-IsValid :
    (policy : EvidencePolicy) (scope : PlaybackScope) (start : Instant)
    (events : List (Instant × Event))
    → InOrder start events
    → IsValid (end_time start events) (run policy (new_session scope) events)
run-IsValid policy scope start events order =
    run_from-IsValid policy start (new_session scope) events (new_session-IsValid scope start) order

-- Whatever a session has been through since it started fresh, observing any sample at a time no
-- earlier than the last event returns a session: no sample finds telemetry that is newer than now,
-- and none that ends the session finds it without the anchor that `_finish` asserts. The clock does
-- not go back before, and every sample before has passed its constructor's checks.
pub observe-run_total :
    (policy : EvidencePolicy) (scope : PlaybackScope) (start : Instant)
    (events : List (Instant × Event)) (o : PlaybackObservation) (now : Instant)
    → InOrder start events
    → end_time start events ≤ now
    → (t : SessionSnapshot) × (observe (run policy (new_session scope) events) o now policy ≡ ok t)
observe-run_total policy scope start events o now order later =
    let s = run policy (new_session scope) events in
    observe_total s o now policy (
      later-IsValid s (end_time start events) now later
        (run-IsValid policy scope start events order))

-- After any events a session has its scope, a revision no lower, its completion unchanged if it
-- had one, its stop intent and its loss of ownership if it had them, and counters no lower; once
-- stop was requested, no completion is ever added.
pub run-Follows :
    (policy : EvidencePolicy) (s : SessionSnapshot) (events : List (Instant × Event))
    → Follows s (run policy s events)
unfolding run
run-Follows policy s [] = Follows-refl s
run-Follows policy s ((now, event) ∷ events) =
    let t = kept_by s (step policy now event s) in
    Follows-trans s t (run policy t events)
      (kept_by-Follows policy now event s (step policy now event s) refl)
      (run-Follows policy t events)
