-- ===== src/Policy/Validity/Events.antt =====
-- tellyq/domain/policy.py: every event of a session keeps it valid.
use tellyq.Prelude.{
  ◌≤◌, ◌≡◌, false, Option, ok, ◌||◌, >>=-eq-ok, if-intro, arith, Attains, Attains-of_ok,
  if◌then◌else◌,
}
use tellyq.Values.{
  Instant, PlaybackObservation, PlaybackScope, CommandReceipt, DisplayEvidence, SessionSnapshot,
  EvidencePolicy, check_observation, new_session,
}
use tellyq.Policy.Intents.{
  request_stop, record_receipt, record_display, refresh, expire, invalidate_history,
}
use tellyq.Policy.Observe.{out_of_scope, repeated, count_sample, receive, observe}
use tellyq.Policy.Validity.{IsValid, IsCounted}
use tellyq.Policy.Validity.Samples.{receive-IsValid}

pub new_session-IsValid : (scope : PlaybackScope) (now : Instant) → IsValid now (new_session scope)
unfolding new_session
new_session-IsValid scope now = ground arith

pub later-IsValid :
    (s : SessionSnapshot) (now later : Instant) → now ≤ later → IsValid now s → IsValid later s
later-IsValid s now later h v = ground arith

pub request_stop-IsValid :
    (s : SessionSnapshot) (boundary : Option Instant) (now : Instant)
    → IsValid now s
    → IsValid now (request_stop s boundary)
unfolding request_stop
request_stop-IsValid s boundary now v = ground arith

pub record_receipt-IsValid :
    (s : SessionSnapshot) (receipt : CommandReceipt) (now : Instant) {t : SessionSnapshot}
    → IsValid now s
    → record_receipt s receipt ≡ ok t
    → IsValid now t
unfolding record_receipt
record_receipt-IsValid s receipt now v h = ground arith

pub record_display-IsValid :
    (s : SessionSnapshot) (display : DisplayEvidence) (now : Instant) {t : SessionSnapshot}
    → IsValid now s
    → record_display s display ≡ ok t
    → IsValid now t
unfolding record_display
record_display-IsValid s display now v h = ground arith

pub invalidate_history-IsValid :
    (s : SessionSnapshot) (now : Instant) → IsValid now s → IsValid now (invalidate_history s)
unfolding invalidate_history
invalidate_history-IsValid s now v = ground arith

pub refresh-IsValid :
    (s : SessionSnapshot) (at : Instant) (policy : EvidencePolicy) (now : Instant)
    {t : SessionSnapshot}
    → IsValid now s
    → refresh s at policy ≡ ok t
    → IsValid now t
unfolding refresh expire
refresh-IsValid s at policy now v h = ground arith

count_sample-IsValid :
    (s : SessionSnapshot) (o : PlaybackObservation) (now : Instant) (policy : EvidencePolicy)
    → IsValid now s
    → (out_of_scope s o now policy || repeated s o) ≡ false
    → IsValid now (count_sample s o)
unfolding count_sample out_of_scope repeated
count_sample-IsValid s o now policy v h = ground arith

count_sample-IsCounted :
    (s : SessionSnapshot) (o : PlaybackObservation) (now : Instant) (policy : EvidencePolicy)
    → IsValid now s
    → (out_of_scope s o now policy || repeated s o) ≡ false
    → IsCounted now o (count_sample s o)
unfolding count_sample out_of_scope repeated
count_sample-IsCounted s o now policy v h = ground arith

counted-IsValid :
    (s : SessionSnapshot) (o : PlaybackObservation) (now : Instant) (policy : EvidencePolicy)
    → check_observation o ≡ ok o
    → IsValid now s
    → Attains (IsValid now) (
        if out_of_scope s o now policy || repeated s o
        then ok s
        else receive (count_sample s o) o now policy)
counted-IsValid s o now policy checked v =
    if-intro (Attains (IsValid now)) (out_of_scope s o now policy || repeated s o) (λ _. v)
      (λ fresh. receive-IsValid now o (count_sample s o) policy checked (
        count_sample-IsValid s o now policy v fresh,
        count_sample-IsCounted s o now policy v fresh,
      ))

-- An observed sample keeps the session valid.
pub observe-IsValid :
    (s : SessionSnapshot) (o : PlaybackObservation) (now : Instant) (policy : EvidencePolicy)
    {t : SessionSnapshot}
    → check_observation o ≡ ok o
    → IsValid now s
    → observe s o now policy ≡ ok t
    → IsValid now t
unfolding observe
observe-IsValid s o now policy checked v h =
    let (s', refreshed, e) = >>=-eq-ok (refresh s now policy) _ h in
    Attains-of_ok (IsValid now) _
      (counted-IsValid s' o now policy checked (refresh-IsValid s now policy now v refreshed)) e
