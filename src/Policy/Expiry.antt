-- ===== src/Policy/Expiry.antt =====
-- tellyq/domain/policy.py: expiry of telemetry, and when nothing is raised.
use tellyq.Prelude.{
  ◌≡◌, ok, err, arith, ◌≢◌, ◌||◌, inl, inr, Fault, Result-cases, Returns, Returns-bind,
  Returns-of_attained, if-intro, refl,
}
use tellyq.Values.{Instant, PlaybackObservation, SessionSnapshot, EvidencePolicy}
use tellyq.Policy.Intents.{refresh, expire}
use tellyq.Policy.Observe.{out_of_scope, repeated, receive, count_sample, observe}
use tellyq.Policy.Rule.{Stages, receive-rule}
use tellyq.Policy.Validity.{IsValid}

-- Refreshing twice at one time is refreshing once: the second call returns the session unchanged.
pub refresh_idem :
    (s : SessionSnapshot) (now : Instant) (policy : EvidencePolicy) {t : SessionSnapshot}
    → refresh s now policy ≡ ok t
    → refresh t now policy ≡ ok t
unfolding refresh expire
refresh_idem s now policy h = ground arith

refresh-ne-err :
    (s : SessionSnapshot) (now : Instant) (policy : EvidencePolicy) (e : Fault)
    → IsValid now s
    → refresh s now policy ≢ err e
unfolding refresh
refresh-ne-err s now policy e v = ground arith

refresh_total :
    (s : SessionSnapshot) (now : Instant) (policy : EvidencePolicy)
    → IsValid now s
    → Returns (refresh s now policy)
refresh_total s now policy v = elim (Result-cases (refresh s now policy)) [
  | inl found ↦ found
  | inr (e, raised) ↦ absurd (refresh-ne-err s now policy e v raised)
]

-- No stage of a fresh sample raises: the sample that ends a session has found its anchor.
Stages-any :
    (now : Instant) (policy : EvidencePolicy) (o : PlaybackObservation)
    → Stages now policy o (λ _. Unit) (λ _. Unit)
Stages-any now policy o = record {
  dropped = λ _ _. tt;
  chained = λ _ _ _. tt;
  released = λ _ _. tt;
  exited = λ _ _. tt;
  controlled = λ _ _. tt;
  settled = λ _ _ _. tt;
  unclear = λ _ _ _ _ _ _. tt;
  held = λ _ _ _. tt;
  stopped = λ _ _ _. tt;
  progressed = λ _ _ _ _ _ _ _ _ _. tt;
  finished = λ _ _ _ _ _ _ _ _ _ _ _ _. tt;
}

receive_total :
    (s : SessionSnapshot) (o : PlaybackObservation) (now : Instant) (policy : EvidencePolicy)
    → Returns (receive s o now policy)
receive_total s o now policy =
    Returns-of_attained (λ _. Unit) (receive s o now policy)
      (receive-rule o policy (λ _. Unit) (λ _. Unit) (Stages-any now policy o) s tt)

pub observe_total :
    (s : SessionSnapshot) (o : PlaybackObservation) (now : Instant) (policy : EvidencePolicy)
    → IsValid now s
    → Returns (observe s o now policy)
unfolding observe
observe_total s o now policy v =
    Returns-bind (refresh s now policy) _ (refresh_total s now policy v) (λ t _.
      if-intro Returns (out_of_scope t o now policy || repeated t o) (λ _. (t, refl))
        (λ _. receive_total (count_sample t o) o now policy))
