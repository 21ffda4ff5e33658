-- ===== src/Policy/History.antt =====
-- tellyq/domain/policy.py: what no event of a session undoes.
use tellyq.Prelude.{
  ℕ, ◌≤◌, ◌≡◌, Bool, true, false, Option, none, some, ok, ◌||◌, is_some, if-intro, if◌then◌else◌,
  >>=-eq-ok, Attains, Attains-of_ok, arith,
}
use tellyq.Values.{
  Instant, PlaybackObservation, CommandReceipt, DisplayEvidence, EvidenceReason, SessionSnapshot,
  EvidencePolicy,
}
use tellyq.Policy.Intents.{
  request_stop, record_receipt, record_display, refresh, expire, invalidate_history, lost,
  unconfirmed,
}
use tellyq.Policy.Attribution.{finish_at}
use tellyq.Policy.Media.{progress, retained, hold_place, observe_stop, is_terminal, keep_chain}
use tellyq.Policy.Observe.{
  out_of_scope, repeated, count_sample, drop_release, observe_exit, control, settle, receive,
  observe,
}
use tellyq.Policy.Rule.{Stages, receive-rule}

-- A value that is present stays.
abbrev pub Kept {ℓ} : {A : Type ℓ} → Option A → Option A → Type ℓ
Kept none b = Unit
Kept (some a) b = b ≡ some a

-- A counter that has started does not fall.
abbrev pub Advanced : Option ℕ → Option ℕ → Type 0
Advanced none b = Unit
Advanced (some m) none = ⊥
Advanced (some m) (some n) = m ≤ n

-- The later session `t` keeps what `s` has settled.
pub record Follows (s t : SessionSnapshot) : Type 0 where
  pub scoped : t.scope ≡ s.scope
  pub revised : s.revision ≤ t.revision
  pub completed : Kept s.completion t.completion
  pub canceled : s.stop_requested ≡ true → t.stop_requested ≡ true
  pub closed : s.stop_requested ≡ true → t.completion ≡ s.completion
  pub surrendered : s.ownership_lost ≡ true → t.ownership_lost ≡ true
  pub counted : Advanced s.last_sequence t.last_sequence
  pub timed : Advanced s.last_monotonic t.last_monotonic

pub Follows-refl : (s : SessionSnapshot) → Follows s s
Follows-refl s = ground arith

pub Follows-trans : (s t u : SessionSnapshot) → Follows s t → Follows t u → Follows s u
Follows-trans s t u f g = ground arith

module _ (s : SessionSnapshot) (now : Instant) (o : PlaybackObservation) where
  abbrev After : SessionSnapshot → Type 0
  After t = Follows s t

  drop_release-After : (t : SessionSnapshot) → After t → After (drop_release t o)
  unfolding drop_release
  drop_release-After t f = ground arith

  keep_chain-After : (t : SessionSnapshot) → After t → t.completion ≡ none → After (keep_chain t o)
  unfolding keep_chain
  keep_chain-After t f open_end = ground arith

  lost-After : (t : SessionSnapshot) → After t → After (lost t o)
  unfolding lost
  lost-After t f = ground arith

  observe_exit-After : (t : SessionSnapshot) → After t → After (observe_exit t o)
  unfolding observe_exit
  observe_exit-After t f = ground (arith, lost-After t f)

  control-After : (t : SessionSnapshot) → After t → After (control t)
  unfolding control
  control-After t f = ground arith

  settle-After : (t : SessionSnapshot) → After t → is_some t.completion ≡ true → After (settle t o)
  unfolding settle
  settle-After t f ended = ground arith

  unconfirmed-After :
      (t : SessionSnapshot) (reason : EvidenceReason) (identity retain : Bool)
      → After t
      → t.completion ≡ none
      → After (unconfirmed t o reason identity retain)
  unfolding unconfirmed
  unconfirmed-After t reason identity retain f open_end = ground arith

  hold_place-After :
      (t : SessionSnapshot)
      → After t
      → t.completion ≡ none
      → After (unconfirmed (hold_place t o) o EvidenceReason.not_playing true (retained o.state))
  unfolding hold_place unconfirmed
  hold_place-After t f open_end = ground arith

  observe_stop-After :
      (t : SessionSnapshot) → After t → t.completion ≡ none → After (observe_stop t o)
  unfolding observe_stop
  observe_stop-After t f open_end = ground arith

  progress-After :
      (t : SessionSnapshot) (position : Instant) (policy : EvidencePolicy)
      → After t
      → t.completion ≡ none
      → After (progress t o position now policy)
  unfolding progress
  progress-After t position policy f open_end = ground arith

  finish_at-After :
      (t : SessionSnapshot) (anchor : PlaybackObservation) (history : Bool)
      → After t
      → t.completion ≡ none
      → is_terminal t o ≡ true
      → After (finish_at t o anchor history)
  unfolding finish_at is_terminal
  finish_at-After t anchor history f open_end ends = ground arith

  Stages-After : (policy : EvidencePolicy) → Stages now policy o After After
  Stages-After policy = record {
    dropped = drop_release-After;
    chained = keep_chain-After;
    released = lost-After;
    exited = observe_exit-After;
    controlled = control-After;
    settled = settle-After;
    unclear = unconfirmed-After;
    held = hold_place-After;
    stopped = observe_stop-After;
    progressed = λ t position f open_end _ _ _ _ _. progress-After t position policy f open_end;
    finished = λ _ t anchor _ f open_end _ _ _ _ ends _. finish_at-After t anchor _ f open_end ends;
  }

  count_sample-After :
      (policy : EvidencePolicy)
      → (out_of_scope s o now policy || repeated s o) ≡ false
      → After (count_sample s o)
  unfolding count_sample repeated
  count_sample-After policy fresh = ground arith

  counted-After :
      (policy : EvidencePolicy)
      → Attains After (
          if out_of_scope s o now policy || repeated s o
          then ok s
          else receive (count_sample s o) o now policy)
  counted-After policy =
      if-intro (Attains After) (out_of_scope s o now policy || repeated s o) (λ _. Follows-refl s)
        (λ fresh.
          receive-rule o policy After After (Stages-After policy) (count_sample s o)
            (count_sample-After policy fresh))

pub refresh-Follows :
    (s : SessionSnapshot) (now : Instant) (policy : EvidencePolicy) {t : SessionSnapshot}
    → refresh s now policy ≡ ok t
    → Follows s t
unfolding refresh expire
refresh-Follows s now policy h = ground arith

pub observe-Follows :
    (s : SessionSnapshot) (o : PlaybackObservation) (now : Instant) (policy : EvidencePolicy)
    {t : SessionSnapshot}
    → observe s o now policy ≡ ok t
    → Follows s t
unfolding observe
observe-Follows s o now policy {t} h =
    let (s', refreshed, e) = >>=-eq-ok (refresh s now policy) _ h in
    Follows-trans s s' t (refresh-Follows s now policy refreshed)
      (Attains-of_ok (Follows s') _ (counted-After s' now o policy) e)

pub request_stop-Follows :
    (s : SessionSnapshot) (boundary : Option Instant) → Follows s (request_stop s boundary)
unfolding request_stop
request_stop-Follows s boundary = ground arith

pub record_receipt-Follows :
    (s : SessionSnapshot) (receipt : CommandReceipt) {t : SessionSnapshot}
    → record_receipt s receipt ≡ ok t
    → Follows s t
unfolding record_receipt
record_receipt-Follows s receipt h = ground arith

pub record_display-Follows :
    (s : SessionSnapshot) (display : DisplayEvidence) {t : SessionSnapshot}
    → record_display s display ≡ ok t
    → Follows s t
unfolding record_display
record_display-Follows s display h = ground arith

pub invalidate_history-Follows : (s : SessionSnapshot) → Follows s (invalidate_history s)
unfolding invalidate_history
invalidate_history-Follows s = ground arith
