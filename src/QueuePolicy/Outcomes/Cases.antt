-- ===== src/QueuePolicy/Outcomes/Cases.antt =====
-- tellyq/domain/queue_policy.py: every decision has an outcome.
use tellyq.Prelude.{
  ◌≡◌, refl, Bool, true, false, Option, none, some, Result, ok, err, ◌==◌, not, last, if-intro,
  ◌>>=◌, >>=-eq-ok, ok-injective, arith,
}
use tellyq.Values.{SessionSnapshot}
use tellyq.Queue.{QueueIntent, queue_intent_eq, QueueEntry, QueueAttempt}
use tellyq.QueuePolicy.Decisions.{QueueReason, QueueAuthority, QueueDecision, held}
use tellyq.QueuePolicy.Queues.{valid_queue}
use tellyq.QueuePolicy.Receivers.{receiver_ready}
use tellyq.QueuePolicy.Decide.{
  Inputs, lost_in, next_pending, offer, unsettled, advance, finish_stands, native_started,
  held_unless, between, start_unresolved, unwarranted, settle_current, skip_mismatched, on_current,
  on_latest, session_missing, unstarted_history, with_session, matched, out_of_authority,
  needs_owner, command_open, if_fitting, authorized, by_authority, is_canceled, stop_journaled,
  decide_queue,
}
use tellyq.QueuePolicy.Outcomes.{IsCleared, IsRested, Outcome, waits, settles, completes, readies}

module _ (i : Inputs) (authority : Option QueueAuthority) (d : QueueDecision) where
  -- A result that is a decision has an outcome.
  abbrev Yields : Result QueueDecision → Type 0
  Yields r = r ≡ ok d → Outcome i authority d

  waiting : (reason : QueueReason) → Yields (ok (held i.queue reason))
  waiting reason h = waits reason (ok-injective h)

  module _ (a : QueueAuthority) (given : authority ≡ some a) (cleared : IsCleared i a) where
    offer-Yields :
        (item : Option QueueEntry)
        → IsRested i
        → next_pending i.queue ≡ item
        → Yields (ok (offer i a item))
    unfolding offer
    offer-Yields none rested found = λ h. completes a given cleared rested found (ok-injective h)
    offer-Yields (some item) rested found =
        if-intro (λ r. Yields (ok r)) (receiver_ready i.queue i.session a i.receiver i.now i.policy)
          (λ ready h. readies a item given cleared rested found ready (ok-injective h))
          (λ _. waiting QueueReason.receiver_unconfirmed)

    advance-Yields :
        i.queue.reconciliation_required ≡ false
        → native_started i.queue ≡ false
        → lost_in i.session ≡ false
        → finish_stands i (last i.queue.attempts) i.session ≡ ok true
        → Yields (ok (advance i a))
    unfolding advance
    advance-Yields reconciled local unreplaced standing =
        if-intro (λ r. Yields (ok r)) (unsettled i.queue) (λ _. waiting QueueReason.needs_attention)
          (λ settled.
            offer-Yields (next_pending i.queue)
              (record {
                reconciled = reconciled;
                local = local;
                unreplaced = unreplaced;
                standing = standing;
                settled = settled;
              })
              refl)

    standing-Yields :
        (r : Result Bool)
        → finish_stands i (last i.queue.attempts) i.session ≡ r
        → i.queue.reconciliation_required ≡ false
        → native_started i.queue ≡ false
        → lost_in i.session ≡ false
        → Yields (r >>= held_unless i.queue QueueReason.invalid_completion (advance i a))
    standing-Yields (ok true) e reconciled local unreplaced =
        advance-Yields reconciled local unreplaced e
    standing-Yields (ok false) e reconciled local unreplaced =
        waiting QueueReason.invalid_completion
    standing-Yields (err fault) e reconciled local unreplaced = λ h. cc

    between-Yields : Yields (between i a)
    unfolding between
    between-Yields =
        if-intro Yields i.queue.reconciliation_required
          (λ _. waiting QueueReason.reconciliation_required)
          (λ reconciled.
            if-intro Yields (native_started i.queue)
              (λ _. waiting QueueReason.native_successor_required)
              (λ local.
                if-intro Yields (lost_in i.session) (λ _. waiting QueueReason.receiver_replaced)
                  (λ unreplaced. standing-Yields _ refl reconciled local unreplaced)))

    settle_current-Yields :
        (attempt : QueueAttempt) (session : SessionSnapshot)
        → i.session ≡ some session
        → last i.queue.attempts ≡ some attempt
        → (attempt.intent == QueueIntent.current) ≡ true
        → skip_mismatched i.skip (some attempt) ≡ false
        → Yields (settle_current i attempt session)
    unfolding settle_current
    settle_current-Yields attempt session present latest current matching =
        if-intro Yields (unwarranted i session) (λ _. waiting _)
          (λ warranted.
            if-intro Yields (start_unresolved i.queue attempt)
              (λ _. waiting QueueReason.command_unresolved)
              (λ started h.
                let (id, named, e) = >>=-eq-ok _ _ h in
                settles a attempt session id given cleared
                  (record {
                    present = present;
                    latest = latest;
                    current = current;
                    warranted = warranted;
                    started = started;
                    matching = matching;
                    named = named;
                  })
                  (ok-injective e)))

    on_current-Yields :
        (attempt : QueueAttempt) (session : Option SessionSnapshot)
        → i.session ≡ session
        → last i.queue.attempts ≡ some attempt
        → (attempt.intent == QueueIntent.current) ≡ true
        → skip_mismatched i.skip (some attempt) ≡ false
        → Yields (on_current i attempt session)
    on_current-Yields attempt none present latest current matching = λ h. cc
    on_current-Yields attempt (some session) present latest current matching =
        settle_current-Yields attempt session present latest current matching

    on_latest-Yields :
        (attempt : Option QueueAttempt)
        → last i.queue.attempts ≡ attempt
        → skip_mismatched i.skip attempt ≡ false
        → Yields (on_latest i a attempt i.session)
    on_latest-Yields none latest matching = between-Yields
    on_latest-Yields (some attempt) latest matching =
        if-intro Yields (attempt.intent == QueueIntent.current)
          (λ current. on_current-Yields attempt i.session refl latest current matching)
          (λ _. between-Yields)

    with_session-Yields : Yields (with_session i a)
    unfolding with_session
    with_session-Yields =
        if-intro Yields (session_missing i) (λ _. waiting QueueReason.session_required)
          (λ _.
            if-intro Yields (unstarted_history i.queue) (λ _. waiting QueueReason.needs_attention)
              (λ _.
                if-intro Yields (skip_mismatched i.skip (last i.queue.attempts))
                  (λ _. waiting QueueReason.scope_mismatch)
                  (λ matching. on_latest-Yields (last i.queue.attempts) refl matching)))

  fitting-Yields :
      (a : QueueAuthority) (r : Result Bool)
      → authority ≡ some a
      → matched i a i.session ≡ r
      → (matched i a i.session ≡ ok true → IsCleared i a)
      → Yields (r >>= if_fitting i a)
  unfolding if_fitting
  fitting-Yields a (ok true) given fits cleared = with_session-Yields a given (cleared fits)
  fitting-Yields a (ok false) given fits cleared = waiting QueueReason.scope_mismatch
  fitting-Yields a (err fault) given fits cleared = λ h. cc

  authorized-Yields :
      (a : QueueAuthority)
      → authority ≡ some a
      → is_canceled i ≡ false
      → not (valid_queue i.queue) ≡ false
      → stop_journaled i.queue ≡ false
      → Yields (authorized i a)
  unfolding authorized
  authorized-Yields a given uncanceled consistent unstopped =
      if-intro Yields (out_of_authority i a) (λ _. waiting QueueReason.scope_mismatch)
        (λ owned.
          if-intro Yields (needs_owner i.queue) (λ _. waiting QueueReason.needs_attention)
            (λ unowed.
              if-intro Yields (command_open i.queue) (λ _. waiting QueueReason.command_unresolved)
                (λ resolved. fitting-Yields a _ given refl (λ fits. record {
                  uncanceled = uncanceled;
                  consistent = ground arith;
                  unstopped = unstopped;
                  owned = owned;
                  unowed = unowed;
                  resolved = resolved;
                  fitting = fits;
                }))))

  by_authority-Yields :
      (given : Option QueueAuthority)
      → authority ≡ given
      → is_canceled i ≡ false
      → not (valid_queue i.queue) ≡ false
      → stop_journaled i.queue ≡ false
      → Yields (by_authority i given)
  by_authority-Yields none given uncanceled consistent unstopped =
      waiting QueueReason.authority_required
  by_authority-Yields (some a) given uncanceled consistent unstopped =
      authorized-Yields a given uncanceled consistent unstopped

  pub decide_queue-Outcome : decide_queue i authority ≡ ok d → Outcome i authority d
  unfolding decide_queue
  decide_queue-Outcome =
      if-intro Yields (is_canceled i) (λ _. waiting QueueReason.canceled)
        (λ uncanceled.
          if-intro Yields (not (valid_queue i.queue)) (λ _. waiting QueueReason.invalid_queue)
            (λ consistent.
              if-intro Yields (stop_journaled i.queue) (λ _. waiting QueueReason.canceled)
                (λ unstopped. by_authority-Yields authority refl uncanceled consistent unstopped)))
