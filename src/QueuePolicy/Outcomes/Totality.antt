-- ===== src/QueuePolicy/Outcomes/Totality.antt =====
-- tellyq/domain/queue_policy.py: the assertions and lookups of a decision never fail.
use tellyq.Prelude.{
  ◌≡◌, refl, Bool, true, false, Option, none, some, List, [], ◌∷◌, Returns, Returns-bind, ◌==◌,
  string_eq, not, ◌&&◌, is_some, is_empty, all, first, last, if-intro, holds-last, arith,
}
use tellyq.Values.{Instant, CompletionEvidence, SessionSnapshot}
use tellyq.Queue.{QueueIntent, queue_intent_eq, QueueEntry, QueueAttempt, QueueSnapshot}
use tellyq.QueuePolicy.Decisions.{QueueAuthority, QueueReason, QueueDecision, SkipIntent}
use tellyq.QueuePolicy.Queues.{valid_queue, valid_attempt}
use tellyq.QueuePolicy.Receivers.{session_matches, matches_found, matches_latest, valid_completion}
use tellyq.QueuePolicy.Identity.{Digests, parts_for, digest_of, decision_parts, decision_id}
use tellyq.QueuePolicy.Decide.{
  Inputs, lost_in, stands_with, finish_stands, native_started, held_unless, between,
  start_unresolved, unwarranted, settle_current, skip_mismatched, on_current, on_latest,
  session_missing, unstarted_history, with_session, matched, out_of_authority, needs_owner,
  command_open, if_fitting, authorized, by_authority, is_canceled, stop_journaled, decide_queue,
}

valid_queue-attempts :
    (queue : QueueSnapshot)
    → valid_queue queue ≡ true
    → all (valid_attempt queue) queue.attempts ≡ true
unfolding valid_queue
valid_queue-attempts queue h = ground arith

valid_attempt-item :
    (queue : QueueSnapshot) (attempt : QueueAttempt)
    → valid_attempt queue attempt ≡ true
    → is_some (first (λ i. i.item_id == attempt.item_id) queue.items) ≡ true
unfolding valid_attempt
valid_attempt-item queue attempt h = ground arith

matches_found-Returns :
    (queue : QueueSnapshot) (session : SessionSnapshot) (a : QueueAuthority) (now : Instant)
    (attempt : QueueAttempt) (item : Option QueueEntry)
    → is_some item ≡ true
    → Returns (matches_found queue session a now attempt item)
matches_found-Returns queue session a now attempt none found = cc
matches_found-Returns queue session a now attempt (some item) found = (_, refl)

matches_latest-Returns :
    (queue : QueueSnapshot) (session : SessionSnapshot) (a : QueueAuthority) (now : Instant)
    (attempt : Option QueueAttempt)
    → valid_queue queue ≡ true
    → last queue.attempts ≡ attempt
    → Returns (matches_latest queue session a now attempt)
matches_latest-Returns queue session a now none valid latest = (false, refl)
matches_latest-Returns queue session a now (some attempt) valid latest =
    matches_found-Returns queue session a now attempt _ (
      valid_attempt-item queue attempt
        (holds-last (valid_attempt queue) queue.attempts (valid_queue-attempts queue valid) latest))

matched-Returns :
    (i : Inputs) (a : QueueAuthority) (session : Option SessionSnapshot)
    → valid_queue i.queue ≡ true
    → Returns (matched i a session)
unfolding session_matches
matched-Returns i a none valid = (true, refl)
matched-Returns i a (some session) valid =
    matches_latest-Returns i.queue session a i.now (last i.queue.attempts) valid refl

parts_for-Returns :
    (digests : Digests) (queue : QueueSnapshot) (session : SessionSnapshot)
    (skip : Option SkipIntent) (completion : Option CompletionEvidence)
    → (not (is_some skip) && not (is_some completion)) ≡ false
    → Returns (digest_of digests (parts_for digests queue session skip completion))
parts_for-Returns digests queue session (some skip) completion h = (_, refl)
parts_for-Returns digests queue session none (some c) h = (_, refl)
parts_for-Returns digests queue session none none h = cc

decision_id-Returns :
    (digests : Digests) (queue : QueueSnapshot) (session : SessionSnapshot)
    (skip : Option SkipIntent)
    → (not (is_some skip) && not (is_some session.completion)) ≡ false
    → Returns (decision_id digests queue session skip)
unfolding decision_id decision_parts
decision_id-Returns digests queue session skip h =
    parts_for-Returns digests queue session skip session.completion h

valid_completion-is_some :
    (session : SessionSnapshot) (now : Instant)
    → valid_completion session now ≡ true
    → is_some session.completion ≡ true
unfolding valid_completion
valid_completion-is_some session now h = ground arith

module _ (i : Inputs) (a : QueueAuthority) where
  stands_with-Returns :
      (attempt : QueueAttempt) (session : Option SessionSnapshot)
      → is_some session ≡ true
      → Returns (stands_with i attempt session)
  stands_with-Returns attempt none known = cc
  stands_with-Returns attempt (some s) known =
      if-intro Returns (not (valid_completion s i.now)) (λ _. (false, refl))
        (λ valid.
          Returns-bind _ _
            (decision_id-Returns i.digests i.queue s none
              (ground (arith, valid_completion-is_some s i.now)))
            (λ id _. (_, refl)))

  finish_stands-Returns :
      (attempt : Option QueueAttempt)
      → (is_some attempt ≡ true → is_some i.session ≡ true)
      → Returns (finish_stands i attempt i.session)
  finish_stands-Returns none known = (true, refl)
  finish_stands-Returns (some attempt) known =
      if-intro Returns (attempt.intent == QueueIntent.finished)
        (λ _. stands_with-Returns attempt i.session (known refl)) (λ _. (true, refl))

  held_unless-Returns :
      (reason : QueueReason) (d : QueueDecision) (stands : Bool)
      → Returns (held_unless i.queue reason d stands)
  held_unless-Returns reason d true = (_, refl)
  held_unless-Returns reason d false = (_, refl)

  between-Returns :
      (is_some (last i.queue.attempts) ≡ true → is_some i.session ≡ true) → Returns (between i a)
  unfolding between
  between-Returns known =
      if-intro Returns i.queue.reconciliation_required (λ _. (_, refl))
        (λ _.
          if-intro Returns (native_started i.queue) (λ _. (_, refl))
            (λ _.
              if-intro Returns (lost_in i.session) (λ _. (_, refl))
                (λ _.
                  Returns-bind _ _ (finish_stands-Returns (last i.queue.attempts) known)
                    (λ stands _. held_unless-Returns _ _ stands))))

  settle_current-Returns :
      (attempt : QueueAttempt) (session : SessionSnapshot)
      → Returns (settle_current i attempt session)
  unfolding settle_current unwarranted
  settle_current-Returns attempt session =
      if-intro Returns (not (is_some i.skip) && not (valid_completion session i.now))
        (λ _. (_, refl))
        (λ warranted.
          if-intro Returns (start_unresolved i.queue attempt) (λ _. (_, refl))
            (λ _.
              Returns-bind _ _
                (decision_id-Returns i.digests i.queue session i.skip
                  (ground (arith, valid_completion-is_some session i.now)))
                (λ id _. (_, refl))))

  on_current-Returns :
      (attempt : QueueAttempt) (session : Option SessionSnapshot)
      → is_some session ≡ true
      → Returns (on_current i attempt session)
  on_current-Returns attempt none known = cc
  on_current-Returns attempt (some s) known = settle_current-Returns attempt s

  on_latest-Returns :
      (attempt : Option QueueAttempt)
      → last i.queue.attempts ≡ attempt
      → (is_some (last i.queue.attempts) ≡ true → is_some i.session ≡ true)
      → Returns (on_latest i a attempt i.session)
  on_latest-Returns none latest known = between-Returns known
  on_latest-Returns (some attempt) latest known =
      if-intro Returns (attempt.intent == QueueIntent.current)
        (λ _. on_current-Returns attempt i.session (known (rw latest))) (λ _. between-Returns known)

  session_known :
      (attempts : List QueueAttempt)
      → (not (is_empty attempts) && not (is_some i.session)) ≡ false
      → is_some (last attempts) ≡ true
      → is_some i.session ≡ true
  session_known [] h some_attempt = cc
  session_known (attempt ∷ attempts) h some_attempt = ground arith

  with_session-Returns : Returns (with_session i a)
  unfolding with_session session_missing
  with_session-Returns =
      if-intro Returns (not (is_empty i.queue.attempts) && not (is_some i.session)) (λ _. (_, refl))
        (λ present.
          if-intro Returns (unstarted_history i.queue) (λ _. (_, refl))
            (λ _.
              if-intro Returns (skip_mismatched i.skip (last i.queue.attempts)) (λ _. (_, refl))
                (λ _.
                  on_latest-Returns (last i.queue.attempts) refl
                    (session_known i.queue.attempts present))))

  if_fitting-Returns : (fits : Bool) → Returns (if_fitting i a fits)
  unfolding if_fitting
  if_fitting-Returns true = with_session-Returns
  if_fitting-Returns false = (_, refl)

  authorized-Returns : valid_queue i.queue ≡ true → Returns (authorized i a)
  unfolding authorized
  authorized-Returns valid =
      if-intro Returns (out_of_authority i a) (λ _. (_, refl))
        (λ _.
          if-intro Returns (needs_owner i.queue) (λ _. (_, refl))
            (λ _.
              if-intro Returns (command_open i.queue) (λ _. (_, refl))
                (λ _.
                  Returns-bind _ _ (matched-Returns i a i.session valid)
                    (λ fits _. if_fitting-Returns fits))))

by_authority-Returns :
    (i : Inputs) (authority : Option QueueAuthority)
    → valid_queue i.queue ≡ true
    → Returns (by_authority i authority)
by_authority-Returns i none valid = (_, refl)
by_authority-Returns i (some a) valid = authorized-Returns i a valid

-- Deciding raises nothing, whatever the queue, the session, the evidence and the authority.
pub decide_queue_total :
    (i : Inputs) (authority : Option QueueAuthority) → Returns (decide_queue i authority)
unfolding decide_queue
decide_queue_total i authority =
    if-intro Returns (is_canceled i) (λ _. (_, refl))
      (λ _.
        if-intro Returns (not (valid_queue i.queue)) (λ _. (_, refl))
          (λ valid.
            if-intro Returns (stop_journaled i.queue) (λ _. (_, refl))
              (λ _. by_authority-Returns i authority (ground arith))))
