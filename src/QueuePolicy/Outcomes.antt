-- ===== src/QueuePolicy/Outcomes.antt =====
-- tellyq/domain/queue_policy.py: the ways in which a decision comes about, with every test that it
-- has passed.
pub mod Cases
pub mod Totality
pub mod Safety
use tellyq.Prelude.{
  ◌≡◌, refl, Bool, true, false, Option, none, some, Result, ok, err, String, ◌==◌, not, is_some,
  last, if-intro, ◌>>=◌, >>=-eq-ok, ok-injective, arith, ◌||◌, ◌&&◌,
}
use tellyq.Values.{SessionSnapshot}
use tellyq.Queue.{QueueIntent, queue_intent_eq, QueueEntry, QueueAttempt}
use tellyq.QueuePolicy.Decisions.{
  QueueDisposition, QueueReason, QueueAuthority, QueueDecision, decision, held,
}
use tellyq.QueuePolicy.Queues.{valid_queue}
use tellyq.QueuePolicy.Receivers.{receiver_ready}
use tellyq.QueuePolicy.Identity.{decision_id}
use tellyq.QueuePolicy.Decide.{
  Inputs, lost_in, next_pending, offer, unsettled, advance, finish_stands, native_started,
  held_unless, between, start_unresolved, unwarranted, settled_as, settle_current, skip_mismatched,
  on_current, on_latest, session_missing, unstarted_history, with_session, matched,
  out_of_authority, needs_owner, command_open, if_fitting, authorized, by_authority, is_canceled,
  stop_journaled, decide_queue,
}

-- The queue is consistent and not canceled, and the authority is its present owner's.
pub record IsCleared (i : Inputs) (a : QueueAuthority) : Type 0 where
  pub uncanceled : is_canceled i ≡ false
  pub consistent : valid_queue i.queue ≡ true
  pub unstopped : stop_journaled i.queue ≡ false
  pub owned : out_of_authority i a ≡ false
  pub unowed : needs_owner i.queue ≡ false
  pub resolved : command_open i.queue ≡ false
  pub fitting : matched i a i.session ≡ ok true

-- Nothing of the last attempt is left to settle, and every item is settled or pending.
pub record IsRested (i : Inputs) : Type 0 where
  pub reconciled : i.queue.reconciliation_required ≡ false
  pub local : native_started i.queue ≡ false
  pub unreplaced : lost_in i.session ≡ false
  pub standing : finish_stands i (last i.queue.attempts) i.session ≡ ok true
  pub settled : unsettled i.queue ≡ false

pub record IsSettling (i : Inputs) (attempt : QueueAttempt) (session : SessionSnapshot)
    (id : String) : Type 0 where
  pub present : i.session ≡ some session
  pub latest : last i.queue.attempts ≡ some attempt
  pub current : (attempt.intent == QueueIntent.current) ≡ true
  pub warranted : unwarranted i session ≡ false
  pub started : start_unresolved i.queue attempt ≡ false
  pub matching : skip_mismatched i.skip (some attempt) ≡ false
  pub named : decision_id i.digests i.queue session i.skip ≡ ok id

pub data Outcome (i : Inputs) (authority : Option QueueAuthority) (d : QueueDecision) : Type 0 where
  waits : (reason : QueueReason) → held i.queue reason ≡ d → Outcome i authority d
  settles :
      (a : QueueAuthority) (attempt : QueueAttempt) (session : SessionSnapshot) (id : String)
      → authority ≡ some a
      → IsCleared i a
      → IsSettling i attempt session id
      → settled_as i attempt session id ≡ d
      → Outcome i authority d
  completes :
      (a : QueueAuthority)
      → authority ≡ some a
      → IsCleared i a
      → IsRested i
      → next_pending i.queue ≡ none
      → decision i.queue QueueDisposition.complete QueueReason.exhausted none none ≡ d
      → Outcome i authority d
  readies :
      (a : QueueAuthority) (item : QueueEntry)
      → authority ≡ some a
      → IsCleared i a
      → IsRested i
      → next_pending i.queue ≡ some item
      → receiver_ready i.queue i.session a i.receiver i.now i.policy ≡ true
      → decision i.queue QueueDisposition.ready QueueReason.next_item none (some item.item_id) ≡ d
      → Outcome i authority d
