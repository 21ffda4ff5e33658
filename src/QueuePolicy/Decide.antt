-- ===== src/QueuePolicy/Decide.antt =====
-- tellyq/domain/queue_policy.py: `decide_queue`, its tests in the order of the source.
use tellyq.Prelude.{
  String, Bool, true, false, Option, none, some, Result, Fault, ok, err, ◌>>=◌, ◌==◌, ◌!=◌, nat_eq,
  string_eq, option_eq, ◌&&◌, ◌||◌, not, ltb, is_some, is_empty, any, first, last, if◌then◌else◌,
}
use tellyq.Values.{
  Instant, PlaybackObservation, CommandAction, command_action_eq, SessionSnapshot, EvidencePolicy,
}
use tellyq.Queue.{
  QueueMode, queue_mode_eq, ExecutionState, execution_state_eq, is_unresolved, QueueIntent,
  queue_intent_eq, QueueEntry, QueueAttempt, QueueSnapshot,
}
use tellyq.QueuePolicy.Decisions.{
  QueueDisposition, QueueReason, QueueAuthority, SkipIntent, AttemptSettlement, QueueDecision,
  decision, held, held_with,
}
use tellyq.QueuePolicy.Queues.{is_settled, valid_queue}
use tellyq.QueuePolicy.Receivers.{session_matches, valid_completion, receiver_ready}
use tellyq.QueuePolicy.Identity.{Digests, decision_id}

abbrev pub stop_requested_in : Option SessionSnapshot → Bool
stop_requested_in none = false
stop_requested_in (some session) = session.stop_requested

abbrev pub lost_in : Option SessionSnapshot → Bool
lost_in none = false
lost_in (some session) = session.ownership_lost

unfoldable pub next_pending : QueueSnapshot → Option QueueEntry
next_pending queue = first (λ i. i.intent == QueueIntent.pending) queue.items

-- The arguments of `decide_queue`, but for the authority, and the digests that it calls.
pub record Inputs : Type 0 where
  pub queue : QueueSnapshot
  pub session : Option SessionSnapshot
  pub now : Instant
  pub receiver : Option PlaybackObservation
  pub skip : Option SkipIntent
  pub policy : EvidencePolicy
  pub digests : Digests

unfoldable pub offer : Inputs → QueueAuthority → Option QueueEntry → QueueDecision
offer i authority none = decision i.queue QueueDisposition.complete QueueReason.exhausted none none
offer i authority (some item) =
    if receiver_ready i.queue i.session authority i.receiver i.now i.policy
    then decision i.queue QueueDisposition.ready QueueReason.next_item none (some item.item_id)
    else held i.queue QueueReason.receiver_unconfirmed

unfoldable pub unsettled : QueueSnapshot → Bool
unsettled queue =
    any (λ item. not (is_settled item.intent || item.intent == QueueIntent.pending)) queue.items

-- Every item settled or pending: the next one, if the receiver is known to be free.
unfoldable pub advance : Inputs → QueueAuthority → QueueDecision
advance i authority =
    if unsettled i.queue
    then held i.queue QueueReason.needs_attention
    else offer i authority (next_pending i.queue)

abbrev pub stands_with : Inputs → QueueAttempt → Option SessionSnapshot → Result Bool
stands_with i attempt none = err Fault.assertion_error
stands_with i attempt (some s) =
    if not (valid_completion s i.now)
    then ok false
    else (decision_id i.digests i.queue s none >>= λ expected.
        ok (attempt.decision_id == some expected))

-- A finished attempt must carry the decision that its evidence has now.
abbrev pub finish_stands : Inputs → Option QueueAttempt → Option SessionSnapshot → Result Bool
finish_stands i none session = ok true
finish_stands i (some attempt) session =
    if attempt.intent == QueueIntent.finished then stands_with i attempt session else ok true

unfoldable pub native_started : QueueSnapshot → Bool
native_started queue = queue.mode == QueueMode.native && not (is_empty queue.attempts)

abbrev pub held_unless : QueueSnapshot → QueueReason → QueueDecision → Bool → Result QueueDecision
held_unless queue reason d true = ok d
held_unless queue reason d false = ok (held queue reason)

unfoldable pub between : Inputs → QueueAuthority → Result QueueDecision
between i authority =
    if i.queue.reconciliation_required
    then ok (held i.queue QueueReason.reconciliation_required)
    else if native_started i.queue
    then ok (held i.queue QueueReason.native_successor_required)
    else if lost_in i.session
    then ok (held i.queue QueueReason.receiver_replaced)
    else (finish_stands i (last i.queue.attempts) i.session
        >>= held_unless i.queue QueueReason.invalid_completion (advance i authority))

unfoldable pub start_unresolved : QueueSnapshot → QueueAttempt → Bool
start_unresolved queue attempt =
    any
      (λ c.
        c.attempt_id == attempt.attempt_id
        && c.action == CommandAction.start
        && c.state != ExecutionState.acknowledged)
      queue.commands

abbrev pub settlement_reason : Bool → Bool → QueueReason
settlement_reason gone skipped =
    if gone
    then QueueReason.receiver_replaced
    else if skipped
    then QueueReason.skip_requested
    else QueueReason.completion_observed

-- Neither a skip intent nor a completion that can be trusted.
unfoldable pub unwarranted : Inputs → SessionSnapshot → Bool
unwarranted i session = not (is_some i.skip) && not (valid_completion session i.now)

abbrev pub settlement_of : Inputs → QueueAttempt → String → AttemptSettlement
settlement_of i attempt id = record {
  attempt_id = attempt.attempt_id;
  item_id = attempt.item_id;
  outcome = if is_some i.skip then QueueIntent.skipped else QueueIntent.finished;
  decision_id = id;
}

abbrev pub settled_as : Inputs → QueueAttempt → SessionSnapshot → String → QueueDecision
settled_as i attempt session id =
    held_with i.queue (settlement_reason session.ownership_lost (is_some i.skip))
      (settlement_of i attempt id)

-- The current attempt is settled by a skip intent or by a valid completion.
unfoldable pub settle_current : Inputs → QueueAttempt → SessionSnapshot → Result QueueDecision
settle_current i attempt session =
    if unwarranted i session
    then ok (
        held i.queue (
          if is_some session.completion
          then QueueReason.invalid_completion
          else QueueReason.awaiting_completion))
    else if start_unresolved i.queue attempt
    then ok (held i.queue QueueReason.command_unresolved)
    else (decision_id i.digests i.queue session i.skip >>= λ id.
        ok (settled_as i attempt session id))

abbrev pub skip_mismatched : Option SkipIntent → Option QueueAttempt → Bool
skip_mismatched none attempt = false
skip_mismatched (some skip) none = true
skip_mismatched (some skip) (some attempt) =
    skip.attempt_id != attempt.attempt_id || skip.item_id != attempt.item_id

abbrev pub on_current : Inputs → QueueAttempt → Option SessionSnapshot → Result QueueDecision
on_current i attempt none = err Fault.assertion_error
on_current i attempt (some s) = settle_current i attempt s

abbrev pub on_latest :
    Inputs → QueueAuthority → Option QueueAttempt → Option SessionSnapshot → Result QueueDecision
on_latest i authority none session = between i authority
on_latest i authority (some attempt) session =
    if attempt.intent == QueueIntent.current
    then on_current i attempt session
    else between i authority

unfoldable pub session_missing : Inputs → Bool
session_missing i = not (is_empty i.queue.attempts) && not (is_some i.session)

unfoldable pub unstarted_history : QueueSnapshot → Bool
unstarted_history queue =
    is_empty queue.attempts && any (λ item. item.intent != QueueIntent.pending) queue.items

unfoldable pub with_session : Inputs → QueueAuthority → Result QueueDecision
with_session i authority =
    if session_missing i
    then ok (held i.queue QueueReason.session_required)
    else if unstarted_history i.queue
    then ok (held i.queue QueueReason.needs_attention)
    else if skip_mismatched i.skip (last i.queue.attempts)
    then ok (held i.queue QueueReason.scope_mismatch)
    else on_latest i authority (last i.queue.attempts) i.session

abbrev pub matched : Inputs → QueueAuthority → Option SessionSnapshot → Result Bool
matched i authority none = ok true
matched i authority (some session) = session_matches i.queue session authority i.now

unfoldable pub out_of_authority : Inputs → QueueAuthority → Bool
out_of_authority i authority =
    authority.queue_id != i.queue.queue_id
    || authority.generation != i.queue.generation
    || ltb i.now authority.started_monotonic

unfoldable pub needs_owner : QueueSnapshot → Bool
needs_owner queue =
    queue.mode != QueueMode.native
    && any
        (λ item. item.intent == QueueIntent.needs_attention || item.intent == QueueIntent.stopped)
        queue.items

unfoldable pub command_open : QueueSnapshot → Bool
command_open queue = any (λ c. is_unresolved c.state) queue.commands

unfoldable pub if_fitting : Inputs → QueueAuthority → Bool → Result QueueDecision
if_fitting i authority true = with_session i authority
if_fitting i authority false = ok (held i.queue QueueReason.scope_mismatch)

unfoldable pub authorized : Inputs → QueueAuthority → Result QueueDecision
authorized i authority =
    if out_of_authority i authority
    then ok (held i.queue QueueReason.scope_mismatch)
    else if needs_owner i.queue
    then ok (held i.queue QueueReason.needs_attention)
    else if command_open i.queue
    then ok (held i.queue QueueReason.command_unresolved)
    else (matched i authority i.session >>= if_fitting i authority)

abbrev pub by_authority : Inputs → Option QueueAuthority → Result QueueDecision
by_authority i none = ok (held i.queue QueueReason.authority_required)
by_authority i (some authority) = authorized i authority

unfoldable pub is_canceled : Inputs → Bool
is_canceled i = i.queue.cancellation_requested || stop_requested_in i.session

unfoldable pub stop_journaled : QueueSnapshot → Bool
stop_journaled queue = any (λ c. c.action == CommandAction.stop) queue.commands

unfoldable pub decide_queue : Inputs → Option QueueAuthority → Result QueueDecision
decide_queue i authority =
    if is_canceled i
    then ok (held i.queue QueueReason.canceled)
    else if not (valid_queue i.queue)
    then ok (held i.queue QueueReason.invalid_queue)
    else if stop_journaled i.queue
    then ok (held i.queue QueueReason.canceled)
    else by_authority i authority
