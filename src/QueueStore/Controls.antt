-- ===== src/QueueStore/Controls.antt =====
-- tellyq/queue_store.py: intents on the attempt that runs, and the cancellation of a queue.
use tellyq.Prelude.{
  ℕ, String, Bool, true, false, Option, none, some, Result, Fault, ok, raise_if, require, ◌>>=◌,
  ◌>>◌, ◌==◌, ◌!=◌, nat_eq, string_eq, option_eq, ◌&&◌, ◌||◌, not, any, last, is_empty,
  if◌then◌else◌,
}
use tellyq.Values.{CommandAction, command_action_eq, Datetime}
use tellyq.Queue.{
  NativeReservationState, native_reservation_state_eq, is_unresolved, QueueIntent, queue_intent_eq,
  QueueMode, queue_mode_eq, QueueAttempt, QueueSnapshot,
}
use tellyq.QueueStore.Rows.{Database}
use tellyq.QueueStore.Transactions.{
  check_identity, check_timestamp, check_revision, Change, transact,
}
use tellyq.QueueStore.Starts.{duplicate, add_command}

abbrev pub canceled : QueueSnapshot → QueueSnapshot
canceled q = record q { cancellation_requested = true }

unfoldable pub stoppable : QueueSnapshot → String → Bool
stoppable q attempt_id =
    any
      (λ a.
        a.attempt_id == attempt_id
        && some a.item_id == q.current_item_id
        && (a.intent == QueueIntent.current || a.intent == QueueIntent.finished))
      q.attempts

unfoldable pub new_stop : Database → String → String → Datetime → ℕ → QueueSnapshot → Result Change
new_stop db attempt_id command_id at expected q = do
  check_revision q expected
  raise_if (not (stoppable q attempt_id)) Fault.queue_store_error
  add_command db q attempt_id command_id CommandAction.stop at (canceled q)

unfoldable pub stop_body : Database → String → String → Datetime → ℕ → QueueSnapshot → Result Change
stop_body db attempt_id command_id at expected q = do
  known ← duplicate q command_id attempt_id CommandAction.stop
  if known then ok Change.unchanged else new_stop db attempt_id command_id at expected q

unfoldable pub prepare_stop :
    Database → String → String → String → Datetime → ℕ → Result (QueueSnapshot × Database)
prepare_stop db queue_id attempt_id command_id at expected = do
  check_identity command_id
  check_timestamp at
  transact db queue_id (stop_body db attempt_id command_id at expected)

unfoldable pub is_control : CommandAction → Bool
is_control action =
    action == CommandAction.pause
    || action == CommandAction.resume
    || action == CommandAction.release

unfoldable pub release_prohibited : CommandAction → QueueSnapshot → Bool
release_prohibited action q =
    action == CommandAction.release
    && any (λ r. r.state == NativeReservationState.reserved) q.reservations

abbrev pub controlled_intent : CommandAction → QueueIntent
controlled_intent action =
    if action == CommandAction.release then QueueIntent.finished else QueueIntent.current

abbrev pub is_given : Option String → Bool
is_given none = false
is_given (some decision_id) = decision_id != ""

unfoldable pub uncontrollable : CommandAction → String → QueueAttempt → QueueSnapshot → Bool
uncontrollable action attempt_id attempt q =
    attempt.attempt_id != attempt_id
    || some attempt.item_id != q.current_item_id
    || attempt.intent != controlled_intent action
    || (action == CommandAction.release && not (is_given attempt.decision_id))
    || any (λ c. is_unresolved c.state) q.commands

unfoldable pub already_released : CommandAction → String → QueueSnapshot → Bool
already_released action attempt_id q =
    action == CommandAction.release
    && any (λ c. c.attempt_id == attempt_id && c.action == CommandAction.release) q.commands

unfoldable pub without_owner : QueueSnapshot → Bool
without_owner q = q.cancellation_requested || is_empty q.attempts

unfoldable pub new_control :
    Database → String → String → CommandAction → Datetime → ℕ → QueueSnapshot → Result Change
new_control db attempt_id command_id action at expected q = do
  check_revision q expected
  raise_if (release_prohibited action q) Fault.queue_store_error
  raise_if (without_owner q) Fault.queue_store_error
  attempt ← require (last q.attempts) Fault.stop_iteration
  raise_if (uncontrollable action attempt_id attempt q) Fault.queue_store_error
  raise_if (already_released action attempt_id q) Fault.queue_store_error
  add_command db q attempt_id command_id action at q

unfoldable pub control_body :
    Database → String → String → CommandAction → Datetime → ℕ → QueueSnapshot → Result Change
control_body db attempt_id command_id action at expected q = do
  known ← duplicate q command_id attempt_id action
  if known then ok Change.unchanged else new_control db attempt_id command_id action at expected q

unfoldable pub prepare_control :
    Database
    → String
    → String
    → String
    → CommandAction
    → Datetime
    → ℕ
    → Result (QueueSnapshot × Database)
prepare_control db queue_id attempt_id command_id action at expected = do
  raise_if (not (is_control action)) Fault.value_error
  check_identity command_id
  check_timestamp at
  transact db queue_id (control_body db attempt_id command_id action at expected)

unfoldable pub prepare_release :
    Database → String → String → String → Datetime → ℕ → Result (QueueSnapshot × Database)
prepare_release db queue_id attempt_id command_id at expected =
    prepare_control db queue_id attempt_id command_id CommandAction.release at expected

unfoldable pub cancel_body : ℕ → QueueSnapshot → Result Change
cancel_body expected q = do
  check_revision q expected
  ok (if q.cancellation_requested then Change.unchanged else Change.rewritten (canceled q))

unfoldable pub cancel_queue : Database → String → ℕ → Result (QueueSnapshot × Database)
cancel_queue db queue_id expected = transact db queue_id (cancel_body expected)

abbrev pub held_rows : QueueSnapshot → QueueSnapshot
held_rows q = record q { reconciliation_required = true }

unfoldable pub native_fence : ℕ → ℕ → QueueSnapshot → Result (Unit {0})
native_fence expected generation q = do
  raise_if (q.mode != QueueMode.native) Fault.queue_store_error
  raise_if (q.generation != generation) Fault.revision_conflict
  check_revision q expected

unfoldable pub hold_body : ℕ → QueueSnapshot → Result Change
hold_body expected q = do
  native_fence expected q.generation q
  ok (if q.reconciliation_required then Change.unchanged else Change.rewritten (held_rows q))

unfoldable pub hold_for_reconciliation : Database → String → ℕ → Result (QueueSnapshot × Database)
hold_for_reconciliation db queue_id expected = transact db queue_id (hold_body expected)
