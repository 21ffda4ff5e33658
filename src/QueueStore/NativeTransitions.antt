-- ===== src/QueueStore/NativeTransitions.antt =====
-- tellyq/queue_store.py: native operations, handed out once and then given an outcome.
use tellyq.Prelude.{
  ℕ, String, Bool, false, Option, none, some, Result, Fault, ok, raise_if, ◌>>=◌, ◌>>◌, ◌==◌, ◌!=◌,
  nat_eq, string_eq, ◌&&◌, ◌||◌, not, last, update_where, if◌then◌else◌,
}
use tellyq.Values.{Datetime, before}
use tellyq.Queue.{
  NativeQueueAction, native_queue_action_eq, ExecutionState, execution_state_eq,
  NativeReservationState, native_reservation_state_eq, NativeReservation, NativeOperation,
  QueueIntent, queue_intent_eq, QueueAttempt, QueueSnapshot,
}
use tellyq.QueueStore.Rows.{Database}
use tellyq.QueueStore.Transactions.{check_timestamp, Change, transact}
use tellyq.QueueStore.Controls.{native_fence}
use tellyq.QueueStore.Transitions.{is_outcome}
use tellyq.QueueStore.NativeRequests.{find_reservation, find_operation}

abbrev pub is_predecessor : NativeReservation → Option QueueAttempt → Bool
is_predecessor r none = false
is_predecessor r (some attempt) =
    attempt.attempt_id == r.predecessor_attempt_id && attempt.intent == QueueIntent.current

unfoldable pub staging_lost : QueueSnapshot → NativeReservation → NativeOperation → Bool
staging_lost q r o =
    o.action == NativeQueueAction.play_next
    && (q.cancellation_requested
        || q.reconciliation_required
        || r.state != NativeReservationState.reserved
        || not (is_predecessor r (last q.attempts)))

unfoldable pub clearing_lost : QueueSnapshot → NativeReservation → NativeOperation → Bool
clearing_lost q r o =
    o.action == NativeQueueAction.clear
    && (not q.cancellation_requested || r.state == NativeReservationState.session_exit_observed)

unfoldable pub check_native_dispatch :
    QueueSnapshot → NativeReservation → NativeOperation → Result (Unit {0})
check_native_dispatch q r o = do
  raise_if (o.state != ExecutionState.pending) Fault.queue_store_error
  raise_if (staging_lost q r o) Fault.queue_store_error
  raise_if (clearing_lost q r o) Fault.queue_store_error

unfoldable pub native_awaits_outcome : NativeOperation → Bool
native_awaits_outcome o =
    o.state == ExecutionState.dispatched || o.state == ExecutionState.uncertain

unfoldable pub check_native_state :
    QueueSnapshot → NativeReservation → NativeOperation → ExecutionState → Result (Unit {0})
check_native_state q r o state =
    if state == ExecutionState.dispatched
    then check_native_dispatch q r o
    else raise_if (not (native_awaits_outcome o)) Fault.queue_store_error

abbrev pub set_native_state : ExecutionState → Datetime → NativeOperation → NativeOperation
set_native_state state at o = record o { state = state; updated_at = at }

-- An uncertain outcome holds the queue for reconciliation.
abbrev pub native_moved_rows : QueueSnapshot → String → ExecutionState → Datetime → QueueSnapshot
native_moved_rows q operation_id state at = record q {
  native_operations =
      update_where (λ o. o.operation_id == operation_id) (set_native_state state at)
        q.native_operations;
  reconciliation_required = q.reconciliation_required || state == ExecutionState.uncertain;
}

unfoldable pub native_already : ExecutionState → NativeOperation → Bool
native_already state o = o.state == state && state != ExecutionState.dispatched

unfoldable pub native_move :
    String
    → ExecutionState
    → Datetime
    → QueueSnapshot
    → NativeReservation
    → NativeOperation
    → Result Change
native_move operation_id state at q r o = do
  check_native_state q r o state
  ok (Change.rewritten (native_moved_rows q operation_id state at))

unfoldable pub native_transition_body :
    String → ExecutionState → Datetime → ℕ → ℕ → QueueSnapshot → Result Change
native_transition_body operation_id state at expected generation q = do
  native_fence expected generation q
  o ← find_operation q operation_id
  r ← find_reservation q o.reservation_id
  raise_if (o.generation != q.generation) Fault.revision_conflict
  raise_if (before at o.updated_at) Fault.value_error
  if native_already state o then ok Change.unchanged else native_move operation_id state at q r o

-- `_transition_native`
unfoldable pub native_transition :
    Database
    → String
    → String
    → ExecutionState
    → Datetime
    → ℕ
    → ℕ
    → Result (QueueSnapshot × Database)
native_transition db queue_id operation_id state at expected generation = do
  check_timestamp at
  transact db queue_id (native_transition_body operation_id state at expected generation)

unfoldable pub mark_native_dispatched :
    Database → String → String → Datetime → ℕ → ℕ → Result (QueueSnapshot × Database)
mark_native_dispatched db queue_id operation_id at expected generation =
    native_transition db queue_id operation_id ExecutionState.dispatched at expected generation

unfoldable pub record_native_outcome :
    Database
    → String
    → String
    → ExecutionState
    → Datetime
    → ℕ
    → ℕ
    → Result (QueueSnapshot × Database)
record_native_outcome db queue_id operation_id outcome at expected generation = do
  raise_if (not (is_outcome outcome)) Fault.value_error
  native_transition db queue_id operation_id outcome at expected generation
