-- ===== src/QueueStore/Writes.antt =====
-- tellyq/queue_store.py: what an operation that returns has done to the database.
use tellyq.Prelude.{ℕ, ◌≡◌, refl, String, ok, Yields, Yields-raise_if, Yields-of_ok, string_eq, not}
use tellyq.Queue.{native_queue_action_eq, ExecutionState, execution_state_eq, QueueSnapshot}
use tellyq.QueueStore.{
  Database, cancel_body, cancel_queue, hold_body, hold_for_reconciliation, mark_dispatched,
  is_outcome, record_outcome, recover_body, recover, Operation, perform, mark_native_dispatched,
  record_native_outcome,
}
use tellyq.QueueStore.Bodies.Transitions.{cancel_body-Moves, hold_body-Moves, recover_body-Moves}
use tellyq.QueueStore.Commits.{Commits, Committed, transact-Committed}
use tellyq.QueueStore.Transacted.{
  outcome-claims, transition-Committed, start-Committed, stop-Committed, control-Committed,
  settlement-Committed, stage-Committed, clear-Committed, native_transition-Committed,
  adoption-Committed, exit-Committed,
}

abbrev pub expected_of : Operation → ℕ
expected_of (Operation.start item_id attempt_id command_id at expected) = expected
expected_of (Operation.stop attempt_id command_id at expected) = expected
expected_of (Operation.control attempt_id command_id action at expected) = expected
expected_of (Operation.cancel expected) = expected
expected_of (Operation.hold expected) = expected
expected_of (Operation.dispatch command_id at expected) = expected
expected_of (Operation.outcome command_id state at expected) = expected
expected_of (Operation.settlement attempt_id intent decision_id expected) = expected
expected_of (Operation.recovery expected) = expected
expected_of (Operation.stage item_id reservation_id attempt_id request at expected generation) =
    expected
expected_of (Operation.clear reservation_id request at expected generation) = expected
expected_of (Operation.native_dispatch operation_id at expected generation) = expected
expected_of (Operation.native_outcome operation_id state at expected generation) = expected
expected_of (Operation.adoption reservation_id observed now at decision_id expected generation) =
    expected
expected_of (Operation.exit reservation_id at decision_id expected generation) = expected

perform-Committed :
    (db : Database) (queue_id : String) (operation : Operation)
    → Yields (Committed db queue_id (expected_of operation)) (perform db queue_id operation)
unfolding perform cancel_queue hold_for_reconciliation mark_dispatched record_outcome recover
    mark_native_dispatched record_native_outcome
perform-Committed db queue_id (Operation.start item_id attempt_id command_id at expected) =
    start-Committed db queue_id item_id attempt_id command_id at expected
perform-Committed db queue_id (Operation.stop attempt_id command_id at expected) =
    stop-Committed db queue_id attempt_id command_id at expected
perform-Committed db queue_id (Operation.control attempt_id command_id action at expected) =
    control-Committed db queue_id attempt_id command_id action at expected
perform-Committed db queue_id (Operation.cancel expected) =
    transact-Committed db queue_id (cancel_body expected) expected (cancel_body-Moves expected)
perform-Committed db queue_id (Operation.hold expected) =
    transact-Committed db queue_id (hold_body expected) expected (hold_body-Moves expected)
perform-Committed db queue_id (Operation.dispatch command_id at expected) =
    transition-Committed db queue_id command_id ExecutionState.dispatched at expected refl
perform-Committed db queue_id (Operation.outcome command_id state at expected) =
    Yields-raise_if (Committed db queue_id expected) (not (is_outcome state)) _ _
      (λ e. transition-Committed db queue_id command_id state at expected (outcome-claims state e))
perform-Committed db queue_id (Operation.settlement attempt_id intent decision_id expected) =
    settlement-Committed db queue_id attempt_id intent decision_id expected
perform-Committed db queue_id (Operation.recovery expected) =
    transact-Committed db queue_id (recover_body expected) expected (recover_body-Moves expected)
perform-Committed db queue_id
      (Operation.stage item_id reservation_id attempt_id request at expected generation) =
    stage-Committed db queue_id item_id reservation_id attempt_id request at expected generation
perform-Committed db queue_id (Operation.clear reservation_id request at expected generation) =
    clear-Committed db queue_id reservation_id request at expected generation
perform-Committed db queue_id (Operation.native_dispatch operation_id at expected generation) =
    native_transition-Committed db queue_id operation_id ExecutionState.dispatched at expected
      generation refl
perform-Committed db queue_id (Operation.native_outcome operation_id state at expected generation) =
    Yields-raise_if (Committed db queue_id expected) (not (is_outcome state)) _ _ (λ e.
      native_transition-Committed db queue_id operation_id state at expected generation
        (outcome-claims state e))
perform-Committed db queue_id
      (Operation.adoption reservation_id observed now at decision_id expected generation) =
    adoption-Committed db queue_id reservation_id observed now at decision_id expected generation
perform-Committed db queue_id (Operation.exit reservation_id at decision_id expected generation) =
    exit-Committed db queue_id reservation_id at decision_id expected generation

-- An operation that returns has found the queue, with consistent rows. Either it returns them and
-- leaves the database as it was, or they were at the expected revision, and the database differs by
-- the returned queue alone: it is consistent, at the next revision, of no smaller generation, still
-- canceled if it was, and every command handed out before is still one that was.
pub perform-Commits :
    (db : Database) (queue_id : String) (operation : Operation) {q' : QueueSnapshot}
    {db' : Database}
    → perform db queue_id operation ≡ ok (q', db')
    → Commits db queue_id (expected_of operation) q' db'
perform-Commits db queue_id operation e =
    Yields-of_ok (Committed db queue_id (expected_of operation)) (perform db queue_id operation)
      (perform-Committed db queue_id operation) e
