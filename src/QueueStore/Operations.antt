-- ===== src/QueueStore/Operations.antt =====
-- tellyq/queue_store.py: the calls of the store, one after another: new queues, and operations on a
-- queue that is there. The owner of the store keeps the database as it was where a call raises.
use tellyq.Prelude.{ℕ, String, Result, ok, err, List, [], ◌∷◌}
use tellyq.Values.{PlaybackTarget, CommandAction, Instant, Datetime, SessionSnapshot}
use tellyq.Queue.{
  NativeQueueRequest, ExecutionState, QueueIntent, QueueMode, QueueEntry, QueueSnapshot,
}
use tellyq.QueueStore.Rows.{Database}
use tellyq.QueueStore.Starts.{create, prepare_start}
use tellyq.QueueStore.Controls.{
  prepare_stop, prepare_control, cancel_queue, hold_for_reconciliation,
}
use tellyq.QueueStore.Transitions.{mark_dispatched, record_outcome}
use tellyq.QueueStore.Settlements.{settle_attempt, recover}
use tellyq.QueueStore.Stagings.{prepare_native_successor, prepare_native_clear}
use tellyq.QueueStore.NativeTransitions.{mark_native_dispatched, record_native_outcome}
use tellyq.QueueStore.Adoptions.{adopt_native_successor}
use tellyq.QueueStore.Exits.{LegacyQueue, import_legacy, record_native_session_exit}

pub data Operation : Type 0 where
  start : String → String → String → Datetime → ℕ → Operation
  stop : String → String → Datetime → ℕ → Operation
  control : String → String → CommandAction → Datetime → ℕ → Operation
  cancel : ℕ → Operation
  hold : ℕ → Operation
  dispatch : String → Datetime → ℕ → Operation
  outcome : String → ExecutionState → Datetime → ℕ → Operation
  settlement : String → QueueIntent → String → ℕ → Operation
  recovery : ℕ → Operation
  stage : String → String → String → NativeQueueRequest → Datetime → ℕ → ℕ → Operation
  clear : String → NativeQueueRequest → Datetime → ℕ → ℕ → Operation
  native_dispatch : String → Datetime → ℕ → ℕ → Operation
  native_outcome : String → ExecutionState → Datetime → ℕ → ℕ → Operation
  adoption : String → SessionSnapshot → Instant → Datetime → String → ℕ → ℕ → Operation
  exit : String → Datetime → String → ℕ → ℕ → Operation

unfoldable pub perform : Database → String → Operation → Result (QueueSnapshot × Database)
perform db queue_id (Operation.start item_id attempt_id command_id at expected) =
    prepare_start db queue_id item_id attempt_id command_id at expected
perform db queue_id (Operation.stop attempt_id command_id at expected) =
    prepare_stop db queue_id attempt_id command_id at expected
perform db queue_id (Operation.control attempt_id command_id action at expected) =
    prepare_control db queue_id attempt_id command_id action at expected
perform db queue_id (Operation.cancel expected) = cancel_queue db queue_id expected
perform db queue_id (Operation.hold expected) = hold_for_reconciliation db queue_id expected
perform db queue_id (Operation.dispatch command_id at expected) =
    mark_dispatched db queue_id command_id at expected
perform db queue_id (Operation.outcome command_id state at expected) =
    record_outcome db queue_id command_id state at expected
perform db queue_id (Operation.settlement attempt_id intent decision_id expected) =
    settle_attempt db queue_id attempt_id intent decision_id expected
perform db queue_id (Operation.recovery expected) = recover db queue_id expected
perform db queue_id
      (Operation.stage item_id reservation_id attempt_id request at expected generation) =
    prepare_native_successor db queue_id item_id reservation_id attempt_id request at expected
      generation
perform db queue_id (Operation.clear reservation_id request at expected generation) =
    prepare_native_clear db queue_id reservation_id request at expected generation
perform db queue_id (Operation.native_dispatch operation_id at expected generation) =
    mark_native_dispatched db queue_id operation_id at expected generation
perform db queue_id (Operation.native_outcome operation_id state at expected generation) =
    record_native_outcome db queue_id operation_id state at expected generation
perform db queue_id
      (Operation.adoption reservation_id observed now at decision_id expected generation) =
    adopt_native_successor db queue_id reservation_id observed now at decision_id expected
      generation
perform db queue_id (Operation.exit reservation_id at decision_id expected generation) =
    record_native_session_exit db queue_id reservation_id at decision_id expected generation

abbrev pub kept_in : Database → Result (QueueSnapshot × Database) → Database
kept_in db (ok (q, after)) = after
kept_in db (err fault) = db

-- A call names the queue that it adds or operates on.
pub data Call : Type 0 where
  on : Operation → Call
  creation : PlaybackTarget → List QueueEntry → QueueMode → Call
  legacy_import : LegacyQueue → Call

unfoldable pub called : Database → String → Call → Result (QueueSnapshot × Database)
called db queue_id (Call.on operation) = perform db queue_id operation
called db queue_id (Call.creation target items mode) = create db queue_id target items mode
called db queue_id (Call.legacy_import legacy) = import_legacy db queue_id legacy

unfoldable pub run_store : Database → List (String × Call) → Database
run_store db [] = db
run_store db ((queue_id, call) ∷ calls) = run_store (kept_in db (called db queue_id call)) calls
