-- ===== src/NativeExecution/Laws.antt =====
-- tellyq/domain/queue.py, tellyq/native_queue_execution.py: what the native executor asks of its
-- store.
use tellyq.Prelude.{ℕ, ◌≡◌, String, ok}
use tellyq.Values.{Datetime}
use tellyq.Queue.{NativeQueueRequest, ExecutionState, QueueSnapshot}
use tellyq.QueueExecution.{StorePort}
use tellyq.QueueExecution.Laws.{Ledger, Quiet}

-- No operation forgets a claim or calls the receiver, and `mark_native_dispatched` succeeds only on an
-- operation that was not handed out before.
pub record NativeLaws (s : StorePort) : Type 1 where
  pub ledger : Ledger s.World
  pub load_quiet : (queue_id : String) (w : s.World) → Quiet ledger w (s.load queue_id w).1
  pub successor_quiet :
      (queue_id item_id reservation_id attempt_id : String) (request : NativeQueueRequest)
      (at : Datetime) (expected generation : ℕ) (w : s.World)
      → Quiet ledger w
          (s.prepare_native_successor queue_id item_id reservation_id attempt_id request at expected
            generation w).1
  pub clear_quiet :
      (queue_id reservation_id : String) (request : NativeQueueRequest) (at : Datetime)
      (expected generation : ℕ) (w : s.World)
      → Quiet ledger w
          (s.prepare_native_clear queue_id reservation_id request at expected generation w).1
  pub dispatch_quiet :
      (queue_id operation_id : String) (at : Datetime) (expected generation : ℕ) (w : s.World)
      → Quiet ledger w (s.mark_native_dispatched queue_id operation_id at expected generation w).1
  pub dispatch_claims :
      (queue_id operation_id : String) (at : Datetime) (expected generation : ℕ) (w w' : s.World)
      (q : QueueSnapshot)
      → s.mark_native_dispatched queue_id operation_id at expected generation w ≡ (ok q, w')
      → (ledger.handed queue_id operation_id w → ⊥) × ledger.handed queue_id operation_id w'
  pub outcome_quiet :
      (queue_id operation_id : String) (outcome : ExecutionState) (at : Datetime)
      (expected generation : ℕ) (w : s.World)
      → Quiet ledger w
          (s.record_native_outcome queue_id operation_id outcome at expected generation w).1
