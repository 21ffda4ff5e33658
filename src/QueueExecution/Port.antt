-- ===== src/QueueExecution/Port.antt =====
-- tellyq/domain/queue.py, tellyq/domain/ports.py: the store and the clock, as their users see them.
use tellyq.Prelude.{ℕ, String, Option}
use tellyq.Values.{CommandAction, Datetime}
use tellyq.Queue.{NativeQueueRequest, ExecutionState, QueueSnapshot}
use tellyq.QueueExecution.Actions.{Action}

pub record StorePort : Type 1 where
  pub World : Type 0
  pub utcnow : World → Datetime
  pub load : String → Action World (Option QueueSnapshot)
  pub prepare_start : String → String → String → String → Datetime → ℕ → Action World QueueSnapshot
  pub prepare_stop : String → String → String → Datetime → ℕ → Action World QueueSnapshot
  pub prepare_control :
      String → String → String → CommandAction → Datetime → ℕ → Action World QueueSnapshot
  pub mark_dispatched : String → String → Datetime → ℕ → Action World QueueSnapshot
  pub record_outcome : String → String → ExecutionState → Datetime → ℕ → Action World QueueSnapshot
  pub recover : String → ℕ → Action World QueueSnapshot
  pub prepare_native_successor :
      String
      → String
      → String
      → String
      → NativeQueueRequest
      → Datetime
      → ℕ
      → ℕ
      → Action World QueueSnapshot
  pub prepare_native_clear :
      String → String → NativeQueueRequest → Datetime → ℕ → ℕ → Action World QueueSnapshot
  pub mark_native_dispatched : String → String → Datetime → ℕ → ℕ → Action World QueueSnapshot
  pub record_native_outcome :
      String → String → ExecutionState → Datetime → ℕ → ℕ → Action World QueueSnapshot
