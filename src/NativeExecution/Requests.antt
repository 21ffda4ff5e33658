-- ===== src/NativeExecution/Requests.antt =====
-- tellyq/native_queue_execution.py, tellyq/domain/native_queue.py: what is asked of the receiver's own
-- queue, and what is answered.
use tellyq.Prelude.{
  String, ℕ, Bool, true, false, Option, none, some, Result, Fault, ok, raise_if, require, ◌>>=◌,
  ◌>>◌, Eq, ◌==◌, nat_eq, string_eq, option_eq, ◌&&◌, ◌||◌, first, any, is_some, is_blank,
  if◌then◌else◌,
}
use tellyq.Values.{content_ref_eq, playback_scope_eq, CommandOutcome, ControlStage, Datetime}
use tellyq.Queue.{
  NativeQueueAction, native_queue_action_eq, NativeQueueRequest, NativeReservation, NativeOperation,
  QueueSnapshot, is_unresolved,
}
use tellyq.QueueExecution.{ExecutionProblem}

instance abbrev pub native_queue_request_eq : Eq NativeQueueRequest
native_queue_request_eq = record {
  beq = λ a b.
      a.operation_id == b.operation_id
      && a.action == b.action
      && a.scope == b.scope
      && a.playback_id == b.playback_id
      && a.successor == b.successor;
}

pub data NativeQueueReason : Type 0 where
  read_only capability_unavailable provider_mismatch connection_changed : NativeQueueReason
  identity_changed media_unavailable stale_observation state_mismatch : NativeQueueReason
  ad_state_unqualified session_uninitialized command_returned : NativeQueueReason
  transport_exception response_unknown : NativeQueueReason

pub record NativeQueueDiagnostic : Type 0 where
  pub stage : ControlStage
  pub reason : NativeQueueReason

pub record NativeQueueReceipt : Type 0 where
  pub request : NativeQueueRequest
  pub outcome : CommandOutcome
  pub recorded_at : Datetime
  pub diagnostic : NativeQueueDiagnostic

pub record NativeExecutionRequest : Type 0 where
  pub queue_id : String
  pub reservation_id : String
  pub request : NativeQueueRequest
  pub expected_revision : ℕ
  pub expected_generation : ℕ
  pub successor_item_id : Option String
  pub successor_attempt_id : Option String

abbrev pub is_absent_or_blank : Option String → Bool
is_absent_or_blank none = true
is_absent_or_blank (some t) = is_blank t

unfoldable pub check_execution_request : NativeExecutionRequest → Result NativeExecutionRequest
check_execution_request r = do
  raise_if (is_blank r.queue_id || is_blank r.reservation_id) Fault.value_error
  raise_if
      (if r.request.action == NativeQueueAction.play_next
        then is_absent_or_blank r.successor_item_id || is_absent_or_blank r.successor_attempt_id
        else is_some r.successor_item_id || is_some r.successor_attempt_id)
      Fault.value_error
  ok r

pub record NativeDispatch : Type 0 where
  pub snapshot : QueueSnapshot
  pub reservation : NativeReservation
  pub operation : NativeOperation
  pub request : NativeQueueRequest

pub record NativeExecutionResult : Type 0 where
  pub snapshot : QueueSnapshot
  pub reservation : NativeReservation
  pub operation : NativeOperation
  pub operation_invoked : Bool
  pub receipt : Option NativeQueueReceipt
  pub problem : Option ExecutionProblem

-- What `execute` returns, and the result that a `NativeOutcomePersistenceError` retains.
pub data NativeExecution : Type 0 where
  recorded : NativeExecutionResult → NativeExecution
  unrecorded : NativeExecutionResult → NativeExecution

abbrev pub reserved_in : QueueSnapshot → String → Result NativeReservation
reserved_in q reservation_id =
    require (first (λ r. r.reservation_id == reservation_id) q.reservations) Fault.stop_iteration

abbrev pub operated_in : QueueSnapshot → String → Result NativeOperation
operated_in q operation_id =
    require (first (λ o. o.operation_id == operation_id) q.native_operations) Fault.stop_iteration

-- `_records`
unfoldable pub native_records :
    QueueSnapshot → NativeExecutionRequest → Result (NativeReservation × NativeOperation)
native_records q request = do
  reservation ← reserved_in q request.reservation_id
  operation ← operated_in q request.request.operation_id
  ok (reservation, operation)

abbrev pub is_operation_known : QueueSnapshot → NativeExecutionRequest → Bool
is_operation_known q request =
    any (λ o. o.operation_id == request.request.operation_id) q.native_operations

-- The result of a request that finds its operation already there
unfoldable pub native_historical :
    QueueSnapshot → NativeReservation → NativeOperation → NativeExecutionResult
native_historical q reservation operation = record {
  snapshot = q;
  reservation = reservation;
  operation = operation;
  operation_invoked = false;
  receipt = none;
  problem =
      if is_unresolved operation.state then some ExecutionProblem.reconciliation_required else none;
}
