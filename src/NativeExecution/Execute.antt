-- ===== src/NativeExecution/Execute.antt =====
-- tellyq/native_queue_execution.py: `NativeQueueExecutor`, over the store that it is given.
use tellyq.Prelude.{
  ◌+◌, Bool, true, false, Option, none, some, Result, Fault, ok, err, require, ◌==◌, ◌!=◌, nat_eq,
  ◌||◌, if◌then◌else◌,
}
use tellyq.Queue.{
  NativeQueueAction, native_queue_action_eq, ExecutionState, execution_state_eq, NativeReservation,
  NativeOperation, QueueSnapshot,
}
use tellyq.QueueExecution.{
  Action, lift, return, ◌>>=◌, ◌>>◌, raise_when, StorePort, load_queue, at_now, ExecutionProblem,
  outcome_state,
}
use tellyq.NativeExecution.Requests.{
  native_queue_request_eq, NativeQueueReceipt, NativeExecutionRequest, NativeDispatch,
  NativeExecutionResult, NativeExecution, reserved_in, operated_in, native_records,
  is_operation_known, native_historical,
}

module _ (s : StorePort) where
  abbrev pub prepare_native : NativeExecutionRequest → Action s.World QueueSnapshot
  prepare_native request =
      if request.request.action == NativeQueueAction.play_next
      then (lift (require request.successor_item_id Fault.assertion_error) >>= λ item_id.
          lift (require request.successor_attempt_id Fault.assertion_error) >>= λ attempt_id.
          at_now s (λ at.
            s.prepare_native_successor request.queue_id item_id request.reservation_id attempt_id
              request.request at request.expected_revision request.expected_generation))
      else at_now s (λ at.
        s.prepare_native_clear request.queue_id request.reservation_id request.request at
          request.expected_revision request.expected_generation)

  abbrev pub native_result_of :
      NativeDispatch
      → Bool
      → Option NativeQueueReceipt
      → Option ExecutionProblem
      → NativeExecutionResult
  native_result_of d called receipt problem = record {
    snapshot = d.snapshot;
    reservation = d.reservation;
    operation = d.operation;
    operation_invoked = called;
    receipt = receipt;
    problem = problem;
  }

  unfoldable pub with_records :
      NativeExecutionResult → QueueSnapshot → Action s.World NativeExecution
  with_records result q = do
    operation ← lift (operated_in q result.operation.operation_id)
    reservation ← lift (reserved_in q result.reservation.reservation_id)
    return (
        NativeExecution.recorded
          (record result { snapshot = q; reservation = reservation; operation = operation }))

  abbrev pub native_outcome_recorded :
      NativeExecutionResult → Result QueueSnapshot × s.World → Result NativeExecution × s.World
  native_outcome_recorded result (err e, w) = (ok (NativeExecution.unrecorded result), w)
  native_outcome_recorded result (ok q, w) = with_records result q w

  -- `_record`
  unfoldable pub record_native_result :
      NativeExecutionResult → ExecutionState → Action s.World NativeExecution
  record_native_result result outcome w = native_outcome_recorded result (
      s.record_native_outcome result.snapshot.queue_id result.operation.operation_id outcome
        (s.utcnow w) result.snapshot.revision result.snapshot.generation w)

  abbrev pub NativeEffect : Type 0
  NativeEffect = NativeDispatch → Action s.World NativeQueueReceipt

  abbrev pub effected :
      NativeDispatch → Result NativeQueueReceipt × s.World → Result NativeExecution × s.World
  effected d (err e, w) =
      record_native_result (native_result_of d true none (some ExecutionProblem.operation_failed))
        ExecutionState.uncertain w
  effected d (ok received, w) =
      if received.request == d.request
      then record_native_result (native_result_of d true (some received) none)
          (outcome_state received.outcome) w
      else record_native_result
          (native_result_of d true none (some ExecutionProblem.invalid_receipt))
          ExecutionState.uncertain w

  abbrev pub effect_checked :
      NativeEffect → NativeDispatch → Result Bool × s.World → Result NativeExecution × s.World
  effect_checked operation d (err e, w) =
      record_native_result (native_result_of d false none (some ExecutionProblem.guard_failed))
        ExecutionState.uncertain w
  effect_checked operation d (ok true, w) = effected d (operation d w)
  effect_checked operation d (ok false, w) =
      record_native_result
        (native_result_of d false none (some ExecutionProblem.canceled_before_operation))
        ExecutionState.uncertain w

  abbrev pub effect_guarded :
      Option (Action s.World Bool) → NativeEffect → NativeDispatch → Action s.World NativeExecution
  effect_guarded none operation d w = effected d (operation d w)
  effect_guarded (some may_effect) operation d w = effect_checked operation d (may_effect w)

  -- The claim of the prepared operation, and the effect.
  unfoldable pub claim_native :
      Option (Action s.World Bool)
      → NativeEffect
      → NativeExecutionRequest
      → QueueSnapshot
      → Action s.World NativeExecution
  claim_native may_effect operation request prepared = do
    dispatched ← at_now s (λ at.
        s.mark_native_dispatched request.queue_id request.request.operation_id at prepared.revision
          request.expected_generation)
    current ← load_queue s request.queue_id
    raise_when
        (current.generation != request.expected_generation
          || current.revision != dispatched.revision)
        Fault.revision_conflict
    records ← lift (native_records dispatched request)
    effect_guarded may_effect operation (record {
      snapshot = dispatched;
      reservation = records.0;
      operation = records.1;
      request = request.request;
    })

  unfoldable pub claim_new :
      Bool
      → Option (Action s.World Bool)
      → NativeEffect
      → NativeExecutionRequest
      → QueueSnapshot
      → NativeReservation × NativeOperation
      → Action s.World NativeExecution
  claim_new existing may_effect operation request prepared records =
      if existing || records.1.state != ExecutionState.pending
      then return (NativeExecution.recorded (native_historical prepared records.0 records.1))
      else (raise_when (prepared.revision != request.expected_revision + 1) Fault.revision_conflict
          >> claim_native may_effect operation request prepared)

  unfoldable pub execute_native :
      Option (Action s.World Bool)
      → NativeEffect
      → NativeExecutionRequest
      → Action s.World NativeExecution
  execute_native may_effect operation request = do
    before ← load_queue s request.queue_id
    raise_when (before.generation != request.expected_generation) Fault.revision_conflict
    prepared ← prepare_native request
    records ← lift (native_records prepared request)
    claim_new (is_operation_known before request) may_effect operation request prepared records
