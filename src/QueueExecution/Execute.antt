-- ===== src/QueueExecution/Execute.antt =====
-- tellyq/queue_execution.py: `QueueExecutor`, over the store that it is given.
use tellyq.Prelude.{
  ℕ, ◌+◌, String, Bool, true, false, Option, none, some, Result, Fault, ok, err, require, ◌==◌,
  ◌!=◌, nat_eq, string_eq, ◌&&◌, ◌||◌, not, any, if◌then◌else◌,
}
use tellyq.Values.{CommandAction, command_action_eq, CommandReceipt, Datetime}
use tellyq.Queue.{ExecutionState, execution_state_eq, JournalCommand, QueueSnapshot}
use tellyq.QueueExecution.Actions.{Action, lift, return, ◌>>=◌, ◌>>◌, raise_when}
use tellyq.QueueExecution.Requests.{
  QueueCommandRequest, QueueDispatch, ExecutionProblem, ExecutionResult, Execution, journaled,
  matching, check_generation, historical, answers, outcome_state,
}
use tellyq.QueueExecution.Port.{StorePort}

module _ (s : StorePort) where
  -- `_load`
  abbrev pub load_queue : String → Action s.World QueueSnapshot
  load_queue queue_id = do found ← s.load queue_id; lift (require found Fault.value_error)

  abbrev pub at_now : {A : Type 0} → (Datetime → Action s.World A) → Action s.World A
  at_now f w = f (s.utcnow w) w

  unfoldable pub has_attempt : QueueCommandRequest → QueueSnapshot → Bool
  has_attempt request q =
      any (λ a. a.attempt_id == request.attempt_id && a.item_id == request.item_id) q.attempts

  abbrev pub prepare : QueueCommandRequest → QueueSnapshot → Action s.World QueueSnapshot
  prepare request before =
      if request.action == CommandAction.start
      then at_now (λ at.
        s.prepare_start request.queue_id request.item_id request.attempt_id request.command_id at
          request.expected_revision)
      else (raise_when (not (has_attempt request before)) Fault.value_error
          >> (if request.action == CommandAction.stop
              then at_now (λ at.
                s.prepare_stop request.queue_id request.attempt_id request.command_id at
                  request.expected_revision)
              else at_now (λ at.
                s.prepare_control request.queue_id request.attempt_id request.command_id
                  request.action at request.expected_revision)))

  abbrev pub result_of :
      QueueDispatch → Bool → Option CommandReceipt → Option ExecutionProblem → ExecutionResult
  result_of d called receipt problem = record {
    snapshot = d.snapshot;
    command = d.command;
    operation_invoked = called;
    receipt = receipt;
    problem = problem;
  }

  abbrev pub with_command :
      ExecutionResult → QueueSnapshot → Option JournalCommand → Action s.World Execution
  with_command result q none w = (err Fault.assertion_error, w)
  with_command result q (some command) w =
      (ok (Execution.recorded (record result { snapshot = q; command = command })), w)

  abbrev pub outcome_recorded :
      ExecutionResult → Result QueueSnapshot × s.World → Result Execution × s.World
  outcome_recorded result (err e, w) = (ok (Execution.unrecorded result), w)
  outcome_recorded result (ok q, w) =
      with_command result q (journaled q result.command.command_id) w

  -- `_record`
  unfoldable pub record_result : ExecutionResult → ExecutionState → Action s.World Execution
  record_result result outcome w = outcome_recorded result (
      s.record_outcome result.snapshot.queue_id result.command.command_id outcome (s.utcnow w)
        result.snapshot.revision w)

  abbrev pub DeviceOperation : Type 0
  DeviceOperation = QueueDispatch → Action s.World CommandReceipt

  abbrev pub invoked :
      QueueCommandRequest
      → QueueDispatch
      → Result CommandReceipt × s.World
      → Result Execution × s.World
  invoked request d (err e, w) =
      record_result (result_of d true none (some ExecutionProblem.operation_failed))
        ExecutionState.uncertain w
  invoked request d (ok received, w) =
      if answers request received
      then record_result (result_of d true (some received) none) (outcome_state received.outcome) w
      else record_result (result_of d true none (some ExecutionProblem.invalid_receipt))
          ExecutionState.uncertain w

  unfoldable pub invoke :
      DeviceOperation → QueueCommandRequest → QueueDispatch → Action s.World Execution
  invoke operation request d w = invoked request d (operation d w)

  abbrev pub guard_checked :
      DeviceOperation
      → QueueCommandRequest
      → QueueDispatch
      → Result Bool × s.World
      → Result Execution × s.World
  guard_checked operation request d (err e, w) =
      record_result (result_of d false none (some ExecutionProblem.guard_failed))
        ExecutionState.uncertain w
  guard_checked operation request d (ok true, w) = invoke operation request d w
  guard_checked operation request d (ok false, w) =
      record_result (result_of d false none (some ExecutionProblem.canceled_before_operation))
        ExecutionState.uncertain w

  abbrev pub guarded :
      Option (Action s.World Bool)
      → DeviceOperation
      → QueueCommandRequest
      → QueueDispatch
      → Action s.World Execution
  guarded none operation request d w = invoke operation request d w
  guarded (some may_start) operation request d w =
      if request.action == CommandAction.stop
      then invoke operation request d w
      else guard_checked operation request d (may_start w)

  unfoldable pub overtaken : QueueCommandRequest → QueueSnapshot → QueueSnapshot → Bool
  overtaken request current dispatched =
      current.revision != dispatched.revision
      || (request.action != CommandAction.stop && current.cancellation_requested)

  -- The claim of the prepared command, and the call.
  unfoldable pub claim :
      Option (Action s.World Bool)
      → DeviceOperation
      → QueueCommandRequest
      → QueueSnapshot
      → Action s.World Execution
  claim may_start operation request prepared = do
    dispatched ←
        at_now (λ at. s.mark_dispatched request.queue_id request.command_id at prepared.revision)
    current ← load_queue request.queue_id
    lift (check_generation current request.expected_generation)
    raise_when (overtaken request current dispatched) Fault.revision_conflict
    found ← lift (matching dispatched request)
    command ← lift (require found Fault.assertion_error)
    guarded may_start operation request (record { snapshot = dispatched; command = command })

  unfoldable pub claim_prepared :
      Option (Action s.World Bool)
      → DeviceOperation
      → QueueCommandRequest
      → QueueSnapshot
      → JournalCommand
      → Action s.World Execution
  claim_prepared may_start operation request prepared command =
      if command.state != ExecutionState.pending
      then return (Execution.recorded (historical prepared command))
      else (raise_when (prepared.revision != request.expected_revision + 1) Fault.revision_conflict
          >> claim may_start operation request prepared)

  unfoldable pub execute_new :
      Option (Action s.World Bool)
      → DeviceOperation
      → QueueCommandRequest
      → QueueSnapshot
      → Action s.World Execution
  execute_new may_start operation request before = do
    raise_when (before.revision != request.expected_revision) Fault.revision_conflict
    prepared ← prepare request before
    lift (check_generation prepared request.expected_generation)
    found ← lift (matching prepared request)
    command ← lift (require found Fault.assertion_error)
    claim_prepared may_start operation request prepared command

  abbrev pub execute_from :
      Option JournalCommand
      → Option (Action s.World Bool)
      → DeviceOperation
      → QueueCommandRequest
      → QueueSnapshot
      → Action s.World Execution
  execute_from none may_start operation request before =
      execute_new may_start operation request before
  execute_from (some command) may_start operation request before =
      return (Execution.recorded (historical before command))

  unfoldable pub execute :
      Option (Action s.World Bool)
      → DeviceOperation
      → QueueCommandRequest
      → Action s.World Execution
  execute may_start operation request = do
    before ← load_queue request.queue_id
    lift (check_generation before request.expected_generation)
    existing ← lift (matching before request)
    execute_from existing may_start operation request before

  unfoldable pub recover_queue : String → ℕ → ℕ → Action s.World QueueSnapshot
  recover_queue queue_id expected_revision expected_generation = do
    before ← load_queue queue_id
    lift (check_generation before expected_generation)
    s.recover queue_id expected_revision
