-- ===== src/QueueExecution/Requests.antt =====
-- tellyq/queue_execution.py: what is asked for, what is answered, and the journal's own command.
use tellyq.Prelude.{
  ℕ, String, Bool, false, Option, none, some, Result, Fault, ok, raise_if, require, ◌>>=◌, ◌>>◌,
  ◌==◌, ◌!=◌, nat_eq, string_eq, ◌&&◌, ◌||◌, first, is_blank, if◌then◌else◌,
}
use tellyq.Values.{
  CommandAction, command_action_eq, CommandOutcome, command_outcome_eq, CommandReceipt,
}
use tellyq.Queue.{ExecutionState, is_unresolved, JournalCommand, QueueSnapshot}

pub record QueueCommandRequest : Type 0 where
  pub queue_id : String
  pub item_id : String
  pub attempt_id : String
  pub command_id : String
  pub action : CommandAction
  pub expected_revision : ℕ
  pub expected_generation : ℕ

unfoldable pub check_command_request : QueueCommandRequest → Result QueueCommandRequest
check_command_request r = do
  raise_if
      (is_blank r.queue_id || is_blank r.item_id || is_blank r.attempt_id || is_blank r.command_id)
      Fault.value_error
  ok r

pub record QueueDispatch : Type 0 where
  pub snapshot : QueueSnapshot
  pub command : JournalCommand

pub data ExecutionProblem : Type 0 where
  operation_failed invalid_receipt reconciliation_required : ExecutionProblem
  canceled_before_operation guard_failed : ExecutionProblem

pub record ExecutionResult : Type 0 where
  pub snapshot : QueueSnapshot
  pub command : JournalCommand
  pub operation_invoked : Bool
  pub receipt : Option CommandReceipt
  pub problem : Option ExecutionProblem

-- What `execute` returns, and the result that an `OutcomePersistenceError` retains.
pub data Execution : Type 0 where
  recorded : ExecutionResult → Execution
  unrecorded : ExecutionResult → Execution

-- `_command`
abbrev pub journaled : QueueSnapshot → String → Option JournalCommand
journaled q command_id = first (λ c. c.command_id == command_id) q.commands

abbrev pub matching_of :
    Option JournalCommand → QueueSnapshot → QueueCommandRequest → Result (Option JournalCommand)
matching_of none q request = ok none
matching_of (some command) q request = do
  attempt ←
      require (first (λ a. a.attempt_id == command.attempt_id) q.attempts) Fault.stop_iteration
  raise_if
      (command.action != request.action
        || command.attempt_id != request.attempt_id
        || attempt.item_id != request.item_id)
      Fault.value_error
  raise_if (command.generation != request.expected_generation) Fault.revision_conflict
  ok (some command)

-- `_matching`
unfoldable pub matching : QueueSnapshot → QueueCommandRequest → Result (Option JournalCommand)
matching q request = matching_of (journaled q request.command_id) q request

-- `_generation`
abbrev pub check_generation : QueueSnapshot → ℕ → Result (Unit {0})
check_generation q expected = raise_if (q.generation != expected) Fault.revision_conflict

-- `_historical`
unfoldable pub historical : QueueSnapshot → JournalCommand → ExecutionResult
historical q command = record {
  snapshot = q;
  command = command;
  operation_invoked = false;
  receipt = none;
  problem =
      if is_unresolved command.state then some ExecutionProblem.reconciliation_required else none;
}

-- The receipt is for this command.
unfoldable pub answers : QueueCommandRequest → CommandReceipt → Bool
answers request received =
    received.request_id == request.command_id
    && received.attempt_id == request.attempt_id
    && received.action == request.action

unfoldable pub outcome_state : CommandOutcome → ExecutionState
outcome_state CommandOutcome.accepted = ExecutionState.acknowledged
outcome_state CommandOutcome.rejected = ExecutionState.rejected
outcome_state CommandOutcome.unknown = ExecutionState.uncertain
