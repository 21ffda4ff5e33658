-- ===== src/QueueStore/Transitions.antt =====
-- tellyq/queue_store.py: commands of the journal, handed out once and then given an outcome.
use tellyq.Prelude.{
  ℕ, String, Bool, some, Result, Fault, ok, raise_if, require, ◌>>=◌, ◌>>◌, ◌==◌, ◌!=◌, nat_eq,
  string_eq, option_eq, ◌&&◌, ◌||◌, not, any, first, last, update_where, if◌then◌else◌,
}
use tellyq.Values.{CommandAction, command_action_eq, Datetime, before}
use tellyq.Queue.{
  ExecutionState, execution_state_eq, QueueIntent, queue_intent_eq, QueueAttempt, queue_attempt_eq,
  JournalCommand, QueueSnapshot,
}
use tellyq.QueueStore.Rows.{Database}
use tellyq.QueueStore.Transactions.{check_timestamp, check_revision, Change, transact}

unfoldable pub find_command : QueueSnapshot → String → Result JournalCommand
find_command q command_id =
    require (first (λ c. c.command_id == command_id) q.commands) Fault.queue_store_error

-- The intents of an attempt with which a command for it may leave.
unfoldable pub allows : CommandAction → QueueIntent → Bool
allows action intent =
    if action == CommandAction.release
    then intent == QueueIntent.finished
    else intent == QueueIntent.current
      || (action == CommandAction.stop && intent == QueueIntent.finished)

unfoldable pub undispatchable : QueueSnapshot → JournalCommand → QueueAttempt → Bool
undispatchable q command attempt =
    some attempt != last q.attempts
    || some attempt.item_id != q.current_item_id
    || not (allows command.action attempt.intent)
    || not (any (λ i. i.item_id == attempt.item_id && i.intent == attempt.intent) q.items)

unfoldable pub withdrawn : QueueSnapshot → JournalCommand → Bool
withdrawn q command = command.action != CommandAction.stop && q.cancellation_requested

unfoldable pub check_dispatch : QueueSnapshot → JournalCommand → Result (Unit {0})
check_dispatch q command = do
  raise_if (command.state != ExecutionState.pending) Fault.queue_store_error
  raise_if (withdrawn q command) Fault.queue_store_error
  attempt ←
      require (first (λ a. a.attempt_id == command.attempt_id) q.attempts) Fault.stop_iteration
  raise_if (undispatchable q command attempt) Fault.queue_store_error

unfoldable pub awaits_outcome : JournalCommand → Bool
awaits_outcome command =
    command.state == ExecutionState.dispatched || command.state == ExecutionState.uncertain

unfoldable pub check_state : QueueSnapshot → JournalCommand → ExecutionState → Result (Unit {0})
check_state q command state =
    if state == ExecutionState.dispatched
    then check_dispatch q command
    else raise_if (not (awaits_outcome command)) Fault.queue_store_error

abbrev pub set_state : ExecutionState → Datetime → JournalCommand → JournalCommand
set_state state at c = record c { state = state; updated_at = at }

abbrev pub moved_rows : QueueSnapshot → String → ExecutionState → Datetime → QueueSnapshot
moved_rows q command_id state at = record q {
  commands = update_where (λ c. c.command_id == command_id) (set_state state at) q.commands;
}

unfoldable pub move :
    String → ExecutionState → Datetime → QueueSnapshot → JournalCommand → Result Change
move command_id state at q command = do
  check_state q command state
  raise_if (before at command.updated_at) Fault.value_error
  ok (Change.rewritten (moved_rows q command_id state at))

unfoldable pub already : ExecutionState → JournalCommand → Bool
already state command = command.state == state && state != ExecutionState.dispatched

unfoldable pub transition_body :
    String → ExecutionState → Datetime → ℕ → QueueSnapshot → Result Change
transition_body command_id state at expected q = do
  command ← find_command q command_id
  check_revision q expected
  raise_if (command.generation != q.generation) Fault.revision_conflict
  if already state command then ok Change.unchanged else move command_id state at q command

-- `_transition`
unfoldable pub transition :
    Database → String → String → ExecutionState → Datetime → ℕ → Result (QueueSnapshot × Database)
transition db queue_id command_id state at expected = do
  check_timestamp at
  transact db queue_id (transition_body command_id state at expected)

unfoldable pub mark_dispatched :
    Database → String → String → Datetime → ℕ → Result (QueueSnapshot × Database)
mark_dispatched db queue_id command_id at expected =
    transition db queue_id command_id ExecutionState.dispatched at expected

unfoldable pub is_outcome : ExecutionState → Bool
is_outcome state =
    state == ExecutionState.acknowledged
    || state == ExecutionState.rejected
    || state == ExecutionState.uncertain

unfoldable pub record_outcome :
    Database → String → String → ExecutionState → Datetime → ℕ → Result (QueueSnapshot × Database)
record_outcome db queue_id command_id outcome at expected = do
  raise_if (not (is_outcome outcome)) Fault.value_error
  transition db queue_id command_id outcome at expected
