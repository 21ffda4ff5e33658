-- ===== src/Examples/Execution.antt =====
-- tellyq/queue_execution.py over tellyq/queue_store.py: a start is executed, and executed again.
use tellyq.Prelude.{String, ◌≤◌, ◌≡◌, refl, true, none, some, List, [], ◌∷◌, Result, ok, is_blank}
use tellyq.Values.{CommandAction, CommandOutcome, CommandReceipt, Datetime}
use tellyq.QueueStore.{
  required, consistent, native_ok, position_ok, attempts_ok, commands_ok, transact, load, duplicate,
  command_taken, attempt_taken, add_command, native_begun, occupied, is_offered, new_start,
  start_body, prepare_start, find_command, allows, undispatchable, withdrawn, check_dispatch,
  check_state, awaits_outcome, is_outcome, record_outcome, move, already, transition_body,
  transition, mark_dispatched, cancel_queue, cancel_body, Call, called, Operation, perform,
  run_store,
}
use tellyq.QueueExecution.{
  QueueCommandRequest, QueueDispatch, matching, historical, answers, outcome_state, record_result,
  invoke, overtaken, claim, claim_prepared, execute_new, execute,
}
use tellyq.QueueExecution.Effects.{Ends}
use tellyq.QueueExecution.Runs.{execute-Ends}
use tellyq.QueueExecution.Watched.{watch}
use tellyq.QueueExecution.Rounds.{rounds}
use tellyq.QueueExecution.Once.{execute-once}
use tellyq.QueueExecution.Stored.{Machine, database_port, database_laws, claimed-StaysClaimed}
use tellyq.QueueStore.Advances.{claimed}
use tellyq.QueueExecution.Composed.{
  device, asked, between_runs, between_runs-AllQuiet, executed-once,
}
use tellyq.Examples.Store.{time, database, waiting}

abbrev request : QueueCommandRequest
request = record {
  queue_id = "q1";
  item_id = "i1";
  attempt_id = "a1";
  command_id = "c1";
  action = CommandAction.start;
  expected_revision = 0;
  expected_generation = 0;
}

abbrev answer : QueueDispatch → Machine → Result CommandReceipt
answer d w = ok (record {
  request_id = d.command.command_id;
  attempt_id = d.command.attempt_id;
  action = d.command.action;
  outcome = CommandOutcome.accepted;
  recorded_at = time 3;
  error = none;
  requested_at = none;
  diagnostic = none;
})

abbrev machine : Machine
machine = record { database = database waiting; clock = time 2; device_calls = 0 }

-- At first another owner cancels another queue; then nothing happens.
abbrev steps : List (List (String × Call) × Datetime)
steps = ((("q2", Call.on (Operation.cancel 0)) ∷ []), time 4) ∷ ([], time 5) ∷ []

-- Both runs return, and the device is called by the first.
called_once :
    (rounds
      (execute database_port (asked none) (device answer) request)
      (between_runs steps)
      machine).device_calls
    ≡ 1
unfolding run_store called perform cancel_queue cancel_body execute execute_new claim_prepared claim
    overtaken invoke record_result matching historical answers outcome_state load required
    consistent native_ok position_ok attempts_ok commands_ok transact duplicate command_taken
    attempt_taken add_command native_begun occupied is_offered new_start start_body prepare_start
    find_command allows undispatchable withdrawn check_dispatch check_state awaits_outcome
    is_outcome record_outcome move already transition_body transition mark_dispatched is_blank
called_once = refl

execute-Ends_example :
    Ends
      (watch database_port database_laws request)
      machine
      (execute database_port none (device answer) request machine)
unfolding database_laws
execute-Ends_example =
    execute-Ends database_port database_laws request (device answer) (λ d u. (λ q c h. h, refl))
      none tt machine

execute-once_example :
    (rounds
      (execute database_port none (device answer) request)
      (between_runs steps)
      machine).device_calls
    ≤ 1
unfolding database_laws
execute-once_example =
    execute-once database_port database_laws request (device answer) (λ d u. (λ q c h. h, refl))
      none tt (between_runs steps) machine
      (between_runs-AllQuiet claimed claimed-StaysClaimed steps)

executed-once_example :
    (rounds
      (execute database_port (asked (some (λ w. ok true))) (device answer) request)
      (between_runs steps)
      machine).device_calls
    ≤ 1
executed-once_example = executed-once answer (some (λ w. ok true)) request steps machine
