-- ===== src/Examples/Receiver.antt =====
-- tellyq/native_queue_execution.py over tellyq/queue_store.py: a successor is staged on the receiver,
-- and the request is repeated.
use tellyq.Prelude.{String, ◌≤◌, ◌≡◌, refl, true, none, some, List, [], ◌∷◌, Result, ok, is_blank}
use tellyq.Values.{CommandOutcome, ControlStage, Datetime}
use tellyq.QueueStore.{
  required, consistent, native_ok, position_ok, attempts_ok, commands_ok, transact, load,
  native_fence, find_reservation, find_operation, scope_differs, check_staged, check_native_match,
  operation_taken, add_operation, reservation_taken, unreservable, unstageable, repeats_content,
  reserve, new_staging, operation_known, staging_body, prepare_native_successor, staging_lost,
  clearing_lost, check_native_dispatch, check_native_state, native_awaits_outcome, native_already,
  native_move, native_transition_body, native_transition, mark_native_dispatched,
  record_native_outcome, is_outcome, same_staging, staged_differs, Call, run_store,
}
use tellyq.QueueExecution.{outcome_state}
use tellyq.QueueExecution.Rounds.{rounds}
use tellyq.QueueExecution.Stored.{Machine, database_port}
use tellyq.QueueExecution.Composed.{asked, between_runs, between_runs-AllQuiet, asked-IsQuietGuard}
use tellyq.QueueStore.Advances.{claimed_native}
use tellyq.NativeExecution.{
  NativeQueueReason, NativeQueueReceipt, NativeExecutionRequest, NativeDispatch, native_records,
  native_historical, with_records, record_native_result, claim_native, claim_new, execute_native,
}
use tellyq.NativeExecution.Once.{execute_native-once}
use tellyq.NativeExecution.Stored.{
  claimed_native-StaysClaimed, native_laws, receiver, executed_native-once,
}
use tellyq.Examples.Store.{time}
use tellyq.Examples.Native.{native_queue, staging, alone}

abbrev request : NativeExecutionRequest
request = record {
  queue_id = "q1";
  reservation_id = "r1";
  request = staging;
  expected_revision = 1;
  expected_generation = 0;
  successor_item_id = some "i2";
  successor_attempt_id = some "a2";
}

abbrev answer : NativeDispatch → Machine → Result NativeQueueReceipt
answer d w = ok (record {
  request = d.request;
  outcome = CommandOutcome.accepted;
  recorded_at = time 5;
  diagnostic = record {
    stage = ControlStage.transport;
    reason = NativeQueueReason.command_returned;
  };
})

abbrev machine : Machine
machine = record { database = alone native_queue; clock = time 2; device_calls = 0 }

abbrev steps : List (List (String × Call) × Datetime)
steps = ([], time 4) ∷ ([], time 5) ∷ []

-- The first run calls the receiver, and the second only reads history.
called_once :
    (rounds
      (execute_native database_port (asked none) (receiver answer) request)
      (between_runs steps)
      machine).device_calls
    ≡ 1
unfolding run_store execute_native claim_new claim_native record_native_result with_records
    native_records native_historical outcome_state load required consistent native_ok position_ok
    attempts_ok commands_ok transact prepare_native_successor staging_body operation_known
    new_staging native_fence unreservable unstageable reserve check_native_match scope_differs
    check_staged repeats_content reservation_taken add_operation operation_taken find_reservation
    find_operation staging_lost clearing_lost check_native_dispatch check_native_state
    native_awaits_outcome native_already native_move native_transition_body native_transition
    mark_native_dispatched record_native_outcome is_outcome same_staging staged_differs is_blank
called_once = refl

execute_native-once_example :
    (rounds
      (execute_native database_port (asked none) (receiver answer) request)
      (between_runs steps)
      machine).device_calls
    ≤ 1
unfolding native_laws
execute_native-once_example =
    execute_native-once database_port native_laws request (receiver answer)
      (λ d u. (λ q c h. h, refl)) (asked none) (asked-IsQuietGuard claimed_native none)
      (between_runs steps) machine
      (between_runs-AllQuiet claimed_native claimed_native-StaysClaimed steps)

executed_native-once_example :
    (rounds
      (execute_native database_port (asked (some (λ w. ok true))) (receiver answer) request)
      (between_runs steps)
      machine).device_calls
    ≤ 1
executed_native-once_example =
    executed_native-once answer (some (λ w. ok true)) request steps machine
