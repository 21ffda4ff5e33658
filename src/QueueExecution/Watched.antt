-- ===== src/QueueExecution/Watched.antt =====
-- tellyq/queue_execution.py: a watched request, and the record of its outcome.
use tellyq.Prelude.{◌≡◌, Bool, true, Option, none, some, Result, ok, err, nat_eq, is_some, refl}
use tellyq.Values.{command_action_eq}
use tellyq.Queue.{ExecutionState, execution_state_eq, JournalCommand, QueueSnapshot}
use tellyq.QueueExecution.{
  Action, StorePort, QueueCommandRequest, Execution, ExecutionResult, journaled, with_command,
  outcome_recorded, record_result,
}
use tellyq.QueueExecution.Laws.{Ledger, Quiet, StoreLaws}
use tellyq.QueueExecution.Effects.{Watch, Told, Ends, Told-Quiet}

-- A guard that calls no device and forgets no claim.
abbrev pub IsQuietGuard : {W : Type 0} → Ledger W → Option (Action W Bool) → Type 0
IsQuietGuard l none = Unit
IsQuietGuard {W} l (some may_start) = (w : W) → Quiet l w (may_start w).1

abbrev pub invoked_flag : Execution → Bool
invoked_flag (Execution.recorded r) = r.operation_invoked
invoked_flag (Execution.unrecorded r) = r.operation_invoked

abbrev pub watch : (s : StorePort) → StoreLaws s → QueueCommandRequest → Watch s.World Execution
watch s laws request = record {
  ledger = laws.ledger;
  called = invoked_flag;
  queue_id = request.queue_id;
  command_id = request.command_id;
}

module _ (s : StorePort) (laws : StoreLaws s) (request : QueueCommandRequest) where
  with_command-Ends :
      (start w : s.World) (result : ExecutionResult) (q : QueueSnapshot) (o : Option JournalCommand)
      → Told (watch s laws request) start w result.operation_invoked
      → is_some o ≡ true
      → Ends (watch s laws request) start (with_command s result q o w)
  with_command-Ends start w result q none t h = cc
  with_command-Ends start w result q (some command) t h = t

  pub record_result-Ends :
      (start w : s.World) (result : ExecutionResult) (outcome : ExecutionState)
      → Told (watch s laws request) start w result.operation_invoked
      → Ends (watch s laws request) start (record_result s result outcome w)
  unfolding record_result
  record_result-Ends start w result outcome t =
      let queue_id = result.snapshot.queue_id in
      let command_id = result.command.command_id in
      let revision = result.snapshot.revision in
      let at = s.utcnow w in
      recorded (s.record_outcome queue_id command_id outcome at revision w)
        (laws.outcome_quiet queue_id command_id outcome at revision w)
        (λ q after e. laws.outcome_known queue_id command_id outcome at revision w after q e)
    where
      recorded :
          (r : Result QueueSnapshot × s.World)
          → Quiet laws.ledger w r.1
          → ((q : QueueSnapshot) (after : s.World)
              → r ≡ (ok q, after)
              → is_some (journaled q result.command.command_id) ≡ true)
          → Ends (watch s laws request) start (outcome_recorded s result r)
      recorded (ok q, after) quiet known =
          with_command-Ends start after result q (journaled q result.command.command_id)
            (Told-Quiet (watch s laws request) start w after result.operation_invoked t quiet)
            (known q after refl)
      recorded (err e, after) quiet known =
          Told-Quiet (watch s laws request) start w after result.operation_invoked t quiet
