-- ===== src/QueueExecution/Runs.antt =====
-- tellyq/queue_execution.py: one run of `QueueExecutor.execute`.
use tellyq.Prelude.{
  ◌+◌, Bool, true, false, Option, none, some, Result, Fault, ok, err, raise_if, require, not, ◌==◌,
  ◌!=◌, nat_eq, if-intro,
}
use tellyq.Values.{CommandAction, command_action_eq, CommandReceipt}
use tellyq.Queue.{ExecutionState, execution_state_eq, JournalCommand, QueueSnapshot}
use tellyq.QueueExecution.{
  Action, lift, continue, ◌>>=◌, StorePort, QueueCommandRequest, QueueDispatch, ExecutionProblem,
  Execution, matching, check_generation, historical, answers, outcome_state, load_queue,
  has_attempt, prepare, result_of, DeviceOperation, invoked, invoke, guard_checked, guarded,
  overtaken, claim, claim_prepared, execute_new, execute_from, execute,
}
use tellyq.QueueExecution.Laws.{Quiet, Quiet-refl, Quiet-trans, StoreLaws, Rings}
use tellyq.QueueExecution.Effects.{
  Ends, Claimed, Rang, Claimed-Quiet, Ends-continue, Ends-lift, Ends-loaded, Rang-Rings,
}
use tellyq.QueueExecution.Watched.{IsQuietGuard, watch, record_result-Ends}

module _ (s : StorePort) (laws : StoreLaws s) (request : QueueCommandRequest) where
  module _ (operation : DeviceOperation s)
      (rings : (d : QueueDispatch) (w : s.World) → Rings laws.ledger w (operation d w).1) where
    invoked-Ends :
        (start : s.World) (d : QueueDispatch) (r : Result CommandReceipt × s.World)
        → Rang (watch s laws request) start r.1
        → Ends (watch s laws request) start (invoked s request d r)
    invoked-Ends start d (err e, w) rang =
        record_result-Ends s laws request start w
          (result_of s d true none (some ExecutionProblem.operation_failed))
          ExecutionState.uncertain rang
    invoked-Ends start d (ok received, w) rang =
        if-intro (λ r. Ends (watch s laws request) start r) (answers request received)
          (λ _.
            record_result-Ends s laws request start w (result_of s d true (some received) none)
              (outcome_state received.outcome) rang)
          (λ _.
            record_result-Ends s laws request start w
              (result_of s d true none (some ExecutionProblem.invalid_receipt))
              ExecutionState.uncertain rang)

    invoke-Ends :
        (start w : s.World) (d : QueueDispatch)
        → Claimed (watch s laws request) start w
        → Ends (watch s laws request) start (invoke s operation request d w)
    unfolding invoke
    invoke-Ends start w d c =
        invoked-Ends start d (operation d w)
          (Rang-Rings (watch s laws request) start w (operation d w).1 c (rings d w))

    guard_checked-Ends :
        (start : s.World) (d : QueueDispatch) (r : Result Bool × s.World)
        → Claimed (watch s laws request) start r.1
        → Ends (watch s laws request) start (guard_checked s operation request d r)
    guard_checked-Ends start d (err e, w) c =
        record_result-Ends s laws request start w
          (result_of s d false none (some ExecutionProblem.guard_failed)) ExecutionState.uncertain
          c.quiet
    guard_checked-Ends start d (ok true, w) c = invoke-Ends start w d c
    guard_checked-Ends start d (ok false, w) c =
        record_result-Ends s laws request start w
          (result_of s d false none (some ExecutionProblem.canceled_before_operation))
          ExecutionState.uncertain c.quiet

    guarded-Ends :
        (may_start : Option (Action s.World Bool)) (start w : s.World) (d : QueueDispatch)
        → IsQuietGuard laws.ledger may_start
        → Claimed (watch s laws request) start w
        → Ends (watch s laws request) start (guarded s may_start operation request d w)
    guarded-Ends none start w d quiet c = invoke-Ends start w d c
    guarded-Ends (some may_start) start w d quiet c =
        if-intro (λ r. Ends (watch s laws request) start r) (request.action == CommandAction.stop)
          (λ _. invoke-Ends start w d c)
          (λ _.
            guard_checked-Ends start d (may_start w)
              (Claimed-Quiet (watch s laws request) start w (may_start w).1 c (quiet w)))

    module _ (may_start : Option (Action s.World Bool))
        (quiet : IsQuietGuard laws.ledger may_start) where
      Claimed-Ends :
          (start w : s.World) (dispatched : QueueSnapshot)
          → Claimed (watch s laws request) start w
          → Ends (watch s laws request) start (
              continue (load_queue s request.queue_id w) (λ current.
                lift (check_generation current request.expected_generation) >>= λ _.
                lift (raise_if (overtaken s request current dispatched) Fault.revision_conflict)
                >>= λ _. lift (matching dispatched request) >>= λ found.
                    lift (require found Fault.assertion_error) >>= λ command.
                    guarded s may_start operation request
                      (record { snapshot = dispatched; command = command })))
      Claimed-Ends start w dispatched c =
          Ends-loaded (watch s laws request) start w (s.load request.queue_id w) _ c.quiet
            (laws.load_quiet request.queue_id w)
            (λ current after q.
              let k = Claimed-Quiet (watch s laws request) start w after c q in
              Ends-lift (watch s laws request) start after
                (check_generation current request.expected_generation) _ k.quiet
                (λ _ _.
                  Ends-lift (watch s laws request) start after
                    (raise_if (overtaken s request current dispatched) Fault.revision_conflict) _
                    k.quiet
                    (λ _ _.
                      Ends-lift (watch s laws request) start after (matching dispatched request) _
                        k.quiet
                        (λ found _.
                          Ends-lift (watch s laws request) start after
                            (require found Fault.assertion_error) _ k.quiet
                            (λ command _.
                              guarded-Ends may_start start after
                                (record { snapshot = dispatched; command = command }) quiet k)))))

      claim-Ends :
          (start w : s.World) (prepared : QueueSnapshot)
          → Quiet laws.ledger start w
          → Ends (watch s laws request) start (claim s may_start operation request prepared w)
      unfolding claim
      claim-Ends start w prepared h =
          let at = s.utcnow w in
          Ends-continue (watch s laws request) start w
            (s.mark_dispatched request.queue_id request.command_id at prepared.revision w) _ h
            (laws.dispatch_quiet request.queue_id request.command_id at prepared.revision w)
            (λ dispatched after e q.
              let claims =
                laws.dispatch_claims request.queue_id request.command_id at prepared.revision w
                  after dispatched e in
              Claimed-Ends start after dispatched (record {
                free = λ old. claims.0 (h.0 request.queue_id request.command_id old);
                held = claims.1;
                quiet = Quiet-trans laws.ledger start w after h q;
              }))

      claim_prepared-Ends :
          (start w : s.World) (prepared : QueueSnapshot) (command : JournalCommand)
          → Quiet laws.ledger start w
          → Ends
              (watch s laws request)
              start
              (claim_prepared s may_start operation request prepared command w)
      unfolding claim_prepared historical
      claim_prepared-Ends start w prepared command h =
          if-intro (λ (a : Action s.World Execution). Ends (watch s laws request) start (a w))
            (command.state != ExecutionState.pending) (λ _. h)
            (λ _.
              Ends-lift (watch s laws request) start w
                (raise_if (prepared.revision != request.expected_revision + 1)
                  Fault.revision_conflict)
                _ h (λ _ _. claim-Ends start w prepared h))

      -- What follows the preparation, whichever kind of command it was.
      prepared-Ends :
          (start w : s.World) (r : Result QueueSnapshot × s.World)
          → Quiet laws.ledger start w
          → Quiet laws.ledger w r.1
          → Ends (watch s laws request) start (
              continue r (λ prepared.
                lift (check_generation prepared request.expected_generation) >>= λ _.
                lift (matching prepared request) >>= λ found.
                lift (require found Fault.assertion_error) >>= λ command.
                claim_prepared s may_start operation request prepared command))
      prepared-Ends start w r h q =
          Ends-continue (watch s laws request) start w r _ h q (λ prepared after e quiet_step.
            let k = Quiet-trans laws.ledger start w after h quiet_step in
            Ends-lift (watch s laws request) start after
              (check_generation prepared request.expected_generation) _ k
              (λ _ _.
                Ends-lift (watch s laws request) start after (matching prepared request) _ k
                  (λ found _.
                    Ends-lift (watch s laws request) start after
                      (require found Fault.assertion_error) _ k
                      (λ command _. claim_prepared-Ends start after prepared command k))))

      continue_lift-Quiet :
          (w : s.World) (r : Result (Unit {0})) (f : Action s.World QueueSnapshot)
          → Quiet laws.ledger w (f w).1
          → Quiet laws.ledger w (continue (r, w) (λ _. f)).1
      continue_lift-Quiet w (ok u) f h = h
      continue_lift-Quiet w (err e) f h = Quiet-refl laws.ledger w

      prepare-Quiet :
          (w : s.World) (before : QueueSnapshot)
          → Quiet laws.ledger w (prepare s request before w).1
      prepare-Quiet w before =
          let at = s.utcnow w in
          let P = λ (a : Action s.World QueueSnapshot). Quiet laws.ledger w (a w).1 in
          if-intro P (request.action == CommandAction.start)
            (λ _.
              laws.start_quiet request.queue_id request.item_id request.attempt_id
                request.command_id at request.expected_revision w)
            (λ _.
              continue_lift-Quiet w
                (raise_if (not (has_attempt s request before)) Fault.value_error) _
                (if-intro P (request.action == CommandAction.stop)
                  (λ _.
                    laws.stop_quiet request.queue_id request.attempt_id request.command_id at
                      request.expected_revision w)
                  (λ _.
                    laws.control_quiet request.queue_id request.attempt_id request.command_id
                      request.action at request.expected_revision w)))

      execute_new-Ends :
          (start w : s.World) (before : QueueSnapshot)
          → Quiet laws.ledger start w
          → Ends (watch s laws request) start (execute_new s may_start operation request before w)
      unfolding execute_new
      execute_new-Ends start w before h =
          Ends-lift (watch s laws request) start w
            (raise_if (before.revision != request.expected_revision) Fault.revision_conflict) _ h
            (λ _ _. prepared-Ends start w (prepare s request before w) h (prepare-Quiet w before))

      execute_from-Ends :
          (existing : Option JournalCommand) (start w : s.World) (before : QueueSnapshot)
          → Quiet laws.ledger start w
          → Ends
              (watch s laws request)
              start
              (execute_from s existing may_start operation request before w)
      unfolding historical
      execute_from-Ends none start w before h = execute_new-Ends start w before h
      execute_from-Ends (some command) start w before h = h

      -- Where `execute` returns, or raises for an outcome it could not record, its result says truly
      -- whether the operation was called: if it was, then once, for a command that was not handed
      -- out at the start and is at the end. Any other exception comes with no call.
      pub execute-Ends :
          (start : s.World)
          → Ends (watch s laws request) start (execute s may_start operation request start)
      unfolding execute
      execute-Ends start =
          Ends-loaded (watch s laws request) start start (s.load request.queue_id start) _
            (Quiet-refl laws.ledger start) (laws.load_quiet request.queue_id start)
            (λ before w q.
              Ends-lift (watch s laws request) start w
                (check_generation before request.expected_generation) _ q
                (λ _ _.
                  Ends-lift (watch s laws request) start w (matching before request) _ q
                    (λ existing _. execute_from-Ends existing start w before q)))
