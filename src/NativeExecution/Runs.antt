-- ===== src/NativeExecution/Runs.antt =====
-- tellyq/native_queue_execution.py: one run of `NativeQueueExecutor.execute` calls the receiver at most
-- once, after its operation was claimed.
use tellyq.Prelude.{
  ◌+◌, Bool, true, false, Option, none, some, Result, Fault, ok, err, raise_if, require, ◌==◌, ◌!=◌,
  nat_eq, ◌||◌, inl, if-intro,
}
use tellyq.Queue.{
  NativeQueueAction, native_queue_action_eq, ExecutionState, execution_state_eq, NativeReservation,
  NativeOperation, QueueSnapshot,
}
use tellyq.QueueExecution.{Action, StorePort, ExecutionProblem, outcome_state}
use tellyq.QueueExecution.Laws.{Quiet, Quiet-refl, Quiet-trans, Rings}
use tellyq.QueueExecution.Effects.{
  Watch, Claimed, Claimed-Quiet, Rang-Rings, Calls, Calls-Quiet, Calls-Rang, Quiet-continue,
  Quiet-lift, Quiet-loaded,
}
use tellyq.QueueExecution.Watched.{IsQuietGuard}
use tellyq.NativeExecution.{
  native_queue_request_eq, NativeQueueReceipt, NativeExecutionRequest, NativeDispatch,
  NativeExecutionResult, NativeExecution, native_records, is_operation_known, native_historical,
  reserved_in, operated_in, prepare_native, native_result_of, with_records, native_outcome_recorded,
  record_native_result, NativeEffect, effected, effect_checked, effect_guarded, claim_native,
  claim_new, execute_native,
}
use tellyq.NativeExecution.Laws.{NativeLaws}

abbrev pub effect_flag : NativeExecution → Bool
effect_flag (NativeExecution.recorded r) = r.operation_invoked
effect_flag (NativeExecution.unrecorded r) = r.operation_invoked

module _ (s : StorePort) (laws : NativeLaws s) where
  with_records-Quiet :
      (result : NativeExecutionResult) (q : QueueSnapshot) (w : s.World)
      → Quiet laws.ledger w (with_records s result q w).1
  unfolding with_records
  with_records-Quiet result q w =
      let same = Quiet-refl laws.ledger w in
      let P = λ (r : Result NativeExecution × s.World). Quiet laws.ledger w r.1 in
      Quiet-lift laws.ledger w P (λ e after h. h) w (operated_in q result.operation.operation_id) _
        same
        (λ operation _.
          Quiet-lift laws.ledger w P (λ e after h. h) w
            (reserved_in q result.reservation.reservation_id) _ same (λ reservation _. same))

  record_native_result-Quiet :
      (result : NativeExecutionResult) (outcome : ExecutionState) (w : s.World)
      → Quiet laws.ledger w (record_native_result s result outcome w).1
  unfolding record_native_result
  record_native_result-Quiet result outcome w =
      let q = result.snapshot in
      noted
        (s.record_native_outcome q.queue_id result.operation.operation_id outcome (s.utcnow w)
          q.revision q.generation w)
        (laws.outcome_quiet q.queue_id result.operation.operation_id outcome (s.utcnow w) q.revision
          q.generation w)
    where
      noted :
          (r : Result QueueSnapshot × s.World)
          → Quiet laws.ledger w r.1
          → Quiet laws.ledger w (native_outcome_recorded s result r).1
      noted (err e, after) quiet = quiet
      noted (ok q, after) quiet =
          Quiet-trans laws.ledger w after (with_records s result q after).1 quiet
            (with_records-Quiet result q after)

module _ (s : StorePort) (laws : NativeLaws s) (request : NativeExecutionRequest)
    (operation : NativeEffect s)
    (rings : (d : NativeDispatch) (w : s.World) → Rings laws.ledger w (operation d w).1) where
  abbrev pub native_watch : Watch s.World NativeExecution
  native_watch = record {
    ledger = laws.ledger;
    called = effect_flag;
    queue_id = request.queue_id;
    command_id = request.request.operation_id;
  }

  abbrev pub Spends : s.World → Result NativeExecution × s.World → Type 0
  Spends start r = Calls native_watch start r.1

  raised-Spends :
      (start : s.World) (e : Fault) (after : s.World)
      → Quiet laws.ledger start after
      → Calls native_watch start after
  raised-Spends start e after h = (h.0, inl h.1)

  recorded-Spends :
      (start w : s.World) (result : NativeExecutionResult) (outcome : ExecutionState)
      → Calls native_watch start w
      → Spends start (record_native_result s result outcome w)
  recorded-Spends start w result outcome c =
      Calls-Quiet native_watch start w (record_native_result s result outcome w).1 c
        (record_native_result-Quiet s laws result outcome w)

  effected-Spends :
      (start : s.World) (d : NativeDispatch) (r : Result NativeQueueReceipt × s.World)
      → Calls native_watch start r.1
      → Spends start (effected s d r)
  effected-Spends start d (err e, w) c =
      recorded-Spends start w
        (native_result_of s d true none (some ExecutionProblem.operation_failed))
        ExecutionState.uncertain c
  effected-Spends start d (ok received, w) c =
      if-intro (Spends start) (received.request == d.request)
        (λ _.
          recorded-Spends start w (native_result_of s d true (some received) none)
            (outcome_state received.outcome) c)
        (λ _.
          recorded-Spends start w
            (native_result_of s d true none (some ExecutionProblem.invalid_receipt))
            ExecutionState.uncertain c)

  -- An effect of a claimed operation.
  called-Spends :
      (start w : s.World) (d : NativeDispatch)
      → Claimed native_watch start w
      → Spends start (effected s d (operation d w))
  called-Spends start w d c = effected-Spends start d (operation d w) (
      Calls-Rang native_watch start (operation d w).1
        (Rang-Rings native_watch start w (operation d w).1 c (rings d w)))

  effect_checked-Spends :
      (start : s.World) (d : NativeDispatch) (r : Result Bool × s.World)
      → Claimed native_watch start r.1
      → Spends start (effect_checked s operation d r)
  effect_checked-Spends start d (err e, w) c =
      recorded-Spends start w (native_result_of s d false none (some ExecutionProblem.guard_failed))
        ExecutionState.uncertain (raised-Spends start Fault.value_error w c.quiet)
  effect_checked-Spends start d (ok true, w) c = called-Spends start w d c
  effect_checked-Spends start d (ok false, w) c =
      recorded-Spends start w
        (native_result_of s d false none (some ExecutionProblem.canceled_before_operation))
        ExecutionState.uncertain (raised-Spends start Fault.value_error w c.quiet)

  effect_guarded-Spends :
      (may_effect : Option (Action s.World Bool)) (start w : s.World) (d : NativeDispatch)
      → IsQuietGuard laws.ledger may_effect
      → Claimed native_watch start w
      → Spends start (effect_guarded s may_effect operation d w)
  effect_guarded-Spends none start w d quiet c = called-Spends start w d c
  effect_guarded-Spends (some may_effect) start w d quiet c =
      effect_checked-Spends start d (may_effect w)
        (Claimed-Quiet native_watch start w (may_effect w).1 c (quiet w))

  module _ (may_effect : Option (Action s.World Bool))
      (quiet : IsQuietGuard laws.ledger may_effect) where
    claim_native-Spends :
        (start w : s.World) (prepared : QueueSnapshot)
        → Quiet laws.ledger start w
        → Spends start (claim_native s may_effect operation request prepared w)
    unfolding claim_native
    claim_native-Spends start w prepared h =
        let at = s.utcnow w in
        let id = request.request.operation_id in
        let generation = request.expected_generation in
        let P = Spends start in
        Quiet-continue laws.ledger start P (raised-Spends start) w
          (s.mark_native_dispatched request.queue_id id at prepared.revision generation w) _ h
          (laws.dispatch_quiet request.queue_id id at prepared.revision generation w)
          (λ dispatched after e q.
            let claims =
              laws.dispatch_claims request.queue_id id at prepared.revision generation w after
                dispatched e in
            let claim : Claimed native_watch start after = record {
              free = λ old. claims.0 (h.0 request.queue_id id old);
              held = claims.1;
              quiet = Quiet-trans laws.ledger start w after h q;
            } in
            Quiet-loaded laws.ledger start P (raised-Spends start) after
              (s.load request.queue_id after) _ claim.quiet (laws.load_quiet request.queue_id after)
              (λ current last q'.
                let c = Claimed-Quiet native_watch start after last claim q' in
                Quiet-lift laws.ledger start P (raised-Spends start) last
                  (raise_if
                    (current.generation != request.expected_generation
                      || current.revision != dispatched.revision)
                    Fault.revision_conflict)
                  _ c.quiet
                  (λ _ _.
                    Quiet-lift laws.ledger start P (raised-Spends start) last
                      (native_records dispatched request) _ c.quiet
                      (λ records _.
                        effect_guarded-Spends may_effect start last
                          (record {
                            snapshot = dispatched;
                            reservation = records.0;
                            operation = records.1;
                            request = request.request;
                          })
                          quiet c))))

    claim_new-Spends :
        (existing : Bool) (start w : s.World) (prepared : QueueSnapshot)
        (records : NativeReservation × NativeOperation)
        → Quiet laws.ledger start w
        → Spends start (claim_new s existing may_effect operation request prepared records w)
    unfolding claim_new native_historical
    claim_new-Spends existing start w prepared records h =
        if-intro (λ (a : Action s.World NativeExecution). Spends start (a w))
          (existing || records.1.state != ExecutionState.pending)
          (λ _. raised-Spends start Fault.value_error w h)
          (λ _.
            Quiet-lift laws.ledger start (Spends start) (raised-Spends start) w
              (raise_if (prepared.revision != request.expected_revision + 1)
                Fault.revision_conflict)
              _ h (λ _ _. claim_native-Spends start w prepared h))

    prepare_native-Quiet : (w : s.World) → Quiet laws.ledger w (prepare_native s request w).1
    prepare_native-Quiet w =
        let at = s.utcnow w in
        let same = Quiet-refl laws.ledger w in
        let R = λ (r : Result QueueSnapshot × s.World). Quiet laws.ledger w r.1 in
        let P = λ (a : Action s.World QueueSnapshot). R (a w) in
        if-intro P (request.request.action == NativeQueueAction.play_next)
          (λ _.
            Quiet-lift laws.ledger w R (λ e after h. h) w
              (require request.successor_item_id Fault.assertion_error) _ same
              (λ item_id _.
                Quiet-lift laws.ledger w R (λ e after h. h) w
                  (require request.successor_attempt_id Fault.assertion_error) _ same
                  (λ attempt_id _.
                    laws.successor_quiet request.queue_id item_id request.reservation_id attempt_id
                      request.request at request.expected_revision request.expected_generation w)))
          (λ _.
            laws.clear_quiet request.queue_id request.reservation_id request.request at
              request.expected_revision request.expected_generation w)

    pub execute_native-Spends :
        (start : s.World) → Spends start (execute_native s may_effect operation request start)
    unfolding execute_native
    execute_native-Spends start =
        let P = Spends start in
        Quiet-loaded laws.ledger start P (raised-Spends start) start (s.load request.queue_id start)
          _ (Quiet-refl laws.ledger start) (laws.load_quiet request.queue_id start)
          (λ before w q.
            Quiet-lift laws.ledger start P (raised-Spends start) w
              (raise_if (before.generation != request.expected_generation) Fault.revision_conflict)
              _ q
              (λ _ _.
                Quiet-continue laws.ledger start P (raised-Spends start) w
                  (prepare_native s request w) _ q (prepare_native-Quiet w)
                  (λ prepared after _ q'.
                    let h = Quiet-trans laws.ledger start w after q q' in
                    Quiet-lift laws.ledger start P (raised-Spends start) after
                      (native_records prepared request) _ h
                      (λ records _.
                        claim_new-Spends (is_operation_known before request) start after prepared
                          records h))))
