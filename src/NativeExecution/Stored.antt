-- ===== src/NativeExecution/Stored.antt =====
-- tellyq/native_queue_execution.py over tellyq/queue_store.py: the native executor on the durable
-- store, between calls of other owners on the same database.
use tellyq.Prelude.{
  ℕ, suc, ◌≤◌, ◌≡◌, refl, subst, String, Bool, true, Option, List, Result, ok, nat_eq, arith,
}
use tellyq.Values.{Datetime}
use tellyq.Queue.{execution_state_eq, QueueSnapshot}
use tellyq.QueueStore.{Call, Operation, mark_native_dispatched, perform}
use tellyq.QueueStore.Advances.{claimed_native}
use tellyq.QueueStore.NativeDispatch.{mark_native_dispatched-Dispatched}
use tellyq.QueueExecution.Laws.{Ledger}
use tellyq.QueueExecution.Rounds.{rounds}
use tellyq.QueueExecution.Stored.{
  Machine, stored, database_port, ledger_of, StaysClaimed, stored-Quiet, stored-ok,
}
use tellyq.QueueExecution.Composed.{asked, between_runs, between_runs-AllQuiet, asked-IsQuietGuard}
use tellyq.NativeExecution.{
  NativeQueueReceipt, NativeExecutionRequest, NativeDispatch, execute_native,
}
use tellyq.NativeExecution.Laws.{NativeLaws}
use tellyq.NativeExecution.Once.{execute_native-once}

pub claimed_native-StaysClaimed : StaysClaimed claimed_native
claimed_native-StaysClaimed n q rows advances id h = advances.stays_claimed_native id h

abbrev pub native_ledger : Ledger Machine
native_ledger = ledger_of claimed_native

pub native_dispatch-claims :
    (queue_id operation_id : String) (at : Datetime) (expected generation : ℕ) (w w' : Machine)
    (q : QueueSnapshot)
    → stored w (mark_native_dispatched w.database queue_id operation_id at expected generation)
      ≡ (ok q, w')
    → (native_ledger.handed queue_id operation_id w → ⊥)
      × native_ledger.handed queue_id operation_id w'
native_dispatch-claims queue_id operation_id at expected generation w w' q e =
    let returned =
      stored-ok w (mark_native_dispatched w.database queue_id operation_id at expected generation) q
        w' e in
    let out =
      mark_native_dispatched-Dispatched w.database queue_id operation_id at expected generation
        returned in
    (
      λ (r, found, held).
          let same : r ≡ out.q = cc (found, out.stored) in
          let claim : claimed_native operation_id out.q ≡ true =
            subst (λ p. claimed_native operation_id p ≡ true) same held in
          let operation = out.hands_out.found in
          let pending = out.hands_out.leaves.0 in ground arith,
      (q, out.stored_after, out.hands_out.claims),
    )

unfoldable pub native_laws : NativeLaws database_port
unfolding perform
native_laws = record {
  ledger = native_ledger;
  load_quiet = λ queue_id w. (λ q c h. h, refl);
  successor_quiet = λ queue_id item_id reservation_id attempt_id request at expected generation w.
      stored-Quiet claimed_native claimed_native-StaysClaimed w queue_id
        (Operation.stage item_id reservation_id attempt_id request at expected generation);
  clear_quiet = λ queue_id reservation_id request at expected generation w.
      stored-Quiet claimed_native claimed_native-StaysClaimed w queue_id
        (Operation.clear reservation_id request at expected generation);
  dispatch_quiet = λ queue_id operation_id at expected generation w.
      stored-Quiet claimed_native claimed_native-StaysClaimed w queue_id
        (Operation.native_dispatch operation_id at expected generation);
  dispatch_claims = native_dispatch-claims;
  outcome_quiet = λ queue_id operation_id outcome at expected generation w.
      stored-Quiet claimed_native claimed_native-StaysClaimed w queue_id
        (Operation.native_outcome operation_id outcome at expected generation);
}

-- The receiver: it answers as it will, and each call is counted.
abbrev pub receiver :
    (NativeDispatch → Machine → Result NativeQueueReceipt)
    → NativeDispatch
    → Machine
    → Result NativeQueueReceipt × Machine
receiver answer d w = (answer d w, record w { device_calls = suc w.device_calls })

-- Executed on the durable store again and again, with any calls of other owners in between and
-- whatever the receiver and the guard answer, a native request calls the receiver at most once.
pub executed_native-once :
    (answer : NativeDispatch → Machine → Result NativeQueueReceipt)
    (may_effect : Option (Machine → Result Bool)) (request : NativeExecutionRequest)
    (steps : List (List (String × Call) × Datetime)) (w : Machine)
    → (rounds
        (execute_native database_port (asked may_effect) (receiver answer) request)
        (between_runs steps)
        w).device_calls
      ≤ suc w.device_calls
unfolding native_laws
executed_native-once answer may_effect request steps w =
    execute_native-once database_port native_laws request (receiver answer)
      (λ d u. (λ q c h. h, refl)) (asked may_effect) (asked-IsQuietGuard claimed_native may_effect)
      (between_runs steps) w
      (between_runs-AllQuiet claimed_native claimed_native-StaysClaimed steps)
