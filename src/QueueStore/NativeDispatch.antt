-- ===== src/QueueStore/NativeDispatch.antt =====
-- tellyq/queue_store.py: a native operation leaves the journal once, and a canceled queue stages no
-- successor.
use tellyq.Prelude.{
  ℕ, raise_if-ok, ◌∙◌, ◌≡◌, ◌≢◌, refl, sym, subst, String, true, false, some, List, Fault, ok,
  require-ok, Yields, Yields-bind, Yields-last, Yields-raise_if, Yields-of_ok, first-update_where,
  if-intro, ◌==◌, ◌!=◌, nat_eq, string_eq, first, not, Bool-cases, inl, inr, arith,
}
use tellyq.Values.{Datetime, before}
use tellyq.Queue.{
  NativeQueueAction, native_queue_action_eq, ExecutionState, execution_state_eq, NativeReservation,
  NativeOperation, QueueSnapshot,
}
use tellyq.QueueStore.{
  Database, find_queue, Change, commit, transact, native_fence, find_operation, find_reservation,
  staging_lost, clearing_lost, check_native_dispatch, check_native_state, set_native_state,
  native_already, native_move, native_transition_body, native_transition, mark_native_dispatched,
  Call, Operation, perform, run_store,
}
use tellyq.QueueStore.Advances.{claimed_native}
use tellyq.QueueStore.Commits.{transact-Applied, commit-bumped}
use tellyq.QueueStore.Histories.{run_store-keeps, perform-stored}

-- The operation could leave: it was pending, and one that stages a successor finds the queue neither
-- canceled nor held.
abbrev pub LeavesNative : QueueSnapshot → NativeOperation → Type 0
LeavesNative q o =
    ((o.state == ExecutionState.pending) ≡ true)
    × ((o.action == NativeQueueAction.play_next) ≡ true
        → (q.cancellation_requested ≡ false) × (q.reconciliation_required ≡ false))

check_native_dispatch-Leaves :
    (q : QueueSnapshot) (r : NativeReservation) (o : NativeOperation)
    → Yields (λ (u : Unit {0}). LeavesNative q o) (check_native_dispatch q r o)
unfolding check_native_dispatch staging_lost
check_native_dispatch-Leaves q r o =
    let P : Unit {0} → Type 0 = λ u. LeavesNative q o in
    Yields-raise_if P (o.state != ExecutionState.pending) _ _ (λ waits.
      Yields-raise_if P (staging_lost q r o) _ _ (λ staged.
        Yields-last P (clearing_lost q r o) Fault.queue_store_error
          (λ _. (ground arith, λ staging. (ground arith, ground arith)))))

-- The operation was in the queue and could leave; now it is dispatched.
pub record HandsOutNative (operation_id : String) (q q' : QueueSnapshot) : Type 0 where
  pub operation : NativeOperation
  pub found : first (λ o. o.operation_id == operation_id) q.native_operations ≡ some operation
  pub leaves : LeavesNative q operation
  pub claims : claimed_native operation_id q' ≡ true

abbrev pub HandsOutNativeIn : String → QueueSnapshot → Change → Type 0
HandsOutNativeIn operation_id q Change.unchanged = ⊥
HandsOutNativeIn operation_id q (Change.rewritten rows) = HandsOutNative operation_id q rows

native_transition_body-HandsOut :
    (operation_id : String) (at : Datetime) (expected generation : ℕ) (q : QueueSnapshot)
    → Yields
        (HandsOutNativeIn operation_id q)
        (native_transition_body operation_id ExecutionState.dispatched at expected generation q)
unfolding native_transition_body find_operation native_already native_move check_native_state
native_transition_body-HandsOut operation_id at expected generation q =
    let P = HandsOutNativeIn operation_id q in
    let named = λ (o : NativeOperation). o.operation_id == operation_id in
    Yields-bind P (native_fence expected generation q) _ (λ _ _.
      Yields-bind P (find_operation q operation_id) _ (λ o e.
        Yields-bind P (find_reservation q o.reservation_id) _ (λ r _.
          Yields-raise_if P (o.generation != q.generation) _ _ (λ _.
            Yields-raise_if P (before at o.updated_at) _ _ (λ _.
              if-intro (Yields P) (native_already ExecutionState.dispatched o) (λ h. ground arith)
                (λ _. Yields-bind P (check_native_dispatch q r o) _ (λ u checked.
                  let there =
                    require-ok (first named q.native_operations) Fault.queue_store_error e in
                  record {
                    operation = o;
                    found = there;
                    leaves =
                        Yields-of_ok (λ (v : Unit {0}). LeavesNative q o)
                          (check_native_dispatch q r o) (check_native_dispatch-Leaves q r o)
                          checked;
                    claims =
                        let moved =
                          first-update_where named (set_native_state ExecutionState.dispatched at)
                            (λ p h. h) q.native_operations o there in
                        ground arith;
                  })))))))

pub record DispatchedNative (db : Database) (queue_id operation_id : String) (q' : QueueSnapshot)
    (db' : Database) : Type 0 where
  pub q : QueueSnapshot
  pub stored : find_queue queue_id db.queues ≡ some q
  pub hands_out : HandsOutNative operation_id q q'
  pub stored_after : find_queue queue_id db'.queues ≡ some q'

HandsOutNativeIn-change :
    (db : Database) (operation_id : String) (q : QueueSnapshot) (change : Change)
    {q' : QueueSnapshot} {db' : Database}
    → HandsOutNativeIn operation_id q change
    → commit db q change ≡ ok (q', db')
    → HandsOutNative operation_id q q'
HandsOutNativeIn-change db operation_id q Change.unchanged h e = elim h [ ]
HandsOutNativeIn-change db operation_id q (Change.rewritten rows) h e =
    subst (HandsOutNative operation_id q) (sym (commit-bumped db q rows e))
      (record { operation = h.operation; found = h.found; leaves = h.leaves; claims = h.claims })

perform-native_dispatch :
    (db : Database) (queue_id operation_id : String) (at : Datetime) (expected generation : ℕ)
    → perform db queue_id (Operation.native_dispatch operation_id at expected generation)
      ≡ mark_native_dispatched db queue_id operation_id at expected generation
unfolding perform
perform-native_dispatch db queue_id operation_id at expected generation = refl

pub mark_native_dispatched-Dispatched :
    (db : Database) (queue_id operation_id : String) (at : Datetime) (expected generation : ℕ)
    {q' : QueueSnapshot} {db' : Database}
    → mark_native_dispatched db queue_id operation_id at expected generation ≡ ok (q', db')
    → DispatchedNative db queue_id operation_id q' db'
unfolding mark_native_dispatched native_transition
mark_native_dispatched-Dispatched db queue_id operation_id at expected generation {q'} {db'} e =
    let body =
      native_transition_body operation_id ExecutionState.dispatched at expected generation in
    let operation = Operation.native_dispatch operation_id at expected generation in
    let performed : perform db queue_id operation ≡ ok (q', db') =
      perform-native_dispatch db queue_id operation_id at expected generation ∙ e in
    let run = raise_if-ok (not at.aware) Fault.value_error (transact db queue_id body) e in
    let applied = transact-Applied db queue_id body run.1 in
    record {
      q = applied.q;
      stored = applied.found;
      hands_out =
          HandsOutNativeIn-change db operation_id applied.q applied.change
            (Yields-of_ok (HandsOutNativeIn operation_id applied.q) (body applied.q)
              (native_transition_body-HandsOut operation_id at expected generation applied.q)
              applied.asked)
            applied.done;
      stored_after = perform-stored db queue_id operation performed;
    }

-- A native operation that `mark_native_dispatched` hands out is handed out once: whatever calls
-- follow, on this queue and on others, a second `mark_native_dispatched` of it returns nothing.
pub mark_native_dispatched-once :
    (db : Database) (queue_id operation_id : String) (at : Datetime) (expected generation : ℕ)
    {q' : QueueSnapshot} {db' : Database}
    → mark_native_dispatched db queue_id operation_id at expected generation ≡ ok (q', db')
    → (calls : List (String × Call)) (later : Datetime) (revision owner : ℕ)
      (r : QueueSnapshot × Database)
    → mark_native_dispatched (run_store db' calls) queue_id operation_id later revision owner ≢ ok r
mark_native_dispatched-once db queue_id operation_id at expected generation {q'} {db'} e calls later
      revision owner r again =
    let once =
      mark_native_dispatched-Dispatched db queue_id operation_id at expected generation e in
    let kept =
      run_store-keeps (λ q. claimed_native operation_id q ≡ true)
        (λ n q rows advances held. advances.stays_claimed_native operation_id held) db' queue_id
        calls (q', once.stored_after, once.hands_out.claims) in
    let twice =
      mark_native_dispatched-Dispatched (run_store db' calls) queue_id operation_id later revision
        owner {q' = r.0} {db' = r.1} again in
    let same : kept.0 ≡ twice.q = cc (kept.1, twice.stored) in
    let held : claimed_native operation_id twice.q ≡ true =
      subst (λ q. claimed_native operation_id q ≡ true) same kept.2 in
    let found = twice.hands_out.found in let pending = twice.hands_out.leaves.0 in ground arith

-- Once a stored queue is canceled, whatever calls follow, the one kind of native operation that
-- `mark_native_dispatched` still hands out in it is a clear: no successor is staged.
pub mark_native_dispatched-canceled :
    (db : Database) (queue_id : String) (q : QueueSnapshot)
    → find_queue queue_id db.queues ≡ some q
    → q.cancellation_requested ≡ true
    → (calls : List (String × Call)) (operation_id : String) (at : Datetime)
      (expected generation : ℕ) {q' : QueueSnapshot} {db' : Database}
    → mark_native_dispatched (run_store db calls) queue_id operation_id at expected generation
      ≡ ok (q', db')
    → (r : QueueSnapshot) × (o : NativeOperation) × (find_queue queue_id (run_store db calls).queues
        ≡ some r)
      × (first (λ p. p.operation_id == operation_id) r.native_operations ≡ some o)
      × ((o.action == NativeQueueAction.play_next) ≡ false)
mark_native_dispatched-canceled db queue_id q found canceled calls operation_id at expected
      generation e =
    let kept =
      run_store-keeps (λ r. r.cancellation_requested ≡ true)
        (λ n r rows advances held. advances.stays_canceled held) db queue_id calls
        (q, found, canceled) in
    let out =
      mark_native_dispatched-Dispatched (run_store db calls) queue_id operation_id at expected
        generation e in
    let same : kept.0 ≡ out.q = cc (kept.1, out.stored) in
    let held = subst (λ r. r.cancellation_requested ≡ true) same kept.2 in
    let o = out.hands_out.operation in
    (
      out.q,
      o,
      out.stored,
      out.hands_out.found,
      elim (Bool-cases (o.action == NativeQueueAction.play_next)) [
        | inl staging ↦ let open_then = (out.hands_out.leaves.1 staging).0 in cc (open_then, held)
        | inr clearing ↦ clearing
      ],
    )
