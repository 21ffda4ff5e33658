-- ===== src/QueueExecution/Stored.antt =====
-- tellyq/queue_store.py behind tellyq/queue_execution.py: the store of tellyq/queue_store.py keeps the
-- laws that the executor asks for.
use tellyq.Prelude.{
  ℕ, Bool, ◌≡◌, refl, sym, ap, subst, String, true, Result, Fault, ok, err, require-ok, raise_if-ok,
  is_some, first-update_where, Yields, Yields-bind, Yields-raise_if, Yields-of_ok, if-intro,
  ok-injective, first, not, ◌==◌, ◌!=◌, nat_eq, string_eq, arith,
}
use tellyq.Values.{Datetime, before}
use tellyq.Queue.{ExecutionState, execution_state_eq, JournalCommand, QueueSnapshot}
use tellyq.QueueStore.{
  Database, Change, bumped, commit, load, find_command, check_state, set_state, already, move,
  transition_body, transition, prepare_start, prepare_stop, prepare_control, mark_dispatched,
  is_outcome, record_outcome, recover, prepare_native_successor, prepare_native_clear,
  mark_native_dispatched, record_native_outcome, Operation, perform, kept_in,
}
use tellyq.QueueStore.Advances.{claimed, Advances}
use tellyq.QueueStore.Commits.{transact-Applied, commit-bumped}
use tellyq.QueueStore.Histories.{Stored, perform-keeps, find_queue-queue_id}
use tellyq.QueueStore.Dispatch.{mark_dispatched-Dispatched}
use tellyq.QueueExecution.{StorePort, journaled}
use tellyq.QueueExecution.Laws.{Ledger, Quiet, StoreLaws}

-- A machine: the database, the wall clock, and how often a device has been called.
pub record Machine : Type 0 where
  pub database : Database
  pub clock : Datetime
  pub device_calls : ℕ

-- One call of the store. What raises leaves the database as it was.
abbrev pub stored : Machine → Result (QueueSnapshot × Database) → Result QueueSnapshot × Machine
stored w (ok (q, db)) = (ok q, record w { database = db })
stored w (err e) = (err e, w)

abbrev pub database_port : StorePort
database_port = record {
  World = Machine;
  utcnow = λ w. w.clock;
  load = λ queue_id w. (load w.database queue_id, w);
  prepare_start = λ queue_id item_id attempt_id command_id at expected w.
      stored w (prepare_start w.database queue_id item_id attempt_id command_id at expected);
  prepare_stop = λ queue_id attempt_id command_id at expected w.
      stored w (prepare_stop w.database queue_id attempt_id command_id at expected);
  prepare_control = λ queue_id attempt_id command_id action at expected w.
      stored w (prepare_control w.database queue_id attempt_id command_id action at expected);
  mark_dispatched = λ queue_id command_id at expected w.
      stored w (mark_dispatched w.database queue_id command_id at expected);
  record_outcome = λ queue_id command_id outcome at expected w.
      stored w (record_outcome w.database queue_id command_id outcome at expected);
  recover = λ queue_id expected w. stored w (recover w.database queue_id expected);
  prepare_native_successor =
      λ queue_id item_id reservation_id attempt_id request at expected generation w. stored w (
        prepare_native_successor w.database queue_id item_id reservation_id attempt_id request at
          expected generation);
  prepare_native_clear = λ queue_id reservation_id request at expected generation w.
      stored w
        (prepare_native_clear w.database queue_id reservation_id request at expected generation);
  mark_native_dispatched = λ queue_id operation_id at expected generation w.
      stored w (mark_native_dispatched w.database queue_id operation_id at expected generation);
  record_native_outcome = λ queue_id operation_id outcome at expected generation w.
      stored w
        (record_native_outcome w.database queue_id operation_id outcome at expected generation);
}

-- The claims that a database shows, by a test of a queue's journal.
abbrev pub ledger_of : (String → QueueSnapshot → Bool) → Ledger Machine
ledger_of claims = record {
  handed = λ queue_id id w. Stored (λ q. claims id q ≡ true) queue_id w.database;
  calls = λ w. w.device_calls;
}

abbrev pub database_ledger : Ledger Machine
database_ledger = ledger_of claimed

abbrev pub StaysClaimed : (String → QueueSnapshot → Bool) → Type 0
StaysClaimed claims =
    (n : ℕ) (q rows : QueueSnapshot)
    → Advances n q rows
    → (id : String) → claims id q ≡ true
    → claims id (bumped rows) ≡ true

stored-kept :
    (w : Machine) (r : Result (QueueSnapshot × Database))
    → ((stored w r).1.database ≡ kept_in w.database r)
      × ((stored w r).1.device_calls ≡ w.device_calls)
stored-kept w (ok (q, db)) = (refl, refl)
stored-kept w (err e) = (refl, refl)

-- Every operation of the store is quiet.
pub stored-Quiet :
    (claims : String → QueueSnapshot → Bool)
    → StaysClaimed claims
    → (w : Machine) (queue_id : String) (operation : Operation)
    → Quiet (ledger_of claims) w (stored w (perform w.database queue_id operation)).1
stored-Quiet claims stays w queue_id operation =
    let kept = stored-kept w (perform w.database queue_id operation) in
    (
      λ q c held.
          subst (λ db. Stored (λ r. claims c r ≡ true) q db) (sym kept.0)
            (perform-keeps (λ r. claims c r ≡ true)
              (λ n r rows advances h. stays n r rows advances c h) w.database q queue_id operation
              held),
      kept.1,
    )

pub claimed-StaysClaimed : StaysClaimed claimed
claimed-StaysClaimed n q rows advances id h = advances.stays_claimed id h

pub stored-ok :
    (w : Machine) (r : Result (QueueSnapshot × Database)) (q : QueueSnapshot) (after : Machine)
    → stored w r ≡ (ok q, after)
    → r ≡ ok (q, after.database)
stored-ok w (ok (p, db)) q after e =
    let same : p ≡ q = ok-injective (ap (λ t. t.0) e) in
    let database : db ≡ after.database = ap (λ t. t.1.database) e in cc (same, database)
stored-ok w (err fault) q after e = cc (ap (λ t. t.0) e)

KnowsIn : String → QueueSnapshot → Change → Type 0
KnowsIn command_id q Change.unchanged = is_some (journaled q command_id) ≡ true
KnowsIn command_id q (Change.rewritten rows) = is_some (journaled rows command_id) ≡ true

transition_body-Knows :
    (command_id : String) (state : ExecutionState) (at : Datetime) (expected : ℕ)
    (q : QueueSnapshot)
    → Yields (KnowsIn command_id q) (transition_body command_id state at expected q)
unfolding transition_body find_command move KnowsIn
transition_body-Knows command_id state at expected q =
    let P = KnowsIn command_id q in
    let named = λ (c : JournalCommand). c.command_id == command_id in
    Yields-bind P (find_command q command_id) _ (λ c e.
      let there = require-ok (first named q.commands) Fault.queue_store_error e in
      Yields-raise_if P (q.revision != expected) _ _ (λ _.
        Yields-raise_if P (c.generation != q.generation) _ _ (λ _.
          if-intro (Yields P) (already state c) (λ _. ground arith)
            (λ _. Yields-bind P (check_state q c state) _ (λ _ _.
              Yields-raise_if P (before at c.updated_at) _ _ (λ _.
                let moved =
                  first-update_where named (set_state state at) (λ d h. h) q.commands c there in
                ground arith))))))

Knows-after :
    (db : Database) (command_id : String) (q : QueueSnapshot) (change : Change) {q' : QueueSnapshot}
    {db' : Database}
    → KnowsIn command_id q change
    → commit db q change ≡ ok (q', db')
    → is_some (journaled q' command_id) ≡ true
unfolding KnowsIn
Knows-after db command_id q Change.unchanged h e =
    subst (λ r. is_some (journaled r command_id) ≡ true) (ap (λ r. r.0) (ok-injective e)) h
Knows-after db command_id q (Change.rewritten rows) h e =
    subst (λ r. is_some (journaled r command_id) ≡ true) (sym (commit-bumped db q rows e)) h

pub record_outcome-Knows :
    (db : Database) (queue_id command_id : String) (outcome : ExecutionState) (at : Datetime)
    (expected : ℕ) {q' : QueueSnapshot} {db' : Database}
    → record_outcome db queue_id command_id outcome at expected ≡ ok (q', db')
    → is_some (journaled q' command_id) ≡ true
unfolding record_outcome transition
record_outcome-Knows db queue_id command_id outcome at expected e =
    let body = transition_body command_id outcome at expected in
    let allowed = raise_if-ok (not (is_outcome outcome)) Fault.value_error _ e in
    let zoned = raise_if-ok (not at.aware) Fault.value_error _ allowed.1 in
    let applied = transact-Applied db queue_id body zoned.1 in
    Knows-after db command_id applied.q applied.change
      (Yields-of_ok (KnowsIn command_id applied.q) (body applied.q)
        (transition_body-Knows command_id outcome at expected applied.q) applied.asked)
      applied.done

pub dispatch-claims :
    (queue_id command_id : String) (at : Datetime) (expected : ℕ) (w w' : Machine)
    (q : QueueSnapshot)
    → stored w (mark_dispatched w.database queue_id command_id at expected) ≡ (ok q, w')
    → (database_ledger.handed queue_id command_id w → ⊥)
      × database_ledger.handed queue_id command_id w'
      × (q.queue_id ≡ queue_id)
dispatch-claims queue_id command_id at expected w w' q e =
    let returned =
      stored-ok w (mark_dispatched w.database queue_id command_id at expected) q w' e in
    let out = mark_dispatched-Dispatched w.database queue_id command_id at expected returned in
    (
      λ (r, found, held).
          let same : r ≡ out.q = cc (found, out.stored) in
          let claim : claimed command_id out.q ≡ true =
            subst (λ p. claimed command_id p ≡ true) same held in
          let command = out.hands_out.found in let pending = out.hands_out.leaves.0 in ground arith,
      (q, out.stored_after, out.hands_out.claims),
      find_queue-queue_id queue_id w'.database.queues q out.stored_after,
    )

-- The store's operations, one by one, against the laws.
unfoldable pub database_laws : StoreLaws database_port
unfolding perform
database_laws = record {
  ledger = database_ledger;
  load_quiet = λ queue_id w. (λ q c h. h, refl);
  start_quiet = λ queue_id item_id attempt_id command_id at expected w.
      stored-Quiet claimed claimed-StaysClaimed w queue_id
        (Operation.start item_id attempt_id command_id at expected);
  stop_quiet = λ queue_id attempt_id command_id at expected w.
      stored-Quiet claimed claimed-StaysClaimed w queue_id
        (Operation.stop attempt_id command_id at expected);
  control_quiet = λ queue_id attempt_id command_id action at expected w.
      stored-Quiet claimed claimed-StaysClaimed w queue_id
        (Operation.control attempt_id command_id action at expected);
  dispatch_quiet = λ queue_id command_id at expected w.
      stored-Quiet claimed claimed-StaysClaimed w queue_id
        (Operation.dispatch command_id at expected);
  dispatch_claims = dispatch-claims;
  outcome_quiet = λ queue_id command_id outcome at expected w.
      stored-Quiet claimed claimed-StaysClaimed w queue_id
        (Operation.outcome command_id outcome at expected);
  outcome_known = λ queue_id command_id outcome at expected w w' q e.
      record_outcome-Knows w.database queue_id command_id outcome at expected
        (stored-ok w (record_outcome w.database queue_id command_id outcome at expected) q w' e);
}
