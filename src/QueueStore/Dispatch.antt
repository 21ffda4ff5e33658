-- ===== src/QueueStore/Dispatch.antt =====
-- tellyq/queue_store.py: a command leaves the journal once, and a canceled queue sends stops alone.
use tellyq.Prelude.{
  ℕ, ◌≡◌, ◌≢◌, refl, sym, ◌∙◌, subst, String, true, some, List, Fault, ok, raise_if, require,
  require-ok, first-update_where, Yields, Yields-bind, Yields-last, Yields-raise_if, Yields-of_ok,
  >>=-eq-ok, if-intro, ◌==◌, ◌!=◌, nat_eq, string_eq, first, not, arith, ◌&&◌,
}
use tellyq.Values.{CommandAction, command_action_eq, Datetime, before}
use tellyq.Queue.{ExecutionState, execution_state_eq, JournalCommand, QueueSnapshot}
use tellyq.QueueStore.{
  Database, find_queue, Change, commit, transact, find_command, withdrawn, undispatchable,
  check_dispatch, check_state, set_state, move, already, transition_body, transition,
  mark_dispatched, Call, Operation, perform, run_store,
}
use tellyq.QueueStore.Advances.{claimed}
use tellyq.QueueStore.Commits.{transact-Applied, commit-bumped}
use tellyq.QueueStore.Histories.{run_store-keeps, perform-stored}

-- The command could leave: it was pending, and the queue was not canceled unless it is a stop.
abbrev pub Leaves : QueueSnapshot → JournalCommand → Type 0
Leaves q c =
    ((c.state == ExecutionState.pending) ≡ true)
    × (q.cancellation_requested ≡ true → (c.action == CommandAction.stop) ≡ true)

check_dispatch-Leaves :
    (q : QueueSnapshot) (c : JournalCommand)
    → Yields (λ (u : Unit {0}). Leaves q c) (check_dispatch q c)
unfolding check_dispatch withdrawn
check_dispatch-Leaves q c =
    let P : Unit {0} → Type 0 = λ u. Leaves q c in
    Yields-raise_if P (c.state != ExecutionState.pending) _ _ (λ waits.
      Yields-raise_if P (c.action != CommandAction.stop && q.cancellation_requested) _ _ (λ sending.
        Yields-bind P
          (require (first (λ a. a.attempt_id == c.attempt_id) q.attempts) Fault.stop_iteration) _
          (λ attempt found.
            Yields-last P (undispatchable q c attempt) Fault.queue_store_error
              (λ _. (ground arith, λ canceled. ground arith)))))

-- The command was in the queue and could leave; now it is dispatched.
pub record HandsOut (command_id : String) (q q' : QueueSnapshot) : Type 0 where
  pub command : JournalCommand
  pub found : first (λ c. c.command_id == command_id) q.commands ≡ some command
  pub leaves : Leaves q command
  pub claims : claimed command_id q' ≡ true

abbrev pub HandsOutIn : String → QueueSnapshot → Change → Type 0
HandsOutIn command_id q Change.unchanged = ⊥
HandsOutIn command_id q (Change.rewritten rows) = HandsOut command_id q rows

transition_body-HandsOut :
    (command_id : String) (at : Datetime) (expected : ℕ) (q : QueueSnapshot)
    → Yields
        (HandsOutIn command_id q)
        (transition_body command_id ExecutionState.dispatched at expected q)
unfolding transition_body find_command already move check_state
transition_body-HandsOut command_id at expected q =
    let P = HandsOutIn command_id q in
    Yields-bind P (find_command q command_id) _ (λ c found.
      Yields-raise_if P (q.revision != expected) _ _ (λ _.
        Yields-raise_if P (c.generation != q.generation) _ _ (λ _.
          if-intro (Yields P) (already ExecutionState.dispatched c) (λ h. ground arith)
            (λ _. Yields-bind P (check_dispatch q c) _ (λ u checked.
              Yields-raise_if P (before at c.updated_at) _ _ (λ _.
                let there =
                  require-ok (first (λ d. d.command_id == command_id) q.commands)
                    Fault.queue_store_error found in
                record {
                  command = c;
                  found = there;
                  leaves =
                      Yields-of_ok (λ (v : Unit {0}). Leaves q c) (check_dispatch q c)
                        (check_dispatch-Leaves q c) checked;
                  claims =
                      let moved =
                        first-update_where (λ d. d.command_id == command_id)
                          (set_state ExecutionState.dispatched at) (λ d h. h) q.commands c there in
                      ground arith;
                }))))))

pub record Dispatched (db : Database) (queue_id command_id : String) (q' : QueueSnapshot)
    (db' : Database) : Type 0 where
  pub q : QueueSnapshot
  pub stored : find_queue queue_id db.queues ≡ some q
  pub hands_out : HandsOut command_id q q'
  pub stored_after : find_queue queue_id db'.queues ≡ some q'

HandsOutIn-change :
    (db : Database) (command_id : String) (q : QueueSnapshot) (change : Change) {q' : QueueSnapshot}
    {db' : Database}
    → HandsOutIn command_id q change
    → commit db q change ≡ ok (q', db')
    → HandsOut command_id q q'
HandsOutIn-change db command_id q Change.unchanged h e = elim h [ ]
HandsOutIn-change db command_id q (Change.rewritten rows) h e =
    subst (HandsOut command_id q) (sym (commit-bumped db q rows e))
      (record { command = h.command; found = h.found; leaves = h.leaves; claims = h.claims })

perform-dispatch :
    (db : Database) (queue_id command_id : String) (at : Datetime) (expected : ℕ)
    → perform db queue_id (Operation.dispatch command_id at expected)
      ≡ mark_dispatched db queue_id command_id at expected
unfolding perform
perform-dispatch db queue_id command_id at expected = refl

pub mark_dispatched-Dispatched :
    (db : Database) (queue_id command_id : String) (at : Datetime) (expected : ℕ)
    {q' : QueueSnapshot} {db' : Database}
    → mark_dispatched db queue_id command_id at expected ≡ ok (q', db')
    → Dispatched db queue_id command_id q' db'
unfolding mark_dispatched transition
mark_dispatched-Dispatched db queue_id command_id at expected {q'} {db'} e =
    let body = transition_body command_id ExecutionState.dispatched at expected in
    let performed : perform db queue_id (Operation.dispatch command_id at expected) ≡ ok (q', db') =
      perform-dispatch db queue_id command_id at expected ∙ e in
    let run =
      (>>=-eq-ok (raise_if (not at.aware) Fault.value_error) (λ _. transact db queue_id body)
        e).2 in
    let applied = transact-Applied db queue_id body run in
    record {
      q = applied.q;
      stored = applied.found;
      hands_out =
          HandsOutIn-change db command_id applied.q applied.change
            (Yields-of_ok (HandsOutIn command_id applied.q) (body applied.q)
              (transition_body-HandsOut command_id at expected applied.q) applied.asked)
            applied.done;
      stored_after =
          perform-stored db queue_id (Operation.dispatch command_id at expected) performed;
    }

-- A command that `mark_dispatched` hands out is handed out once: whatever calls of the store
-- follow, on this queue and on others, new ones included, a second `mark_dispatched` of it returns
-- nothing.
pub mark_dispatched-once :
    (db : Database) (queue_id command_id : String) (at : Datetime) (expected : ℕ)
    {q' : QueueSnapshot} {db' : Database}
    → mark_dispatched db queue_id command_id at expected ≡ ok (q', db')
    → (calls : List (String × Call)) (later : Datetime) (revision : ℕ)
      (r : QueueSnapshot × Database)
    → mark_dispatched (run_store db' calls) queue_id command_id later revision ≢ ok r
mark_dispatched-once db queue_id command_id at expected {q'} {db'} e calls later revision r again =
    let once = mark_dispatched-Dispatched db queue_id command_id at expected e in
    let kept =
      run_store-keeps (λ q. claimed command_id q ≡ true)
        (λ n q rows advances held. advances.stays_claimed command_id held) db' queue_id calls
        (q', once.stored_after, once.hands_out.claims) in
    let twice =
      mark_dispatched-Dispatched (run_store db' calls) queue_id command_id later revision {q' = r.0}
        {db' = r.1} again in
    let same : kept.0 ≡ twice.q = cc (kept.1, twice.stored) in
    let held : claimed command_id twice.q ≡ true =
      subst (λ q. claimed command_id q ≡ true) same kept.2 in
    let found = twice.hands_out.found in let pending = twice.hands_out.leaves.0 in ground arith

-- Cancellation is for good: when a stored queue is canceled, whatever calls follow, the one
-- kind of command that `mark_dispatched` still hands out in it is a stop.
pub mark_dispatched-canceled :
    (db : Database) (queue_id : String) (q : QueueSnapshot)
    → find_queue queue_id db.queues ≡ some q
    → q.cancellation_requested ≡ true
    → (calls : List (String × Call)) (command_id : String) (at : Datetime) (expected : ℕ)
      {q' : QueueSnapshot} {db' : Database}
    → mark_dispatched (run_store db calls) queue_id command_id at expected ≡ ok (q', db')
    → (r : QueueSnapshot) × (c : JournalCommand) × (find_queue queue_id (run_store db calls).queues
        ≡ some r)
      × (first (λ d. d.command_id == command_id) r.commands ≡ some c)
      × ((c.action == CommandAction.stop) ≡ true)
mark_dispatched-canceled db queue_id q found canceled calls command_id at expected e =
    let kept =
      run_store-keeps (λ r. r.cancellation_requested ≡ true)
        (λ n r rows advances held. advances.stays_canceled held) db queue_id calls
        (q, found, canceled) in
    let out = mark_dispatched-Dispatched (run_store db calls) queue_id command_id at expected e in
    let same : kept.0 ≡ out.q = cc (kept.1, out.stored) in
    let held = subst (λ r. r.cancellation_requested ≡ true) same kept.2 in
    (out.q, out.hands_out.command, out.stored, out.hands_out.found, out.hands_out.leaves.1 held)
