-- ===== src/QueueStore/Bodies/Transitions.antt =====
-- tellyq/queue_store.py: cancellations, holds, transitions, settlements and recoveries, when they
-- write rows, advance those that they read.
use tellyq.Prelude.{
  ℕ, suc, ◌≡◌, refl, String, true, false, Fault, ok, Yields, Yields-bind, Yields-raise_if, if-intro,
  require, ◌==◌, ◌!=◌, nat_eq, string_eq, ◌&&◌, first, arith,
}
use tellyq.Values.{Datetime, before}
use tellyq.Queue.{
  ExecutionState, execution_state_eq, QueueIntent, queue_intent_eq, QueueMode, queue_mode_eq,
  QueueAttempt, JournalCommand, QueueSnapshot,
}
use tellyq.QueueStore.{
  Database, canceled, cancel_body, native_fence, held_rows, hold_body, find_command, check_state,
  set_state, move, already, transition_body, has_terminal, stop_intended, decision_taken,
  settled_rows, fenced_rows, new_settlement, already_settled, settle_body, doubted_command,
  doubted_operation, native_recovered, legacy_recovered, native_idle, legacy_idle, recovered,
  recover_body, doubted,
}
use tellyq.QueueStore.Advances.{Advances, Moves}
use tellyq.QueueStore.Advances.{
  same_journals, KeepsCommands, KeepsOperations, KeepsHanded-update_where, revision_of,
}

pub cancel_body-Moves :
    (expected : ℕ) (q : QueueSnapshot) → Yields (Moves expected q) (cancel_body expected q)
unfolding cancel_body
cancel_body-Moves expected q = Yields-raise_if (Moves expected q) (q.revision != expected) _ _ (λ e.
    if-intro (Moves expected q) q.cancellation_requested (λ _. tt)
      (λ _. same_journals q (canceled q) expected e refl refl refl (λ _. refl) refl refl))

pub native_fence-ok :
    (expected generation : ℕ) (q : QueueSnapshot) (u : Unit {0})
    → native_fence expected generation q ≡ ok u
    → (q.revision != expected) ≡ false
unfolding native_fence
native_fence-ok expected generation q u h = ground arith

pub hold_body-Moves :
    (expected : ℕ) (q : QueueSnapshot) → Yields (Moves expected q) (hold_body expected q)
unfolding hold_body
hold_body-Moves expected q =
    Yields-bind (Moves expected q) (native_fence expected q.generation q) _ (λ u fence.
      let e = native_fence-ok expected q.generation q u fence in
      if-intro (Moves expected q) q.reconciliation_required (λ _. tt)
        (λ _. same_journals q (held_rows q) expected e refl refl refl (λ c. c) refl refl))

move-Moves :
    (command_id : String) (state : ExecutionState) (at : Datetime) (q : QueueSnapshot)
    (command : JournalCommand) (expected : ℕ)
    → (state != ExecutionState.pending) ≡ true
    → (q.revision != expected) ≡ false
    → Yields (Moves expected q) (move command_id state at q command)
unfolding move
move-Moves command_id state at q command expected claims e =
    Yields-bind (Moves expected q) (check_state q command state) _ (λ _ checked.
      Yields-raise_if (Moves expected q) (before at command.updated_at) _ _ (λ _. record {
        fenced = revision_of q expected e;
        same_id = refl;
        same_revision = refl;
        generation_grows = omega arith;
        stays_canceled = λ c. c;
        stays_claimed =
            KeepsHanded-update_where (λ c. c.command_id) (λ c. c.state)
              (λ c. c.command_id == command_id) (set_state state at) (λ c. refl) (λ c. claims)
              q.commands;
        stays_claimed_native = λ id h. h;
      }))

pub transition_body-Moves :
    (command_id : String) (state : ExecutionState) (at : Datetime) (expected : ℕ)
    (q : QueueSnapshot)
    → (state != ExecutionState.pending) ≡ true
    → Yields (Moves expected q) (transition_body command_id state at expected q)
unfolding transition_body
transition_body-Moves command_id state at expected q claims =
    let P = Moves expected q in
    Yields-bind P (find_command q command_id) _ (λ command found.
      Yields-raise_if P (q.revision != expected) _ _ (λ e.
        Yields-raise_if P (command.generation != q.generation) _ _ (λ _.
          if-intro (Yields P) (already state command) (λ _. tt)
            (λ _. move-Moves command_id state at q command expected claims e))))

new_settlement-Moves :
    (db : Database) (outcome : QueueIntent) (decision_id : String) (expected : ℕ)
    (q : QueueSnapshot) (attempt : QueueAttempt)
    → Yields (Moves expected q) (new_settlement db outcome decision_id expected q attempt)
unfolding new_settlement
new_settlement-Moves db outcome decision_id expected q attempt =
    let P = Moves expected q in
    Yields-raise_if P (q.revision != expected) _ _ (λ e.
      Yields-raise_if P (has_terminal attempt) _ _ (λ _.
        Yields-raise_if P (outcome == QueueIntent.finished && stop_intended q attempt.attempt_id) _
          _
          (λ _. Yields-raise_if P (decision_taken db decision_id) _ _ (λ _.
            same_journals q (fenced_rows outcome (settled_rows q attempt outcome decision_id))
              expected e refl refl refl (λ c. ground arith) refl refl))))

pub settle_body-Moves :
    (db : Database) (attempt_id : String) (outcome : QueueIntent) (decision_id : String)
    (expected : ℕ) (q : QueueSnapshot)
    → Yields (Moves expected q) (settle_body db attempt_id outcome decision_id expected q)
unfolding settle_body
settle_body-Moves db attempt_id outcome decision_id expected q =
    Yields-bind (Moves expected q)
      (require (first (λ a. a.attempt_id == attempt_id) q.attempts) Fault.queue_store_error) _
      (λ attempt found.
        if-intro (Yields (Moves expected q)) (already_settled outcome decision_id attempt) (λ _. tt)
          (λ _. new_settlement-Moves db outcome decision_id expected q attempt))

-- Rows of the next generation, with what was dispatched in doubt.
doubted_rows :
    (q rows : QueueSnapshot) (expected : ℕ)
    → (q.revision != expected) ≡ false
    → rows.queue_id ≡ q.queue_id
    → rows.revision ≡ q.revision
    → rows.generation ≡ suc q.generation
    → (q.cancellation_requested ≡ true → rows.cancellation_requested ≡ true)
    → rows.commands ≡ doubted q.commands
    → KeepsOperations q.native_operations rows.native_operations
    → Advances expected q rows
doubted_rows q rows expected e i r g c k n =
    let keeps : KeepsCommands q.commands (doubted q.commands) =
      KeepsHanded-update_where (λ d. d.command_id) (λ d. d.state)
        (λ d. d.state == ExecutionState.dispatched) doubted_command (λ d. refl) (λ d. refl)
        q.commands in
    record {
      fenced = revision_of q expected e;
      same_id = i;
      same_revision = r;
      generation_grows = omega arith;
      stays_canceled = c;
      stays_claimed = λ id h. let kept = keeps id h in cc (k, kept);
      stays_claimed_native = n;
    }

recovered-Moves :
    (mode : QueueMode) (expected : ℕ) (q : QueueSnapshot)
    → (q.revision != expected) ≡ false
    → Moves expected q (recovered mode q)
unfolding recovered native_recovered legacy_recovered
recovered-Moves QueueMode.native expected q e =
    if-intro (Moves expected q) (native_idle q) (λ _. tt)
      (λ _.
        doubted_rows q (native_recovered q) expected e refl refl refl (λ c. c) refl
          (KeepsHanded-update_where (λ o. o.operation_id) (λ o. o.state)
            (λ o. o.state == ExecutionState.dispatched) doubted_operation (λ o. refl) (λ o. refl)
            q.native_operations))
recovered-Moves QueueMode.legacy expected q e =
    if-intro (Moves expected q) (legacy_idle q) (λ _. tt)
      (λ _.
        doubted_rows q (legacy_recovered q) expected e refl refl refl (λ _. refl) refl (λ id h. h))

pub recover_body-Moves :
    (expected : ℕ) (q : QueueSnapshot) → Yields (Moves expected q) (recover_body expected q)
unfolding recover_body
recover_body-Moves expected q =
    Yields-raise_if (Moves expected q) (q.revision != expected) _ _
      (λ e. recovered-Moves q.mode expected q e)
