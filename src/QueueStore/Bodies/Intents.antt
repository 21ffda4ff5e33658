-- ===== src/QueueStore/Bodies/Intents.antt =====
-- tellyq/queue_store.py: the starts, stops and controls, when they write rows, advance those that
-- they read.
use tellyq.Prelude.{
  ℕ, refl, String, [], ◌∷◌, Fault, Yields, Yields-bind, Yields-raise_if, if-intro, require, ◌==◌,
  ◌!=◌, nat_eq, string_eq, not, first, last, arith,
}
use tellyq.Values.{CommandAction, Datetime}
use tellyq.Queue.{execution_state_eq, queue_intent_eq, queue_mode_eq, QueueSnapshot}
use tellyq.QueueStore.{
  Database, duplicate, add_command, command_taken, attempt_taken, pending_command, started_rows,
  same_start, native_begun, occupied, is_offered, new_start, start_body, canceled, stoppable,
  new_stop, stop_body, release_prohibited, without_owner, uncontrollable, already_released,
  new_control, control_body,
}
use tellyq.QueueStore.Advances.{Advances, Moves, KeepsHanded-append}
use tellyq.QueueStore.Advances.{revision_of, same_journals}

add_command-Moves :
    (db : Database) (q : QueueSnapshot) (attempt_id command_id : String) (action : CommandAction)
    (at : Datetime) (rows : QueueSnapshot) (expected : ℕ)
    → Advances expected q rows
    → Yields (Moves expected q) (add_command db q attempt_id command_id action at rows)
unfolding add_command
add_command-Moves db q attempt_id command_id action at rows expected h =
    Yields-raise_if (Moves expected q) (command_taken db command_id) _ _ (λ fresh. record {
      fenced = h.fenced;
      same_id = h.same_id;
      same_revision = h.same_revision;
      generation_grows = h.generation_grows;
      stays_canceled = h.stays_canceled;
      stays_claimed = λ id c.
          KeepsHanded-append (λ d. d.command_id) (λ d. d.state) rows.commands
            (pending_command q attempt_id command_id action at ∷ []) id (h.stays_claimed id c);
      stays_claimed_native = h.stays_claimed_native;
    })

new_start-Moves :
    (db : Database) (item_id attempt_id command_id : String) (at : Datetime) (expected : ℕ)
    (q : QueueSnapshot)
    → Yields (Moves expected q) (new_start db item_id attempt_id command_id at expected q)
unfolding new_start
new_start-Moves db item_id attempt_id command_id at expected q =
    Yields-raise_if (Moves expected q) (q.revision != expected) _ _ (λ e.
      Yields-raise_if (Moves expected q) (native_begun q) _ _ (λ _.
        Yields-raise_if (Moves expected q) (occupied q) _ _ (λ _.
          Yields-raise_if (Moves expected q) (not (is_offered q item_id)) _ _ (λ _.
            Yields-raise_if (Moves expected q) (attempt_taken db attempt_id) _ _ (λ _.
              add_command-Moves db q attempt_id command_id CommandAction.start at
                (started_rows q item_id attempt_id at) expected
                (record {
                  fenced = revision_of q expected e;
                  same_id = refl;
                  same_revision = refl;
                  generation_grows = omega arith;
                  stays_canceled = λ c. c;
                  stays_claimed = λ id c. c;
                  stays_claimed_native = λ id c. c;
                }))))))

same_start-Moves :
    (q : QueueSnapshot) (item_id attempt_id : String) (expected : ℕ)
    → Yields (Moves expected q) (same_start q item_id attempt_id)
unfolding same_start
same_start-Moves q item_id attempt_id expected =
    Yields-bind (Moves expected q)
      (require (first (λ a. a.attempt_id == attempt_id) q.attempts) Fault.stop_iteration) _
      (λ attempt found.
        Yields-raise_if (Moves expected q) (attempt.item_id != item_id) _ _ (λ _. tt))

pub start_body-Moves :
    (db : Database) (item_id attempt_id command_id : String) (at : Datetime) (expected : ℕ)
    (q : QueueSnapshot)
    → Yields (Moves expected q) (start_body db item_id attempt_id command_id at expected q)
unfolding start_body
start_body-Moves db item_id attempt_id command_id at expected q =
    Yields-bind (Moves expected q) (duplicate q command_id attempt_id CommandAction.start) _
      (λ known found.
        if-intro (Yields (Moves expected q)) known
          (λ _. same_start-Moves q item_id attempt_id expected)
          (λ _. new_start-Moves db item_id attempt_id command_id at expected q))

new_stop-Moves :
    (db : Database) (attempt_id command_id : String) (at : Datetime) (expected : ℕ)
    (q : QueueSnapshot)
    → Yields (Moves expected q) (new_stop db attempt_id command_id at expected q)
unfolding new_stop
new_stop-Moves db attempt_id command_id at expected q =
    Yields-raise_if (Moves expected q) (q.revision != expected) _ _ (λ e.
      Yields-raise_if (Moves expected q) (not (stoppable q attempt_id)) _ _ (λ _.
        add_command-Moves db q attempt_id command_id CommandAction.stop at (canceled q) expected
          (same_journals q (canceled q) expected e refl refl refl (λ _. refl) refl refl)))

pub stop_body-Moves :
    (db : Database) (attempt_id command_id : String) (at : Datetime) (expected : ℕ)
    (q : QueueSnapshot)
    → Yields (Moves expected q) (stop_body db attempt_id command_id at expected q)
unfolding stop_body
stop_body-Moves db attempt_id command_id at expected q =
    Yields-bind (Moves expected q) (duplicate q command_id attempt_id CommandAction.stop) _
      (λ known found.
        if-intro (Yields (Moves expected q)) known (λ _. tt)
          (λ _. new_stop-Moves db attempt_id command_id at expected q))

new_control-Moves :
    (db : Database) (attempt_id command_id : String) (action : CommandAction) (at : Datetime)
    (expected : ℕ) (q : QueueSnapshot)
    → Yields (Moves expected q) (new_control db attempt_id command_id action at expected q)
unfolding new_control
new_control-Moves db attempt_id command_id action at expected q =
    let P = Moves expected q in
    Yields-raise_if P (q.revision != expected) _ _ (λ e.
      Yields-raise_if P (release_prohibited action q) _ _ (λ _.
        Yields-raise_if P (without_owner q) _ _ (λ _.
          Yields-bind P (require (last q.attempts) Fault.stop_iteration) _ (λ attempt found.
            Yields-raise_if P (uncontrollable action attempt_id attempt q) _ _ (λ _.
              Yields-raise_if P (already_released action attempt_id q) _ _ (λ _.
                add_command-Moves db q attempt_id command_id action at q expected
                  (same_journals q q expected e refl refl refl (λ c. c) refl refl)))))))

pub control_body-Moves :
    (db : Database) (attempt_id command_id : String) (action : CommandAction) (at : Datetime)
    (expected : ℕ) (q : QueueSnapshot)
    → Yields (Moves expected q) (control_body db attempt_id command_id action at expected q)
unfolding control_body
control_body-Moves db attempt_id command_id action at expected q =
    Yields-bind (Moves expected q) (duplicate q command_id attempt_id action) _ (λ known found.
      if-intro (Yields (Moves expected q)) known (λ _. tt)
        (λ _. new_control-Moves db attempt_id command_id action at expected q))
