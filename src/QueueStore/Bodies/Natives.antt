-- ===== src/QueueStore/Bodies/Natives.antt =====
-- tellyq/queue_store.py: stagings, clearings and transitions of native operations, when they write
-- rows, advance those that they read.
use tellyq.Prelude.{
  ℕ, ◌≡◌, refl, String, true, false, Option, none, some, [], ◌∷◌, Fault, Yields, Yields-bind,
  Yields-raise_if, if-intro, require, ◌==◌, ◌!=◌, nat_eq, string_eq, option_eq, last, arith,
}
use tellyq.Values.{Datetime, before}
use tellyq.Queue.{
  ExecutionState, execution_state_eq, NativeQueueRequest, NativeReservation, NativeOperation,
  queue_intent_eq, QueueEntry, QueueAttempt, queue_attempt_eq, QueueSnapshot,
}
use tellyq.QueueStore.{
  Database, native_fence, find_reservation, find_operation, check_native_match, pending_operation,
  operation_taken, add_operation, reservation_taken, staged_differs, item_and_next, unreservable,
  unstageable, new_reservation, reserved_rows, repeats_content, reserve, new_staging, same_staging,
  operation_known, staging_of, staging_body, cleared_differs, unclearable, new_clearing,
  clearing_of, clear_body, check_native_state, set_native_state, native_already, native_move,
  native_transition_body,
}
use tellyq.QueueStore.Advances.{
  Advances, Moves, revision_of, same_journals, KeepsHanded-append, KeepsHanded-update_where,
}
use tellyq.QueueStore.Bodies.Transitions.{native_fence-ok}

add_operation-Moves :
    (db : Database) (q : QueueSnapshot) (reservation_id : String) (request : NativeQueueRequest)
    (at : Datetime) (rows : QueueSnapshot) (expected : ℕ)
    → Advances expected q rows
    → Yields (Moves expected q) (add_operation db q reservation_id request at rows)
unfolding add_operation
add_operation-Moves db q reservation_id request at rows expected h =
    Yields-raise_if (Moves expected q) (operation_taken db reservation_id request) _ _ (λ fresh.
      record {
        fenced = h.fenced;
        same_id = h.same_id;
        same_revision = h.same_revision;
        generation_grows = h.generation_grows;
        stays_canceled = h.stays_canceled;
        stays_claimed = h.stays_claimed;
        stays_claimed_native = λ id c.
            KeepsHanded-append (λ o. o.operation_id) (λ o. o.state) rows.native_operations
              (pending_operation q reservation_id request at ∷ []) id (h.stays_claimed_native id c);
      })

reserve-Moves :
    (db : Database) (q : QueueSnapshot) (source : QueueAttempt) (item : QueueEntry)
    (r : NativeReservation) (request : NativeQueueRequest) (at : Datetime) (expected : ℕ)
    → (q.revision != expected) ≡ false
    → Yields (Moves expected q) (reserve db q source item r request at)
unfolding reserve
reserve-Moves db q source item r request at expected e =
    let P = Moves expected q in
    Yields-bind P (check_native_match q r request) _ (λ u matches.
      Yields-raise_if P (repeats_content source item r.successor_item_id request) _ _ (λ _.
        Yields-raise_if P (reservation_taken db q.queue_id r) _ _ (λ _.
          add_operation-Moves db q r.reservation_id request at (reserved_rows q r) expected
            (same_journals q (reserved_rows q r) expected e refl refl refl (λ c. c) refl refl))))

new_staging-Moves :
    (db : Database) (item_id reservation_id attempt_id application_id : String)
    (request : NativeQueueRequest) (at : Datetime) (expected generation : ℕ) (q : QueueSnapshot)
    → Yields (Moves expected q) (
        new_staging db item_id reservation_id attempt_id application_id request at expected
          generation q)
unfolding new_staging
new_staging-Moves db item_id reservation_id attempt_id application_id request at expected generation
      q =
    let P = Moves expected q in
    Yields-bind P (native_fence expected generation q) _ (λ u fence.
      Yields-raise_if P (unreservable q) _ _ (λ _.
        Yields-bind P (require (last q.attempts) Fault.queue_store_error) _ (λ source _.
          Yields-raise_if P (before at source.created_at) _ _ (λ _.
            Yields-bind P (require (item_and_next source.item_id q.items) Fault.stop_iteration) _
              (λ place _.
                Yields-raise_if P (unstageable q source place.1 item_id attempt_id request) _ _
                  (λ _.
                    reserve-Moves db q source place.0
                      (new_reservation q source item_id reservation_id attempt_id application_id
                        request at)
                      request at expected (native_fence-ok expected generation q u fence)))))))

same_staging-Moves :
    (q : QueueSnapshot) (existing : NativeOperation) (item_id reservation_id attempt_id : String)
    (request : NativeQueueRequest) (expected generation : ℕ)
    → Yields
        (Moves expected q)
        (same_staging q existing item_id reservation_id attempt_id request generation)
unfolding same_staging
same_staging-Moves q existing item_id reservation_id attempt_id request expected generation =
    let P = Moves expected q in
    Yields-bind P (find_reservation q reservation_id) _ (λ r _.
      Yields-bind P (check_native_match q r request) _ (λ _ _.
        Yields-raise_if P (staged_differs q r existing item_id attempt_id request generation) _ _
          (λ _. tt)))

staging_of-Moves :
    (o : Option NativeOperation) (db : Database)
    (item_id reservation_id attempt_id application_id : String) (request : NativeQueueRequest)
    (at : Datetime) (expected generation : ℕ) (q : QueueSnapshot)
    → Yields (Moves expected q) (
        staging_of o db item_id reservation_id attempt_id application_id request at expected
          generation q)
staging_of-Moves none db item_id reservation_id attempt_id application_id request at expected
      generation q =
    new_staging-Moves db item_id reservation_id attempt_id application_id request at expected
      generation q
staging_of-Moves (some o) db item_id reservation_id attempt_id application_id request at expected
      generation q =
    same_staging-Moves q o item_id reservation_id attempt_id request expected generation

pub staging_body-Moves :
    (db : Database) (item_id reservation_id attempt_id application_id : String)
    (request : NativeQueueRequest) (at : Datetime) (expected generation : ℕ) (q : QueueSnapshot)
    → Yields (Moves expected q) (
        staging_body db item_id reservation_id attempt_id application_id request at expected
          generation q)
unfolding staging_body
staging_body-Moves db item_id reservation_id attempt_id application_id request at expected
      generation q =
    staging_of-Moves (operation_known q request.operation_id) db item_id reservation_id attempt_id
      application_id request at expected generation q

clearing_of-Moves :
    (o : Option NativeOperation) (db : Database) (r : NativeReservation)
    (request : NativeQueueRequest) (at : Datetime) (expected generation : ℕ) (q : QueueSnapshot)
    → Yields (Moves expected q) (clearing_of o db r request at expected generation q)
unfolding new_clearing
clearing_of-Moves none db r request at expected generation q =
    let P = Moves expected q in
    Yields-bind P (native_fence expected generation q) _ (λ u fence.
      Yields-raise_if P (unclearable q r) _ _ (λ _.
        Yields-raise_if P (before at r.created_at) _ _ (λ _.
          add_operation-Moves db q r.reservation_id request at q expected (
            same_journals q q expected (native_fence-ok expected generation q u fence) refl refl
              refl (λ c. c) refl refl))))
clearing_of-Moves (some o) db r request at expected generation q =
    Yields-raise_if (Moves expected q) (cleared_differs q o r.reservation_id request generation) _ _
      (λ _. tt)

pub clear_body-Moves :
    (db : Database) (reservation_id : String) (request : NativeQueueRequest) (at : Datetime)
    (expected generation : ℕ) (q : QueueSnapshot)
    → Yields (Moves expected q) (clear_body db reservation_id request at expected generation q)
unfolding clear_body
clear_body-Moves db reservation_id request at expected generation q =
    let P = Moves expected q in
    Yields-bind P (find_reservation q reservation_id) _ (λ r _.
      Yields-bind P (check_native_match q r request) _ (λ _ _.
        clearing_of-Moves (operation_known q request.operation_id) db r request at expected
          generation q))

native_move-Moves :
    (operation_id : String) (state : ExecutionState) (at : Datetime) (q : QueueSnapshot)
    (r : NativeReservation) (o : NativeOperation) (expected : ℕ)
    → (state != ExecutionState.pending) ≡ true
    → (q.revision != expected) ≡ false
    → Yields (Moves expected q) (native_move operation_id state at q r o)
unfolding native_move
native_move-Moves operation_id state at q r o expected claims e =
    Yields-bind (Moves expected q) (check_native_state q r o state) _ (λ _ checked. record {
      fenced = revision_of q expected e;
      same_id = refl;
      same_revision = refl;
      generation_grows = omega arith;
      stays_canceled = λ c. c;
      stays_claimed = λ id h. h;
      stays_claimed_native =
          KeepsHanded-update_where (λ p. p.operation_id) (λ p. p.state)
            (λ p. p.operation_id == operation_id) (set_native_state state at) (λ p. refl)
            (λ p. claims) q.native_operations;
    })

pub native_transition_body-Moves :
    (operation_id : String) (state : ExecutionState) (at : Datetime) (expected generation : ℕ)
    (q : QueueSnapshot)
    → (state != ExecutionState.pending) ≡ true
    → Yields (Moves expected q) (native_transition_body operation_id state at expected generation q)
unfolding native_transition_body
native_transition_body-Moves operation_id state at expected generation q claims =
    let P = Moves expected q in
    Yields-bind P (native_fence expected generation q) _ (λ u fence.
      Yields-bind P (find_operation q operation_id) _ (λ o _.
        Yields-bind P (find_reservation q o.reservation_id) _ (λ r _.
          Yields-raise_if P (o.generation != q.generation) _ _ (λ _.
            Yields-raise_if P (before at o.updated_at) _ _ (λ _.
              if-intro (Yields P) (native_already state o) (λ _. tt)
                (λ _.
                  native_move-Moves operation_id state at q r o expected claims
                    (native_fence-ok expected generation q u fence)))))))
