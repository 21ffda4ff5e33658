-- ===== src/QueueStore/Bodies/Adoptions.antt =====
-- tellyq/queue_store.py: adoptions and exits, when they write rows, advance those that they read.
use tellyq.Prelude.{
  ℕ, ◌≡◌, refl, String, true, false, Option, none, some, Fault, Yields, Yields-bind,
  Yields-raise_if, Yields-of_ok, if-intro, require, ◌==◌, ◌!=◌, nat_eq, string_eq, option_eq, ◌&&◌,
  first, last, not,
}
use tellyq.Values.{Instant, Datetime, before, SessionSnapshot}
use tellyq.Queue.{
  execution_state_eq, NativeReservation, QueueIntent, queue_intent_eq, QueueEntry, QueueAttempt,
  queue_attempt_eq, QueueSnapshot,
}
use tellyq.QueueStore.{
  Database, native_fence, attempt_named, find_reservation, item_named, attempt_taken,
  decision_taken, is_enqueue, successor_differs, adoptable, unobserved_decision, is_open,
  doubted_source_rows, left_behind, adoption_taken, new_adoption, adopt_undecided, adopt_of,
  adopt_body, exited_rows, exit_taken, new_exit, exit_of, exit_body,
}
use tellyq.QueueStore.Advances.{Advances, Moves, same_journals}
use tellyq.QueueStore.Bodies.Transitions.{native_fence-ok}

left_behind-Advances :
    (db : Database) (q : QueueSnapshot) (source : QueueAttempt) (decision_id : String)
    (expected : ℕ)
    → (q.revision != expected) ≡ false
    → Yields (Advances expected q) (left_behind db q source decision_id)
unfolding left_behind
left_behind-Advances db q source decision_id expected e =
    let P = Advances expected q in
    let given = unobserved_decision source.decision_id decision_id in
    if-intro (Yields P) (source.intent == QueueIntent.finished)
      (λ _. same_journals q q expected e refl refl refl (λ c. c) refl refl)
      (λ _.
        if-intro (Yields P) (is_open source)
          (λ _.
            Yields-raise_if P (source.decision_id != some given && decision_taken db given) _ _
              (λ _.
                same_journals q
                  (record (doubted_source_rows q source given) { reconciliation_required = true })
                  expected e refl refl refl (λ c. c) refl refl))
          (λ _.
            same_journals q (record q { reconciliation_required = true }) expected e refl refl refl
              (λ c. c) refl refl))

new_adoption-Moves :
    (db : Database) (q : QueueSnapshot) (r : NativeReservation) (item : QueueEntry) (at : Datetime)
    (decision_id : String) (expected : ℕ)
    → (q.revision != expected) ≡ false
    → Yields (Moves expected q) (new_adoption db q r item at decision_id)
unfolding new_adoption
new_adoption-Moves db q r item at decision_id expected e =
    let P = Moves expected q in
    Yields-raise_if P (before at r.created_at) _ _ (λ _.
      Yields-bind P (require (attempt_named q r.predecessor_attempt_id) Fault.stop_iteration) _
        (λ source _. Yields-raise_if P (last q.attempts != some source) _ _ (λ _.
          Yields-bind P (left_behind db q source decision_id) _ (λ left behind.
            let h =
              Yields-of_ok (Advances expected q) (left_behind db q source decision_id)
                (left_behind-Advances db q source decision_id expected e) behind in
            Yields-raise_if P (attempt_taken db r.successor_attempt_id) _ _ (λ _.
              Yields-raise_if P (adoption_taken db r decision_id) _ _ (λ _. record {
                fenced = h.fenced;
                same_id = h.same_id;
                same_revision = h.same_revision;
                generation_grows = h.generation_grows;
                stays_canceled = h.stays_canceled;
                stays_claimed = h.stays_claimed;
                stays_claimed_native = h.stays_claimed_native;
              }))))))

adopt_of-Moves :
    (given : Option String) (db : Database) (q : QueueSnapshot) (r : NativeReservation)
    (item : QueueEntry) (observed : SessionSnapshot) (now : Instant) (at : Datetime)
    (decision_id : String) (expected generation : ℕ)
    → Yields
        (Moves expected q)
        (adopt_of given db q r item observed now at decision_id expected generation)
unfolding adopt_undecided
adopt_of-Moves none db q r item observed now at decision_id expected generation =
    let P = Moves expected q in
    Yields-bind P (native_fence expected generation q) _ (λ u fence.
      Yields-bind P (require (first (is_enqueue r) q.native_operations) Fault.stop_iteration) _
        (λ enqueue _. Yields-raise_if P (not (adoptable q r enqueue item observed now)) _ _ (λ _.
          new_adoption-Moves db q r item at decision_id expected
            (native_fence-ok expected generation q u fence))))
adopt_of-Moves (some given) db q r item observed now at decision_id expected generation =
    Yields-raise_if (Moves expected q) (given != decision_id) _ _ (λ _. tt)

pub adopt_body-Moves :
    (db : Database) (reservation_id : String) (observed : SessionSnapshot) (now : Instant)
    (at : Datetime) (decision_id : String) (expected generation : ℕ) (q : QueueSnapshot)
    → Yields
        (Moves expected q)
        (adopt_body db reservation_id observed now at decision_id expected generation q)
unfolding adopt_body
adopt_body-Moves db reservation_id observed now at decision_id expected generation q =
    let P = Moves expected q in
    Yields-raise_if P (q.generation != generation) _ _ (λ _.
      Yields-bind P (find_reservation q reservation_id) _ (λ r _.
        Yields-bind P (require (item_named q r.successor_item_id) Fault.stop_iteration) _ (λ item _.
          Yields-raise_if P (successor_differs q r item observed) _ _ (λ _.
            adopt_of-Moves r.adoption_decision_id db q r item observed now at decision_id expected
              generation))))

exit_of-Moves :
    (given : Option String) (db : Database) (q : QueueSnapshot) (r : NativeReservation)
    (at : Datetime) (decision_id : String) (expected : ℕ)
    → (q.revision != expected) ≡ false
    → Yields (Moves expected q) (exit_of given db q r at decision_id)
unfolding new_exit
exit_of-Moves none db q r at decision_id expected e =
    let P = Moves expected q in
    Yields-raise_if P (not q.cancellation_requested) _ _ (λ _.
      Yields-raise_if P (before at r.created_at) _ _ (λ _.
        Yields-raise_if P (exit_taken db decision_id) _ _ (λ _.
          same_journals q (exited_rows q r decision_id) expected e refl refl refl (λ c. c) refl
            refl)))
exit_of-Moves (some given) db q r at decision_id expected e =
    Yields-raise_if (Moves expected q) (given != decision_id) _ _ (λ _. tt)

pub exit_body-Moves :
    (db : Database) (reservation_id : String) (at : Datetime) (decision_id : String)
    (expected generation : ℕ) (q : QueueSnapshot)
    → Yields (Moves expected q) (exit_body db reservation_id at decision_id expected generation q)
unfolding exit_body
exit_body-Moves db reservation_id at decision_id expected generation q =
    let P = Moves expected q in
    Yields-bind P (find_reservation q reservation_id) _ (λ r _.
      Yields-bind P (native_fence expected generation q) _ (λ u fence.
        exit_of-Moves r.exit_decision_id db q r at decision_id expected
          (native_fence-ok expected generation q u fence)))
