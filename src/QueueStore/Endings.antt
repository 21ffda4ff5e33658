-- ===== src/QueueStore/Endings.antt =====
-- tellyq/queue_store.py: what a settlement as finished asks for.
use tellyq.Prelude.{
  ℕ, ◌≡◌, sym, ap, subst, String, false, some, Fault, ok, require, require-ok, raise_if-ok, Yields,
  Yields-bind, Yields-raise_if, Yields-of_ok, ok-injective, if-intro, ◌==◌, ◌!=◌, nat_eq, string_eq,
  eq_iff, first, first-passes, not, is_blank, ◌⊎◌, inl, inr,
}
use tellyq.Queue.{QueueIntent, queue_intent_eq, QueueAttempt, QueueSnapshot}
use tellyq.QueueStore.{
  Database, find_queue, Change, commit, has_terminal, stop_intended, decision_taken, new_settlement,
  already_settled, settle_body, is_settlement, settle_attempt,
}
use tellyq.QueueStore.Commits.{transact-Applied}

-- A settlement as finished that writes rows has found no stop in the journal of the attempt.
abbrev Natural : QueueSnapshot → String → Change → Type 0
Natural q attempt_id Change.unchanged = Unit
Natural q attempt_id (Change.rewritten rows) = stop_intended q attempt_id ≡ false

new_settlement-Natural :
    (db : Database) (decision_id : String) (expected : ℕ) (q : QueueSnapshot) (a : QueueAttempt)
    → Yields
        (Natural q a.attempt_id)
        (new_settlement db QueueIntent.finished decision_id expected q a)
unfolding new_settlement
new_settlement-Natural db decision_id expected q a =
    let P = Natural q a.attempt_id in
    Yields-raise_if P (q.revision != expected) _ _ (λ _.
      Yields-raise_if P (has_terminal a) _ _ (λ _.
        Yields-raise_if P (stop_intended q a.attempt_id) _ _
          (λ natural. Yields-raise_if P (decision_taken db decision_id) _ _ (λ _. natural))))

settle_body-Natural :
    (db : Database) (attempt_id decision_id : String) (expected : ℕ) (q : QueueSnapshot)
    → Yields
        (Natural q attempt_id)
        (settle_body db attempt_id QueueIntent.finished decision_id expected q)
unfolding settle_body
settle_body-Natural db attempt_id decision_id expected q =
    Yields-bind (Natural q attempt_id)
      (require (first (λ b. b.attempt_id == attempt_id) q.attempts) Fault.queue_store_error) _
      (λ a e.
        let found =
          require-ok (first (λ b. b.attempt_id == attempt_id) q.attempts) Fault.queue_store_error
            e in
        let passes = first-passes (λ b. b.attempt_id == attempt_id) q.attempts a found in
        let name : a.attempt_id ≡ attempt_id = (eq_iff a.attempt_id attempt_id).0 passes in
        if-intro (Yields (Natural q attempt_id))
          (already_settled QueueIntent.finished decision_id a) (λ _. tt)
          (λ _.
            subst
              (λ n.
                Yields (Natural q n)
                  (new_settlement db QueueIntent.finished decision_id expected q a))
              name (new_settlement-Natural db decision_id expected q a)))

Natural-after :
    (db : Database) (q : QueueSnapshot) (attempt_id : String) (change : Change) {q' : QueueSnapshot}
    {db' : Database}
    → Natural q attempt_id change
    → commit db q change ≡ ok (q', db')
    → (db' ≡ db) ⊎ (stop_intended q attempt_id ≡ false)
Natural-after db q attempt_id Change.unchanged h e = inl (sym (ap (λ r. r.1) (ok-injective e)))
Natural-after db q attempt_id (Change.rewritten rows) h e = inr h

-- A settlement as finished that returns finds its queue in the database, and either leaves the
-- database as it was or has found no stop in the journal for the attempt.
pub settle_attempt-finished :
    (db : Database) (queue_id attempt_id decision_id : String) (expected : ℕ) {q' : QueueSnapshot}
    {db' : Database}
    → settle_attempt db queue_id attempt_id QueueIntent.finished decision_id expected ≡ ok (q', db')
    → (q : QueueSnapshot) × (find_queue queue_id db.queues ≡ some q)
      × ((db' ≡ db) ⊎ (stop_intended q attempt_id ≡ false))
unfolding settle_attempt
settle_attempt-finished db queue_id attempt_id decision_id expected e =
    let body = settle_body db attempt_id QueueIntent.finished decision_id expected in
    let named = raise_if-ok (is_blank decision_id) Fault.value_error _ e in
    let allowed =
      raise_if-ok (not (is_settlement QueueIntent.finished)) Fault.value_error _ named.1 in
    let applied = transact-Applied db queue_id body allowed.1 in
    (
      applied.q,
      applied.found,
      Natural-after db applied.q attempt_id applied.change
          (Yields-of_ok (Natural applied.q attempt_id) (body applied.q)
            (settle_body-Natural db attempt_id decision_id expected applied.q) applied.asked)
          applied.done,
    )
