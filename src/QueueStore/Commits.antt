-- ===== src/QueueStore/Commits.antt =====
-- tellyq/queue_store.py: what a transaction that commits has done to the database.
use tellyq.Prelude.{
  ℕ, ◌≡◌, refl, ap, subst, String, true, Option, none, some, Result, ok, Yields, Yields-bind,
  Yields-of_ok, >>=-eq-ok, ◌>>=◌, if-intro, string_eq, Bool-cases, ◌⊎◌, inl, inr, arith,
}
use tellyq.Queue.{execution_state_eq, QueueSnapshot}
use tellyq.QueueStore.{
  Database, find_queue, consistent, loaded, required, Change, put_rows, bumped, commit, transact,
}
use tellyq.QueueStore.Advances.{Advances, Moves}

-- The stored queue, and what it is after: as it was, or advanced rows at the next revision.
pub record Commits (db : Database) (queue_id : String) (expected : ℕ) (q' : QueueSnapshot)
    (db' : Database) : Type 0 where
  pub q : QueueSnapshot
  pub found : find_queue queue_id db.queues ≡ some q
  pub is_loaded : consistent q ≡ true
  pub effect :
      ((q' ≡ q) × (db' ≡ db))
      ⊎ ((rows : QueueSnapshot) × Advances expected q rows
          × (q' ≡ bumped rows)
          × (consistent q' ≡ true)
          × (db' ≡ record db { queues = put_rows q' db.queues }))

abbrev pub Committed : Database → String → ℕ → QueueSnapshot × Database → Type 0
Committed db queue_id expected (q', db') = Commits db queue_id expected q' db'

commit-Committed :
    (db : Database) (queue_id : String) (expected : ℕ) (q : QueueSnapshot) (change : Change)
    → find_queue queue_id db.queues ≡ some q
    → consistent q ≡ true
    → Moves expected q change
    → Yields (Committed db queue_id expected) (commit db q change)
commit-Committed db queue_id expected q Change.unchanged f c h = record {
  q = q;
  found = f;
  is_loaded = c;
  effect = inl (refl, refl);
}
commit-Committed db queue_id expected q (Change.rewritten rows) f c h =
    if-intro (Yields (Committed db queue_id expected)) (consistent (bumped rows))
      (λ k. record { q = q; found = f; is_loaded = c; effect = inr (rows, h, refl, k, refl) })
      (λ _. tt)

loaded-ok :
    (o : Option QueueSnapshot) (q : QueueSnapshot)
    → loaded o ≡ ok q
    → (o ≡ some q) × (consistent q ≡ true)
loaded-ok none q h = cc
loaded-ok (some p) q h = elim (Bool-cases (consistent p)) [
  | inl sound ↦
      let same : p ≡ q = ground arith in (ap some same, subst (λ r. consistent r ≡ true) same sound)
  | inr unsound ↦ ground arith
]

pub transact-Committed :
    (db : Database) (queue_id : String) (body : QueueSnapshot → Result Change) (expected : ℕ)
    → ((q : QueueSnapshot) → Yields (Moves expected q) (body q))
    → Yields (Committed db queue_id expected) (transact db queue_id body)
unfolding transact required
transact-Committed db queue_id body expected h =
    let P = Committed db queue_id expected in
    Yields-bind P (required db queue_id) _ (λ q found.
      let stored = loaded-ok (find_queue queue_id db.queues) q found in
      Yields-bind P (body q) _ (λ change e.
        commit-Committed db queue_id expected q change stored.0 stored.1
          (Yields-of_ok (Moves expected q) (body q) (h q) e)))

-- The steps of a transaction that committed.
pub record Applied (db : Database) (queue_id : String) (body : QueueSnapshot → Result Change)
    (q' : QueueSnapshot) (db' : Database) : Type 0 where
  pub q : QueueSnapshot
  pub change : Change
  pub found : find_queue queue_id db.queues ≡ some q
  pub is_loaded : consistent q ≡ true
  pub asked : body q ≡ ok change
  pub done : commit db q change ≡ ok (q', db')

pub transact-Applied :
    (db : Database) (queue_id : String) (body : QueueSnapshot → Result Change) {q' : QueueSnapshot}
    {db' : Database}
    → transact db queue_id body ≡ ok (q', db')
    → Applied db queue_id body q' db'
unfolding transact required
transact-Applied db queue_id body {q'} {db'} e =
    let first_step =
      >>=-eq-ok (loaded (find_queue queue_id db.queues)) (λ q. body q >>= (λ c. commit db q c)) e in
    let stored = loaded-ok (find_queue queue_id db.queues) first_step.0 first_step.1 in
    let second_step = >>=-eq-ok (body first_step.0) (λ c. commit db first_step.0 c) first_step.2 in
    record {
      q = first_step.0;
      change = second_step.0;
      found = stored.0;
      is_loaded = stored.1;
      asked = second_step.1;
      done = second_step.2;
    }

pub commit-bumped :
    (db : Database) (q rows : QueueSnapshot) {q' : QueueSnapshot} {db' : Database}
    → commit db q (Change.rewritten rows) ≡ ok (q', db')
    → q' ≡ bumped rows
commit-bumped db q rows e = elim (Bool-cases (consistent (bumped rows))) [
  | inl sound ↦ ground arith
  | inr unsound ↦ ground arith
]
