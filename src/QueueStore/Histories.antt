-- ===== src/QueueStore/Histories.antt =====
-- tellyq/queue_store.py: what any sequence of calls of the store keeps.
use tellyq.Prelude.{
  ℕ, ◌≡◌, refl, sym, ap, ◌∙◌, subst, String, false, some, List, [], ◌∷◌, ok, ◌==◌, string_eq,
  Bool-cases, Result-cases, inl, inr, arith, eq_iff, str_eq_self,
}
use tellyq.Values.{command_action_eq}
use tellyq.Queue.{execution_state_eq, QueueSnapshot}
use tellyq.QueueStore.{
  Database, find_queue, put_rows, bumped, Operation, perform, kept_in, Call, called, run_store,
}
use tellyq.QueueStore.Additions.{create-Contains, import_legacy-Contains}
use tellyq.QueueStore.Advances.{Advances}
use tellyq.QueueStore.Writes.{expected_of, perform-Commits}

pub find_queue-queue_id :
    (queue_id : String) (queues : List QueueSnapshot) (q : QueueSnapshot)
    → find_queue queue_id queues ≡ some q
    → q.queue_id ≡ queue_id
find_queue-queue_id queue_id [] q h = cc
find_queue-queue_id queue_id (r ∷ queues) q h = elim (Bool-cases (r.queue_id == queue_id)) [
  | inl named ↦
      let same : r ≡ q = ground arith in
      subst (λ s. s.queue_id ≡ queue_id) same ((eq_iff r.queue_id queue_id).0 named)
  | inr other ↦ find_queue-queue_id queue_id queues q (ground arith)
]

find_queue-put_rows :
    (r : QueueSnapshot) (queues : List QueueSnapshot) (q : QueueSnapshot)
    → find_queue r.queue_id queues ≡ some q
    → find_queue r.queue_id (put_rows r queues) ≡ some r
find_queue-put_rows r [] q h = cc
find_queue-put_rows r (s ∷ queues) q h =
    let self = str_eq_self r.queue_id in
    elim (Bool-cases (s.queue_id == r.queue_id)) [
      | inl named ↦ ground arith
      | inr other ↦ let rest = find_queue-put_rows r queues q (ground arith) in ground arith
    ]

find_queue-put_rows_other :
    (queue_id : String) (r : QueueSnapshot) (queues : List QueueSnapshot)
    → (r.queue_id == queue_id) ≡ false
    → find_queue queue_id (put_rows r queues) ≡ find_queue queue_id queues
find_queue-put_rows_other queue_id r [] h = refl
find_queue-put_rows_other queue_id r (s ∷ queues) h =
    let rest = find_queue-put_rows_other queue_id r queues h in
    elim (Bool-cases (s.queue_id == r.queue_id)) [
      | inl named ↦
          let same = (eq_iff s.queue_id r.queue_id).0 named in
          let elsewhere = ap (λ n. n == queue_id) same ∙ h in ground arith
      | inr other ↦ ground arith
    ]

-- An operation on one queue, when it returns, leaves every other queue as it was.
pub perform-elsewhere :
    (db : Database) (queue_id other_id : String) (operation : Operation) {q' : QueueSnapshot}
    {db' : Database}
    → perform db queue_id operation ≡ ok (q', db')
    → (queue_id == other_id) ≡ false
    → find_queue other_id db'.queues ≡ find_queue other_id db.queues
perform-elsewhere db queue_id other_id operation {q'} {db'} e apart =
    let done = perform-Commits db queue_id operation e in
    elim done.effect [
      | inl same ↦ ap (λ d. find_queue other_id d.queues) same.1
      | inr written ↦
          let rows = written.0 in
          let advances = written.1 in
          let named = find_queue-queue_id queue_id db.queues done.q done.found in
          let name : q'.queue_id ≡ queue_id =
            ap (λ s. s.queue_id) written.2 ∙ advances.same_id ∙ named in
          let apart' : (q'.queue_id == other_id) ≡ false = ap (λ n. n == other_id) name ∙ apart in
          ap (λ d. find_queue other_id d.queues) written.4
          ∙ find_queue-put_rows_other other_id q' db.queues apart'
    ]

-- After an operation that returns, the queue is stored as it was returned.
pub perform-stored :
    (db : Database) (queue_id : String) (operation : Operation) {q' : QueueSnapshot}
    {db' : Database}
    → perform db queue_id operation ≡ ok (q', db')
    → find_queue queue_id db'.queues ≡ some q'
perform-stored db queue_id operation {q'} {db'} e =
    let done = perform-Commits db queue_id operation e in
    elim done.effect [
      | inl same ↦ ap (λ d. find_queue queue_id d.queues) same.1 ∙ done.found ∙ ap some (sym same.0)
      | inr written ↦
          let advances = written.1 in
          let named = find_queue-queue_id queue_id db.queues done.q done.found in
          let name : q'.queue_id ≡ queue_id =
            ap (λ s. s.queue_id) written.2 ∙ advances.same_id ∙ named in
          let found : find_queue q'.queue_id db.queues ≡ some done.q =
            ap (λ n. find_queue n db.queues) name ∙ done.found in
          ap (λ d. find_queue queue_id d.queues) written.4
          ∙ ap (λ n. find_queue n (put_rows q' db.queues)) (sym name)
          ∙ find_queue-put_rows q' db.queues done.q found
    ]

-- The database has the queue, and the predicate holds of it.
abbrev pub Stored : (QueueSnapshot → Type 0) → String → Database → Type 0
Stored P queue_id db = (q : QueueSnapshot) × (find_queue queue_id db.queues ≡ some q) × P q

module _ (P : QueueSnapshot → Type 0)
    (keeps : (expected : ℕ) (q rows : QueueSnapshot)
      → Advances expected q rows
      → P q
      → P (bumped rows)) where
  pub perform-keeps :
      (db : Database) (queue_id other_id : String) (operation : Operation)
      → Stored P queue_id db
      → Stored P queue_id (kept_in db (perform db other_id operation))
  perform-keeps db queue_id other_id operation (q, found, holds) =
      elim (Result-cases (perform db other_id operation)) [
        | inr failed ↦
            subst (λ r. Stored P queue_id (kept_in db r)) (sym failed.1) (q, found, holds)
        | inl returned ↦
            let q' = returned.0.0 in
            let db' = returned.0.1 in
            let goal : Stored P queue_id db' = elim (Bool-cases (other_id == queue_id)) [
              | inr apart ↦ (
                q,
                perform-elsewhere db other_id queue_id operation returned.1 apart ∙ found,
                holds,
              )
              | inl named ↦
                  let same : other_id ≡ queue_id = (eq_iff other_id queue_id).0 named in
                  let done = perform-Commits db other_id operation returned.1 in
                  let stored = perform-stored db other_id operation returned.1 in
                  let source : done.q ≡ q = cc (done.found, found, same) in
                  let at : find_queue queue_id db'.queues ≡ some q' =
                    ap (λ n. find_queue n db'.queues) (sym same) ∙ stored in
                  elim done.effect [
                    | inl kept ↦ (q', at, subst P (sym (kept.0 ∙ source)) holds)
                    | inr written ↦ (
                      q',
                      at,
                      subst P (sym written.2) (
                          keeps (expected_of operation) done.q written.0 written.1
                            (subst P (sym source) holds)),
                    )
                  ]
            ] in
            subst (λ r. Stored P queue_id (kept_in db r)) (sym returned.1) goal
      ]

  called-keeps :
      (db : Database) (queue_id other_id : String) (call : Call)
      → Stored P queue_id db
      → Stored P queue_id (kept_in db (called db other_id call))
  unfolding called
  called-keeps db queue_id other_id (Call.on operation) h =
      perform-keeps db queue_id other_id operation h
  called-keeps db queue_id other_id (Call.creation target items mode) (q, found, holds) =
      (q, create-Contains db other_id target items mode queue_id q found, holds)
  called-keeps db queue_id other_id (Call.legacy_import legacy) (q, found, holds) =
      (q, import_legacy-Contains db other_id legacy queue_id q found, holds)

  pub run_store-keeps :
      (db : Database) (queue_id : String) (calls : List (String × Call))
      → Stored P queue_id db
      → Stored P queue_id (run_store db calls)
  unfolding run_store
  run_store-keeps db queue_id [] h = h
  run_store-keeps db queue_id ((other_id, call) ∷ calls) h =
      run_store-keeps (kept_in db (called db other_id call)) queue_id calls
        (called-keeps db queue_id other_id call h)
