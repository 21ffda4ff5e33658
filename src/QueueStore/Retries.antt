-- ===== src/QueueStore/Retries.antt =====
-- tellyq/queue_store.py: an operation that is tried again finds its own trace and changes nothing.
use tellyq.Prelude.{
  ℕ, ◌≡◌, refl, sym, ap, ◌∙◌, subst, String, true, some, Result, Fault, ok, err, require,
  require-ok, Yields, Yields-bind, Yields-raise_if, Yields-of_ok, ok-injective, raise_if-ok,
  raise_if-pass, first-update_where, first-passes, ◌>>=◌, if-intro, ◌==◌, ◌!=◌, nat_eq, string_eq,
  str_eq_self, eq_iff, first, update_where, not, is_blank, inl, inr, arith, ◌&&◌, if◌then◌else◌,
}
use tellyq.Values.{command_action_eq}
use tellyq.Queue.{QueueIntent, queue_intent_eq, QueueAttempt, QueueSnapshot}
use tellyq.QueueStore.{
  Database, find_queue, consistent, loaded, required, Change, commit, transact, decided_attempt,
  has_terminal, stop_intended, decision_taken, new_settlement, already_settled, settle_body,
  is_settlement, settle_attempt, Operation, perform,
}
use tellyq.QueueStore.Commits.{transact-Applied, commit-bumped}
use tellyq.QueueStore.Writes.{perform-Commits}
use tellyq.QueueStore.Histories.{perform-stored}

-- A transaction whose body asks for nothing returns the stored queue.
pub transact-unchanged :
    (db : Database) (queue_id : String) (body : QueueSnapshot → Result Change) (q : QueueSnapshot)
    → find_queue queue_id db.queues ≡ some q
    → consistent q ≡ true
    → body q ≡ ok Change.unchanged
    → transact db queue_id body ≡ ok (q, db)
unfolding transact required
transact-unchanged db queue_id body q f c b =
    let present : required db queue_id ≡ ok q =
      ap loaded f ∙ ap (λ t. if t then ok q else err Fault.queue_store_error) c in
    ap (λ m. m >>= λ r. body r >>= λ change. commit db r change) present
    ∙ ap (λ m. m >>= λ change. commit db q change) b

pub perform-consistent :
    (db : Database) (queue_id : String) (operation : Operation) {q' : QueueSnapshot}
    {db' : Database}
    → perform db queue_id operation ≡ ok (q', db')
    → consistent q' ≡ true
perform-consistent db queue_id operation e =
    let done = perform-Commits db queue_id operation e in
    elim done.effect [
      | inl same ↦ subst (λ q. consistent q ≡ true) (sym same.0) done.is_loaded
      | inr written ↦ written.3
    ]

module _ (attempt_id : String) (outcome : QueueIntent) (decision_id : String) where
  -- The attempt has this settlement.
  abbrev SettledIn : QueueSnapshot → Type 0
  SettledIn q =
      (a : QueueAttempt) × (first (λ b. b.attempt_id == attempt_id) q.attempts ≡ some a)
      × (already_settled outcome decision_id a ≡ true)

  abbrev SettledBy : QueueSnapshot → Change → Type 0
  SettledBy q Change.unchanged = SettledIn q
  SettledBy q (Change.rewritten rows) = SettledIn rows

  intent_eq_self : (i : QueueIntent) → (i == i) ≡ true
  intent_eq_self i = ground arith

  decided-already :
      (a : QueueAttempt)
      → already_settled outcome decision_id (decided_attempt outcome decision_id a) ≡ true
  unfolding already_settled
  decided-already a =
      let name = str_eq_self decision_id in let intent = intent_eq_self outcome in ground arith

  new_settlement-SettledBy :
      (db : Database) (expected : ℕ) (q : QueueSnapshot) (a : QueueAttempt)
      → first (λ b. b.attempt_id == attempt_id) q.attempts ≡ some a
      → Yields (SettledBy q) (new_settlement db outcome decision_id expected q a)
  unfolding new_settlement
  new_settlement-SettledBy db expected q a found =
      let P = SettledBy q in
      let named = first-passes (λ b. b.attempt_id == attempt_id) q.attempts a found in
      let name : a.attempt_id ≡ attempt_id = (eq_iff a.attempt_id attempt_id).0 named in
      let decided = decided_attempt outcome decision_id in
      let moved =
        first-update_where (λ b. b.attempt_id == attempt_id) decided (λ b h. h) q.attempts a
          found in
      Yields-raise_if P (q.revision != expected) _ _ (λ _.
        Yields-raise_if P (has_terminal a) _ _ (λ _.
          Yields-raise_if P (outcome == QueueIntent.finished && stop_intended q a.attempt_id) _ _
            (λ _. Yields-raise_if P (decision_taken db decision_id) _ _ (λ _. (
              decided a,
              subst
                  (λ n.
                    first (λ b. b.attempt_id == attempt_id)
                      (update_where (λ b. b.attempt_id == n) decided q.attempts)
                    ≡ some (decided a))
                  (sym name) moved,
              decided-already a,
            )))))

  settle_body-SettledBy :
      (db : Database) (expected : ℕ) (q : QueueSnapshot)
      → Yields (SettledBy q) (settle_body db attempt_id outcome decision_id expected q)
  unfolding settle_body
  settle_body-SettledBy db expected q =
      Yields-bind (SettledBy q)
        (require (first (λ b. b.attempt_id == attempt_id) q.attempts) Fault.queue_store_error) _
        (λ a e.
          let found =
            require-ok (first (λ b. b.attempt_id == attempt_id) q.attempts) Fault.queue_store_error
              e in
          if-intro (Yields (SettledBy q)) (already_settled outcome decision_id a)
            (λ settled. (a, found, settled)) (λ _. new_settlement-SettledBy db expected q a found))

  SettledBy-after :
      (db : Database) (q : QueueSnapshot) (change : Change) {q' : QueueSnapshot} {db' : Database}
      → SettledBy q change
      → commit db q change ≡ ok (q', db')
      → SettledIn q'
  SettledBy-after db q Change.unchanged h e = subst SettledIn (ap (λ r. r.0) (ok-injective e)) h
  SettledBy-after db q (Change.rewritten rows) h e =
      subst SettledIn (sym (commit-bumped db q rows e)) h

  settle_body-again :
      (db : Database) (expected : ℕ) (q : QueueSnapshot)
      → SettledIn q
      → settle_body db attempt_id outcome decision_id expected q ≡ ok Change.unchanged
  unfolding settle_body
  settle_body-again db expected q (a, found, settled) =
      ap
        (λ o. require o Fault.queue_store_error >>= λ b.
          if already_settled outcome decision_id b
          then ok Change.unchanged
          else new_settlement db outcome decision_id expected q b)
        found
      ∙ ap
          (λ t.
            if t then ok Change.unchanged else new_settlement db outcome decision_id expected q a)
          settled

perform-settlement :
    (db : Database) (queue_id attempt_id : String) (outcome : QueueIntent) (decision_id : String)
    (expected : ℕ)
    → perform db queue_id (Operation.settlement attempt_id outcome decision_id expected)
      ≡ settle_attempt db queue_id attempt_id outcome decision_id expected
unfolding perform
perform-settlement db queue_id attempt_id outcome decision_id expected = refl

-- A settlement that returned returns the same again, at any expected revision, and the second time
-- the database stays as it is.
pub settle_attempt-again :
    (db : Database) (queue_id attempt_id : String) (outcome : QueueIntent) (decision_id : String)
    (expected again : ℕ) {q' : QueueSnapshot} {db' : Database}
    → settle_attempt db queue_id attempt_id outcome decision_id expected ≡ ok (q', db')
    → settle_attempt db' queue_id attempt_id outcome decision_id again ≡ ok (q', db')
unfolding settle_attempt
settle_attempt-again db queue_id attempt_id outcome decision_id expected again {q'} {db'} e =
    let operation = Operation.settlement attempt_id outcome decision_id expected in
    let performed : perform db queue_id operation ≡ ok (q', db') =
      perform-settlement db queue_id attempt_id outcome decision_id expected ∙ e in
    let body = settle_body db attempt_id outcome decision_id expected in
    let named = raise_if-ok (is_blank decision_id) Fault.value_error _ e in
    let allowed = raise_if-ok (not (is_settlement outcome)) Fault.value_error _ named.1 in
    let applied = transact-Applied db queue_id body allowed.1 in
    let settled =
      SettledBy-after attempt_id outcome decision_id db applied.q applied.change
        (Yields-of_ok (SettledBy attempt_id outcome decision_id applied.q) (body applied.q)
          (settle_body-SettledBy attempt_id outcome decision_id db expected applied.q)
          applied.asked)
        applied.done in
    raise_if-pass (is_blank decision_id) Fault.value_error _ named.0 (
      raise_if-pass (not (is_settlement outcome)) Fault.value_error _ allowed.0 (
        transact-unchanged db' queue_id (settle_body db' attempt_id outcome decision_id again) q'
          (perform-stored db queue_id operation performed)
          (perform-consistent db queue_id operation performed)
          (settle_body-again attempt_id outcome decision_id db' again q' settled)))
