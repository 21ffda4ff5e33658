-- ===== src/QueueStore/Restarts.antt =====
-- tellyq/queue_store.py: a start that is tried again with its identities starts nothing.
use tellyq.Prelude.{
  ℕ, ◌≡◌, refl, sym, ap, ◌∙◌, subst, String, Bool, true, false, Option, none, some, List, [], ◌∷◌,
  ◌++◌, Fault, ok, raise_if, require, Yields, Yields-bind, Yields-raise_if, Yields-of_ok,
  ok-injective, raise_if-ok, raise_if-pass, Yields-weaken, first-append_none, any-first-none, ◌>>=◌,
  ◌>>◌, if-intro, ◌==◌, ◌!=◌, nat_eq, string_eq, str_eq_self, first, any, not, is_blank, Bool-cases,
  inl, inr, arith, if◌then◌else◌,
}
use tellyq.Values.{CommandAction, command_action_eq, Datetime}
use tellyq.Queue.{JournalCommand, QueueSnapshot}
use tellyq.QueueStore.{
  Database, find_queue, Change, commit, duplicate_of, duplicate, command_taken, attempt_taken,
  pending_command, add_command, started_attempt, started_rows, same_start, native_begun, occupied,
  is_offered, new_start, start_body, prepare_start, Operation, perform,
}
use tellyq.QueueStore.Commits.{transact-Applied, commit-bumped}
use tellyq.QueueStore.Histories.{perform-stored}
use tellyq.QueueStore.Retries.{transact-unchanged, perform-consistent}

taken_in_found :
    (f : QueueSnapshot → Bool) (queue_id : String) (queues : List QueueSnapshot) (q : QueueSnapshot)
    → any f queues ≡ false
    → find_queue queue_id queues ≡ some q
    → f q ≡ false
taken_in_found f queue_id [] q h e = cc
taken_in_found f queue_id (r ∷ queues) q h e = elim (Bool-cases (r.queue_id == queue_id)) [
  | inl named ↦ let same : r ≡ q = ground arith in subst (λ s. f s ≡ false) same (ground arith)
  | inr other ↦ taken_in_found f queue_id queues q (ground arith) (ground arith)
]

module _ (item_id attempt_id command_id : String) where
  -- The journal has the start, and it was for the item.
  abbrev StartedIn : QueueSnapshot → Type 0
  StartedIn q =
      (duplicate q command_id attempt_id CommandAction.start ≡ ok true)
      × (same_start q item_id attempt_id ≡ ok Change.unchanged)

  abbrev StartedBy : QueueSnapshot → Change → Type 0
  StartedBy q Change.unchanged = StartedIn q
  StartedBy q (Change.rewritten rows) = StartedIn rows

  duplicate-false :
      (q : QueueSnapshot)
      → duplicate q command_id attempt_id CommandAction.start ≡ ok false
      → first (λ c. c.command_id == command_id) q.commands ≡ none
  unfolding duplicate
  duplicate-false q h = by_command (first (λ c. c.command_id == command_id) q.commands) h
    where
      by_command :
          (o : Option JournalCommand)
          → duplicate_of o attempt_id CommandAction.start ≡ ok false
          → o ≡ none
      by_command none h = refl
      by_command (some c) h = ground arith

  rows-StartedIn :
      (q : QueueSnapshot) (at : Datetime)
      → first (λ c. c.command_id == command_id) q.commands ≡ none
      → first (λ a. a.attempt_id == attempt_id) q.attempts ≡ none
      → StartedIn (record (started_rows q item_id attempt_id at) {
        commands =
            q.commands ++ (pending_command q attempt_id command_id CommandAction.start at ∷ []);
      })
  unfolding duplicate same_start
  rows-StartedIn q at c a =
      let added = pending_command q attempt_id command_id CommandAction.start at ∷ [] in
      let begun = started_attempt item_id attempt_id at ∷ [] in
      let self_command = str_eq_self command_id in
      let self_attempt = str_eq_self attempt_id in
      let self_item = str_eq_self item_id in
      let found_command = first-append_none (λ d. d.command_id == command_id) q.commands added c in
      let found_attempt = first-append_none (λ b. b.attempt_id == attempt_id) q.attempts begun a in
      (
        ap (λ o. duplicate_of o attempt_id CommandAction.start) found_command ∙ ground arith,
        ap
              (λ o. require o Fault.stop_iteration >>= λ b.
                raise_if (b.item_id != item_id) Fault.queue_store_error >> ok Change.unchanged)
              found_attempt
            ∙ ground arith,
      )

  same_start-unchanged :
      (q : QueueSnapshot) → Yields (λ c. c ≡ Change.unchanged) (same_start q item_id attempt_id)
  unfolding same_start
  same_start-unchanged q =
      let P : Change → Type 0 = λ c. c ≡ Change.unchanged in
      Yields-bind P
        (require (first (λ a. a.attempt_id == attempt_id) q.attempts) Fault.stop_iteration) _
        (λ a found. Yields-raise_if P (a.item_id != item_id) _ _ (λ _. refl))

  same_start-StartedBy :
      (q : QueueSnapshot)
      → duplicate q command_id attempt_id CommandAction.start ≡ ok true
      → Yields (StartedBy q) (same_start q item_id attempt_id)
  same_start-StartedBy q known =
      Yields-weaken (λ c. c ≡ Change.unchanged) (StartedBy q) (same_start q item_id attempt_id)
        (same_start-unchanged q)
        (λ c asked same. subst (StartedBy q) (sym same) (known, asked ∙ ap ok same))

  new_start-StartedBy :
      (db : Database) (queue_id : String) (at : Datetime) (expected : ℕ) (q : QueueSnapshot)
      → find_queue queue_id db.queues ≡ some q
      → duplicate q command_id attempt_id CommandAction.start ≡ ok false
      → Yields (StartedBy q) (new_start db item_id attempt_id command_id at expected q)
  unfolding new_start add_command attempt_taken
  new_start-StartedBy db queue_id at expected q stored fresh =
      let P = StartedBy q in
      Yields-raise_if P (q.revision != expected) _ _ (λ _.
        Yields-raise_if P (native_begun q) _ _ (λ _. Yields-raise_if P (occupied q) _ _ (λ _.
          Yields-raise_if P (not (is_offered q item_id)) _ _ (λ _.
            Yields-raise_if P (attempt_taken db attempt_id) _ _ (λ free.
              Yields-raise_if P (command_taken db command_id) _ _ (λ _.
                rows-StartedIn q at (duplicate-false q fresh) (
                  any-first-none (λ a. a.attempt_id == attempt_id) q.attempts
                    (taken_in_found (λ r. any (λ a. a.attempt_id == attempt_id) r.attempts) queue_id
                      db.queues q free stored))))))))

  start_body-StartedBy :
      (db : Database) (queue_id : String) (at : Datetime) (expected : ℕ) (q : QueueSnapshot)
      → find_queue queue_id db.queues ≡ some q
      → Yields (StartedBy q) (start_body db item_id attempt_id command_id at expected q)
  unfolding start_body
  start_body-StartedBy db queue_id at expected q stored =
      Yields-bind (StartedBy q) (duplicate q command_id attempt_id CommandAction.start) _
        (λ known e.
          if-intro (Yields (StartedBy q)) known (λ t. same_start-StartedBy q (e ∙ ap ok t))
            (λ f. new_start-StartedBy db queue_id at expected q stored (e ∙ ap ok f)))

  StartedBy-after :
      (db : Database) (q : QueueSnapshot) (change : Change) {q' : QueueSnapshot} {db' : Database}
      → StartedBy q change
      → commit db q change ≡ ok (q', db')
      → StartedIn q'
  unfolding duplicate same_start
  StartedBy-after db q Change.unchanged h e = subst StartedIn (ap (λ r. r.0) (ok-injective e)) h
  StartedBy-after db q (Change.rewritten rows) h e =
      subst StartedIn (sym (commit-bumped db q rows e)) h

  start_body-again :
      (db : Database) (at : Datetime) (expected : ℕ) (q : QueueSnapshot)
      → StartedIn q
      → start_body db item_id attempt_id command_id at expected q ≡ ok Change.unchanged
  unfolding start_body
  start_body-again db at expected q (known, same) =
      ap
        (λ m. m >>= λ b.
          if b
          then same_start q item_id attempt_id
          else new_start db item_id attempt_id command_id at expected q)
        known
      ∙ same

perform-start :
    (db : Database) (queue_id item_id attempt_id command_id : String) (at : Datetime) (expected : ℕ)
    → perform db queue_id (Operation.start item_id attempt_id command_id at expected)
      ≡ prepare_start db queue_id item_id attempt_id command_id at expected
unfolding perform
perform-start db queue_id item_id attempt_id command_id at expected = refl

-- A start that returned, when it is tried again with its identities, returns the same queue, at any
-- expected revision and any time with a timezone, and leaves the database as it is.
pub prepare_start-again :
    (db : Database) (queue_id item_id attempt_id command_id : String) (at later : Datetime)
    (expected again : ℕ) {q' : QueueSnapshot} {db' : Database}
    → prepare_start db queue_id item_id attempt_id command_id at expected ≡ ok (q', db')
    → later.aware ≡ true
    → prepare_start db' queue_id item_id attempt_id command_id later again ≡ ok (q', db')
unfolding prepare_start
prepare_start-again db queue_id item_id attempt_id command_id at later expected again {q'} {db'} e
      zoned =
    let operation = Operation.start item_id attempt_id command_id at expected in
    let performed : perform db queue_id operation ≡ ok (q', db') =
      perform-start db queue_id item_id attempt_id command_id at expected ∙ e in
    let body = start_body db item_id attempt_id command_id at expected in
    let a = raise_if-ok (is_blank queue_id) Fault.value_error _ e in
    let b = raise_if-ok (is_blank item_id) Fault.value_error _ a.1 in
    let c = raise_if-ok (is_blank attempt_id) Fault.value_error _ b.1 in
    let d = raise_if-ok (is_blank command_id) Fault.value_error _ c.1 in
    let t = raise_if-ok (not at.aware) Fault.value_error _ d.1 in
    let applied = transact-Applied db queue_id body t.1 in
    let started =
      StartedBy-after item_id attempt_id command_id db applied.q applied.change
        (Yields-of_ok (StartedBy item_id attempt_id command_id applied.q) (body applied.q)
          (start_body-StartedBy item_id attempt_id command_id db queue_id at expected applied.q
            applied.found)
          applied.asked)
        applied.done in
    raise_if-pass (is_blank queue_id) Fault.value_error _ a.0 (
      raise_if-pass (is_blank item_id) Fault.value_error _ b.0 (
        raise_if-pass (is_blank attempt_id) Fault.value_error _ c.0 (
          raise_if-pass (is_blank command_id) Fault.value_error _ d.0 (
            raise_if-pass (not later.aware) Fault.value_error _ (ap not zoned) (
              transact-unchanged db' queue_id
                (start_body db' item_id attempt_id command_id later again) q'
                (perform-stored db queue_id operation performed)
                (perform-consistent db queue_id operation performed)
                (start_body-again item_id attempt_id command_id db' later again q' started))))))
