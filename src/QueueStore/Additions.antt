-- ===== src/QueueStore/Additions.antt =====
-- tellyq/queue_store.py: a new queue leaves those that are there as they were.
use tellyq.Prelude.{
  ◌≡◌, String, true, false, Option, none, some, List, [], ◌∷◌, ◌++◌, Result, ok, err, ◌==◌,
  string_eq, ◌!=◌, is_some, Yields, Yields-bind, Yields-raise_if, Bool-cases, inl, inr, arith,
}
use tellyq.Values.{PlaybackTarget, check_target}
use tellyq.Queue.{QueueEntry, QueueMode, QueueSnapshot}
use tellyq.QueueStore.{
  Database, find_queue, load_found, required, check_identity, new_queue, check_items, with_queue,
  create, LegacyQueue, legacy_entry, digest_imported, imported_database, new_import, import_of,
  import_legacy, kept_in,
}

-- Every queue is still found, as it was.
abbrev pub Contains : Database → Database → Type 0
Contains db db' =
    (queue_id : String) (q : QueueSnapshot)
    → find_queue queue_id db.queues ≡ some q
    → find_queue queue_id db'.queues ≡ some q

find_queue-append :
    (queue_id : String) (queues more : List QueueSnapshot) (q : QueueSnapshot)
    → find_queue queue_id queues ≡ some q
    → find_queue queue_id (queues ++ more) ≡ some q
find_queue-append queue_id [] more q h = cc
find_queue-append queue_id (r ∷ queues) more q h = elim (Bool-cases (r.queue_id == queue_id)) [
  | inl named ↦ ground arith
  | inr other ↦ let rest = find_queue-append queue_id queues more q (ground arith) in ground arith
]

abbrev Leaves : Database → QueueSnapshot × Database → Type 0
Leaves db (q, db') = Contains db db'

Contains-kept_in :
    (db : Database) (r : Result (QueueSnapshot × Database))
    → Yields (Leaves db) r
    → Contains db (kept_in db r)
Contains-kept_in db (ok (q, db')) h = h
Contains-kept_in db (err fault) h = λ _ _ found. found

create-Leaves :
    (db : Database) (queue_id : String) (target : PlaybackTarget) (items : List QueueEntry)
    (mode : QueueMode)
    → Yields (Leaves db) (create db queue_id target items mode)
unfolding create
create-Leaves db queue_id target items mode =
    let P = Leaves db in
    let more = new_queue queue_id target items mode ∷ [] in
    Yields-bind P (load_found (find_queue queue_id db.queues)) _ (λ found _.
      Yields-raise_if P (is_some found) _ _ (λ _. Yields-bind P (check_identity queue_id) _ (λ _ _.
        Yields-bind P (check_items false items) _ (λ _ _.
          Yields-bind P (required (with_queue db (new_queue queue_id target items mode)) queue_id) _
            (λ _ _ id q. find_queue-append id db.queues more q)))))

new_import-Leaves :
    (db : Database) (queue_id : String) (legacy : LegacyQueue) (entry : QueueEntry)
    → Yields (Leaves db) (new_import db queue_id legacy entry)
unfolding new_import
new_import-Leaves db queue_id legacy entry =
    let P = Leaves db in
    Yields-bind P (load_found (find_queue queue_id db.queues)) _ (λ found _.
      Yields-raise_if P (is_some found) _ _ (λ _.
        Yields-bind P
          (check_target (record { device_id = legacy.device_id; route = "cast"; name = none })) _
          (λ target _. Yields-bind P (check_identity queue_id) _ (λ _ _.
            Yields-bind P (check_items true (entry ∷ [])) _ (λ _ _.
              let rows = new_queue queue_id target (entry ∷ []) QueueMode.legacy in
              Yields-bind P (required (imported_database db rows queue_id legacy.digest) queue_id) _
                (λ _ _ id q. find_queue-append id db.queues (rows ∷ []) q))))))

import_of-Leaves :
    (given : Option String) (db : Database) (queue_id : String) (legacy : LegacyQueue)
    (entry : QueueEntry)
    → Yields (Leaves db) (import_of given db queue_id legacy entry)
import_of-Leaves none db queue_id legacy entry = new_import-Leaves db queue_id legacy entry
import_of-Leaves (some digest) db queue_id legacy entry =
    let P = Leaves db in
    Yields-raise_if P (digest != legacy.digest) _ _
      (λ _. Yields-bind P (required db queue_id) _ (λ _ _ _ _ found. found))

pub create-Contains :
    (db : Database) (queue_id : String) (target : PlaybackTarget) (items : List QueueEntry)
    (mode : QueueMode)
    → Contains db (kept_in db (create db queue_id target items mode))
create-Contains db queue_id target items mode =
    Contains-kept_in db (create db queue_id target items mode)
      (create-Leaves db queue_id target items mode)

pub import_legacy-Contains :
    (db : Database) (queue_id : String) (legacy : LegacyQueue)
    → Contains db (kept_in db (import_legacy db queue_id legacy))
unfolding import_legacy
import_legacy-Contains db queue_id legacy =
    let P = Leaves db in
    Contains-kept_in db (import_legacy db queue_id legacy) (
      Yields-bind P (legacy_entry legacy) _ (λ entry _.
        import_of-Leaves (digest_imported queue_id db.imports) db queue_id legacy entry))
