-- ===== src/QueueStore/Transactions.antt =====
-- tellyq/queue_store.py: one operation is one transaction. What raises leaves the database as it
-- was; what changes a queue raises its revision by one and is loaded again before the commit.
use tellyq.Prelude.{
  ℕ, ◌+◌, String, Option, none, some, List, Result, Fault, ok, err, raise_if, ◌>>=◌, ◌>>◌, ◌==◌,
  ◌!=◌, nat_eq, string_eq, not, update_where, is_blank, if◌then◌else◌,
}
use tellyq.Values.{Datetime}
use tellyq.Queue.{QueueSnapshot}
use tellyq.QueueStore.Rows.{Database, find_queue}
use tellyq.QueueStore.NativeRows.{consistent}

abbrev pub check_identity : String → Result (Unit {0})
check_identity value = raise_if (is_blank value) Fault.value_error

abbrev pub check_timestamp : Datetime → Result (Unit {0})
check_timestamp at = raise_if (not at.aware) Fault.value_error

abbrev pub check_revision : QueueSnapshot → ℕ → Result (Unit {0})
check_revision q expected = raise_if (q.revision != expected) Fault.revision_conflict

-- `_required`: the queue is there, and its rows are consistent.
abbrev pub loaded : Option QueueSnapshot → Result QueueSnapshot
loaded none = err Fault.queue_store_error
loaded (some q) = if consistent q then ok q else err Fault.queue_store_error

unfoldable pub required : Database → String → Result QueueSnapshot
required db queue_id = loaded (find_queue queue_id db.queues)

-- `load`, which knows a missing queue from an invalid one
abbrev pub load_found : Option QueueSnapshot → Result (Option QueueSnapshot)
load_found none = ok none
load_found (some q) = if consistent q then ok (some q) else err Fault.queue_store_error

unfoldable pub load : Database → String → Result (Option QueueSnapshot)
load db queue_id = do check_identity queue_id; load_found (find_queue queue_id db.queues)

-- What the body of a transaction asks for: to return what was loaded, or to write rows.
pub data Change : Type 0 where
  unchanged : Change
  rewritten : QueueSnapshot → Change

abbrev pub put_rows : QueueSnapshot → List QueueSnapshot → List QueueSnapshot
put_rows q queues = update_where (λ r. r.queue_id == q.queue_id) (λ _. q) queues

abbrev pub bumped : QueueSnapshot → QueueSnapshot
bumped q = record q { revision = q.revision + 1 }

abbrev pub commit : Database → QueueSnapshot → Change → Result (QueueSnapshot × Database)
commit db q unchanged = ok (q, db)
commit db q (rewritten rows) =
    if consistent (bumped rows)
    then ok (bumped rows, record db { queues = put_rows (bumped rows) db.queues })
    else err Fault.queue_store_error

unfoldable pub transact :
    Database → String → (QueueSnapshot → Result Change) → Result (QueueSnapshot × Database)
transact db queue_id body = do q ← required db queue_id; change ← body q; commit db q change
