-- ===== src/QueueStore/Exits.antt =====
-- tellyq/queue_store.py: the observed exit of a canceled session, and the import of a queue in the
-- earlier format, as `load_queue` of tellyq/state.py has read it.
use tellyq.Prelude.{
  ℕ, String, Bool, true, Option, none, some, List, [], ◌∷◌, ◌++◌, Result, Fault, ok, raise_if,
  ◌>>=◌, ◌>>◌, ◌==◌, ◌!=◌, nat_eq, string_eq, option_eq, not, any, update_where, is_some,
  if◌then◌else◌,
}
use tellyq.Values.{ContentKind, check_content, check_target, Datetime, before}
use tellyq.Queue.{
  NativeReservationState, NativeReservation, QueueMode, QueueIntent, QueueEntry, check_entry,
  QueueSnapshot,
}
use tellyq.QueueStore.Rows.{Database, find_queue}
use tellyq.QueueStore.Transactions.{
  check_identity, check_timestamp, load_found, required, Change, transact,
}
use tellyq.QueueStore.Starts.{new_queue, check_items, with_queue}
use tellyq.QueueStore.Controls.{native_fence}
use tellyq.QueueStore.NativeRequests.{find_reservation}

abbrev pub exit_reservation : String → NativeReservation → NativeReservation
exit_reservation decision_id r = record r {
  state = NativeReservationState.session_exit_observed;
  exit_decision_id = some decision_id;
}

abbrev pub exited_rows : QueueSnapshot → NativeReservation → String → QueueSnapshot
exited_rows q r decision_id = record q {
  reservations =
      update_where (λ s. s.reservation_id == r.reservation_id) (exit_reservation decision_id)
        q.reservations;
}

unfoldable pub exit_taken : Database → String → Bool
exit_taken db decision_id =
    any (λ q. any (λ s. s.exit_decision_id == some decision_id) q.reservations) db.queues

unfoldable pub new_exit :
    Database → QueueSnapshot → NativeReservation → Datetime → String → Result Change
new_exit db q r at decision_id = do
  raise_if (not q.cancellation_requested) Fault.queue_store_error
  raise_if (before at r.created_at) Fault.value_error
  raise_if (exit_taken db decision_id) Fault.queue_store_error
  ok (Change.rewritten (exited_rows q r decision_id))

abbrev pub exit_of :
    Option String → Database → QueueSnapshot → NativeReservation → Datetime → String → Result Change
exit_of none db q r at decision_id = new_exit db q r at decision_id
exit_of (some given) db q r at decision_id = do
  raise_if (given != decision_id) Fault.queue_store_error
  ok Change.unchanged

unfoldable pub exit_body :
    Database → String → Datetime → String → ℕ → ℕ → QueueSnapshot → Result Change
exit_body db reservation_id at decision_id expected generation q = do
  r ← find_reservation q reservation_id
  native_fence expected generation q
  exit_of r.exit_decision_id db q r at decision_id

unfoldable pub record_native_session_exit :
    Database → String → String → Datetime → String → ℕ → ℕ → Result (QueueSnapshot × Database)
record_native_session_exit db queue_id reservation_id at decision_id expected generation = do
  check_timestamp at
  check_identity decision_id
  transact db queue_id (exit_body db reservation_id at decision_id expected generation)

-- The one item of a queue in the earlier format, its device, and the digest of its text.
pub record LegacyQueue : Type 0 where
  pub device_id : String
  pub item_id : String
  pub service : String
  pub content_id : String
  pub title : Option String
  pub state : String
  pub digest : String

unfoldable pub legacy_intent : String → QueueIntent
legacy_intent state =
    if state == "queued"
    then QueueIntent.pending
    else if state == "stopped"
    then QueueIntent.stopped
    else if state == "finished"
    then QueueIntent.finished
    else QueueIntent.needs_attention

unfoldable pub legacy_entry : LegacyQueue → Result QueueEntry
legacy_entry legacy = do
  content ← check_content (record {
    provider = legacy.service;
    content_id = legacy.content_id;
    kind = ContentKind.video;
    title = legacy.title;
  })
  check_entry
      (record { item_id = legacy.item_id; content = content; intent = legacy_intent legacy.state })

abbrev pub digest_imported : String → List (String × String) → Option String
digest_imported queue_id [] = none
digest_imported queue_id ((imported, digest) ∷ imports) =
    if imported == queue_id then some digest else digest_imported queue_id imports

abbrev pub imported_database : Database → QueueSnapshot → String → String → Database
imported_database db q queue_id digest = record (with_queue db q) {
  imports = db.imports ++ ((queue_id, digest) ∷ []);
}

unfoldable pub new_import :
    Database → String → LegacyQueue → QueueEntry → Result (QueueSnapshot × Database)
new_import db queue_id legacy entry = do
  found ← load_found (find_queue queue_id db.queues)
  raise_if (is_some found) Fault.revision_conflict
  target ← check_target (record { device_id = legacy.device_id; route = "cast"; name = none })
  check_identity queue_id
  check_items true (entry ∷ [])
  let rows = new_queue queue_id target (entry ∷ []) QueueMode.legacy
  q ← required (imported_database db rows queue_id legacy.digest) queue_id
  ok (q, imported_database db rows queue_id legacy.digest)

abbrev pub import_of :
    Option String → Database → String → LegacyQueue → QueueEntry → Result (QueueSnapshot × Database)
import_of none db queue_id legacy entry = new_import db queue_id legacy entry
import_of (some digest) db queue_id legacy entry = do
  raise_if (digest != legacy.digest) Fault.queue_store_error
  q ← required db queue_id
  ok (q, db)

unfoldable pub import_legacy : Database → String → LegacyQueue → Result (QueueSnapshot × Database)
import_legacy db queue_id legacy = do
  entry ← legacy_entry legacy
  import_of (digest_imported queue_id db.imports) db queue_id legacy entry
