-- ===== src/QueueStore/Starts.antt =====
-- tellyq/queue_store.py: new queues, and the start of an item. The primary keys and the unique
-- columns of the schema are tests here; what breaks one is an error of the store.
use tellyq.Prelude.{
  ℕ, String, Bool, true, false, Option, none, some, List, [], ◌∷◌, ◌++◌, Result, Fault, ok,
  raise_if, require, ◌>>=◌, ◌>>◌, ◌==◌, ◌!=◌, nat_eq, string_eq, option_eq, ◌&&◌, ◌||◌, not, any,
  first, is_some, is_empty, distinct_by, update_where, if◌then◌else◌,
}
use tellyq.Values.{PlaybackTarget, CommandAction, command_action_eq, Datetime}
use tellyq.Queue.{
  ExecutionState, QueueMode, queue_mode_eq, AttemptOrigin, QueueIntent, queue_intent_eq, QueueEntry,
  QueueAttempt, JournalCommand, QueueSnapshot,
}
use tellyq.QueueStore.Rows.{Database, find_queue}
use tellyq.QueueStore.Transactions.{
  check_identity, check_timestamp, check_revision, load_found, required, Change, transact,
}

abbrev pub new_queue : String → PlaybackTarget → List QueueEntry → QueueMode → QueueSnapshot
new_queue queue_id target items mode = record {
  queue_id = queue_id;
  target = target;
  revision = 0;
  generation = 0;
  current_item_id = none;
  cancellation_requested = any (λ i. i.intent == QueueIntent.needs_attention) items;
  items = items;
  attempts = [];
  commands = [];
  mode = mode;
  reconciliation_required = false;
  reservations = [];
  native_operations = [];
}

unfoldable pub check_items : Bool → List QueueEntry → Result (Unit {0})
check_items imported items = do
  raise_if (is_empty items) Fault.value_error
  raise_if (not (distinct_by (λ i. i.item_id) items)) Fault.value_error
  raise_if (not imported && any (λ i. i.intent != QueueIntent.pending) items) Fault.value_error

abbrev pub with_queue : Database → QueueSnapshot → Database
with_queue db q = record db { queues = db.queues ++ (q ∷ []) }

unfoldable pub create :
    Database
    → String
    → PlaybackTarget
    → List QueueEntry
    → QueueMode
    → Result (QueueSnapshot × Database)
create db queue_id target items mode = do
  found ← load_found (find_queue queue_id db.queues)
  raise_if (is_some found) Fault.revision_conflict
  check_identity queue_id
  check_items false items
  q ← required (with_queue db (new_queue queue_id target items mode)) queue_id
  ok (q, with_queue db (new_queue queue_id target items mode))

-- The command is in the journal with the same attempt and action.
abbrev pub duplicate_of : Option JournalCommand → String → CommandAction → Result Bool
duplicate_of none attempt_id action = ok false
duplicate_of (some c) attempt_id action = do
  raise_if (c.attempt_id != attempt_id || c.action != action) Fault.queue_store_error
  ok true

unfoldable pub duplicate : QueueSnapshot → String → String → CommandAction → Result Bool
duplicate q command_id attempt_id action =
    duplicate_of (first (λ c. c.command_id == command_id) q.commands) attempt_id action

unfoldable pub command_taken : Database → String → Bool
command_taken db command_id = any (λ q. any (λ c. c.command_id == command_id) q.commands) db.queues

unfoldable pub attempt_taken : Database → String → Bool
attempt_taken db attempt_id = any (λ q. any (λ a. a.attempt_id == attempt_id) q.attempts) db.queues

abbrev pub pending_command :
    QueueSnapshot → String → String → CommandAction → Datetime → JournalCommand
pending_command q attempt_id command_id action at = record {
  command_id = command_id;
  attempt_id = attempt_id;
  action = action;
  state = ExecutionState.pending;
  generation = q.generation;
  created_at = at;
  updated_at = at;
}

-- `_command` of a loaded snapshot, on the rows written so far
unfoldable pub add_command :
    Database
    → QueueSnapshot
    → String
    → String
    → CommandAction
    → Datetime
    → QueueSnapshot
    → Result Change
add_command db q attempt_id command_id action at rows = do
  raise_if (command_taken db command_id) Fault.queue_store_error
  ok (
      Change.rewritten (record rows {
        commands = rows.commands ++ (pending_command q attempt_id command_id action at ∷ []);
      }))

abbrev pub set_intent : String → QueueIntent → List QueueEntry → List QueueEntry
set_intent item_id intent items =
    update_where (λ i. i.item_id == item_id) (λ i. record i { intent = intent }) items

abbrev pub started_attempt : String → String → Datetime → QueueAttempt
started_attempt item_id attempt_id at = record {
  attempt_id = attempt_id;
  item_id = item_id;
  intent = QueueIntent.current;
  created_at = at;
  decision_id = none;
  origin = AttemptOrigin.local_start;
  reservation_id = none;
}

abbrev pub started_rows : QueueSnapshot → String → String → Datetime → QueueSnapshot
started_rows q item_id attempt_id at = record q {
  items = set_intent item_id QueueIntent.current q.items;
  current_item_id = some item_id;
  attempts = q.attempts ++ (started_attempt item_id attempt_id at ∷ []);
}

-- The attempt that the command names was for the same item.
unfoldable pub same_start : QueueSnapshot → String → String → Result Change
same_start q item_id attempt_id = do
  attempt ← require (first (λ a. a.attempt_id == attempt_id) q.attempts) Fault.stop_iteration
  raise_if (attempt.item_id != item_id) Fault.queue_store_error
  ok Change.unchanged

unfoldable pub native_begun : QueueSnapshot → Bool
native_begun q =
    q.mode == QueueMode.native && (not (is_empty q.attempts) || q.reconciliation_required)

unfoldable pub occupied : QueueSnapshot → Bool
occupied q =
    q.cancellation_requested
    || any (λ i. i.intent == QueueIntent.current || i.intent == QueueIntent.needs_attention) q.items

unfoldable pub is_offered : QueueSnapshot → String → Bool
is_offered q item_id = any (λ i. i.item_id == item_id && i.intent == QueueIntent.pending) q.items

unfoldable pub new_start :
    Database → String → String → String → Datetime → ℕ → QueueSnapshot → Result Change
new_start db item_id attempt_id command_id at expected q = do
  check_revision q expected
  raise_if (native_begun q) Fault.queue_store_error
  raise_if (occupied q) Fault.queue_store_error
  raise_if (not (is_offered q item_id)) Fault.queue_store_error
  raise_if (attempt_taken db attempt_id) Fault.queue_store_error
  add_command db q attempt_id command_id CommandAction.start at
      (started_rows q item_id attempt_id at)

unfoldable pub start_body :
    Database → String → String → String → Datetime → ℕ → QueueSnapshot → Result Change
start_body db item_id attempt_id command_id at expected q = do
  known ← duplicate q command_id attempt_id CommandAction.start
  if known
      then same_start q item_id attempt_id
      else new_start db item_id attempt_id command_id at expected q

unfoldable pub prepare_start :
    Database → String → String → String → String → Datetime → ℕ → Result (QueueSnapshot × Database)
prepare_start db queue_id item_id attempt_id command_id at expected = do
  check_identity queue_id
  check_identity item_id
  check_identity attempt_id
  check_identity command_id
  check_timestamp at
  transact db queue_id (start_body db item_id attempt_id command_id at expected)
