-- ===== src/QueueStore/NativeRequests.antt =====
-- tellyq/queue_store.py: native operations against their reservations, and the staging of a
-- successor that the receiver is to play next.
use tellyq.Prelude.{
  ℕ, String, Bool, Option, some, [], ◌∷◌, ◌++◌, Result, Fault, ok, raise_if, require, ◌>>=◌, ◌>>◌,
  ◌==◌, ◌!=◌, nat_eq, string_eq, option_eq, ◌&&◌, ◌||◌, not, any, first, if◌then◌else◌,
}
use tellyq.Values.{content_ref_eq, playback_target_eq, Datetime}
use tellyq.Queue.{
  NativeQueueAction, native_queue_action_eq, NativeQueueRequest, ExecutionState,
  native_reservation_state_eq, NativeReservation, NativeOperation, queue_intent_eq, QueueEntry,
  QueueAttempt, QueueSnapshot,
}
use tellyq.QueueStore.Rows.{Database}
use tellyq.QueueStore.NativeRows.{attempt_named}
use tellyq.QueueStore.Transactions.{Change}

-- `_reservation` and `_native_operation`
unfoldable pub find_reservation : QueueSnapshot → String → Result NativeReservation
find_reservation q reservation_id =
    require (first (λ r. r.reservation_id == reservation_id) q.reservations) Fault.queue_store_error

unfoldable pub find_operation : QueueSnapshot → String → Result NativeOperation
find_operation q operation_id =
    require (first (λ o. o.operation_id == operation_id) q.native_operations)
      Fault.queue_store_error

abbrev pub item_named : QueueSnapshot → String → Option QueueEntry
item_named q item_id = first (λ i. i.item_id == item_id) q.items

unfoldable pub scope_differs :
    QueueSnapshot → NativeReservation → NativeQueueRequest → QueueAttempt → QueueEntry → Bool
scope_differs q r request source item =
    let scope = request.scope in
    let current = scope.request in
    not (current.attempt_id == source.attempt_id || current.attempt_id == r.successor_attempt_id)
    || current.queue_item_id != item.item_id
    || current.content != item.content
    || current.target != q.target
    || scope.application_id != some r.application_id
    || scope.session_id != r.session_id

-- A request to play the successor names it, from the scope and the media of its predecessor.
unfoldable pub check_staged :
    QueueSnapshot → NativeReservation → NativeQueueRequest → QueueAttempt → Result (Unit {0})
check_staged q r request source = do
  raise_if
      (request.scope.request.attempt_id != source.attempt_id
        || request.playback_id != r.predecessor_playback_id)
      Fault.queue_store_error
  item ← require (item_named q r.successor_item_id) Fault.stop_iteration
  raise_if (request.successor != some item.content) Fault.queue_store_error

unfoldable pub check_native_match :
    QueueSnapshot → NativeReservation → NativeQueueRequest → Result (Unit {0})
check_native_match q r request = do
  source ← require (attempt_named q r.predecessor_attempt_id) Fault.stop_iteration
  let expected =
      if request.scope.request.attempt_id == source.attempt_id
      then source.item_id
      else r.successor_item_id
  item ← require (item_named q expected) Fault.stop_iteration
  raise_if (scope_differs q r request source item) Fault.queue_store_error
  if request.action == NativeQueueAction.play_next then check_staged q r request source else ok tt

abbrev pub pending_operation :
    QueueSnapshot → String → NativeQueueRequest → Datetime → NativeOperation
pending_operation q reservation_id request at = record {
  operation_id = request.operation_id;
  reservation_id = reservation_id;
  action = request.action;
  state = ExecutionState.pending;
  generation = q.generation;
  created_at = at;
  updated_at = at;
  scope_attempt_id = request.scope.request.attempt_id;
  connection_generation = request.scope.connection_generation;
  playback_id = request.playback_id;
}

-- Keys of the table of native operations: the identity, and one action for each reservation.
unfoldable pub operation_taken : Database → String → NativeQueueRequest → Bool
operation_taken db reservation_id request =
    any
      (λ q.
        any
          (λ o.
            o.operation_id == request.operation_id
            || (o.reservation_id == reservation_id && o.action == request.action))
          q.native_operations)
      db.queues

-- `_insert_native_operation` of a loaded snapshot, on the rows written so far
unfoldable pub add_operation :
    Database
    → QueueSnapshot
    → String
    → NativeQueueRequest
    → Datetime
    → QueueSnapshot
    → Result Change
add_operation db q reservation_id request at rows = do
  raise_if (operation_taken db reservation_id request) Fault.queue_store_error
  ok (
      Change.rewritten (record rows {
        native_operations =
            rows.native_operations ++ (pending_operation q reservation_id request at ∷ []);
      }))

-- Keys of the table of reservations.
unfoldable pub reservation_taken : Database → String → NativeReservation → Bool
reservation_taken db queue_id r =
    any
      (λ q.
        any
          (λ s.
            s.reservation_id == r.reservation_id
            || s.successor_attempt_id == r.successor_attempt_id
            || (q.queue_id == queue_id
                && (s.predecessor_attempt_id == r.predecessor_attempt_id
                    || s.successor_item_id == r.successor_item_id)))
          q.reservations)
      db.queues

-- An earlier operation with this identity was for the same staging, by the same owner.
unfoldable pub staged_differs :
    QueueSnapshot
    → NativeReservation
    → NativeOperation
    → String
    → String
    → NativeQueueRequest
    → ℕ
    → Bool
staged_differs q r existing item_id attempt_id request generation =
    existing.reservation_id != r.reservation_id
    || existing.action != request.action
    || r.successor_item_id != item_id
    || r.successor_attempt_id != attempt_id
    || existing.connection_generation != request.scope.connection_generation
    || existing.generation != generation
    || q.generation != generation
