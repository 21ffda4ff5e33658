-- ===== src/QueueStore/Stagings.antt =====
-- tellyq/queue_store.py: a reservation of the next item with its native operation, and the clearing
-- of one.
use tellyq.Prelude.{
  ℕ, String, Bool, false, Option, none, some, List, [], ◌∷◌, ◌++◌, Result, Fault, ok, raise_if,
  require, ◌>>=◌, ◌>>◌, ◌==◌, ◌!=◌, nat_eq, string_eq, option_eq, ◌&&◌, ◌||◌, not, any, first, last,
  if◌then◌else◌,
}
use tellyq.Values.{content_ref_eq, Datetime, before}
use tellyq.Queue.{
  NativeQueueAction, native_queue_action_eq, NativeQueueRequest, is_unresolved,
  NativeReservationState, native_reservation_state_eq, NativeReservation, NativeOperation,
  QueueIntent, queue_intent_eq, QueueEntry, QueueAttempt, QueueSnapshot,
}
use tellyq.QueueStore.Rows.{Database}
use tellyq.QueueStore.Transactions.{check_identity, check_timestamp, Change, transact}
use tellyq.QueueStore.Controls.{native_fence}
use tellyq.QueueStore.NativeRequests.{
  find_reservation, check_native_match, add_operation, reservation_taken, staged_differs,
}

-- The item with the identity, and the one behind it.
abbrev pub item_and_next : String → List QueueEntry → Option (QueueEntry × Option QueueEntry)
item_and_next item_id [] = none
item_and_next item_id (item ∷ []) = if item.item_id == item_id then some (item, none) else none
item_and_next item_id (item ∷ next ∷ items) =
    if item.item_id == item_id then some (item, some next) else item_and_next item_id (next ∷ items)

unfoldable pub unreservable : QueueSnapshot → Bool
unreservable q =
    q.cancellation_requested
    || q.reconciliation_required
    || any (λ r. r.state == NativeReservationState.reserved) q.reservations

abbrev pub is_pending_next : String → Option QueueEntry → Bool
is_pending_next item_id none = false
is_pending_next item_id (some next) = next.item_id == item_id && next.intent == QueueIntent.pending

unfoldable pub unstageable :
    QueueSnapshot → QueueAttempt → Option QueueEntry → String → String → NativeQueueRequest → Bool
unstageable q source next item_id attempt_id request =
    source.intent != QueueIntent.current
    || source.attempt_id != request.scope.request.attempt_id
    || not (is_pending_next item_id next)
    || any (λ i. i.intent == QueueIntent.needs_attention) q.items
    || any (λ c. is_unresolved c.state) q.commands
    || any (λ a. a.attempt_id == attempt_id) q.attempts

abbrev pub new_reservation :
    QueueSnapshot
    → QueueAttempt
    → String
    → String
    → String
    → String
    → NativeQueueRequest
    → Datetime
    → NativeReservation
new_reservation q source item_id reservation_id attempt_id application_id request at = record {
  reservation_id = reservation_id;
  predecessor_attempt_id = source.attempt_id;
  successor_item_id = item_id;
  successor_attempt_id = attempt_id;
  application_id = application_id;
  session_id = request.scope.session_id;
  predecessor_playback_id = request.playback_id;
  generation = q.generation;
  created_at = at;
  state = NativeReservationState.reserved;
  adoption_decision_id = none;
  exit_decision_id = none;
}

abbrev pub reserved_rows : QueueSnapshot → NativeReservation → QueueSnapshot
reserved_rows q r = record q { reservations = q.reservations ++ (r ∷ []) }

-- Two items in a row with one content could not be told apart.
unfoldable pub repeats_content : QueueAttempt → QueueEntry → String → NativeQueueRequest → Bool
repeats_content source item item_id request =
    source.item_id == item_id || some item.content == request.successor

unfoldable pub reserve :
    Database
    → QueueSnapshot
    → QueueAttempt
    → QueueEntry
    → NativeReservation
    → NativeQueueRequest
    → Datetime
    → Result Change
reserve db q source item r request at = do
  check_native_match q r request
  raise_if (repeats_content source item r.successor_item_id request) Fault.queue_store_error
  raise_if (reservation_taken db q.queue_id r) Fault.queue_store_error
  add_operation db q r.reservation_id request at (reserved_rows q r)

unfoldable pub new_staging :
    Database
    → String
    → String
    → String
    → String
    → NativeQueueRequest
    → Datetime
    → ℕ
    → ℕ
    → QueueSnapshot
    → Result Change
new_staging db item_id reservation_id attempt_id application_id request at expected generation q =
    do
      native_fence expected generation q
      raise_if (unreservable q) Fault.queue_store_error
      source ← require (last q.attempts) Fault.queue_store_error
      raise_if (before at source.created_at) Fault.value_error
      place ← require (item_and_next source.item_id q.items) Fault.stop_iteration
      raise_if (unstageable q source place.1 item_id attempt_id request) Fault.queue_store_error
      reserve db q source place.0
          (new_reservation q source item_id reservation_id attempt_id application_id request at)
          request at

unfoldable pub same_staging :
    QueueSnapshot
    → NativeOperation
    → String
    → String
    → String
    → NativeQueueRequest
    → ℕ
    → Result Change
same_staging q existing item_id reservation_id attempt_id request generation = do
  r ← find_reservation q reservation_id
  check_native_match q r request
  raise_if (staged_differs q r existing item_id attempt_id request generation)
      Fault.revision_conflict
  ok Change.unchanged

unfoldable pub operation_known : QueueSnapshot → String → Option NativeOperation
operation_known q operation_id = first (λ o. o.operation_id == operation_id) q.native_operations

abbrev pub staging_of :
    Option NativeOperation
    → Database
    → String
    → String
    → String
    → String
    → NativeQueueRequest
    → Datetime
    → ℕ
    → ℕ
    → QueueSnapshot
    → Result Change
staging_of none db item_id reservation_id attempt_id application_id request at expected generation
      q =
    new_staging db item_id reservation_id attempt_id application_id request at expected generation q
staging_of (some existing) db item_id reservation_id attempt_id application_id request at expected
      generation q =
    same_staging q existing item_id reservation_id attempt_id request generation

unfoldable pub staging_body :
    Database
    → String
    → String
    → String
    → String
    → NativeQueueRequest
    → Datetime
    → ℕ
    → ℕ
    → QueueSnapshot
    → Result Change
staging_body db item_id reservation_id attempt_id application_id request at expected generation q =
    staging_of (operation_known q request.operation_id) db item_id reservation_id attempt_id
      application_id request at expected generation q

unfoldable pub prepare_native_successor :
    Database
    → String
    → String
    → String
    → String
    → NativeQueueRequest
    → Datetime
    → ℕ
    → ℕ
    → Result (QueueSnapshot × Database)
prepare_native_successor db queue_id item_id reservation_id attempt_id request at expected
      generation =
    do
      check_identity reservation_id
      check_identity item_id
      check_identity attempt_id
      check_identity request.operation_id
      raise_if (request.action != NativeQueueAction.play_next) Fault.value_error
      application_id ← require request.scope.application_id Fault.value_error
      check_timestamp at
      transact db queue_id (
          staging_body db item_id reservation_id attempt_id application_id request at expected
            generation)

unfoldable pub cleared_differs :
    QueueSnapshot → NativeOperation → String → NativeQueueRequest → ℕ → Bool
cleared_differs q existing reservation_id request generation =
    existing.reservation_id != reservation_id
    || existing.action != request.action
    || existing.scope_attempt_id != request.scope.request.attempt_id
    || existing.connection_generation != request.scope.connection_generation
    || existing.playback_id != request.playback_id
    || existing.generation != generation
    || q.generation != generation

unfoldable pub unclearable : QueueSnapshot → NativeReservation → Bool
unclearable q r =
    not q.cancellation_requested || r.state == NativeReservationState.session_exit_observed

unfoldable pub new_clearing :
    Database
    → NativeReservation
    → NativeQueueRequest
    → Datetime
    → ℕ
    → ℕ
    → QueueSnapshot
    → Result Change
new_clearing db r request at expected generation q = do
  native_fence expected generation q
  raise_if (unclearable q r) Fault.queue_store_error
  raise_if (before at r.created_at) Fault.value_error
  add_operation db q r.reservation_id request at q

abbrev pub clearing_of :
    Option NativeOperation
    → Database
    → NativeReservation
    → NativeQueueRequest
    → Datetime
    → ℕ
    → ℕ
    → QueueSnapshot
    → Result Change
clearing_of none db r request at expected generation q =
    new_clearing db r request at expected generation q
clearing_of (some existing) db r request at expected generation q = do
  raise_if (cleared_differs q existing r.reservation_id request generation) Fault.revision_conflict
  ok Change.unchanged

unfoldable pub clear_body :
    Database → String → NativeQueueRequest → Datetime → ℕ → ℕ → QueueSnapshot → Result Change
clear_body db reservation_id request at expected generation q = do
  r ← find_reservation q reservation_id
  check_native_match q r request
  clearing_of (operation_known q request.operation_id) db r request at expected generation q

unfoldable pub prepare_native_clear :
    Database
    → String
    → String
    → NativeQueueRequest
    → Datetime
    → ℕ
    → ℕ
    → Result (QueueSnapshot × Database)
prepare_native_clear db queue_id reservation_id request at expected generation = do
  raise_if (request.action != NativeQueueAction.clear) Fault.value_error
  check_timestamp at
  transact db queue_id (clear_body db reservation_id request at expected generation)
