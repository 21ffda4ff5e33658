-- ===== src/QueueStore/NativeRows.antt =====
-- tellyq/queue_store.py: the native part of a snapshot, `_validate_native_history`, and the whole
-- test that `_load` makes.
use tellyq.Prelude.{
  String, Bool, false, Option, none, some, List, [], ◌∷◌, ◌==◌, ◌!=◌, nat_eq, string_eq, bool_eq,
  option_eq, ◌&&◌, ◌||◌, not, leb, is_some, is_empty, any, all, first, count_if,
}
use tellyq.Values.{content_ref_eq, before}
use tellyq.Queue.{
  NativeQueueAction, native_queue_action_eq, ExecutionState, execution_state_eq,
  NativeReservationState, native_reservation_state_eq, NativeReservation, NativeOperation,
  QueueMode, AttemptOrigin, attempt_origin_eq, QueueIntent, queue_intent_eq, QueueEntry,
  QueueAttempt, QueueSnapshot,
}
use tellyq.QueueStore.Rows.{position_ok, attempts_ok, commands_ok}

abbrev pub attempt_named : QueueSnapshot → String → Option QueueAttempt
attempt_named q attempt_id = first (λ a. a.attempt_id == attempt_id) q.attempts

-- The item with the second identity stands right behind the one with the first, and has other
-- content.
abbrev pub follows_item : String → String → List QueueEntry → Bool
follows_item source successor [] = false
follows_item source successor (item ∷ []) = false
follows_item source successor (item ∷ next ∷ items) =
    (item.item_id == source && next.item_id == successor && item.content != next.content)
    || follows_item source successor (next ∷ items)

abbrev pub is_enqueue : NativeReservation → NativeOperation → Bool
is_enqueue r o = o.reservation_id == r.reservation_id && o.action == NativeQueueAction.play_next

abbrev pub is_clear : NativeReservation → NativeOperation → Bool
is_clear r o = o.reservation_id == r.reservation_id && o.action == NativeQueueAction.clear

abbrev pub enqueue_ok : NativeReservation → Option NativeOperation → Bool
enqueue_ok r none = false
enqueue_ok r (some o) =
    o.scope_attempt_id == r.predecessor_attempt_id
    && o.generation == r.generation
    && o.playback_id == r.predecessor_playback_id

abbrev pub operation_ok : QueueSnapshot → NativeReservation → NativeOperation → Bool
operation_ok q r o =
    o.reservation_id != r.reservation_id
    || (leb o.generation q.generation
        && leb r.generation o.generation
        && not (before o.updated_at o.created_at)
        && not (before o.created_at r.created_at)
        && (o.scope_attempt_id == r.predecessor_attempt_id
            || o.scope_attempt_id == r.successor_attempt_id))

abbrev pub is_pending_item : Option QueueEntry → Bool
is_pending_item none = false
is_pending_item (some item) = item.intent == QueueIntent.pending

abbrev pub waiting_ok : QueueSnapshot → NativeReservation → QueueAttempt → Bool
waiting_ok q r source =
    r.state != NativeReservationState.reserved
    || (not (is_some (attempt_named q r.successor_attempt_id))
        && not (is_some r.adoption_decision_id)
        && is_pending_item (first (λ i. i.item_id == r.successor_item_id) q.items)
        && q.current_item_id == some source.item_id)

abbrev pub was_sent : Option NativeOperation → Bool
was_sent none = false
was_sent (some o) =
    o.state == ExecutionState.dispatched
    || o.state == ExecutionState.acknowledged
    || o.state == ExecutionState.uncertain

abbrev pub is_adopted_by : NativeReservation → Option QueueAttempt → Bool
is_adopted_by r none = false
is_adopted_by r (some successor) =
    successor.item_id == r.successor_item_id
    && successor.origin == AttemptOrigin.native_observed
    && successor.reservation_id == some r.reservation_id

abbrev pub adoption_ok : QueueSnapshot → NativeReservation → Bool
adoption_ok q r =
    let successor = attempt_named q r.successor_attempt_id in
    (r.state != NativeReservationState.adopted || is_some r.adoption_decision_id)
    && (r.state == NativeReservationState.session_exit_observed) == is_some r.exit_decision_id
    && (not (is_some r.adoption_decision_id)
        || (is_adopted_by r successor && was_sent (first (is_enqueue r) q.native_operations)))
    && (is_some r.adoption_decision_id || not (is_some successor))

abbrev pub reservation_from : QueueSnapshot → NativeReservation → Option QueueAttempt → Bool
reservation_from q r none = false
reservation_from q r (some source) =
    leb r.generation q.generation
    && follows_item source.item_id r.successor_item_id q.items
    && count_if (is_enqueue r) q.native_operations == 1
    && enqueue_ok r (first (is_enqueue r) q.native_operations)
    && leb (count_if (is_clear r) q.native_operations) 1
    && all (operation_ok q r) q.native_operations
    && waiting_ok q r source
    && adoption_ok q r

abbrev pub reservation_ok : QueueSnapshot → NativeReservation → Bool
reservation_ok q r = reservation_from q r (attempt_named q r.predecessor_attempt_id)

abbrev pub provenance_ok : QueueSnapshot → QueueAttempt → Bool
provenance_ok q a =
    a.origin != AttemptOrigin.native_observed
    || any
        (λ r.
          some r.reservation_id == a.reservation_id
          && r.successor_attempt_id == a.attempt_id
          && is_some r.adoption_decision_id)
        q.reservations

abbrev pub native_history : QueueMode → QueueSnapshot → Bool
native_history QueueMode.legacy q =
    is_empty q.reservations
    && is_empty q.native_operations
    && not q.reconciliation_required
    && not (any (λ a. a.origin != AttemptOrigin.local_start) q.attempts)
native_history QueueMode.native q =
    leb (count_if (λ r. r.state == NativeReservationState.reserved) q.reservations) 1
    && all (reservation_ok q) q.reservations
    && all (provenance_ok q) q.attempts

unfoldable pub native_ok : QueueSnapshot → Bool
native_ok q = native_history q.mode q

-- `_load` returns the snapshot, and raises nothing.
unfoldable pub consistent : QueueSnapshot → Bool
consistent q = native_ok q && position_ok q && attempts_ok q && commands_ok q
