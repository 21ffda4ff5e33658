-- ===== src/QueuePolicy/Queues.antt =====
-- tellyq/domain/queue_policy.py: the consistency of a snapshot, whoever built it.
use tellyq.Prelude.{
  String, Bool, true, false, Option, none, some, List, [], ◌∷◌, ◌==◌, ◌!=◌, nat_eq, string_eq,
  option_eq, ◌&&◌, ◌||◌, not, ltb, is_some, is_empty, any, all, first, count_if, last, distinct_by,
  if◌then◌else◌,
}
use tellyq.Values.{CommandAction, command_action_eq}
use tellyq.Queue.{
  NativeReservation, NativeReservationState, native_reservation_state_eq, QueueMode, queue_mode_eq,
  AttemptOrigin, attempt_origin_eq, QueueIntent, queue_intent_eq, QueueEntry, QueueAttempt,
  QueueSnapshot,
}

-- `_SETTLED`
abbrev pub is_settled : QueueIntent → Bool
is_settled intent = intent == QueueIntent.finished || intent == QueueIntent.skipped

-- No two rows have one key, every command has an attempt, and none is from a later generation.
unfoldable pub keyed : QueueSnapshot → Bool
keyed queue =
    queue.queue_id != ""
    && not (is_empty queue.items)
    && distinct_by (λ i. i.item_id) queue.items
    && distinct_by (λ a. a.attempt_id) queue.attempts
    && distinct_by (λ a. a.item_id) queue.attempts
    && distinct_by (λ c. c.command_id) queue.commands
    && all (λ c. any (λ a. a.attempt_id == c.attempt_id) queue.attempts) queue.commands
    && all (λ c. not (ltb queue.generation c.generation)) queue.commands

abbrev pub current_items : List QueueEntry → List QueueEntry
current_items [] = []
current_items (item ∷ items) =
    let rest = current_items items in
    if item.intent == QueueIntent.current then item ∷ rest else rest

-- At most one current item, which is the one that the queue names.
abbrev pub one_current : Option String → List QueueEntry → Bool
one_current current [] = true
one_current current (item ∷ []) = some item.item_id == current
one_current current (item ∷ other ∷ items) = false

abbrev positioned_at : QueueSnapshot → Option QueueAttempt → Bool
positioned_at queue (some attempt) = queue.current_item_id == some attempt.item_id
positioned_at queue none =
    not (is_some queue.current_item_id) && is_empty (current_items queue.items)

-- The queue's position is the item of its latest attempt.
unfoldable pub positioned : QueueSnapshot → Bool
positioned queue =
    one_current queue.current_item_id (current_items queue.items)
    && positioned_at queue (last queue.attempts)

-- Once an item is pending, all that follow are.
abbrev pub pending_last : Bool → List QueueEntry → Bool
pending_last seen [] = true
pending_last seen (item ∷ items) =
    let is_pending = item.intent == QueueIntent.pending in
    (is_pending || not seen) && pending_last (seen || is_pending) items

abbrev reserved_for : QueueAttempt → NativeReservation → Bool
reserved_for attempt r =
    some r.reservation_id == attempt.reservation_id
    && r.successor_attempt_id == attempt.attempt_id
    && r.successor_item_id == attempt.item_id
    && (r.state == NativeReservationState.adopted
        || r.state == NativeReservationState.session_exit_observed)
    && is_some r.adoption_decision_id

unfoldable pub valid_attempt_origin : QueueSnapshot → QueueAttempt → Bool
valid_attempt_origin queue attempt =
    let starts =
      count_if (λ c. c.attempt_id == attempt.attempt_id && c.action == CommandAction.start)
        queue.commands in
    if attempt.origin == AttemptOrigin.local_start
    then starts == 1 && not (is_some attempt.reservation_id)
    else queue.mode == QueueMode.native
      && attempt.origin == AttemptOrigin.native_observed
      && starts == 0
      && any (reserved_for attempt) queue.reservations

-- `bool(decision_id)`: present and not empty
abbrev pub is_decided : Option String → Bool
is_decided none = false
is_decided (some decision_id) = decision_id != ""

abbrev matches_item : QueueAttempt → Option QueueEntry → Bool
matches_item attempt none = false
matches_item attempt (some item) = attempt.intent == item.intent

unfoldable pub valid_attempt : QueueSnapshot → QueueAttempt → Bool
valid_attempt queue attempt =
    matches_item attempt (first (λ i. i.item_id == attempt.item_id) queue.items)
    && attempt.intent != QueueIntent.pending
    && (attempt.intent != QueueIntent.current || not (is_some attempt.decision_id))
    && (not (is_settled attempt.intent) || is_decided attempt.decision_id)
    && valid_attempt_origin queue attempt

unfoldable pub valid_queue : QueueSnapshot → Bool
valid_queue queue =
    keyed queue
    && positioned queue
    && pending_last false queue.items
    && all (valid_attempt queue) queue.attempts
