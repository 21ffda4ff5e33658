-- ===== src/QueueStore/Rows.antt =====
-- tellyq/queue_store.py: the rows of a queue, as `_load` accepts them. A database holds the rows of
-- each queue as one snapshot.
use tellyq.Prelude.{
  ℕ, String, Bool, true, false, Option, none, some, List, [], ◌∷◌, ◌==◌, ◌!=◌, nat_eq, string_eq,
  option_eq, ◌&&◌, ◌||◌, not, ltb, is_some, is_empty, any, all, first, count_if, last, distinct_by,
}
use tellyq.Values.{CommandAction, command_action_eq, before}
use tellyq.Queue.{
  AttemptOrigin, attempt_origin_eq, QueueIntent, queue_intent_eq, QueueEntry, QueueAttempt,
  JournalCommand, QueueSnapshot,
}

pub record Database : Type 0 where
  pub queues : List QueueSnapshot
  pub imports : List (String × String)

abbrev pub find_queue : String → List QueueSnapshot → Option QueueSnapshot
find_queue queue_id queues = first (λ q. q.queue_id == queue_id) queues

-- The items, of which there are some, have one current item at most, and it is where the queue is.
abbrev pub current_at : Option String → List QueueEntry → Bool
current_at position [] = true
current_at position (item ∷ items) =
    (item.intent != QueueIntent.current
      || (position == some item.item_id && not (any (λ i. i.intent == QueueIntent.current) items)))
    && current_at position items

abbrev pub names_item : Option String → List QueueEntry → Bool
names_item none items = true
names_item (some item_id) items = any (λ i. i.item_id == item_id) items

unfoldable pub position_ok : QueueSnapshot → Bool
position_ok q =
    not (is_empty q.items)
    && current_at q.current_item_id q.items
    && names_item q.current_item_id q.items

abbrev pub intent_matches : QueueAttempt → Option QueueEntry → Bool
intent_matches attempt none = false
intent_matches attempt (some item) = attempt.intent == item.intent

abbrev pub starts_of : String → List JournalCommand → ℕ
starts_of attempt_id commands =
    count_if (λ c. c.attempt_id == attempt_id && c.action == CommandAction.start) commands

abbrev pub expected_starts : AttemptOrigin → ℕ
expected_starts AttemptOrigin.local_start = 1
expected_starts AttemptOrigin.native_observed = 0

abbrev pub attempt_ok : QueueSnapshot → QueueAttempt → Bool
attempt_ok q attempt =
    intent_matches attempt (first (λ i. i.item_id == attempt.item_id) q.items)
    && attempt.intent != QueueIntent.pending
    && (attempt.intent != QueueIntent.current || not (is_some attempt.decision_id))
    && starts_of attempt.attempt_id q.commands == expected_starts attempt.origin

abbrev pub last_at : Option String → Option QueueAttempt → Bool
last_at position none = true
last_at position (some attempt) = position == some attempt.item_id

unfoldable pub attempts_ok : QueueSnapshot → Bool
attempts_ok q =
    distinct_by (λ a. a.item_id) q.attempts
    && last_at q.current_item_id (last q.attempts)
    && all (attempt_ok q) q.attempts

abbrev pub command_ok : ℕ → JournalCommand → Bool
command_ok generation c =
    not (ltb generation c.generation) && not (before c.updated_at c.created_at)

unfoldable pub commands_ok : QueueSnapshot → Bool
commands_ok q = all (command_ok q.generation) q.commands
