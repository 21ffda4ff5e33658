-- ===== src/QueueStore/Settlements.antt =====
-- tellyq/queue_store.py: the end of an attempt, and recovery after a runner that is gone.
use tellyq.Prelude.{
  ℕ, suc, String, Bool, true, some, List, Result, Fault, ok, raise_if, require, ◌>>=◌, ◌>>◌, ◌==◌,
  nat_eq, string_eq, option_eq, ◌&&◌, ◌||◌, not, any, first, is_some, is_empty, update_where,
  if◌then◌else◌,
}
use tellyq.Values.{CommandAction, command_action_eq}
use tellyq.Queue.{
  ExecutionState, execution_state_eq, is_unresolved, QueueIntent, queue_intent_eq, QueueMode,
  queue_mode_eq, QueueAttempt, JournalCommand, NativeOperation, QueueSnapshot,
}
use tellyq.QueueStore.Rows.{Database}
use tellyq.QueueStore.Transactions.{check_identity, check_revision, Change, transact}
use tellyq.QueueStore.Starts.{set_intent}

unfoldable pub is_settlement : QueueIntent → Bool
is_settlement outcome =
    outcome == QueueIntent.finished
    || outcome == QueueIntent.skipped
    || outcome == QueueIntent.stopped
    || outcome == QueueIntent.needs_attention

unfoldable pub has_terminal : QueueAttempt → Bool
has_terminal attempt =
    is_some attempt.decision_id
    || not (attempt.intent == QueueIntent.current || attempt.intent == QueueIntent.needs_attention)

unfoldable pub stop_intended : QueueSnapshot → String → Bool
stop_intended q attempt_id =
    any (λ c. c.attempt_id == attempt_id && c.action == CommandAction.stop) q.commands

unfoldable pub decision_taken : Database → String → Bool
decision_taken db decision_id =
    any (λ q. any (λ a. a.decision_id == some decision_id) q.attempts) db.queues

abbrev pub decided_attempt : QueueIntent → String → QueueAttempt → QueueAttempt
decided_attempt outcome decision_id a = record a {
  intent = outcome;
  decision_id = some decision_id;
}

abbrev pub settled_rows : QueueSnapshot → QueueAttempt → QueueIntent → String → QueueSnapshot
settled_rows q attempt outcome decision_id = record q {
  attempts =
      update_where (λ a. a.attempt_id == attempt.attempt_id) (decided_attempt outcome decision_id)
        q.attempts;
  items = set_intent attempt.item_id outcome q.items;
}

-- What a stopped or an unclear attempt leaves for the rest of the queue.
abbrev pub fenced_rows : QueueIntent → QueueSnapshot → QueueSnapshot
fenced_rows outcome q =
    let attention = outcome == QueueIntent.needs_attention in
    let native_hold = q.mode == QueueMode.native && attention in
    record q {
      reconciliation_required = q.reconciliation_required || native_hold;
      cancellation_requested =
          q.cancellation_requested
          || ((outcome == QueueIntent.stopped || attention) && not native_hold);
    }

unfoldable pub new_settlement :
    Database → QueueIntent → String → ℕ → QueueSnapshot → QueueAttempt → Result Change
new_settlement db outcome decision_id expected q attempt = do
  check_revision q expected
  raise_if (has_terminal attempt) Fault.queue_store_error
  raise_if (outcome == QueueIntent.finished && stop_intended q attempt.attempt_id)
      Fault.queue_store_error
  raise_if (decision_taken db decision_id) Fault.queue_store_error
  ok (Change.rewritten (fenced_rows outcome (settled_rows q attempt outcome decision_id)))

unfoldable pub already_settled : QueueIntent → String → QueueAttempt → Bool
already_settled outcome decision_id attempt =
    attempt.decision_id == some decision_id && attempt.intent == outcome

unfoldable pub settle_body :
    Database → String → QueueIntent → String → ℕ → QueueSnapshot → Result Change
settle_body db attempt_id outcome decision_id expected q = do
  attempt ← require (first (λ a. a.attempt_id == attempt_id) q.attempts) Fault.queue_store_error
  if already_settled outcome decision_id attempt
      then ok Change.unchanged
      else new_settlement db outcome decision_id expected q attempt

unfoldable pub settle_attempt :
    Database → String → String → QueueIntent → String → ℕ → Result (QueueSnapshot × Database)
settle_attempt db queue_id attempt_id outcome decision_id expected = do
  check_identity decision_id
  raise_if (not (is_settlement outcome)) Fault.value_error
  transact db queue_id (settle_body db attempt_id outcome decision_id expected)

abbrev pub doubted_command : JournalCommand → JournalCommand
doubted_command c = record c { state = ExecutionState.uncertain }

-- `UPDATE commands SET state='uncertain' WHERE state='dispatched'`
abbrev pub doubted : List JournalCommand → List JournalCommand
doubted commands = update_where (λ c. c.state == ExecutionState.dispatched) doubted_command commands

abbrev pub doubted_operation : NativeOperation → NativeOperation
doubted_operation o = record o { state = ExecutionState.uncertain }

unfoldable pub native_recovered : QueueSnapshot → QueueSnapshot
native_recovered q = record q {
  generation = suc q.generation;
  reconciliation_required = true;
  commands = doubted q.commands;
  native_operations =
      update_where (λ o. o.state == ExecutionState.dispatched) doubted_operation
        q.native_operations;
}

unfoldable pub legacy_recovered : QueueSnapshot → QueueSnapshot
legacy_recovered q = record q {
  generation = suc q.generation;
  cancellation_requested = true;
  items =
      update_where (λ i. i.intent == QueueIntent.current)
        (λ i. record i { intent = QueueIntent.needs_attention }) q.items;
  attempts =
      update_where (λ a. a.intent == QueueIntent.current)
        (λ a. record a { intent = QueueIntent.needs_attention }) q.attempts;
  commands = doubted q.commands;
}

unfoldable pub native_idle : QueueSnapshot → Bool
native_idle q = is_empty q.attempts && is_empty q.reservations

unfoldable pub legacy_idle : QueueSnapshot → Bool
legacy_idle q =
    not (any (λ a. a.intent == QueueIntent.current) q.attempts)
    && not (any (λ c. c.generation == q.generation && is_unresolved c.state) q.commands)

unfoldable pub recovered : QueueMode → QueueSnapshot → Change
recovered QueueMode.native q =
    if native_idle q then Change.unchanged else Change.rewritten (native_recovered q)
recovered QueueMode.legacy q =
    if legacy_idle q then Change.unchanged else Change.rewritten (legacy_recovered q)

unfoldable pub recover_body : ℕ → QueueSnapshot → Result Change
recover_body expected q = do check_revision q expected; ok (recovered q.mode q)

unfoldable pub recover : Database → String → ℕ → Result (QueueSnapshot × Database)
recover db queue_id expected = transact db queue_id (recover_body expected)
