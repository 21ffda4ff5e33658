-- ===== src/QueuePolicy/Decisions.antt =====
-- tellyq/domain/queue_policy.py: authority, skip intents, settlements and decisions.
use tellyq.Prelude.{
  ℕ, String, Option, none, some, Result, Fault, ok, raise_if, ◌>>◌, ◌==◌, string_eq, ◌||◌,
}
use tellyq.Values.{Instant}
use tellyq.Queue.{QueueIntent, QueueSnapshot}

pub data QueueDisposition : Type 0 where
  hold ready complete : QueueDisposition

pub data QueueReason : Type 0 where
  canceled invalid_queue authority_required scope_mismatch needs_attention : QueueReason
  command_unresolved session_required awaiting_completion invalid_completion : QueueReason
  completion_observed skip_requested receiver_replaced receiver_unconfirmed : QueueReason
  next_item exhausted reconciliation_required native_successor_required : QueueReason

pub record QueueAuthority : Type 0 where
  pub queue_id : String
  pub generation : ℕ
  pub connection_generation : String
  pub started_monotonic : Instant

abbrev pub check_authority : QueueAuthority → Result QueueAuthority
check_authority a = do
  raise_if (a.queue_id == "" || a.connection_generation == "") Fault.value_error
  ok a

pub record SkipIntent : Type 0 where
  pub intent_id : String
  pub attempt_id : String
  pub item_id : String

abbrev pub check_skip : SkipIntent → Result SkipIntent
check_skip k = do
  raise_if (k.intent_id == "" || k.attempt_id == "" || k.item_id == "") Fault.value_error
  ok k

pub record AttemptSettlement : Type 0 where
  pub attempt_id : String
  pub item_id : String
  pub outcome : QueueIntent
  pub decision_id : String

pub record QueueDecision : Type 0 where
  pub queue_id : String
  pub expected_revision : ℕ
  pub generation : ℕ
  pub disposition : QueueDisposition
  pub reason : QueueReason
  pub settlement : Option AttemptSettlement
  pub next_item_id : Option String

abbrev pub decision :
    QueueSnapshot
    → QueueDisposition
    → QueueReason
    → Option AttemptSettlement
    → Option String
    → QueueDecision
decision queue disposition reason settlement next_item_id = record {
  queue_id = queue.queue_id;
  expected_revision = queue.revision;
  generation = queue.generation;
  disposition = disposition;
  reason = reason;
  settlement = settlement;
  next_item_id = next_item_id;
}

abbrev pub held : QueueSnapshot → QueueReason → QueueDecision
held queue reason = decision queue QueueDisposition.hold reason none none

abbrev pub held_with : QueueSnapshot → QueueReason → AttemptSettlement → QueueDecision
held_with queue reason settlement =
    decision queue QueueDisposition.hold reason (some settlement) none
