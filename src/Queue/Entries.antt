-- ===== src/Queue/Entries.antt =====
-- tellyq/domain/queue.py: items, attempts, commands and the snapshot of a queue.
use tellyq.Prelude.{
  ℕ, String, Bool, Option, List, Result, Fault, ok, raise_if, ◌>>◌, Eq, ◌==◌, nat_eq, string_eq,
  option_eq, ◌&&◌,
}
use tellyq.Values.{ContentRef, PlaybackTarget, CommandAction, Datetime, datetime_eq}
use tellyq.Queue.Native.{ExecutionState, NativeReservation, NativeOperation}

pub data QueueMode : Type 0 where
  legacy native : QueueMode

abbrev pub queue_mode_tag : QueueMode → ℕ
queue_mode_tag QueueMode.legacy = 0
queue_mode_tag QueueMode.native = 1

instance abbrev pub queue_mode_eq : Eq QueueMode
queue_mode_eq = record { beq = λ a b. queue_mode_tag a == queue_mode_tag b }

pub data AttemptOrigin : Type 0 where
  local_start native_observed : AttemptOrigin

abbrev pub attempt_origin_tag : AttemptOrigin → ℕ
attempt_origin_tag AttemptOrigin.local_start = 0
attempt_origin_tag AttemptOrigin.native_observed = 1

instance abbrev pub attempt_origin_eq : Eq AttemptOrigin
attempt_origin_eq = record { beq = λ a b. attempt_origin_tag a == attempt_origin_tag b }

pub data QueueIntent : Type 0 where
  pending current finished skipped stopped needs_attention : QueueIntent

abbrev pub queue_intent_tag : QueueIntent → ℕ
queue_intent_tag QueueIntent.pending = 0
queue_intent_tag QueueIntent.current = 1
queue_intent_tag QueueIntent.finished = 2
queue_intent_tag QueueIntent.skipped = 3
queue_intent_tag QueueIntent.stopped = 4
queue_intent_tag QueueIntent.needs_attention = 5

instance abbrev pub queue_intent_eq : Eq QueueIntent
queue_intent_eq = record { beq = λ a b. queue_intent_tag a == queue_intent_tag b }

pub record QueueEntry : Type 0 where
  pub item_id : String
  pub content : ContentRef
  pub intent : QueueIntent

abbrev pub check_entry : QueueEntry → Result QueueEntry
check_entry e = do raise_if (e.item_id == "") Fault.value_error; ok e

pub record QueueAttempt : Type 0 where
  pub attempt_id : String
  pub item_id : String
  pub intent : QueueIntent
  pub created_at : Datetime
  pub decision_id : Option String
  pub origin : AttemptOrigin
  pub reservation_id : Option String

instance abbrev pub queue_attempt_eq : Eq QueueAttempt
queue_attempt_eq = record {
  beq = λ a b.
      a.attempt_id == b.attempt_id
      && a.item_id == b.item_id
      && a.intent == b.intent
      && a.created_at == b.created_at
      && a.decision_id == b.decision_id
      && a.origin == b.origin
      && a.reservation_id == b.reservation_id;
}

pub record JournalCommand : Type 0 where
  pub command_id : String
  pub attempt_id : String
  pub action : CommandAction
  pub state : ExecutionState
  pub generation : ℕ
  pub created_at : Datetime
  pub updated_at : Datetime

pub record QueueSnapshot : Type 0 where
  pub queue_id : String
  pub target : PlaybackTarget
  pub revision : ℕ
  pub generation : ℕ
  pub current_item_id : Option String
  pub cancellation_requested : Bool
  pub items : List QueueEntry
  pub attempts : List QueueAttempt
  pub commands : List JournalCommand
  pub mode : QueueMode
  pub reconciliation_required : Bool
  pub reservations : List NativeReservation
  pub native_operations : List NativeOperation
