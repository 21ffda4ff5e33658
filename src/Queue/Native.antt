-- ===== src/Queue/Native.antt =====
-- tellyq/domain/native_queue.py, tellyq/domain/queue.py: successors that the receiver manages.
use tellyq.Prelude.{
  ℕ, String, Bool, Option, Result, Fault, ok, raise_if, ◌>>◌, Eq, ◌==◌, ◌!=◌, nat_eq, string_eq,
  bool_eq, ◌||◌, is_some,
}
use tellyq.Values.{ContentRef, PlaybackScope, Datetime}

pub data NativeQueueAction : Type 0 where
  play_next clear : NativeQueueAction

abbrev pub native_queue_action_tag : NativeQueueAction → ℕ
native_queue_action_tag NativeQueueAction.play_next = 0
native_queue_action_tag NativeQueueAction.clear = 1

instance abbrev pub native_queue_action_eq : Eq NativeQueueAction
native_queue_action_eq = record {
  beq = λ a b. native_queue_action_tag a == native_queue_action_tag b;
}

pub record NativeQueueRequest : Type 0 where
  pub operation_id : String
  pub action : NativeQueueAction
  pub scope : PlaybackScope
  pub playback_id : String
  pub successor : Option ContentRef

abbrev pub check_native_request : NativeQueueRequest → Result NativeQueueRequest
check_native_request r = do
  raise_if (r.operation_id == "" || r.playback_id == "") Fault.value_error
  raise_if ((r.action == NativeQueueAction.play_next) != is_some r.successor) Fault.value_error
  ok r

pub data ExecutionState : Type 0 where
  pending dispatched acknowledged rejected uncertain : ExecutionState

abbrev pub execution_state_tag : ExecutionState → ℕ
execution_state_tag ExecutionState.pending = 0
execution_state_tag ExecutionState.dispatched = 1
execution_state_tag ExecutionState.acknowledged = 2
execution_state_tag ExecutionState.rejected = 3
execution_state_tag ExecutionState.uncertain = 4

instance abbrev pub execution_state_eq : Eq ExecutionState
execution_state_eq = record { beq = λ a b. execution_state_tag a == execution_state_tag b }

-- `state in {PENDING, DISPATCHED, UNCERTAIN}`
abbrev pub is_unresolved : ExecutionState → Bool
is_unresolved state =
    state == ExecutionState.pending
    || state == ExecutionState.dispatched
    || state == ExecutionState.uncertain

pub data NativeReservationState : Type 0 where
  reserved adopted session_exit_observed : NativeReservationState

abbrev pub native_reservation_state_tag : NativeReservationState → ℕ
native_reservation_state_tag NativeReservationState.reserved = 0
native_reservation_state_tag NativeReservationState.adopted = 1
native_reservation_state_tag NativeReservationState.session_exit_observed = 2

instance abbrev pub native_reservation_state_eq : Eq NativeReservationState
native_reservation_state_eq = record {
  beq = λ a b. native_reservation_state_tag a == native_reservation_state_tag b;
}

pub record NativeReservation : Type 0 where
  pub reservation_id : String
  pub predecessor_attempt_id : String
  pub successor_item_id : String
  pub successor_attempt_id : String
  pub application_id : String
  pub session_id : String
  pub predecessor_playback_id : String
  pub generation : ℕ
  pub created_at : Datetime
  pub state : NativeReservationState
  pub adoption_decision_id : Option String
  pub exit_decision_id : Option String

pub record NativeOperation : Type 0 where
  pub operation_id : String
  pub reservation_id : String
  pub action : NativeQueueAction
  pub state : ExecutionState
  pub generation : ℕ
  pub created_at : Datetime
  pub updated_at : Datetime
  pub scope_attempt_id : String
  pub connection_generation : String
  pub playback_id : String
