-- ===== src/QueueStore/Transacted.antt =====
-- tellyq/queue_store.py: the transaction of each operation commits an advance of its queue.
use tellyq.Prelude.{
  Fault, require, ℕ, ◌≡◌, refl, String, true, false, Yields, Yields-bind, Yields-raise_if, ◌!=◌,
  string_eq, is_blank, not,
}
use tellyq.Values.{CommandAction, Instant, Datetime, SessionSnapshot}
use tellyq.Queue.{
  NativeQueueAction, native_queue_action_eq, NativeQueueRequest, QueueIntent, ExecutionState,
  execution_state_eq,
}
use tellyq.QueueStore.{
  Database, start_body, prepare_start, stop_body, prepare_stop, is_control, control_body,
  prepare_control, transition_body, transition, is_outcome, is_settlement, settle_body,
  settle_attempt, staging_body, prepare_native_successor, clear_body, prepare_native_clear,
  native_transition_body, native_transition, adopt_body, adopt_native_successor, exit_body,
  record_native_session_exit,
}
use tellyq.QueueStore.Bodies.Intents.{start_body-Moves, stop_body-Moves, control_body-Moves}
use tellyq.QueueStore.Bodies.Transitions.{transition_body-Moves, settle_body-Moves}
use tellyq.QueueStore.Bodies.Natives.{
  staging_body-Moves, clear_body-Moves, native_transition_body-Moves,
}
use tellyq.QueueStore.Bodies.Adoptions.{adopt_body-Moves, exit_body-Moves}
use tellyq.QueueStore.Commits.{Committed, transact-Committed}

pub outcome-claims :
    (state : ExecutionState)
    → not (is_outcome state) ≡ false
    → (state != ExecutionState.pending) ≡ true
unfolding is_outcome
outcome-claims ExecutionState.pending h = cc
outcome-claims ExecutionState.dispatched h = refl
outcome-claims ExecutionState.acknowledged h = refl
outcome-claims ExecutionState.rejected h = refl
outcome-claims ExecutionState.uncertain h = refl

pub transition-Committed :
    (db : Database) (queue_id command_id : String) (state : ExecutionState) (at : Datetime)
    (expected : ℕ)
    → (state != ExecutionState.pending) ≡ true
    → Yields (Committed db queue_id expected) (transition db queue_id command_id state at expected)
unfolding transition
transition-Committed db queue_id command_id state at expected claims =
    Yields-raise_if (Committed db queue_id expected) (not at.aware) _ _ (λ _.
      transact-Committed db queue_id (transition_body command_id state at expected) expected
        (λ q. transition_body-Moves command_id state at expected q claims))

pub start-Committed :
    (db : Database) (queue_id item_id attempt_id command_id : String) (at : Datetime) (expected : ℕ)
    → Yields
        (Committed db queue_id expected)
        (prepare_start db queue_id item_id attempt_id command_id at expected)
unfolding prepare_start
start-Committed db queue_id item_id attempt_id command_id at expected =
    let P = Committed db queue_id expected in
    Yields-raise_if P (is_blank queue_id) _ _ (λ _. Yields-raise_if P (is_blank item_id) _ _ (λ _.
      Yields-raise_if P (is_blank attempt_id) _ _ (λ _.
        Yields-raise_if P (is_blank command_id) _ _ (λ _. Yields-raise_if P (not at.aware) _ _ (λ _.
          transact-Committed db queue_id (start_body db item_id attempt_id command_id at expected)
            expected (λ q. start_body-Moves db item_id attempt_id command_id at expected q))))))

pub stop-Committed :
    (db : Database) (queue_id attempt_id command_id : String) (at : Datetime) (expected : ℕ)
    → Yields
        (Committed db queue_id expected)
        (prepare_stop db queue_id attempt_id command_id at expected)
unfolding prepare_stop
stop-Committed db queue_id attempt_id command_id at expected =
    let P = Committed db queue_id expected in
    Yields-raise_if P (is_blank command_id) _ _ (λ _. Yields-raise_if P (not at.aware) _ _ (λ _.
      transact-Committed db queue_id (stop_body db attempt_id command_id at expected) expected
        (λ q. stop_body-Moves db attempt_id command_id at expected q)))

pub control-Committed :
    (db : Database) (queue_id attempt_id command_id : String) (action : CommandAction)
    (at : Datetime) (expected : ℕ)
    → Yields
        (Committed db queue_id expected)
        (prepare_control db queue_id attempt_id command_id action at expected)
unfolding prepare_control
control-Committed db queue_id attempt_id command_id action at expected =
    let P = Committed db queue_id expected in
    Yields-raise_if P (not (is_control action)) _ _ (λ _.
      Yields-raise_if P (is_blank command_id) _ _ (λ _. Yields-raise_if P (not at.aware) _ _ (λ _.
        transact-Committed db queue_id (control_body db attempt_id command_id action at expected)
          expected (λ q. control_body-Moves db attempt_id command_id action at expected q))))

pub settlement-Committed :
    (db : Database) (queue_id attempt_id : String) (outcome : QueueIntent) (decision_id : String)
    (expected : ℕ)
    → Yields
        (Committed db queue_id expected)
        (settle_attempt db queue_id attempt_id outcome decision_id expected)
unfolding settle_attempt
settlement-Committed db queue_id attempt_id outcome decision_id expected =
    let P = Committed db queue_id expected in
    Yields-raise_if P (is_blank decision_id) _ _ (λ _.
      Yields-raise_if P (not (is_settlement outcome)) _ _ (λ _.
        transact-Committed db queue_id (settle_body db attempt_id outcome decision_id expected)
          expected (λ q. settle_body-Moves db attempt_id outcome decision_id expected q)))

pub stage-Committed :
    (db : Database) (queue_id item_id reservation_id attempt_id : String)
    (request : NativeQueueRequest) (at : Datetime) (expected generation : ℕ)
    → Yields (Committed db queue_id expected) (
        prepare_native_successor db queue_id item_id reservation_id attempt_id request at expected
          generation)
unfolding prepare_native_successor
stage-Committed db queue_id item_id reservation_id attempt_id request at expected generation =
    let P = Committed db queue_id expected in
    Yields-raise_if P (is_blank reservation_id) _ _ (λ _.
      Yields-raise_if P (is_blank item_id) _ _ (λ _.
        Yields-raise_if P (is_blank attempt_id) _ _ (λ _.
          Yields-raise_if P (is_blank request.operation_id) _ _ (λ _.
            Yields-raise_if P (request.action != NativeQueueAction.play_next) _ _ (λ _.
              Yields-bind P (require request.scope.application_id Fault.value_error) _ (λ app _.
                Yields-raise_if P (not at.aware) _ _ (λ _.
                  transact-Committed db queue_id
                    (staging_body db item_id reservation_id attempt_id app request at expected
                      generation)
                    expected
                    (λ q.
                      staging_body-Moves db item_id reservation_id attempt_id app request at
                        expected generation q))))))))

pub clear-Committed :
    (db : Database) (queue_id reservation_id : String) (request : NativeQueueRequest)
    (at : Datetime) (expected generation : ℕ)
    → Yields
        (Committed db queue_id expected)
        (prepare_native_clear db queue_id reservation_id request at expected generation)
unfolding prepare_native_clear
clear-Committed db queue_id reservation_id request at expected generation =
    let P = Committed db queue_id expected in
    Yields-raise_if P (request.action != NativeQueueAction.clear) _ _ (λ _.
      Yields-raise_if P (not at.aware) _ _ (λ _.
        transact-Committed db queue_id (clear_body db reservation_id request at expected generation)
          expected (λ q. clear_body-Moves db reservation_id request at expected generation q)))

pub native_transition-Committed :
    (db : Database) (queue_id operation_id : String) (state : ExecutionState) (at : Datetime)
    (expected generation : ℕ)
    → (state != ExecutionState.pending) ≡ true
    → Yields
        (Committed db queue_id expected)
        (native_transition db queue_id operation_id state at expected generation)
unfolding native_transition
native_transition-Committed db queue_id operation_id state at expected generation claims =
    Yields-raise_if (Committed db queue_id expected) (not at.aware) _ _ (λ _.
      transact-Committed db queue_id
        (native_transition_body operation_id state at expected generation) expected
        (λ q. native_transition_body-Moves operation_id state at expected generation q claims))

pub adoption-Committed :
    (db : Database) (queue_id reservation_id : String) (observed : SessionSnapshot) (now : Instant)
    (at : Datetime) (decision_id : String) (expected generation : ℕ)
    → Yields (Committed db queue_id expected) (
        adopt_native_successor db queue_id reservation_id observed now at decision_id expected
          generation)
unfolding adopt_native_successor
adoption-Committed db queue_id reservation_id observed now at decision_id expected generation =
    let P = Committed db queue_id expected in
    Yields-raise_if P (is_blank decision_id) _ _ (λ _. Yields-raise_if P (not at.aware) _ _ (λ _.
      transact-Committed db queue_id
        (adopt_body db reservation_id observed now at decision_id expected generation) expected
        (λ q.
          adopt_body-Moves db reservation_id observed now at decision_id expected generation q)))

pub exit-Committed :
    (db : Database) (queue_id reservation_id : String) (at : Datetime) (decision_id : String)
    (expected generation : ℕ)
    → Yields
        (Committed db queue_id expected)
        (record_native_session_exit db queue_id reservation_id at decision_id expected generation)
unfolding record_native_session_exit
exit-Committed db queue_id reservation_id at decision_id expected generation =
    let P = Committed db queue_id expected in
    Yields-raise_if P (not at.aware) _ _ (λ _. Yields-raise_if P (is_blank decision_id) _ _ (λ _.
      transact-Committed db queue_id
        (exit_body db reservation_id at decision_id expected generation) expected
        (λ q. exit_body-Moves db reservation_id at decision_id expected generation q)))
