-- ===== src/Examples/Native.antt =====
-- tellyq/queue_store.py: a successor is staged, its operation leaves, and it is seen playing; another
-- queue is canceled and cleared.
use tellyq.Prelude.{
  ℕ, ◌≡◌, ◌≢◌, ◌⊎◌, refl, true, false, none, some, [], ◌∷◌, ok, first, ◌==◌, string_eq, is_blank,
}
use tellyq.Values.{
  ContentRef, PlaybackScope, Instant, PlayerState, PlaybackObservation, SessionSnapshot,
  new_session,
}
use tellyq.Policy.Runs.{Event, run}
use tellyq.Queue.{
  NativeQueueAction, native_queue_action_eq, NativeQueueRequest, ExecutionState,
  NativeReservationState, NativeReservation, NativeOperation, QueueMode, AttemptOrigin, QueueIntent,
  QueueSnapshot,
}
use tellyq.QueueStore.{
  Database, find_queue, required, consistent, native_ok, position_ok, attempts_ok, commands_ok,
  transact, native_fence, find_reservation, find_operation, scope_differs, check_staged,
  check_native_match, operation_taken, add_operation, reservation_taken, unreservable, unstageable,
  repeats_content, reserve, new_staging, operation_known, staging_body, prepare_native_successor,
  staging_lost, clearing_lost, check_native_dispatch, check_native_state, native_already,
  native_move, native_transition_body, native_transition, mark_native_dispatched, successor_differs,
  progressing, adoptable, is_open, left_behind, decision_taken, attempt_taken, adoption_taken,
  new_adoption, adopt_undecided, adopt_body, adopt_native_successor, Call, called, Operation,
  run_store,
}
use tellyq.QueueStore.NativeDispatch.{mark_native_dispatched-once, mark_native_dispatched-canceled}
use tellyq.QueueStore.NativeAdoption.{IsObserved, adopt_native_successor-IsObserved}
use tellyq.Examples.Sessions.{film, scope, policy, seen, trace}
use tellyq.Examples.Queues.{entry, attempt, queue_of}
use tellyq.Examples.Store.{time, sent}

abbrev reel : ContentRef
reel = record film { content_id = "reel" }

abbrev pub native_queue : QueueSnapshot
native_queue =
    record (queue_of (some "i1")
      (entry "i1" QueueIntent.current
        ∷ record (entry "i2" QueueIntent.pending) { content = reel }
        ∷ [])
      (attempt QueueIntent.current none ∷ []) (sent ExecutionState.acknowledged 2 ∷ [])) {
        mode = QueueMode.native;
        revision = 1;
      }

abbrev pub staging : NativeQueueRequest
staging = record {
  operation_id = "o1";
  action = NativeQueueAction.play_next;
  scope = scope;
  playback_id = "p1";
  successor = some reel;
}

abbrev reservation : NativeReservation
reservation = record {
  reservation_id = "r1";
  predecessor_attempt_id = "a1";
  successor_item_id = "i2";
  successor_attempt_id = "a2";
  application_id = "app";
  session_id = "s1";
  predecessor_playback_id = "p1";
  generation = 0;
  created_at = time 2;
  state = NativeReservationState.reserved;
  adoption_decision_id = none;
  exit_decision_id = none;
}

abbrev operation : ExecutionState → ℕ → NativeOperation
operation state at = record {
  operation_id = "o1";
  reservation_id = "r1";
  action = NativeQueueAction.play_next;
  state = state;
  generation = 0;
  created_at = time 2;
  updated_at = time at;
  scope_attempt_id = "a1";
  connection_generation = "g1";
  playback_id = "p1";
}

abbrev staged : QueueSnapshot
staged = record native_queue {
  revision = 2;
  reservations = reservation ∷ [];
  native_operations = operation ExecutionState.pending 2 ∷ [];
}

abbrev handed_over : QueueSnapshot
handed_over = record staged {
  revision = 3;
  native_operations = operation ExecutionState.dispatched 3 ∷ [];
}

abbrev pub alone : QueueSnapshot → Database
alone q = record { queues = q ∷ []; imports = [] }

staged_once :
    prepare_native_successor (alone native_queue) "q1" "i2" "r1" "a2" staging (time 2) 1 0
    ≡ ok (staged, alone staged)
unfolding prepare_native_successor staging_body operation_known new_staging native_fence
    unreservable unstageable reserve check_native_match scope_differs check_staged repeats_content
    reservation_taken add_operation operation_taken transact required consistent native_ok
    position_ok attempts_ok commands_ok is_blank
staged_once = refl

handed_over_once :
    mark_native_dispatched (alone staged) "q1" "o1" (time 3) 2 0
    ≡ ok (handed_over, alone handed_over)
unfolding mark_native_dispatched native_transition native_transition_body native_fence
    find_operation find_reservation native_already native_move check_native_state
    check_native_dispatch staging_lost clearing_lost transact required consistent native_ok
    position_ok attempts_ok commands_ok
handed_over_once = refl

mark_native_dispatched-once_example :
    mark_native_dispatched
      (run_store (alone handed_over) (
        ("q1", Call.on (Operation.cancel 3))
        ∷ ("q1", Call.on (Operation.native_outcome "o1" ExecutionState.rejected (time 4) 4 0))
        ∷ []))
      "q1"
      "o1"
      (time 9)
      5
      0
    ≢ ok (handed_over, alone handed_over)
mark_native_dispatched-once_example =
    mark_native_dispatched-once (alone staged) "q1" "o1" (time 3) 2 0 handed_over_once
      (("q1", Call.on (Operation.cancel 3))
        ∷ ("q1", Call.on (Operation.native_outcome "o1" ExecutionState.rejected (time 4) 4 0))
        ∷ [])
      (time 9) 5 0 (handed_over, alone handed_over)

-- The queue is canceled_queue, and the clearing of its reservation is to leave.
abbrev clearing : ExecutionState → ℕ → NativeOperation
clearing state at = record (operation state at) {
  operation_id = "o2";
  action = NativeQueueAction.clear;
}

abbrev canceled_queue : QueueSnapshot
canceled_queue = record handed_over {
  revision = 5;
  cancellation_requested = true;
  native_operations =
      operation ExecutionState.dispatched 3 ∷ clearing ExecutionState.pending 3 ∷ [];
}

abbrev cleared : QueueSnapshot
cleared = record canceled_queue {
  revision = 6;
  native_operations =
      operation ExecutionState.dispatched 3 ∷ clearing ExecutionState.dispatched 6 ∷ [];
}

cleared_once :
    mark_native_dispatched (run_store (alone canceled_queue) []) "q1" "o2" (time 6) 5 0
    ≡ ok (cleared, alone cleared)
unfolding run_store called mark_native_dispatched native_transition native_transition_body
    native_fence find_operation find_reservation native_already native_move check_native_state
    check_native_dispatch staging_lost clearing_lost transact required consistent native_ok
    position_ok attempts_ok commands_ok
cleared_once = refl

mark_native_dispatched-canceled_example :
    (r : QueueSnapshot) × (o : NativeOperation) × (find_queue "q1"
        (run_store (alone canceled_queue) []).queues
      ≡ some r)
    × (first (λ p. p.operation_id == "o2") r.native_operations ≡ some o)
    × ((o.action == NativeQueueAction.play_next) ≡ false)
mark_native_dispatched-canceled_example =
    mark_native_dispatched-canceled (alone canceled_queue) "q1" canceled_queue refl refl [] "o2"
      (time 6) 5 0 cleared_once

-- The successor, as the receiver shows it.
abbrev successor_scope : PlaybackScope
successor_scope = record scope {
  request = record scope.request { attempt_id = "a2"; queue_item_id = "i2"; content = reel };
}

abbrev shown : ℕ → Instant → Instant → PlaybackObservation
shown sequence monotonic position =
    record (seen sequence monotonic PlayerState.playing (some position) none) {
      content = some reel;
      playback_id = some "p2";
    }

abbrev successor_session : SessionSnapshot
successor_session =
    run policy (new_session successor_scope)
      ((4, Event.sample (shown 0 4 10)) ∷ (6, Event.sample (shown 1 6 12)) ∷ [])

abbrev adopted : QueueSnapshot
adopted = record handed_over {
  revision = 4;
  current_item_id = some "i2";
  items =
      entry "i1" QueueIntent.needs_attention
      ∷ record (entry "i2" QueueIntent.current) { content = reel }
      ∷ [];
  attempts =
      attempt QueueIntent.needs_attention (some "native-unobserved-d1")
      ∷ record (attempt QueueIntent.current none) {
        attempt_id = "a2";
        item_id = "i2";
        created_at = time 7;
        origin = AttemptOrigin.native_observed;
        reservation_id = some "r1";
      }
      ∷ [];
  reconciliation_required = true;
  reservations =
      record reservation {
        state = NativeReservationState.adopted;
        adoption_decision_id = some "d1";
      }
      ∷ [];
}

adopted_once :
    adopt_native_successor (alone handed_over) "q1" "r1" successor_session 7 (time 7) "d1" 3 0
    ≡ ok (adopted, alone adopted)
unfolding trace adopt_native_successor adopt_body adopt_undecided successor_differs adoptable
    progressing new_adoption left_behind is_open decision_taken attempt_taken adoption_taken
    find_reservation native_fence transact required consistent native_ok position_ok attempts_ok
    commands_ok is_blank
adopted_once = refl

adopt_native_successor-IsObserved_example :
    (q : QueueSnapshot) × (find_queue "q1" (alone handed_over).queues ≡ some q)
    × ((alone adopted ≡ alone handed_over) ⊎ IsObserved q "r1" successor_session 7)
adopt_native_successor-IsObserved_example =
    adopt_native_successor-IsObserved (alone handed_over) "q1" "r1" successor_session 7 (time 7)
      "d1" 3 0 adopted_once
