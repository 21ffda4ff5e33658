-- ===== src/Examples/Store.antt =====
-- tellyq/queue_store.py: an item is started, its command leaves, and its attempt is settled.
use tellyq.Prelude.{
  ℕ, ◌⊎◌, false, ◌≡◌, ◌≢◌, refl, true, none, some, List, [], ◌∷◌, ok, first, ◌==◌, string_eq,
  is_blank,
}
use tellyq.Values.{CommandAction, command_action_eq, Datetime}
use tellyq.Queue.{QueueMode, ExecutionState, QueueIntent, QueueEntry, JournalCommand, QueueSnapshot}
use tellyq.QueueStore.{
  Database, find_queue, required, consistent, native_ok, position_ok, attempts_ok, commands_ok,
  transact, duplicate, command_taken, attempt_taken, add_command, native_begun, occupied,
  is_offered, new_start, start_body, prepare_start, stoppable, new_stop, stop_body, prepare_stop,
  find_command, allows, undispatchable, withdrawn, check_dispatch, check_state, move, already,
  transition_body, transition, mark_dispatched, is_settlement, has_terminal, stop_intended,
  decision_taken, new_settlement, already_settled, settle_body, settle_attempt, recover_body,
  recover, Call, called, Operation, perform, run_store,
}
use tellyq.QueueStore.Commits.{Commits}
use tellyq.QueueStore.Writes.{perform-Commits}
use tellyq.QueueStore.Dispatch.{mark_dispatched-once, mark_dispatched-canceled}
use tellyq.QueueStore.Retries.{settle_attempt-again}
use tellyq.QueueStore.Endings.{settle_attempt-finished}
use tellyq.QueueStore.Restarts.{prepare_start-again}
use tellyq.Examples.Sessions.{tv}
use tellyq.Examples.Queues.{entry, attempt, queue_of}

abbrev pub time : ℕ → Datetime
time ticks = record { ticks = ticks; aware = true }

abbrev pub sent : ExecutionState → ℕ → JournalCommand
sent state at = record {
  command_id = "c1";
  attempt_id = "a1";
  action = CommandAction.start;
  state = state;
  generation = 0;
  created_at = time 1;
  updated_at = time at;
}

abbrev items_of : QueueIntent → List QueueEntry
items_of intent = entry "i1" intent ∷ entry "i2" QueueIntent.pending ∷ []

abbrev pub waiting : QueueSnapshot
waiting = record (queue_of none (items_of QueueIntent.pending) [] []) { revision = 0 }

abbrev other : QueueSnapshot
other = record waiting { queue_id = "q2"; cancellation_requested = true }

abbrev begun : QueueSnapshot
begun =
    record (queue_of (some "i1") (items_of QueueIntent.current)
      (attempt QueueIntent.current none ∷ []) (sent ExecutionState.pending 1 ∷ [])) { revision = 1 }

abbrev handed : QueueSnapshot
handed = record begun { revision = 2; commands = sent ExecutionState.dispatched 2 ∷ [] }

abbrev skipped : QueueSnapshot
skipped =
    record (queue_of (some "i1") (items_of QueueIntent.skipped)
      (attempt QueueIntent.skipped (some "d1") ∷ []) (sent ExecutionState.dispatched 2 ∷ [])) {
        revision = 3;
      }

abbrev pub database : QueueSnapshot → Database
database q = record { queues = q ∷ other ∷ []; imports = [] }

started_once :
    prepare_start (database waiting) "q1" "i1" "a1" "c1" (time 1) 0 ≡ ok (begun, database begun)
unfolding prepare_start transact required consistent native_ok position_ok attempts_ok commands_ok
    start_body duplicate new_start native_begun occupied is_offered attempt_taken add_command
    command_taken is_blank
started_once = refl

performed_once :
    perform (database waiting) "q1" (Operation.start "i1" "a1" "c1" (time 1) 0)
    ≡ ok (begun, database begun)
unfolding perform
performed_once = started_once

sent_once : mark_dispatched (database begun) "q1" "c1" (time 2) 1 ≡ ok (handed, database handed)
unfolding mark_dispatched transition transact required consistent native_ok position_ok attempts_ok
    commands_ok transition_body find_command already move check_state check_dispatch withdrawn
    undispatchable allows
sent_once = refl

settled_once :
    settle_attempt (database handed) "q1" "a1" QueueIntent.skipped "d1" 2
    ≡ ok (skipped, database skipped)
unfolding settle_attempt transact required consistent native_ok position_ok attempts_ok commands_ok
    settle_body already_settled is_settlement new_settlement has_terminal stop_intended
    decision_taken is_blank
settled_once = refl

perform-Commits_example : Commits (database waiting) "q1" 0 begun (database begun)
perform-Commits_example =
    perform-Commits (database waiting) "q1" (Operation.start "i1" "a1" "c1" (time 1) 0)
      performed_once

abbrev added : Call
added = Call.creation tv (entry "i9" QueueIntent.pending ∷ []) QueueMode.native

mark_dispatched-once_example :
    mark_dispatched
      (run_store (database handed) (
        ("q1", Call.on (Operation.recovery 2))
        ∷ ("q2", Call.on (Operation.cancel 0))
        ∷ ("q3", added)
        ∷ []))
      "q1"
      "c1"
      (time 9)
      3
    ≢ ok (handed, database handed)
mark_dispatched-once_example =
    mark_dispatched-once (database begun) "q1" "c1" (time 2) 1 sent_once
      (("q1", Call.on (Operation.recovery 2))
        ∷ ("q2", Call.on (Operation.cancel 0))
        ∷ ("q3", added)
        ∷ [])
      (time 9) 3 (handed, database handed)

settle_attempt-again_example :
    settle_attempt (database skipped) "q1" "a1" QueueIntent.skipped "d1" 8
    ≡ ok (skipped, database skipped)
settle_attempt-again_example =
    settle_attempt-again (database handed) "q1" "a1" QueueIntent.skipped "d1" 2 8 settled_once

abbrev finished : QueueSnapshot
finished =
    record (queue_of (some "i1") (items_of QueueIntent.finished)
      (attempt QueueIntent.finished (some "d1") ∷ []) (sent ExecutionState.dispatched 2 ∷ [])) {
        revision = 3;
      }

finished_once :
    settle_attempt (database handed) "q1" "a1" QueueIntent.finished "d1" 2
    ≡ ok (finished, database finished)
unfolding settle_attempt transact required consistent native_ok position_ok attempts_ok commands_ok
    settle_body already_settled is_settlement new_settlement has_terminal stop_intended
    decision_taken is_blank
finished_once = refl

settle_attempt-finished_example :
    (q : QueueSnapshot) × (find_queue "q1" (database handed).queues ≡ some q)
    × ((database finished ≡ database handed) ⊎ (stop_intended q "a1" ≡ false))
settle_attempt-finished_example =
    settle_attempt-finished (database handed) "q1" "a1" "d1" 2 finished_once

prepare_start-again_example :
    prepare_start (database begun) "q1" "i1" "a1" "c1" (time 5) 7 ≡ ok (begun, database begun)
prepare_start-again_example =
    prepare_start-again (database waiting) "q1" "i1" "a1" "c1" (time 1) (time 5) 0 7 started_once
      refl

-- A stop is intended while the start is under way.
abbrev stop_sent : ExecutionState → ℕ → JournalCommand
stop_sent state at = record {
  command_id = "c2";
  attempt_id = "a1";
  action = CommandAction.stop;
  state = state;
  generation = 0;
  created_at = time 3;
  updated_at = time at;
}

abbrev stopping : QueueSnapshot
stopping = record handed {
  revision = 3;
  cancellation_requested = true;
  commands = sent ExecutionState.dispatched 2 ∷ stop_sent ExecutionState.pending 3 ∷ [];
}

abbrev stop_handed : QueueSnapshot
stop_handed = record stopping {
  revision = 4;
  commands = sent ExecutionState.dispatched 2 ∷ stop_sent ExecutionState.dispatched 4 ∷ [];
}

stopped_once :
    prepare_stop (database handed) "q1" "a1" "c2" (time 3) 2 ≡ ok (stopping, database stopping)
unfolding prepare_stop transact required consistent native_ok position_ok attempts_ok commands_ok
    stop_body duplicate new_stop stoppable add_command command_taken is_blank
stopped_once = refl

stop_sent_once :
    mark_dispatched
      (run_store (database stopping) (("q1", Call.on (Operation.recovery 9)) ∷ []))
      "q1"
      "c2"
      (time 4)
      3
    ≡ ok (stop_handed, database stop_handed)
unfolding run_store called perform recover recover_body mark_dispatched transition transact required
    consistent native_ok position_ok attempts_ok commands_ok transition_body find_command already
    move check_state check_dispatch withdrawn undispatchable allows
stop_sent_once = refl

mark_dispatched-canceled_example :
    (r : QueueSnapshot) × (c : JournalCommand) × (find_queue "q1"
        (run_store (database stopping) (("q1", Call.on (Operation.recovery 9)) ∷ [])).queues
      ≡ some r)
    × (first (λ d. d.command_id == "c2") r.commands ≡ some c)
    × ((c.action == CommandAction.stop) ≡ true)
mark_dispatched-canceled_example =
    mark_dispatched-canceled (database stopping) "q1" stopping refl refl
      (("q1", Call.on (Operation.recovery 9)) ∷ []) "c2" (time 4) 3 stop_sent_once
