-- ===== src/Examples/Queues.antt =====
-- tellyq/domain/queue_policy.py: a queue at its start, with an attempt to settle, and at its end.
use tellyq.Prelude.{
  ℕ, String, ◌≡◌, refl, true, false, Option, none, some, List, [], ◌∷◌, ok, Returns, All,
}
use tellyq.Values.{CommandAction, PlayerState, PlaybackObservation, SessionSnapshot, new_session}
use tellyq.Policy.Runs.{run}
use tellyq.Queue.{
  ExecutionState, QueueMode, AttemptOrigin, QueueIntent, QueueEntry, QueueAttempt, JournalCommand,
  QueueSnapshot,
}
use tellyq.QueuePolicy.{
  QueueDisposition, QueueReason, QueueAuthority, AttemptSettlement, QueueDecision, decision,
  Digests, Inputs, material, keyed, positioned, valid_attempt_origin, valid_attempt, valid_queue,
  session_matches, valid_completion, outdated, unusable, receiver_ready, decimal_on, decimal,
  decision_parts, decision_id, next_pending, offer, unsettled, advance, native_started, between,
  start_unresolved, unwarranted, settle_current, session_missing, unstarted_history, with_session,
  out_of_authority, needs_owner, command_open, if_fitting, authorized, is_canceled, stop_journaled,
  decide_queue,
}
use tellyq.QueuePolicy.Material.{material-injective}
use tellyq.QueuePolicy.Outcomes.Safety.{
  Settled, IsReady, IsSettlement, decide_queue-ready, decide_queue-settlement,
  decide_queue-complete,
}
use tellyq.QueuePolicy.Outcomes.Totality.{decide_queue_total}
use tellyq.Examples.Sessions.{film, tv, scope, policy, seen, whole, trace}

abbrev pub entry : String → QueueIntent → QueueEntry
entry item_id intent = record { item_id = item_id; content = film; intent = intent }

abbrev pub attempt : QueueIntent → Option String → QueueAttempt
attempt intent decision_id = record {
  attempt_id = "a1";
  item_id = "i1";
  intent = intent;
  created_at = record { ticks = 1; aware = true };
  decision_id = decision_id;
  origin = AttemptOrigin.local_start;
  reservation_id = none;
}

abbrev started : JournalCommand
started = record {
  command_id = "c1";
  attempt_id = "a1";
  action = CommandAction.start;
  state = ExecutionState.acknowledged;
  generation = 0;
  created_at = record { ticks = 1; aware = true };
  updated_at = record { ticks = 1; aware = true };
}

abbrev pub queue_of :
    Option String → List QueueEntry → List QueueAttempt → List JournalCommand → QueueSnapshot
queue_of current items attempts commands = record {
  queue_id = "q1";
  target = tv;
  revision = 4;
  generation = 0;
  current_item_id = current;
  cancellation_requested = false;
  items = items;
  attempts = attempts;
  commands = commands;
  mode = QueueMode.legacy;
  reconciliation_required = false;
  reservations = [];
  native_operations = [];
}

abbrev owner : QueueAuthority
owner = record {
  queue_id = "q1";
  generation = 0;
  connection_generation = "g1";
  started_monotonic = 0;
}

abbrev plain : Digests
plain = record { isoformat = λ at. "t"; show_float = λ x. "f"; sha256_hex = λ cs. "d" }

abbrev idle_receiver : PlaybackObservation
idle_receiver =
    let o = seen 0 2 PlayerState.unknown none none in
    record o {
      session_active = some false;
      session_id = none;
      content = none;
      application_id = none;
    }

abbrev inputs : QueueSnapshot → Option SessionSnapshot → Option PlaybackObservation → Inputs
inputs queue session receiver = record {
  queue = queue;
  session = session;
  now = 6;
  receiver = receiver;
  skip = none;
  policy = policy;
  digests = plain;
}

abbrev fresh : Inputs
fresh =
    inputs
      (queue_of none (entry "i1" QueueIntent.pending ∷ entry "i2" QueueIntent.pending ∷ []) [] [])
      none (some idle_receiver)

abbrev ended : Inputs
ended =
    inputs
      (queue_of (some "i1") (entry "i1" QueueIntent.current ∷ entry "i2" QueueIntent.pending ∷ [])
        (attempt QueueIntent.current none ∷ []) (started ∷ []))
      (some (run policy (new_session scope) whole)) none

abbrev over : Inputs
over =
    inputs
      (queue_of (some "i1") (entry "i1" QueueIntent.skipped ∷ [])
        (attempt QueueIntent.skipped (some "d1") ∷ []) (started ∷ []))
      (some (new_session scope)) none

-- Its line opens all that a decision runs through.
Decides : Inputs → QueueDecision → Type 0
unfolding decide_queue trace keyed positioned valid_attempt_origin valid_attempt valid_queue
    session_matches valid_completion outdated unusable receiver_ready decimal_on decimal
    decision_parts decision_id next_pending offer unsettled advance native_started between
    start_unresolved unwarranted settle_current session_missing unstarted_history with_session
    out_of_authority needs_owner command_open if_fitting authorized is_canceled stop_journaled
    material
Decides i d = decide_queue i (some owner) ≡ ok d

abbrev first_ready : QueueDecision
first_ready = decision fresh.queue QueueDisposition.ready QueueReason.next_item none (some "i1")

fresh_is_ready : decide_queue fresh (some owner) ≡ ok first_ready
unfolding Decides
fresh_is_ready = refl

decide_queue-ready_example :
    (a : QueueAuthority) × (item : QueueEntry) × (◌≡◌ {A = Option QueueAuthority}
      (some owner)
      (some a))
    × IsReady fresh a item first_ready
decide_queue-ready_example = decide_queue-ready fresh (some owner) first_ready fresh_is_ready refl

abbrev end_settled : AttemptSettlement
end_settled = record {
  attempt_id = "a1";
  item_id = "i1";
  outcome = QueueIntent.finished;
  decision_id = "queue-decision-v1-d";
}

abbrev ended_settles : QueueDecision
ended_settles =
    decision ended.queue QueueDisposition.hold QueueReason.completion_observed (some end_settled)
      none

ended_is_settled : decide_queue ended (some owner) ≡ ok ended_settles
unfolding Decides
ended_is_settled = refl

decide_queue-settlement_example :
    (at : QueueAttempt) × (session : SessionSnapshot) × IsSettlement ended ended_settles end_settled
      at session
decide_queue-settlement_example =
    decide_queue-settlement ended (some owner) ended_settles end_settled ended_is_settled refl

abbrev over_complete : QueueDecision
over_complete = decision over.queue QueueDisposition.complete QueueReason.exhausted none none

over_is_complete : decide_queue over (some owner) ≡ ok over_complete
unfolding Decides
over_is_complete = refl

decide_queue-complete_example : All Settled over.queue.items
decide_queue-complete_example =
    decide_queue-complete over (some owner) over_complete over_is_complete refl

decide_queue_total_example : Returns (decide_queue fresh none)
decide_queue_total_example = decide_queue_total fresh none

abbrev parts : List (List ℕ)
parts = (b'a' ∷ b':' ∷ []) ∷ [] ∷ (b'1' ∷ []) ∷ []

material-injective_example : parts ≡ parts
material-injective_example = material-injective parts parts refl
