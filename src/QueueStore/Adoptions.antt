-- ===== src/QueueStore/Adoptions.antt =====
-- tellyq/queue_store.py: a successor that was observed playing becomes the current attempt, and the
-- exit of a session that was canceled is recorded.
use Prim.Native.String.{◌++◌ as concat}
use tellyq.Prelude.{
  ℕ, String, Bool, true, false, Option, none, some, [], ◌∷◌, ◌++◌, Result, Fault, ok, raise_if,
  require, ◌>>=◌, ◌>>◌, ◌==◌, ◌!=◌, nat_eq, string_eq, bool_eq, option_eq, ◌&&◌, ◌||◌, not, any,
  leb, first, last, update_where, is_some, if◌then◌else◌,
}
use tellyq.Values.{
  Instant, is_fresh, Datetime, before, content_ref_eq, playback_target_eq, PlayerState,
  player_state_eq, IdentityUpdate, identity_update_eq, PlaybackObservation, SessionSnapshot,
}
use tellyq.Queue.{
  execution_state_eq, NativeReservationState, native_reservation_state_eq, NativeReservation,
  NativeOperation, AttemptOrigin, QueueIntent, queue_intent_eq, QueueEntry, QueueAttempt,
  queue_attempt_eq, QueueSnapshot,
}
use tellyq.QueueStore.Rows.{Database}
use tellyq.QueueStore.NativeRows.{attempt_named, is_enqueue, was_sent}
use tellyq.QueueStore.Transactions.{check_identity, check_timestamp, Change, transact}
use tellyq.QueueStore.Starts.{attempt_taken, set_intent}
use tellyq.QueueStore.Controls.{native_fence}
use tellyq.QueueStore.Settlements.{decision_taken}
use tellyq.QueueStore.NativeRequests.{find_reservation, item_named}

unfoldable pub successor_differs :
    QueueSnapshot → NativeReservation → QueueEntry → SessionSnapshot → Bool
successor_differs q r item observed =
    let scope = observed.scope in
    let request = scope.request in
    request.target != q.target
    || request.content != item.content
    || request.queue_item_id != item.item_id
    || request.attempt_id != r.successor_attempt_id
    || scope.application_id != some r.application_id
    || scope.session_id != r.session_id

unfoldable pub progressing :
    QueueSnapshot → QueueEntry → SessionSnapshot → Instant → PlaybackObservation → Bool
progressing q item observed now latest =
    let scope = observed.scope in
    latest.target == q.target
    && latest.content == some item.content
    && latest.session_id == some scope.session_id
    && latest.application_id == scope.application_id
    && latest.connection_generation == scope.connection_generation
    && is_some latest.playback_id
    && is_some latest.position
    && not latest.connection_reset
    && not (is_some latest.session_active)
    && latest.identity_update == IdentityUpdate.explicit
    && latest.state == PlayerState.playing
    && latest.ad_active == some false
    && not (leb latest.monotonic scope.started_monotonic)
    && is_fresh now latest.monotonic

abbrev pub progressing_in :
    QueueSnapshot → QueueEntry → SessionSnapshot → Instant → Option PlaybackObservation → Bool
progressing_in q item observed now none = false
progressing_in q item observed now (some latest) = progressing q item observed now latest

unfoldable pub adoptable :
    QueueSnapshot
    → NativeReservation
    → NativeOperation
    → QueueEntry
    → SessionSnapshot
    → Instant
    → Bool
adoptable q r enqueue item observed now =
    r.state == NativeReservationState.reserved
    && was_sent (some enqueue)
    && observed.evidence.receiver_playback_confirmed
    && observed.has_confirmed_playback
    && not observed.ownership_lost
    && not observed.stop_requested
    && progressing_in q item observed now observed.latest

-- `source.decision_id or "native-unobserved-" + decision_id`
abbrev pub unobserved_decision : Option String → String → String
unobserved_decision none decision_id = concat "native-unobserved-" decision_id
unobserved_decision (some given) decision_id =
    if given == "" then concat "native-unobserved-" decision_id else given

unfoldable pub is_open : QueueAttempt → Bool
is_open source =
    source.intent == QueueIntent.current || source.intent == QueueIntent.needs_attention

abbrev pub doubt_attempt : String → QueueAttempt → QueueAttempt
doubt_attempt decision_id a = record a {
  intent = QueueIntent.needs_attention;
  decision_id = some decision_id;
}

abbrev pub doubted_source_rows : QueueSnapshot → QueueAttempt → String → QueueSnapshot
doubted_source_rows q source decision_id = record q {
  attempts =
      update_where (λ a. a.attempt_id == source.attempt_id) (doubt_attempt decision_id) q.attempts;
  items = set_intent source.item_id QueueIntent.needs_attention q.items;
}

-- What becomes of a predecessor that was not seen to finish.
unfoldable pub left_behind : Database → QueueSnapshot → QueueAttempt → String → Result QueueSnapshot
left_behind db q source decision_id =
    let given = unobserved_decision source.decision_id decision_id in
    let taken = source.decision_id != some given && decision_taken db given in
    if source.intent == QueueIntent.finished
    then ok q
    else if is_open source
    then (raise_if taken Fault.queue_store_error
        >> ok (record (doubted_source_rows q source given) { reconciliation_required = true }))
    else ok (record q { reconciliation_required = true })

abbrev pub adopted_attempt : NativeReservation → QueueEntry → Datetime → QueueAttempt
adopted_attempt r item at = record {
  attempt_id = r.successor_attempt_id;
  item_id = item.item_id;
  intent = QueueIntent.current;
  created_at = at;
  decision_id = none;
  origin = AttemptOrigin.native_observed;
  reservation_id = some r.reservation_id;
}

abbrev pub adopt_reservation : String → NativeReservation → NativeReservation
adopt_reservation decision_id r = record r {
  state = NativeReservationState.adopted;
  adoption_decision_id = some decision_id;
}

abbrev pub adopted_rows :
    QueueSnapshot → NativeReservation → QueueEntry → Datetime → String → QueueSnapshot
adopted_rows q r item at decision_id = record q {
  attempts = q.attempts ++ (adopted_attempt r item at ∷ []);
  items = set_intent item.item_id QueueIntent.current q.items;
  current_item_id = some item.item_id;
  reservations =
      update_where (λ s. s.reservation_id == r.reservation_id) (adopt_reservation decision_id)
        q.reservations;
}

-- The unique columns that an adoption fills.
unfoldable pub adoption_taken : Database → NativeReservation → String → Bool
adoption_taken db r decision_id =
    any
      (λ q.
        any (λ s. s.adoption_decision_id == some decision_id) q.reservations
        || any (λ a. a.reservation_id == some r.reservation_id) q.attempts)
      db.queues

unfoldable pub new_adoption :
    Database → QueueSnapshot → NativeReservation → QueueEntry → Datetime → String → Result Change
new_adoption db q r item at decision_id = do
  raise_if (before at r.created_at) Fault.value_error
  source ← require (attempt_named q r.predecessor_attempt_id) Fault.stop_iteration
  raise_if (last q.attempts != some source) Fault.queue_store_error
  left ← left_behind db q source decision_id
  raise_if (attempt_taken db r.successor_attempt_id) Fault.queue_store_error
  raise_if (adoption_taken db r decision_id) Fault.queue_store_error
  ok (Change.rewritten (adopted_rows left r item at decision_id))

unfoldable pub adopt_undecided :
    Database
    → QueueSnapshot
    → NativeReservation
    → QueueEntry
    → SessionSnapshot
    → Instant
    → Datetime
    → String
    → ℕ
    → ℕ
    → Result Change
adopt_undecided db q r item observed now at decision_id expected generation = do
  native_fence expected generation q
  enqueue ← require (first (is_enqueue r) q.native_operations) Fault.stop_iteration
  raise_if (not (adoptable q r enqueue item observed now)) Fault.queue_store_error
  new_adoption db q r item at decision_id

abbrev pub adopt_of :
    Option String
    → Database
    → QueueSnapshot
    → NativeReservation
    → QueueEntry
    → SessionSnapshot
    → Instant
    → Datetime
    → String
    → ℕ
    → ℕ
    → Result Change
adopt_of none db q r item observed now at decision_id expected generation =
    adopt_undecided db q r item observed now at decision_id expected generation
adopt_of (some given) db q r item observed now at decision_id expected generation = do
  raise_if (given != decision_id) Fault.queue_store_error
  ok Change.unchanged

unfoldable pub adopt_body :
    Database
    → String
    → SessionSnapshot
    → Instant
    → Datetime
    → String
    → ℕ
    → ℕ
    → QueueSnapshot
    → Result Change
adopt_body db reservation_id observed now at decision_id expected generation q = do
  raise_if (q.generation != generation) Fault.revision_conflict
  r ← find_reservation q reservation_id
  item ← require (item_named q r.successor_item_id) Fault.stop_iteration
  raise_if (successor_differs q r item observed) Fault.queue_store_error
  adopt_of r.adoption_decision_id db q r item observed now at decision_id expected generation

unfoldable pub adopt_native_successor :
    Database
    → String
    → String
    → SessionSnapshot
    → Instant
    → Datetime
    → String
    → ℕ
    → ℕ
    → Result (QueueSnapshot × Database)
adopt_native_successor db queue_id reservation_id observed now at decision_id expected generation =
    do
      check_identity decision_id
      check_timestamp at
      transact db queue_id
          (adopt_body db reservation_id observed now at decision_id expected generation)
