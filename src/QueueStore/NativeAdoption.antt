-- ===== src/QueueStore/NativeAdoption.antt =====
-- tellyq/queue_store.py: what an adoption of a successor has found.
use tellyq.Prelude.{
  ℕ, ◌≡◌, refl, sym, ap, String, true, false, Option, none, some, Fault, ok, require, require-ok,
  raise_if-ok, Yields, Yields-bind, Yields-raise_if, Yields-of_ok, ok-injective, ◌==◌, ◌!=◌, nat_eq,
  string_eq, option_eq, not, first, last, is_blank, ◌⊎◌, inl, inr, arith, is_some, Bool, bool_eq,
  &&-true, leb, ◌<◌, ◌≤◌, ◌-◌,
}
use tellyq.Values.{
  Instant, five_seconds, is_fresh, Datetime, before, playback_target_eq, content_ref_eq,
  IdentityUpdate, identity_update_eq, PlayerState, player_state_eq, PlaybackScope, SessionSnapshot,
  PlaybackObservation,
}
use tellyq.Queue.{
  NativeReservation, NativeReservationState, native_reservation_state_eq, NativeOperation,
  QueueEntry, queue_attempt_eq, QueueSnapshot,
}
use tellyq.QueueStore.{
  Database, find_queue, Change, commit, native_fence, attempt_named, is_enqueue, was_sent,
  find_reservation, item_named, attempt_taken, successor_differs, progressing, adoptable,
  left_behind, adoption_taken, new_adoption, adopt_undecided, adopt_of, adopt_body,
  adopt_native_successor,
}
use tellyq.QueueStore.Commits.{transact-Applied}

-- The session was authorized for the reservation's successor, in the reservation's own session.
pub record IsAuthorized (q : QueueSnapshot) (r : NativeReservation) (item : QueueEntry)
    (observed : SessionSnapshot) : Type 0 where
  pub target : (observed.scope.request.target == q.target) ≡ true
  pub content : (observed.scope.request.content == item.content) ≡ true
  pub item_id : (observed.scope.request.queue_item_id == item.item_id) ≡ true
  pub attempt_id : (observed.scope.request.attempt_id == r.successor_attempt_id) ≡ true
  pub application_id : (observed.scope.application_id == some r.application_id) ≡ true
  pub session_id : (observed.scope.session_id == r.session_id) ≡ true

-- The sample shows the successor playing in that session, after its start and fresh at the time.
pub record IsProgress (q : QueueSnapshot) (item : QueueEntry) (scope : PlaybackScope)
    (now : Instant) (o : PlaybackObservation) : Type 0 where
  pub target : (o.target == q.target) ≡ true
  pub content : (o.content == some item.content) ≡ true
  pub session_id : (o.session_id == some scope.session_id) ≡ true
  pub application_id : (o.application_id == scope.application_id) ≡ true
  pub connection : (o.connection_generation == scope.connection_generation) ≡ true
  pub playback : is_some o.playback_id ≡ true
  pub positioned : is_some o.position ≡ true
  pub connected : o.connection_reset ≡ false
  pub media : o.session_active ≡ none
  pub identified : (o.identity_update == IdentityUpdate.explicit) ≡ true
  pub playing : (o.state == PlayerState.playing) ≡ true
  pub no_ad : (o.ad_active == some false) ≡ true
  pub started : scope.started_monotonic < o.monotonic
  pub past : o.monotonic ≤ now
  pub recent : now - o.monotonic ≤ five_seconds

-- The reservation was outstanding and its operation sent; the session was authorized for its
-- successor, had confirmed playback, was owned and was not asked to stop; and its latest sample
-- shows the successor's progress, fresh at the time.
pub record IsObserved (q : QueueSnapshot) (reservation_id : String) (observed : SessionSnapshot)
    (now : Instant) : Type 0 where
  pub reservation : NativeReservation
  pub item : QueueEntry
  pub enqueue : NativeOperation
  pub latest : PlaybackObservation
  pub reserved : find_reservation q reservation_id ≡ ok reservation
  pub outstanding : (reservation.state == NativeReservationState.reserved) ≡ true
  pub listed : item_named q reservation.successor_item_id ≡ some item
  pub ordered : first (is_enqueue reservation) q.native_operations ≡ some enqueue
  pub sent : was_sent (some enqueue) ≡ true
  pub authorized : IsAuthorized q reservation item observed
  pub owned : observed.ownership_lost ≡ false
  pub unstopped : observed.stop_requested ≡ false
  pub confirmed : observed.has_confirmed_playback ≡ true
  pub progressed : observed.evidence.receiver_playback_confirmed ≡ true
  pub sampled : observed.latest ≡ some latest
  pub shows : IsProgress q item observed.scope now latest

IsAuthorized-successor_differs :
    (q : QueueSnapshot) (r : NativeReservation) (item : QueueEntry) (observed : SessionSnapshot)
    → successor_differs q r item observed ≡ false
    → IsAuthorized q r item observed
unfolding successor_differs
IsAuthorized-successor_differs q r item observed h = ground arith

false_of_not : (b : Bool) → not b ≡ true → b ≡ false
false_of_not b h = ground arith

absent : (active : Option Bool) → not (is_some active) ≡ true → active ≡ none
absent none h = refl
absent (some b) h = ground arith

after_start : (start at : Instant) → not (leb at start) ≡ true → start < at
after_start start at h = ground arith

fresh_within : (now at : Instant) → is_fresh now at ≡ true → (at ≤ now) × (now - at ≤ five_seconds)
fresh_within now at h = (ground arith, ground arith)

IsProgress-progressing :
    (q : QueueSnapshot) (item : QueueEntry) (observed : SessionSnapshot) (now : Instant)
    (o : PlaybackObservation)
    → progressing q item observed now o ≡ true
    → IsProgress q item observed.scope now o
unfolding progressing
IsProgress-progressing q item observed now o h =
    let (rest1, fresh) = &&-true _ _ h in
    let (rest2, started) = &&-true _ _ rest1 in
    let (rest3, no_ad) = &&-true _ _ rest2 in
    let (rest4, playing) = &&-true _ _ rest3 in
    let (rest5, identified) = &&-true _ _ rest4 in
    let (rest6, media) = &&-true _ _ rest5 in
    let (rest7, connected) = &&-true _ _ rest6 in
    let (rest8, positioned) = &&-true _ _ rest7 in
    let (rest9, playback) = &&-true _ _ rest8 in
    let (rest10, connection) = &&-true _ _ rest9 in
    let (rest11, application_id) = &&-true _ _ rest10 in
    let (rest12, session_id) = &&-true _ _ rest11 in
    let (target, content) = &&-true _ _ rest12 in
    let (past, recent) = fresh_within now o.monotonic fresh in
    record {
      target = target;
      content = content;
      session_id = session_id;
      application_id = application_id;
      connection = connection;
      playback = playback;
      positioned = positioned;
      connected = false_of_not _ connected;
      media = absent _ media;
      identified = identified;
      playing = playing;
      no_ad = no_ad;
      started = after_start _ _ started;
      past = past;
      recent = recent;
    }

abbrev AdoptsIn : QueueSnapshot → String → SessionSnapshot → Instant → Change → Type 0
AdoptsIn q reservation_id observed now Change.unchanged = Unit
AdoptsIn q reservation_id observed now (Change.rewritten rows) =
    IsObserved q reservation_id observed now

IsObserved-adoptable :
    (latest : Option PlaybackObservation) (q : QueueSnapshot) (reservation_id : String)
    (r : NativeReservation) (item : QueueEntry) (enqueue : NativeOperation)
    (observed : SessionSnapshot) (now : Instant)
    → observed.latest ≡ latest
    → find_reservation q reservation_id ≡ ok r
    → item_named q r.successor_item_id ≡ some item
    → first (is_enqueue r) q.native_operations ≡ some enqueue
    → successor_differs q r item observed ≡ false
    → adoptable q r enqueue item observed now ≡ true
    → IsObserved q reservation_id observed now
unfolding adoptable
IsObserved-adoptable none q reservation_id r item enqueue observed now l f i o d a = ground arith
IsObserved-adoptable (some latest) q reservation_id r item enqueue observed now l f i o d a =
    record {
      reservation = r;
      item = item;
      enqueue = enqueue;
      latest = latest;
      reserved = f;
      outstanding = ground arith;
      listed = i;
      ordered = o;
      sent = ground arith;
      authorized = IsAuthorized-successor_differs q r item observed d;
      owned = ground arith;
      unstopped = ground arith;
      confirmed = ground arith;
      progressed = ground arith;
      sampled = l;
      shows = IsProgress-progressing q item observed now latest (ground arith);
    }

adopt_of-Adopts :
    (given : Option String) (db : Database) (q : QueueSnapshot) (reservation_id : String)
    (r : NativeReservation) (item : QueueEntry) (observed : SessionSnapshot) (now : Instant)
    (at : Datetime) (decision_id : String) (expected generation : ℕ)
    → find_reservation q reservation_id ≡ ok r
    → item_named q r.successor_item_id ≡ some item
    → successor_differs q r item observed ≡ false
    → Yields
        (AdoptsIn q reservation_id observed now)
        (adopt_of given db q r item observed now at decision_id expected generation)
unfolding adopt_undecided new_adoption
adopt_of-Adopts none db q reservation_id r item observed now at decision_id expected generation f i
      d =
    let P = AdoptsIn q reservation_id observed now in
    Yields-bind P (native_fence expected generation q) _ (λ _ _.
      Yields-bind P (require (first (is_enqueue r) q.native_operations) Fault.stop_iteration) _
        (λ enqueue e.
          Yields-raise_if P (not (adoptable q r enqueue item observed now)) _ _ (λ adopting.
            Yields-raise_if P (before at r.created_at) _ _ (λ _.
              Yields-bind P
                (require (attempt_named q r.predecessor_attempt_id) Fault.stop_iteration) _
                (λ source _. Yields-raise_if P (last q.attempts != some source) _ _ (λ _.
                  Yields-bind P (left_behind db q source decision_id) _ (λ left _.
                    Yields-raise_if P (attempt_taken db r.successor_attempt_id) _ _ (λ _.
                      Yields-raise_if P (adoption_taken db r decision_id) _ _ (λ _.
                        IsObserved-adoptable observed.latest q reservation_id r item enqueue
                          observed now refl f i
                          (require-ok (first (is_enqueue r) q.native_operations)
                            Fault.stop_iteration e)
                          d (ground arith))))))))))
adopt_of-Adopts (some given) db q reservation_id r item observed now at decision_id expected
      generation f i d =
    Yields-raise_if (AdoptsIn q reservation_id observed now) (given != decision_id) _ _ (λ _. tt)

adopt_body-Adopts :
    (db : Database) (reservation_id : String) (observed : SessionSnapshot) (now : Instant)
    (at : Datetime) (decision_id : String) (expected generation : ℕ) (q : QueueSnapshot)
    → Yields
        (AdoptsIn q reservation_id observed now)
        (adopt_body db reservation_id observed now at decision_id expected generation q)
unfolding adopt_body
adopt_body-Adopts db reservation_id observed now at decision_id expected generation q =
    let P = AdoptsIn q reservation_id observed now in
    Yields-raise_if P (q.generation != generation) _ _ (λ _.
      Yields-bind P (find_reservation q reservation_id) _ (λ r f.
        Yields-bind P (require (item_named q r.successor_item_id) Fault.stop_iteration) _ (λ item e.
          let i = require-ok (item_named q r.successor_item_id) Fault.stop_iteration e in
          Yields-raise_if P (successor_differs q r item observed) _ _ (λ d.
            adopt_of-Adopts r.adoption_decision_id db q reservation_id r item observed now at
              decision_id expected generation f i d))))

Adopts-after :
    (db : Database) (q : QueueSnapshot) (reservation_id : String) (observed : SessionSnapshot)
    (now : Instant) (change : Change) {q' : QueueSnapshot} {db' : Database}
    → AdoptsIn q reservation_id observed now change
    → commit db q change ≡ ok (q', db')
    → (db' ≡ db) ⊎ IsObserved q reservation_id observed now
Adopts-after db q reservation_id observed now Change.unchanged h e =
    inl (sym (ap (λ r. r.1) (ok-injective e)))
Adopts-after db q reservation_id observed now (Change.rewritten rows) h e = inr h

-- An adoption that returns either leaves the database as it was, or has found the reservation
-- outstanding and its operation sent, and the session authorized for the successor, owned, not asked
-- to stop, and with playback that progress has confirmed. Its latest sample then shows the
-- successor itself playing with no ad, at a position, after the session's start and fresh.
pub adopt_native_successor-IsObserved :
    (db : Database) (queue_id reservation_id : String) (observed : SessionSnapshot) (now : Instant)
    (at : Datetime) (decision_id : String) (expected generation : ℕ) {q' : QueueSnapshot}
    {db' : Database}
    → adopt_native_successor db queue_id reservation_id observed now at decision_id expected
        generation
      ≡ ok (q', db')
    → (q : QueueSnapshot) × (find_queue queue_id db.queues ≡ some q)
      × ((db' ≡ db) ⊎ IsObserved q reservation_id observed now)
unfolding adopt_native_successor
adopt_native_successor-IsObserved db queue_id reservation_id observed now at decision_id expected
      generation e =
    let body = adopt_body db reservation_id observed now at decision_id expected generation in
    let named = raise_if-ok (is_blank decision_id) Fault.value_error _ e in
    let zoned = raise_if-ok (not at.aware) Fault.value_error _ named.1 in
    let applied = transact-Applied db queue_id body zoned.1 in
    (
      applied.q,
      applied.found,
      Adopts-after db applied.q reservation_id observed now applied.change
          (Yields-of_ok (AdoptsIn applied.q reservation_id observed now) (body applied.q)
            (adopt_body-Adopts db reservation_id observed now at decision_id expected generation
              applied.q)
            applied.asked)
          applied.done,
    )
