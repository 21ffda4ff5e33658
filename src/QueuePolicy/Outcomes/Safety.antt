-- ===== src/QueuePolicy/Outcomes/Safety.antt =====
-- tellyq/domain/queue_policy.py: what a caller may rely on when a decision proposes something.
use tellyq.Prelude.{
  eq_iff, ◌≡◌, Bool, true, false, Option, none, some, List, [], ◌∷◌, ◌++◌, ok, ◌==◌, nat_eq,
  string_eq, not, ◌||◌, is_some, last, arith, All, All-any-false, All-append_left, All-first-none,
  first-IsFirst, String, subst, ◌⊎◌, inl, inr, refl, ◌&&◌, sym, ap, ◌∙◌, if◌then◌else◌,
}
use tellyq.Values.{SessionSnapshot}
use tellyq.Queue.{
  QueueMode, queue_mode_eq, is_unresolved, QueueIntent, queue_intent_eq, QueueEntry, QueueAttempt,
  QueueSnapshot,
}
use tellyq.QueuePolicy.Decisions.{
  QueueDisposition, QueueReason, QueueAuthority, AttemptSettlement, QueueDecision, SkipIntent,
  decision,
}
use tellyq.QueuePolicy.Queues.{is_settled, pending_last, valid_queue}
use tellyq.QueuePolicy.Receivers.{valid_completion, receiver_ready}
use tellyq.QueuePolicy.Decide.{
  Inputs, next_pending, unsettled, native_started, unwarranted, settled_as, settlement_of,
  out_of_authority, command_open, is_canceled, skip_mismatched, decide_queue,
}
use tellyq.QueuePolicy.Outcomes.{
  IsCleared, IsRested, IsSettling, Outcome, waits, settles, completes, readies,
}
use tellyq.QueuePolicy.Outcomes.Cases.{decide_queue-Outcome}

abbrev pub Pending : QueueEntry → Type 0
Pending item = item.intent ≡ QueueIntent.pending

abbrev pub Settled : QueueEntry → Type 0
Settled item = is_settled item.intent ≡ true

-- The queue is played up to `item`, and everything behind it still waits.
pub record IsUpTo (queue : QueueSnapshot) (item : QueueEntry) : Type 0 where
  pub before : List QueueEntry
  pub after : List QueueEntry
  pub parts : queue.items ≡ before ++ (item ∷ after)
  pub played : All Settled before
  pub next : Pending item
  pub waiting : All Pending after

pub record IsReady (i : Inputs) (a : QueueAuthority) (item : QueueEntry) (d : QueueDecision)
    : Type 0 where
  pub named : d.next_item_id ≡ some item.item_id
  pub unsettled_none : d.settlement ≡ none
  pub order : IsUpTo i.queue item
  pub uncanceled : i.queue.cancellation_requested ≡ false
  pub owned : a.generation ≡ i.queue.generation
  pub resolved : All (λ c. is_unresolved c.state ≡ false) i.queue.commands
  pub reconciled : i.queue.reconciliation_required ≡ false
  pub local : (i.queue.mode ≡ QueueMode.legacy) ⊎ (i.queue.attempts ≡ [])
  pub free : receiver_ready i.queue i.session a i.receiver i.now i.policy ≡ true

pending_of_seen : (items : List QueueEntry) → pending_last true items ≡ true → All Pending items
pending_of_seen [] h = tt
pending_of_seen (item ∷ items) h = (ground arith, pending_of_seen items (ground arith))

pending_after :
    (seen : Bool) (before : List QueueEntry) (item : QueueEntry) (after : List QueueEntry)
    → Pending item
    → pending_last seen (before ++ (item ∷ after)) ≡ true
    → All Pending after
pending_after seen [] item after next h = pending_of_seen after (ground arith)
pending_after seen (other ∷ before) item after next h =
    pending_after (seen || other.intent == QueueIntent.pending) before item after next
      (ground arith)

valid_queue-pending_last :
    (queue : QueueSnapshot) → valid_queue queue ≡ true → pending_last false queue.items ≡ true
unfolding valid_queue
valid_queue-pending_last queue h = ground arith

played_or_pending :
    (items : List QueueEntry)
    → All (λ item. not (is_settled item.intent || item.intent == QueueIntent.pending) ≡ false) items
    → All (λ item. (item.intent == QueueIntent.pending) ≡ false) items
    → All Settled items
played_or_pending [] h k = tt
played_or_pending (item ∷ items) h k = (ground arith, played_or_pending items h.1 k.1)

IsUpTo-next :
    (queue : QueueSnapshot) (item : QueueEntry)
    → valid_queue queue ≡ true
    → unsettled queue ≡ false
    → next_pending queue ≡ some item
    → IsUpTo queue item
unfolding unsettled next_pending
IsUpTo-next queue item valid settled found =
    let f = first-IsFirst (λ i. i.intent == QueueIntent.pending) queue.items item found in
    let h =
      subst
        (λ items.
          All (λ e. not (is_settled e.intent || e.intent == QueueIntent.pending) ≡ false) items)
        f.parts (All-any-false _ queue.items settled) in
    let next : Pending item = ground (arith, f.passes) in
    record {
      before = f.before;
      after = f.after;
      parts = f.parts;
      played =
          played_or_pending f.before (All-append_left _ f.before (item ∷ f.after) h) f.none_before;
      next = next;
      waiting = pending_after false f.before item f.after next (
          subst (λ items. pending_last false items ≡ true) f.parts
            (valid_queue-pending_last queue valid));
    }

ready_of_parts :
    (i : Inputs) (a : QueueAuthority) (item : QueueEntry) (d : QueueDecision)
    → IsCleared i a
    → IsRested i
    → next_pending i.queue ≡ some item
    → receiver_ready i.queue i.session a i.receiver i.now i.policy ≡ true
    → decision i.queue QueueDisposition.ready QueueReason.next_item none (some item.item_id) ≡ d
    → IsReady i a item d
unfolding is_canceled out_of_authority command_open native_started
ready_of_parts i a item d cleared rested found free e = record {
  named = ground arith;
  unsettled_none = ground arith;
  order = IsUpTo-next i.queue item cleared.consistent rested.settled found;
  uncanceled = ground (arith, cleared.uncanceled);
  owned = ground (arith, cleared.owned);
  resolved = All-any-false _ i.queue.commands cleared.resolved;
  reconciled = rested.reconciled;
  local = ground (arith, rested.local);
  free = free;
}

-- A decision that is ready names the first pending item of a queue that is settled before it and
-- pending behind it, and settles nothing. The queue is then not canceled and needs no
-- reconciliation, no command of its journal is unresolved, the authority has its generation, a
-- native queue has no attempt yet, and the receiver has been found ready.
pub decide_queue-ready :
    (i : Inputs) (authority : Option QueueAuthority) (d : QueueDecision)
    → decide_queue i authority ≡ ok d
    → d.disposition ≡ QueueDisposition.ready
    → (a : QueueAuthority) × (item : QueueEntry) × (authority ≡ some a) × IsReady i a item d
decide_queue-ready i authority d h ready = from (decide_queue-Outcome i authority d h)
  where
    from :
        Outcome i authority d
        → (a : QueueAuthority) × (item : QueueEntry) × (authority ≡ some a) × IsReady i a item d
    from (waits reason e) = cc
    from (settles a attempt session id given cleared settling e) = cc
    from (completes a given cleared rested found e) = cc
    from (readies a item given cleared rested found free e) =
        (a, item, given, ready_of_parts i a item d cleared rested found free e)

abbrev pub Names : SkipIntent → QueueAttempt → Type 0
Names skip attempt = (skip.attempt_id ≡ attempt.attempt_id) × (skip.item_id ≡ attempt.item_id)

-- What a settlement rests on: the latest attempt is current; it is finished by a completion that is
-- valid now, or skipped by an intent that names it and its item; and nothing is started along with
-- it.
pub record IsSettlement (i : Inputs) (d : QueueDecision) (s : AttemptSettlement)
    (attempt : QueueAttempt) (session : SessionSnapshot) : Type 0 where
  pub holds : d.disposition ≡ QueueDisposition.hold
  pub starts_nothing : d.next_item_id ≡ none
  pub latest : last i.queue.attempts ≡ some attempt
  pub current : attempt.intent ≡ QueueIntent.current
  pub named : (s.attempt_id ≡ attempt.attempt_id) × (s.item_id ≡ attempt.item_id)
  pub known : i.session ≡ some session
  pub uncanceled : (i.queue.cancellation_requested ≡ false) × (session.stop_requested ≡ false)
  pub warranted :
      ((s.outcome ≡ QueueIntent.skipped)
        × (skip : SkipIntent) × (i.skip ≡ some skip)
        × Names skip attempt)
      ⊎ ((s.outcome ≡ QueueIntent.finished)
          × (i.skip ≡ none)
          × (valid_completion session i.now ≡ true))

Names-skip_mismatched :
    (skip : SkipIntent) (attempt : QueueAttempt)
    → skip_mismatched (some skip) (some attempt) ≡ false
    → Names skip attempt
Names-skip_mismatched skip attempt h = (
  (eq_iff skip.attempt_id attempt.attempt_id).0 (ground arith),
  (eq_iff skip.item_id attempt.item_id).0 (ground arith),
)

warranted_by :
    (skip : Option SkipIntent) (attempt : QueueAttempt)
    → skip_mismatched skip (some attempt) ≡ false
    → (valid : Bool) → (not (is_some skip) && not valid) ≡ false
    → ((skip ≡ none) × (valid ≡ true))
      ⊎ ((given : SkipIntent) × (skip ≡ some given) × Names given attempt)
warranted_by none attempt h valid w = inl (refl, ground arith)
warranted_by (some given) attempt h valid w =
    inr (given, refl, Names-skip_mismatched given attempt h)

warranted_as :
    (i : Inputs) (s : AttemptSettlement) (attempt : QueueAttempt) (id : String)
    → settlement_of i attempt id ≡ s
    → (valid : Bool)
    → ((i.skip ≡ none) × (valid ≡ true))
      ⊎ ((given : SkipIntent) × (i.skip ≡ some given) × Names given attempt)
    → ((s.outcome ≡ QueueIntent.skipped)
        × (skip : SkipIntent) × (i.skip ≡ some skip)
        × Names skip attempt)
      ⊎ ((s.outcome ≡ QueueIntent.finished) × (i.skip ≡ none) × (valid ≡ true))
warranted_as i s attempt id chosen valid by =
    let outcome = sym (ap (λ x. x.outcome) chosen) in
    let of_skip =
      λ (k : Option SkipIntent). if is_some k then QueueIntent.skipped else QueueIntent.finished in
    elim by [
      | inl (unskipped, v) ↦ inr (outcome ∙ ap of_skip unskipped, unskipped, v)
      | inr (given, skipped, names) ↦ inl (outcome ∙ ap of_skip skipped, given, skipped, names)
    ]

settlement_of_parts :
    (i : Inputs) (a : QueueAuthority) (d : QueueDecision) (s : AttemptSettlement)
    (attempt : QueueAttempt) (session : SessionSnapshot) (id : String)
    → d.settlement ≡ some s
    → IsCleared i a
    → IsSettling i attempt session id
    → settled_as i attempt session id ≡ d
    → IsSettlement i d s attempt session
unfolding is_canceled unwarranted
settlement_of_parts i a d s attempt session id given cleared settling e =
    let chosen : settlement_of i attempt id ≡ s = ground arith in
    record {
      holds = ground arith;
      starts_nothing = ground arith;
      latest = settling.latest;
      current = ground (arith, settling.current);
      named = ground arith;
      known = settling.present;
      uncanceled = ground arith;
      warranted = warranted_as i s attempt id chosen (valid_completion session i.now) (
          warranted_by i.skip attempt settling.matching (valid_completion session i.now)
            settling.warranted);
    }

-- A decision that settles an attempt holds and names no next item. The attempt is the latest one
-- and current, neither the queue nor the session is canceled, and the outcome is skipped with a
-- skip intent that names the attempt and its item, or finished with no skip intent and with a
-- completion that is valid at the time.
pub decide_queue-settlement :
    (i : Inputs) (authority : Option QueueAuthority) (d : QueueDecision) (s : AttemptSettlement)
    → decide_queue i authority ≡ ok d
    → d.settlement ≡ some s
    → (attempt : QueueAttempt) × (session : SessionSnapshot) × IsSettlement i d s attempt session
decide_queue-settlement i authority d s h given = from (decide_queue-Outcome i authority d h)
  where
    from :
        Outcome i authority d
        → (attempt : QueueAttempt) × (session : SessionSnapshot) × IsSettlement i d s attempt
            session
    from (waits reason e) = cc
    from (settles a attempt session id _ cleared settling e) =
        (attempt, session, settlement_of_parts i a d s attempt session id given cleared settling e)
    from (completes a _ cleared rested found e) = cc
    from (readies a item _ cleared rested found free e) = cc

complete_of_parts :
    (i : Inputs)
    → unsettled i.queue ≡ false
    → next_pending i.queue ≡ none
    → All Settled i.queue.items
unfolding unsettled next_pending
complete_of_parts i settled found =
    played_or_pending i.queue.items (All-any-false _ i.queue.items settled)
      (All-first-none _ i.queue.items found)

-- A decision that the queue is complete comes only when every item is finished or skipped.
pub decide_queue-complete :
    (i : Inputs) (authority : Option QueueAuthority) (d : QueueDecision)
    → decide_queue i authority ≡ ok d
    → d.disposition ≡ QueueDisposition.complete
    → All Settled i.queue.items
decide_queue-complete i authority d h complete = from (decide_queue-Outcome i authority d h)
  where
    from : Outcome i authority d → All Settled i.queue.items
    from (waits reason e) = cc
    from (settles a attempt session id _ cleared settling e) = cc
    from (completes a _ cleared rested found e) = complete_of_parts i rested.settled found
    from (readies a item _ cleared rested found free e) = cc
