-- ===== src/Policy/Runs.antt =====
-- tellyq/domain/policy.py and tellyq/application.py: a session as its player drives it, one event
-- after another. The functions are pure: where one raises, the player still holds the session it
-- passed in.
pub mod Safety
use tellyq.Prelude.{ℕ, ◌≤◌, ◌≡◌, Option, none, some, false, Result, ok, err, List, [], ◌∷◌}
use tellyq.Values.{
  Instant, PlaybackObservation, check_observation, CommandReceipt, DisplayEvidence, SessionSnapshot,
  EvidencePolicy,
}
use tellyq.Policy.Intents.{
  request_stop, record_receipt, record_display, refresh, invalidate_history,
}
use tellyq.Policy.Observe.{observe}

-- `replace(snapshot, release_boundary=…, release_confirmed=False)`
unfoldable pub begin_release : SessionSnapshot → Instant → SessionSnapshot
begin_release s now = record s { release_boundary = some now; release_confirmed = false }

-- `replace(snapshot, release_confirmed=False, release_boundary=None)`
unfoldable pub withdraw_release : SessionSnapshot → SessionSnapshot
withdraw_release s = record s { release_confirmed = false; release_boundary = none }

-- What the player does with a session. A release begins and is withdrawn without the policy.
pub data Event : Type 0 where
  sample : PlaybackObservation → Event
  expiry : Event
  stop_intent : Option Instant → Event
  receipt : CommandReceipt → Event
  display : DisplayEvidence → Event
  gap : Event
  release release_withdrawn : Event

unfoldable pub step : EvidencePolicy → Instant → Event → SessionSnapshot → Result SessionSnapshot
step policy now (Event.sample o) s = observe s o now policy
step policy now Event.expiry s = refresh s now policy
step policy now (Event.stop_intent boundary) s = ok (request_stop s boundary)
step policy now (Event.receipt r) s = record_receipt s r
step policy now (Event.display d) s = record_display s d
step policy now Event.gap s = ok (invalidate_history s)
step policy now Event.release s = ok (begin_release s now)
step policy now Event.release_withdrawn s = ok (withdraw_release s)

abbrev pub kept_by : SessionSnapshot → Result SessionSnapshot → SessionSnapshot
kept_by s (ok t) = t
kept_by s (err fault) = s

unfoldable pub run : EvidencePolicy → SessionSnapshot → List (Instant × Event) → SessionSnapshot
run policy s [] = s
run policy s ((now, event) ∷ events) = run policy (kept_by s (step policy now event s)) events

-- The clock does not go back, and every sample has passed its constructor.
abbrev pub Checked : Event → Type 0
Checked (Event.sample o) = check_observation o ≡ ok o
Checked _ = Unit

abbrev pub InOrder : Instant → List (Instant × Event) → Type 0
InOrder start [] = Unit
InOrder start ((now, event) ∷ events) = (start ≤ now) × Checked event × InOrder now events

abbrev pub end_time : Instant → List (Instant × Event) → Instant
end_time start [] = start
end_time start ((now, event) ∷ events) = end_time now events
