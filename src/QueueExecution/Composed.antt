-- ===== src/QueueExecution/Composed.antt =====
-- tellyq/queue_execution.py over tellyq/queue_store.py: the executor on the durable store, between
-- calls of other owners on the same database.
use tellyq.Prelude.{
  suc, ◌≤◌, ◌≡◌, refl, String, Bool, true, Option, none, some, List, [], ◌∷◌, Result,
}
use tellyq.Values.{CommandReceipt, Datetime}
use tellyq.QueueStore.{Call, run_store}
use tellyq.QueueStore.Advances.{claimed}
use tellyq.Queue.{QueueSnapshot}
use tellyq.QueueStore.Histories.{run_store-keeps}
use tellyq.QueueExecution.{Action, QueueCommandRequest, QueueDispatch, execute}
use tellyq.QueueExecution.Laws.{Quiet}
use tellyq.QueueExecution.Rounds.{rounds, AllQuiet}
use tellyq.QueueExecution.Once.{execute-once}
use tellyq.QueueExecution.Watched.{IsQuietGuard}
use tellyq.QueueExecution.Stored.{
  Machine, ledger_of, StaysClaimed, claimed-StaysClaimed, database_port, database_laws,
}

-- The device: it answers as it will, and each call is counted.
abbrev pub device :
    (QueueDispatch → Machine → Result CommandReceipt)
    → QueueDispatch
    → Action Machine CommandReceipt
device answer d w = (answer d w, record w { device_calls = suc w.device_calls })

abbrev pub asked : Option (Machine → Result Bool) → Option (Action Machine Bool)
asked none = none
asked (some may_start) = some (λ w. (may_start w, w))

-- Other owners' calls, and the time that passes.
abbrev pub meanwhile : List (String × Call) → Datetime → Machine → Machine
meanwhile calls at w = record w { database = run_store w.database calls; clock = at }

abbrev pub between_runs : List (List (String × Call) × Datetime) → List (Machine → Machine)
between_runs [] = []
between_runs ((calls, at) ∷ rest) = meanwhile calls at ∷ between_runs rest

meanwhile-Quiet :
    (claims : String → QueueSnapshot → Bool)
    → StaysClaimed claims
    → (calls : List (String × Call)) (at : Datetime) (w : Machine)
    → Quiet (ledger_of claims) w (meanwhile calls at w)
meanwhile-Quiet claims stays calls at w = (
  λ q c held.
      run_store-keeps (λ r. claims c r ≡ true) (λ n r rows advances h. stays n r rows advances c h)
        w.database q calls held,
  refl,
)

pub between_runs-AllQuiet :
    (claims : String → QueueSnapshot → Bool)
    → StaysClaimed claims
    → (steps : List (List (String × Call) × Datetime))
    → AllQuiet (ledger_of claims) (between_runs steps)
between_runs-AllQuiet claims stays [] = tt
between_runs-AllQuiet claims stays ((calls, at) ∷ rest) =
    (meanwhile-Quiet claims stays calls at, between_runs-AllQuiet claims stays rest)

pub asked-IsQuietGuard :
    (claims : String → QueueSnapshot → Bool) (may_start : Option (Machine → Result Bool))
    → IsQuietGuard (ledger_of claims) (asked may_start)
asked-IsQuietGuard claims none = tt
asked-IsQuietGuard claims (some may_start) = λ w. (λ q c h. h, refl)

-- Executed on the durable store again and again, with any calls of other owners in between and
-- whatever the device and the guard answer, a request calls the device at most once.
pub executed-once :
    (answer : QueueDispatch → Machine → Result CommandReceipt)
    (may_start : Option (Machine → Result Bool)) (request : QueueCommandRequest)
    (steps : List (List (String × Call) × Datetime)) (w : Machine)
    → (rounds
        (execute database_port (asked may_start) (device answer) request)
        (between_runs steps)
        w).device_calls
      ≤ suc w.device_calls
unfolding database_laws
executed-once answer may_start request steps w =
    execute-once database_port database_laws request (device answer) (λ d u. (λ q c h. h, refl))
      (asked may_start) (asked-IsQuietGuard claimed may_start) (between_runs steps) w
      (between_runs-AllQuiet claimed claimed-StaysClaimed steps)
