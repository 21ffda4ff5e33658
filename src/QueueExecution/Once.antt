-- ===== src/QueueExecution/Once.antt =====
-- tellyq/queue_execution.py: a command reaches the device once, and only after it was claimed.
use tellyq.Prelude.{suc, ◌≤◌, Bool, Option, List}
use tellyq.QueueExecution.{
  Action, StorePort, QueueCommandRequest, QueueDispatch, DeviceOperation, execute,
}
use tellyq.QueueExecution.Laws.{StoreLaws, Rings}
use tellyq.QueueExecution.Effects.{Calls-Ends}
use tellyq.QueueExecution.Rounds.{rounds, AllQuiet, rounds-once}
use tellyq.QueueExecution.Runs.{execute-Ends}
use tellyq.QueueExecution.Watched.{IsQuietGuard, watch}

-- However often a request is executed, and whatever others do to the store in between without calling
-- the device, the device is called for it at most once.
pub execute-once :
    (s : StorePort) (laws : StoreLaws s) (request : QueueCommandRequest)
    (operation : DeviceOperation s)
    (rings : (d : QueueDispatch) (w : s.World) → Rings laws.ledger w (operation d w).1)
    (may_start : Option (Action s.World Bool)) (quiet : IsQuietGuard laws.ledger may_start)
    (steps : List (s.World → s.World)) (w : s.World)
    → AllQuiet laws.ledger steps
    → laws.ledger.calls (rounds (execute s may_start operation request) steps w)
      ≤ suc (laws.ledger.calls w)
execute-once s laws request operation rings may_start quiet steps w all =
    rounds-once (watch s laws request) (execute s may_start operation request)
      (λ start.
        Calls-Ends (watch s laws request) start (execute s may_start operation request start)
          (execute-Ends s laws request operation rings may_start quiet start))
      steps w all
