-- ===== src/NativeExecution/Once.antt =====
-- tellyq/native_queue_execution.py: an operation reaches the receiver once, after it was claimed.
use tellyq.Prelude.{suc, ◌≤◌, Bool, Option, List}
use tellyq.QueueExecution.{Action, StorePort}
use tellyq.QueueExecution.Laws.{Rings}
use tellyq.QueueExecution.Rounds.{rounds, AllQuiet, rounds-once}
use tellyq.QueueExecution.Watched.{IsQuietGuard}
use tellyq.NativeExecution.{NativeExecutionRequest, NativeDispatch, NativeEffect, execute_native}
use tellyq.NativeExecution.Laws.{NativeLaws}
use tellyq.NativeExecution.Runs.{native_watch, execute_native-Spends}

-- However often a native request is executed, and whatever others do to the store in between without
-- calling the receiver, the receiver is called for its operation at most once.
pub execute_native-once :
    (s : StorePort) (laws : NativeLaws s) (request : NativeExecutionRequest)
    (operation : NativeEffect s)
    (rings : (d : NativeDispatch) (w : s.World) → Rings laws.ledger w (operation d w).1)
    (may_effect : Option (Action s.World Bool)) (quiet : IsQuietGuard laws.ledger may_effect)
    (steps : List (s.World → s.World)) (w : s.World)
    → AllQuiet laws.ledger steps
    → laws.ledger.calls (rounds (execute_native s may_effect operation request) steps w)
      ≤ suc (laws.ledger.calls w)
execute_native-once s laws request operation rings may_effect quiet steps w all =
    rounds-once (native_watch s laws request operation rings)
      (execute_native s may_effect operation request)
      (execute_native-Spends s laws request operation rings may_effect quiet) steps w all
