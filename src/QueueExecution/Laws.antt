-- ===== src/QueueExecution/Laws.antt =====
-- tellyq/domain/queue.py, tellyq/queue_execution.py: what the executor asks of its store, and how
-- the calls of a device are counted.
use tellyq.Prelude.{ℕ, suc, ◌≡◌, refl, ◌∙◌, String, true, ok, is_some}
use tellyq.Values.{CommandAction, Datetime}
use tellyq.Queue.{ExecutionState, QueueSnapshot}
use tellyq.QueueExecution.{StorePort, journaled}

-- What is remembered of a world: which commands were handed out, and how often a device was called.
pub record Ledger (W : Type 0) : Type 1 where
  pub handed : String → String → W → Type 0
  pub calls : W → ℕ

-- Nothing was forgotten and no device called.
abbrev pub Quiet : {W : Type 0} → Ledger W → W → W → Type 0
Quiet l w after =
    ((queue_id command_id : String)
      → l.handed queue_id command_id w
      → l.handed queue_id command_id after)
    × (l.calls after ≡ l.calls w)

pub Quiet-refl : {W : Type 0} (l : Ledger W) (w : W) → Quiet l w w
Quiet-refl l w = (λ q c h. h, refl)

pub Quiet-trans : {W : Type 0} (l : Ledger W) (u v w : W) → Quiet l u v → Quiet l v w → Quiet l u w
Quiet-trans l u v w (keep, same) (keep', same') = (λ q c h. keep' q c (keep q c h), same' ∙ same)

-- The laws: no operation of the store forgets a claim or calls a device, `mark_dispatched` succeeds
-- only on a command not handed out before, and an outcome is recorded for a command that is there.
pub record StoreLaws (s : StorePort) : Type 1 where
  pub ledger : Ledger s.World
  pub load_quiet : (queue_id : String) (w : s.World) → Quiet ledger w (s.load queue_id w).1
  pub start_quiet :
      (queue_id item_id attempt_id command_id : String) (at : Datetime) (expected : ℕ) (w : s.World)
      → Quiet ledger w (s.prepare_start queue_id item_id attempt_id command_id at expected w).1
  pub stop_quiet :
      (queue_id attempt_id command_id : String) (at : Datetime) (expected : ℕ) (w : s.World)
      → Quiet ledger w (s.prepare_stop queue_id attempt_id command_id at expected w).1
  pub control_quiet :
      (queue_id attempt_id command_id : String) (action : CommandAction) (at : Datetime)
      (expected : ℕ) (w : s.World)
      → Quiet ledger w (s.prepare_control queue_id attempt_id command_id action at expected w).1
  pub dispatch_quiet :
      (queue_id command_id : String) (at : Datetime) (expected : ℕ) (w : s.World)
      → Quiet ledger w (s.mark_dispatched queue_id command_id at expected w).1
  pub dispatch_claims :
      (queue_id command_id : String) (at : Datetime) (expected : ℕ) (w w' : s.World)
      (q : QueueSnapshot)
      → s.mark_dispatched queue_id command_id at expected w ≡ (ok q, w')
      → (ledger.handed queue_id command_id w → ⊥)
        × ledger.handed queue_id command_id w'
        × (q.queue_id ≡ queue_id)
  pub outcome_quiet :
      (queue_id command_id : String) (outcome : ExecutionState) (at : Datetime) (expected : ℕ)
      (w : s.World)
      → Quiet ledger w (s.record_outcome queue_id command_id outcome at expected w).1
  pub outcome_known :
      (queue_id command_id : String) (outcome : ExecutionState) (at : Datetime) (expected : ℕ)
      (w w' : s.World) (q : QueueSnapshot)
      → s.record_outcome queue_id command_id outcome at expected w ≡ (ok q, w')
      → is_some (journaled q command_id) ≡ true

-- A device call: it rings once, and forgets no claim.
abbrev pub Rings : {W : Type 0} → Ledger W → W → W → Type 0
Rings l w after =
    ((queue_id command_id : String)
      → l.handed queue_id command_id w
      → l.handed queue_id command_id after)
    × (l.calls after ≡ suc (l.calls w))
