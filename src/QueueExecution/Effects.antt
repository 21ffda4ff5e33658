-- ===== src/QueueExecution/Effects.antt =====
-- What one run of an executor may do to a world.
use tellyq.Prelude.{
  suc, ◌≡◌, refl, ap, ◌∙◌, String, Bool, true, false, Option, none, some, Result, Fault, ok, err,
  require, ◌⊎◌, inl, inr,
}
use tellyq.Queue.{QueueSnapshot}
use tellyq.QueueExecution.{Action, lift, continue}
use tellyq.QueueExecution.Laws.{Ledger, Quiet, Quiet-trans, Rings}

-- What holds of an exception after quiet steps, carried through the steps of a run.
module _ {W E : Type 0} (l : Ledger W) (start : W) (P : Result E × W → Type 0)
    (raised : (e : Fault) (after : W) → Quiet l start after → P (err e, after)) where
  -- A quiet call, and what follows where it returns.
  pub Quiet-continue :
      {A : Type 0} (w : W) (r : Result A × W) (f : A → Action W E)
      → Quiet l start w
      → Quiet l w r.1
      → ((a : A) (after : W) → r ≡ (ok a, after) → Quiet l w after → P (f a after))
      → P (continue r f)
  Quiet-continue w (ok a, after) f h q k = k a after refl q
  Quiet-continue w (err e, after) f h q k = raised e after (Quiet-trans l start w after h q)

  pub Quiet-lift :
      {A : Type 0} (w : W) (r : Result A) (f : A → Action W E)
      → Quiet l start w
      → ((a : A) → r ≡ ok a → P (f a w))
      → P (continue (r, w) f)
  Quiet-lift w (ok a) f h k = k a refl
  Quiet-lift w (err e) f h k = raised e w h

  -- What follows on a load that finds the queue.
  pub Quiet-loaded :
      (w : W) (r : Result (Option QueueSnapshot) × W) (f : QueueSnapshot → Action W E)
      → Quiet l start w
      → Quiet l w r.1
      → ((q : QueueSnapshot) (after : W) → Quiet l w after → P (f q after))
      → P (continue (continue r (λ found. lift (require found Fault.value_error))) f)
  Quiet-loaded w (ok (some q), after) f h quiet k = k q after quiet
  Quiet-loaded w (ok none, after) f h quiet k =
      raised Fault.value_error after (Quiet-trans l start w after h quiet)
  Quiet-loaded w (err e, after) f h quiet k = raised e after (Quiet-trans l start w after h quiet)

-- A command that is watched, with the results of its executor: each says whether it called the device.
pub record Watch (W E : Type 0) : Type 1 where
  pub ledger : Ledger W
  pub called : E → Bool
  pub queue_id : String
  pub command_id : String

module _ {W E : Type 0} (v : Watch W E) where
  abbrev pub IsHanded : W → Type 0
  IsHanded w = v.ledger.handed v.queue_id v.command_id w

  -- The device was called, for a command that was claimed in between.
  pub record Rang (start after : W) : Type 0 where
    pub unclaimed : IsHanded start → ⊥
    pub claimed_after : IsHanded after
    pub keeps : (q c : String) → v.ledger.handed q c start → v.ledger.handed q c after
    pub rang_once : v.ledger.calls after ≡ suc (v.ledger.calls start)

  abbrev pub Told : W → W → Bool → Type 0
  Told start after true = Rang start after
  Told start after false = Quiet v.ledger start after

  -- A result says truly whether the device was called; what raises has not called it.
  abbrev pub Ends : W → Result E × W → Type 0
  Ends start (ok x, after) = Told start after (v.called x)
  Ends start (err e, after) = Quiet v.ledger start after

  pub record Claimed (start w : W) : Type 0 where
    pub free : IsHanded start → ⊥
    pub held : IsHanded w
    pub quiet : Quiet v.ledger start w

  pub Claimed-Quiet :
      (start w after : W) → Claimed start w → Quiet v.ledger w after → Claimed start after
  Claimed-Quiet start w after c h = record {
    free = c.free;
    held = h.0 v.queue_id v.command_id c.held;
    quiet = Quiet-trans v.ledger start w after c.quiet h;
  }

  pub Told-Quiet :
      (start w after : W) (called : Bool)
      → Told start w called
      → Quiet v.ledger w after
      → Told start after called
  Told-Quiet start w after true t h = record {
    unclaimed = t.unclaimed;
    claimed_after = h.0 v.queue_id v.command_id t.claimed_after;
    keeps = λ q c k. h.0 q c (t.keeps q c k);
    rang_once = h.1 ∙ t.rang_once;
  }
  Told-Quiet start w after false t h = Quiet-trans v.ledger start w after t h

  -- The rules for `Ends`.
  pub Ends-continue :
      {A : Type 0} (start w : W) (r : Result A × W) (f : A → Action W E)
      → Quiet v.ledger start w
      → Quiet v.ledger w r.1
      → ((a : A) (after : W) → r ≡ (ok a, after) → Quiet v.ledger w after → Ends start (f a after))
      → Ends start (continue r f)
  Ends-continue start w r f h q k =
      Quiet-continue v.ledger start (Ends start) (λ e after s. s) w r f h q k

  pub Ends-lift :
      {A : Type 0} (start w : W) (r : Result A) (f : A → Action W E)
      → Quiet v.ledger start w
      → ((a : A) → r ≡ ok a → Ends start (f a w))
      → Ends start (continue (r, w) f)
  Ends-lift start w r f h k = Quiet-lift v.ledger start (Ends start) (λ e after s. s) w r f h k

  pub Ends-loaded :
      (start w : W) (r : Result (Option QueueSnapshot) × W) (f : QueueSnapshot → Action W E)
      → Quiet v.ledger start w
      → Quiet v.ledger w r.1
      → ((q : QueueSnapshot) (after : W) → Quiet v.ledger w after → Ends start (f q after))
      → Ends start (continue (continue r (λ found. lift (require found Fault.value_error))) f)
  Ends-loaded start w r f h quiet k =
      Quiet-loaded v.ledger start (Ends start) (λ e after s. s) w r f h quiet k

  -- A call of the device for a command that was claimed.
  pub Rang-Rings : (start w after : W) → Claimed start w → Rings v.ledger w after → Rang start after
  Rang-Rings start w after c rung = record {
    unclaimed = c.free;
    claimed_after = rung.0 v.queue_id v.command_id c.held;
    keeps = λ q k h. rung.0 q k (c.quiet.0 q k h);
    rang_once = rung.1 ∙ ap suc c.quiet.1;
  }

  -- The calls of one run, by cases.
  abbrev pub Calls : W → W → Type 0
  Calls start after =
      ((q c : String) → v.ledger.handed q c start → v.ledger.handed q c after)
      × ((v.ledger.calls after ≡ v.ledger.calls start)
          ⊎ ((IsHanded start → ⊥)
              × IsHanded after
              × (v.ledger.calls after ≡ suc (v.ledger.calls start))))

  pub Calls-Quiet : (start w after : W) → Calls start w → Quiet v.ledger w after → Calls start after
  Calls-Quiet start w after (keeps, inl same) h = (λ q c k. h.0 q c (keeps q c k), inl (h.1 ∙ same))
  Calls-Quiet start w after (keeps, inr rang) h = (
    λ q c k. h.0 q c (keeps q c k),
    inr (rang.0, h.0 v.queue_id v.command_id rang.1, h.1 ∙ rang.2),
  )

  pub Calls-Rang : (start after : W) → Rang start after → Calls start after
  Calls-Rang start after t = (t.keeps, inr (t.unclaimed, t.claimed_after, t.rang_once))

  Calls-Told : (start after : W) (called : Bool) → Told start after called → Calls start after
  Calls-Told start after true t = Calls-Rang start after t
  Calls-Told start after false t = (t.0, inl t.1)

  pub Calls-Ends : (start : W) (r : Result E × W) → Ends start r → Calls start r.1
  Calls-Ends start (err e, after) h = (h.0, inl h.1)
  Calls-Ends start (ok x, after) h = Calls-Told start after (v.called x) h
