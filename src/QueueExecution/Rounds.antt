-- ===== src/QueueExecution/Rounds.antt =====
-- Runs of an executor again and again, with anything quiet in between.
use tellyq.Prelude.{suc, ◌≤◌, ◌≡◌, refl, ◌∙◌, inl, inr, List, [], ◌∷◌, arith}
use tellyq.QueueExecution.{Action}
use tellyq.QueueExecution.Laws.{Ledger, Quiet}
use tellyq.QueueExecution.Effects.{Watch, IsHanded, Calls}

-- Before each run, others have changed the world.
abbrev pub rounds : {W E : Type 0} → Action W E → List (W → W) → W → W
rounds run [] w = w
rounds run (others ∷ rest) w = rounds run rest (run (others w)).1

abbrev pub AllQuiet : {W : Type 0} → Ledger W → List (W → W) → Type 0
AllQuiet l [] = Unit
AllQuiet {W} l (others ∷ rest) = ((w : W) → Quiet l w (others w)) × AllQuiet l rest

module _ {W E : Type 0} (v : Watch W E) (run : Action W E)
    (calls : (start : W) → Calls v start (run start).1) where
  -- A command that was handed out is never sent.
  pub rounds-handed :
      (steps : List (W → W)) (w : W)
      → AllQuiet v.ledger steps
      → IsHanded v w
      → v.ledger.calls (rounds run steps w) ≡ v.ledger.calls w
  rounds-handed [] w all held = refl
  rounds-handed (others ∷ rest) w (q, all) held =
      let still = (q w).0 v.queue_id v.command_id held in
      let done = calls (others w) in
      let next = rounds-handed rest (run (others w)).1 all (done.0 v.queue_id v.command_id still) in
      elim done.1 [ inl same ↦ next ∙ same ∙ (q w).1 | inr rang ↦ absurd (rang.0 still) ]

  pub rounds-once :
      (steps : List (W → W)) (w : W)
      → AllQuiet v.ledger steps
      → v.ledger.calls (rounds run steps w) ≤ suc (v.ledger.calls w)
  rounds-once [] w all = omega arith
  rounds-once (others ∷ rest) w (q, all) =
      let done = calls (others w) in
      let after = (run (others w)).1 in
      elim done.1 [
        | inl same ↦ omega (arith, rounds-once rest after all, (q w).1)
        | inr rang ↦ omega (arith, rounds-handed rest after all rang.1, (q w).1)
      ]
