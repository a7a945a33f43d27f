-- ===== src/AgentRuntime/Runs.antt =====
-- How run_task of core/runtime/engine.py ends, and how it resumes.
use jarvis.Prelude.{
  nat_eq, ℕ, zero, suc, ◌+◌, ◌<◌, Option, none, List, [], ◌∷◌, ◌++◌, ◌≡◌, ◌≢◌, refl, sym, subst,
  ◌∙◌, ap, arith, length, append_assoc, append-nil,
}
use jarvis.AgentRuntime.{
  idle, wait, invalid_transition, AgentContext, StepOutcome, returned, stopped, Checkpoint,
  AgentRuntime, Readings, Ended, success, failed, interrupted, Turn, next, last, run_step,
  run_steps,
}
use jarvis.AgentRuntime.Ends.{mark, Kept, StepEnds, run_step-StepEnds}

module _ {R : Type 0} (executor : (step : ℕ) → AgentContext → StepOutcome R × AgentContext) where
  -- The steps from this one on give these results, one after the other.
  abbrev pub Performed : (step : ℕ) → AgentContext → List R → AgentContext → Type 0
  Performed step c [] c' = c' ≡ c
  Performed step c (r ∷ rs) c' =
      (mid : AgentContext) × (executor step c ≡ (returned r, mid)) × Performed (suc step) mid rs c'

module _ {R : Type 0} (executor : (step : ℕ) → AgentContext → StepOutcome R × AgentContext)
    (task_id : ℕ) where
  -- The checkpoint after steps without an error.
  abbrev pub Saved :
      (left step : ℕ) → List R → Option (Checkpoint R) → Option (Checkpoint R) → Type 0
  Saved zero step results before after = after ≡ before
  Saved (suc left) step results before after = after ≡ mark task_id (step + suc left) none results

  abbrev pub RunEnds : (left step : ℕ) → List R → AgentRuntime R → Ended R × AgentRuntime R → Type 0
  RunEnds left step results a (success results', b) =
      (rs : List R) × (length rs ≡ left)
      × Performed executor step a.context rs b.context
      × (results' ≡ results ++ rs)
      × (b.state ≡ idle)
      × Saved left step results' a.checkpoint b.checkpoint
  RunEnds left step results a (failed e, b) =
      (rs : List R) × (mid : AgentContext) × (at : ℕ) × (length rs < left)
      × (at ≡ step + length rs)
      × Performed executor step a.context rs mid
      × (e ≢ invalid_transition)
      × (b.state ≡ idle)
      × Kept executor task_id at (results ++ rs) mid e b.checkpoint
  RunEnds left step results a (interrupted, b) =
      (rs : List R) × (mid : AgentContext) × (at : ℕ) × (length rs < left)
      × (at ≡ step + length rs)
      × Performed executor step a.context rs mid
      × ((executor at mid).0 ≡ stopped)
      × (b.state ≡ wait)

  Saved-suc :
      (left step : ℕ) (results' results : List R) (before mid after : Option (Checkpoint R))
      → mid ≡ mark task_id (step + 1) none results
      → (left ≡ 0 → results' ≡ results)
      → Saved left (suc step) results' mid after
      → Saved (suc left) step results' before after
  Saved-suc zero step results' results before mid after h same saved =
      saved ∙ h ∙ ap (mark task_id (step + 1) none) (sym (same refl))
  Saved-suc (suc left) step results' results before mid after h same saved =
      saved ∙ ap (λ n. mark task_id n none results') (the_sum left step)
    where
      the_sum : (left step : ℕ) → suc step + suc left ≡ step + suc (suc left)
      the_sum left step = omega arith

  length-zero : (rs : List R) → length rs ≡ 0 → rs ≡ []
  length-zero [] h = refl
  length-zero (r ∷ rs) h = absurd (omega (arith, h))

  RunEnds-suc :
      (left step : ℕ) (results results' : List R) (a b : AgentRuntime R) (r : R)
      (end : Ended R × AgentRuntime R)
      → executor step a.context ≡ (returned r, b.context)
      → results' ≡ results ++ r ∷ []
      → b.checkpoint ≡ mark task_id (step + 1) none results'
      → RunEnds left (suc step) results' b end
      → RunEnds (suc left) step results a end
  RunEnds-suc left step results results' a b r (success all, d) ran grown marked
        (rs, len, done, eq, up, saved) =
      (
        r ∷ rs,
        ap suc len,
        (b.context, ran, done),
        eq ∙ ap (λ x. x ++ rs) grown ∙ append_assoc results (r ∷ []) rs,
        up,
        Saved-suc left step all results' a.checkpoint b.checkpoint d.checkpoint marked
            (λ z. eq ∙ ap (λ x. results' ++ x) (length-zero rs (len ∙ z)) ∙ append-nil results')
            saved,
      )
  RunEnds-suc left step results results' a b r (failed e, d) ran grown marked
        (rs, mid, at, few, is, done, valid, up, kept) =
      (
        r ∷ rs,
        mid,
        at,
        omega (arith, few),
        omega (arith, is),
        (b.context, ran, done),
        valid,
        up,
        subst (λ x. Kept executor task_id at x mid e d.checkpoint)
            (ap (λ x. x ++ rs) grown ∙ append_assoc results (r ∷ []) rs) kept,
      )
  RunEnds-suc left step results results' a b r (interrupted, d) ran grown marked
        (rs, mid, at, few, is, done, halt, up) =
      (r ∷ rs, mid, at, omega (arith, few), omega (arith, is), (b.context, ran, done), halt, up)

  turn-RunEnds :
      (readings : ℕ → Readings) (left step : ℕ) (results : List R) (a : AgentRuntime R)
      (turn : Turn R)
      → StepEnds executor task_id step results a.context turn
      → ((results' : List R) (b : AgentRuntime R)
          → b.state ≡ idle
          → RunEnds left
              (suc step)
              results'
              b
              (run_steps executor readings task_id left (suc step) results' b))
      → RunEnds (suc left) step results a (elim turn [
        | next results' b ↦ run_steps executor readings task_id left (suc step) results' b
        | last ended b ↦ (ended, b)
      ])
  turn-RunEnds readings left step results a (next results' b) (r, ran, grown, up, marked) rest =
      RunEnds-suc left step results results' a b r
        (run_steps executor readings task_id left (suc step) results' b) ran grown marked
        (rest results' b up)
  turn-RunEnds readings left step results a (last (success all) b) ends rest = absurd ends
  turn-RunEnds readings left step results a (last (failed e) b) (valid, up, kept) rest = (
    [],
    a.context,
    step,
    omega arith,
    omega arith,
    refl,
    valid,
    up,
    subst (λ x. Kept executor task_id step x a.context e b.checkpoint) (sym (append-nil results))
        kept,
  )
  turn-RunEnds readings left step results a (last interrupted b) (halt, up) rest =
      ([], a.context, step, omega arith, omega arith, refl, halt, up)

  pub run_steps-RunEnds :
      (readings : ℕ → Readings) (left step : ℕ) (results : List R) (a : AgentRuntime R)
      → a.state ≡ idle
      → RunEnds left step results a (run_steps executor readings task_id left step results a)
  unfolding run_steps
  run_steps-RunEnds readings zero step results a h =
      ([], refl, refl, sym (append-nil results), h, refl)
  run_steps-RunEnds readings (suc left) step results a h =
      turn-RunEnds readings left step results a (run_step executor readings task_id step results a)
        (run_step-StepEnds executor task_id readings step results a h)
        (λ results' b up. run_steps-RunEnds readings left (suc step) results' b up)
