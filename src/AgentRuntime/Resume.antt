-- ===== src/AgentRuntime/Resume.antt =====
-- Runs of run_task of core/runtime/engine.py, one after the other.
use jarvis.Prelude.{
  nat_eq, ℕ, zero, suc, ◌+◌, ◌-◌, ◌<◌, Option, none, some, List, [], ◌∷◌, ◌++◌, ◌≡◌, refl, sym,
  subst, ◌∙◌, ap, ◌⊎◌, inl, inr, arith, length,
}
use jarvis.AgentRuntime.{
  idle, wait, AgentError, invalid_transition, over_budget, AgentContext, StepOutcome, returned,
  AgentRuntime, Readings, success, failed, interrupted, Checkpoint, is_allowed, transition_to,
  prepare, give_up, execute_step, run_step, run_steps, resumed, run_task,
}
use jarvis.AgentRuntime.Ends.{mark}
use jarvis.AgentRuntime.Runs.{Performed, RunEnds, run_steps-RunEnds}

-- All ways in which run_task ends, from an IDLE runtime, whatever the executor and the token do: from
-- the step and the results of the checkpoint of this task, or from none, the steps are performed in
-- order. It returns with the results of all of them, each once, and a checkpoint behind the last; or
-- it raises an error that is no invalid transition, with a checkpoint of the step that failed and the
-- results before it, or also its own if the budget failed after it; both leave the runtime IDLE. Or
-- the coroutine is cancelled in a step, which leaves the runtime in WAIT.
pub run_task-RunEnds :
    {R : Type 0} (executor : (step : ℕ) → AgentContext → StepOutcome R × AgentContext)
    (readings : ℕ → Readings) (task_id steps : ℕ) (a : AgentRuntime R)
    → a.state ≡ idle
    → let start = resumed task_id a.checkpoint in
      RunEnds executor task_id
        (steps - start.0)
        start.0
        start.1
        a
        (run_task executor readings task_id steps a)
unfolding run_task
run_task-RunEnds executor readings task_id steps a h =
    let start = resumed task_id a.checkpoint in
    run_steps-RunEnds executor task_id readings (steps - start.0) start.0 start.1
      (record a { current_task = some task_id }) h

resumed-mark :
    {R : Type 0} (task_id step : ℕ) (error : Option AgentError) (results : List R)
    → resumed task_id (mark task_id step error results) ≡ (step, results)
unfolding resumed
resumed-mark task_id step error results = rw ((nat_eq.same_iff task_id task_id).1 refl) refl

-- A second run, with any executor, from the checkpoint that an error has left.
from_mark :
    {R : Type 0} (executor : (step : ℕ) → AgentContext → StepOutcome R × AgentContext)
    (readings : ℕ → Readings) (task_id steps step : ℕ) (error : Option AgentError)
    (results all : List R) (b d : AgentRuntime R)
    → b.state ≡ idle
    → b.checkpoint ≡ mark task_id step error results
    → run_task executor readings task_id steps b ≡ (success all, d)
    → (rs : List R) × (length rs ≡ steps - step)
      × Performed executor step b.context rs d.context
      × (all ≡ results ++ rs)
from_mark executor readings task_id steps step error results all b d up marked ran =
    let start : resumed task_id b.checkpoint ≡ (step, results) =
      ap (resumed task_id) marked ∙ resumed-mark task_id step error results in
    let ends : RunEnds executor task_id (steps - step) step results b (success all, d) =
      subst (RunEnds executor task_id (steps - step) step results b) ran (
        subst
          (λ (p : ℕ × List _).
            RunEnds executor task_id (steps - p.0) p.0 p.1 b
              (run_task executor readings task_id steps b))
          start (run_task-RunEnds executor readings task_id steps b up)) in
    let (rs, len, done, eq, idle_again, saved) = ends in (rs, len, done, eq)

-- A run that has failed, and a second run with any executor, on any IDLE runtime with the checkpoint
-- that it has left, that returns: the results are those of the steps before the error and those of
-- the steps from the one that failed, so each step has one result; but if the budget failed after a
-- step, that step is performed again and has two.
pub run_task-resumes :
    {R : Type 0} (executor executor' : (step : ℕ) → AgentContext → StepOutcome R × AgentContext)
    (readings readings' : ℕ → Readings) (task_id steps : ℕ) (a b b' d : AgentRuntime R)
    (e : AgentError) (all : List R)
    → a.state ≡ idle
    → a.checkpoint ≡ none
    → run_task executor readings task_id steps a ≡ (failed e, b)
    → b'.state ≡ idle
    → b'.checkpoint ≡ b.checkpoint
    → run_task executor' readings' task_id steps b' ≡ (success all, d)
    → (rs rs' : List R) × (mid : AgentContext) × Performed executor 0 a.context rs mid
      × Performed executor' (length rs) b'.context rs' d.context
      × (length rs + length rs' ≡ steps)
      × ((all ≡ rs ++ rs')
          ⊎ ((r : R) × (e ≡ over_budget)
              × ((executor (length rs) mid).0 ≡ returned r)
              × (all ≡ (rs ++ r ∷ []) ++ rs')))
unfolding resumed
run_task-resumes executor executor' readings readings' task_id steps a b b' d e all up fresh ran up'
      same again =
    let ends : RunEnds executor task_id (steps - 0) 0 [] a (failed e, b) =
      subst (RunEnds executor task_id (steps - 0) 0 [] a) ran (
        subst
          (λ (c : Option (Checkpoint _)).
            RunEnds executor task_id (steps - (resumed task_id c).0) (resumed task_id c).0
              (resumed task_id c).1 a (run_task executor readings task_id steps a))
          fresh (run_task-RunEnds executor readings task_id steps a up)) in
    let (rs, mid, at, few, is, done, valid, idle_again, kept) = ends in
    let at_rs : at ≡ length rs = omega (arith, is) in
    elim kept [
      | inl marked ↦
          let (rs', len, done', eq) =
            from_mark executor' readings' task_id steps at (some e) rs all b' d up' (same ∙ marked)
              again in
          (
            rs,
            rs',
            mid,
            done,
            subst (λ n. Performed executor' n b'.context rs' d.context) at_rs done',
            omega (arith, few, is, len),
            inl eq,
          )
      | inr (r, spent, gave, marked) ↦
          let (rs', len, done', eq) =
            from_mark executor' readings' task_id steps at (some e) (rs ++ r ∷ []) all b' d up'
              (same ∙ marked) again in
          (
            rs,
            rs',
            mid,
            done,
            subst (λ n. Performed executor' n b'.context rs' d.context) at_rs done',
            omega (arith, few, is, len),
            inr (r, spent, subst (λ n. (executor n mid).0 ≡ returned r) at_rs gave, eq),
          )
    ]

-- What a runtime in WAIT does with a task that has a step left.
stuck_in_wait :
    {R : Type 0} (executor : (step : ℕ) → AgentContext → StepOutcome R × AgentContext)
    (readings : ℕ → Readings) (task_id left step : ℕ) (results : List R) (a : AgentRuntime R)
    → a.state ≡ wait
    → 0 < left
    → run_steps executor readings task_id left step results a ≡ (
      failed invalid_transition,
      record a { state = idle; checkpoint = mark task_id step (some invalid_transition) results },
    )
unfolding run_steps run_step execute_step prepare transition_to is_allowed give_up
stuck_in_wait executor readings task_id zero step results a h some_left =
    absurd (omega (arith, some_left))
stuck_in_wait executor readings task_id (suc left) step results a h some_left =
    subst
      (λ s. run_steps executor readings task_id (suc left) step results (record a { state = s }) ≡ (
        failed invalid_transition,
        record a { state = idle; checkpoint = mark task_id step (some invalid_transition) results },
      ))
      (sym h) refl

-- After a run whose coroutine was cancelled in a step, the next run of the task on the same runtime
-- performs nothing if a step is left: it raises an invalid transition and only leaves the runtime IDLE,
-- with a checkpoint of the step that it would have begun with.
pub run_task-after_interrupt :
    {R : Type 0} (executor executor' : (step : ℕ) → AgentContext → StepOutcome R × AgentContext)
    (readings readings' : ℕ → Readings) (task_id steps : ℕ) (a b : AgentRuntime R)
    → a.state ≡ idle
    → run_task executor readings task_id steps a ≡ (interrupted, b)
    → (resumed task_id b.checkpoint).0 < steps
    → run_task executor' readings' task_id steps b ≡ (
      failed invalid_transition,
      record b {
        current_task = some task_id;
        state = idle;
        checkpoint =
            mark task_id
              (resumed task_id b.checkpoint).0
              (some invalid_transition)
              (resumed task_id b.checkpoint).1;
      },
    )
unfolding run_task
run_task-after_interrupt executor executor' readings readings' task_id steps a b up ran left =
    let start = resumed task_id a.checkpoint in
    let ends : RunEnds executor task_id (steps - start.0) start.0 start.1 a (interrupted, b) =
      subst (RunEnds executor task_id (steps - start.0) start.0 start.1 a) ran
        (run_task-RunEnds executor readings task_id steps a up) in
    let again = resumed task_id b.checkpoint in
    stuck_in_wait executor' readings' task_id (steps - again.0) again.0 again.1
      (record b { current_task = some task_id }) ends.7 (omega (arith, left))
