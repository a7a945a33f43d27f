-- ===== src/Samples/Agents.antt =====
-- Runs of core/runtime/engine.py.
use jarvis.Prelude.{
  nat_eq, ℕ, ◌+◌, ◌-◌, false, none, some, List, [], ◌∷◌, ◌++◌, ◌≡◌, refl, ◌⊎◌, arith, length, ◌==◌,
  if◌then◌else◌,
}
use jarvis.AgentRuntime.{
  idle, wait, invalid_transition, over_budget, step_error, AgentContext, StepOutcome, returned,
  raised, stopped, AgentRuntime, Readings, success, failed, interrupted, resumed, run_task,
}
use jarvis.AgentRuntime.Ends.{mark}
use jarvis.AgentRuntime.Runs.{Performed, RunEnds}
use jarvis.AgentRuntime.Resume.{run_task-RunEnds, run_task-resumes, run_task-after_interrupt}

abbrev context : AgentContext
context = record {
  budget = record { max_tokens = 100; max_cost = 500000; max_duration = 300; max_memory_mb = none };
  accumulated_tokens = 0;
  accumulated_cost = 0;
  current_memory_mb = 0;
  start_time = 0;
}

abbrev calm : ℕ → Readings
calm step = record {
  loaded_at = 5;
  cancelled_at_load = false;
  cancelled_at_dispatch = false;
  cancelled_at_wait = false;
  verified_at = 6;
}

abbrev fresh : AgentRuntime ℕ
fresh = record { state = idle; context = context; checkpoint = none; current_task = none }

abbrev breaking : ℕ → AgentContext → StepOutcome ℕ × AgentContext
breaking step c = if step == 0 then (returned 10, c) else (raised "no answer", c)

abbrev working : ℕ → AgentContext → StepOutcome ℕ × AgentContext
working step c = (returned (step + 10), c)

abbrev spending : ℕ → AgentContext → StepOutcome ℕ × AgentContext
spending step c = (returned (step + 10), record c { accumulated_tokens = 101 })

abbrev cut_off : ℕ → AgentContext → StepOutcome ℕ × AgentContext
cut_off step c = (stopped, c)

run_task-RunEnds_example : RunEnds breaking 7 (2 - 0) 0 [] fresh (run_task breaking calm 7 2 fresh)
unfolding resumed
run_task-RunEnds_example = run_task-RunEnds breaking calm 7 2 fresh refl

abbrev broken : AgentRuntime ℕ
broken = record {
  state = idle;
  context = context;
  checkpoint = mark 7 1 (some (step_error "no answer")) (10 ∷ []);
  current_task = some 7;
}

run_task-broken : run_task breaking calm 7 2 fresh ≡ (failed (step_error "no answer"), broken)
unfolding run_task
run_task-broken = refl

abbrev finished : AgentRuntime ℕ
finished = record broken { checkpoint = mark 7 2 none (10 ∷ 11 ∷ []) }

run_task-finished : run_task working calm 7 2 broken ≡ (success (10 ∷ 11 ∷ []), finished)
unfolding run_task
run_task-finished = refl

run_task-resumes_example :
    (rs rs' : List ℕ) × (mid : AgentContext) × Performed breaking 0 context rs mid
    × Performed working (length rs) context rs' context
    × (length rs + length rs' ≡ 2)
    × ((10 ∷ 11 ∷ [] ≡ rs ++ rs')
        ⊎ ((r : ℕ) × (step_error "no answer" ≡ over_budget)
            × ((breaking (length rs) mid).0 ≡ returned r)
            × (10 ∷ 11 ∷ [] ≡ (rs ++ r ∷ []) ++ rs')))
run_task-resumes_example =
    run_task-resumes breaking working calm calm 7 2 fresh broken broken finished
      (step_error "no answer") (10 ∷ 11 ∷ []) refl refl run_task-broken refl refl run_task-finished

-- The budget fails after the only step, which is then performed again.
abbrev spent : AgentRuntime ℕ
spent = record {
  state = idle;
  context = record context { accumulated_tokens = 101 };
  checkpoint = mark 7 0 (some over_budget) (10 ∷ []);
  current_task = some 7;
}

run_task-spent : run_task spending calm 7 1 fresh ≡ (failed over_budget, spent)
unfolding run_task
run_task-spent = refl

repeated :
    (run_task working calm 7 1 (record spent { context = context })).0 ≡ success (10 ∷ 10 ∷ [])
unfolding run_task
repeated = refl

abbrev halted : AgentRuntime ℕ
halted = record fresh { state = wait; current_task = some 7 }

run_task-halted : run_task cut_off calm 7 2 fresh ≡ (interrupted, halted)
unfolding run_task
run_task-halted = refl

run_task-after_interrupt_example : run_task working calm 7 2 halted ≡ (
  failed invalid_transition,
  record halted { state = idle; checkpoint = mark 7 0 (some invalid_transition) [] },
)
unfolding resumed
run_task-after_interrupt_example =
    run_task-after_interrupt cut_off working calm calm 7 2 fresh halted refl run_task-halted
      (omega arith)
