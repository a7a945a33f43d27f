-- ===== src/AgentRuntime.antt =====
-- core/runtime/engine.py (AgentRuntime), with the execution states of core/runtime/state.py and the
-- budgets of core/runtime/context.py. What a step gives back is opaque. The variables of the context,
-- which a checkpoint shares with it, are left out: run_task does not read them. An instant is a whole
-- number, a cost whole millionths. A pause is taken to end.
pub mod Ends
pub mod Runs
pub mod Resume
use jarvis.Prelude.{
  nat_eq, ℕ, zero, suc, ◌+◌, ◌-◌, String, Bool, true, false, ◌&&◌, not, Option, none, some, List,
  [], ◌∷◌, ◌++◌, ◌==◌, if◌then◌else◌, ltb, Result, ok, raise, ◌>>=◌,
}

pub data AgentExecutionState : Type 0 where
  idle load dispatch wait verify persist sleep : AgentExecutionState

pub data AgentError : Type 0 where
  -- AGENT_001, AGENT_003, AGENT_004, and what the executor of the steps raises
  invalid_transition : AgentError
  over_budget : AgentError
  cancelled : AgentError
  step_error : String → AgentError

-- _EXECUTION_TRANSITIONS
unfoldable pub is_allowed : AgentExecutionState → AgentExecutionState → Bool
is_allowed idle load = true
is_allowed load dispatch = true
is_allowed load persist = true
is_allowed dispatch wait = true
is_allowed dispatch persist = true
is_allowed wait verify = true
is_allowed wait persist = true
is_allowed verify persist = true
is_allowed persist sleep = true
is_allowed sleep idle = true
is_allowed _ _ = false

pub record ExecutionBudget : Type 0 where
  pub max_tokens : ℕ
  pub max_cost : ℕ
  pub max_duration : ℕ
  pub max_memory_mb : Option ℕ

pub record AgentContext : Type 0 where
  pub budget : ExecutionBudget
  pub accumulated_tokens : ℕ
  pub accumulated_cost : ℕ
  pub current_memory_mb : ℕ
  pub start_time : ℕ

-- `max_memory_mb and current > max_memory_mb`
abbrev pub is_over : Option ℕ → ℕ → Bool
is_over none n = false
is_over (some limit) n = not (limit == 0) && ltb limit n

unfoldable pub check_all_budgets : (now : ℕ) → AgentContext → Bool
check_all_budgets now c =
    not (ltb (c.start_time + c.budget.max_duration) now)
    && not (ltb c.budget.max_tokens c.accumulated_tokens)
    && not (ltb c.budget.max_cost c.accumulated_cost)
    && not (is_over c.budget.max_memory_mb c.current_memory_mb)

-- What a step gives: its result, what it raises, or that the coroutine is cancelled in it.
pub data StepOutcome (R : Type 0) : Type 0 where
  returned : R → StepOutcome R
  raised : String → StepOutcome R
  stopped : StepOutcome R

-- The data of a checkpoint has the error of the step, if it is made for one.
pub record Checkpoint (R : Type 0) : Type 0 where
  pub task_id : ℕ
  pub step_index : ℕ
  pub error : Option AgentError
  pub results : List R

pub record AgentRuntime (R : Type 0) : Type 0 where
  pub state : AgentExecutionState
  pub context : AgentContext
  pub checkpoint : Option (Checkpoint R)
  pub current_task : Option ℕ

-- What a step reads: two clocks, and three times whether the token is cancelled.
pub record Readings : Type 0 where
  pub loaded_at : ℕ
  pub cancelled_at_load : Bool
  pub cancelled_at_dispatch : Bool
  pub cancelled_at_wait : Bool
  pub verified_at : ℕ

-- How run_task ends: with its results, with what it raises, or cancelled in a step.
pub data Ended (R : Type 0) : Type 0 where
  success : List R → Ended R
  failed : AgentError → Ended R
  interrupted : Ended R

-- One turn of the loop: the loop goes on, or it ends.
pub data Turn (R : Type 0) : Type 0 where
  next : List R → AgentRuntime R → Turn R
  last : Ended R → AgentRuntime R → Turn R

-- A part of a step, and what it raises, with the runtime at that point.
abbrev pub Part : Type 0 → Type 0
Part R = Result (AgentError × AgentRuntime R) (AgentRuntime R)

unfoldable pub transition_to : {R : Type 0} → AgentExecutionState → AgentRuntime R → Part R
unfolding is_allowed
transition_to target a =
    if is_allowed a.state target
    then ok (record a { state = target })
    else raise (invalid_transition, a)

unfoldable pub check_budgets : {R : Type 0} → (now : ℕ) → AgentRuntime R → Part R
unfolding check_all_budgets
check_budgets now a = if check_all_budgets now a.context then ok a else raise (over_budget, a)

unfoldable pub check_token : {R : Type 0} → (is_cancelled : Bool) → AgentRuntime R → Part R
check_token true a = raise (cancelled, a)
check_token false a = ok a

-- LOAD, DISPATCH and WAIT, up to the call of the executor
unfoldable pub prepare : {R : Type 0} → Readings → AgentRuntime R → Part R
unfolding transition_to check_budgets check_token
prepare r a =
    transition_to load a
    >>= check_budgets r.loaded_at
    >>= check_token r.cancelled_at_load
    >>= transition_to dispatch
    >>= check_token r.cancelled_at_dispatch
    >>= transition_to wait
    >>= check_token r.cancelled_at_wait

unfoldable pub save : {R : Type 0} → (task_id step : ℕ) → List R → AgentRuntime R → Part R
save task_id step results a = ok (record a {
  checkpoint =
      some (record { task_id = task_id; step_index = step + 1; error = none; results = results });
})

abbrev pub to_idle : {R : Type 0} → AgentRuntime R → Part R
to_idle a = ok (record a { state = idle })

-- VERIFY, PERSIST and SLEEP
unfoldable pub conclude :
    {R : Type 0} → Readings → (task_id step : ℕ) → List R → AgentRuntime R → Part R
unfolding transition_to check_budgets save
conclude r task_id step results a =
    transition_to verify a
    >>= check_budgets r.verified_at
    >>= transition_to persist
    >>= save task_id step results
    >>= transition_to sleep
    >>= to_idle

-- except Exception: the states that it runs through are overwritten by IDLE.
unfoldable pub give_up :
    {R : Type 0} → (task_id step : ℕ) → List R → AgentError → AgentRuntime R → Turn R
give_up task_id step results e a = last (failed e) (record a {
  checkpoint =
      some (record { task_id = task_id; step_index = step; error = some e; results = results });
  state = idle;
})

unfoldable pub concluded : {R : Type 0} → (task_id step : ℕ) → List R → Part R → Turn R
unfolding give_up
concluded task_id step results (ok a) = next results a
concluded task_id step results (raise (e, a)) = give_up task_id step results e a

unfoldable pub finish_step :
    {R : Type 0}
    → Readings
    → (task_id step : ℕ) → List R
    → StepOutcome R × AgentContext
    → AgentRuntime R
    → Turn R
unfolding concluded conclude
finish_step r task_id step results (returned result, c) a =
    let results' = results ++ result ∷ [] in
    concluded task_id step results' (conclude r task_id step results' (record a { context = c }))
finish_step r task_id step results (raised message, c) a =
    give_up task_id step results (step_error message) (record a { context = c })
finish_step r task_id step results (stopped, c) a = last interrupted (record a { context = c })

-- The step to begin with and the results so far.
unfoldable pub resumed : {R : Type 0} → (task_id : ℕ) → Option (Checkpoint R) → ℕ × List R
resumed task_id none = (0, [])
resumed task_id (some c) = if c.task_id == task_id then (c.step_index, c.results) else (0, [])

module _ {R : Type 0} (executor : (step : ℕ) → AgentContext → StepOutcome R × AgentContext)
    (readings : ℕ → Readings) (task_id : ℕ) where
  unfoldable pub execute_step : (step : ℕ) → List R → Part R → Turn R
  unfolding finish_step
  execute_step step results (raise (e, a)) = give_up task_id step results e a
  execute_step step results (ok a) =
      finish_step (readings step) task_id step results (executor step a.context) a

  unfoldable pub run_step : (step : ℕ) → List R → AgentRuntime R → Turn R
  unfolding execute_step prepare
  run_step step results a = execute_step step results (prepare (readings step) a)

  -- for step_idx in range(start_step, steps), by the number of steps that are left
  unfoldable pub run_steps : (left step : ℕ) → List R → AgentRuntime R → Ended R × AgentRuntime R
  unfolding run_step
  run_steps zero step results a = (success results, a)
  run_steps (suc left) step results a = elim (run_step step results a) [
    | next results' a' ↦ run_steps left (suc step) results' a'
    | last ended a' ↦ (ended, a')
  ]

  unfoldable pub run_task : (steps : ℕ) → AgentRuntime R → Ended R × AgentRuntime R
  unfolding run_steps resumed
  run_task steps a =
      let (step, results) = resumed task_id a.checkpoint in
      run_steps (steps - step) step results (record a { current_task = some task_id })
