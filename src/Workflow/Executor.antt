-- ===== src/Workflow/Executor.antt =====
-- core/workflow/workflow_executor.py: WorkflowExecutor. The nodes of a wave run at the same time;
-- `ends_first` says in what order they end. What the others of a wave still do after one has raised,
-- and the events that are published, are left out. Python's None is `none`.
pub mod Started
pub mod Runs
use jarvis.Prelude.{
  string_eq, String, Bool, true, false, Option, none, some, List, [], ◌∷◌, not, keep, member, ℕ,
  Result, ok, raise,
}
use jarvis.Prelude.Dict.{Dict, get, put}
use jarvis.Prelude.Sort.{sort}
use jarvis.Workflow.{WorkflowNode, WorkflowGraph}
use jarvis.Workflow.Scheduler.{Schedule, done, stalled, out_of_fuel, complete, schedule}
use jarvis.Workflow.Retry.{Exc, RetryPolicy, execute_with_retry}

module _ (V : Type 0) where
  -- The result of the n-th attempt of a node.
  abbrev pub Handler : Type 0
  Handler = WorkflowNode → ℕ → Result Exc (Option V)

  pub record WorkflowExecutor : Type 0 where
    pub retry_policy : RetryPolicy
    pub handlers : Dict String Handler
    pub ends_first : WorkflowNode → WorkflowNode → Bool

  pub record WorkflowResult : Type 0 where
    pub graph_id : String
    pub success : Bool
    pub completed_nodes : List String
    pub failed_node : Option String
    pub error : Option Exc
    pub outputs : Dict String (Option V)

abbrev pub stall_error : Exc
stall_error = record { name = "RuntimeError"; text = "DAGScheduler stalled" }

-- next((nid for nid in graph.nodes if nid not in completed), None)
unfoldable pub first_open : Dict String WorkflowNode → List String → Option String
first_open [] completed = none
first_open ((nid, node) ∷ rest) completed = elim (member nid completed) [
  | true ↦ first_open rest completed
  | false ↦ some nid
]

abbrev pub pending : List WorkflowNode → List String → List WorkflowNode
pending wave completed = keep (λ n. not (member n.node_id completed)) wave

module _ {V : Type 0} where
  unfoldable pub register_handler : String → Handler V → WorkflowExecutor V → WorkflowExecutor V
  register_handler task_type handler ex = record ex { handlers = put ex.handlers task_type handler }

  -- `run` in `_execute_node`: a task type without a handler is passed over.
  unfoldable pub attempt_of : Option (Handler V) → WorkflowNode → ℕ → Result Exc (Option V)
  attempt_of none node attempt = ok none
  attempt_of (some handler) node attempt = handler node attempt

  unfoldable pub execute_node : WorkflowExecutor V → WorkflowNode → Result Exc (Option V)
  unfolding attempt_of
  execute_node ex node =
      (execute_with_retry ex.retry_policy (attempt_of (get ex.handlers node.task_type) node)).0

  -- Up to the first exception, in the order in which the nodes end.
  unfoldable pub gather :
      WorkflowExecutor V
      → List WorkflowNode
      → Dict String (Option V)
      → Option Exc × Dict String (Option V)
  gather ex [] outputs = (none, outputs)
  gather ex (n ∷ ns) outputs = elim (execute_node ex n) [
    | ok result ↦ gather ex ns (put outputs n.node_id result)
    | raise exc ↦ (some exc, outputs)
  ]

  unfoldable pub failed :
      WorkflowGraph → List String → Exc → Dict String (Option V) → WorkflowResult V
  unfolding first_open
  failed g completed exc outputs = record {
    graph_id = g.graph_id;
    success = false;
    completed_nodes = completed;
    failed_node = first_open g.nodes completed;
    error = some exc;
    outputs = outputs;
  }

  unfoldable pub succeeded : WorkflowGraph → List String → Dict String (Option V) → WorkflowResult V
  succeeded g completed outputs = record {
    graph_id = g.graph_id;
    success = true;
    completed_nodes = completed;
    failed_node = none;
    error = none;
    outputs = outputs;
  }

  -- What becomes of a wave that was started: the outcome of `gather`, and what follows if none of the
  -- nodes raised.
  unfoldable pub after_gather :
      WorkflowGraph
      → List String
      → Option Exc × Dict String (Option V)
      → (Dict String (Option V) → List (List WorkflowNode) × WorkflowResult V)
      → List (List WorkflowNode) × WorkflowResult V
  unfolding failed
  after_gather g completed (none, outputs) rest = rest outputs
  after_gather g completed (some exc, outputs) rest = ([], failed g completed exc outputs)

  unfoldable pub run_wave :
      List WorkflowNode
      → (skipped : List (List WorkflowNode) × WorkflowResult V)
      → (started : List (List WorkflowNode) × WorkflowResult V)
      → List (List WorkflowNode) × WorkflowResult V
  run_wave [] skipped started = skipped
  run_wave (n ∷ ns) skipped started = ((n ∷ ns) ∷ started.0, started.1)

  -- `async for wave in schedule(graph)`: the waves of nodes that were started, and the result, if the
  -- generator ends with `last`.
  unfoldable pub run_waves :
      WorkflowExecutor V
      → WorkflowGraph
      → (last : List String → Dict String (Option V) → WorkflowResult V) → List (List WorkflowNode)
      → List String
      → Dict String (Option V)
      → List (List WorkflowNode) × WorkflowResult V
  unfolding gather after_gather run_wave
  run_waves ex g last [] completed outputs = ([], last completed outputs)
  run_waves ex g last (wave ∷ waves) completed outputs =
      let todo = pending wave completed in
      let skipped = run_waves ex g last waves completed outputs in
      let started =
        after_gather g completed (gather ex (sort ex.ends_first todo) outputs)
          λ outputs'. run_waves ex g last waves (complete todo completed) outputs' in
      run_wave todo skipped started

  unfoldable pub run_schedule :
      WorkflowExecutor V
      → WorkflowGraph
      → Schedule
      → List String
      → Option (List (List WorkflowNode) × WorkflowResult V)
  unfolding run_waves succeeded failed
  run_schedule ex g (done waves) completed = some (run_waves ex g (succeeded g) waves completed [])
  run_schedule ex g (stalled waves) completed = some (
      run_waves ex g (λ done_nodes outputs. failed g done_nodes stall_error outputs) waves completed
        [])
  run_schedule ex g out_of_fuel completed = none

  -- execute, with the waves of nodes that it started; none if the fuel of `schedule` runs out.
  unfoldable pub execute :
      WorkflowExecutor V
      → WorkflowGraph
      → (initial_completed : List String) → Option (List (List WorkflowNode) × WorkflowResult V)
  unfolding run_schedule
  execute ex g initial_completed = run_schedule ex g (schedule g) initial_completed
