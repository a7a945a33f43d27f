-- ===== src/Workflow/Engine.antt =====
-- core/workflow/workflow_engine.py with core/workflow/checkpoint_store.py: WorkflowEngine. The working
-- memory holds the checkpoints under the ids of the graphs; in the source their keys carry a constant
-- prefix. The registry of templates is left out.
pub mod Resume
use jarvis.Prelude.{
  string_eq, String, Bool, true, false, Option, none, some, List, [], ◌∷◌, ◌++◌, map, Result, ok,
  raise,
}
use jarvis.Prelude.Dict.{Dict, get, put}
use jarvis.Workflow.{WorkflowNode, WorkflowGraph, Fault, validate}
use jarvis.Workflow.Scheduler.{Schedule, done, stalled, out_of_fuel, schedule}
use jarvis.Workflow.Retry.{Exc}
use jarvis.Workflow.Executor.{WorkflowExecutor, WorkflowResult, execute}

module _ (V : Type 0) where
  pub record Checkpoint : Type 0 where
    pub graph_id : String
    pub completed_nodes : List String
    pub outputs : Dict String (Option V)

  -- A checkpoint that is deleted leaves None behind.
  abbrev pub CheckpointStore : Type 0
  CheckpointStore = Dict String (Option Checkpoint)

  pub record WorkflowEngine : Type 0 where
    pub executor : Option (WorkflowExecutor V)
    pub checkpoint_store : Option CheckpointStore
    pub cancelled : Dict String Bool

  -- What a call returns: the waves of nodes that it started, and the result.
  abbrev pub Outcome : Type 0
  Outcome = List (List WorkflowNode) × WorkflowResult V

pub data EngineError : Type 0 where
  -- `validate` raises.
  invalid : Fault → EngineError
  -- RuntimeError of the scheduler, with no executor to catch it.
  no_progress : EngineError
  no_fuel : EngineError

module _ {V : Type 0} where
  unfoldable pub save :
      String → List String → Dict String (Option V) → CheckpointStore V → CheckpointStore V
  save graph_id completed_nodes outputs store =
      put store graph_id (
        some (record { graph_id = graph_id; completed_nodes = completed_nodes; outputs = outputs }))

  unfoldable pub load : String → CheckpointStore V → Option (Checkpoint V)
  load graph_id store = elim (get store graph_id) [ none ↦ none | some saved ↦ saved ]

  unfoldable pub delete : String → CheckpointStore V → CheckpointStore V
  unfolding load
  delete graph_id store = elim (load graph_id store) [
    | none ↦ store
    | some checkpoint ↦ put store graph_id none
  ]

  unfoldable pub save_checkpoint :
      String → List String → Dict String (Option V) → WorkflowEngine V → WorkflowEngine V
  unfolding save
  save_checkpoint graph_id completed_nodes outputs e = elim e.checkpoint_store [
    | none ↦ e
    | some store ↦ record e {
      checkpoint_store = some (save graph_id completed_nodes outputs store);
    }
  ]

  unfoldable pub set_executor : WorkflowExecutor V → WorkflowEngine V → WorkflowEngine V
  set_executor ex e = record e { executor = some ex }

  -- A run without an executor: every wave is taken as completed, and saved.
  unfoldable pub dry_run :
      WorkflowGraph
      → List (List WorkflowNode)
      → List String
      → WorkflowEngine V
      → List String × WorkflowEngine V
  unfolding save_checkpoint
  dry_run g [] completed e = (completed, e)
  dry_run g (wave ∷ waves) completed e =
      let completed' = completed ++ map (λ n. n.node_id) wave in
      dry_run g waves completed' (save_checkpoint g.graph_id completed' [] e)

  abbrev pub plain : WorkflowGraph → List String → Dict String (Option V) → WorkflowResult V
  plain g completed outputs = record {
    graph_id = g.graph_id;
    success = true;
    completed_nodes = completed;
    failed_node = none;
    error = none;
    outputs = outputs;
  }

  unfoldable pub finish_dry :
      WorkflowGraph
      → Schedule
      → WorkflowEngine V
      → Result EngineError (Outcome V) × WorkflowEngine V
  unfolding dry_run
  finish_dry g (done waves) e =
      let (completed, e') = dry_run g waves [] e in (ok ([], plain g completed []), e')
  finish_dry g (stalled waves) e = (raise no_progress, (dry_run g waves [] e).1)
  finish_dry g out_of_fuel e = (raise no_fuel, e)

  unfoldable pub finish_run :
      WorkflowGraph
      → Option (Outcome V)
      → WorkflowEngine V
      → Result EngineError (Outcome V) × WorkflowEngine V
  unfolding save_checkpoint
  finish_run g none e = (raise no_fuel, e)
  finish_run g (some (started, r)) e =
      (ok (started, r), save_checkpoint g.graph_id r.completed_nodes r.outputs e)

  unfoldable pub run_valid :
      WorkflowGraph
      → Option (WorkflowExecutor V)
      → WorkflowEngine V
      → Result EngineError (Outcome V) × WorkflowEngine V
  unfolding finish_run finish_dry
  run_valid g (some ex) e = finish_run g (execute ex g []) e
  run_valid g none e = finish_dry g (schedule g) e

  unfoldable pub run :
      WorkflowGraph → WorkflowEngine V → Result EngineError (Outcome V) × WorkflowEngine V
  unfolding run_valid
  run g e = elim (validate g) [
    | raise fault ↦ (raise (invalid fault), e)
    | ok _ ↦ run_valid g e.executor (record e { cancelled = put e.cancelled g.graph_id false })
  ]

  -- {**prior, **new}
  unfoldable pub merge : Dict String (Option V) → Dict String (Option V) → Dict String (Option V)
  merge prior [] = prior
  merge prior ((k, v) ∷ new) = merge (put prior k v) new

  abbrev pub refused : WorkflowGraph → String → WorkflowResult V
  refused g text = record {
    graph_id = g.graph_id;
    success = false;
    completed_nodes = [];
    failed_node = none;
    error = some (record { name = ""; text = text });
    outputs = [];
  }

  unfoldable pub finish_resume :
      WorkflowGraph
      → (prior : Dict String (Option V)) → Option (Outcome V)
      → WorkflowEngine V
      → Result EngineError (Outcome V) × WorkflowEngine V
  unfolding save_checkpoint merge
  finish_resume g prior none e = (raise no_fuel, e)
  finish_resume g prior (some (started, r)) e =
      let outputs = merge prior r.outputs in
      (
        ok (started, record r { outputs = outputs }),
        save_checkpoint g.graph_id r.completed_nodes outputs e,
      )

  unfoldable pub resume_valid :
      WorkflowGraph
      → Checkpoint V
      → Option (WorkflowExecutor V)
      → WorkflowEngine V
      → Result EngineError (Outcome V) × WorkflowEngine V
  unfolding finish_resume
  resume_valid g state (some ex) e =
      finish_resume g state.outputs (execute ex g state.completed_nodes) e
  resume_valid g state none e = (ok ([], plain g state.completed_nodes state.outputs), e)

  unfoldable pub resume_from :
      WorkflowGraph
      → Option (Checkpoint V)
      → WorkflowEngine V
      → Result EngineError (Outcome V) × WorkflowEngine V
  unfolding resume_valid
  resume_from g none e = (ok ([], refused g "No checkpoint found for graph."), e)
  resume_from g (some state) e = elim (validate g) [
    | raise fault ↦ (raise (invalid fault), e)
    | ok _ ↦ resume_valid g state e.executor e
  ]

  unfoldable pub resume :
      WorkflowGraph → WorkflowEngine V → Result EngineError (Outcome V) × WorkflowEngine V
  unfolding resume_from load
  resume g e = elim e.checkpoint_store [
    | none ↦ (ok ([], refused g "CheckpointStore not configured."), e)
    | some store ↦ resume_from g (load g.graph_id store) e
  ]

  unfoldable pub cancel : String → WorkflowEngine V → WorkflowEngine V
  cancel graph_id e = record e { cancelled = put e.cancelled graph_id true }

  abbrev pub is_cancelled : String → WorkflowEngine V → Bool
  is_cancelled graph_id e = elim (get e.cancelled graph_id) [ none ↦ false | some flag ↦ flag ]
