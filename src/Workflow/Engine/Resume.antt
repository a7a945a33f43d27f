-- ===== src/Workflow/Engine/Resume.antt =====
-- A run and its resumption by core/workflow/workflow_engine.py, through the checkpoint that the run
-- saved.
use jarvis.Prelude.{
  string_eq, String, Bool, true, Option, some, List, [], ◌∷◌, ok, ◌≡◌, inl, inr, refl, arith, ap,
}
use jarvis.Prelude.Dict.{Dict, put, get-put_self}
use jarvis.Workflow.{WorkflowNode, WorkflowGraph, validate}
use jarvis.Workflow.Scheduler.{complete}
use jarvis.Workflow.Scheduler.Waves.{IsGraph}
use jarvis.Workflow.Executor.{WorkflowExecutor, WorkflowResult}
use jarvis.Workflow.Executor.Started.{Ran}
use jarvis.Workflow.Executor.Runs.{execute-Ran}
use jarvis.Workflow.Engine.{
  Checkpoint, CheckpointStore, WorkflowEngine, save, load, save_checkpoint, set_executor, run,
  run_valid, finish_run, resume, resume_from, resume_valid, finish_resume, merge,
}

module _ {V : Type 0} where
  -- What is saved is loaded.
  pub load-save :
      (graph_id : String) (completed : List String) (outputs : Dict String (Option V))
      (store : CheckpointStore V)
      → load graph_id (save graph_id completed outputs store)
        ≡ some (record { graph_id = graph_id; completed_nodes = completed; outputs = outputs })
  unfolding load save
  load-save graph_id completed outputs store =
      let state : Checkpoint V = record {
        graph_id = graph_id;
        completed_nodes = completed;
        outputs = outputs;
      } in
      ground (arith, get-put_self store graph_id (some state))

  Ran-outputs :
      (ex : WorkflowExecutor V) (nodes : Dict String WorkflowNode) (completed : List String)
      (started : List (List WorkflowNode)) (r : WorkflowResult V) (outputs : Dict String (Option V))
      → Ran ex nodes completed started r
      → Ran ex nodes completed started (record r { outputs = outputs })
  unfolding Ran
  Ran-outputs ex nodes completed [] r outputs h = h
  Ran-outputs ex nodes completed (w ∷ ws) r outputs h = (
    h.0,
    elim h.1 [
      | inl broke ↦ inl broke
      | inr later ↦ inr (Ran-outputs ex nodes (complete w completed) ws r outputs later)
    ],
  )

  run-Ran :
      (g : WorkflowGraph) (e : WorkflowEngine V) (ex : WorkflowExecutor V)
      (store : CheckpointStore V)
      → IsGraph g.nodes
      → validate g ≡ ok true
      → e.executor ≡ some ex
      → e.checkpoint_store ≡ some store
      → (started : List (List WorkflowNode)) × (r : WorkflowResult V) × (run g e ≡ (
        ok (started, r),
        record e {
          checkpoint_store = some (save g.graph_id r.completed_nodes r.outputs store);
          cancelled = put e.cancelled g.graph_id (Bool.false);
        },
      ))
        × Ran ex g.nodes [] started r
  unfolding run run_valid finish_run save_checkpoint
  run-Ran g e ex store is_graph is_valid on kept =
      let (started, r, done, ran) = execute-Ran ex g [] is_graph is_valid in
      (started, r, ground (arith, is_valid, on, kept, done), ran)

  resume-Ran :
      (g : WorkflowGraph) (e : WorkflowEngine V) (ex : WorkflowExecutor V)
      (store : CheckpointStore V) (state : Checkpoint V)
      → IsGraph g.nodes
      → validate g ≡ ok true
      → e.executor ≡ some ex
      → e.checkpoint_store ≡ some store
      → load g.graph_id store ≡ some state
      → (started : List (List WorkflowNode)) × (r : WorkflowResult V) × ((resume g e).0
          ≡ ok (started, r))
        × Ran ex g.nodes state.completed_nodes started r
  unfolding resume resume_from resume_valid finish_resume
  resume-Ran g e ex store state is_graph is_valid on kept saved =
      let (started, r, done, ran) = execute-Ran ex g state.completed_nodes is_graph is_valid in
      let outputs = merge state.outputs r.outputs in
      (
        started,
        record r { outputs = outputs },
        ground (arith, is_valid, on, kept, done, saved),
        Ran-outputs ex g.nodes state.completed_nodes started r outputs ran,
      )

  -- A run of a valid graph, by an engine with an executor and a checkpoint store, and then a resume of
  -- it, with any other executor: both return. The run starts nodes from none that are completed; the
  -- resume goes on from exactly those that the run reported as completed, so it starts none of them
  -- again, and it succeeds when all nodes of the graph are completed or reports an error that one of
  -- the nodes it started raises.
  pub run-resume :
      (g : WorkflowGraph) (e : WorkflowEngine V) (ex ex' : WorkflowExecutor V)
      (store : CheckpointStore V)
      → IsGraph g.nodes
      → validate g ≡ ok true
      → e.executor ≡ some ex
      → e.checkpoint_store ≡ some store
      → (started : List (List WorkflowNode)) × (r : WorkflowResult V) × (started' : List
          (List WorkflowNode))
        × (r' : WorkflowResult V) × ((run g e).0 ≡ ok (started, r))
        × Ran ex g.nodes [] started r
        × ((resume g (set_executor ex' (run g e).1)).0 ≡ ok (started', r'))
        × Ran ex' g.nodes r.completed_nodes started' r'
  unfolding set_executor
  run-resume g e ex ex' store is_graph is_valid on kept =
      let (started, r, done, ran) = run-Ran g e ex store is_graph is_valid on kept in
      let store' = save g.graph_id r.completed_nodes r.outputs store in
      let e' : WorkflowEngine V = record e {
        executor = some ex';
        checkpoint_store = some store';
        cancelled = put e.cancelled g.graph_id (Bool.false);
      } in
      let (started', r', done', ran') =
        resume-Ran g e' ex' store'
          (record {
            graph_id = g.graph_id;
            completed_nodes = r.completed_nodes;
            outputs = r.outputs;
          })
          is_graph is_valid refl refl (load-save g.graph_id r.completed_nodes r.outputs store) in
      (started, r, started', r', ap (λ x. x.0) done, ran, rw done done', ran')
