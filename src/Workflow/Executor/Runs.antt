-- ===== src/Workflow/Executor/Runs.antt =====
-- What core/workflow/workflow_executor.py starts, and what it reports.
use jarvis.Prelude.{
  string_eq, String, true, Option, none, some, List, [], ◌∷◌, member, All, Any, ok, raise, ◌≡◌, inl,
  inr, refl, arith, ap,
}
use jarvis.Prelude.Dict.{Dict, get}
use jarvis.Prelude.Missing.{not-member-nil}
use jarvis.Prelude.Sort.{sort, Any-sort}
use jarvis.Workflow.{WorkflowNode, WorkflowGraph, is_node, validate}
use jarvis.Workflow.Scheduler.{complete}
use jarvis.Workflow.Scheduler.Waves.{IsGraph, AreWaves}
use jarvis.Workflow.Scheduler.Complete.{schedule-AreWaves}
use jarvis.Workflow.Retry.{Exc}
use jarvis.Workflow.Executor.{
  WorkflowExecutor, WorkflowResult, execute_node, failed, succeeded, pending, after_gather,
  run_wave, run_waves, run_schedule, execute,
}
use jarvis.Workflow.Executor.Started.{
  MayStart, AreStarted, Ran, pending-AreStarted, completed_after, complete-nil, gather-Any,
}

module _ {V : Type 0} (ex : WorkflowExecutor V) (g : WorkflowGraph) where
  run_wave-Ran :
      (completed : List String) (todo : List WorkflowNode)
      (skipped started : List (List WorkflowNode) × WorkflowResult V)
      → (todo ≡ [] → Ran ex g.nodes completed skipped.0 skipped.1)
      → Ran ex g.nodes completed (todo ∷ started.0) started.1
      → Ran ex g.nodes completed (run_wave todo skipped started).0 (run_wave todo skipped started).1
  unfolding run_wave
  run_wave-Ran completed [] skipped started skip start = skip refl
  run_wave-Ran completed (n ∷ ns) skipped started skip start = start

  after_gather-Ran :
      (completed : List String) (todo : List WorkflowNode) (o : Option Exc × Dict String (Option V))
      (rest : Dict String (Option V) → List (List WorkflowNode) × WorkflowResult V)
      → AreStarted g.nodes completed todo
      → ((e : Exc) → o.0 ≡ some e → Any (λ n. execute_node ex n ≡ raise e) todo)
      → ((outputs : Dict String (Option V))
          → Ran ex g.nodes (complete todo completed) (rest outputs).0 (rest outputs).1)
      → Ran ex g.nodes completed
          (todo ∷ (after_gather g completed o rest).0)
          (after_gather g completed o rest).1
  unfolding after_gather failed Ran
  after_gather-Ran completed todo (none, outputs) rest h broke go_on = (h, inr (go_on outputs))
  after_gather-Ran completed todo (some e, outputs) rest h broke go_on =
      (h, inl (refl, refl, refl, (e, refl, broke e refl)))

  run_waves-Ran :
      (waves : List (List WorkflowNode)) (before completed : List String)
      (outputs : Dict String (Option V))
      → AreWaves g.nodes before waves
      → ((k : String) → member k before ≡ true → member k completed ≡ true)
      → Ran ex g.nodes completed
          (run_waves ex g (succeeded g) waves completed outputs).0
          (run_waves ex g (succeeded g) waves completed outputs).1
  unfolding run_waves succeeded
  run_waves-Ran [] before completed outputs h more =
      unfold Ran in (refl, refl, λ k is. more k (h k is))
  run_waves-Ran (w ∷ ws) before completed outputs h more =
      let todo = pending w completed in
      let further = completed_after w before completed more in
      run_wave-Ran completed todo _ _
        (λ nothing. run_waves-Ran ws (complete w before) completed outputs h.1 λ k m. ground (
          arith,
          further k m,
          ap (λ t. member k (complete t completed)) nothing,
          complete-nil completed,
        ))
        (after_gather-Ran completed todo _ _
          (pending-AreStarted g.nodes before completed w h.0 more)
          (λ e raised.
            Any-sort ex.ends_first _ todo
              (gather-Any ex (sort ex.ends_first todo) outputs e raised))
          λ outputs'.
            run_waves-Ran ws (complete w before) (complete todo completed) outputs' h.1 further)

-- A run of a graph that add_node has built and that validate accepts, from any set of completed
-- nodes: the executor returns. It starts a node only if it is not completed and all its dependencies
-- are, and never starts one twice at a time. Then either all nodes of the graph are completed and it
-- reports success, or some node of the last wave that it started raises the error that it reports,
-- with the nodes that were completed before that wave.
pub execute-Ran :
    {V : Type 0} (ex : WorkflowExecutor V) (g : WorkflowGraph) (initial : List String)
    → IsGraph g.nodes
    → validate g ≡ ok true
    → (started : List (List WorkflowNode)) × (r : WorkflowResult V) × (execute ex g initial
        ≡ some (started, r))
      × Ran ex g.nodes initial started r
unfolding execute run_schedule
execute-Ran ex g initial is e =
    let (ws, scheduled, waves) = schedule-AreWaves g is e in
    let run = run_waves ex g (succeeded g) ws initial [] in
    (
      run.0,
      run.1,
      rw scheduled refl,
      run_waves-Ran ex g ws [] initial [] waves (λ k m. absurd (cc (not-member-nil k))),
    )

none_raises :
    {V : Type 0} (ex : WorkflowExecutor V) (nodes : Dict String WorkflowNode)
    (completed : List String) (w : List WorkflowNode) (e : Exc)
    → ((n : WorkflowNode)
        → get nodes n.node_id ≡ some n
        → (v : Option V) × (execute_node ex n ≡ ok v))
    → All (MayStart nodes completed) w
    → Any (λ n. execute_node ex n ≡ raise e) w
    → ⊥
none_raises ex nodes completed [] e fine all any = any
none_raises ex nodes completed (n ∷ w) e fine all (inl raised) =
    let (v, good) = fine n all.0.0 in cc
none_raises ex nodes completed (n ∷ w) e fine all (inr later) =
    none_raises ex nodes completed w e fine all.1 later

Ran-success :
    {V : Type 0} (ex : WorkflowExecutor V) (nodes : Dict String WorkflowNode)
    (completed : List String) (started : List (List WorkflowNode)) (r : WorkflowResult V)
    → ((n : WorkflowNode)
        → get nodes n.node_id ≡ some n
        → (v : Option V) × (execute_node ex n ≡ ok v))
    → Ran ex nodes completed started r
    → (r.success ≡ true)
      × ((k : String) → is_node nodes k ≡ true → member k r.completed_nodes ≡ true)
unfolding Ran
Ran-success ex nodes completed [] r fine h =
    (h.0, λ k is. ground (arith, h.2 k is, ap (member k) h.1))
Ran-success ex nodes completed (w ∷ ws) r fine h = elim h.1 [
  | inr later ↦ Ran-success ex nodes (complete w completed) ws r fine later
  | inl broke ↦
      let (e, reported, raised) = broke.3 in
      absurd (none_raises ex nodes completed w e fine h.0.0 raised)
]

-- A run of a graph that add_node has built and that validate accepts, from any set of completed
-- nodes, succeeds with all nodes of the graph completed if no node raises after its retries.
pub execute-success :
    {V : Type 0} (ex : WorkflowExecutor V) (g : WorkflowGraph) (initial : List String)
    → IsGraph g.nodes
    → validate g ≡ ok true
    → ((n : WorkflowNode)
        → get g.nodes n.node_id ≡ some n
        → (v : Option V) × (execute_node ex n ≡ ok v))
    → (started : List (List WorkflowNode)) × (r : WorkflowResult V) × (execute ex g initial
        ≡ some (started, r))
      × (r.success ≡ true)
      × ((k : String) → is_node g.nodes k ≡ true → member k r.completed_nodes ≡ true)
execute-success ex g initial is e fine =
    let (started, r, returned, ran) = execute-Ran ex g initial is e in
    let (good, all) = Ran-success ex g.nodes initial started r fine ran in
    (started, r, returned, good, all)
