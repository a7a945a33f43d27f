-- ===== src/Samples/Workflows.antt =====
-- The theorems on workflows at a graph of three nodes, of which two depend on the first.
use jarvis.Prelude.{
  member, add, discard, keep, string_eq, true, false, List, [], ◌∷◌, ok, raise, ◌≡◌, refl, some, ℕ,
}
use jarvis.Prelude.Dict.{get, put}
use jarvis.Prelude.Sort.{sort}
use jarvis.Workflow.{WorkflowNode, WorkflowGraph, new_graph, add_node, validate, cycle}
use jarvis.Workflow.Validity.{Verdict, validate-Verdict}
use jarvis.Workflow.Scheduler.{done, schedule}
use jarvis.Workflow.Scheduler.Waves.{IsGraph, AreWaves}
use jarvis.Workflow.Scheduler.Complete.{schedule-AreWaves}
use jarvis.Workflow.Retry.{RetryPolicy, execute_with_retry}
use jarvis.Workflow.Retry.Attempts.{Ends, execute_with_retry-Ends}
use jarvis.Workflow.Executor.{Handler, WorkflowExecutor, WorkflowResult, execute, execute_node}
use jarvis.Workflow.Executor.Started.{Ran}
use jarvis.Workflow.Executor.Runs.{execute-Ran}
use jarvis.Workflow.Engine.{WorkflowEngine, run, resume, set_executor}
use jarvis.Workflow.Engine.Resume.{run-resume}

abbrev fetch : WorkflowNode
fetch = record { node_id = "fetch"; task_type = "tool"; depends_on = [] }

abbrev index : WorkflowNode
index = record { node_id = "index"; task_type = "tool"; depends_on = "fetch" ∷ [] }

abbrev report : WorkflowNode
report = record { node_id = "report"; task_type = "llm"; depends_on = "fetch" ∷ [] }

abbrev graph : WorkflowGraph
graph = record {
  graph_id = "g";
  nodes = ("report", report) ∷ ("fetch", fetch) ∷ ("index", index) ∷ [];
}

built : add_node index (add_node fetch (add_node report (new_graph "g"))) ≡ graph
unfolding add_node put
built = refl

graph-IsGraph : IsGraph graph.nodes
unfolding get
graph-IsGraph = (refl, refl, (refl, refl, (refl, refl, tt)))

graph_valid : validate graph ≡ ok true
unfolding validate get put
graph_valid = refl

loop_found :
    validate (record {
      graph_id = "l";
      nodes =
          ("a", record { node_id = "a"; task_type = ""; depends_on = "b" ∷ [] })
          ∷ ("b", record { node_id = "b"; task_type = ""; depends_on = "a" ∷ [] })
          ∷ [];
    })
    ≡ raise (cycle "a")
unfolding validate get put
loop_found = refl

waves : schedule graph ≡ done ((fetch ∷ []) ∷ (index ∷ report ∷ []) ∷ [])
unfolding schedule sort member add discard
waves = refl

-- The tool fails on its first attempt, and the model always.
abbrev tool : Handler ℕ
tool node ℕ.zero = raise (record { name = "TimeoutError"; text = "" })
tool node (ℕ.suc n) = ok (some n)

abbrev model : Handler ℕ
model node n = raise (record { name = "ValueError"; text = "" })

abbrev policy : RetryPolicy
policy = record { max_attempts = 3; backoff = 10; retryable_errors = "TimeoutError" ∷ [] }

abbrev executor : WorkflowExecutor ℕ
executor = record {
  retry_policy = policy;
  handlers = ("tool", tool) ∷ ("llm", model) ∷ [];
  ends_first = λ a b. true;
}

abbrev repaired : WorkflowExecutor ℕ
repaired = record {
  retry_policy = policy;
  handlers = ("tool", tool) ∷ ("llm", tool) ∷ [];
  ends_first = λ a b. true;
}

abbrev engine : WorkflowEngine ℕ
engine = record { executor = some executor; checkpoint_store = some []; cancelled = [] }

-- The node that fails is `report`, but the wave stops before `index` is counted as completed, and the
-- node that is reported is the first one of the graph that is not completed.
abbrev misnamed : WorkflowGraph
misnamed = record {
  graph_id = "m";
  nodes = ("fetch", fetch) ∷ ("index", index) ∷ ("report", report) ∷ [];
}

misreported :
    execute executor misnamed []
    ≡ some (
      (fetch ∷ []) ∷ (index ∷ report ∷ []) ∷ [],
      record {
        graph_id = "m";
        success = false;
        completed_nodes = "fetch" ∷ [];
        failed_node = some "index";
        error = some (record { name = "ValueError"; text = "" });
        outputs = ("fetch", some 0) ∷ ("index", some 0) ∷ [];
      },
    )
unfolding execute execute_node execute_with_retry schedule sort get put member add discard keep
misreported = refl

validate-Verdict_example : Verdict graph.nodes (validate graph)
validate-Verdict_example = validate-Verdict graph

schedule-AreWaves_example :
    (ws : List (List WorkflowNode)) × (schedule graph ≡ done ws) × AreWaves graph.nodes [] ws
schedule-AreWaves_example = schedule-AreWaves graph graph-IsGraph graph_valid

execute_with_retry-Ends_example :
    Ends policy (tool report) (execute_with_retry policy (tool report))
execute_with_retry-Ends_example = execute_with_retry-Ends policy (tool report)

execute-Ran_example :
    (started : List (List WorkflowNode)) × (r : WorkflowResult ℕ) × (execute executor graph
        ("fetch" ∷ [])
      ≡ some (started, r))
    × Ran executor graph.nodes ("fetch" ∷ []) started r
execute-Ran_example = execute-Ran executor graph ("fetch" ∷ []) graph-IsGraph graph_valid

run-resume_example :
    (started : List (List WorkflowNode)) × (r : WorkflowResult ℕ) × (started' : List
      (List WorkflowNode))
    × (r' : WorkflowResult ℕ) × ((run graph engine).0 ≡ ok (started, r))
    × Ran executor graph.nodes [] started r
    × ((resume graph (set_executor repaired (run graph engine).1)).0 ≡ ok (started', r'))
    × Ran repaired graph.nodes r.completed_nodes started' r'
run-resume_example =
    run-resume graph engine executor repaired [] graph-IsGraph graph_valid refl refl
