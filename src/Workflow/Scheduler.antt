-- ===== src/Workflow/Scheduler.antt =====
-- core/workflow/dag_scheduler.py: DAGScheduler. `schedule` reads nothing that its consumer changes, so
-- the waves that it yields are a list. Python's set `remaining` has no order; here it has that of the
-- graph, and the sort by `node_id` makes the order of a wave the same.
pub mod Waves
pub mod Progress
pub mod Complete
use jarvis.Prelude.{
  string_eq, String, Bool, true, false, List, [], ◌∷◌, if◌then◌else◌, ◌&&◌, ℕ, zero, suc, member,
  add, discard, length, map,
}
use Prim.Native.Nat.{Ordering}
use Prim.Native.String.{compare}
use jarvis.Prelude.Dict.{Dict}
use jarvis.Prelude.Sort.{sort}
use jarvis.Workflow.{WorkflowNode, WorkflowGraph, all_in}

pub data Schedule : Type 0 where
  done : List (List WorkflowNode) → Schedule
  -- RuntimeError after these waves: no node is ready.
  stalled : List (List WorkflowNode) → Schedule
  out_of_fuel : Schedule

abbrev pub yield_wave : List WorkflowNode → Schedule → Schedule
yield_wave wave (done waves) = done (wave ∷ waves)
yield_wave wave (stalled waves) = stalled (wave ∷ waves)
yield_wave wave out_of_fuel = out_of_fuel

-- key=lambda n: n.node_id
abbrev pub id_le : WorkflowNode → WorkflowNode → Bool
id_le a b = elim (compare a.node_id b.node_id) [ Ordering.gt ↦ false | _ ↦ true ]

-- The nodes of `remaining` whose dependencies are completed.
unfoldable pub ready :
    (remaining completed : List String) → Dict String WorkflowNode → List WorkflowNode
unfolding all_in
ready remaining completed [] = []
ready remaining completed ((nid, node) ∷ rest) =
    if member nid remaining && all_in node.depends_on completed
    then node ∷ ready remaining completed rest
    else ready remaining completed rest

unfoldable pub complete : List WorkflowNode → List String → List String
complete [] completed = completed
complete (n ∷ wave) completed = complete wave (add n.node_id completed)

unfoldable pub strike : List WorkflowNode → List String → List String
strike [] remaining = remaining
strike (n ∷ wave) remaining = strike wave (discard n.node_id remaining)

-- `while remaining`: each turn that yields a wave completes a node.
unfoldable pub schedule_loop :
    ℕ → Dict String WorkflowNode → (completed remaining : List String) → Schedule
unfolding ready complete strike sort
schedule_loop fuel nodes completed [] = done []
schedule_loop zero nodes completed (r ∷ rs) = out_of_fuel
schedule_loop (suc fuel) nodes completed (r ∷ rs) =
    let wave = sort id_le (ready (r ∷ rs) completed nodes) in
    let rest = schedule_loop fuel nodes (complete wave completed) (strike wave (r ∷ rs)) in
    elim wave [ [] ↦ stalled [] | n ∷ ns ↦ yield_wave (n ∷ ns) rest ]

unfoldable pub schedule : WorkflowGraph → Schedule
unfolding schedule_loop
schedule g = schedule_loop (length g.nodes) g.nodes [] (map (λ entry. entry.0) g.nodes)
