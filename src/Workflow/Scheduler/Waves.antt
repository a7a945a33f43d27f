-- ===== src/Workflow/Scheduler/Waves.antt =====
-- The waves of core/workflow/dag_scheduler.py on a graph that core/workflow/workflow_graph.py accepts.
use jarvis.Prelude.{
  string_eq, String, Bool, true, false, some, List, [], ◌∷◌, ◌==◌, if◌then◌else◌, ◌&&◌, not, member,
  map, All, Once, ◌≡◌, inl, inr, refl, arith, eq_iff, Bool-cases, sym,
}
use jarvis.Prelude.Dict.{Dict, get, put, get-put}
use jarvis.Workflow.{WorkflowNode, WorkflowGraph, is_node, all_in, add_node}
use jarvis.Workflow.Order.{next}
use jarvis.Workflow.Scheduler.{ready, complete}

-- Every node stands under its own id, and no two under one: what add_node builds.
abbrev pub IsGraph : Dict String WorkflowNode → Type 0
IsGraph [] = Unit
IsGraph ((k, node) ∷ rest) = (node.node_id ≡ k) × (is_node rest k ≡ false) × IsGraph rest

is_node-put :
    (nodes : Dict String WorkflowNode) (k j : String) (node : WorkflowNode)
    → is_node (put nodes k node) j ≡ (if k == j then true else is_node nodes j)
is_node-put nodes k j node = ground (arith, get-put nodes k j node)

put-IsGraph :
    (nodes : Dict String WorkflowNode) (node : WorkflowNode)
    → IsGraph nodes
    → IsGraph (put nodes node.node_id node)
unfolding put get
put-IsGraph [] node h = (refl, refl, tt)
put-IsGraph ((k, n) ∷ rest) node h = elim (Bool-cases (k == node.node_id)) [
  | inl same ↦ rw same (sym ((eq_iff k node.node_id).0 same), h.1, h.2)
  | inr other ↦ rw other (
    h.0,
    ground (
      arith,
      is_node-put rest node.node_id k node,
      h.1,
      other,
      eq_iff k node.node_id,
      eq_iff node.node_id k,
    ),
    put-IsGraph rest node h.2,
  )
]

pub add_node-IsGraph :
    (node : WorkflowNode) (g : WorkflowGraph) → IsGraph g.nodes → IsGraph (add_node node g).nodes
unfolding add_node
add_node-IsGraph node g h = put-IsGraph g.nodes node h

abbrev pub ids : List WorkflowNode → List String
ids wave = map (λ n. n.node_id) wave

-- A node that is not completed, and whose dependencies are.
abbrev pub is_ready : Dict String WorkflowNode → List String → String → Bool
is_ready nodes before k = is_node nodes k && (not (member k before) && all_in (next nodes k) before)

-- A wave after the nodes `before`: exactly the nodes that are ready, each once and as it stands in
-- the graph.
pub record IsWave (nodes : Dict String WorkflowNode) (before : List String)
    (wave : List WorkflowNode) : Type 0 where
  pub exact : (k : String) → member k (ids wave) ≡ is_ready nodes before k
  pub once : Once (ids wave)
  pub own : All (λ n. get nodes n.node_id ≡ some n) wave

-- One wave after the other, from the nodes `before`; in the end all nodes have stood in one.
abbrev pub AreWaves : Dict String WorkflowNode → List String → List (List WorkflowNode) → Type 0
AreWaves nodes before [] = (k : String) → is_node nodes k ≡ true → member k before ≡ true
AreWaves nodes before (w ∷ ws) = IsWave nodes before w × AreWaves nodes (complete w before) ws

pub ready-member :
    (remaining completed : List String) (nodes : Dict String WorkflowNode) (k : String)
    → IsGraph nodes
    → member k (ids (ready remaining completed nodes))
      ≡ (is_node nodes k && (member k remaining && all_in (next nodes k) completed))
unfolding ready member get
ready-member remaining completed [] k h = refl
ready-member remaining completed ((j, n) ∷ rest) k h =
    ground
      (arith, ready-member remaining completed rest k h.2, h.0, h.1, eq_iff j k, eq_iff n.node_id k)
