-- ===== src/Workflow.antt =====
-- core/workflow/workflow_graph.py: the graph of a workflow and `validate`. The names and parameters
-- of the nodes, which only the handlers read, are left out. The recursion of `dfs` runs on fuel:
-- each call within a call colours one more node.
pub mod Order
pub mod Search
pub mod Validity
pub mod Scheduler
pub mod Retry
pub mod Executor
pub mod Engine
use jarvis.Prelude.{
  string_eq, String, Bool, true, false, Option, none, some, List, [], ◌∷◌, ◌==◌, if◌then◌else◌, ℕ,
  zero, suc, member, length, map, Result, ok, raise, ◌>>=◌, not, ◌&&◌,
}
use jarvis.Prelude.Dict.{Dict, get, put}

pub record WorkflowNode : Type 0 where
  pub node_id : String
  pub task_type : String
  pub depends_on : List String

pub record WorkflowGraph : Type 0 where
  pub graph_id : String
  pub nodes : Dict String WorkflowNode

abbrev pub new_graph : String → WorkflowGraph
new_graph graph_id = record { graph_id = graph_id; nodes = [] }

unfoldable pub add_node : WorkflowNode → WorkflowGraph → WorkflowGraph
add_node node g = record g { nodes = put g.nodes node.node_id node }

pub data Fault : Type 0 where
  -- ValueError: a node depends on an unknown one.
  unknown : (node_id dep : String) → Fault
  -- ValueError: a cycle with this node.
  cycle : String → Fault
  key_error : Fault
  out_of_fuel : Fault

abbrev pub is_node : Dict String WorkflowNode → String → Bool
is_node nodes k = elim (get nodes k) [ none ↦ false | some node ↦ true ]

unfoldable pub check_deps :
    Dict String WorkflowNode → String → List String → Result Fault (Unit {0})
check_deps nodes node_id [] = ok tt
check_deps nodes node_id (dep ∷ deps) =
    if is_node nodes dep then check_deps nodes node_id deps else raise (unknown node_id dep)

-- The first loop of `validate`, over `self.nodes.values()`.
unfoldable pub check_refs :
    Dict String WorkflowNode → Dict String WorkflowNode → Result Fault (Unit {0})
unfolding check_deps
check_refs nodes [] = ok tt
check_refs nodes ((k, node) ∷ rest) =
    check_deps nodes node.node_id node.depends_on >>= λ _. check_refs nodes rest

-- 0, 1 and 2 in the source.
pub data Color : Type 0 where
  white grey black : Color

abbrev pub Colors : Type 0
Colors = Dict String Color

-- {nid: 0 for nid in self.nodes}
unfoldable pub all_white : Dict String WorkflowNode → Colors
all_white [] = []
all_white ((k, node) ∷ rest) = put (all_white rest) k white

-- One dependency of the node, where `visit` is the call of `dfs`.
unfoldable pub look_at :
    (String → Colors → Result Fault Colors) → String → Option Color → Colors → Result Fault Colors
look_at visit dep none color = raise key_error
look_at visit dep (some white) color = visit dep color
look_at visit dep (some grey) color = raise (cycle dep)
look_at visit dep (some black) color = ok color

unfoldable pub look_all :
    (String → Colors → Result Fault Colors) → List String → Colors → Result Fault Colors
unfolding look_at
look_all visit [] color = ok color
look_all visit (dep ∷ deps) color = look_at visit dep (get color dep) color >>= look_all visit deps

-- self.nodes[nid].depends_on
unfoldable pub deps_of : Dict String WorkflowNode → String → Result Fault (List String)
deps_of nodes nid = elim (get nodes nid) [ none ↦ raise key_error | some node ↦ ok node.depends_on ]

unfoldable pub dfs : ℕ → Dict String WorkflowNode → String → Colors → Result Fault Colors
unfolding look_all deps_of
dfs zero nodes nid color = raise out_of_fuel
dfs (suc fuel) nodes nid color = do
  deps ← deps_of nodes nid
  color' ← look_all (dfs fuel nodes) deps (put color nid grey)
  ok (put color' nid black)

-- `if color[nid] == 0: dfs(nid)`
unfoldable pub start_at :
    ℕ → Dict String WorkflowNode → String → Option Color → Colors → Result Fault Colors
unfolding dfs
start_at fuel nodes nid none color = raise key_error
start_at fuel nodes nid (some white) color = dfs fuel nodes nid color
start_at fuel nodes nid (some grey) color = ok color
start_at fuel nodes nid (some black) color = ok color

unfoldable pub search_from :
    ℕ → Dict String WorkflowNode → Dict String WorkflowNode → Colors → Result Fault Colors
unfolding start_at
search_from fuel nodes [] color = ok color
search_from fuel nodes ((nid, node) ∷ rest) color =
    start_at fuel nodes nid (get color nid) color >>= search_from fuel nodes rest

unfoldable pub validate : WorkflowGraph → Result Fault Bool
unfolding check_refs all_white search_from
validate g = do
  _ ← check_refs g.nodes g.nodes
  _ ← search_from (suc (length g.nodes)) g.nodes g.nodes (all_white g.nodes)
  ok true

-- get_roots
unfoldable pub get_roots : Dict String WorkflowNode → List WorkflowNode
get_roots [] = []
get_roots ((k, node) ∷ rest) = elim node.depends_on [
  | [] ↦ node ∷ get_roots rest
  | _ ∷ _ ↦ get_roots rest
]

-- all(dep in completed for dep in deps)
unfoldable pub all_in : List String → List String → Bool
all_in [] completed = true
all_in (dep ∷ deps) completed = if member dep completed then all_in deps completed else false

unfoldable pub get_ready_nodes : List String → Dict String WorkflowNode → List WorkflowNode
unfolding all_in
get_ready_nodes completed [] = []
get_ready_nodes completed ((k, node) ∷ rest) =
    if not (member node.node_id completed) && all_in node.depends_on completed
    then node ∷ get_ready_nodes completed rest
    else get_ready_nodes completed rest
