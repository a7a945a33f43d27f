-- ===== src/Deadlock.antt =====
-- core/runtime/deadlock_detector.py: the wait-for graph of the agents, the search for cycles and
-- their resolution. The clock of `timestamp` is left out. The lock manager is a MemoryLock or none;
-- the supervisor, which is told of a victim last, is taken not to call the detector.
pub mod Search
pub mod Detection
pub mod Circles
pub mod Finished
pub mod Steps
pub mod Returns
pub mod Waits
pub mod Detects
pub mod Cleared
pub mod Resolution
pub mod Rings
use jarvis.Prelude.{
  string_eq, String, Bool, true, false, not, Option, none, some, List, [], ◌∷◌, ◌++◌, ◌==◌, ◌&&◌,
  if◌then◌else◌, Eq, keep, ◌≡◌, ◌↔◌, arith, eq_iff,
}
use jarvis.Prelude.Dict.{Dict, get, put}
use jarvis.MemoryLock.{Locks}

pub record WaitForEdge : Type 0 where
  pub waiter : String
  pub holder : String
  pub resource : String

pub record DeadlockInfo : Type 0 where
  pub cycle : List String
  pub agents_involved : List String
  pub victim : String
  pub resolved : Bool

pub record DeadlockDetector : Type 0 where
  pub lock_manager : Option Locks
  pub wait_for_edges : List WaitForEdge
  pub deadlock_history : List DeadlockInfo

abbrev pub same_edge : WaitForEdge → WaitForEdge → Bool
same_edge e f = e.waiter == f.waiter && (e.holder == f.holder && e.resource == f.resource)

unfoldable pub has_edge : WaitForEdge → List WaitForEdge → Bool
has_edge f [] = false
has_edge f (e ∷ es) = if same_edge e f then true else has_edge f es

unfoldable pub register_wait :
    (waiter holder resource : String) → DeadlockDetector → DeadlockDetector
unfolding has_edge
register_wait waiter holder resource d =
    let edge : WaitForEdge = record { waiter = waiter; holder = holder; resource = resource } in
    if has_edge edge d.wait_for_edges
    then d
    else record d { wait_for_edges = d.wait_for_edges ++ edge ∷ [] }

unfoldable pub clear_wait : (waiter resource : String) → DeadlockDetector → DeadlockDetector
clear_wait waiter resource d = record d {
  wait_for_edges = keep (λ e. not (e.waiter == waiter && e.resource == resource)) d.wait_for_edges;
}

unfoldable pub clear_agent : String → DeadlockDetector → DeadlockDetector
clear_agent agent_id d = record d {
  wait_for_edges =
      keep (λ e. not (e.waiter == agent_id) && not (e.holder == agent_id)) d.wait_for_edges;
}

-- The graph of `detect_cycles`: the holders that each waiter waits for.
abbrev pub Graph : Type 0
Graph = Dict String (List String)

-- graph.get(node, [])
abbrev pub neighbours : Graph → String → List String
neighbours graph node = elim (get graph node) [ none ↦ [] | some holders ↦ holders ]

unfoldable pub graph_of : List WaitForEdge → Graph → Graph
graph_of [] graph = graph
graph_of (e ∷ es) graph =
    graph_of es (put graph e.waiter (neighbours graph e.waiter ++ e.holder ∷ []))

abbrev pub pair_same : String × String → String × String → Bool
pair_same (a, b) (c, d) = a == c && b == d

pub pair_same_iff : (p q : String × String) → (pair_same p q ≡ true) ↔ (p ≡ q)
pair_same_iff (a, b) (c, d) = ground (arith, eq_iff a c, eq_iff b d)

instance abbrev pub pair_eq : Eq (String × String)
pair_eq = record { same = pair_same; same_iff = pair_same_iff }

-- edge_resources: the resource of the last edge from a waiter to a holder.
unfoldable pub resources_of :
    List WaitForEdge → Dict (String × String) String → Dict (String × String) String
resources_of [] d = d
resources_of (e ∷ es) d = resources_of es (put d (e.waiter, e.holder) e.resource)
