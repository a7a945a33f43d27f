-- ===== src/Deadlock/Detection.antt =====
-- core/runtime/deadlock_detector.py: `detect_cycles` and `detect_and_resolve`.
use jarvis.Prelude.{
  string_eq, String, true, false, Option, none, some, List, [], ◌∷◌, ◌++◌, ◌==◌, map, if◌then◌else◌,
  Result, ok, ◌>>=◌,
}
use jarvis.Prelude.Dict.{Dict, get}
use jarvis.MemoryLock.{Locks, release}
use jarvis.Deadlock.{
  WaitForEdge, DeadlockInfo, DeadlockDetector, clear_agent, graph_of, resources_of, pair_eq,
}
use jarvis.Deadlock.Search.{Fault, find_cycles}

-- The last agent of the cycle, or the empty text.
unfoldable pub select_victim : List String → String
select_victim [] = ""
select_victim (x ∷ []) = x
select_victim (x ∷ y ∷ ys) = select_victim (y ∷ ys)

abbrev pub resource_of : Dict (String × String) String → String → String → String
resource_of d waiter holder = elim (get d (waiter, holder)) [ none ↦ "unknown" | some r ↦ r ]

-- The resources of the cycle that begins with `first`: the last agent waits for `first`.
unfoldable pub resources_along :
    Dict (String × String) String → (first : String) → List String → List String
resources_along d first [] = []
resources_along d first (x ∷ []) = resource_of d x first ∷ []
resources_along d first (x ∷ y ∷ ys) = resource_of d x y ∷ resources_along d first (y ∷ ys)

unfoldable pub cycle_resources : Dict (String × String) String → List String → List String
unfolding resources_along
cycle_resources d [] = []
cycle_resources d (x ∷ xs) = resources_along d x (x ∷ xs)

unfoldable pub info_of : Dict (String × String) String → List String → DeadlockInfo
unfolding cycle_resources select_victim
info_of d cycle = record {
  cycle = cycle_resources d cycle;
  agents_involved = cycle;
  victim = select_victim cycle;
  resolved = false;
}

unfoldable pub detect_cycles :
    DeadlockDetector → Result Fault (List DeadlockInfo × DeadlockDetector)
unfolding info_of
detect_cycles d = do
  cycles ← find_cycles (graph_of d.wait_for_edges [])
  let deadlocks = map (info_of (resources_of d.wait_for_edges [])) cycles
  ok (deadlocks, record d { deadlock_history = d.deadlock_history ++ deadlocks })

unfoldable pub release_all : List String → String → Locks → Locks
release_all [] victim locks = locks
release_all (r ∷ rs) victim locks = release_all rs victim (release r victim locks).1

unfoldable pub release_locks : List String → String → Option Locks → Option Locks
unfolding release_all
release_locks resources victim none = none
release_locks resources victim (some locks) = some (release_all resources victim locks)

unfoldable pub resolve_deadlock : DeadlockInfo → DeadlockDetector → DeadlockDetector
unfolding release_locks
resolve_deadlock deadlock d =
    if deadlock.victim == ""
    then d
    else clear_agent deadlock.victim
        (record d { lock_manager = release_locks deadlock.cycle deadlock.victim d.lock_manager })

unfoldable pub resolve_all : List DeadlockInfo → DeadlockDetector → DeadlockDetector
unfolding resolve_deadlock
resolve_all [] d = d
resolve_all (dl ∷ dls) d = resolve_all dls (resolve_deadlock dl d)

abbrev pub as_resolved : DeadlockInfo → DeadlockInfo
as_resolved dl = record dl { resolved = true }

-- The history holds the deadlocks themselves, so it shows them resolved too.
unfoldable pub detect_and_resolve :
    DeadlockDetector → Result Fault (List DeadlockInfo × DeadlockDetector)
unfolding resolve_all
detect_and_resolve d = do
  (deadlocks, d') ← detect_cycles d
  let after = resolve_all deadlocks d'
  let resolved = map as_resolved deadlocks
  ok (resolved, record after { deadlock_history = d.deadlock_history ++ resolved })

-- `build_wait_for_graph_from_locks`: an edge whose resource another agent owns is turned to the owner.
abbrev pub actual_holder : Option String → WaitForEdge → WaitForEdge
actual_holder none e = e
actual_holder (some owner) e = if owner == "" then e else record e { holder = owner }

unfoldable pub rebuild_edges : Locks → List WaitForEdge → List WaitForEdge
rebuild_edges locks [] = []
rebuild_edges locks (e ∷ es) = actual_holder (get locks e.resource) e ∷ rebuild_edges locks es

unfoldable pub build_wait_for_graph_from_locks : DeadlockDetector → DeadlockDetector
unfolding rebuild_edges
build_wait_for_graph_from_locks d = elim d.lock_manager [
  | none ↦ d
  | some locks ↦ record d { wait_for_edges = rebuild_edges locks d.wait_for_edges }
]
