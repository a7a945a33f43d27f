-- ===== src/Samples/Deadlocks.antt =====
-- The theorems on the deadlock detector at three agents, of whom two wait for each other.
use jarvis.Prelude.{
  member, add, discard, keep, string_eq, true, false, List, [], ◌∷◌, ok, ◌≡◌, ◌≢◌, refl, some,
  arith, eq_iff, ◌↔◌, All, ◌||◌, if◌then◌else◌,
}
use jarvis.Prelude.Dict.{get, put, remove}
use jarvis.MemoryLock.{release}
use jarvis.Deadlock.{
  WaitForEdge, DeadlockInfo, DeadlockDetector, has_edge, graph_of, resources_of, clear_agent,
}
use jarvis.Deadlock.Search.{find_cycles}
use jarvis.Deadlock.Detection.{detect_cycles, detect_and_resolve}
use jarvis.Deadlock.Waits.{edge, graph}
use jarvis.Deadlock.Detects.{IsDeadlockFree, detect_cycles-decides}
use jarvis.Deadlock.Cleared.{is_cleared}
use jarvis.Deadlock.Resolution.{detect_and_resolve-IsDeadlockFree}
use jarvis.Deadlock.Rings.{IsRing, detect_cycles-IsRing}

abbrev waits : List WaitForEdge
waits = edge "ann" "bob" "disk" ∷ edge "bob" "ann" "net" ∷ edge "cid" "ann" "net" ∷ []

abbrev detector : DeadlockDetector
detector = record {
  lock_manager = some (("disk", "bob") ∷ ("net", "ann") ∷ []);
  wait_for_edges = waits;
  deadlock_history = [];
}

abbrev report : DeadlockInfo
report = record {
  cycle = "disk" ∷ "net" ∷ [];
  agents_involved = "ann" ∷ "bob" ∷ [];
  victim = "bob";
  resolved = true;
}

resolved :
    detect_and_resolve detector
    ≡ ok (
      report ∷ [],
      record {
        lock_manager = some (("net", "ann") ∷ []);
        wait_for_edges = edge "cid" "ann" "net" ∷ [];
        deadlock_history = report ∷ [];
      },
    )
unfolding detect_and_resolve detect_cycles find_cycles graph_of resources_of get put remove release
    clear_agent member add discard keep
resolved = refl

waits_named : All (λ e. e.waiter ≢ "") waits
waits_named = (
  λ e. absurd (ground (arith, eq_iff "ann" "", e)),
  (
    λ e. absurd (ground (arith, eq_iff "bob" "", e)),
    (λ e. absurd (ground (arith, eq_iff "cid" "", e)), tt),
  ),
)

detect_cycles-decides_example :
    (deadlocks : List DeadlockInfo) × (d' : DeadlockDetector) × (detect_cycles detector
      ≡ ok (deadlocks, d'))
    × (d'.wait_for_edges ≡ waits)
    × ((deadlocks ≡ []) ↔ IsDeadlockFree waits)
detect_cycles-decides_example = detect_cycles-decides detector

detect_cycles-IsRing_example :
    (deadlocks : List DeadlockInfo) × (d' : DeadlockDetector) × (detect_cycles detector
      ≡ ok (deadlocks, d'))
    × All (λ dl. IsRing waits dl.agents_involved dl.cycle dl.victim) deadlocks
detect_cycles-IsRing_example = detect_cycles-IsRing detector

detect_and_resolve-IsDeadlockFree_example :
    (dls : List DeadlockInfo) × (d' : DeadlockDetector) × (detect_and_resolve detector
      ≡ ok (dls, d'))
    × IsDeadlockFree d'.wait_for_edges
    × ((e : WaitForEdge)
        → has_edge e d'.wait_for_edges ≡ (
            if is_cleared e.waiter dls || is_cleared e.holder dls then false else has_edge e waits))
detect_and_resolve-IsDeadlockFree_example = detect_and_resolve-IsDeadlockFree detector waits_named

-- Not every cycle is found: ann waits for cid too, and the cycle of ann and cid is not reported.
abbrev two_cycles : List WaitForEdge
two_cycles =
    edge "ann" "bob" "r1"
    ∷ edge "ann" "cid" "r2"
    ∷ edge "bob" "cid" "r2"
    ∷ edge "cid" "ann" "r3"
    ∷ []

one_is_found : find_cycles (graph two_cycles) ≡ ok (("ann" ∷ "bob" ∷ "cid" ∷ []) ∷ [])
unfolding find_cycles graph_of get put member add discard
one_is_found = refl
