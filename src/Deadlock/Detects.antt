-- ===== src/Deadlock/Detects.antt =====
-- When `detect_cycles` of core/runtime/deadlock_detector.py reports a deadlock.
use jarvis.Prelude.{
  string_eq, String, true, false, List, [], ◌∷◌, ◌++◌, member, ◌≡◌, refl, arith, map, ok, ◌↔◌, All,
  ap,
}
use jarvis.Deadlock.{WaitForEdge, DeadlockInfo, DeadlockDetector, has_edge, resources_of}
use jarvis.Deadlock.Detection.{select_victim, info_of, detect_cycles}
use jarvis.Deadlock.Circles.{IsCircle, Edge}
use jarvis.Deadlock.Finished.{IsVictim}
use jarvis.Deadlock.Returns.{find_cycles-AreFound, AreFound}
use jarvis.Deadlock.Waits.{edge, WaitsFor, graph, has_edge-Edge, waits_end, IsCircle-WaitsFor}

abbrev pub IsDeadlockFree : List WaitForEdge → Type 0
IsDeadlockFree es = (a : String) → ¬ WaitsFor es a a

abbrev pub infos : List WaitForEdge → List (List String) → List DeadlockInfo
infos es cycles = map (info_of (resources_of es [])) cycles

-- The detector after `detect_cycles` has found the cycles.
abbrev pub detected : DeadlockDetector → List (List String) → DeadlockDetector
detected d cycles = record d {
  deadlock_history = d.deadlock_history ++ infos d.wait_for_edges cycles;
}

pub no_victims :
    (es : List WaitForEdge) (cycles : List (List String))
    → All (IsCircle (graph es)) cycles
    → IsDeadlockFree es
    → infos es cycles ≡ []
no_victims es [] real free = refl
no_victims es (c ∷ cs) real free = let (a, w) = IsCircle-WaitsFor es c real.0 in absurd (free a w)

-- A victim of a cycle is the victim of its report.
abbrev pub victims_of : List DeadlockInfo → List String
victims_of deadlocks = map (λ dl. dl.victim) deadlocks

pub victims_of-infos :
    (es : List WaitForEdge) (cycles : List (List String))
    → victims_of (infos es cycles) ≡ map select_victim cycles
unfolding info_of
victims_of-infos es [] = refl
victims_of-infos es (c ∷ cs) = ap (λ r. select_victim c ∷ r) (victims_of-infos es cs)

-- No agent waits for itself by edges of the searched graph none of which is a victim's.
pub free_without_victims :
    (es es' : List WaitForEdge) (cycles : List (List String)) (f : List String)
    → AreFound (graph es) cycles f
    → ((e : WaitForEdge)
        → has_edge e es' ≡ true
        → (has_edge e es ≡ true) × (member e.waiter (victims_of (infos es cycles)) ≡ false))
    → IsDeadlockFree es'
free_without_victims es es' cycles f found within a w =
    let inside : (x y r : String)
        → has_edge (edge x y r) es' ≡ true
        → Edge (graph es) x y × ¬ IsVictim cycles x =
      λ x y r h.
        let (old, kept) = within (edge x y r) h in
        (
          has_edge-Edge es x y r old,
          λ v. absurd (ground (arith, kept, ap (member x) (victims_of-infos es cycles), v)),
        ) in
    absurd (omega (arith, waits_end es' (graph es) cycles f found inside a a w))

-- detect_cycles always returns, and it reports nothing exactly if no agent waits for itself,
-- directly or through others; it changes no wait.
pub detect_cycles-decides :
    (d : DeadlockDetector)
    → (deadlocks : List DeadlockInfo) × (d' : DeadlockDetector) × (detect_cycles d
        ≡ ok (deadlocks, d'))
      × (d'.wait_for_edges ≡ d.wait_for_edges)
      × ((deadlocks ≡ []) ↔ IsDeadlockFree d.wait_for_edges)
unfolding detect_cycles member
detect_cycles-decides d =
    let es = d.wait_for_edges in
    let (cycles, f, e, found) = find_cycles-AreFound (graph es) in
    (
      infos es cycles,
      detected d cycles,
      rw e refl,
      refl,
      (
        λ x.
            free_without_victims es es cycles f found
              (λ w h. (h, ap (λ dls. member w.waiter (victims_of dls)) x)),
        no_victims es cycles found.real,
      ),
    )
