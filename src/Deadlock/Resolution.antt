-- ===== src/Deadlock/Resolution.antt =====
-- What `detect_and_resolve` of core/runtime/deadlock_detector.py promises.
use jarvis.Prelude.{
  string_eq, String, true, false, List, [], ◌∷◌, ◌++◌, member, ◌≡◌, ◌≢◌, refl, arith, eq_iff,
  if◌then◌else◌, none, ◌||◌, map, ok, Option, All, Bool-cases, inl, inr, subst,
}
use jarvis.Deadlock.{WaitForEdge, DeadlockInfo, DeadlockDetector, has_edge, same_edge}
use jarvis.Deadlock.Detection.{detect_cycles, resolve_all, as_resolved, detect_and_resolve}
use jarvis.Deadlock.Returns.{find_cycles-AreFound}
use jarvis.Deadlock.Waits.{graph}
use jarvis.Deadlock.Detects.{IsDeadlockFree, infos, detected, victims_of, free_without_victims}
use jarvis.Deadlock.Cleared.{
  is_cleared, has_edge-resolve_all, is_released, owner_in, owner_in-resolve_all, same_edge→eq,
}

is_cleared-resolved :
    (a : String) (dls : List DeadlockInfo) → is_cleared a (map as_resolved dls) ≡ is_cleared a dls
unfolding is_cleared
is_cleared-resolved a [] = refl
is_cleared-resolved a (dl ∷ dls) = ground (arith, is_cleared-resolved a dls)

is_released-resolved :
    (k : String) (owner : Option String) (dls : List DeadlockInfo)
    → is_released k owner (map as_resolved dls) ≡ is_released k owner dls
unfolding is_released
is_released-resolved k owner [] = refl
is_released-resolved k owner (dl ∷ dls) = ground (arith, is_released-resolved k owner dls)

-- An agent with a name that is a victim is cleared.
victims_of-is_cleared :
    (a : String) (dls : List DeadlockInfo)
    → a ≢ ""
    → is_cleared a dls ≡ false
    → member a (victims_of dls) ≡ false
unfolding is_cleared member
victims_of-is_cleared a [] named h = refl
victims_of-is_cleared a (dl ∷ dls) named h =
    ground (arith, victims_of-is_cleared a dls, eq_iff dl.victim "", eq_iff dl.victim a, named, h)

waiter_named :
    (es : List WaitForEdge) (e : WaitForEdge)
    → All (λ x. x.waiter ≢ "") es
    → has_edge e es ≡ true
    → e.waiter ≢ ""
unfolding has_edge
waiter_named [] e named h = absurd (ground (arith, h))
waiter_named (x ∷ es) e named h = elim (Bool-cases (same_edge x e)) [
  | inl same ↦ subst (λ y. y.waiter ≢ "") (same_edge→eq x e same) named.0
  | inr other ↦ waiter_named es e named.1 (ground (arith, h, other))
]

-- The detector after the resolution.
abbrev settled : DeadlockDetector → List (List String) → DeadlockDetector
settled d cycles = record (resolve_all (infos d.wait_for_edges cycles) (detected d cycles)) {
  deadlock_history = d.deadlock_history ++ map as_resolved (infos d.wait_for_edges cycles);
}

has_edge-settled :
    (d : DeadlockDetector) (cycles : List (List String)) (e : WaitForEdge)
    → has_edge e (settled d cycles).wait_for_edges ≡ (
        if is_cleared e.waiter (map as_resolved (infos d.wait_for_edges cycles))
          || is_cleared e.holder (map as_resolved (infos d.wait_for_edges cycles))
        then false
        else has_edge e d.wait_for_edges)
has_edge-settled d cycles e =
    let dls = infos d.wait_for_edges cycles in
    rw (is_cleared-resolved e.waiter dls, is_cleared-resolved e.holder dls)
      (has_edge-resolve_all dls (detected d cycles) e)

-- If every agent that waits has a name that is not empty, then detect_and_resolve leaves no
-- deadlock: no agent waits for itself any more, directly or through others. It always returns, and
-- it removes exactly the waits of and for the victims of the deadlocks that it returns.
pub detect_and_resolve-IsDeadlockFree :
    (d : DeadlockDetector)
    → All (λ e. e.waiter ≢ "") d.wait_for_edges
    → (dls : List DeadlockInfo) × (d' : DeadlockDetector) × (detect_and_resolve d ≡ ok (dls, d'))
      × IsDeadlockFree d'.wait_for_edges
      × ((e : WaitForEdge)
          → has_edge e d'.wait_for_edges ≡ (
              if is_cleared e.waiter dls || is_cleared e.holder dls
              then false
              else has_edge e d.wait_for_edges))
unfolding detect_and_resolve detect_cycles
detect_and_resolve-IsDeadlockFree d named =
    let es = d.wait_for_edges in
    let (cycles, f, found_them, found) = find_cycles-AreFound (graph es) in
    let dls = infos es cycles in
    (
      map as_resolved dls,
      settled d cycles,
      rw found_them refl,
      free_without_victims es (settled d cycles).wait_for_edges cycles f found (λ e h.
          let law = has_edge-resolve_all dls (detected d cycles) e in
          let old : has_edge e es ≡ true = ground (arith, law, h) in
          (
            old,
            victims_of-is_cleared e.waiter dls (waiter_named es e named old)
                (ground (arith, law, h)),
          )),
      has_edge-settled d cycles,
    )

-- With a lock manager, detect_and_resolve frees exactly those locks on the resources of a deadlock
-- that its victim owns, and leaves every other lock with its owner.
pub detect_and_resolve-locks :
    (d : DeadlockDetector)
    → (dls : List DeadlockInfo) × (d' : DeadlockDetector) × (detect_and_resolve d ≡ ok (dls, d'))
      × ((k : String)
          → owner_in d'.lock_manager k ≡ (
              if is_released k (owner_in d.lock_manager k) dls
              then none
              else owner_in d.lock_manager k))
unfolding detect_and_resolve detect_cycles
detect_and_resolve-locks d =
    let (cycles, f, found_them, found) = find_cycles-AreFound (graph d.wait_for_edges) in
    let dls = infos d.wait_for_edges cycles in
    (
      map as_resolved dls,
      settled d cycles,
      rw found_them refl,
      λ k.
          rw (is_released-resolved k (owner_in d.lock_manager k) dls)
            (owner_in-resolve_all dls (detected d cycles) k),
    )
