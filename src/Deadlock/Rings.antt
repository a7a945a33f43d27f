-- ===== src/Deadlock/Rings.antt =====
-- The deadlocks that `detect_cycles` of core/runtime/deadlock_detector.py reports are real.
use jarvis.Prelude.{
  string_eq, String, true, false, List, [], ◌∷◌, ◌++◌, ◌==◌, member, ◌≡◌, ◌⊎◌, inl, inr, refl,
  arith, eq_iff, Bool-cases, some, ok, All, ◌&&◌,
}
use jarvis.Prelude.Dict.{Dict, get, put, get-put}
use jarvis.Deadlock.{WaitForEdge, DeadlockInfo, DeadlockDetector, has_edge, resources_of, pair_eq}
use jarvis.Deadlock.Detection.{
  select_victim, info_of, detect_cycles, resource_of, resources_along, cycle_resources,
}
use jarvis.Deadlock.Circles.{Edge, Linked, IsCircle}
use jarvis.Deadlock.Returns.{find_cycles-AreFound}
use jarvis.Deadlock.Waits.{edge, graph, Edge-has_edge}
use jarvis.Deadlock.Detects.{infos, detected}

-- Each agent of the list waits for the next one, and the last for `first`, for the resources of the
-- second list.
abbrev pub AreWaits : List WaitForEdge → (first : String) → List String → List String → Type 0
AreWaits es first [] [] = Unit
AreWaits es first [] (r ∷ rs) = ⊥
AreWaits es first (x ∷ xs) [] = ⊥
AreWaits es first (x ∷ []) (r ∷ rs) = (has_edge (edge x first r) es ≡ true) × (rs ≡ [])
AreWaits es first (x ∷ y ∷ ys) (r ∷ rs) =
    (has_edge (edge x y r) es ≡ true) × AreWaits es first (y ∷ ys) rs

-- A ring of waits, with the victim on it.
abbrev pub IsRing : List WaitForEdge → (agents resources : List String) → String → Type 0
IsRing es [] resources victim = ⊥
IsRing es (x ∷ xs) resources victim =
    AreWaits es x (x ∷ xs) resources × (member victim (x ∷ xs) ≡ true)

-- What `edge_resources` gives for a waiter and a holder.
resources_of-get :
    (es : List WaitForEdge) (d : Dict (String × String) String) (a b : String)
    → ((get (resources_of es d) (a, b) ≡ get d (a, b))
        × ((r : String) → has_edge (edge a b r) es ≡ false))
      ⊎ ((r : String) × (get (resources_of es d) (a, b) ≡ some r)
          × (has_edge (edge a b r) es ≡ true))
unfolding resources_of has_edge
resources_of-get [] d a b = inl (refl, λ r. refl)
resources_of-get (e ∷ es) d a b =
    elim (resources_of-get es (put d (e.waiter, e.holder) e.resource) a b) [
      | inr (r, got, wait) ↦ inr (r, got, ground (arith, wait))
      | inl (same, none_later) ↦
          let law = get-put d (e.waiter, e.holder) (a, b) e.resource in
          elim (Bool-cases (e.waiter == a && e.holder == b)) [
            | inl here ↦ inr (
              e.resource,
              ground (arith, same, law, here),
              ground (arith, here, eq_iff e.resource e.resource),
            )
            | inr other ↦
                inl (ground (arith, same, law, other), λ r. ground (arith, none_later r, other))
          ]
    ]

-- The resource that `edge_resources` gives for a wait is one of that wait.
resource_of-has_edge :
    (es : List WaitForEdge) (a b : String)
    → Edge (graph es) a b
    → has_edge (edge a b (resource_of (resources_of es []) a b)) es ≡ true
unfolding get
resource_of-has_edge es a b h = elim (resources_of-get es [] a b) [
  | inl (absent, no_wait) ↦
      let (r, wait) = Edge-has_edge es a b h in absurd (ground (arith, no_wait r, wait))
  | inr (r, got, wait) ↦ rw (got, resource_of) wait
]

resources_along-AreWaits :
    (es : List WaitForEdge) (first x : String) (xs : List String)
    → Linked (graph es) ((x ∷ xs) ++ first ∷ [])
    → AreWaits es first (x ∷ xs) (resources_along (resources_of es []) first (x ∷ xs))
unfolding resources_along
resources_along-AreWaits es first x [] h = (resource_of-has_edge es x first h.0, refl)
resources_along-AreWaits es first x (y ∷ ys) h =
    (resource_of-has_edge es x y h.0, resources_along-AreWaits es first y ys h.1)

select_victim-member :
    (x : String) (xs : List String) → member (select_victim (x ∷ xs)) (x ∷ xs) ≡ true
unfolding select_victim member
select_victim-member x [] = ground (arith, eq_iff x x)
select_victim-member x (y ∷ ys) = ground (arith, select_victim-member y ys)

abbrev IsReal : List WaitForEdge → DeadlockInfo → Type 0
IsReal es dl = IsRing es dl.agents_involved dl.cycle dl.victim

info_of-IsReal :
    (es : List WaitForEdge) (c : List String)
    → IsCircle (graph es) c
    → IsReal es (info_of (resources_of es []) c)
unfolding info_of cycle_resources
info_of-IsReal es [] h = h
info_of-IsReal es (x ∷ xs) h = (resources_along-AreWaits es x x xs h, select_victim-member x xs)

infos-IsReal :
    (es : List WaitForEdge) (cycles : List (List String))
    → All (IsCircle (graph es)) cycles
    → All (IsReal es) (infos es cycles)
infos-IsReal es [] h = tt
infos-IsReal es (c ∷ cs) h = (info_of-IsReal es c h.0, infos-IsReal es cs h.1)

-- Every deadlock that detect_cycles reports is real: its agents form a ring in which each waits for
-- the next one, and the last for the first, for the resources that the report names, and its victim
-- is one of them.
pub detect_cycles-IsRing :
    (d : DeadlockDetector)
    → (deadlocks : List DeadlockInfo) × (d' : DeadlockDetector) × (detect_cycles d
        ≡ ok (deadlocks, d'))
      × All (λ dl. IsRing d.wait_for_edges dl.agents_involved dl.cycle dl.victim) deadlocks
unfolding detect_cycles
detect_cycles-IsRing d =
    let (cycles, f, e, found) = find_cycles-AreFound (graph d.wait_for_edges) in
    (
      infos d.wait_for_edges cycles,
      detected d cycles,
      rw e refl,
      infos-IsReal d.wait_for_edges cycles found.real,
    )
