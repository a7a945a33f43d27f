-- ===== src/Deadlock/Waits.antt =====
-- Who waits for whom by the edges of core/runtime/deadlock_detector.py, against the graph that
-- `detect_cycles` builds from them.
use jarvis.Prelude.{
  string_eq, String, true, List, [], ◌∷◌, ◌++◌, ◌==◌, ◌<◌, member, ◌≡◌, ◌⊎◌, inl, inr, arith,
  eq_iff, Bool-cases, if◌then◌else◌, ◌&&◌,
}
use jarvis.Prelude.Dict.{get, put, get-put}
use jarvis.Prelude.Missing.{member-append}
use jarvis.Prelude.Walks.{finished_at, Finished-before}
use jarvis.Deadlock.{Graph, neighbours, WaitForEdge, has_edge, same_edge, graph_of}
use jarvis.Deadlock.Circles.{Edge, Linked, IsCircle}
use jarvis.Deadlock.Finished.{IsVictim}
use jarvis.Deadlock.Returns.{AreFound}

abbrev pub edge : String → String → String → WaitForEdge
edge a b r = record { waiter = a; holder = b; resource = r }

-- One agent waits for another, directly or through others.
pub data WaitsFor (es : List WaitForEdge) : String → String → Type 0 where
  direct : {a b : String} (r : String) → has_edge (edge a b r) es ≡ true → WaitsFor es a b
  through :
      {a b c : String} (r : String)
      → has_edge (edge a b r) es ≡ true
      → WaitsFor es b c
      → WaitsFor es a c

put-Edge :
    (g : Graph) (w h a b : String)
    → member b (neighbours (put g w (neighbours g w ++ h ∷ [])) a)
      ≡ (if member b (neighbours g a) then true else (w == a && h == b))
unfolding member
put-Edge g w h a b = ground (
  arith,
  get-put g w a (neighbours g w ++ h ∷ []),
  eq_iff w a,
  member-append b (neighbours g w) (h ∷ []),
)

pub same_edge_refl : (e : WaitForEdge) → same_edge e e ≡ true
same_edge_refl e =
    ground (arith, eq_iff e.waiter e.waiter, eq_iff e.holder e.holder, eq_iff e.resource e.resource)

-- An edge of the graph is a wait, and the other way round.
graph_of-waits :
    (es : List WaitForEdge) (g : Graph) (a b : String)
    → Edge (graph_of es g) a b
    → Edge g a b ⊎ ((r : String) × (has_edge (edge a b r) es ≡ true))
unfolding graph_of has_edge
graph_of-waits [] g a b h = inl h
graph_of-waits (e ∷ es) g a b h =
    elim (graph_of-waits es (put g e.waiter (neighbours g e.waiter ++ e.holder ∷ [])) a b h) [
      | inl old ↦ elim (Bool-cases (member b (neighbours g a))) [
        | inl before ↦ inl before
        | inr new ↦ inr (
          e.resource,
          ground (
            arith,
            put-Edge g e.waiter e.holder a b,
            old,
            new,
            same_edge_refl e,
            eq_iff e.resource e.resource,
          ),
        )
      ]
      | inr (r, later) ↦ inr (r, ground (arith, later))
    ]

graph_of-kept :
    (es : List WaitForEdge) (g : Graph) (a b : String) → Edge g a b → Edge (graph_of es g) a b
unfolding graph_of
graph_of-kept [] g a b h = h
graph_of-kept (e ∷ es) g a b h =
    graph_of-kept es _ a b (ground (arith, put-Edge g e.waiter e.holder a b, h))

waits-graph_of :
    (es : List WaitForEdge) (g : Graph) (a b r : String)
    → has_edge (edge a b r) es ≡ true
    → Edge (graph_of es g) a b
unfolding graph_of has_edge
waits-graph_of [] g a b r h = ground (arith, h)
waits-graph_of (e ∷ es) g a b r h = elim (Bool-cases (same_edge e (edge a b r))) [
  | inl same ↦
      graph_of-kept es _ a b (
        ground
          (arith, put-Edge g e.waiter e.holder a b, same, eq_iff e.waiter a, eq_iff e.holder b))
  | inr other ↦ waits-graph_of es _ a b r (ground (arith, h, other))
]

abbrev pub graph : List WaitForEdge → Graph
graph es = graph_of es []

pub Edge-has_edge :
    (es : List WaitForEdge) (a b : String)
    → Edge (graph es) a b
    → (r : String) × (has_edge (edge a b r) es ≡ true)
unfolding member get
Edge-has_edge es a b h = elim (graph_of-waits es [] a b h) [
  | inl none_there ↦ absurd (ground (arith, none_there))
  | inr wait ↦ wait
]

pub has_edge-Edge :
    (es : List WaitForEdge) (a b r : String) → has_edge (edge a b r) es ≡ true → Edge (graph es) a b
has_edge-Edge es a b r h = waits-graph_of es [] a b r h

-- No agent waits for itself if every wait is an edge of the searched graph, and none of a victim.
pub waits_end :
    (es : List WaitForEdge) (g : Graph) (cycles : List (List String)) (f : List String)
    → AreFound g cycles f
    → ((a b r : String) → has_edge (edge a b r) es ≡ true → Edge g a b × ¬ IsVictim cycles a)
    → (a c : String) → WaitsFor es a c
    → finished_at c f < finished_at a f
waits_end es g cycles f found within a c (direct r h) =
    let (e, v) = within a c r h in
    (Finished-before (neighbours g) (IsVictim cycles) f a c found.finished (found.all_of_them a c e)
      e v).1
waits_end es g cycles f found within a c (through {b = b} r h w) =
    let (e, v) = within a b r h in
    let before =
      (Finished-before (neighbours g) (IsVictim cycles) f a b found.finished
        (found.all_of_them a b e) e v).1 in
    omega (arith, before, waits_end es g cycles f found within b c w)

pub Linked-WaitsFor :
    (es : List WaitForEdge) (x y : String) (xs : List String)
    → Linked (graph es) ((x ∷ xs) ++ y ∷ [])
    → WaitsFor es x y
Linked-WaitsFor es x y [] h = let (r, e) = Edge-has_edge es x y h.0 in direct r e
Linked-WaitsFor es x y (z ∷ zs) h =
    let (r, e) = Edge-has_edge es x z h.0 in through r e (Linked-WaitsFor es z y zs h.1)

-- A circle is an agent that waits for itself.
pub IsCircle-WaitsFor :
    (es : List WaitForEdge) (c : List String)
    → IsCircle (graph es) c
    → (a : String) × WaitsFor es a a
IsCircle-WaitsFor es [] h = absurd h
IsCircle-WaitsFor es (x ∷ xs) h = (x, Linked-WaitsFor es x x xs h)
