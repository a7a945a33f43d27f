-- ===== src/Mission/Resolver/Arrows.antt =====
-- The graph that GoalDependencyResolver of core/mission/mission_scheduler.py builds, against the list
-- of its arrows, from a known dependency to the task that has it.
use jarvis.Prelude.{
  nat_eq, ℕ, [], ◌∷◌, none, some, arith, ◌≡◌, ◌≢◌, ◌++◌, List, member, true, false, refl, Bool,
  if◌then◌else◌, ◌==◌, suc, not, ◌&&◌,
}
use jarvis.Prelude.Dict.{Dict, get, put, get-put}
use jarvis.Mission.{MissionTask}
use jarvis.Mission.Resolver.{ℤ, pos, Graph, neighbours, degree_of, has_vertex, link, increment}

-- A dictionary has each key once.
unfoldable pub IsDict : Dict ℕ ℤ → Type 0
IsDict [] = Unit
IsDict ((k, n) ∷ d) = (get d k ≡ none) × IsDict d

pub put-IsDict : (d : Dict ℕ ℤ) (k : ℕ) (n : ℤ) → IsDict d → IsDict (put d k n)
unfolding IsDict put get
put-IsDict [] k n h = (refl, tt)
put-IsDict ((j, m) ∷ d) k n h = ground (arith, put-IsDict d k n h.1, get-put d k j n)

-- An arrow goes from a dependency to the task that waits for it.
abbrev pub Arrows : Type 0
Arrows = List (ℕ × ℕ)

unfoldable pub targets : (dep : ℕ) → Arrows → List ℕ
targets v [] = []
targets v ((dep, t) ∷ es) = if dep == v then t ∷ targets v es else targets v es

-- The arrows that arrive at a task from dependencies that are not done.
unfoldable pub arriving : (done : List ℕ) (task : ℕ) → Arrows → ℕ
arriving q k [] = 0
arriving q k ((dep, t) ∷ es) =
    if t == k && not (member dep q) then suc (arriving q k es) else arriving q k es

unfoldable pub has_arrow : (dep task : ℕ) → Arrows → Bool
has_arrow d k [] = false
has_arrow d k ((dep, t) ∷ es) = if dep == d && t == k then true else has_arrow d k es

targets-append :
    (v dep t : ℕ) (es : Arrows)
    → targets v (es ++ (dep, t) ∷ []) ≡ (if dep == v then targets v es ++ t ∷ [] else targets v es)
unfolding targets
targets-append v dep t [] = ground arith
targets-append v dep t ((d, s) ∷ es) = ground (arith, targets-append v dep t es)

arriving-append :
    (k dep t : ℕ) (es : Arrows)
    → arriving [] k (es ++ (dep, t) ∷ [])
      ≡ (if t == k then suc (arriving [] k es) else arriving [] k es)
unfolding arriving member
arriving-append k dep t [] = ground arith
arriving-append k dep t ((d, s) ∷ es) = ground (arith, arriving-append k dep t es)

pub has_arrow-append :
    (d k dep t : ℕ) (es : Arrows)
    → has_arrow d k (es ++ (dep, t) ∷ []) ≡ (if has_arrow d k es then true else dep == d && t == k)
unfolding has_arrow
has_arrow-append d k dep t [] = ground arith
has_arrow-append d k dep t ((e, s) ∷ es) = ground (arith, has_arrow-append d k dep t es)

-- The arrows of the tasks, in the order in which they are found.
unfoldable pub arrow : (known : ℕ → Bool) (task dep : ℕ) → Arrows → Arrows
arrow known t dep es = if known dep then es ++ (dep, t) ∷ [] else es

unfoldable pub arrows_of : (known : ℕ → Bool) (task : ℕ) → List ℕ → Arrows → Arrows
arrows_of known t [] es = es
arrows_of known t (dep ∷ deps) es = arrows_of known t deps (arrow known t dep es)

unfoldable pub arrows : (known : ℕ → Bool) → List MissionTask → Arrows → Arrows
arrows known [] es = es
arrows known (t ∷ ts) es = arrows known ts (arrows_of known t.id t.depends_on es)

-- The graph has these vertices and these arrows.
pub record Draws (known : ℕ → Bool) (es : Arrows) (g : Graph) : Type 0 where
  pub vertex : (k : ℕ) → has_vertex g k ≡ known k
  pub to : (v : ℕ) → neighbours g.adj v ≡ targets v es
  pub degree : (k : ℕ) → degree_of g.in_degree k ≡ pos (arriving [] k es)
  pub keys_once : IsDict g.in_degree
  pub keys : (k : ℕ) (n : ℤ) → get g.in_degree k ≡ some n → known k ≡ true
  pub keyed : (k : ℕ) → known k ≡ true → get g.in_degree k ≢ none

pub link-Draws :
    (known : ℕ → Bool) (t dep : ℕ) (es : Arrows) (g : Graph)
    → known t ≡ true
    → Draws known es g
    → Draws known (arrow known t dep es) (link t dep g)
unfolding link arrow increment
link-Draws known t dep es g p h = record {
  keyed = λ k e. ground (
    arith,
    h.keyed k e,
    h.vertex dep,
    get-put g.in_degree t k (increment (degree_of g.in_degree t)),
  );
  keys = λ k n e. ground (
    arith,
    p,
    h.keys k n,
    e,
    h.vertex dep,
    get-put g.in_degree t k (increment (degree_of g.in_degree t)),
  );
  vertex = λ k. ground (arith, h.vertex k, h.vertex dep);
  to = λ v. ground (
    arith,
    h.vertex dep,
    h.to v,
    h.to dep,
    get-put g.adj dep v (neighbours g.adj dep ++ t ∷ []),
    targets-append v dep t es,
  );
  degree = λ k. ground (
    arith,
    h.vertex dep,
    h.degree k,
    h.degree t,
    get-put g.in_degree t k (increment (degree_of g.in_degree t)),
    arriving-append k dep t es,
  );
  keys_once = ground (
    arith,
    h.keys_once,
    put-IsDict g.in_degree t (increment (degree_of g.in_degree t)) h.keys_once,
  );
}
