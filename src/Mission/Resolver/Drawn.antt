-- ===== src/Mission/Resolver/Drawn.antt =====
-- What GoalDependencyResolver of core/mission/mission_scheduler.py builds from the tasks.
use jarvis.Prelude.{
  nat_eq, ℕ, [], ◌∷◌, All, arith, ◌≡◌, List, map, member, true, false, refl, Bool, if◌then◌else◌,
  ◌==◌, ◌∙◌,
}
use jarvis.Prelude.Dict.{get, get-put}
use jarvis.Mission.{MissionTask}
use jarvis.Mission.Resolver.{pos, Graph, vertices, link, link_all, edges, no_graph, build}
use jarvis.Mission.Resolver.Arrows.{
  IsDict, put-IsDict, Arrows, targets, arriving, has_arrow, has_arrow-append, arrow, arrows_of,
  arrows, Draws, link-Draws,
}

abbrev pub ids : List MissionTask → List ℕ
ids tasks = map (λ t. t.id) tasks

unfoldable pub knows : List MissionTask → (ℕ → Bool) → ℕ → Bool
knows [] f = f
knows (t ∷ ts) f = knows ts (λ k. if t.id == k then true else f k)

knows-member :
    (ts : List MissionTask) (f : ℕ → Bool) (k : ℕ)
    → knows ts f k ≡ (if member k (ids ts) then true else f k)
unfolding knows member
knows-member [] f k = refl
knows-member (t ∷ ts) f k = ground (arith, knows-member ts (λ j. if t.id == j then true else f j) k)

abbrev pub known : List MissionTask → ℕ → Bool
known tasks = knows tasks (λ k. false)

pub known-member : (tasks : List MissionTask) (k : ℕ) → known tasks k ≡ member k (ids tasks)
known-member tasks k = ground (arith, knows-member tasks (λ j. false) k)

All-known :
    (all ts : List MissionTask)
    → ((k : ℕ) → member k (ids ts) ≡ true → known all k ≡ true)
    → All (λ t. known all t.id ≡ true) ts
unfolding member
All-known all [] h = tt
All-known all (t ∷ ts) h =
    (h t.id (ground arith), All-known all ts (λ k m. h k (ground (arith, m))))

known_self : (tasks : List MissionTask) → All (λ t. known tasks t.id ≡ true) tasks
known_self tasks = All-known tasks tasks (λ k m. known-member tasks k ∙ m)

vertices-Draws :
    (ts : List MissionTask) (f : ℕ → Bool) (g : Graph)
    → Draws f [] g
    → Draws (knows ts f) [] (vertices ts g)
unfolding vertices knows targets arriving
vertices-Draws [] f g h = h
vertices-Draws (t ∷ ts) f g h =
    vertices-Draws ts (λ k. if t.id == k then true else f k) _
      (record {
        vertex = λ k. ground (arith, h.vertex k, get-put g.task_map t.id k t);
        to = λ v. ground (arith, h.to v, get-put g.adj t.id v []);
        degree = λ k. ground (arith, h.degree k, get-put g.in_degree t.id k (pos 0));
        keys_once = put-IsDict g.in_degree t.id (pos 0) h.keys_once;
        keyed = λ k e. ground (arith, h.keyed k, e, get-put g.in_degree t.id k (pos 0));
        keys = λ k n e. ground (arith, h.keys k n, e, get-put g.in_degree t.id k (pos 0));
      })

link_all-Draws :
    (f : ℕ → Bool) (t : ℕ) (deps : List ℕ) (es : Arrows) (g : Graph)
    → f t ≡ true
    → Draws f es g
    → Draws f (arrows_of f t deps es) (link_all t deps g)
unfolding link_all arrows_of
link_all-Draws f t [] es g p h = h
link_all-Draws f t (dep ∷ deps) es g p h =
    link_all-Draws f t deps (arrow f t dep es) (link t dep g) p (link-Draws f t dep es g p h)

edges-Draws :
    (f : ℕ → Bool) (ts : List MissionTask) (es : Arrows) (g : Graph)
    → All (λ t. f t.id ≡ true) ts
    → Draws f es g
    → Draws f (arrows f ts es) (edges ts g)
unfolding edges arrows
edges-Draws f [] es g p h = h
edges-Draws f (t ∷ ts) es g p h =
    edges-Draws f ts (arrows_of f t.id t.depends_on es) (link_all t.id t.depends_on g) p.1
      (link_all-Draws f t.id t.depends_on es g p.0 h)

abbrev pub arrows_in : List MissionTask → Arrows
arrows_in tasks = arrows (known tasks) tasks []

-- The graph that is built has the tasks as its vertices, and an arrow for each known dependency.
pub build-Draws : (tasks : List MissionTask) → Draws (known tasks) (arrows_in tasks) (build tasks)
unfolding build IsDict get targets arriving
build-Draws tasks =
    edges-Draws (known tasks) tasks [] (vertices tasks no_graph) (known_self tasks) (
      vertices-Draws tasks (λ k. false) no_graph
        (record {
          vertex = λ k. refl;
          to = λ v. refl;
          degree = λ k. refl;
          keys_once = tt;
          keyed = λ k e. ground (arith, e);
          keys = λ k n e. ground arith;
        }))

arrows_of-keeps :
    (f : ℕ → Bool) (t : ℕ) (deps : List ℕ) (es : Arrows) (d k : ℕ)
    → has_arrow d k es ≡ true
    → has_arrow d k (arrows_of f t deps es) ≡ true
unfolding arrows_of arrow
arrows_of-keeps f t [] es d k h = h
arrows_of-keeps f t (dep ∷ deps) es d k h =
    arrows_of-keeps f t deps (arrow f t dep es) d k (ground (arith, has_arrow-append d k dep t es))

arrows-keeps :
    (f : ℕ → Bool) (ts : List MissionTask) (es : Arrows) (d k : ℕ)
    → has_arrow d k es ≡ true
    → has_arrow d k (arrows f ts es) ≡ true
unfolding arrows
arrows-keeps f [] es d k h = h
arrows-keeps f (t ∷ ts) es d k h =
    arrows-keeps f ts (arrows_of f t.id t.depends_on es) d k
      (arrows_of-keeps f t.id t.depends_on es d k h)

arrow-has :
    (f : ℕ → Bool) (t dep : ℕ) (es : Arrows)
    → f dep ≡ true
    → has_arrow dep t (arrow f t dep es) ≡ true
unfolding arrow
arrow-has f t dep es h = ground (arith, has_arrow-append dep t dep t es)

arrows_of-has :
    (f : ℕ → Bool) (t : ℕ) (deps : List ℕ) (es : Arrows) (d : ℕ)
    → member d deps ≡ true
    → f d ≡ true
    → has_arrow d t (arrows_of f t deps es) ≡ true
unfolding arrows_of member
arrows_of-has f t [] es d m h = ground arith
arrows_of-has f t (dep ∷ deps) es d m h = ground (
  arith,
  arrows_of-has f t deps (arrow f t dep es) d,
  arrows_of-keeps f t deps (arrow f t dep es) d t,
  arrow-has f t dep es,
)

-- Every known dependency of every task has its arrow.
abbrev pub HasAll : (known : ℕ → Bool) → Arrows → MissionTask → Type 0
HasAll f es t = (d : ℕ) → member d t.depends_on ≡ true → f d ≡ true → has_arrow d t.id es ≡ true

pub arrows-HasAll :
    (f : ℕ → Bool) (ts : List MissionTask) (es : Arrows) → All (HasAll f (arrows f ts es)) ts
unfolding arrows
arrows-HasAll f [] es = tt
arrows-HasAll f (t ∷ ts) es = (
  λ d m h.
      arrows-keeps f ts (arrows_of f t.id t.depends_on es) d t.id
        (arrows_of-has f t.id t.depends_on es d m h),
  arrows-HasAll f ts (arrows_of f t.id t.depends_on es),
)

arrows_of-ends :
    (f : ℕ → Bool) (t : ℕ) (deps : List ℕ) (es : Arrows) (d k : ℕ)
    → has_arrow d k (arrows_of f t deps es) ≡ true
    → (if has_arrow d k es then true else t == k) ≡ true
unfolding arrows_of arrow
arrows_of-ends f t [] es d k h = ground (arith, h)
arrows_of-ends f t (dep ∷ deps) es d k h =
    ground (arith, arrows_of-ends f t deps (arrow f t dep es) d k h, has_arrow-append d k dep t es)

arrows-ends :
    (f : ℕ → Bool) (ts : List MissionTask) (es : Arrows) (d k : ℕ)
    → has_arrow d k (arrows f ts es) ≡ true
    → (if has_arrow d k es then true else member k (ids ts)) ≡ true
unfolding arrows member
arrows-ends f [] es d k h = ground (arith, h)
arrows-ends f (t ∷ ts) es d k h =
    let es' = arrows_of f t.id t.depends_on es in
    ground (arith, arrows-ends f ts es' d k h, arrows_of-ends f t.id t.depends_on es d k)

-- Arrows arrive at tasks only.
pub arrows_in-ends :
    (tasks : List MissionTask) (d k : ℕ)
    → has_arrow d k (arrows_in tasks) ≡ true
    → member k (ids tasks) ≡ true
unfolding has_arrow
arrows_in-ends tasks d k h = arrows-ends (known tasks) tasks [] d k h
