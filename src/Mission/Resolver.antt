-- ===== src/Mission/Resolver.antt =====
-- GoalDependencyResolver of core/mission/mission_scheduler.py: Kahn's algorithm, in waves.
pub mod Arrows
pub mod Drawn
pub mod Loop
pub mod Head
pub mod Waves
pub mod Complete
pub mod Cycle
pub mod Fuel
use jarvis.Prelude.{
  nat_eq, ℕ, [], ◌∷◌, none, some, suc, add, zero, length, ◌++◌, if◌then◌else◌, ◌&&◌, member, map,
}
use jarvis.Prelude.Dict.{Dict, get, put}
use jarvis.Mission.{MissionTask, Bool, List, false, true, ltb, keep, not}

-- An in-degree is a Python int, so a decrement below 0 would go to -1 = `negsuc 0`.
pub data ℤ : Type 0 where
  pos : ℕ → ℤ
  negsuc : ℕ → ℤ

unfoldable pub decrement : ℤ → ℤ
decrement (pos zero) = negsuc 0
decrement (pos (suc n)) = pos n
decrement (negsuc n) = negsuc (suc n)

unfoldable pub increment : ℤ → ℤ
increment (pos n) = pos (suc n)
increment (negsuc zero) = pos 0
increment (negsuc (suc n)) = negsuc n

unfoldable pub is_zero : ℤ → Bool
is_zero (pos zero) = true
is_zero _ = false

pub record Graph : Type 0 where
  pub task_map : Dict ℕ MissionTask
  pub in_degree : Dict ℕ ℤ
  pub adj : Dict ℕ (List ℕ)

abbrev pub degree_of : Dict ℕ ℤ → ℕ → ℤ
degree_of d k = elim (get d k) [ none ↦ pos 0 | some n ↦ n ]

abbrev pub neighbours : Dict ℕ (List ℕ) → ℕ → List ℕ
neighbours d k = elim (get d k) [ none ↦ [] | some ks ↦ ks ]

-- The three dict comprehensions.
unfoldable pub vertices : List MissionTask → Graph → Graph
vertices [] g = g
vertices (t ∷ ts) g = vertices ts (record {
  task_map = put g.task_map t.id t;
  in_degree = put g.in_degree t.id (pos 0);
  adj = put g.adj t.id [];
})

abbrev pub has_vertex : Graph → ℕ → Bool
has_vertex g k = elim (get g.task_map k) [ none ↦ false | some t ↦ true ]

-- One dependency of a task: an unknown one is skipped.
unfoldable pub link : (task_id dep_id : ℕ) → Graph → Graph
unfolding increment
link task_id dep_id g =
    if has_vertex g dep_id
    then record g {
      adj = put g.adj dep_id (neighbours g.adj dep_id ++ task_id ∷ []);
      in_degree = put g.in_degree task_id (increment (degree_of g.in_degree task_id));
    }
    else g

unfoldable pub link_all : (task_id : ℕ) → List ℕ → Graph → Graph
unfolding link
link_all task_id [] g = g
link_all task_id (dep ∷ deps) g = link_all task_id deps (link task_id dep g)

unfoldable pub edges : List MissionTask → Graph → Graph
unfolding link_all
edges [] g = g
edges (t ∷ ts) g = edges ts (link_all t.id t.depends_on g)

abbrev pub no_graph : Graph
no_graph = record { task_map = []; in_degree = []; adj = [] }

unfoldable pub build : List MissionTask → Graph
unfolding vertices edges
build tasks = edges tasks (vertices tasks no_graph)

-- [t_id for t_id, deg in in_degree.items() if deg == 0]
unfoldable pub roots : Dict ℕ ℤ → List ℕ
unfolding is_zero
roots [] = []
roots ((k, n) ∷ d) = if is_zero n then k ∷ roots d else roots d

-- The inner loop over the neighbours of one task: the in-degrees, and what becomes ready.
unfoldable pub relax : (queued : List ℕ) → List ℕ → Dict ℕ ℤ × List ℕ → Dict ℕ ℤ × List ℕ
unfolding decrement is_zero
relax queued [] (in_degree, ready) = (in_degree, ready)
relax queued (k ∷ ks) (in_degree, ready) =
    let n = decrement (degree_of in_degree k) in
    let next : List ℕ = if is_zero n && not (member k queued) then ready ++ k ∷ [] else ready in
    relax queued ks (put in_degree k n, next)

unfoldable pub relax_all :
    Dict ℕ (List ℕ) → (queued : List ℕ) → List ℕ → Dict ℕ ℤ × List ℕ → Dict ℕ ℤ × List ℕ
unfolding relax
relax_all adj queued [] d = d
relax_all adj queued (t ∷ ts) d = relax_all adj queued ts (relax queued (neighbours adj t) d)

pub data Resolved : Type 0 where
  waves : List (List ℕ) → Resolved
  -- ValueError, with the tasks that were never ready.
  cycle : List ℕ → Resolved
  out_of_fuel : Resolved

pub add_all : List ℕ → List ℕ → List ℕ
add_all [] queued = queued
add_all (t ∷ ts) queued = add_all ts (add t queued)

-- After the loop: every task has been queued, or there is a cycle.
pub conclude : List MissionTask → (queued : List ℕ) → List (List ℕ) → Resolved
conclude tasks queued done =
    if ltb (length queued) (length tasks)
    then cycle (keep (λ k. not (member k queued)) (map (λ t. t.id) tasks))
    else waves done

-- `while ready`: one wave for each unit of fuel.
unfoldable pub wave_loop :
    (fuel : ℕ)
    → List MissionTask
    → Dict ℕ (List ℕ)
    → Dict ℕ ℤ
    → (queued ready : List ℕ) → List (List ℕ)
    → Resolved
unfolding conclude relax_all add_all
wave_loop fuel tasks adj in_degree queued [] done = conclude tasks queued done
wave_loop zero tasks adj in_degree queued (r ∷ rs) done = out_of_fuel
wave_loop (suc fuel) tasks adj in_degree queued (r ∷ rs) done =
    let queued' = add_all (r ∷ rs) queued in
    let (in_degree', ready) = relax_all adj queued' (r ∷ rs) (in_degree, []) in
    wave_loop fuel tasks adj in_degree' queued' ready (done ++ (r ∷ rs) ∷ [])

-- The waves, by the ids of their tasks. A wave queues a task that was not queued before, so there
-- are at most as many waves as tasks.
unfoldable pub resolve : List MissionTask → Resolved
unfolding build roots wave_loop
resolve tasks =
    let g = build tasks in
    wave_loop (length tasks) tasks g.adj g.in_degree [] (roots g.in_degree) []
