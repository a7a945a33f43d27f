-- ===== src/Mission/Resolver/Fuel.antt =====
-- The `while` loop of GoalDependencyResolver of core/mission/mission_scheduler.py ends: each turn
-- queues a task that was not queued before.
use jarvis.Prelude.{
  nat_eq, ℕ, [], ◌∷◌, arith, ◌≡◌, ◌≢◌, ◌≤◌, ◌<◌, List, member, true, false, refl, zero, suc, not,
  keep, length, length-keep-le, ◌++◌,
}
use jarvis.Prelude.Dict.{Dict}
use jarvis.Mission.{MissionTask}
use jarvis.Mission.Resolver.{ℤ, add_all, wave_loop, resolve, out_of_fuel, conclude}
use jarvis.Mission.Resolver.Drawn.{ids}
use jarvis.Mission.Resolver.Loop.{member-add_all}
use jarvis.Mission.Resolver.Head.{AtHead, roots-AtHead, relax_all-AtHead}

-- How many of the ids are not queued.
abbrev pub open_ids : List ℕ → List ℕ → ℕ
open_ids q V = length (keep (λ k. not (member k q)) V)

open_ids-le : (w q V : List ℕ) → open_ids (add_all w q) V ≤ open_ids q V
unfolding keep
open_ids-le w q [] = omega arith
open_ids-le w q (k ∷ V) = ground (arith, open_ids-le w q V, member-add_all w q k)

pub open_ids-lt :
    (r : ℕ) (rs q V : List ℕ)
    → member r V ≡ true
    → member r q ≡ false
    → open_ids (add_all (r ∷ rs) q) V < open_ids q V
unfolding keep member
open_ids-lt r rs q [] m h = ground arith
open_ids-lt r rs q (k ∷ V) m h =
    ground
      (arith, open_ids-lt r rs q V, open_ids-le (r ∷ rs) q V, member-add_all (r ∷ rs) q k, m, h)

conclude-ne-out_of_fuel :
    (tasks : List MissionTask) (q : List ℕ) (done : List (List ℕ))
    → conclude tasks q done ≢ out_of_fuel
unfolding conclude
conclude-ne-out_of_fuel tasks q done = ground arith

wave_loop-ne-out_of_fuel :
    (fuel : ℕ) (tasks : List MissionTask) (adj : Dict ℕ (List ℕ)) (d : Dict ℕ ℤ) (q ready : List ℕ)
    (done : List (List ℕ))
    → AtHead tasks adj d q ready
    → open_ids q (ids tasks) ≤ fuel
    → wave_loop fuel tasks adj d q ready done ≢ out_of_fuel
unfolding wave_loop member
wave_loop-ne-out_of_fuel fuel tasks adj d q [] done h p = conclude-ne-out_of_fuel tasks q done
wave_loop-ne-out_of_fuel zero tasks adj d q (r ∷ rs) done h p =
    ground (arith, open_ids-lt r rs q (ids tasks), h.within r, h.is_ready.apart r)
wave_loop-ne-out_of_fuel (suc fuel) tasks adj d q (r ∷ rs) done h p =
    wave_loop-ne-out_of_fuel fuel tasks adj _ (add_all (r ∷ rs) q) _ (done ++ (r ∷ rs) ∷ [])
      (relax_all-AtHead tasks adj d q (r ∷ rs) h)
      (ground (arith, open_ids-lt r rs q (ids tasks), h.within r, h.is_ready.apart r))

pub length-ids : (tasks : List MissionTask) → length (ids tasks) ≡ length tasks
length-ids [] = refl
length-ids (t ∷ ts) = omega (arith, length-ids ts)

-- The resolver always returns: the fuel of one unit for each task is enough for every list of tasks,
-- whatever their dependencies, with cycles, unknown dependencies and repeated ids.
pub resolve-ne-out_of_fuel : (tasks : List MissionTask) → resolve tasks ≢ out_of_fuel
unfolding resolve
resolve-ne-out_of_fuel tasks =
    wave_loop-ne-out_of_fuel (length tasks) tasks _ _ [] _ [] (roots-AtHead tasks)
      (omega (arith, length-ids tasks, length-keep-le (λ k. not (member k [])) (ids tasks)))
