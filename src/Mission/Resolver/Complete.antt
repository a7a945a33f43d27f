-- ===== src/Mission/Resolver/Complete.antt =====
-- The waves of GoalDependencyResolver of core/mission/mission_scheduler.py leave no task out.
use jarvis.Prelude.{
  nat_eq, ℕ, [], ◌∷◌, arith, ◌≡◌, ◌≤◌, ◌+◌, List, member, true, false, refl, zero, suc, not, keep,
  length, length-keep-le, ◌++◌, ◌∙◌, ap, add, sym,
}
use jarvis.Prelude.Dict.{Dict}
use jarvis.Mission.{MissionTask}
use jarvis.Mission.Resolver.{ℤ, add_all, wave_loop, resolve, waves, conclude}
use jarvis.Mission.Resolver.Drawn.{ids}
use jarvis.Mission.Resolver.Loop.{member-add, IsOnce}
use jarvis.Mission.Resolver.Head.{AtHead, roots-AtHead, relax_all-AtHead}
use jarvis.Mission.Resolver.Fuel.{open_ids, open_ids-lt, length-ids}
use jarvis.Mission.Resolver.Waves.{run_by, run_by-append, conclude-waves}

-- Every task that is queued takes one of the open places.
add_all-room :
    (w q V : List ℕ) (n : ℕ)
    → IsOnce w
    → ((k : ℕ) → member k w ≡ true → member k q ≡ false)
    → ((k : ℕ) → member k w ≡ true → member k V ≡ true)
    → length q + open_ids q V ≤ n
    → length (add_all w q) + open_ids (add_all w q) V ≤ n
unfolding add_all add member IsOnce
add_all-room [] q V n o a v h = h
add_all-room (r ∷ rs) q V n o a v h =
    add_all-room rs (add r q) V n o.1 (λ k m. ground (arith, member-add r k q, a k, m, o.0))
      (λ k m. v k (ground (arith, m))) (ground (arith, a r, v r, open_ids-lt r [] q V, h))

all_queued : (q V : List ℕ) (k : ℕ) → open_ids q V ≡ 0 → member k V ≡ true → member k q ≡ true
unfolding member keep
all_queued q [] k z m = ground arith
all_queued q (j ∷ V) k z m = ground (arith, all_queued q V k)

conclude-all_queued :
    (tasks : List MissionTask) (q : List ℕ) (done ws : List (List ℕ)) (k : ℕ)
    → length q + open_ids q (ids tasks) ≤ length (ids tasks)
    → conclude tasks q done ≡ waves ws
    → member k (ids tasks) ≡ true
    → member k q ≡ true
unfolding conclude
conclude-all_queued tasks q done ws k h e m =
    all_queued q (ids tasks) k (ground (arith, length-ids tasks, h, e)) m

wave_loop-run_by :
    (fuel : ℕ) (tasks : List MissionTask) (adj : Dict ℕ (List ℕ)) (d : Dict ℕ ℤ) (q ready : List ℕ)
    (done ws : List (List ℕ)) (k : ℕ)
    → AtHead tasks adj d q ready
    → length q + open_ids q (ids tasks) ≤ length (ids tasks)
    → run_by [] done ≡ q
    → wave_loop fuel tasks adj d q ready done ≡ waves ws
    → member k (ids tasks) ≡ true
    → member k (run_by [] ws) ≡ true
unfolding wave_loop
wave_loop-run_by fuel tasks adj d q [] done ws k h p r e m =
    ap (λ w. member k (run_by [] w)) (sym (conclude-waves tasks q done ws e))
    ∙ ap (member k) r
    ∙ conclude-all_queued tasks q done ws k p e m
wave_loop-run_by zero tasks adj d q (x ∷ xs) done ws k h p r e m = ground (arith, e)
wave_loop-run_by (suc fuel) tasks adj d q (x ∷ xs) done ws k h p r e m =
    wave_loop-run_by fuel tasks adj _ (add_all (x ∷ xs) q) _ (done ++ (x ∷ xs) ∷ []) ws k
      (relax_all-AtHead tasks adj d q (x ∷ xs) h)
      (add_all-room (x ∷ xs) q (ids tasks) (length (ids tasks)) h.is_ready.once h.is_ready.apart
        h.within p)
      (run_by-append [] (x ∷ xs) done ∙ ap (add_all (x ∷ xs)) r) e m

-- When the resolver returns waves, every task stands in one of them.
pub resolve-run_by :
    (tasks : List MissionTask) (ws : List (List ℕ)) (k : ℕ)
    → resolve tasks ≡ waves ws
    → member k (ids tasks) ≡ true
    → member k (run_by [] ws) ≡ true
unfolding resolve run_by
resolve-run_by tasks ws k e m =
    wave_loop-run_by (length tasks) tasks _ _ [] _ [] ws k (roots-AtHead tasks)
      (omega (arith, length-keep-le (λ j. not (member j [])) (ids tasks))) refl e m
