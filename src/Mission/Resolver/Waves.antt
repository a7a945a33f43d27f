-- ===== src/Mission/Resolver/Waves.antt =====
-- The waves of GoalDependencyResolver of core/mission/mission_scheduler.py.
use jarvis.Prelude.{
  nat_eq, ℕ, [], ◌∷◌, arith, ◌≡◌, List, member, true, false, refl, zero, suc, ◌++◌, All, ◌∙◌, sym,
  ap, subst, length,
}
use jarvis.Prelude.Dict.{Dict}
use jarvis.Mission.{MissionTask}
use jarvis.Mission.Resolver.{ℤ, add_all, wave_loop, resolve, waves, conclude}
use jarvis.Mission.Resolver.Arrows.{Arrows, has_arrow, arriving}
use jarvis.Mission.Resolver.Drawn.{ids, known, known-member, arrows_in, arrows-HasAll}
use jarvis.Mission.Resolver.Loop.{IsOnce}
use jarvis.Mission.Resolver.Head.{AtHead, roots-AtHead, relax_all-AtHead}

-- A wave after the tasks `before`: each of its members is a task, stands in it once and was not run
-- before, and all its known dependencies were.
pub record IsWave (tasks : List MissionTask) (before w : List ℕ) : Type 0 where
  pub tasks_only : (k : ℕ) → member k w ≡ true → member k (ids tasks) ≡ true
  pub once : IsOnce w
  pub new : (k : ℕ) → member k w ≡ true → member k before ≡ false
  pub waits :
      All
        (λ t.
          member t.id w ≡ true
          → (dep : ℕ) → member dep t.depends_on ≡ true
          → member dep (ids tasks) ≡ true
          → member dep before ≡ true)
        tasks

-- One wave after the other.
pub AreWaves : List MissionTask → (before : List ℕ) → List (List ℕ) → Type 0
AreWaves tasks before [] = Unit
AreWaves tasks before (w ∷ ws) = IsWave tasks before w × AreWaves tasks (add_all w before) ws

unfoldable pub run_by : (before : List ℕ) → List (List ℕ) → List ℕ
run_by before [] = before
run_by before (w ∷ ws) = run_by (add_all w before) ws

AreWaves-append :
    (tasks : List MissionTask) (before w : List ℕ) (ws : List (List ℕ))
    → AreWaves tasks before ws
    → IsWave tasks (run_by before ws) w
    → AreWaves tasks before (ws ++ w ∷ [])
unfolding AreWaves run_by
AreWaves-append tasks before w [] a h = (h, tt)
AreWaves-append tasks before w (v ∷ ws) a h =
    (a.0, AreWaves-append tasks (add_all v before) w ws a.1 h)

pub run_by-append :
    (before w : List ℕ) (ws : List (List ℕ))
    → run_by before (ws ++ w ∷ []) ≡ add_all w (run_by before ws)
unfolding run_by
run_by-append before w [] = refl
run_by-append before w (v ∷ ws) = run_by-append (add_all v before) w ws

-- No arrow arrives from outside of the queued tasks, so the arrows that arrive come from them.
arriving-zero :
    (q : List ℕ) (dep k : ℕ) (es : Arrows)
    → arriving q k es ≡ 0
    → has_arrow dep k es ≡ true
    → member dep q ≡ true
unfolding arriving has_arrow
arriving-zero q dep k [] z h = ground arith
arriving-zero q dep k ((d, t) ∷ es) z h = ground (arith, arriving-zero q dep k es)

All-map {ℓ κ} :
    {A : Type 0} {P : A → Type ℓ} {Q : A → Type κ}
    → ((a : A) → P a → Q a)
    → (xs : List A) → All P xs
    → All Q xs
All-map f [] h = tt
All-map f (x ∷ xs) h = (f x h.0, All-map f xs h.1)

free-arriving :
    (tasks : List MissionTask) (adj : Dict ℕ (List ℕ)) (d : Dict ℕ ℤ) (q w : List ℕ) (k : ℕ)
    → AtHead tasks adj d q w
    → member k w ≡ true
    → arriving q k (arrows_in tasks) ≡ 0
free-arriving tasks adj d q w k h m = ground (arith, h.counted k, h.is_ready.free k)

AtHead-IsWave :
    (tasks : List MissionTask) (adj : Dict ℕ (List ℕ)) (d : Dict ℕ ℤ) (q w : List ℕ)
    → AtHead tasks adj d q w
    → IsWave tasks q w
AtHead-IsWave tasks adj d q w h = record {
  tasks_only = h.within;
  once = h.is_ready.once;
  new = h.is_ready.apart;
  waits =
      All-map
        (λ t has m dep n i.
          arriving-zero q dep t.id (arrows_in tasks) (free-arriving tasks adj d q w t.id h m)
            (has dep n (known-member tasks dep ∙ i)))
        tasks (arrows-HasAll (known tasks) tasks []);
}

pub conclude-waves :
    (tasks : List MissionTask) (q : List ℕ) (done ws : List (List ℕ))
    → conclude tasks q done ≡ waves ws
    → done ≡ ws
unfolding conclude
conclude-waves tasks q done ws e = ground (arith, e)

wave_loop-AreWaves :
    (fuel : ℕ) (tasks : List MissionTask) (adj : Dict ℕ (List ℕ)) (d : Dict ℕ ℤ) (q ready : List ℕ)
    (done ws : List (List ℕ))
    → AtHead tasks adj d q ready
    → AreWaves tasks [] done
    → run_by [] done ≡ q
    → wave_loop fuel tasks adj d q ready done ≡ waves ws
    → AreWaves tasks [] ws
unfolding wave_loop
wave_loop-AreWaves fuel tasks adj d q [] done ws h a r e =
    subst (AreWaves tasks []) (conclude-waves tasks q done ws e) a
wave_loop-AreWaves zero tasks adj d q (x ∷ xs) done ws h a r e = ground (arith, e)
wave_loop-AreWaves (suc fuel) tasks adj d q (x ∷ xs) done ws h a r e =
    wave_loop-AreWaves fuel tasks adj _ (add_all (x ∷ xs) q) _ (done ++ (x ∷ xs) ∷ []) ws
      (relax_all-AtHead tasks adj d q (x ∷ xs) h)
      (AreWaves-append tasks [] (x ∷ xs) done a (
        subst (λ before. IsWave tasks before (x ∷ xs)) (sym r)
          (AtHead-IsWave tasks adj d q (x ∷ xs) h)))
      (run_by-append [] (x ∷ xs) done ∙ ap (add_all (x ∷ xs)) r) e

-- The waves that the resolver returns are in the order of the dependencies: each wave consists of
-- tasks, each once and none in an earlier wave, and every known dependency of each of its tasks
-- stands in an earlier wave.
pub resolve-AreWaves :
    (tasks : List MissionTask) (ws : List (List ℕ))
    → resolve tasks ≡ waves ws
    → AreWaves tasks [] ws
unfolding resolve AreWaves run_by
resolve-AreWaves tasks ws e =
    wave_loop-AreWaves (length tasks) tasks _ _ [] _ [] ws (roots-AtHead tasks) tt refl e
