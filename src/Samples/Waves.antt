-- ===== src/Samples/Waves.antt =====
-- The theorems on the resolver at a diamond of tasks, one of which has an unknown dependency.
use jarvis.Prelude.{ℕ, member, add, nat_eq, refl, [], ◌∷◌, none, List, ◌≢◌}
use jarvis.Prelude.Dict.{get, put}
use jarvis.Mission.{MissionTask, pending}
use jarvis.Mission.Resolver.{resolve, out_of_fuel}
use jarvis.Mission.Resolver.Fuel.{resolve-ne-out_of_fuel}
use jarvis.Mission.Resolver.Waves.{AreWaves, resolve-AreWaves}

abbrev task : ℕ → List ℕ → MissionTask
task k deps = record {
  id = k;
  status = pending;
  depends_on = deps;
  retries = 0;
  max_retries = 1;
  budget = 0;
  error = none;
}

abbrev diamond : List MissionTask
diamond = task 4 (2 ∷ 3 ∷ []) ∷ task 3 (1 ∷ 9 ∷ []) ∷ task 2 (1 ∷ []) ∷ task 1 [] ∷ []

abbrev diamond_waves : List (List ℕ)
diamond_waves = (1 ∷ []) ∷ (3 ∷ 2 ∷ []) ∷ (4 ∷ []) ∷ []

resolve-AreWaves_example : AreWaves diamond [] diamond_waves
unfolding resolve get put member add
resolve-AreWaves_example = resolve-AreWaves diamond diamond_waves refl

resolve-ne-out_of_fuel_example : resolve diamond ≢ out_of_fuel
resolve-ne-out_of_fuel_example = resolve-ne-out_of_fuel diamond
