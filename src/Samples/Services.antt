-- ===== src/Samples/Services.antt =====
-- Runs of core/lifecycle.py.
use jarvis.Prelude.{ℕ, [], ◌∷◌, false, refl, nat_eq, string_eq, ◌≡◌, Bool, ◌==◌, ◌++◌}
use jarvis.Lifecycle.{
  Hook, initialize, start, stop, shutdown, uninitialized, shut_down, Manager, called,
  initialize_all, start_all, stop_all, shutdown_all,
}
use jarvis.Lifecycle.Orders.{whole_life}

-- Service 2 fails to stop.
abbrev sticky : ℕ → Hook → Bool
sticky s stop = s == 2
sticky s _ = false

abbrev boot : Manager
boot = record { services = 1 ∷ 2 ∷ 3 ∷ []; state = uninitialized; log = [] }

whole_life_example :
    shutdown_all sticky (stop_all sticky (start_all sticky (initialize_all sticky boot).1).1)
    ≡ record {
      services = [];
      state = shut_down;
      log =
          ((called (1 ∷ 2 ∷ 3 ∷ []) initialize ++ called (1 ∷ 2 ∷ 3 ∷ []) start)
            ++ called (3 ∷ 2 ∷ 1 ∷ []) stop)
          ++ called (3 ∷ 2 ∷ 1 ∷ []) shutdown;
    }
whole_life_example =
    whole_life sticky (1 ∷ 2 ∷ 3 ∷ []) (refl, (refl, (refl, tt))) (refl, (refl, (refl, tt)))
