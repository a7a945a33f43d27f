-- ===== src/Samples/Events.antt =====
-- The theorem on the event bus at two subscribers of two topics; callbacks and messages are numbers.
use jarvis.Prelude.{ℕ, string_eq, true, false, List, [], ◌∷◌, ◌≡◌, refl, All, keep}
use jarvis.Prelude.Dict.{get}
use jarvis.EventBus.{MemoryEventBus, listeners}
use jarvis.EventBus.Calls.{
  Operation, starting, stopping, publishing, subscribing, unsubscribing, ending, run, sent, is_to,
  leaves,
}
use jarvis.EventBus.Delivery.{Listens, dispatches, run-sent}

abbrev bus : MemoryEventBus ℕ ℕ
bus = record {
  subscribers = ("done", ("b", 8) ∷ ("a", 7) ∷ []) ∷ [];
  active = false;
  dispatch_tasks = [];
}

abbrev calls : List (Operation ℕ ℕ)
calls =
    publishing "done" 1
    ∷ starting
    ∷ publishing "done" 2
    ∷ subscribing "other" 9 "a"
    ∷ publishing "other" 3
    ∷ unsubscribing "done" "b"
    ∷ ending 0
    ∷ publishing "done" 4
    ∷ stopping
    ∷ publishing "done" 5
    ∷ []

bus-Listens : Listens "done" "a" 7 bus
unfolding listeners get keep
bus-Listens = refl

calls-leaves : All (λ op. leaves "done" "a" op ≡ true) calls
calls-leaves = (refl, (refl, (refl, (refl, (refl, (refl, (refl, (refl, (refl, (refl, tt))))))))))

two_are_sent : sent "done" false calls ≡ 2 ∷ 4 ∷ []
unfolding sent
two_are_sent = refl

run-sent_example :
    (keep (is_to "done" "a") (run calls bus).0
      ≡ dispatches "done" ("a", 7) (sent "done" false calls))
    × Listens "done" "a" 7 (run calls bus).1
run-sent_example = run-sent "done" "a" 7 calls bus calls-leaves bus-Listens
