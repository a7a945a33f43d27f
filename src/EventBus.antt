-- ===== src/EventBus.antt =====
-- core/events/memory_bus.py: MemoryEventBus. Callbacks and messages are parameters. A dispatch task
-- is what it was created with; `task_ended` is what a task does when it is done. The random id of a
-- subscription is an argument. `stop` and `shutdown` are one step each, although they wait for the
-- tasks that they have cancelled.
pub mod Calls
pub mod Delivery
use jarvis.Prelude.{
  string_eq, String, Bool, true, false, Option, none, some, List, [], ◌∷◌, ◌++◌, ◌==◌, map,
  if◌then◌else◌, ℕ, zero, suc,
}
use jarvis.Prelude.Dict.{Dict, get, put}

module _ (Callback Message : Type 0) where
  pub record Dispatch : Type 0 where
    pub callback : Callback
    pub message : Message
    pub sub_id : String
    pub topic : String

  pub record MemoryEventBus : Type 0 where
    pub subscribers : Dict String (List (String × Callback))
    pub active : Bool
    pub dispatch_tasks : List Dispatch

module _ {Callback : Type 0} where
  -- self._subscribers.get(topic, [])
  abbrev pub or_none : Option (List (String × Callback)) → List (String × Callback)
  or_none none = []
  or_none (some listeners) = listeners

  -- The listeners without the first one of that id, if there is one.
  unfoldable pub pop_first : String → List (String × Callback) → Bool × List (String × Callback)
  pop_first sub_id [] = (false, [])
  pop_first sub_id ((listener_id, callback) ∷ rest) =
      let (found, left) = pop_first sub_id rest in
      if listener_id == sub_id then (true, rest) else (found, (listener_id, callback) ∷ left)

module _ {Callback Message : Type 0} where
  unfoldable pub initialize : MemoryEventBus Callback Message → MemoryEventBus Callback Message
  initialize bus = record bus { subscribers = []; active = false }

  unfoldable pub start : MemoryEventBus Callback Message → MemoryEventBus Callback Message
  start bus = record bus { active = true }

  -- The tasks that are pending are cancelled.
  unfoldable pub stop : MemoryEventBus Callback Message → MemoryEventBus Callback Message
  stop bus = record bus { active = false; dispatch_tasks = [] }

  unfoldable pub shutdown : MemoryEventBus Callback Message → MemoryEventBus Callback Message
  shutdown bus = record bus { subscribers = []; active = false; dispatch_tasks = [] }

  unfoldable pub listeners : String → MemoryEventBus Callback Message → List (String × Callback)
  listeners topic bus = or_none (get bus.subscribers topic)

  abbrev pub dispatch_of : String → Message → String × Callback → Dispatch Callback Message
  dispatch_of topic message (sub_id, callback) = record {
    callback = callback;
    message = message;
    sub_id = sub_id;
    topic = topic;
  }

  -- The answer, the tasks that are created, and the bus.
  unfoldable pub publish :
      String
      → Message
      → MemoryEventBus Callback Message
      → Bool × List (Dispatch Callback Message) × MemoryEventBus Callback Message
  unfolding listeners
  publish topic message bus =
      let created = map (dispatch_of topic message) (listeners topic bus) in
      if bus.active
      then (true, created, record bus { dispatch_tasks = bus.dispatch_tasks ++ created })
      else (false, [], bus)

  unfoldable pub subscribe :
      String
      → Callback
      → (sub_id : String) → MemoryEventBus Callback Message
      → MemoryEventBus Callback Message
  unfolding listeners
  subscribe topic callback sub_id bus = record bus {
    subscribers = put bus.subscribers topic (listeners topic bus ++ (sub_id, callback) ∷ []);
  }

  unfoldable pub unsubscribe :
      String
      → (sub_id : String) → MemoryEventBus Callback Message
      → Bool × MemoryEventBus Callback Message
  unfolding pop_first listeners
  unsubscribe topic sub_id bus =
      let (found, left) = pop_first sub_id (listeners topic bus) in
      if found
      then (true, record bus { subscribers = put bus.subscribers topic left })
      else (false, bus)

  -- self._dispatch_tasks.discard, of the n-th task
  unfoldable pub drop_at : ℕ → List (Dispatch Callback Message) → List (Dispatch Callback Message)
  drop_at n [] = []
  drop_at zero (t ∷ ts) = ts
  drop_at (suc n) (t ∷ ts) = t ∷ drop_at n ts

  unfoldable pub task_ended : ℕ → MemoryEventBus Callback Message → MemoryEventBus Callback Message
  unfolding drop_at
  task_ended n bus = record bus { dispatch_tasks = drop_at n bus.dispatch_tasks }
