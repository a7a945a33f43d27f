-- ===== src/EventBus/Calls.antt =====
-- Sequences of calls of core/events/memory_bus.py, and which messages they send on a topic.
use jarvis.Prelude.{
  string_eq, String, Bool, true, false, not, List, [], ◌∷◌, ◌++◌, ◌==◌, ◌&&◌, if◌then◌else◌, ℕ,
}
use jarvis.EventBus.{
  Dispatch, MemoryEventBus, initialize, start, stop, shutdown, publish, subscribe, unsubscribe,
  task_ended,
}

module _ (Callback Message : Type 0) where
  pub data Operation : Type 0 where
    starting stopping initializing shutting_down : Operation
    publishing : (topic : String) → Message → Operation
    subscribing : (topic : String) → Callback → (sub_id : String) → Operation
    unsubscribing : (topic sub_id : String) → Operation
    ending : ℕ → Operation

module _ {Callback Message : Type 0} where
  -- The dispatch tasks that a call creates, and the bus after it.
  unfoldable pub call :
      Operation Callback Message
      → MemoryEventBus Callback Message
      → List (Dispatch Callback Message) × MemoryEventBus Callback Message
  call starting bus = ([], start bus)
  call stopping bus = ([], stop bus)
  call initializing bus = ([], initialize bus)
  call shutting_down bus = ([], shutdown bus)
  call (publishing topic message) bus =
      ((publish topic message bus).1, (publish topic message bus).2)
  call (subscribing topic callback sub_id) bus = ([], subscribe topic callback sub_id bus)
  call (unsubscribing topic sub_id) bus = ([], (unsubscribe topic sub_id bus).1)
  call (ending n) bus = ([], task_ended n bus)

  -- All dispatch tasks that the calls create, in order, and the bus after them.
  unfoldable pub run :
      List (Operation Callback Message)
      → MemoryEventBus Callback Message
      → List (Dispatch Callback Message) × MemoryEventBus Callback Message
  unfolding call
  run [] bus = ([], bus)
  run (op ∷ ops) bus =
      let (created, bus') = call op bus in
      let (later, after) = run ops bus' in (created ++ later, after)

  -- The call neither clears the subscriptions nor is about this one.
  abbrev pub leaves : (topic sub_id : String) → Operation Callback Message → Bool
  leaves topic sub_id starting = true
  leaves topic sub_id stopping = true
  leaves topic sub_id initializing = false
  leaves topic sub_id shutting_down = false
  leaves topic sub_id (publishing t message) = true
  leaves topic sub_id (subscribing t callback s) = not (t == topic && s == sub_id)
  leaves topic sub_id (unsubscribing t s) = not (t == topic && s == sub_id)
  leaves topic sub_id (ending n) = true

  abbrev pub active_after : Bool → Operation Callback Message → Bool
  active_after active starting = true
  active_after active stopping = false
  active_after active initializing = false
  active_after active shutting_down = false
  active_after active (publishing t message) = active
  active_after active (subscribing t callback s) = active
  active_after active (unsubscribing t s) = active
  active_after active (ending n) = active

  -- The message that the call publishes on the topic of an active bus.
  abbrev pub sent_by : String → Bool → Operation Callback Message → List Message
  sent_by topic active starting = []
  sent_by topic active stopping = []
  sent_by topic active initializing = []
  sent_by topic active shutting_down = []
  sent_by topic active (publishing t message) = if active && t == topic then message ∷ [] else []
  sent_by topic active (subscribing t callback s) = []
  sent_by topic active (unsubscribing t s) = []
  sent_by topic active (ending n) = []

  unfoldable pub sent : String → Bool → List (Operation Callback Message) → List Message
  sent topic active [] = []
  sent topic active (op ∷ ops) = sent_by topic active op ++ sent topic (active_after active op) ops

  abbrev pub is_to : (topic sub_id : String) → Dispatch Callback Message → Bool
  is_to topic sub_id d = d.topic == topic && d.sub_id == sub_id
