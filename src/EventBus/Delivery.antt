-- ===== src/EventBus/Delivery.antt =====
-- What a subscriber of core/events/memory_bus.py is sent, along any calls.
use mathlib.Core.List.{map-append}
use jarvis.Prelude.{
  string_eq, String, Bool, true, false, not, List, [], ◌∷◌, ◌++◌, ◌==◌, ◌&&◌, map, if◌then◌else◌,
  keep, keep-append, append-nil, All, ◌≡◌, refl, sym, ap, ◌∙◌, arith, eq_iff, Bool-cases, inl, inr,
}
use jarvis.Prelude.Dict.{put, get-put}
use jarvis.EventBus.{
  Dispatch, MemoryEventBus, start, stop, listeners, dispatch_of, publish, subscribe, pop_first,
  unsubscribe, task_ended,
}
use jarvis.EventBus.Calls.{
  Operation, starting, stopping, initializing, shutting_down, publishing, subscribing,
  unsubscribing, ending, call, run, leaves, active_after, sent_by, sent, is_to,
}

other_id :
    (t topic s sub_id : String)
    → not (t == topic && s == sub_id) ≡ true
    → (t == topic) ≡ true
    → (s == sub_id) ≡ false
other_id t topic s sub_id l same = ground (arith, l, same)

module _ {Callback : Type 0} where
  abbrev pub is_of : (sub_id : String) → String × Callback → Bool
  is_of sub_id listener = listener.0 == sub_id

  keep-pop_first :
      (s sub_id : String) (ls : List (String × Callback))
      → (s == sub_id) ≡ false
      → keep (is_of sub_id) (pop_first s ls).1 ≡ keep (is_of sub_id) ls
  unfolding keep pop_first
  keep-pop_first s sub_id [] apart = refl
  keep-pop_first s sub_id ((i, c) ∷ ls) apart = elim (Bool-cases (i == s)) [
    | inl e ↦ let other : (i == sub_id) ≡ false = rw ((eq_iff i s).0 e) apart in rw (e, other) refl
    | inr e ↦ rw (e, keep-pop_first s sub_id ls apart) refl
  ]

module _ {Callback Message : Type 0} where
  listeners-put :
      (bus : MemoryEventBus Callback Message) (t topic : String) (ls : List (String × Callback))
      → listeners topic (record bus { subscribers = put bus.subscribers t ls })
        ≡ (if t == topic then ls else listeners topic bus)
  unfolding listeners
  listeners-put bus t topic ls =
      rw (get-put bus.subscribers t topic ls)
        (elim (Bool-cases (t == topic)) [ inl e ↦ rw e refl | inr e ↦ rw e refl ])

  keep-created :
      (topic sub_id t : String) (message : Message) (ls : List (String × Callback))
      → keep (is_to topic sub_id) (map (dispatch_of t message) ls)
        ≡ (if t == topic then map (dispatch_of t message) (keep (is_of sub_id) ls) else [])
  unfolding keep
  keep-created topic sub_id t message [] = ground arith
  keep-created topic sub_id t message ((s, c) ∷ ls) =
      let ih = keep-created topic sub_id t message ls in
      elim (Bool-cases (t == topic)) [
        | inl e ↦ elim (Bool-cases (s == sub_id)) [
          | inl f ↦ rw (e, f) (λ i. dispatch_of t message (s, c) ∷ (rw e at ih) i)
          | inr f ↦ rw (e, f) (rw e at ih)
        ]
        | inr e ↦ rw e (rw e at ih)
      ]

  -- The one listener of that id, at this topic.
  abbrev pub Listens : (topic sub_id : String) → Callback → MemoryEventBus Callback Message → Type 0
  Listens topic sub_id callback bus =
      keep (is_of sub_id) (listeners topic bus) ≡ (sub_id, callback) ∷ []

  abbrev pub dispatches :
      String → String × Callback → List Message → List (Dispatch Callback Message)
  dispatches topic listener messages = map (λ m. dispatch_of topic m listener) messages

  created-one :
      (topic sub_id t : String) (callback : Callback) (message : Message)
      (bus : MemoryEventBus Callback Message)
      → Listens topic sub_id callback bus
      → keep (is_to topic sub_id) (map (dispatch_of t message) (listeners t bus))
        ≡ dispatches topic (sub_id, callback) (if t == topic then message ∷ [] else [])
  created-one topic sub_id t callback message bus h =
      keep-created topic sub_id t message (listeners t bus) ∙ elim (Bool-cases (t == topic)) [
        | inl e ↦ rw (e, (eq_iff t topic).0 e, h) refl
        | inr e ↦ rw e refl
      ]

  Listens-put :
      (topic sub_id : String) (callback : Callback) (t : String) (ls : List (String × Callback))
      (bus : MemoryEventBus Callback Message)
      → ((t == topic) ≡ true → keep (is_of sub_id) ls ≡ keep (is_of sub_id) (listeners t bus))
      → Listens topic sub_id callback bus
      → Listens topic sub_id callback (record bus { subscribers = put bus.subscribers t ls })
  Listens-put topic sub_id callback t ls bus k h = elim (Bool-cases (t == topic)) [
    | inl e ↦ rw (listeners-put bus t topic ls, e) (k e ∙ rw ((eq_iff t topic).0 e) h)
    | inr e ↦ rw (listeners-put bus t topic ls, e) h
  ]

  Listens-subscribe :
      (topic sub_id : String) (callback : Callback) (t s : String) (c : Callback)
      (bus : MemoryEventBus Callback Message)
      → not (t == topic && s == sub_id) ≡ true
      → Listens topic sub_id callback bus
      → Listens topic sub_id callback (subscribe t c s bus)
  unfolding subscribe keep
  Listens-subscribe topic sub_id callback t s c bus l h =
      Listens-put topic sub_id callback t (listeners t bus ++ (s, c) ∷ []) bus
        (λ same.
          keep-append (is_of sub_id) (listeners t bus) ((s, c) ∷ [])
          ∙ rw (other_id t topic s sub_id l same)
              (append-nil (keep (is_of sub_id) (listeners t bus))))
        h

  abbrev Step :
      (topic sub_id : String)
      → Callback
      → Operation Callback Message
      → MemoryEventBus Callback Message
      → List (Dispatch Callback Message) × MemoryEventBus Callback Message
      → Type 0
  Step topic sub_id callback op bus (created, bus') =
      (keep (is_to topic sub_id) created
        ≡ dispatches topic (sub_id, callback) (sent_by topic bus.active op))
      × Listens topic sub_id callback bus'
      × (bus'.active ≡ active_after bus.active op)

  call-Step :
      (topic sub_id : String) (callback : Callback) (op : Operation Callback Message)
      (bus : MemoryEventBus Callback Message)
      → leaves topic sub_id op ≡ true
      → Listens topic sub_id callback bus
      → Step topic sub_id callback op bus (call op bus)
  unfolding call start stop publish subscribe unsubscribe task_ended listeners keep
  call-Step topic sub_id callback starting bus l h = (refl, h, refl)
  call-Step topic sub_id callback stopping bus l h = (refl, h, refl)
  call-Step topic sub_id callback initializing bus l h = absurd (ground (arith, l))
  call-Step topic sub_id callback shutting_down bus l h = absurd (ground (arith, l))
  call-Step topic sub_id callback (publishing t message) bus l h = elim (Bool-cases bus.active) [
    | inl e ↦ rw e (created-one topic sub_id t callback message bus h, h, refl)
    | inr e ↦ rw e (refl, h, refl)
  ]
  call-Step topic sub_id callback (subscribing t c s) bus l h =
      (refl, Listens-subscribe topic sub_id callback t s c bus l h, refl)
  call-Step topic sub_id callback (unsubscribing t s) bus l h =
      elim (Bool-cases (pop_first s (listeners t bus)).0) [
        | inl e ↦ rw e (
          refl,
          Listens-put topic sub_id callback t (pop_first s (listeners t bus)).1 bus
              (λ same. keep-pop_first s sub_id (listeners t bus) (other_id t topic s sub_id l same))
              h,
          refl,
        )
        | inr e ↦ rw e (refl, h, refl)
      ]
  call-Step topic sub_id callback (ending n) bus l h = (refl, h, refl)

  -- A callback that is subscribed to a topic under an id of its own is sent, along any calls that
  -- neither clear the subscriptions nor are about that id and topic, exactly the messages that are
  -- published on the topic while the bus is active: a dispatch task for each, in their order, and no
  -- other; and it is still subscribed afterwards.
  pub run-sent :
      (topic sub_id : String) (callback : Callback) (ops : List (Operation Callback Message))
      (bus : MemoryEventBus Callback Message)
      → All (λ op. leaves topic sub_id op ≡ true) ops
      → Listens topic sub_id callback bus
      → (keep (is_to topic sub_id) (run ops bus).0
          ≡ dispatches topic (sub_id, callback) (sent topic bus.active ops))
        × Listens topic sub_id callback (run ops bus).1
  unfolding run sent keep
  run-sent topic sub_id callback [] bus l h = (refl, h)
  run-sent topic sub_id callback (op ∷ ops) bus l h =
      let (created, listens, active) = call-Step topic sub_id callback op bus l.0 h in
      let (later, still) = run-sent topic sub_id callback ops (call op bus).1 l.1 listens in
      (
        keep-append (is_to topic sub_id) (call op bus).0 (run ops (call op bus).1).0
            ∙ (λ i. created i ++ later i)
            ∙ ap
                (λ a.
                  dispatches topic (sub_id, callback) (sent_by topic bus.active op)
                  ++ dispatches topic (sub_id, callback) (sent topic a ops))
                active
            ∙ sym (
                map-append (λ m. dispatch_of topic m (sub_id, callback))
                  (sent_by topic bus.active op) (sent topic (active_after bus.active op) ops)),
        still,
      )
