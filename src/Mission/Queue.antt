-- ===== src/Mission/Queue.antt =====
-- MissionQueueItem of core/mission/mission_types.py, and PriorityEngine and MissionQueue of
-- core/mission/mission_scheduler.py. A score is counted in parts of 1 / 3600000000, so that the
-- urgency is a whole number. One sort reads the clock once.
pub mod Order
use jarvis.Prelude.{
  nat_eq, ℕ, [], ◌∷◌, ◌*◌, List, Bool, Option, leb, keep, none, ◌-◌, ◌++◌, some, not, if◌then◌else◌,
  ◌==◌, ◌+◌, ltb, length,
}
use jarvis.Prelude.Sort.{sort}

pub record QueueItem : Type 0 where
  pub mission_id : ℕ
  pub priority : ℕ
  pub deadline : Option ℕ
  pub enqueued_at : ℕ

abbrev pub hour : ℕ
hour = 3_600_000_000

-- 5.0 * (1.0 - seconds_remaining / 3600.0), or 0 from an hour on.
abbrev pub urgency : (remaining : ℕ) → ℕ
urgency remaining = 5 * (hour - remaining)

unfoldable pub effective_priority : (now : ℕ) → QueueItem → ℕ
effective_priority now item = elim item.deadline [
  | none ↦ item.priority * hour
  | some deadline ↦
      if leb deadline now then 9999 * hour else item.priority * hour + urgency (deadline - now)
]

-- `sorted(items, key=score, reverse=True)`, which keeps items of one score in their order.
abbrev pub runs_before : (now : ℕ) → QueueItem → QueueItem → Bool
runs_before now a b = leb (effective_priority now b) (effective_priority now a)

unfoldable pub sort_queue : (now : ℕ) → List QueueItem → List QueueItem
unfolding sort
sort_queue now items = sort (runs_before now) items

unfoldable pub enqueue : (now : ℕ) → QueueItem → List QueueItem → List QueueItem
unfolding sort_queue
enqueue now item items = sort_queue now (items ++ item ∷ [])

unfoldable pub dequeue : List QueueItem → Option QueueItem × List QueueItem
dequeue [] = (none, [])
dequeue (item ∷ items) = (some item, items)

unfoldable pub peek : List QueueItem → Option QueueItem
peek [] = none
peek (item ∷ items) = some item

unfoldable pub remove_mission : (mission_id : ℕ) → List QueueItem → Bool × List QueueItem
remove_mission mission_id items =
    let left = keep (λ i. not (i.mission_id == mission_id)) items in
    (ltb (length left) (length items), left)
