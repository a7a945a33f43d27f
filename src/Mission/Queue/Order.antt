-- ===== src/Mission/Queue/Order.antt =====
-- The order of the queue of core/mission/mission_scheduler.py.
use mathlib.Core.List.{Perm}
use jarvis.Prelude.{
  ℕ, nat_eq, leb_total, leb_trans, [], ◌∷◌, ◌≡◌, ◌++◌, ◌==◌, ◌≤◌, true, ◌⊎◌, arith, ◌<◌,
}
use jarvis.Prelude.Sort.{sort-perm, sort-IsSorted, keep-sort, IsSorted}
use jarvis.Mission.Queue.{
  QueueItem, effective_priority, runs_before, enqueue, Bool, List, some, keep, none, leb,
}

abbrev pub has_score : (now score : ℕ) → QueueItem → Bool
has_score now score item = effective_priority now item == score

-- enqueue loses and invents nothing: the queue has the old items and the new one. It stands in
-- descending order of effective priority at that instant, and items of one effective priority
-- stand in the order in which they stood before, the new one last.
pub enqueue-IsSorted :
    (now : ℕ) (item : QueueItem) (items : List QueueItem)
    → Perm (enqueue now item items) (items ++ item ∷ [])
      × IsSorted (runs_before now) (enqueue now item items)
      × ((score : ℕ)
          → keep (has_score now score) (enqueue now item items)
            ≡ keep (has_score now score) (items ++ item ∷ []))
unfolding enqueue
enqueue-IsSorted now item items = (
  sort-perm (runs_before now) (items ++ item ∷ []),
  sort-IsSorted (runs_before now)
      (λ a b h. leb_total (effective_priority now b) (effective_priority now a) h)
      (λ a b c h k.
        leb_trans (effective_priority now c) (effective_priority now b) (effective_priority now a) k
          h)
      (items ++ item ∷ []),
  λ score.
      keep-sort (runs_before now) (has_score now score)
        (λ a b h k. ties (effective_priority now a) (effective_priority now b) score h k)
        (items ++ item ∷ []),
)
  where
    ties : (a b score : ℕ) → (a == score) ≡ true → (b == score) ≡ true → leb b a ≡ true
    ties a b score h k = ground arith

-- An item whose deadline has passed is taken before any item of priority at most 10 whose
-- deadline is still to come or that has none.
pub effective_priority-overdue :
    (now due : ℕ) (late other : QueueItem)
    → late.deadline ≡ some due
    → due ≤ now
    → other.priority ≤ 10
    → (other.deadline ≡ none) ⊎ ((later : ℕ) × (other.deadline ≡ some later) × (now < later))
    → effective_priority now other < effective_priority now late
unfolding effective_priority
effective_priority-overdue now due late other d p q r = ground arith
