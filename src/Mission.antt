-- ===== src/Mission.antt =====
-- core/mission/mission_types.py and the parts of core/mission/mission_scheduler.py that keep no
-- state of their own: budgets, deadlines, retries. An instant is a whole number of microseconds,
-- the resolution of `datetime`. A budget is a whole number of millionths, and the overage grace a
-- whole percentage, so that no float is rounded. Names, descriptions and payloads are left out.
pub mod Queue
pub mod Resolver
pub mod Scheduler
pub mod Execution
pub mod Actions
use jarvis.Prelude.{
  nat_eq, ℕ, String, [], ◌∷◌, List, ◌+◌, Bool, ◌*◌, leb, keep, none, ◌&&◌, ◌-◌, true, Option, ltb,
  if◌then◌else◌, ◌==◌, false, some, not,
}

pub data MissionStatus : Type 0 where
  pending queued running paused completed failed cancelled recovering : MissionStatus

-- The `error` texts, by what they report.
pub data Failure : Type 0 where
  text : String → Failure
  cancelled_between paused_between budget_exhausted : Failure
  recovering_attempt : ℕ → Failure
  dependency_cycle : List ℕ → Failure

pub record MissionTask : Type 0 where
  pub id : ℕ
  pub status : MissionStatus
  pub depends_on : List ℕ
  pub retries : ℕ
  pub max_retries : ℕ
  pub budget : ℕ
  pub error : Option Failure

pub record Mission : Type 0 where
  pub id : ℕ
  pub status : MissionStatus
  pub priority : ℕ
  pub tasks : List MissionTask
  pub total_budget : ℕ
  pub used_budget : ℕ
  pub max_retries : ℕ
  pub retry_count : ℕ
  pub due_at : Option ℕ
  pub error : Option Failure

pub record SchedulerConfig : Type 0 where
  pub max_concurrent_missions : ℕ
  pub budget_overage_grace : ℕ

-- 1.0 of a budget
abbrev pub unit_cost : ℕ
unit_cost = 1_000_000

-- `t.status == status`
abbrev pub status_code : MissionStatus → ℕ
status_code pending = 0
status_code queued = 1
status_code running = 2
status_code paused = 3
status_code completed = 4
status_code failed = 5
status_code cancelled = 6
status_code recovering = 7

abbrev pub is_status : MissionStatus → MissionStatus → Bool
is_status a b = status_code a == status_code b

module _ (overage_grace : ℕ) where
  unfoldable pub within_budget : Mission → Bool
  within_budget m = leb (m.used_budget * 100) (m.total_budget * overage_grace)

  unfoldable pub consume : Mission → (amount : ℕ) → Bool × Mission
  unfolding within_budget
  consume m amount =
      let m' : Mission = record m { used_budget = m.used_budget + amount } in (within_budget m', m')

  unfoldable pub is_exhausted : Mission → Bool
  is_exhausted m = ltb (m.total_budget * overage_grace) (m.used_budget * 100)

  -- In hundredths of a millionth, as the ceiling is.
  unfoldable pub remaining : Mission → ℕ
  remaining m = m.total_budget * overage_grace - m.used_budget * 100

-- COMPLETED, FAILED or CANCELLED
abbrev pub is_final : MissionStatus → Bool
is_final completed = true
is_final failed = true
is_final cancelled = true
is_final _ = false

is_overdue : (now : ℕ) → Mission → Bool
is_overdue now m = elim m.due_at [
  | none ↦ false
  | some due ↦ if ltb due now then not (is_final m.status) else false
]

unfoldable pub get_overdue : (now : ℕ) → List Mission → List Mission
unfolding is_overdue
get_overdue now missions = keep (is_overdue now) missions

unfoldable pub is_due_soon : (now : ℕ) → Mission → (window : ℕ) → Bool
is_due_soon now m window = elim m.due_at [
  | none ↦ false
  | some due ↦ ltb now due && leb (due - now) window
]

unfoldable pub should_retry_mission : Mission → Bool
should_retry_mission m = is_status m.status failed && ltb m.retry_count m.max_retries

abbrev pub reset_failed : List MissionTask → List MissionTask
reset_failed [] = []
reset_failed (t ∷ ts) =
    (if is_status t.status failed then record t { status = pending; error = none } else t)
    ∷ reset_failed ts

unfoldable pub prepare_retry : Mission → Mission
prepare_retry m = record m {
  retry_count = m.retry_count + 1;
  status = recovering;
  error = none;
  tasks = reset_failed m.tasks;
}

unfoldable pub should_retry_task : MissionTask → Bool
should_retry_task t = ltb t.retries t.max_retries

unfoldable pub prepare_task_retry : MissionTask → MissionTask
prepare_task_retry t = record t { retries = t.retries + 1; status = pending; error = none }
