-- ===== src/Router/Log.antt =====
-- The log task_routing_log: what stays of it whatever is done.
use jarvis.Prelude.{
  nat_eq, nat_beq_iff, ℕ, ◌&&◌, ◌==◌, none, some, List, [], ◌∷◌, ◌++◌, ◌≡◌, refl, sym, ◌∙◌, arith,
  Bool-cases, inl, inr, if◌then◌else◌,
}
use jarvis.WorkerRegistry.{Routing}
use jarvis.WorkerRegistry.Tasks.{find_routing, is_routed, is_open, complete_row}
use jarvis.Router.Marks.{retire}

-- The same decision, completed or not.
abbrev pub Same : Routing → Routing → Type 0
Same a b =
    (a.route_id ≡ b.route_id)
    × (a.wave_run_id ≡ b.wave_run_id)
    × (a.chosen_worker_id ≡ b.chosen_worker_id)
    × (a.decision_reason ≡ b.decision_reason)
    × (a.routed_at ≡ b.routed_at)

-- The second log begins with the decisions of the first one.
abbrev pub Extends : List Routing → List Routing → Type 0
Extends [] log = Unit
Extends (a ∷ as') [] = ⊥
Extends (a ∷ as') (b ∷ bs) = Same a b × Extends as' bs

-- No two rows have both the same wave and the same worker.
abbrev pub IsUnique : List Routing → Type 0
IsUnique [] = Unit
IsUnique (r ∷ log) = (find_routing r.wave_run_id r.chosen_worker_id log ≡ none) × IsUnique log

abbrev pub Stamped : List Routing → List Routing → Type 0
Stamped [] [] = Unit
Stamped [] (b ∷ bs) = ⊥
Stamped (a ∷ as') [] = ⊥
Stamped (a ∷ as') (b ∷ bs) = Same a b × Stamped as' bs

Same-refl : (a : Routing) → Same a a
Same-refl a = (refl, refl, refl, refl, refl)

pub Stamped-refl : (log : List Routing) → Stamped log log
Stamped-refl [] = tt
Stamped-refl (a ∷ as') = (Same-refl a, Stamped-refl as')

pub Extends-refl : (log : List Routing) → Extends log log
Extends-refl [] = tt
Extends-refl (a ∷ as') = (Same-refl a, Extends-refl as')

pub Extends-trans : (x y z : List Routing) → Extends x y → Extends y z → Extends x z
Extends-trans [] y z h k = tt
Extends-trans (a ∷ x) [] z h k = absurd h
Extends-trans (a ∷ x) (b ∷ y) [] h k = absurd k
Extends-trans (a ∷ x) (b ∷ y) (c ∷ z) (s, h) (t, k) =
    ((s.0 ∙ t.0, s.1 ∙ t.1, s.2 ∙ t.2, s.3 ∙ t.3, s.4 ∙ t.4), Extends-trans x y z h k)

pub Extends-append : (log more : List Routing) → Extends log (log ++ more)
Extends-append [] more = tt
Extends-append (a ∷ log) more = (Same-refl a, Extends-append log more)

pub Stamped-Extends : (x y : List Routing) → Stamped x y → Extends x y
Stamped-Extends [] y h = tt
Stamped-Extends (a ∷ x) [] h = absurd h
Stamped-Extends (a ∷ x) (b ∷ y) (s, h) = (s, Stamped-Extends x y h)

find_routing-Stamped :
    (wave worker : ℕ) (x y : List Routing)
    → Stamped x y
    → find_routing wave worker x ≡ none
    → find_routing wave worker y ≡ none
unfolding find_routing
find_routing-Stamped wave worker [] [] h e = refl
find_routing-Stamped wave worker [] (b ∷ y) h e = absurd h
find_routing-Stamped wave worker (a ∷ x) [] h e = absurd h
find_routing-Stamped wave worker (a ∷ x) (b ∷ y) (s, h) e =
    ground (arith, s.1, s.2, e, find_routing-Stamped wave worker x y h)

pub IsUnique-Stamped : (x y : List Routing) → Stamped x y → IsUnique x → IsUnique y
IsUnique-Stamped [] [] h u = tt
IsUnique-Stamped [] (b ∷ y) h u = absurd h
IsUnique-Stamped (a ∷ x) [] h u = absurd h
IsUnique-Stamped (a ∷ x) (b ∷ y) (s, h) (new, u) = (
  find_routing-Stamped b.wave_run_id b.chosen_worker_id x y h (rw (sym s.1, sym s.2) new),
  IsUnique-Stamped x y h u,
)

pub retire-Stamped :
    (now route_id : ℕ) (log : List Routing) → Stamped log (retire now route_id log).1
unfolding retire
retire-Stamped now route_id [] = tt
retire-Stamped now route_id (row ∷ log) =
    elim (Bool-cases (row.route_id == route_id && is_open row.completed_at)) [
      | inl e ↦ rw e (Same-refl row, retire-Stamped now route_id log)
      | inr e ↦ rw e (Same-refl row, retire-Stamped now route_id log)
    ]

pub complete_row-Stamped :
    (now wave worker : ℕ) (log : List Routing) → Stamped log (complete_row now wave worker log)
unfolding complete_row
complete_row-Stamped now wave worker [] = tt
complete_row-Stamped now wave worker (row ∷ log) = elim (Bool-cases (is_routed wave worker row)) [
  | inl e ↦ rw e (Same-refl row, Stamped-refl log)
  | inr e ↦ rw e (Same-refl row, complete_row-Stamped now wave worker log)
]

pub find_routing-append :
    (wave worker : ℕ) (log : List Routing) (row : Routing)
    → find_routing wave worker log ≡ none
    → find_routing wave worker (log ++ row ∷ [])
      ≡ (if is_routed wave worker row then some row else none)
unfolding find_routing
find_routing-append wave worker [] row h = refl
find_routing-append wave worker (x ∷ log) row h =
    ground (arith, h, find_routing-append wave worker log row)

pub IsUnique-append :
    (log : List Routing) (row : Routing)
    → IsUnique log
    → find_routing row.wave_run_id row.chosen_worker_id log ≡ none
    → IsUnique (log ++ row ∷ [])
unfolding find_routing
IsUnique-append [] row u h = (refl, tt)
IsUnique-append (x ∷ log) row (new, u) h = (
  ground (
    arith,
    h,
    new,
    find_routing-append x.wave_run_id x.chosen_worker_id log row,
    nat_beq_iff x.wave_run_id row.wave_run_id,
    nat_beq_iff x.chosen_worker_id row.chosen_worker_id,
  ),
  IsUnique-append log row u (ground (arith, h)),
)
