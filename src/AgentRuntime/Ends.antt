-- ===== src/AgentRuntime/Ends.antt =====
-- How a step of run_task of core/runtime/engine.py ends.
use jarvis.Prelude.{
  nat_eq, ℕ, ◌+◌, Option, none, some, List, [], ◌∷◌, ◌++◌, ◌≡◌, ◌≢◌, refl, sym, subst, ◌∙◌, ap, ◌⊎◌,
  inl, inr, Bool-cases, ok, raise, arith,
}
use jarvis.AgentRuntime.{
  idle, wait, AgentError, invalid_transition, over_budget, cancelled, is_allowed, AgentContext,
  check_all_budgets, StepOutcome, returned, raised, stopped, Checkpoint, AgentRuntime, Readings,
  success, failed, interrupted, Turn, next, last, Part, transition_to, check_budgets, check_token,
  prepare, save, conclude, give_up, concluded, finish_step, execute_step, run_step,
}

-- Before the executor: the runtime waits and is else as it was, or it has raised something that is no
-- invalid transition.
abbrev Prepared : {R : Type 0} → AgentRuntime R → Part R → Type 0
Prepared a (ok b) = b ≡ record a { state = wait }
Prepared a (raise (e, b)) = (e ≢ invalid_transition) × (b.context ≡ a.context)

not_invalid : (e : AgentError) → (e ≡ over_budget) ⊎ (e ≡ cancelled) → e ≢ invalid_transition
not_invalid e (inl h) = λ k. ground (arith, h, k)
not_invalid e (inr h) = λ k. ground (arith, h, k)

prepare-idle :
    {R : Type 0} (r : Readings) (a : AgentRuntime R)
    → Prepared a (prepare r (record a { state = idle }))
unfolding prepare transition_to check_budgets check_token is_allowed
prepare-idle r a = elim (Bool-cases (check_all_budgets r.loaded_at a.context)) [
  | inr e ↦ simp e (not_invalid over_budget (inl refl), refl)
  | inl e ↦ elim (Bool-cases r.cancelled_at_load) [
    | inl f ↦ simp (e, f) (not_invalid cancelled (inr refl), refl)
    | inr f ↦ elim (Bool-cases r.cancelled_at_dispatch) [
      | inl g ↦ simp (e, f, g) (not_invalid cancelled (inr refl), refl)
      | inr g ↦ elim (Bool-cases r.cancelled_at_wait) [
        | inl h ↦ simp (e, f, g, h) (not_invalid cancelled (inr refl), refl)
        | inr h ↦ simp (e, f, g, h) refl
      ]
    ]
  ]
]

pub prepare-Prepared :
    {R : Type 0} (r : Readings) (a : AgentRuntime R) → a.state ≡ idle → Prepared a (prepare r a)
prepare-Prepared r a h =
    subst (λ s. Prepared a (prepare r (record a { state = s }))) (sym h) (prepare-idle r a)

-- After the executor, for a runtime that waits: a checkpoint of the next step, or too much is spent.
abbrev Concluded : {R : Type 0} → (task_id step : ℕ) → List R → AgentRuntime R → Part R → Type 0
Concluded task_id step results a (ok b) = b ≡ record a {
  state = idle;
  checkpoint =
      some (record { task_id = task_id; step_index = step + 1; error = none; results = results });
}
Concluded task_id step results a (raise (e, b)) = (e ≡ over_budget) × (b.context ≡ a.context)

pub conclude-Concluded :
    {R : Type 0} (r : Readings) (task_id step : ℕ) (results : List R) (a : AgentRuntime R)
    → Concluded task_id step results a (conclude r task_id step results (record a { state = wait }))
unfolding conclude transition_to check_budgets is_allowed save
conclude-Concluded r task_id step results a =
    elim (Bool-cases (check_all_budgets r.verified_at a.context)) [
      | inr e ↦ simp e (refl, refl)
      | inl e ↦ simp e refl
    ]

abbrev pub mark :
    {R : Type 0} → (task_id step : ℕ) → Option AgentError → List R → Option (Checkpoint R)
mark task_id step error results =
    some (record { task_id = task_id; step_index = step; error = error; results = results })

module _ {R : Type 0} (executor : (step : ℕ) → AgentContext → StepOutcome R × AgentContext)
    (task_id : ℕ) where
  -- The checkpoint of an error has the results of the steps before; if too much was spent in the step
  -- itself, also the result of the step.
  abbrev pub Kept : (step : ℕ) → List R → AgentContext → AgentError → Option (Checkpoint R) → Type 0
  Kept step results c e checkpoint =
      (checkpoint ≡ mark task_id step (some e) results)
      ⊎ ((r : R) × (e ≡ over_budget)
          × ((executor step c).0 ≡ returned r)
          × (checkpoint ≡ mark task_id step (some e) (results ++ r ∷ [])))

  abbrev pub StepEnds : (step : ℕ) → List R → AgentContext → Turn R → Type 0
  StepEnds step results c (next results' b) =
      (r : R) × (executor step c ≡ (returned r, b.context))
      × (results' ≡ results ++ r ∷ [])
      × (b.state ≡ idle)
      × (b.checkpoint ≡ mark task_id (step + 1) none results')
  StepEnds step results c (last (success _) b) = ⊥
  StepEnds step results c (last (failed e) b) =
      (e ≢ invalid_transition) × (b.state ≡ idle) × Kept step results c e b.checkpoint
  StepEnds step results c (last interrupted b) = ((executor step c).0 ≡ stopped) × (b.state ≡ wait)

  concluded-StepEnds :
      (step : ℕ) (results : List R) (c c' : AgentContext) (r : R) (a : AgentRuntime R) (p : Part R)
      → executor step c ≡ (returned r, c')
      → Concluded task_id step (results ++ r ∷ []) (record a { context = c' }) p
      → StepEnds step results c (concluded task_id step (results ++ r ∷ []) p)
  unfolding concluded give_up
  concluded-StepEnds step results c c' r a (ok b) ran h = (
    r,
    ran ∙ ap (λ x. (returned r, x)) (sym (ap (λ x. x.context) h)),
    refl,
    ap (λ x. x.state) h,
    ap (λ x. x.checkpoint) h,
  )
  concluded-StepEnds step results c c' r a (raise (e, b)) ran h =
      (not_invalid e (inl h.0), refl, inr (r, h.0, ap (λ x. x.0) ran, refl))

  finish_step-StepEnds :
      (readings : Readings) (step : ℕ) (results : List R) (a : AgentRuntime R)
      (o : StepOutcome R × AgentContext)
      → executor step a.context ≡ o
      → StepEnds step results a.context
          (finish_step readings task_id step results o (record a { state = wait }))
  unfolding finish_step give_up
  finish_step-StepEnds readings step results a (returned r, c) ran =
      concluded-StepEnds step results a.context c r a
        (conclude readings task_id step (results ++ r ∷ [])
          (record a { context = c; state = wait }))
        ran
        (conclude-Concluded readings task_id step (results ++ r ∷ []) (record a { context = c }))
  finish_step-StepEnds readings step results a (raised message, c) ran =
      (λ e. ground (arith, e), refl, inl refl)
  finish_step-StepEnds readings step results a (stopped, c) ran = (ap (λ x. x.0) ran, refl)

  execute_step-StepEnds :
      (readings : ℕ → Readings) (step : ℕ) (results : List R) (a : AgentRuntime R) (p : Part R)
      → Prepared a p
      → StepEnds step results a.context (execute_step executor readings task_id step results p)
  unfolding execute_step give_up
  execute_step-StepEnds readings step results a (raise (e, b)) h = (h.0, refl, inl refl)
  execute_step-StepEnds readings step results a (ok b) h =
      subst
        (λ x.
          StepEnds step results a.context
            (execute_step executor readings task_id step results (ok x)))
        (sym h) (finish_step-StepEnds (readings step) step results a (executor step a.context) refl)

  pub run_step-StepEnds :
      (readings : ℕ → Readings) (step : ℕ) (results : List R) (a : AgentRuntime R)
      → a.state ≡ idle
      → StepEnds step results a.context (run_step executor readings task_id step results a)
  unfolding run_step
  run_step-StepEnds readings step results a h =
      execute_step-StepEnds readings step results a (prepare (readings step) a)
        (prepare-Prepared (readings step) a h)
