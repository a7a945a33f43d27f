-- ===== src/Router/Routed.antt =====
-- What a call of `route` of core/mission/distributed_router.py answers, and what it logs.
use jarvis.Prelude.{
  nat_eq, ℕ, String, true, false, ◌&&◌, Option, none, some, List, [], ◌∷◌, ◌≡◌, refl, ◌∙◌, All, Any,
  All-imp, Bool, Bool-cases, inl, inr, ◌==◌, ◌↔◌, string_eq, member, arith, nat_beq_iff, ◌≤◌,
}
use jarvis.Prelude.Sort.{sort, All-sort_inv, Any-sort}
use jarvis.WorkerRegistry.{Worker, Routing, Tables, heartbeat_of}
use jarvis.WorkerRegistry.Tasks.{find_routing}
use jarvis.WorkerRegistry.Liveness.{later_first, Any-keep}
use jarvis.Router.{
  Request, Router, Draws, has_required, worker_matches, prefers, inserted, insert_routing,
}
use jarvis.Router.Routes.{choose}
use jarvis.Router.Choice.{chosen_of-IsBest, chosen_of-none, keep-nil, All-keep_inv, eligible}
use jarvis.Router.Log.{
  IsUnique, Extends, Extends-refl, Extends-append, IsUnique-append, find_routing-append,
}

-- The row of this wave and worker is in the log, with this id and instant.
abbrev pub HasRow : (wave worker route_id routed_at : ℕ) → List Routing → Type 0
HasRow wave worker route_id routed_at log =
    (row : Routing) × (find_routing wave worker log ≡ some row)
    × (row.route_id ≡ route_id)
    × (row.routed_at ≡ routed_at)

-- The log after an insert, which has answered `row`.
abbrev Inserted : (wave worker : ℕ) → List Routing → (ℕ × ℕ) × Tables → Type 0
Inserted wave worker log (row, t) =
    IsUnique t.routing_log
    × Extends log t.routing_log
    × HasRow wave worker row.0 row.1 t.routing_log

inserted-Inserted :
    (at id wave worker : ℕ) (reason : String) (o : Option Routing) (t : Tables)
    → find_routing wave worker t.routing_log ≡ o
    → IsUnique t.routing_log
    → Inserted wave worker t.routing_log (inserted at id wave worker reason o t)
unfolding inserted
inserted-Inserted at id wave worker reason (some r) t e u =
    (u, Extends-refl t.routing_log, (r, e, refl, refl))
inserted-Inserted at id wave worker reason none t e u =
    let row : Routing = record {
      route_id = id;
      wave_run_id = wave;
      chosen_worker_id = worker;
      decision_reason = reason;
      routed_at = at;
      completed_at = none;
    } in
    (
      IsUnique-append t.routing_log row u e,
      Extends-append t.routing_log (row ∷ []),
      (
        row,
        find_routing-append wave worker t.routing_log row e
            ∙ rw ((nat_eq.same_iff wave wave).1 refl, (nat_eq.same_iff worker worker).1 refl) refl,
        refl,
        refl,
      ),
    )

pub insert_routing-Inserted :
    (r : Draws) (wave worker : ℕ) (reason : String) (t : Tables)
    → IsUnique t.routing_log
    → Inserted wave worker t.routing_log (insert_routing r wave worker reason t)
unfolding insert_routing
insert_routing-Inserted r wave worker reason t u =
    inserted-Inserted r.logged_at r.route_id wave worker reason
      (find_routing wave worker t.routing_log) t refl u

-- What is required is offered.
abbrev pub Offers : Option String → List String → Type 0
Offers none offered = Unit
Offers (some required) offered = Any (λ s. s ≡ required) offered

abbrev pub Suits : Request → Worker → Type 0
Suits req w =
    Offers req.required_platform w.capabilities.platforms
    × Offers req.required_skill w.capabilities.skills

-- Neither a smaller load nor, with the same load, a later heartbeat; without load_aware no later
-- heartbeat.
abbrev pub NotBetter : (load_aware : Bool) → Worker → Worker → Type 0
NotBetter true x best =
    (best.active_tasks ≤ x.active_tasks)
    × (x.active_tasks ≡ best.active_tasks → heartbeat_of x ≤ heartbeat_of best)
NotBetter false x best = heartbeat_of x ≤ heartbeat_of best

member-Any : (s : String) (xs : List String) → (member s xs ≡ true) ↔ Any (λ x. x ≡ s) xs
unfolding member
member-Any s [] = (λ h. cc, λ h. absurd h)
member-Any s (x ∷ xs) = elim (Bool-cases (x == s)) [
  | inl e ↦ (λ _. inl ((string_eq.same_iff x s).0 e), λ _. rw e refl)
  | inr e ↦ (
    λ h. inr ((member-Any s xs).0 (rw e at h)),
    λ h. elim h [
      | inl is ↦ absurd (ground (arith, e, (string_eq.same_iff x s).1 is))
      | inr later ↦ rw e ((member-Any s xs).1 later)
    ],
  )
]

has_required-Offers :
    (required : Option String) (offered : List String)
    → (has_required required offered ≡ true) ↔ Offers required offered
has_required-Offers none offered = (λ _. tt, λ _. refl)
has_required-Offers (some required) offered = member-Any required offered

worker_matches-Suits : (req : Request) (w : Worker) → (worker_matches req w ≡ true) ↔ Suits req w
unfolding worker_matches
worker_matches-Suits req w =
    let platforms = has_required-Offers req.required_platform w.capabilities.platforms in
    let skills = has_required-Offers req.required_skill w.capabilities.skills in
    (
      λ h. (platforms.0 (ground (arith, h)), skills.0 (ground (arith, h))),
      λ suits. rw (platforms.1 suits.0) (skills.1 suits.1),
    )

prefers-NotBetter :
    (load_aware : Bool) (x best : Worker)
    → prefers load_aware x best ≡ false
    → NotBetter load_aware x best
unfolding prefers
prefers-NotBetter true x best h = (
  ground (arith, h, nat_beq_iff x.active_tasks best.active_tasks),
  λ same. ground (arith, h, same, nat_beq_iff x.active_tasks best.active_tasks),
)
prefers-NotBetter false x best h = ground (arith, h)

not_suited : (req : Request) (w : Worker) → worker_matches req w ≡ false → ¬ (Suits req w)
not_suited req w h suits = absurd (ground (arith, h, (worker_matches-Suits req w).1 suits))

not_better :
    (load_aware : Bool) (req : Request) (best x : Worker)
    → (worker_matches req x && prefers load_aware x best) ≡ false
    → Suits req x
    → NotBetter load_aware x best
not_better load_aware req best x h suits =
    prefers-NotBetter load_aware x best (rw ((worker_matches-Suits req x).1 suits) at h)

-- The worker of a decision among the workers that are active.
abbrev pub Picked : Router → Request → List Worker → Option Worker → Type 0
Picked router req active none = All (λ w. ¬ (Suits req w)) active
Picked router req active (some best) =
    Any (λ w. w ≡ best) active
    × Suits req best
    × All (λ x. Suits req x → NotBetter router.load_aware x best) active

pub choose-Picked :
    (router : Router) (req : Request) (active : List Worker) (o : Option Worker)
    → choose router req (sort later_first active) ≡ o
    → Picked router req active o
unfolding choose
choose-Picked router req active none h =
    All-imp (λ w. worker_matches req w ≡ false) (λ w. ¬ (Suits req w)) active (not_suited req)
      (All-sort_inv later_first (λ w. worker_matches req w ≡ false) active
        (keep-nil (worker_matches req) (sort later_first active)
          (chosen_of-none router.load_aware (eligible req (sort later_first active)) h)))
choose-Picked router req active (some best) h =
    let ws = sort later_first active in
    let (stands, all) = chosen_of-IsBest router.load_aware (eligible req ws) best h in
    let (in_ws, fits) = Any-keep (worker_matches req) best ws stands in
    (
      Any-sort later_first (λ w. w ≡ best) active in_ws,
      (worker_matches-Suits req best).0 fits,
      All-imp (λ w. (worker_matches req w && prefers router.load_aware w best) ≡ false)
          (λ x. Suits req x → NotBetter router.load_aware x best) active
          (not_better router.load_aware req best)
          (All-sort_inv later_first
            (λ w. (worker_matches req w && prefers router.load_aware w best) ≡ false) active
            (All-keep_inv (worker_matches req) (λ w. prefers router.load_aware w best) ws all)),
    )
