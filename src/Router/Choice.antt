-- ===== src/Router/Choice.antt =====
-- Which worker core/mission/distributed_router.py chooses.
use jarvis.Prelude.{
  nat_eq, Bool, true, false, ◌&&◌, none, some, List, [], ◌∷◌, ◌≡◌, refl, subst, All, Any, keep,
  arith, Bool-cases, inl, inr,
}
use jarvis.Router.{Request, worker_matches, prefers, pick_best, chosen_of}
use jarvis.WorkerRegistry.{Worker}

-- What is not preferred to one that is not preferred to `z` is not preferred to `z`.
prefers_trans :
    (load_aware : Bool) (x w z : Worker)
    → prefers load_aware x w ≡ false
    → prefers load_aware w z ≡ false
    → prefers load_aware x z ≡ false
unfolding prefers
prefers_trans true x w z h k = ground (arith, h, k)
prefers_trans false x w z h k = ground (arith, h, k)

prefers_back :
    (load_aware : Bool) (x w z : Worker)
    → prefers load_aware x w ≡ true
    → prefers load_aware x z ≡ false
    → prefers load_aware w z ≡ false
unfolding prefers
prefers_back true x w z h k = ground (arith, h, k)
prefers_back false x w z h k = ground (arith, h, k)

prefers_irrefl : (load_aware : Bool) (w : Worker) → prefers load_aware w w ≡ false
unfolding prefers
prefers_irrefl true w = ground arith
prefers_irrefl false w = ground arith

-- One of the list, to which none of the list is preferred.
abbrev pub IsBest : (load_aware : Bool) → List Worker → Worker → Type 0
IsBest load_aware ws best = Any (λ w. w ≡ best) ws × All (λ x. prefers load_aware x best ≡ false) ws

pick_best-IsBest :
    (load_aware : Bool) (w : Worker) (xs : List Worker)
    → IsBest load_aware (w ∷ xs) (pick_best load_aware w xs)
unfolding pick_best
pick_best-IsBest load_aware w [] = (inl refl, (prefers_irrefl load_aware w, tt))
pick_best-IsBest load_aware w (x ∷ xs) = elim (Bool-cases (prefers load_aware x w)) [
  | inl e ↦
      let (stands, (own, all)) = pick_best-IsBest load_aware x xs in
      let same : pick_best load_aware x xs ≡ pick_best load_aware w (x ∷ xs) = rw e refl in
      subst (IsBest load_aware (w ∷ x ∷ xs)) same
        (inr stands, (prefers_back load_aware x w (pick_best load_aware x xs) e own, (own, all)))
  | inr e ↦
      let (stands, (own, all)) = pick_best-IsBest load_aware w xs in
      let same : pick_best load_aware w xs ≡ pick_best load_aware w (x ∷ xs) = rw e refl in
      subst (IsBest load_aware (w ∷ x ∷ xs)) same (
        elim stands [ inl is ↦ inl is | inr later ↦ inr (inr later) ],
        (own, (prefers_trans load_aware x w (pick_best load_aware w xs) e own, all)),
      )
]

pub chosen_of-IsBest :
    (load_aware : Bool) (ws : List Worker) (best : Worker)
    → chosen_of load_aware ws ≡ some best
    → IsBest load_aware ws best
unfolding chosen_of
chosen_of-IsBest load_aware [] best h = cc
chosen_of-IsBest load_aware (w ∷ ws) best h =
    subst (IsBest load_aware (w ∷ ws)) (cc h) (pick_best-IsBest load_aware w ws)

-- The workers among whom a request chooses.
abbrev pub eligible : Request → List Worker → List Worker
eligible req candidates = keep (worker_matches req) candidates

pub keep-nil : (p : Worker → Bool) (ws : List Worker) → keep p ws ≡ [] → All (λ w. p w ≡ false) ws
unfolding keep
keep-nil p [] h = tt
keep-nil p (w ∷ ws) h = elim (Bool-cases (p w)) [
  | inl e ↦ absurd (ground (arith, e, h))
  | inr e ↦ (e, keep-nil p ws (ground (arith, e, h)))
]

pub chosen_of-none :
    (load_aware : Bool) (ws : List Worker) → chosen_of load_aware ws ≡ none → ws ≡ []
unfolding chosen_of
chosen_of-none load_aware [] h = refl
chosen_of-none load_aware (w ∷ ws) h = cc

pub All-keep_inv :
    (p q : Worker → Bool) (ws : List Worker)
    → All (λ w. q w ≡ false) (keep p ws)
    → All (λ w. (p w && q w) ≡ false) ws
unfolding keep
All-keep_inv p q [] h = tt
All-keep_inv p q (w ∷ ws) h = elim (Bool-cases (p w)) [
  | inl e ↦ let both = rw e at h in (rw e both.0, All-keep_inv p q ws both.1)
  | inr e ↦ (rw e refl, All-keep_inv p q ws (rw e at h))
]
