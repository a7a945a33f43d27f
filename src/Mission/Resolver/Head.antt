-- ===== src/Mission/Resolver/Head.antt =====
-- The head of the `while` loop of GoalDependencyResolver of core/mission/mission_scheduler.py: it is
-- reached from the graph that is built, and from one turn to the next.
use jarvis.Prelude.{
  nat_eq, ℕ, [], ◌∷◌, some, arith, ◌≡◌, List, member, true, refl, ◌∙◌, ◌+◌, zero, suc, ap, sym,
}
use jarvis.Prelude.Dict.{Dict, get}
use jarvis.Mission.{MissionTask}
use jarvis.Mission.Resolver.{
  ℤ, pos, negsuc, neighbours, degree_of, relax, relax_all, add_all, is_zero, roots, build,
}
use jarvis.Mission.Resolver.Arrows.{Arrows, targets, arriving, has_arrow, IsDict}
use jarvis.Mission.Resolver.Drawn.{ids, arrows_in, arrows_in-ends, build-Draws, known-member}
use jarvis.Mission.Resolver.Loop.{
  leaving, IsOnce, IsReady, relax_all-IsReady, member-append, arriving-add_all,
}

-- At the head of the loop the in-degree of a task is the number of its arrows from tasks that are
-- not queued, and the ready tasks are tasks, each once, not queued, with no such arrow.
pub record AtHead (tasks : List MissionTask) (adj : Dict ℕ (List ℕ)) (d : Dict ℕ ℤ)
    (q ready : List ℕ) : Type 0 where
  pub drawn : (v : ℕ) → neighbours adj v ≡ targets v (arrows_in tasks)
  pub counted : (k : ℕ) → degree_of d k ≡ pos (arriving q k (arrows_in tasks))
  pub is_ready : IsReady q ready d
  pub within : (k : ℕ) → member k ready ≡ true → member k (ids tasks) ≡ true

is_zero-pos : (n : ℤ) → is_zero n ≡ true → n ≡ pos 0
unfolding is_zero
is_zero-pos (pos zero) h = refl
is_zero-pos (pos (suc n)) h = ground arith
is_zero-pos (negsuc n) h = ground arith

roots-get : (d : Dict ℕ ℤ) (k : ℕ) → IsDict d → member k (roots d) ≡ true → get d k ≡ some (pos 0)
unfolding roots member get IsDict
roots-get [] k h m = ground arith
roots-get ((j, n) ∷ d) k h m = ground (arith, is_zero-pos n, roots-get d k h.1)

roots-IsOnce : (d : Dict ℕ ℤ) → IsDict d → IsOnce (roots d)
unfolding roots IsOnce IsDict
roots-IsOnce [] h = tt
roots-IsOnce ((j, n) ∷ d) h = ground (arith, roots-IsOnce d h.1, roots-get d j h.1)

pub roots-AtHead :
    (tasks : List MissionTask)
    → AtHead tasks (build tasks).adj (build tasks).in_degree [] (roots (build tasks).in_degree)
unfolding member
roots-AtHead tasks =
    let g = build tasks in
    let h = build-Draws tasks in
    record {
      drawn = h.to;
      counted = h.degree;
      is_ready = record {
        apart = λ k m. refl;
        free = λ k m. ground (arith, roots-get g.in_degree k h.keys_once m);
        once = roots-IsOnce g.in_degree h.keys_once;
      };
      within = λ k m.
          ground
            (arith, h.keys k (pos 0) (roots-get g.in_degree k h.keys_once m), known-member tasks k);
    }

relax-within :
    (q ks ready V : List ℕ) (d : Dict ℕ ℤ)
    → ((k : ℕ) → member k ks ≡ true → member k V ≡ true)
    → ((k : ℕ) → member k ready ≡ true → member k V ≡ true)
    → (k : ℕ) → member k (relax q ks (d, ready)).1 ≡ true
    → member k V ≡ true
unfolding relax member
relax-within q [] ready V d h r = r
relax-within q (j ∷ ks) ready V d h r =
    relax-within q ks _ V _ (λ k m. ground (arith, h k))
      (λ k m. ground (arith, h k, r k, member-append k j ready))

targets-has_arrow :
    (v k : ℕ) (es : Arrows) → member k (targets v es) ≡ true → has_arrow v k es ≡ true
unfolding targets has_arrow member
targets-has_arrow v k [] h = ground arith
targets-has_arrow v k ((dep, t) ∷ es) h = ground (arith, targets-has_arrow v k es)

relax_all-within :
    (tasks : List MissionTask) (adj : Dict ℕ (List ℕ)) (q w ready : List ℕ) (d : Dict ℕ ℤ)
    → ((v : ℕ) → neighbours adj v ≡ targets v (arrows_in tasks))
    → ((k : ℕ) → member k ready ≡ true → member k (ids tasks) ≡ true)
    → (k : ℕ) → member k (relax_all adj q w (d, ready)).1 ≡ true
    → member k (ids tasks) ≡ true
unfolding relax_all
relax_all-within tasks adj q [] ready d h r = r
relax_all-within tasks adj q (v ∷ w) ready d h r = relax_all-within tasks adj q w _ _ h (
    relax-within q (neighbours adj v) ready (ids tasks) d
      (λ k m.
        arrows_in-ends tasks v k
          (targets-has_arrow v k (arrows_in tasks) (ap (member k) (sym (h v)) ∙ m)))
      r)

leaving-drawn :
    (adj : ℕ → List ℕ) (es : Arrows) (w : List ℕ) (k : ℕ)
    → ((v : ℕ) → adj v ≡ targets v es)
    → leaving adj w k ≡ leaving (λ v. targets v es) w k
unfolding leaving
leaving-drawn adj es [] k h = refl
leaving-drawn adj es (v ∷ w) k h = rw (h v, leaving-drawn adj es w k h) refl

-- One turn of the loop.
pub relax_all-AtHead :
    (tasks : List MissionTask) (adj : Dict ℕ (List ℕ)) (d : Dict ℕ ℤ) (q w : List ℕ)
    → AtHead tasks adj d q w
    → AtHead tasks adj
        (relax_all adj (add_all w q) w (d, [])).0
        (add_all w q)
        (relax_all adj (add_all w q) w (d, [])).1
unfolding member IsOnce
relax_all-AtHead tasks adj d q w h =
    let q' = add_all w q in
    let es = arrows_in tasks in
    let (counted, is_ready) =
      relax_all-IsReady q' w [] adj d (λ k. arriving q' k es)
        (λ k.
          h.counted k
          ∙ ap pos (arriving-add_all q w k es h.is_ready.once h.is_ready.apart)
          ∙ ap pos (
              ap (λ n. n + arriving q' k es) (sym (leaving-drawn (neighbours adj) es w k h.drawn))))
        (record { apart = λ k m. ground arith; free = λ k m. ground arith; once = tt }) in
    record {
      drawn = h.drawn;
      counted = counted;
      is_ready = is_ready;
      within = relax_all-within tasks adj q' w [] d h.drawn (λ k m. ground arith);
    }
