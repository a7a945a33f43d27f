-- ===== src/Mission/Resolver/Loop.antt =====
-- The waves of GoalDependencyResolver of core/mission/mission_scheduler.py: what holds at the head of
-- its `while` loop.
use jarvis.Prelude.{
  nat_eq, ℕ, [], ◌∷◌, arith, ◌≡◌, ◌++◌, List, member, true, false, refl, if◌then◌else◌, ◌==◌, ◌+◌,
  add, suc, ◌&&◌, not,
}
use jarvis.Prelude.Dict.{Dict, put, get-put}
use jarvis.Mission.Resolver.{
  ℤ, pos, neighbours, degree_of, relax, relax_all, add_all, decrement, is_zero,
}
use jarvis.Mission.Resolver.Arrows.{Arrows, targets, arriving}

-- How often a task stands in a list.
unfoldable pub times : ℕ → List ℕ → ℕ
times k [] = 0
times k (j ∷ js) = if j == k then suc (times k js) else times k js

-- The arrows that leave the tasks of a wave and arrive at k.
unfoldable pub leaving : (adj : ℕ → List ℕ) (wave : List ℕ) (k : ℕ) → ℕ
leaving adj [] k = 0
leaving adj (r ∷ rs) k = times k (adj r) + leaving adj rs k

-- A wave has each task once.
unfoldable pub IsOnce : List ℕ → Type 0
IsOnce [] = Unit
IsOnce (k ∷ ks) = (member k ks ≡ false) × IsOnce ks

-- The tasks that are ready: none is queued, each stands once, and none waits for anything.
pub record IsReady (q ready : List ℕ) (d : Dict ℕ ℤ) : Type 0 where
  pub apart : (k : ℕ) → member k ready ≡ true → member k q ≡ false
  pub free : (k : ℕ) → member k ready ≡ true → degree_of d k ≡ pos 0
  pub once : IsOnce ready

pub member-append :
    (k j : ℕ) (xs : List ℕ) → member k (xs ++ j ∷ []) ≡ (if member k xs then true else j == k)
unfolding member
member-append k j [] = ground arith
member-append k j (x ∷ xs) = ground (arith, member-append k j xs)

IsOnce-append : (j : ℕ) (xs : List ℕ) → member j xs ≡ false → IsOnce xs → IsOnce (xs ++ j ∷ [])
unfolding IsOnce member
IsOnce-append j [] m h = (refl, tt)
IsOnce-append j (x ∷ xs) m h = ground (arith, IsOnce-append j xs, member-append x j xs)

relax_count :
    (j : ℕ) (ks : List ℕ) (d : Dict ℕ ℤ) (left : ℕ → ℕ)
    → ((k : ℕ) → degree_of d k ≡ pos (times k (j ∷ ks) + left k))
    → (k : ℕ) → degree_of (put d j (decrement (degree_of d j))) k ≡ pos (times k ks + left k)
unfolding times decrement
relax_count j ks d left h k = ground (arith, get-put d j k (decrement (degree_of d j)), h j, h k)

relax_one :
    (q ready : List ℕ) (d : Dict ℕ ℤ) (j n : ℕ)
    → degree_of d j ≡ pos (suc n)
    → IsReady q ready d
    → IsReady q
        (if is_zero (decrement (degree_of d j)) && not (member j q) then ready ++ j ∷ [] else ready)
        (put d j (decrement (degree_of d j)))
unfolding decrement is_zero
relax_one q ready d j n h o = record {
  apart = λ k m. ground (arith, o.apart k, member-append k j ready);
  free = λ k m. ground (
    arith,
    h,
    o.free k,
    o.free j,
    get-put d j k (decrement (degree_of d j)),
    member-append k j ready,
  );
  once = ground (arith, h, o.free j, o.once, IsOnce-append j ready);
}

-- The inner loop counts every arrow down, and finds the tasks that come to wait for nothing.
pub relax-IsReady :
    (q ks ready : List ℕ) (d : Dict ℕ ℤ) (left : ℕ → ℕ)
    → ((k : ℕ) → degree_of d k ≡ pos (times k ks + left k))
    → IsReady q ready d
    → ((k : ℕ) → degree_of (relax q ks (d, ready)).0 k ≡ pos (left k))
      × IsReady q (relax q ks (d, ready)).1 (relax q ks (d, ready)).0
unfolding relax times
relax-IsReady q [] ready d left h o = (λ k. ground (arith, h k), o)
relax-IsReady q (j ∷ ks) ready d left h o =
    relax-IsReady q ks _ (put d j (decrement (degree_of d j))) left (relax_count j ks d left h)
      (relax_one q ready d j (times j ks + left j) (ground (arith, h j)) o)

pub relax_all-IsReady :
    (q wave ready : List ℕ) (adj : Dict ℕ (List ℕ)) (d : Dict ℕ ℤ) (left : ℕ → ℕ)
    → ((k : ℕ) → degree_of d k ≡ pos (leaving (neighbours adj) wave k + left k))
    → IsReady q ready d
    → ((k : ℕ) → degree_of (relax_all adj q wave (d, ready)).0 k ≡ pos (left k))
      × IsReady q (relax_all adj q wave (d, ready)).1 (relax_all adj q wave (d, ready)).0
unfolding relax_all leaving
relax_all-IsReady q [] ready adj d left h o = (λ k. ground (arith, h k), o)
relax_all-IsReady q (r ∷ rs) ready adj d left h o =
    let (count, next) =
      relax-IsReady q (neighbours adj r) ready d (λ k. leaving (neighbours adj) rs k + left k)
        (λ k. ground (arith, h k)) o in
    relax_all-IsReady q rs _ adj _ left count next

-- What arrives from tasks that are not queued: the arrows from a task that is queued now fall away.
arriving-add :
    (q : List ℕ) (r k : ℕ) (es : Arrows)
    → member r q ≡ false
    → arriving q k es ≡ times k (targets r es) + arriving (add r q) k es
unfolding arriving times targets add member
arriving-add q r k [] h = omega arith
arriving-add q r k ((dep, t) ∷ es) h = ground (arith, arriving-add q r k es h)

pub member-add : (r k : ℕ) (q : List ℕ) → member k (add r q) ≡ (if r == k then true else member k q)
unfolding add member
member-add r k q = ground arith

pub member-add_all :
    (w q : List ℕ) (k : ℕ) → member k (add_all w q) ≡ (if member k w then true else member k q)
unfolding add_all member
member-add_all [] q k = refl
member-add_all (r ∷ rs) q k = ground (arith, member-add_all rs (add r q) k, member-add r k q)

-- The arrows that arrive are those that leave the wave and those that stay.
pub arriving-add_all :
    (q w : List ℕ) (k : ℕ) (es : Arrows)
    → IsOnce w
    → ((j : ℕ) → member j w ≡ true → member j q ≡ false)
    → arriving q k es ≡ leaving (λ r. targets r es) w k + arriving (add_all w q) k es
unfolding leaving add_all IsOnce member
arriving-add_all q [] k es o h = omega arith
arriving-add_all q (r ∷ rs) k es o h =
    let rest =
      arriving-add_all (add r q) rs k es o.1 (λ j m. ground (arith, member-add r j q, h j, o.0)) in
    ground (arith, arriving-add q r k es, h r, rest)
