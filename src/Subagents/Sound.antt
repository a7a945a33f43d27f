-- ===== src/Subagents/Sound.antt =====
-- What holds of the active subagents and of those that are gone, in core/runtime/subagent.py.
use jarvis.Prelude.{
  nat_eq, ℕ, ◌≤◌, Bool, true, false, Option, none, some, List, [], ◌∷◌, ◌++◌, ◌≡◌, refl, All, subst,
  ◌==◌, ◌||◌, Bool-cases, inl, inr, arith, length,
}
use jarvis.Prelude.Dict.{Dict, get, put, remove}
use jarvis.Prelude.Entries.{All-put, All-remove, All-get, length-put-old, length-remove}
use jarvis.Subagents.Beats.{IsActive}
use jarvis.Subagents.{
  SubagentState, create, initialize, ready, working, waiting, completed, archived, destroyed,
  is_path, SubagentInstance, SubagentManager, cancel_token, left, beat_all, is_destroyed, popped,
  beaten, register_heartbeat,
}

abbrev pub is_live : SubagentState → Bool
is_live create = false
is_live initialize = false
is_live destroyed = false
is_live _ = true

-- A path from a live state that does not end in DESTROYED ends in a live state.
pub path-live :
    (s t : SubagentState)
    → is_path s t ≡ true
    → is_live s ≡ true
    → is_destroyed t ≡ false
    → is_live t ≡ true
unfolding is_path
path-live create create p l d = cc
path-live initialize create p l d = cc
path-live ready create p l d = cc
path-live working create p l d = cc
path-live waiting create p l d = cc
path-live completed create p l d = cc
path-live archived create p l d = cc
path-live destroyed create p l d = cc
path-live create initialize p l d = cc
path-live initialize initialize p l d = cc
path-live ready initialize p l d = cc
path-live working initialize p l d = cc
path-live waiting initialize p l d = cc
path-live completed initialize p l d = cc
path-live archived initialize p l d = cc
path-live destroyed initialize p l d = cc
path-live s ready p l d = refl
path-live s working p l d = refl
path-live s waiting p l d = refl
path-live s completed p l d = refl
path-live s archived p l d = refl
path-live s destroyed p l d = cc

abbrev pub IsGone : SubagentInstance → Type 0
IsGone i = (i.state ≡ destroyed) × (i.is_cancelled ≡ true)

pub All-snoc :
    {A : Type 0} (P : A → Type 0) (xs : List A) (x : A) → All P xs → P x → All P (xs ++ x ∷ [])
All-snoc P [] x h p = (p, tt)
All-snoc P (y ∷ xs) x h p = (h.0, All-snoc P xs x h.1 p)

-- An active instance is known by its own id and in a live state; its token is cancelled only if a
-- termination of it may have been cut.
abbrev pub IsServed : (may_cut : ℕ → Bool) → ℕ × SubagentInstance → Type 0
IsServed may_cut (k, i) =
    (i.id ≡ k) × (is_live i.state ≡ true) × (i.is_cancelled ≡ true → may_cut k ≡ true)

abbrev pub IsSound : (may_cut : ℕ → Bool) → SubagentManager → Type 0
IsSound may_cut m =
    (length m.active_subagents ≤ m.max_concurrent)
    × All (IsServed may_cut) m.active_subagents
    × All IsGone m.gone

pub popped-IsSound :
    (may_cut : ℕ → Bool) (k : ℕ) (i : SubagentInstance) (m : SubagentManager)
    → i.is_cancelled ≡ true
    → IsSound may_cut m
    → IsSound may_cut (popped k i m)
popped-IsSound may_cut k i m ends (few, served, gone) =
    let fewer = length-remove m.active_subagents k in
    (
      omega (arith, few, fewer),
      All-remove (IsServed may_cut) m.active_subagents k served,
      All-snoc IsGone m.gone (record i { state = destroyed }) gone (refl, ends),
    )

pub replaced-IsSound :
    (may_cut : ℕ → Bool) (k : ℕ) (i j : SubagentInstance) (m : SubagentManager)
    → get m.active_subagents k ≡ some i
    → IsServed may_cut (k, j)
    → IsSound may_cut m
    → IsSound may_cut (record m { active_subagents = put m.active_subagents k j })
replaced-IsSound may_cut k i j m found ok_j (few, served, gone) =
    let same = length-put-old m.active_subagents k j i found in
    (omega (arith, few, same), All-put (IsServed may_cut) m.active_subagents k j served ok_j, gone)

pub beaten-IsSound :
    (may_cut : ℕ → Bool) (now k : ℕ) (o : Option SubagentInstance) (m : SubagentManager)
    → get m.active_subagents k ≡ o
    → IsSound may_cut m
    → IsSound may_cut (beaten now k o m)
unfolding beaten
beaten-IsSound may_cut now k none m found h = h
beaten-IsSound may_cut now k (some i) m found h =
    replaced-IsSound may_cut k i (record i { last_heartbeat = now }) m found
      (All-get (IsServed may_cut) m.active_subagents k i h.1 found) h

pub beat_all-IsSound :
    (may_cut : ℕ → Bool) (beats : List (ℕ × ℕ)) (m : SubagentManager)
    → IsSound may_cut m
    → IsSound may_cut (beat_all beats m)
unfolding beat_all register_heartbeat
beat_all-IsSound may_cut [] m h = h
beat_all-IsSound may_cut ((now, k) ∷ beats) m h =
    beat_all-IsSound may_cut beats (register_heartbeat now k m)
      (beaten-IsSound may_cut now k (get m.active_subagents k) m refl h)

-- While k is terminated its own token is cancelled.
abbrev pub or_this : (may_cut : ℕ → Bool) → ℕ → ℕ → Bool
or_this may_cut k j = may_cut j || (k == j)

All-weaker :
    {V : Type 0} (P Q : ℕ × V → Type 0) (d : Dict ℕ V)
    → ((j : ℕ) (v : V) → P (j, v) → Q (j, v))
    → All P d
    → All Q d
All-weaker P Q [] pq h = tt
All-weaker P Q ((j, v) ∷ d) pq h = (pq j v h.0, All-weaker P Q d pq h.1)

All-remove-weaker :
    {V : Type 0} (P Q : ℕ × V → Type 0) (d : Dict ℕ V) (k : ℕ)
    → ((j : ℕ) (v : V) → (k == j) ≡ false → P (j, v) → Q (j, v))
    → All P d
    → All Q (remove d k)
unfolding remove
All-remove-weaker P Q [] k pq h = tt
All-remove-weaker P Q ((j, v) ∷ d) k pq h = elim (Bool-cases (j == k)) [
  | inl e ↦ rw e (All-remove-weaker P Q d k pq h.1)
  | inr e ↦
      let other : (k == j) ≡ false = ground (arith, e, nat_eq.same_iff k j, nat_eq.same_iff j k) in
      rw e (pq j v other h.0, All-remove-weaker P Q d k pq h.1)
]

or_this-IsSound :
    (may_cut : ℕ → Bool) (k : ℕ) (m : SubagentManager)
    → IsSound may_cut m
    → IsSound (or_this may_cut k) m
or_this-IsSound may_cut k m (few, served, gone) = (
  few,
  All-weaker (IsServed may_cut) (IsServed (or_this may_cut k)) m.active_subagents
      (λ j i (own, live, cut). (own, live, λ c. ground (arith, cut c))) served,
  gone,
)

pub cancelled-IsSound :
    (may_cut : ℕ → Bool) (k : ℕ) (i : SubagentInstance) (m : SubagentManager)
    → get m.active_subagents k ≡ some i
    → IsSound may_cut m
    → IsSound
        (or_this may_cut k)
        (record m { active_subagents = put m.active_subagents k (cancel_token i) })
cancelled-IsSound may_cut k i m found h =
    let (own, live, holds) = All-get (IsServed may_cut) m.active_subagents k i h.1 found in
    replaced-IsSound (or_this may_cut k) k i (cancel_token i) m found
      (own, live, λ c. ground (arith, nat_eq.same_iff k k)) (or_this-IsSound may_cut k m h)

pub cut-IsSound :
    (may_cut : ℕ → Bool) (k : ℕ) (m : SubagentManager)
    → may_cut k ≡ true
    → IsSound (or_this may_cut k) m
    → IsSound may_cut m
cut-IsSound may_cut k m allowed (few, served, gone) = (
  few,
  All-weaker (IsServed (or_this may_cut k)) (IsServed may_cut) m.active_subagents
      (λ j i (own, live, cut). (
        own,
        live,
        λ c. elim (Bool-cases (k == j)) [
          | inl e ↦ subst (λ n. may_cut n ≡ true) ((nat_eq.same_iff k j).0 e) allowed
          | inr e ↦ ground (arith, cut c, e)
        ],
      ))
      served,
  gone,
)

pub left-IsSound :
    (may_cut : ℕ → Bool) (k : ℕ) (i : SubagentInstance) (m : SubagentManager)
    → i.is_cancelled ≡ true
    → IsActive k i m
    → IsSound (or_this may_cut k) m
    → IsSound may_cut (left k (get m.active_subagents k) m)
unfolding left
left-IsSound may_cut k i m ends (beat, is) h = rw is (
    let fewer = length-remove m.active_subagents k in
    (
      omega (arith, h.0, fewer),
      All-remove-weaker (IsServed (or_this may_cut k)) (IsServed may_cut) m.active_subagents k
          (λ j v e (own, live, cut). (own, live, λ c. ground (arith, cut c, e))) h.1,
      All-snoc IsGone m.gone (record i { last_heartbeat = beat; state = destroyed }) h.2
          (refl, ends),
    ))
