-- ===== src/Subagents/Spared.antt =====
-- What the sections of core/runtime/subagent.py leave as it is when they are about other subagents.
use jarvis.Prelude.{
  nat_eq, ℕ, Bool, true, false, Option, none, some, List, [], ◌∷◌, ◌++◌, ◌≡◌, refl, sym, ap, ◌∙◌,
  subst, All, Any, Bool-cases, inl, inr, ◌==◌, ◌&&◌, length, leb,
}
use jarvis.Prelude.Dict.{get, put, get-put, get-remove}
use jarvis.Subagents.{
  SubagentState, destroyed, is_path, is_destroyed, SubagentInstance, SubagentManager, spawned,
  spawn_subagent, popped, cancel_token, updated, update_state, beaten, register_heartbeat, Waiting,
  beat_all, left, waited, at_driver, terminated, terminate_subagent, Section, spawning, updating,
  beating, terminating, run, run_all,
}
use jarvis.Subagents.Beats.{IsActive, register_heartbeat-IsActive, register_heartbeat-gone}

-- The section is not about the subagent, but for its heartbeats.
abbrev pub Spares : (subagent_id : ℕ) → Section → Type 0
Spares k (spawning fresh now driver_raises task) = (fresh == k) ≡ false
Spares k (updating j target) = (j == k) ≡ false
Spares k (beating now j) = Unit
Spares k (terminating w j) = (j == k) ≡ false

abbrev pub IsIn : SubagentInstance → List SubagentInstance → Type 0
IsIn g gone = Any (λ x. x ≡ g) gone

-- It stays active or away, and those that are gone stay so.
abbrev pub IsSpared : (subagent_id : ℕ) (m m' : SubagentManager) → Type 0
IsSpared k m m' =
    ((i : SubagentInstance) → IsActive k i m → IsActive k i m')
    × (get m.active_subagents k ≡ none → get m'.active_subagents k ≡ none)
    × ((g : SubagentInstance) → IsIn g m.gone → IsIn g m'.gone)

pub IsSpared-refl : (k : ℕ) (m : SubagentManager) → IsSpared k m m
IsSpared-refl k m = (λ i h. h, λ h. h, λ g h. h)

pub IsSpared-trans :
    (k : ℕ) (a b c : SubagentManager) → IsSpared k a b → IsSpared k b c → IsSpared k a c
IsSpared-trans k a b c (stays, away, past) (stays', away', past') =
    (λ i h. stays' i (stays i h), λ h. away' (away h), λ g h. past' g (past g h))

put-IsSpared :
    (k j : ℕ) (v : SubagentInstance) (m : SubagentManager)
    → (j == k) ≡ false
    → IsSpared k m (record m { active_subagents = put m.active_subagents j v })
put-IsSpared k j v m e = (
  λ i (beat, is). (beat, get-put m.active_subagents j k v ∙ rw e is),
  λ h. get-put m.active_subagents j k v ∙ rw e h,
  λ g h. h,
)

pub Any-snoc : {A : Type 0} (P : A → Type 0) (xs : List A) (x : A) → Any P xs → Any P (xs ++ x ∷ [])
Any-snoc P [] x h = absurd h
Any-snoc P (y ∷ xs) x h = elim h [ inl p ↦ inl p | inr q ↦ inr (Any-snoc P xs x q) ]

popped-IsSpared :
    (k j : ℕ) (v : SubagentInstance) (m : SubagentManager)
    → (j == k) ≡ false
    → IsSpared k m (popped j v m)
popped-IsSpared k j v m e = (
  λ i (beat, is). (beat, get-remove m.active_subagents j k ∙ rw e is),
  λ h. get-remove m.active_subagents j k ∙ rw e h,
  λ g h. Any-snoc (λ x. x ≡ g) m.gone (record v { state = destroyed }) h,
)

beaten-absent :
    (now b k : ℕ) (o : Option SubagentInstance) (m : SubagentManager)
    → get m.active_subagents b ≡ o
    → get m.active_subagents k ≡ none
    → get (beaten now b o m).active_subagents k ≡ none
unfolding beaten
beaten-absent now b k none m found h = h
beaten-absent now b k (some j) m found h = elim (Bool-cases (b == k)) [
  | inl e ↦
      let here : some j ≡ none =
        sym found ∙ (ap (get m.active_subagents) ((nat_eq.same_iff b k).0 e) ∙ h) in
      absurd (cc here)
  | inr e ↦ get-put m.active_subagents b k (record j { last_heartbeat = now }) ∙ rw e h
]

register_heartbeat-IsSpared :
    (now b k : ℕ) (m : SubagentManager) → IsSpared k m (register_heartbeat now b m)
unfolding register_heartbeat
register_heartbeat-IsSpared now b k m = (
  λ i h. register_heartbeat-IsActive now b k i m h,
  λ h. beaten-absent now b k (get m.active_subagents b) m refl h,
  λ g h. subst (IsIn g) (sym (register_heartbeat-gone now b m)) h,
)

beat_all-IsSpared :
    (beats : List (ℕ × ℕ)) (k : ℕ) (m : SubagentManager) → IsSpared k m (beat_all beats m)
unfolding beat_all
beat_all-IsSpared [] k m = IsSpared-refl k m
beat_all-IsSpared ((now, b) ∷ beats) k m =
    IsSpared-trans k m (register_heartbeat now b m) (beat_all beats (register_heartbeat now b m))
      (register_heartbeat-IsSpared now b k m)
      (beat_all-IsSpared beats k (register_heartbeat now b m))

spawn_subagent-IsSpared :
    (fresh now task k : ℕ) (driver_raises : Bool) (m : SubagentManager)
    → (fresh == k) ≡ false
    → IsSpared k m (spawn_subagent fresh now driver_raises task m).1
unfolding spawn_subagent is_path
spawn_subagent-IsSpared fresh now task k driver_raises m e =
    elim (Bool-cases (leb m.max_concurrent (length m.active_subagents))) [
      | inl full ↦ rw full (IsSpared-refl k m)
      | inr free ↦ elim (Bool-cases (m.driver && driver_raises)) [
        | inl fails ↦ rw (free, fails) (IsSpared-refl k m)
        | inr works ↦ rw (free, works) (put-IsSpared k fresh (spawned fresh task now) m e)
      ]
    ]

updated-IsSpared :
    (j k : ℕ) (target : SubagentState) (o : Option SubagentInstance) (m : SubagentManager)
    → (j == k) ≡ false
    → IsSpared k m (updated j target o m).1
unfolding updated
updated-IsSpared j k target none m e = IsSpared-refl k m
updated-IsSpared j k target (some i) m e = elim (Bool-cases (is_path i.state target)) [
  | inr refused ↦ rw refused (IsSpared-refl k m)
  | inl path ↦ elim (Bool-cases (is_destroyed target)) [
    | inl ends ↦ rw (path, ends) (popped-IsSpared k j (cancel_token i) m e)
    | inr goes ↦ rw (path, goes) (put-IsSpared k j (record i { state = target }) m e)
  ]
]

left-IsSpared :
    (j k : ℕ) (o : Option SubagentInstance) (m : SubagentManager)
    → (j == k) ≡ false
    → IsSpared k m (left j o m)
unfolding left
left-IsSpared j k none m e = IsSpared-refl k m
left-IsSpared j k (some i) m e = popped-IsSpared k j i m e

waited-IsSpared :
    (is_cut : Bool) (j k : ℕ) (m : SubagentManager)
    → (j == k) ≡ false
    → IsSpared k m (waited is_cut j m).1
unfolding waited
waited-IsSpared true j k m e = IsSpared-refl k m
waited-IsSpared false j k m e = left-IsSpared j k (get m.active_subagents j) m e

at_driver-IsSpared :
    (driver : Bool) (w : Waiting) (j k : ℕ) (m : SubagentManager)
    → (j == k) ≡ false
    → IsSpared k m (at_driver driver w j m).1
unfolding at_driver
at_driver-IsSpared true w j k m e =
    IsSpared-trans k m (beat_all w.beats m) (waited w.is_cut j (beat_all w.beats m)).1
      (beat_all-IsSpared w.beats k m) (waited-IsSpared w.is_cut j k (beat_all w.beats m) e)
at_driver-IsSpared false w j k m e = waited-IsSpared false j k m e

terminated-IsSpared :
    (w : Waiting) (j k : ℕ) (o : Option SubagentInstance) (m : SubagentManager)
    → (j == k) ≡ false
    → IsSpared k m (terminated w j o m).1
unfolding terminated
terminated-IsSpared w j k none m e = IsSpared-refl k m
terminated-IsSpared w j k (some i) m e =
    let m' : SubagentManager = record m {
      active_subagents = put m.active_subagents j (cancel_token i);
    } in
    IsSpared-trans k m m' (at_driver m.driver w j m').1 (put-IsSpared k j (cancel_token i) m e)
      (at_driver-IsSpared m.driver w j k m' e)

pub terminate_subagent-IsSpared :
    (w : Waiting) (j k : ℕ) (m : SubagentManager)
    → (j == k) ≡ false
    → IsSpared k m (terminate_subagent w j m).1
unfolding terminate_subagent
terminate_subagent-IsSpared w j k m e = terminated-IsSpared w j k (get m.active_subagents j) m e

run-IsSpared : (c : Section) (k : ℕ) (m : SubagentManager) → Spares k c → IsSpared k m (run c m)
unfolding run update_state
run-IsSpared (spawning fresh now driver_raises task) k m e =
    spawn_subagent-IsSpared fresh now task k driver_raises m e
run-IsSpared (updating j target) k m e = updated-IsSpared j k target (get m.active_subagents j) m e
run-IsSpared (beating now j) k m e = register_heartbeat-IsSpared now j k m
run-IsSpared (terminating w j) k m e = terminate_subagent-IsSpared w j k m e

pub run_all-IsSpared :
    (cs : List Section) (k : ℕ) (m : SubagentManager)
    → All (Spares k) cs
    → IsSpared k m (run_all cs m)
unfolding run_all
run_all-IsSpared [] k m h = IsSpared-refl k m
run_all-IsSpared (c ∷ cs) k m h =
    IsSpared-trans k m (run c m) (run_all cs (run c m)) (run-IsSpared c k m h.0)
      (run_all-IsSpared cs k (run c m) h.1)
