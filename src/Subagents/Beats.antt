-- ===== src/Subagents/Beats.antt =====
-- What the heartbeats that come in change in core/runtime/subagent.py.
use jarvis.Prelude.{
  nat_eq, ℕ, Option, none, some, List, [], ◌∷◌, ◌≡◌, refl, sym, ap, ◌∙◌, Bool-cases, inl, inr, ◌==◌,
}
use jarvis.Prelude.Dict.{get, get-put}
use jarvis.Subagents.{SubagentInstance, SubagentManager, beaten, register_heartbeat, beat_all}

-- It is active as it was, but for its last heartbeat.
abbrev pub IsActive : (subagent_id : ℕ) → SubagentInstance → SubagentManager → Type 0
IsActive k i m = (beat : ℕ) × (get m.active_subagents k ≡ some (record i { last_heartbeat = beat }))

beaten-IsActive :
    (now b k : ℕ) (i : SubagentInstance) (o : Option SubagentInstance) (m : SubagentManager)
    → get m.active_subagents b ≡ o
    → IsActive k i m
    → IsActive k i (beaten now b o m)
unfolding beaten
beaten-IsActive now b k i none m found h = h
beaten-IsActive now b k i (some j) m found (beat, is) = elim (Bool-cases (b == k)) [
  | inl e ↦
      let here : some j ≡ some (record i { last_heartbeat = beat }) =
        sym found ∙ (ap (get m.active_subagents) ((nat_eq.same_iff b k).0 e) ∙ is) in
      let same : j ≡ record i { last_heartbeat = beat } = cc here in
      (
        now,
        get-put m.active_subagents b k (record j { last_heartbeat = now })
            ∙ rw e (ap {A = SubagentInstance} (λ x. some (record x { last_heartbeat = now })) same),
      )
  | inr e ↦ (beat, get-put m.active_subagents b k (record j { last_heartbeat = now }) ∙ rw e is)
]

pub register_heartbeat-IsActive :
    (now b k : ℕ) (i : SubagentInstance) (m : SubagentManager)
    → IsActive k i m
    → IsActive k i (register_heartbeat now b m)
unfolding register_heartbeat
register_heartbeat-IsActive now b k i m h =
    beaten-IsActive now b k i (get m.active_subagents b) m refl h

pub beat_all-IsActive :
    (beats : List (ℕ × ℕ)) (k : ℕ) (i : SubagentInstance) (m : SubagentManager)
    → IsActive k i m
    → IsActive k i (beat_all beats m)
unfolding beat_all
beat_all-IsActive [] k i m h = h
beat_all-IsActive ((now, b) ∷ beats) k i m h =
    beat_all-IsActive beats k i (register_heartbeat now b m)
      (register_heartbeat-IsActive now b k i m h)

beaten-gone :
    (now b : ℕ) (o : Option SubagentInstance) (m : SubagentManager)
    → (beaten now b o m).gone ≡ m.gone
unfolding beaten
beaten-gone now b none m = refl
beaten-gone now b (some j) m = refl

pub register_heartbeat-gone :
    (now b : ℕ) (m : SubagentManager) → (register_heartbeat now b m).gone ≡ m.gone
unfolding register_heartbeat
register_heartbeat-gone now b m = beaten-gone now b (get m.active_subagents b) m

pub beat_all-gone : (beats : List (ℕ × ℕ)) (m : SubagentManager) → (beat_all beats m).gone ≡ m.gone
unfolding beat_all
beat_all-gone [] m = refl
beat_all-gone ((now, b) ∷ beats) m =
    beat_all-gone beats (register_heartbeat now b m) ∙ register_heartbeat-gone now b m
