-- ===== src/Prelude/Entries.antt =====
-- The entries of a dictionary with numbers as keys.
use mathlib.Core.Path.{◌≡◌, refl, sym, ap, subst}
use mathlib.Core.Logic.{inl, inr}
use mathlib.Core.Option.{some}
use mathlib.Core.List.{[], ◌∷◌}
use Prim.Native.Nat.{ℕ, suc, ◌≤◌}
use native.Mathlib.Omega.{arith}
use jarvis.Prelude.Tests.{Bool-cases}
use jarvis.Prelude.Keys.{nat_eq, ◌==◌}
use jarvis.Prelude.Lists.{All, length}
use jarvis.Prelude.Dict.{Dict, get, put, remove}

module _ {V : Type 0} (P : ℕ × V → Type 0) where
  pub All-put : (d : Dict ℕ V) (k : ℕ) (v : V) → All P d → P (k, v) → All P (put d k v)
  unfolding put
  All-put [] k v h p = (p, tt)
  All-put ((j, w) ∷ d) k v h p = elim (Bool-cases (j == k)) [
    | inl e ↦ rw e (subst (λ n. P (n, v)) (sym ((nat_eq.same_iff j k).0 e)) p, h.1)
    | inr e ↦ rw e (h.0, All-put d k v h.1 p)
  ]

  pub All-remove : (d : Dict ℕ V) (k : ℕ) → All P d → All P (remove d k)
  unfolding remove
  All-remove [] k h = tt
  All-remove ((j, w) ∷ d) k h = elim (Bool-cases (j == k)) [
    | inl e ↦ rw e (All-remove d k h.1)
    | inr e ↦ rw e (h.0, All-remove d k h.1)
  ]

  pub All-get : (d : Dict ℕ V) (k : ℕ) (v : V) → All P d → get d k ≡ some v → P (k, v)
  unfolding get
  All-get [] k v h found = absurd (ground (arith, found))
  All-get ((j, w) ∷ d) k v h found = elim (Bool-cases (j == k)) [
    | inl e ↦
        let same : some w ≡ some v = rw e at found in
        subst (λ n. P (n, v)) ((nat_eq.same_iff j k).0 e) (subst (λ x. P (j, x)) (cc same) h.0)
    | inr e ↦ All-get d k v h.1 (rw e at found)
  ]

pub length-put-new :
    {V : Type 0} (d : Dict ℕ V) (k : ℕ) (v : V) → length (put d k v) ≤ suc (length d)
unfolding put
length-put-new [] k v = omega arith
length-put-new ((j, w) ∷ d) k v = ground (arith, length-put-new d k v)

pub length-put-old :
    {V : Type 0} (d : Dict ℕ V) (k : ℕ) (v w : V) → get d k ≡ some w → length (put d k v) ≡ length d
unfolding put get
length-put-old [] k v w h = absurd (ground (arith, h))
length-put-old ((j, u) ∷ d) k v w h = elim (Bool-cases (j == k)) [
  | inl e ↦ rw e refl
  | inr e ↦ rw e (ap suc (length-put-old d k v w (rw e at h)))
]

pub length-remove : {V : Type 0} (d : Dict ℕ V) (k : ℕ) → length (remove d k) ≤ length d
unfolding remove
length-remove [] k = omega arith
length-remove ((j, w) ∷ d) k = ground (arith, length-remove d k)
