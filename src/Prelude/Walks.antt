-- ===== src/Prelude/Walks.antt =====
-- Walks along the edges of a graph, and the order in which a depth-first search finishes its nodes.
use Prim.Native.Nat.{ℕ, suc, ◌≤◌, ◌<◌}
use mathlib.Core.Path.{◌≡◌, sym, subst}
use mathlib.Core.Logic.{◌⊎◌, inl, inr}
use mathlib.Core.Bool.{true, false}
use mathlib.Core.List.{List, [], ◌∷◌, ◌++◌}
use native.Mathlib.Omega.{arith}
use jarvis.Prelude.Tests.{if◌then◌else◌, Bool-cases}
use jarvis.Prelude.Keys.{Eq, ◌==◌}
use jarvis.Prelude.Lists.{length, member}

-- How many nodes had finished when a node finished, itself included; the latest stands first.
pub finished_at {ℓ} : {A : Type ℓ} ⦃e : Eq A⦄ → A → List A → ℕ
finished_at a [] = 0
finished_at a (n ∷ f) = if n == a then suc (length f) else finished_at a f

pub finished_at-le {ℓ} : {A : Type ℓ} ⦃e : Eq A⦄ (a : A) (f : List A) → finished_at a f ≤ length f
unfolding finished_at
finished_at-le a [] = omega arith
finished_at-le a (n ∷ f) = ground (arith, finished_at-le a f)

-- `next n` are the nodes to which the edges of n lead.
module _ {ℓ} {A : Type ℓ} ⦃e : Eq A⦄ (next : A → List A) where
  abbrev pub Edge : A → A → Type 0
  Edge a b = member b (next a) ≡ true

  -- An edge leads from each node of the list to the next one.
  abbrev pub Linked : List A → Type 0
  Linked [] = Unit
  Linked (x ∷ []) = Unit
  Linked (x ∷ y ∷ ys) = Edge x y × Linked (y ∷ ys)

  pub Linked-snoc :
      (p : List A) (n m : A) → Linked (p ++ n ∷ []) → Edge n m → Linked ((p ++ n ∷ []) ++ m ∷ [])
  Linked-snoc [] n m h e = (e, tt)
  Linked-snoc (x ∷ []) n m h e = (h.0, (e, tt))
  Linked-snoc (x ∷ y ∷ ys) n m h e = (h.0, Linked-snoc (y ∷ ys) n m h.1 e)

  pub Linked-tail : (x : A) (xs : List A) → Linked (x ∷ xs) → Linked xs
  Linked-tail x [] h = tt
  Linked-tail x (y ∷ ys) h = h.1

  pub data Walk : A → A → Type ℓ where
    step : {a b : A} → Edge a b → Walk a b
    on : {a b c : A} → Edge a b → Walk b c → Walk a c

  pub Linked-Walk : (x y : A) (xs : List A) → Linked ((x ∷ xs) ++ y ∷ []) → Walk x y
  Linked-Walk x y [] h = step h.0
  Linked-Walk x y (z ∷ zs) h = on h.0 (Linked-Walk z y zs h.1)

  -- The finished nodes, the latest first: the edges of each lead to nodes that finished before it,
  -- or it is one of those that stop.
  abbrev pub Finished {κ} : (A → Type κ) → List A → Type (ℓ ⊔ κ)
  Finished Stops [] = Unit
  Finished Stops (n ∷ f) =
      ((m : A) → Edge n m → (member m f ≡ true) ⊎ Stops n) × (member n f ≡ false) × Finished Stops f

  pub Finished-more {κ μ} :
      (P : A → Type κ) (Q : A → Type μ) (f : List A)
      → ((k : A) → P k → Q k)
      → Finished P f
      → Finished Q f
  Finished-more P Q [] more h = tt
  Finished-more P Q (n ∷ f) more h = (
    λ m e. elim (h.0 m e) [ inl a ↦ inl a | inr v ↦ inr (more n v) ],
    h.1,
    Finished-more P Q f more h.2,
  )

  -- The edges of a node that does not stop lead to nodes that finished before it.
  pub Finished-before {κ} :
      (Stops : A → Type κ) (f : List A) (a b : A)
      → Finished Stops f
      → member a f ≡ true
      → Edge a b
      → ¬ Stops a
      → (member b f ≡ true) × (finished_at b f < finished_at a f)
  unfolding finished_at member
  Finished-before Stops [] a b h m x v = absurd (ground (arith, m))
  Finished-before Stops (n ∷ f) a b h m x v = elim (Bool-cases (n == a)) [
    | inl same ↦
        let e' = (e.same_iff n a).0 same in
        elim (h.0 b (subst (λ y. Edge y b) (sym e') x)) [
          | inl done ↦ ground (arith, done, h.1, same, e.same_iff n b, finished_at-le b f)
          | inr stops ↦ absurd (v (subst Stops e' stops))
        ]
    | inr other ↦
        let before = Finished-before Stops f a b h.2 (ground (arith, m, other)) x v in
        ground (arith, before, other, h.1, e.same_iff n b)
  ]

  -- A list of links back to one of its nodes is a walk from that node to itself.
  pub Linked-cycle : (x : A) (xs : List A) → member x xs ≡ true → Linked (xs ++ x ∷ []) → Walk x x
  unfolding member
  Linked-cycle x [] m h = absurd (ground (arith, m))
  Linked-cycle x (y ∷ ys) m h = elim (Bool-cases (y == x)) [
    | inl same ↦
        Linked-Walk x x ys (subst (λ z. Linked ((z ∷ ys) ++ x ∷ [])) ((e.same_iff y x).0 same) h)
    | inr other ↦ Linked-cycle x ys (ground (arith, m, other)) (Linked-tail y (ys ++ x ∷ []) h)
  ]

  -- Along a walk over nodes that do not stop, each node has finished before the one it comes from.
  pub Walk-falls {κ} :
      (Stops : A → Type κ) (f : List A) (a b : A)
      → Finished Stops f
      → ((n m : A) → Edge n m → (member n f ≡ true) × ¬ Stops n)
      → Walk a b
      → finished_at b f < finished_at a f
  Walk-falls Stops f a b h all (step x) =
      let (m, v) = all a b x in (Finished-before Stops f a b h m x v).1
  Walk-falls Stops f a b h all (on {b = c} x w) =
      let (m, v) = all a c x in
      let before = (Finished-before Stops f a c h m x v).1 in
      omega (arith, before, Walk-falls Stops f c b h all w)
