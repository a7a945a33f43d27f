-- ===== src/Prelude/Missing.antt =====
-- How many entries of a list are not in a set: what bounds a search that visits no node twice.
use Prim.Native.Nat.{ℕ, ◌≤◌, ◌<◌}
use mathlib.Core.Path.{◌≡◌, refl}
use mathlib.Core.Logic.{inl, inr}
use mathlib.Core.Bool.{true, false, not}
use mathlib.Core.List.{List, [], ◌∷◌, ◌++◌}
use native.Mathlib.Omega.{arith}
use jarvis.Prelude.Tests.{if◌then◌else◌, Bool-cases}
use jarvis.Prelude.Keys.{Eq, ◌==◌}
use jarvis.Prelude.Lists.{keep, length, member, add}

module _ {ℓ} {A : Type ℓ} ⦃e : Eq A⦄ where
  pub missing : (set all : List A) → ℕ
  missing set all = length (keep (λ k. not (member k set)) all)

  pub missing-le-length : (s u : List A) → missing s u ≤ length u
  unfolding missing keep
  missing-le-length s [] = omega arith
  missing-le-length s (k ∷ u) = ground (arith, missing-le-length s u)

  pub missing-le :
      (s t u : List A)
      → ((k : A) → member k s ≡ true → member k t ≡ true)
      → missing t u ≤ missing s u
  unfolding missing keep
  missing-le s t [] h = omega arith
  missing-le s t (k ∷ u) h = ground (arith, missing-le s t u h, h k)

  pub missing-lt :
      (s t u : List A) (n : A)
      → ((k : A) → member k s ≡ true → member k t ≡ true)
      → member n u ≡ true
      → member n s ≡ false
      → member n t ≡ true
      → missing t u < missing s u
  unfolding missing keep member
  missing-lt s t [] n h a b c = ground arith
  missing-lt s t (k ∷ u) n h a b c = elim (Bool-cases (k == n)) [
    | inl same ↦
        let le = missing-le s t u h in rw ((e.same_iff k n).0 same, b, c) (omega (arith, le))
    | inr other ↦ ground (arith, missing-lt s t u n h, h k, a, b, c, other)
  ]

  pub member-append :
      (k : A) (xs ys : List A) → member k (xs ++ ys) ≡ (if member k xs then true else member k ys)
  unfolding member
  member-append k [] ys = refl
  member-append k (x ∷ xs) ys = ground (arith, member-append k xs ys)

  pub member-add :
      (k a : A) (xs : List A) → member k (add a xs) ≡ (if a == k then true else member k xs)
  unfolding add member
  member-add k a xs = elim (Bool-cases (a == k)) [
    | inl same ↦ let e' = (e.same_iff a k).0 same in ground (arith, e', same)
    | inr other ↦ ground (arith, other)
  ]

  pub member-head : (k : A) (xs : List A) → member k (k ∷ xs) ≡ true
  unfolding member
  member-head k xs = ground (arith, e.same_iff k k)

  pub member-tail : (k x : A) (xs : List A) → member k xs ≡ true → member k (x ∷ xs) ≡ true
  unfolding member
  member-tail k x xs m = ground (arith, m)

  pub not-member-nil : (k : A) → member k [] ≡ false
  unfolding member
  not-member-nil k = refl
