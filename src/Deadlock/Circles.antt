-- ===== src/Deadlock/Circles.antt =====
-- Walks in the wait-for graph of core/runtime/deadlock_detector.py, and what `_find_cycles` cuts out
-- of its path.
use jarvis.Prelude.{
  string_eq, String, true, List, [], ◌∷◌, ◌++◌, ◌==◌, member, ok, ◌≡◌, refl, arith, eq_iff, sym, ap,
  inl, inr, Bool-cases, subst,
}
use jarvis.Prelude.Walks
use jarvis.Deadlock.{Graph, neighbours}
use jarvis.Deadlock.Search.{path_from, drop_last}
use jarvis.Deadlock.Detection.{select_victim}

abbrev pub Edge : Graph → String → String → Type 0
Edge g a b = Walks.Edge (neighbours g) a b

-- Each node of the list waits for the next one.
abbrev pub Linked : Graph → List String → Type 0
Linked g xs = Walks.Linked (neighbours g) xs

-- Each node of the list waits for the next one, and the last one for the first.
abbrev pub IsCircle : Graph → List String → Type 0
IsCircle g [] = ⊥
IsCircle g (x ∷ xs) = Linked g ((x ∷ xs) ++ x ∷ [])

pub drop_last-snoc : (p : List String) (n : String) → drop_last (p ++ n ∷ []) ≡ p
unfolding drop_last
drop_last-snoc [] n = refl
drop_last-snoc (x ∷ []) n = refl
drop_last-snoc (x ∷ y ∷ ys) n = ap (λ r. x ∷ r) (drop_last-snoc (y ∷ ys) n)

select_victim-snoc : (p : List String) (n : String) → select_victim (p ++ n ∷ []) ≡ n
unfolding select_victim
select_victim-snoc [] n = refl
select_victim-snoc (x ∷ []) n = refl
select_victim-snoc (x ∷ y ∷ ys) n = select_victim-snoc (y ∷ ys) n

IsCircle-same :
    (g : Graph) (x y : String) (xs : List String)
    → (x ≡ y)
    → Linked g ((x ∷ xs) ++ y ∷ [])
    → IsCircle g (x ∷ xs)
IsCircle-same g x y xs e h = subst (λ z. Linked g ((x ∷ xs) ++ z ∷ [])) (sym e) h

-- What `_find_cycles` records for a node m on its path p n: a circle, whose victim is n.
pub record IsCut (g : Graph) (m n : String) (c : List String) : Type 0 where
  pub last : select_victim c ≡ n
  pub circle : IsCircle g c

pub path_from-IsCut :
    (g : Graph) (p : List String) (n m : String)
    → member m (p ++ n ∷ []) ≡ true
    → Linked g ((p ++ n ∷ []) ++ m ∷ [])
    → (c : List String) × (path_from m (p ++ n ∷ []) ≡ ok c) × IsCut g m n c
unfolding path_from member
path_from-IsCut g [] n m h l =
    let same : n ≡ m = ground (arith, eq_iff n m) in
    (
      n ∷ [],
      ground (arith, eq_iff n m),
      record { last = select_victim-snoc [] n; circle = IsCircle-same g n m [] same l },
    )
path_from-IsCut g (x ∷ p) n m h l = elim (Bool-cases (x == m)) [
  | inl e ↦ (
    x ∷ p ++ n ∷ [],
    rw e,
    record {
      last = select_victim-snoc (x ∷ p) n;
      circle = IsCircle-same g x m (p ++ n ∷ []) ((eq_iff x m).0 e) l;
    },
  )
  | inr e ↦
      let (c, found, cut) =
        path_from-IsCut g p n m (ground (arith, e))
          (Walks.Linked-tail (neighbours g) x ((p ++ n ∷ []) ++ m ∷ []) l) in
      (c, (rw e found), cut)
]
