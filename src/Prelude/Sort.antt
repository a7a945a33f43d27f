-- ===== src/Prelude/Sort.antt =====
-- `sorted(xs, key=…)`, a stable sort, against the order that the key induces.
use mathlib.Core.Path.{◌≡◌, refl, ◌∙◌}
use mathlib.Core.Bool.{Bool, true, false}
use mathlib.Core.List.Perm
use mathlib.Core.List.{List, [], ◌∷◌, Perm, map}
use jarvis.Prelude.Tests.{if◌then◌else◌, Bool-cases}
use jarvis.Prelude.Keys.{Eq, ◌==◌}
use jarvis.Prelude.Lists.{Any, All, keep, member, Once}
use mathlib.Core.Logic.{◌⊎◌, inl, inr}
use jarvis.Prelude.{arith}

-- `first x y`: x may stand in front of y.
module _ {ℓ} {A : Type ℓ} (first : A → A → Bool) where
  pub insert : A → List A → List A
  insert x [] = x ∷ []
  insert x (y ∷ ys) = if first x y then x ∷ y ∷ ys else y ∷ insert x ys

  unfoldable pub sort : List A → List A
  unfolding insert
  sort [] = []
  sort (x ∷ xs) = insert x (sort xs)

  -- Every element may stand in front of all that follow it.
  abbrev pub IsSorted : List A → Type 0
  IsSorted [] = Unit
  IsSorted (x ∷ xs) = All (λ y. first x y ≡ true) xs × IsSorted xs

  pub insert-perm : (x : A) (xs : List A) → Perm (insert x xs) (x ∷ xs)
  unfolding insert
  insert-perm x [] = Perm.refl _
  insert-perm x (y ∷ ys) = elim (Bool-cases (first x y)) [
    | inl e ↦ rw e (Perm.refl _)
    | inr e ↦ rw e (Perm.trans (Perm.cons y (insert-perm x ys)) (Perm.swap x y ys))
  ]

  pub sort-perm : (xs : List A) → Perm (sort xs) xs
  unfolding sort
  sort-perm [] = Perm.refl _
  sort-perm (x ∷ xs) = Perm.trans (insert-perm x (sort xs)) (Perm.cons x (sort-perm xs))

module _ {ℓ κ} {A : Type ℓ} (first : A → A → Bool) (P : A → Type κ) where
  All-insert : (x : A) (ys : List A) → P x → All P ys → All P (insert first x ys)
  unfolding insert
  All-insert x [] h a = (h, tt)
  All-insert x (y ∷ ys) h a = elim (Bool-cases (first x y)) [
    | inl e ↦ rw e (h, a)
    | inr e ↦ rw e (a.0, All-insert x ys h a.1)
  ]

module _ {ℓ} {A : Type ℓ} (first : A → A → Bool)
    (total : (x y : A) → first x y ≡ false → first y x ≡ true)
    (trans : (x y z : A) → first x y ≡ true → first y z ≡ true → first x z ≡ true) where
  All-later :
      (x y : A) (ys : List A)
      → first x y ≡ true
      → All (λ z. first y z ≡ true) ys
      → All (λ z. first x z ≡ true) ys
  All-later x y [] h a = tt
  All-later x y (z ∷ ys) h a = (trans x y z h a.0, All-later x y ys h a.1)

  insert-IsSorted : (x : A) (ys : List A) → IsSorted first ys → IsSorted first (insert first x ys)
  unfolding insert
  insert-IsSorted x [] s = (tt, tt)
  insert-IsSorted x (y ∷ ys) s = elim (Bool-cases (first x y)) [
    | inl e ↦ rw e ((e, All-later x y ys e s.0), s)
    | inr e ↦
        rw e (
          All-insert first (λ z. first y z ≡ true) x ys (total x y e) s.0,
          insert-IsSorted x ys s.1,
        )
  ]

  pub sort-IsSorted : (xs : List A) → IsSorted first (sort first xs)
  unfolding sort
  sort-IsSorted [] = tt
  sort-IsSorted (x ∷ xs) = insert-IsSorted x (sort first xs) (sort-IsSorted xs)

-- Sorting keeps the keys `key x` of the elements.
module _ {ℓ κ} {A : Type ℓ} {K : Type κ} ⦃e : Eq K⦄ (first : A → A → Bool) (key : A → K) where
  member-map-insert :
      (k : K) (x : A) (xs : List A)
      → member k (map key (insert first x xs))
        ≡ (if key x == k then true else member k (map key xs))
  unfolding insert member
  member-map-insert k x [] = refl
  member-map-insert k x (y ∷ ys) = ground (arith, member-map-insert k x ys)

  pub member-map-sort :
      (k : K) (xs : List A) → member k (map key (sort first xs)) ≡ member k (map key xs)
  unfolding sort member
  member-map-sort k [] = refl
  member-map-sort k (x ∷ xs) =
      ground (arith, member-map-insert k x (sort first xs), member-map-sort k xs)

  Once-insert :
      (x : A) (xs : List A)
      → member (key x) (map key xs) ≡ false
      → Once (map key xs)
      → Once (map key (insert first x xs))
  unfolding insert member
  Once-insert x [] new h = (refl, tt)
  Once-insert x (y ∷ ys) new h = elim (Bool-cases (first x y)) [
    | inl front ↦ rw front (new, h)
    | inr behind ↦ rw behind (
      ground (
        arith,
        member-map-insert (key y) x ys,
        new,
        h.0,
        e.same_iff (key x) (key y),
        e.same_iff (key y) (key x),
      ),
      Once-insert x ys (ground (arith, new)) h.1,
    )
  ]

  pub Once-sort : (xs : List A) → Once (map key xs) → Once (map key (sort first xs))
  unfolding sort
  Once-sort [] h = tt
  Once-sort (x ∷ xs) h =
      Once-insert x (sort first xs) (member-map-sort (key x) xs ∙ h.0) (Once-sort xs h.1)

pub All-sort {ℓ κ} :
    {A : Type ℓ} (first : A → A → Bool) (P : A → Type κ) (xs : List A)
    → All P xs
    → All P (sort first xs)
unfolding sort
All-sort first P [] h = tt
All-sort first P (x ∷ xs) h = All-insert first P x (sort first xs) h.0 (All-sort first P xs h.1)

All-insert_inv {ℓ κ} :
    {A : Type ℓ} (first : A → A → Bool) (P : A → Type κ) (x : A) (ys : List A)
    → All P (insert first x ys)
    → P x × All P ys
unfolding insert
All-insert_inv first P x [] h = h
All-insert_inv first P x (y ∷ ys) h = elim (Bool-cases (first x y)) [
  | inl front ↦ rw front at h
  | inr behind ↦
      let (own, rest) = rw behind at h in
      let (new, old) = All-insert_inv first P x ys rest in (new, (own, old))
]

pub All-sort_inv {ℓ κ} :
    {A : Type ℓ} (first : A → A → Bool) (P : A → Type κ) (xs : List A)
    → All P (sort first xs)
    → All P xs
unfolding sort
All-sort_inv first P [] h = tt
All-sort_inv first P (x ∷ xs) h =
    let (new, old) = All-insert_inv first P x (sort first xs) h in
    (new, All-sort_inv first P xs old)

Any-insert {ℓ} :
    {A : Type ℓ} (first : A → A → Bool) (P : A → Type 0) (x : A) (ys : List A)
    → Any P (insert first x ys)
    → P x ⊎ Any P ys
unfolding insert
Any-insert first P x [] h = h
Any-insert first P x (y ∷ ys) h = elim (Bool-cases (first x y)) [
  | inl front ↦ rw front at h
  | inr behind ↦ elim (rw behind at h) [
    | inl p ↦ inr (inl p)
    | inr later ↦ elim (Any-insert first P x ys later) [ inl p ↦ inl p | inr q ↦ inr (inr q) ]
  ]
]

pub Any-sort {ℓ} :
    {A : Type ℓ} (first : A → A → Bool) (P : A → Type 0) (xs : List A)
    → Any P (sort first xs)
    → Any P xs
unfolding sort
Any-sort first P [] h = h
Any-sort first P (x ∷ xs) h = elim (Any-insert first P x (sort first xs) h) [
  | inl p ↦ inl p
  | inr later ↦ inr (Any-sort first P xs later)
]

Any-insert_inv {ℓ} :
    {A : Type ℓ} (first : A → A → Bool) (P : A → Type 0) (x : A) (ys : List A)
    → P x ⊎ Any P ys
    → Any P (insert first x ys)
unfolding insert
Any-insert_inv first P x [] h = h
Any-insert_inv first P x (y ∷ ys) h = elim (Bool-cases (first x y)) [
  | inl front ↦ rw front h
  | inr behind ↦ rw behind (elim h [
    | inl p ↦ inr (Any-insert_inv first P x ys (inl p))
    | inr later ↦ elim later [ inl q ↦ inl q | inr r ↦ inr (Any-insert_inv first P x ys (inr r)) ]
  ])
]

pub Any-sort_inv {ℓ} :
    {A : Type ℓ} (first : A → A → Bool) (P : A → Type 0) (xs : List A)
    → Any P xs
    → Any P (sort first xs)
unfolding sort
Any-sort_inv first P [] h = h
Any-sort_inv first P (x ∷ xs) h =
    Any-insert_inv first P x (sort first xs)
      (elim h [ inl p ↦ inl p | inr later ↦ inr (Any-sort_inv first P xs later) ])

-- A stable sort keeps the elements of one class, which may all stand in front of one another, in
-- the order in which they stood.
module _ {ℓ} {A : Type ℓ} (first : A → A → Bool) (p : A → Bool)
    (ties : (x y : A) → p x ≡ true → p y ≡ true → first x y ≡ true) where
  keep-insert :
      (x : A) (ys : List A)
      → keep p (insert first x ys) ≡ (if p x then x ∷ keep p ys else keep p ys)
  unfolding insert keep
  keep-insert x [] = refl
  keep-insert x (y ∷ ys) = ground (arith, ties x y, keep-insert x ys)

  pub keep-sort : (xs : List A) → keep p (sort first xs) ≡ keep p xs
  unfolding sort keep
  keep-sort [] = refl
  keep-sort (x ∷ xs) = ground (arith, keep-insert x (sort first xs), keep-sort xs)
