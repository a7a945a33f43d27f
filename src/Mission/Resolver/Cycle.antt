-- ===== src/Mission/Resolver/Cycle.antt =====
-- The tasks that GoalDependencyResolver of core/mission/mission_scheduler.py reports as a cycle.
use jarvis.Prelude.{
  nat_eq, ℕ, [], ◌∷◌, arith, ◌≡◌, ◌≢◌, ◌≤◌, ◌<◌, List, member, true, false, zero, suc, not, keep,
  length, ◌++◌, ◌∙◌, ap, subst, Bool, if◌then◌else◌, ◌&&◌, ◌==◌, some, Bool-cases, inl, inr,
  discard, member-discard, Bool-cases, inl, inr,
}
use jarvis.Prelude.Dict.{Dict, get, put, get-put}
use jarvis.Mission.{MissionTask}
use jarvis.Mission.Resolver.{
  ℤ, pos, degree_of, decrement, is_zero, neighbours, relax, relax_all, add_all, wave_loop, resolve,
  cycle, conclude, build, roots,
}
use jarvis.Mission.Resolver.Arrows.{
  Arrows, arriving, has_arrow, has_arrow-append, arrow, arrows_of, arrows,
}
use jarvis.Mission.Resolver.Drawn.{ids, known, known-member, arrows_in, build-Draws}
use jarvis.Mission.Resolver.Loop.{member-add_all, member-append, IsOnce}
use jarvis.Mission.Resolver.Head.{AtHead, roots-AtHead, relax_all-AtHead}
use jarvis.Mission.Resolver.Fuel.{length-ids}

-- A task that waits for nothing is queued or ready.
abbrev IsCovered : (V : List ℕ) (d : Dict ℕ ℤ) (q ready : List ℕ) → Type 0
IsCovered V d q ready =
    (k : ℕ)
    → member k V ≡ true
    → degree_of d k ≡ pos 0
    → (if member k q then true else member k ready) ≡ true

relax-IsCovered :
    (V q ks ready : List ℕ) (d : Dict ℕ ℤ)
    → IsCovered V d q ready
    → IsCovered V (relax q ks (d, ready)).0 q (relax q ks (d, ready)).1
unfolding relax is_zero
relax-IsCovered V q [] ready d h = h
relax-IsCovered V q (j ∷ ks) ready d h =
    relax-IsCovered V q ks _ (put d j (decrement (degree_of d j))) (λ k v z.
      ground (arith, h k v, z, get-put d j k (decrement (degree_of d j)), member-append k j ready))

relax_all-IsCovered :
    (V q w ready : List ℕ) (adj : Dict ℕ (List ℕ)) (d : Dict ℕ ℤ)
    → IsCovered V d q ready
    → IsCovered V (relax_all adj q w (d, ready)).0 q (relax_all adj q w (d, ready)).1
unfolding relax_all
relax_all-IsCovered V q [] ready adj d h = h
relax_all-IsCovered V q (r ∷ rs) ready adj d h =
    relax_all-IsCovered V q rs _ adj _ (relax-IsCovered V q (neighbours adj r) ready d h)

get-roots : (d : Dict ℕ ℤ) (k : ℕ) → get d k ≡ some (pos 0) → member k (roots d) ≡ true
unfolding get roots member is_zero
get-roots [] k h = ground arith
get-roots ((j, n) ∷ d) k h = ground (arith, get-roots d k, h)

roots-IsCovered :
    (tasks : List MissionTask)
    → IsCovered (ids tasks) (build tasks).in_degree [] (roots (build tasks).in_degree)
unfolding member
roots-IsCovered tasks k v z = ground (
  arith,
  z,
  (build-Draws tasks).keyed k (known-member tasks k ∙ v),
  get-roots (build tasks).in_degree k,
)

-- Some task of the list has the id k and the dependency dep.
unfoldable pub depends : (k dep : ℕ) → List MissionTask → Bool
depends k dep [] = false
depends k dep (t ∷ ts) = if t.id == k && member dep t.depends_on then true else depends k dep ts

arrows_of-depends :
    (f : ℕ → Bool) (t : ℕ) (deps : List ℕ) (es : Arrows) (d k : ℕ)
    → has_arrow d k (arrows_of f t deps es) ≡ true
    → (if has_arrow d k es then true else t == k && member d deps && f d) ≡ true
unfolding arrows_of arrow member
arrows_of-depends f t [] es d k h = ground (arith, h)
arrows_of-depends f t (dep ∷ deps) es d k h =
    ground
      (arith, arrows_of-depends f t deps (arrow f t dep es) d k h, has_arrow-append d k dep t es)

arrows-depends :
    (f : ℕ → Bool) (ts : List MissionTask) (es : Arrows) (d k : ℕ)
    → has_arrow d k (arrows f ts es) ≡ true
    → (if has_arrow d k es then true else depends k d ts && f d) ≡ true
unfolding arrows depends
arrows-depends f [] es d k h = ground (arith, h)
arrows-depends f (t ∷ ts) es d k h =
    let es' = arrows_of f t.id t.depends_on es in
    ground (arith, arrows-depends f ts es' d k h, arrows_of-depends f t.id t.depends_on es d k)

-- What waits has an arrow from a task that is not queued.
arriving-from :
    (q : List ℕ) (k : ℕ) (es : Arrows)
    → arriving q k es ≢ 0
    → (dep : ℕ) × (has_arrow dep k es ≡ true) × (member dep q ≡ false)
unfolding arriving has_arrow
arriving-from q k [] h = ground (arith, h)
arriving-from q k ((d, t) ∷ es) h = elim (Bool-cases (t == k && not (member d q))) [
  | inl here ↦ (d, ground (arith, here), ground (arith, here))
  | inr away ↦
      let (dep, arrives, waits) = arriving-from q k es (ground (arith, h, away)) in
      (dep, ground (arith, arrives), waits)
]

member-open :
    (q V : List ℕ) (k : ℕ)
    → member k (keep (λ j. not (member j q)) V) ≡ (if member k q then false else member k V)
unfolding member keep
member-open q [] k = ground arith
member-open q (j ∷ V) k = ground (arith, member-open q V k)

-- Each of the tasks depends on one of them.
abbrev pub IsStuck : List MissionTask → List ℕ → Type 0
IsStuck tasks ks =
    (k : ℕ) → member k ks ≡ true → (dep : ℕ) × (member dep ks ≡ true) × (depends k dep tasks ≡ true)

conclude-IsStuck :
    (tasks : List MissionTask) (adj : Dict ℕ (List ℕ)) (d : Dict ℕ ℤ) (q : List ℕ)
    → AtHead tasks adj d q []
    → IsCovered (ids tasks) d q []
    → IsStuck tasks (keep (λ j. not (member j q)) (ids tasks))
unfolding member has_arrow
conclude-IsStuck tasks adj d q h c k m =
    let (dep, arrives, waits) =
      arriving-from q k (arrows_in tasks)
        (ground (arith, c k, m, member-open q (ids tasks) k, h.counted k)) in
    (
      dep,
      ground (
        arith,
        waits,
        member-open q (ids tasks) dep,
        known-member tasks dep,
        arrows-depends (known tasks) tasks [] dep k arrives,
      ),
      ground (arith, arrows-depends (known tasks) tasks [] dep k arrives),
    )

conclude-cycle :
    (tasks : List MissionTask) (q ks : List ℕ) (done : List (List ℕ))
    → conclude tasks q done ≡ cycle ks
    → (keep (λ j. not (member j q)) (ids tasks) ≡ ks) × (length q < length tasks)
unfolding conclude
conclude-cycle tasks q ks done e = ground (arith, e)

length-discard_le : (a : ℕ) (xs : List ℕ) → length (discard a xs) ≤ length xs
unfolding discard
length-discard_le a [] = omega arith
length-discard_le a (x ∷ xs) = ground (arith, length-discard_le a xs)

-- A list with each element once is no longer than one that has all its elements.
length-discard : (a : ℕ) (xs : List ℕ) → member a xs ≡ true → length (discard a xs) < length xs
unfolding discard member
length-discard a [] m = ground arith
length-discard a (x ∷ xs) m = ground (arith, m, length-discard a xs, length-discard_le a xs)

length-le :
    (V q : List ℕ)
    → IsOnce V
    → ((k : ℕ) → member k V ≡ true → member k q ≡ true)
    → length V ≤ length q
unfolding IsOnce member
length-le [] q o h = omega arith
length-le (v ∷ V) q o h =
    let shorter =
      length-le V (discard v q) o.1 (λ k m. ground (arith, m, h k, member-discard v k q, o.0)) in
    ground (arith, shorter, length-discard v q, h v)

-- Fewer tasks are queued than there are, so one is not.
left_over : (V q : List ℕ) → IsOnce V → length q < length V → keep (λ j. not (member j q)) V ≢ []
unfolding member
left_over V q o p z =
    ground
      (arith, p, length-le V q o (λ k m. ground (arith, m, member-open q V k, ap (member k) z)))

wave_loop-cycle :
    (fuel : ℕ) (tasks : List MissionTask) (adj : Dict ℕ (List ℕ)) (d : Dict ℕ ℤ) (q ready : List ℕ)
    (done : List (List ℕ)) (ks : List ℕ)
    → AtHead tasks adj d q ready
    → IsCovered (ids tasks) d q ready
    → IsOnce (ids tasks)
    → wave_loop fuel tasks adj d q ready done ≡ cycle ks
    → (ks ≢ []) × IsStuck tasks ks
unfolding wave_loop member
wave_loop-cycle fuel tasks adj d q [] done ks h c o e =
    let (same, fewer) = conclude-cycle tasks q ks done e in
    subst (λ ks. (ks ≢ []) × IsStuck tasks ks) same
      (
        left_over (ids tasks) q o (omega (arith, fewer, length-ids tasks)),
        conclude-IsStuck tasks adj d q h c,
      )
wave_loop-cycle zero tasks adj d q (x ∷ xs) done ks h c o e = ground (arith, e)
wave_loop-cycle (suc fuel) tasks adj d q (x ∷ xs) done ks h c o e =
    wave_loop-cycle fuel tasks adj _ (add_all (x ∷ xs) q) _ (done ++ (x ∷ xs) ∷ []) ks
      (relax_all-AtHead tasks adj d q (x ∷ xs) h)
      (relax_all-IsCovered (ids tasks) (add_all (x ∷ xs) q) (x ∷ xs) [] adj d
        (λ k v z. ground (arith, c k v z, member-add_all (x ∷ xs) q k)))
      o e

-- A reported cycle is real: if no two tasks have the same id, the error names at least one task, and
-- every task that it names depends on a task that it names.
pub resolve-IsStuck :
    (tasks : List MissionTask) (ks : List ℕ)
    → IsOnce (ids tasks)
    → resolve tasks ≡ cycle ks
    → (ks ≢ []) × IsStuck tasks ks
unfolding resolve
resolve-IsStuck tasks ks o e =
    wave_loop-cycle (length tasks) tasks _ _ [] _ [] ks (roots-AtHead tasks) (roots-IsCovered tasks)
      o e
