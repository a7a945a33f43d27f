-- ===== src/Workflow/Retry/Attempts.antt =====
-- What `execute_with_retry` of core/workflow/retry_policy.py does.
use jarvis.Prelude.{
  true, false, Option, none, some, List, [], ◌∷◌, ◌++◌, if◌then◌else◌, ℕ, zero, suc, ◌+◌, ◌<◌, ltb,
  Result, ok, raise, Result-cases, ltb→lt, ◌≡◌, inl, inr, refl, arith, Bool-cases, ◌⊎◌, subst,
}
use native.Mathlib.Numerals.{add-one}
use jarvis.Workflow.Retry.{
  Exc, assertion_error, RetryPolicy, is_retryable, backoff_delay, last_of, retry_loop,
  execute_with_retry,
}

-- The delays after the first n attempts.
unfoldable pub delays : RetryPolicy → ℕ → List ℕ
delays p zero = []
delays p (suc n) = delays p n ++ backoff_delay p n ∷ []

module _ {ℓ} {A : Type ℓ} (p : RetryPolicy) (fn : ℕ → Result Exc A) where
  -- The first n attempts raise errors that are to be retried.
  abbrev pub Fail : ℕ → Type ℓ
  Fail n = (j : ℕ) → j < n → (e : Exc) × (fn j ≡ raise e) × (is_retryable p e ≡ true)

  -- How the attempts end.
  pub data Ends : Result Exc A × List ℕ → Type ℓ where
    succeeded :
        (n : ℕ) (a : A) → n < p.max_attempts → Fail n → fn n ≡ ok a → Ends (ok a, delays p n)
    gave_up :
        (n : ℕ) (e : Exc)
        → n < p.max_attempts
        → Fail n
        → fn n ≡ raise e
        → is_retryable p e ≡ false
        → Ends (raise e, delays p n)
    exhausted :
        (n : ℕ) (e : Exc)
        → n + 1 ≡ p.max_attempts
        → Fail (n + 1)
        → fn n ≡ raise e
        → Ends (raise e, delays p n)
    never_tried : p.max_attempts ≡ 0 → Ends (raise assertion_error, [])

  -- The attempts so far, before the loop goes on.
  abbrev SoFar : ℕ → Option Exc → List ℕ → Type ℓ
  SoFar attempt last slept =
      ((attempt ≡ 0) × (last ≡ none) × (slept ≡ []))
      ⊎ ((n : ℕ) × (e : Exc) × (attempt ≡ n + 1)
          × (last ≡ some e)
          × (fn n ≡ raise e)
          × (slept ≡ (if ltb attempt p.max_attempts then delays p attempt else delays p n)))

  Fail-suc : (n : ℕ) (e : Exc) → Fail n → fn n ≡ raise e → is_retryable p e ≡ true → Fail (n + 1)
  Fail-suc n e h raised again j lt = elim (Bool-cases (ltb j n)) [
    | inl before ↦ h j (ltb→lt j n before)
    | inr now ↦
        let same : n ≡ j = ground (arith, now, lt) in
        (e, subst (λ i. fn i ≡ raise e) same raised, again)
  ]

  -- No attempt is left.
  loop_over :
      (attempt : ℕ) (last : Option Exc) (slept : List ℕ)
      → attempt ≡ p.max_attempts
      → Fail attempt
      → SoFar attempt last slept
      → Ends (last_of last, slept)
  unfolding delays
  loop_over attempt last slept sum h (inl (zero_yet, none_yet, awake)) =
      rw (none_yet, awake) (never_tried (omega (arith, sum, zero_yet)))
  loop_over attempt last slept sum h (inr (n, e, e₁, e₂, raised, e₃)) =
      let e₄ : slept ≡ delays p n = ground (arith, e₃, sum) in
      rw (e₂, e₄) (exhausted n e (omega (arith, e₁, sum)) (subst Fail (omega (arith, e₁)) h) raised)

  slept-SoFar :
      (attempt : ℕ) (last : Option Exc) (slept : List ℕ)
      → attempt < p.max_attempts
      → SoFar attempt last slept
      → slept ≡ delays p attempt
  unfolding delays
  slept-SoFar attempt last slept lt (inl (zero_yet, none_yet, awake)) = rw (zero_yet, awake)
  slept-SoFar attempt last slept lt (inr (n, e, e₁, e₂, raised, e₃)) = ground (arith, e₃, lt)

  next_slept :
      (attempt : ℕ) (slept : List ℕ)
      → slept ≡ delays p attempt
      → (if ltb (attempt + 1) p.max_attempts then slept ++ backoff_delay p attempt ∷ [] else slept)
        ≡ (if ltb (attempt + 1) p.max_attempts then delays p (attempt + 1) else delays p attempt)
  unfolding delays
  next_slept attempt slept awake =
      let longer : delays p (attempt + 1) ≡ delays p attempt ++ backoff_delay p attempt ∷ [] =
        rw add-one in
      ground (arith, awake, longer)

  retry_loop-Ends :
      (left attempt : ℕ) (last : Option Exc) (slept : List ℕ)
      → attempt + left ≡ p.max_attempts
      → Fail attempt
      → SoFar attempt last slept
      → Ends (retry_loop p fn left attempt last slept)
  unfolding retry_loop
  retry_loop-Ends zero attempt last slept sum h so_far =
      loop_over attempt last slept (omega (arith, sum)) h so_far
  retry_loop-Ends (suc left) attempt last slept sum h so_far =
      let lt : attempt < p.max_attempts = omega (arith, sum) in
      let awake = slept-SoFar attempt last slept lt so_far in
      elim (Result-cases (fn attempt)) [
        | inl (a, good) ↦ rw (good, awake) (succeeded attempt a lt h good)
        | inr (e, bad) ↦ rw bad (elim (Bool-cases (is_retryable p e)) [
          | inr final ↦ rw (final, awake) (gave_up attempt e lt h bad final)
          | inl again ↦ rw again (
              retry_loop-Ends left (attempt + 1) (some e) _ (omega (arith, sum))
                (Fail-suc attempt e h bad again)
                (inr (attempt, e, refl, refl, bad, next_slept attempt slept awake)))
        ])
      ]

-- How the attempts end, and that they do. There are at most max_attempts of them, with an
-- exponential delay before each but the first. The first that succeeds gives the result; the first
-- with an error that is not to be retried, or the last one, gives its error; with no attempt allowed
-- the assertion fails.
pub execute_with_retry-Ends {ℓ} :
    {A : Type ℓ} (p : RetryPolicy) (fn : ℕ → Result Exc A) → Ends p fn (execute_with_retry p fn)
unfolding execute_with_retry
execute_with_retry-Ends p fn =
    retry_loop-Ends p fn p.max_attempts 0 none [] (omega arith) (λ j lt. absurd (omega (arith, lt)))
      (inl (refl, refl, refl))
