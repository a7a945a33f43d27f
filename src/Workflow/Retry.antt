-- ===== src/Workflow/Retry.antt =====
-- core/workflow/retry_policy.py: RetryPolicy. A delay is a whole number of the clock's smallest unit.
-- The callable is a function of the number of the attempt. Cancellation, which is no `Exception` and
-- leaves at once, is left out.
pub mod Attempts
use jarvis.Prelude.{
  string_eq, String, Bool, true, false, Option, none, some, List, [], ◌∷◌, ◌++◌, if◌then◌else◌, not,
  ℕ, zero, suc, ◌+◌, ◌*◌, member, ltb, Result, ok, raise,
}
use Prim.Native.Nat.{◌^◌}

-- An exception: the name of its class, and its text.
pub record Exc : Type 0 where
  pub name : String
  pub text : String

abbrev pub assertion_error : Exc
assertion_error = record { name = "AssertionError"; text = "" }

pub record RetryPolicy : Type 0 where
  pub max_attempts : ℕ
  pub backoff : ℕ
  pub retryable_errors : List String

unfoldable pub is_retryable : RetryPolicy → Exc → Bool
is_retryable p exc = elim p.retryable_errors [
  | [] ↦ true
  | name ∷ names ↦ member exc.name (name ∷ names)
]

unfoldable pub backoff_delay : RetryPolicy → ℕ → ℕ
backoff_delay p attempt = p.backoff * 2 ^ attempt

-- `raise last_exc`, after the assertion.
abbrev pub last_of {ℓ} : {A : Type ℓ} → Option Exc → Result Exc A
last_of none = raise assertion_error
last_of (some exc) = raise exc

-- After one attempt: return, raise, or go on with the rest.
unfoldable pub after_attempt {ℓ} :
    {A : Type ℓ}
    → RetryPolicy
    → List ℕ
    → Result Exc A
    → (Exc → Result Exc A × List ℕ)
    → Result Exc A × List ℕ
unfolding is_retryable
after_attempt p slept (ok result) rest = (ok result, slept)
after_attempt p slept (raise exc) rest = if is_retryable p exc then rest exc else (raise exc, slept)

-- `for attempt in range(self.max_attempts)`, with `left` rounds to go: the result, and the delays for
-- which it slept.
unfoldable pub retry_loop {ℓ} :
    {A : Type ℓ} (p : RetryPolicy) (fn : ℕ → Result Exc A) (left attempt : ℕ)
    → Option Exc
    → List ℕ
    → Result Exc A × List ℕ
unfolding after_attempt backoff_delay
retry_loop p fn zero attempt last slept = (last_of last, slept)
retry_loop p fn (suc left) attempt last slept =
    let slept' =
      if ltb (attempt + 1) p.max_attempts then slept ++ backoff_delay p attempt ∷ [] else slept in
    after_attempt p slept (fn attempt) λ exc. retry_loop p fn left (attempt + 1) (some exc) slept'

unfoldable pub execute_with_retry {ℓ} :
    {A : Type ℓ} → RetryPolicy → (ℕ → Result Exc A) → Result Exc A × List ℕ
unfolding retry_loop
execute_with_retry p fn = retry_loop p fn p.max_attempts 0 none []
