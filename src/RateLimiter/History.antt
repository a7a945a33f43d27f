-- ===== src/RateLimiter/History.antt =====
-- The pruned windows of core/reasoning/rate_limiter.py against a limiter that forgets nothing.
use jarvis.Prelude.{
  if◌then◌else◌, ℕ, string_eq, [], ◌∷◌, none, some, refl, ◌≤◌, Option, List, keep, String, ◌≡◌,
  Result, arith, ◌+◌, ◌∙◌, Bool-cases, ap, leb, ltb, ◌==◌, raise, inl, length, ok, inr,
}
use mathlib.Core.Path.{ap₂}
use jarvis.RateLimiter.Agreement.{
  Agree, check-Agree, record_request-Agree, increment-Agree, decrement-Agree, cleared-Agree,
  forget-Agree, configure-Agree,
}
use jarvis.RateLimiter.{
  Limiter, Config, RateLimitError, recent, recent_entry, timestamps, tokens_log, running, total,
  configure_provider, get_config, check_rate_limits, record_request, increment_concurrent,
  decrement_concurrent, reset, concurrent, rpm, tpm,
}

pub data Call : Type 0 where
  check : (now : ℕ) (provider : String) (estimated_tokens : ℕ) → Call
  record_use : (now : ℕ) (provider : String) (token_count : ℕ) → Call
  increment : (provider : String) → Call
  decrement : (provider : String) → Call
  configure : (provider : String) → Config → Call
  clear : Option String → Call

abbrev pub Verdict : Type 0
Verdict = Option (Result RateLimitError (Unit {0}))

-- The instant of a call, or that of the call before it.
abbrev pub instant : ℕ → Call → ℕ
instant last (check now provider est) = now
instant last (record_use now provider count) = now
instant last _ = last

-- The clock never goes back.
abbrev pub InOrder : ℕ → List Call → Type 0
InOrder last [] = Unit
InOrder last (c ∷ cs) = (last ≤ instant last c) × InOrder (instant last c) cs

module _ (lower : String → String) where
  -- One call: what it answers, and the limiter after it.
  unfoldable pub call : Limiter → Call → Verdict × Limiter
  unfolding check_rate_limits record_request increment_concurrent decrement_concurrent
      configure_provider reset
  call s (check now provider est) =
      let (verdict, s') = check_rate_limits lower now s provider est in (some verdict, s')
  call s (record_use now provider count) = (none, record_request lower now s provider count)
  call s (increment provider) = (none, increment_concurrent lower s provider)
  call s (decrement provider) = (none, decrement_concurrent lower s provider)
  call s (configure provider config) = (none, configure_provider lower s provider config)
  call s (clear provider) = (none, reset lower s provider)

  -- The specification: every request and token count is kept for ever, and a check counts those of
  -- the last minute.
  unfoldable pub verdict : (now : ℕ) → Limiter → String → ℕ → Result RateLimitError (Unit {0})
  verdict now u provider est =
      let name = lower provider in
      let config = get_config lower u name in
      if leb config.max_concurrent (running u name)
      then raise concurrent
      else if leb config.rpm (length (keep (recent now) (timestamps u name)))
      then raise rpm
      else if ltb config.tpm (total (keep (recent_entry now) (tokens_log u name)) + est)
      then raise tpm
      else ok tt

  unfoldable pub spec_call : Limiter → Call → Verdict × Limiter
  unfolding verdict call
  spec_call u (check now provider est) = (some (verdict now u provider est), u)
  spec_call u c = call u c

  unfoldable pub answers : Limiter → List Call → List Verdict
  answers s [] = []
  answers s (c ∷ cs) = let (v, s') = call s c in v ∷ answers s' cs

  unfoldable pub spec_answers : Limiter → List Call → List Verdict
  spec_answers u [] = []
  spec_answers u (c ∷ cs) = let (v, u') = spec_call u c in v ∷ spec_answers u' cs

  check_rate_limits-verdict :
      (now : ℕ) (s : Limiter) (provider : String) (est : ℕ)
      → (check_rate_limits lower now s provider est).0 ≡ verdict now s provider est
  unfolding check_rate_limits verdict
  check_rate_limits-verdict now s provider est = ground arith

module _ (lower : String → String) where
  verdict-Agree :
      (now : ℕ) (s u : Limiter) (provider : String) (est : ℕ)
      → Agree now s u
      → verdict lower now s provider est ≡ verdict lower now u provider est
  unfolding verdict get_config
  verdict-Agree now s u provider est a = cc (
    a.defaults,
    a.configs,
    a.running_same (lower provider),
    a.times (lower provider) now (omega arith),
    a.tokens (lower provider) now (omega arith),
  )

  call-Agree :
      (last : ℕ) (s u : Limiter) (c : Call)
      → last ≤ instant last c
      → Agree last s u
      → Agree (instant last c) (call lower s c).1 (spec_call lower u c).1
  unfolding spec_call
  call-Agree last s u (check now provider est) h a = check-Agree lower last now s u provider est h a
  call-Agree last s u (record_use now provider count) h a =
      record_request-Agree lower last now s u provider count h a
  call-Agree last s u (increment provider) h a = increment-Agree lower last s u provider a
  call-Agree last s u (decrement provider) h a = decrement-Agree lower last s u provider a
  call-Agree last s u (configure provider config) h a =
      configure-Agree lower last s u provider config a
  call-Agree last s u (clear none) h a = cleared-Agree lower last s u a
  call-Agree last s u (clear (some provider)) h a = elim (Bool-cases (provider == "")) [
    | inl e ↦ rw e (cleared-Agree lower last s u a)
    | inr e ↦ rw e (forget-Agree lower last s u (lower provider) a)
  ]

  call-verdict :
      (last : ℕ) (s u : Limiter) (c : Call)
      → last ≤ instant last c
      → Agree last s u
      → (call lower s c).0 ≡ (spec_call lower u c).0
  unfolding spec_call
  call-verdict last s u (check now provider est) h a = ap some (
      check_rate_limits-verdict lower now s provider est
      ∙ verdict-Agree now s u provider est (record {
        defaults = a.defaults;
        configs = a.configs;
        running_same = a.running_same;
        times = λ name later l. a.times name later (omega arith);
        tokens = λ name later l. a.tokens name later (omega arith);
      }))
  call-verdict last s u c h a = refl

  answers-Agree :
      (last : ℕ) (s u : Limiter) (cs : List Call)
      → InOrder last cs
      → Agree last s u
      → answers lower s cs ≡ spec_answers lower u cs
  unfolding answers spec_answers
  answers-Agree last s u [] h a = refl
  answers-Agree last s u (c ∷ cs) h a =
      ap₂ ◌∷◌ (call-verdict last s u c h.0 a)
        (answers-Agree (instant last c) _ _ cs h.1 (call-Agree last s u c h.0 a))

-- Forgetting what is older than a minute is never noticed: along any calls whose clock does not go
-- back, on any providers, the limiter gives the verdicts, with their reasons, of one that keeps
-- every request for ever and counts those of the last minute at each check.
pub answers-spec :
    (lower : String → String) (last : ℕ) (s : Limiter) (cs : List Call)
    → InOrder last cs
    → answers lower s cs ≡ spec_answers lower s cs
answers-spec lower last s cs h = answers-Agree lower last s s cs h (record {
  defaults = refl;
  configs = refl;
  running_same = λ name. refl;
  times = λ name now l. refl;
  tokens = λ name now l. refl;
})
