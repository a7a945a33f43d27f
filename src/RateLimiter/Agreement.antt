-- ===== src/RateLimiter/Agreement.antt =====
-- When two limiters of core/reasoning/rate_limiter.py count the same, and that each operation keeps
-- it so, a check that prunes included.
use jarvis.Prelude.{
  ℕ, string_eq, eq_iff, [], ◌∷◌, refl, ◌≤◌, List, keep, String, ◌≡◌, true, Bool, arith, ◌+◌, ◌∙◌,
  Bool-cases, ap, ◌++◌, ltb, keep-append, inl, inr, ◌-◌,
}
use jarvis.Prelude.Dict.{Dict, get, put, get-put}
use jarvis.RateLimiter.{
  Limiter, Config, recent, recent_entry, timestamps, tokens_log, running, configure_provider,
  check_rate_limits, record_request, increment_concurrent, decrement_concurrent, or_default, forget,
}

keep-keep_later {ℓ} :
    {A : Type ℓ} (p q : A → Bool) (imp : (a : A) → q a ≡ true → p a ≡ true) (xs : List A)
    → keep q (keep p xs) ≡ keep q xs
unfolding keep
keep-keep_later p q imp [] = refl
keep-keep_later p q imp (x ∷ xs) = ground (arith, imp x, keep-keep_later p q imp xs)

recent_mono : (from now ts : ℕ) → from ≤ now → recent now ts ≡ true → recent from ts ≡ true
recent_mono from now ts h r = ground arith

-- From `from` on, the two limiters count the same.
pub record Agree (from : ℕ) (s u : Limiter) : Type 0 where
  pub defaults : s.defaults ≡ u.defaults
  pub configs : s.configs ≡ u.configs
  pub running_same : (name : String) → running s name ≡ running u name
  pub times :
      (name : String) (now : ℕ)
      → from ≤ now
      → keep (recent now) (timestamps s name) ≡ keep (recent now) (timestamps u name)
  pub tokens :
      (name : String) (now : ℕ)
      → from ≤ now
      → keep (recent_entry now) (tokens_log s name) ≡ keep (recent_entry now) (tokens_log u name)

module _ (lower : String → String) where
  check-times :
      (now later : ℕ) (s : Limiter) (provider : String) (est : ℕ) (name : String)
      → now ≤ later
      → keep (recent later) (timestamps (check_rate_limits lower now s provider est).1 name)
        ≡ keep (recent later) (timestamps s name)
  unfolding check_rate_limits
  check-times now later s provider est name h =
      let kept = keep (recent now) (timestamps s (lower provider)) in
      ground (
        arith,
        get-put s.request_timestamps (lower provider) name kept,
        eq_iff (lower provider) name,
        keep-keep_later (recent now) (recent later) (λ ts. recent_mono now later ts h)
            (timestamps s (lower provider)),
      )

  check-tokens :
      (now later : ℕ) (s : Limiter) (provider : String) (est : ℕ) (name : String)
      → now ≤ later
      → keep (recent_entry later) (tokens_log (check_rate_limits lower now s provider est).1 name)
        ≡ keep (recent_entry later) (tokens_log s name)
  unfolding check_rate_limits
  check-tokens now later s provider est name h =
      let kept = keep (recent_entry now) (tokens_log s (lower provider)) in
      ground (
        arith,
        get-put s.token_history (lower provider) name kept,
        eq_iff (lower provider) name,
        keep-keep_later (recent_entry now) (recent_entry later)
            (λ (entry : ℕ × ℕ). recent_mono now later entry.0 h) (tokens_log s (lower provider)),
      )

  check-others :
      (now : ℕ) (s : Limiter) (provider : String) (est : ℕ)
      → let s' = (check_rate_limits lower now s provider est).1 in
        (s'.defaults ≡ s.defaults)
        × (s'.configs ≡ s.configs)
        × (s'.concurrent_requests ≡ s.concurrent_requests)
  unfolding check_rate_limits
  check-others now s provider est = ground arith

  pub check-Agree :
      (last now : ℕ) (s u : Limiter) (provider : String) (est : ℕ)
      → last ≤ now
      → Agree last s u
      → Agree now (check_rate_limits lower now s provider est).1 u
  check-Agree last now s u provider est h a =
      let (d, c, r) = check-others now s provider est in
      record {
        defaults = d ∙ a.defaults;
        configs = c ∙ a.configs;
        running_same =
            λ name. ap (λ (x : Dict String ℕ). or_default 0 (get x name)) r ∙ a.running_same name;
        times = λ name later l.
            check-times now later s provider est name l ∙ a.times name later (omega arith);
        tokens = λ name later l.
            check-tokens now later s provider est name l ∙ a.tokens name later (omega arith);
      }

  pub record_request-Agree :
      (last now : ℕ) (s u : Limiter) (provider : String) (count : ℕ)
      → last ≤ now
      → Agree last s u
      → Agree now
          (record_request lower now s provider count)
          (record_request lower now u provider count)
  unfolding record_request
  record_request-Agree last now s u provider count h a = record {
    defaults = a.defaults;
    configs = a.configs;
    running_same = a.running_same;
    times = λ name later l. ground (
      arith,
      get-put s.request_timestamps (lower provider) name
          (timestamps s (lower provider) ++ now ∷ []),
      get-put u.request_timestamps (lower provider) name
          (timestamps u (lower provider) ++ now ∷ []),
      keep-append (recent later) (timestamps s (lower provider)) (now ∷ []),
      keep-append (recent later) (timestamps u (lower provider)) (now ∷ []),
      a.times (lower provider) later,
      a.times name later,
    );
    tokens = λ name later l. ground (
      arith,
      get-put s.token_history (lower provider) name
          (tokens_log s (lower provider) ++ (now, count) ∷ []),
      get-put u.token_history (lower provider) name
          (tokens_log u (lower provider) ++ (now, count) ∷ []),
      keep-append (recent_entry later) (tokens_log s (lower provider)) ((now, count) ∷ []),
      keep-append (recent_entry later) (tokens_log u (lower provider)) ((now, count) ∷ []),
      a.tokens (lower provider) later,
      a.tokens name later,
    );
  }

  -- The count of running requests is written, and nothing else.
  put_running-Agree :
      (last : ℕ) (s u : Limiter) (name : String) (n : ℕ)
      → Agree last s u
      → Agree last
          (record s { concurrent_requests = put s.concurrent_requests name n })
          (record u { concurrent_requests = put u.concurrent_requests name n })
  put_running-Agree last s u name n a = record {
    defaults = a.defaults;
    configs = a.configs;
    running_same = λ j. ground (
      arith,
      get-put s.concurrent_requests name j n,
      get-put u.concurrent_requests name j n,
      a.running_same j,
    );
    times = a.times;
    tokens = a.tokens;
  }

  pub increment-Agree :
      (last : ℕ) (s u : Limiter) (provider : String)
      → Agree last s u
      → Agree last (increment_concurrent lower s provider) (increment_concurrent lower u provider)
  unfolding increment_concurrent
  increment-Agree last s u provider a =
      rw (a.running_same (lower provider))
        (put_running-Agree last s u (lower provider) (running u (lower provider) + 1) a)

  pub decrement-Agree :
      (last : ℕ) (s u : Limiter) (provider : String)
      → Agree last s u
      → Agree last (decrement_concurrent lower s provider) (decrement_concurrent lower u provider)
  unfolding decrement_concurrent
  decrement-Agree last s u provider a =
      rw (a.running_same (lower provider)) (elim (Bool-cases (ltb 0 (running u (lower provider)))) [
        | inl e ↦
            rw e (put_running-Agree last s u (lower provider) (running u (lower provider) - 1) a)
        | inr e ↦ rw e a
      ])

  pub cleared-Agree :
      (last : ℕ) (s u : Limiter)
      → Agree last s u
      → Agree last
          (record s { request_timestamps = []; token_history = []; concurrent_requests = [] })
          (record u { request_timestamps = []; token_history = []; concurrent_requests = [] })
  cleared-Agree last s u a = record {
    defaults = a.defaults;
    configs = a.configs;
    running_same = λ j. refl;
    times = λ j n l. refl;
    tokens = λ j n l. refl;
  }

  pub forget-Agree :
      (last : ℕ) (s u : Limiter) (name : String)
      → Agree last s u
      → Agree last (forget s name) (forget u name)
  forget-Agree last s u name a = record {
    defaults = a.defaults;
    configs = a.configs;
    running_same = λ j. ground (
      arith,
      get-put s.concurrent_requests name j 0,
      get-put u.concurrent_requests name j 0,
      a.running_same j,
    );
    times = λ j n l. ground (
      arith,
      get-put s.request_timestamps name j [],
      get-put u.request_timestamps name j [],
      a.times j n,
    );
    tokens = λ j n l.
        ground (
          arith,
          get-put s.token_history name j [],
          get-put u.token_history name j [],
          a.tokens j n,
        );
  }

  pub configure-Agree :
      (last : ℕ) (s u : Limiter) (provider : String) (config : Config)
      → Agree last s u
      → Agree last
          (configure_provider lower s provider config)
          (configure_provider lower u provider config)
  unfolding configure_provider
  configure-Agree last s u provider config a = record {
    defaults = a.defaults;
    configs = ap (λ (d : Dict String Config). put d (lower provider) config) a.configs;
    running_same = a.running_same;
    times = a.times;
    tokens = a.tokens;
  }
