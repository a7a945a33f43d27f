-- ===== src/RateLimiter.antt =====
-- core/reasoning/rate_limiter.py: sliding windows of requests and tokens for each model provider.
-- Instants are whole microseconds of `time.time()` and reach an operation as an argument, and
-- `lower` stands for `str.lower`.
pub mod Windows
pub mod Agreement
pub mod History
use jarvis.Prelude.{
  string_eq, String, [], ℕ, List, Option, ◌+◌, ◌++◌, Bool, some, if◌then◌else◌, Result, ◌∷◌, ltb,
  ◌==◌, keep, leb, ◌-◌, length, raise, ok, none,
}
use jarvis.Prelude.Dict.{Dict, get, put}

pub data RateLimitError : Type 0 where
  concurrent rpm tpm : RateLimitError

pub record Config : Type 0 where
  pub rpm : ℕ
  pub tpm : ℕ
  pub max_concurrent : ℕ

pub record Limiter : Type 0 where
  pub defaults : Config
  pub configs : Dict String Config
  pub request_timestamps : Dict String (List ℕ)
  pub token_history : Dict String (List (ℕ × ℕ))
  pub concurrent_requests : Dict String ℕ

abbrev pub fresh : Config → Limiter
fresh defaults = record {
  defaults = defaults;
  configs = [];
  request_timestamps = [];
  token_history = [];
  concurrent_requests = [];
}

abbrev pub minute : ℕ
minute = 60_000_000

-- now - ts < 60
abbrev pub recent : (now ts : ℕ) → Bool
recent now ts = ltb now (ts + minute)

abbrev pub recent_entry : (now : ℕ) → ℕ × ℕ → Bool
recent_entry now entry = recent now entry.0

abbrev pub or_default {ℓ} : {A : Type ℓ} → A → Option A → A
or_default d none = d
or_default d (some a) = a

-- sum(entry[1] for entry in tokens_log)
unfoldable pub total : List (ℕ × ℕ) → ℕ
total [] = 0
total ((ts, tokens) ∷ log) = tokens + total log

abbrev pub timestamps : Limiter → String → List ℕ
timestamps s name = or_default [] (get s.request_timestamps name)

abbrev pub tokens_log : Limiter → String → List (ℕ × ℕ)
tokens_log s name = or_default [] (get s.token_history name)

abbrev pub running : Limiter → String → ℕ
running s name = or_default 0 (get s.concurrent_requests name)

abbrev pub forget : Limiter → String → Limiter
forget s name = record s {
  request_timestamps = put s.request_timestamps name [];
  token_history = put s.token_history name [];
  concurrent_requests = put s.concurrent_requests name 0;
}

module _ (lower : String → String) where
  unfoldable pub configure_provider : Limiter → String → Config → Limiter
  configure_provider s provider config = record s {
    configs = put s.configs (lower provider) config;
  }

  unfoldable pub get_config : Limiter → String → Config
  get_config s provider = or_default s.defaults (get s.configs (lower provider))

  check_tokens :
      (now : ℕ)
      → Limiter
      → (name : String) → Config
      → (estimated_tokens : ℕ) → Result RateLimitError (Unit {0}) × Limiter
  check_tokens now s name config estimated_tokens =
      let log = keep (recent_entry now) (tokens_log s name) in
      (
        if ltb config.tpm (total log + estimated_tokens) then raise tpm else ok tt,
        record s { token_history = put s.token_history name log },
      )

  check_requests :
      (now : ℕ)
      → Limiter
      → (name : String) → Config
      → (estimated_tokens : ℕ) → Result RateLimitError (Unit {0}) × Limiter
  unfolding check_tokens
  check_requests now s name config estimated_tokens =
      let kept = keep (recent now) (timestamps s name) in
      let s' : Limiter = record s { request_timestamps = put s.request_timestamps name kept } in
      if leb config.rpm (length kept)
      then (raise rpm, s')
      else check_tokens now s' name config estimated_tokens

  unfoldable pub check_rate_limits :
      (now : ℕ)
      → Limiter
      → (provider : String) (estimated_tokens : ℕ) → Result RateLimitError (Unit {0}) × Limiter
  unfolding check_requests get_config
  check_rate_limits now s provider estimated_tokens =
      let name = lower provider in
      let config = get_config s name in
      if leb config.max_concurrent (running s name)
      then (raise concurrent, s)
      else check_requests now s name config estimated_tokens

  unfoldable pub record_request : (now : ℕ) → Limiter → String → (token_count : ℕ) → Limiter
  record_request now s provider token_count =
      let name = lower provider in
      record s {
        request_timestamps = put s.request_timestamps name (timestamps s name ++ now ∷ []);
        token_history = put s.token_history name (tokens_log s name ++ (now, token_count) ∷ []);
      }

  unfoldable pub increment_concurrent : Limiter → String → Limiter
  increment_concurrent s provider =
      let name = lower provider in
      record s { concurrent_requests = put s.concurrent_requests name (running s name + 1) }

  unfoldable pub decrement_concurrent : Limiter → String → Limiter
  decrement_concurrent s provider =
      let name = lower provider in
      if ltb 0 (running s name)
      then record s { concurrent_requests = put s.concurrent_requests name (running s name - 1) }
      else s

  -- `if provider_name`: no name and the empty name both reset every provider.
  unfoldable pub reset : Limiter → Option String → Limiter
  reset s none = record s { request_timestamps = []; token_history = []; concurrent_requests = [] }
  reset s (some provider) =
      if provider == ""
      then record s { request_timestamps = []; token_history = []; concurrent_requests = [] }
      else forget s (lower provider)
