-- ===== src/Samples/Limits.antt =====
-- Runs of core/reasoning/rate_limiter.py.
use jarvis.Prelude.{
  String, [], ◌∷◌, ok, refl, nat_eq, string_eq, List, arith, ◌≡◌, keep, length, ◌≤◌,
}
use jarvis.Prelude.Dict.{get, put}
use jarvis.RateLimiter.{
  Limiter, Config, fresh, recent, recent_entry, timestamps, tokens_log, running, total, get_config,
  check_rate_limits, record_request, increment_concurrent,
}
use jarvis.RateLimiter.Windows.{check_rate_limits-within}
use jarvis.RateLimiter.History.{
  Call, check, record_use, increment, answers, spec_answers, answers-spec,
}

abbrev lower : String → String
lower name = name

abbrev limits : Config
limits = record { rpm = 2; tpm = 100; max_concurrent = 1 }

abbrev used : Limiter
used = record (fresh limits) {
  request_timestamps = ("p", 5 ∷ []) ∷ [];
  token_history = ("p", (5, 40) ∷ []) ∷ [];
}

check_rate_limits-used : (check_rate_limits lower 6 used "p" 50).0 ≡ ok tt
unfolding check_rate_limits get total keep put
check_rate_limits-used = refl

check_rate_limits-within_example :
    let checked = (check_rate_limits lower 6 used "p" 50).1 in
    let recorded = record_request lower 6 checked "p" 45 in
    let name = lower "p" in
    let config = get_config lower used name in
    (length (keep (recent 6) (timestamps recorded name)) ≤ config.rpm)
    × (total (keep (recent_entry 6) (tokens_log recorded name)) ≤ config.tpm)
    × (running (increment_concurrent lower recorded "p") name ≤ config.max_concurrent)
check_rate_limits-within_example =
    check_rate_limits-within lower 6 used "p" 50 45 check_rate_limits-used (omega arith)

abbrev calls : List Call
calls = record_use 1 "p" 40 ∷ check 2 "p" 70 ∷ increment "p" ∷ check 70_000_000 "p" 70 ∷ []

answers-spec_example : answers lower (fresh limits) calls ≡ spec_answers lower (fresh limits) calls
answers-spec_example = answers-spec lower 0 (fresh limits) calls (omega arith)
