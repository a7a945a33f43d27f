-- ===== src/RateLimiter/Windows.antt =====
-- What a passed check of core/reasoning/rate_limiter.py guarantees about the last minute.
use jarvis.Prelude.{
  refl, suc, ℕ, string_eq, String, List, keep, ◌++◌, ◌≡◌, Bool, ◌+◌, ◌∷◌, ok, arith, ◌≤◌, length,
  keep-append, [], ◌<◌, length-append,
}
use jarvis.Prelude.Dict.{put, get-put_self}
use jarvis.RateLimiter.{
  Limiter, recent, recent_entry, timestamps, tokens_log, running, total, get_config,
  check_rate_limits, record_request, increment_concurrent,
}

keep-keep_self {ℓ} : {A : Type ℓ} (p : A → Bool) (xs : List A) → keep p (keep p xs) ≡ keep p xs
unfolding keep
keep-keep_self p [] = refl
keep-keep_self p (x ∷ xs) = ground (arith, keep-keep_self p xs)

total-append : (xs ys : List (ℕ × ℕ)) → total (xs ++ ys) ≡ total xs + total ys
unfolding total
total-append [] ys = omega arith
total-append (x ∷ xs) ys = omega (arith, total-append xs ys)

window_of_one :
    (now : ℕ) (ts : List ℕ)
    → length (keep (recent now) (keep (recent now) ts ++ now ∷ []))
      ≡ suc (length (keep (recent now) ts))
unfolding keep
window_of_one now ts = rw (keep-append, keep-keep_self, length-append) (ground arith)

window_total_of_one :
    (now : ℕ) (log : List (ℕ × ℕ)) (count : ℕ)
    → total (keep (recent_entry now) (keep (recent_entry now) log ++ (now, count) ∷ []))
      ≡ total (keep (recent_entry now) log) + count
unfolding keep total
window_total_of_one now log count = rw (keep-append, keep-keep_self, total-append) (ground arith)

module _ (lower : String → String) where
  -- What a passed check found, and the state that it leaves.
  pub check_rate_limits-ok :
      (now : ℕ) (s : Limiter) (provider : String) (estimated_tokens : ℕ)
      → (check_rate_limits lower now s provider estimated_tokens).0 ≡ ok tt
      → let name = lower provider in
        let config = get_config lower s name in
        let kept = keep (recent now) (timestamps s name) in
        let log = keep (recent_entry now) (tokens_log s name) in
        ((check_rate_limits lower now s provider estimated_tokens).1 ≡ record s {
          request_timestamps = put s.request_timestamps name kept;
          token_history = put s.token_history name log;
        })
        × (length kept < config.rpm)
        × (total log + estimated_tokens ≤ config.tpm)
        × (running s name < config.max_concurrent)
  unfolding check_rate_limits
  check_rate_limits-ok now s provider est passed = ground arith

  record_request-logs :
      (now : ℕ) (s : Limiter) (provider : String) (count : ℕ)
      → (timestamps (record_request lower now s provider count) (lower provider)
          ≡ timestamps s (lower provider) ++ now ∷ [])
        × (tokens_log (record_request lower now s provider count) (lower provider)
            ≡ tokens_log s (lower provider) ++ (now, count) ∷ [])
        × (running (record_request lower now s provider count) (lower provider)
            ≡ running s (lower provider))
  unfolding record_request
  record_request-logs now s provider count = (rw get-put_self, rw get-put_self, refl)

  running-increment :
      (s : Limiter) (provider : String)
      → running (increment_concurrent lower s provider) (lower provider)
        ≡ running s (lower provider) + 1
  unfolding increment_concurrent
  running-increment s provider = rw get-put_self

  -- A request that a check has just let through and that is then recorded, with no more tokens than
  -- were estimated, keeps its provider within its limits: in the minute up to now there are at most
  -- `rpm` requests and `tpm` tokens, and with it at most `max_concurrent` requests run at once.
  pub check_rate_limits-within :
      (now : ℕ) (s : Limiter) (provider : String) (estimated_tokens token_count : ℕ)
      → (check_rate_limits lower now s provider estimated_tokens).0 ≡ ok tt
      → token_count ≤ estimated_tokens
      → let checked = (check_rate_limits lower now s provider estimated_tokens).1 in
        let recorded = record_request lower now checked provider token_count in
        let name = lower provider in
        let config = get_config lower s name in
        (length (keep (recent now) (timestamps recorded name)) ≤ config.rpm)
        × (total (keep (recent_entry now) (tokens_log recorded name)) ≤ config.tpm)
        × (running (increment_concurrent lower recorded provider) name ≤ config.max_concurrent)
  check_rate_limits-within now s provider est count passed fits =
      let (left, few, small, idle) = check_rate_limits-ok now s provider est passed in
      let checked = (check_rate_limits lower now s provider est).1 in
      let name = lower provider in
      let recorded = record_request lower now checked provider count in
      let (ts, log, run) = record_request-logs now checked provider count in
      let kept : timestamps checked name ≡ keep (recent now) (timestamps s name) =
        rw left (rw get-put_self) in
      let entries : tokens_log checked name ≡ keep (recent_entry now) (tokens_log s name) =
        rw left (rw get-put_self) in
      let before : running checked name ≡ running s name = rw left in
      (
        rw (ts, kept, window_of_one now (timestamps s name)) few,
        rw (log, entries) (omega (arith, window_total_of_one now (tokens_log s name) count)),
        omega (arith, running-increment recorded provider, run, before),
      )
