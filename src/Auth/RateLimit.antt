-- ===== src/Auth/RateLimit.antt =====
-- apps/api/src/modules/auth/rate_limit.py: the sliding window of the requests of one client to one
-- endpoint. The clock is `time.monotonic`, so it never goes back.
pub mod Window
use campus_agent.Base.{
  ℕ, ◌+◌, ◌≤◌, ◌<◌, ◌≡◌, refl, Bool, true, false, not, List, [], ◌∷◌, ◌++◌, if◌then◌else◌, ltb, leb,
  length, select, count_if, arith, Bool-cases, inl, inr, String,
}
use campus_agent.Base.Table.{length-select, count_if-append}
use text.Mathlib.Text.{◌==◌ as str_eq}

-- The limiter: its settings, and the times of the requests that were let through, under each key.
pub record RateLimiter : Type 0 where
  pub max_requests : ℕ
  pub window_seconds : ℕ
  pub timestamps : String → List ℕ

-- `RateLimiter(max_requests, window_seconds)`
abbrev pub new_limiter : ℕ → ℕ → RateLimiter
new_limiter max_requests window_seconds = record {
  max_requests = max_requests;
  window_seconds = window_seconds;
  timestamps = λ _. [];
}

-- `t > now - window`, written without the subtraction.
abbrev pub in_window : ℕ → ℕ → ℕ → Bool
in_window now window t = ltb now (t + window)

abbrev pub put : String → List ℕ → RateLimiter → RateLimiter
put key times r = record r { timestamps = λ k. if str_eq k key then times else r.timestamps k }

-- The answer and the limiter after it; `key` is the endpoint and the address.
unfoldable pub is_allowed : String → ℕ → RateLimiter → Bool × RateLimiter
is_allowed key now r =
    let kept = select (in_window now r.window_seconds) (r.timestamps key) in
    if leb r.max_requests (length kept)
    then (false, put key kept r)
    else (true, put key (kept ++ now ∷ []) r)

abbrev pub reset : RateLimiter → RateLimiter
reset r = record r { timestamps = λ _. [] }
