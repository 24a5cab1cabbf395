-- ===== src/Api/RateLimit.antt =====
-- internal/api/middleware/ratelimit.go. Times are ns since some start, and a window that begins
-- before it takes all of them.
pub mod Laws
use address_monitor.Prelude.{
  ℕ, ◌+◌, Bool, true, false, List, [], ◌∷◌, ◌++◌, Text, text_eq, is_empty_text, if◌then◌else◌, ltb,
  leb, select, length,
}

-- rateLimiter
pub record RateLimiter : Type 0 where
  pub requests : Text → List ℕ
  pub limit : ℕ
  pub window : ℕ

unfoldable pub new_rate_limiter : ℕ → ℕ → RateLimiter
new_rate_limiter limit window = record { requests = λ k. []; limit = limit; window = window }

-- t.After(now.Add(-window))
abbrev pub is_recent : ℕ → ℕ → ℕ → Bool
is_recent window now t = ltb now (t + window)

abbrev pub set_requests : Text → List ℕ → RateLimiter → RateLimiter
set_requests key times r = record r {
  requests = λ k. if text_eq key k then times else r.requests k;
}

unfoldable pub allow : Text → ℕ → RateLimiter → Bool × RateLimiter
allow key now r =
    let valid = select (is_recent r.window now) (r.requests key) in
    if leb r.limit (length valid)
    then (false, set_requests key valid r)
    else (true, set_requests key (valid ++ now ∷ []) r)

-- The key of RateLimit: the header X-API-Key, or the client's address without one.
unfoldable pub limit_key : Text → Text → Text
limit_key header client_ip = if is_empty_text header then client_ip else header
