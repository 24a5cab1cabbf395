-- ===== src/Tests/RateLimit.antt =====
-- The rate limiter at concrete times.
use address_monitor.Prelude.{
  ◌≡◌, ◌≤◌, refl, ℕ, true, false, List, [], ◌∷◌, Text, bytes, text_eq, if◌then◌else◌, select,
  length, arith,
}
use address_monitor.Api.RateLimit.{RateLimiter, new_rate_limiter, allow, is_recent}
use address_monitor.Api.RateLimit.Laws.{IsReached, fresh, accepted, refused, within_limit}

abbrev key : Text
key = bytes "k"

-- One request a minute: the second, five seconds later, is refused.
abbrev first_call : RateLimiter
first_call = (allow key 5 (new_rate_limiter 1 60)).1

abbrev second_call : RateLimiter
second_call = (allow key 10 first_call).1

abbrev passed : Text → List ℕ
passed k = if text_eq key k then 5 ∷ [] else []

first_accepted : (allow key 5 (new_rate_limiter 1 60)).0 ≡ true
unfolding allow new_rate_limiter
first_accepted = refl

second_refused : (allow key 10 first_call).0 ≡ false
unfolding allow new_rate_limiter text_eq
second_refused = refl

second_call-IsReached : IsReached 1 60 second_call passed 10
second_call-IsReached =
    refused first_call passed 5 10 key
      (accepted (new_rate_limiter 1 60) (λ k. []) 0 5 key fresh (omega arith) first_accepted)
      (omega arith) second_refused

within_limit_example : length (select (is_recent 60 12) (passed key)) ≤ 1
within_limit_example =
    within_limit 1 60 second_call passed 10 12 key second_call-IsReached (omega arith)
