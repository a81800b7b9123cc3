-- ===== src/Api/RateLimit.antt =====
-- apps/api/src/nextballup_api/security/rate_limit.py: `enforce_rate_limit`, on the count that the
-- script in Redis answers for the caller's key, None where Redis fails.
use nextballup.Prelude.{ℕ, Bool, true, false, Option, none, some, ltb}
use nextballup.Core.Errors.{ErrorClass, ErrorCode}
use nextballup.Api.Result.{Result, raise_if}

pub record RateLimiter : Type 0 where
  pub redis_url : Bool
  pub fail_closed : Bool
  pub count : Option ℕ

unavailable_if : Bool → Result (Unit {0})
unavailable_if closed =
    raise_if closed ErrorClass.service_unavailable_error ErrorCode.internal_error

unfoldable pub enforce_rate_limit : RateLimiter → ℕ → Result (Unit {0})
unfolding unavailable_if
enforce_rate_limit limiter max_attempts = elim limiter.redis_url [
  | false ↦ unavailable_if limiter.fail_closed
  | true ↦ elim limiter.count [
    | none ↦ unavailable_if limiter.fail_closed
    | some count ↦
        raise_if (ltb max_attempts count) ErrorClass.too_many_requests_error ErrorCode.rate_limited
  ]
]
