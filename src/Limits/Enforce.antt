-- ===== src/Limits/Enforce.antt =====
-- `enforceRateLimit`. Whether the limits are switched on, and how the database answers, are
-- arguments: `config_answers` for the query of the configuration and `answers` for the increments.
use rbitr.Prelude.{
  ℕ, ◌+◌, ◌-◌, ◌*◌, ◌/◌, ◌%◌, ◌^◌, String, Bool, true, false, if◌then◌else◌, ltb, Option, Unicode,
}
use rbitr.Json.{ℤ, Members}
use rbitr.Limits.{
  RateLimitKey, Counters, Increment, counted, counter_failed, increment_rate_limit_counter,
}
use rbitr.Limits.Config.{
  RateLimitConfig, ConfigRow, or_else, apply_rate_limit_scope, apply_policy_rate_limit_overrides,
  parse_policy_rate_limit_override, get_effective_rate_limit_config,
}

pub record RateLimitViolation : Type 0 where
  pub window : String
  pub limit : ℕ
  pub remaining : ℕ
  pub retry_after_seconds : ℕ
  pub scope : String

-- nil, a violation, or an error.
pub data Verdict : Type 0 where
  within : Verdict
  violates : RateLimitViolation → Verdict
  check_failed : Verdict

-- a minute and a day in nanoseconds
abbrev pub minute : ℕ
minute = 60 * 10 ^ 9

abbrev pub day : ℕ
day = 86400 * 10 ^ 9

abbrev pub second : ℕ
second = 10 ^ 9

abbrev pub minute_bucket_start : ℕ → ℕ
minute_bucket_start now = now - now % minute

abbrev pub day_bucket_start : ℕ → ℕ
day_bucket_start now = now - now % day

-- `math.Ceil` of the seconds
abbrev pub ceil_seconds : ℕ → ℕ
ceil_seconds d = (d + (second - 1)) / second

abbrev pub seconds_until_next_minute : ℕ → ℕ
seconds_until_next_minute now = ceil_seconds (minute_bucket_start now + minute - now)

abbrev pub seconds_until_next_day : ℕ → ℕ
seconds_until_next_day now = ceil_seconds (day_bucket_start now + day - now)

abbrev pub default_config : RateLimitConfig
default_config = record { per_minute = 60; per_day = 10000; scope = "tenant_agent_tool" }

abbrev violation : String → ℕ → ℕ → String → Verdict
violation window limit retry scope = violates (record {
  window = window;
  limit = limit;
  remaining = 0;
  retry_after_seconds = retry;
  scope = scope;
})

-- after the increment of the day's counter
unfoldable pub after_day : RateLimitConfig → ℕ → Increment × Counters → Verdict × Counters
after_day c now (counter_failed, t) = (check_failed, t)
after_day c now (counted true n, t) = (within, t)
after_day c now (counted false n, t) =
    (violation "day" c.per_day (seconds_until_next_day now) c.scope, t)

unfoldable pub check_day : Bool → RateLimitConfig → RateLimitKey → ℕ → Counters → Verdict × Counters
check_day answers c key now t =
    if ltb 0 c.per_day
    then after_day c now (
        increment_rate_limit_counter answers
          (record { key = key; window = "day"; bucket_start = day_bucket_start now }) c.per_day t)
    else (within, t)

-- after the increment of the minute's counter
unfoldable pub after_minute :
    Bool → RateLimitConfig → RateLimitKey → ℕ → Increment × Counters → Verdict × Counters
after_minute answers c key now (counter_failed, t) = (check_failed, t)
after_minute answers c key now (counted true n, t) = check_day answers c key now t
after_minute answers c key now (counted false n, t) =
    (violation "minute" c.per_minute (seconds_until_next_minute now) c.scope, t)

unfoldable pub check_minute :
    Bool → RateLimitConfig → RateLimitKey → ℕ → Counters → Verdict × Counters
check_minute answers c key now t =
    if ltb 0 c.per_minute
    then after_minute answers c key now (
        increment_rate_limit_counter answers
          (record { key = key; window = "minute"; bucket_start = minute_bucket_start now })
          c.per_minute t)
    else check_day answers c key now t

module _ ⦃u : Unicode⦄ (parse_int : String → Option ℤ) where
  unfoldable pub enforce_rate_limit :
      Bool
      → Bool
      → Bool
      → Option ConfigRow
      → RateLimitKey
      → Members
      → ℕ
      → Counters
      → Verdict × Counters
  enforce_rate_limit enabled config_answers answers row call constraints now t =
      let base = or_else (get_effective_rate_limit_config parse_int row) default_config in
      let c =
        apply_policy_rate_limit_overrides base (parse_policy_rate_limit_override constraints) in
      if enabled
      then (if config_answers
          then check_minute answers c (apply_rate_limit_scope c.scope call) now t
          else (check_failed, t))
      else (within, t)
