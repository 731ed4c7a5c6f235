-- ===== src/Examples/Limited.antt =====
-- Rate limits at work.
use rbitr.Prelude.{◌*◌, ◌≡◌, ◌⊎◌, refl, true, none, List, [], ◌∷◌, arith, Unicode, ascii}
use rbitr.Json.{end}
use rbitr.Limits.{
  RateLimitKey, CounterKey, Counters, count, set_count, increment_rate_limit_counter,
}
use rbitr.Limits.Config.{
  RateLimitConfig, get_effective_rate_limit_config, parse_policy_rate_limit_override,
}
use rbitr.Limits.Enforce.{
  RateLimitViolation, within, second, after_day, check_day, after_minute, check_minute,
  enforce_rate_limit,
}
use rbitr.Limits.Counts.{Attempt, admitted, attempts, admitted-min}
use rbitr.Limits.Violations.{IsMinuteFull, IsDayFull, check_minute-full}

abbrev call : RateLimitKey
call = record { tenant_id = "acme"; agent_id = "agent"; tool_id = "crm"; action_type = "" }

abbrev this_minute : CounterKey
this_minute = record { key = call; window = "minute"; bucket_start = 0 }

abbrev this_day : CounterKey
this_day = record { key = call; window = "day"; bucket_start = 0 }

-- three calls, and one of the day's counter between them
abbrev burst : List Attempt
burst = (this_minute, 2) ∷ (this_day, 9) ∷ (this_minute, 2) ∷ (this_minute, 2) ∷ []

admitted-min_example : admitted this_minute burst [] ≡ 2
unfolding count attempts
admitted-min_example =
    admitted-min this_minute 1 burst []
      ((λ e. refl), ((λ e. ground arith), ((λ e. refl), ((λ e. refl), tt)))) (omega arith)

abbrev strict : RateLimitConfig
strict = record { per_minute = 1; per_day = 10; scope = "tenant_agent_tool" }

abbrev used : Counters
used = (this_minute, 1) ∷ []

abbrev too_fast : RateLimitViolation
too_fast = record {
  window = "minute";
  limit = 1;
  remaining = 0;
  retry_after_seconds = 58;
  scope = "tenant_agent_tool";
}

check_minute-full_example :
    IsMinuteFull strict call (2 * second) used too_fast
    ⊎ IsDayFull strict call (2 * second) used too_fast
unfolding check_minute after_minute increment_rate_limit_counter count
check_minute-full_example = check_minute-full strict call (2 * second) true used too_fast refl

instance unaccented : Unicode
unaccented = ascii

-- without a configuration of its own a tenant has the defaults, and its first call is counted
first_call :
    enforce_rate_limit (λ s. none) true true true none call end second []
    ≡ (within, (this_minute, 1) ∷ (this_day, 1) ∷ [])
unfolding enforce_rate_limit get_effective_rate_limit_config parse_policy_rate_limit_override
    check_minute after_minute check_day after_day increment_rate_limit_counter count set_count
first_call = refl
