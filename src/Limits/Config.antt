-- ===== src/Limits/Config.antt =====
-- Which limits apply: the tenant's configuration over the system's settings over the defaults, and
-- over these what the policy's constraints say. `parse_int` is strconv.ParseInt in base 10, with
-- `none` for its error.
use rbitr.Prelude.{
  ℕ, ◌%◌, ◌^◌, String, Bool, ◌||◌, ◌&&◌, ◌==◌, if◌then◌else◌, ltb, eqb, Option, none, some, Unicode,
  trim_space,
}
use rbitr.Json.{
  ℤ, pos, Value, text, number, float, float_negative, float_whole, Members, get, object_of,
}
use rbitr.Limits.{RateLimitKey}

pub record RateLimitConfig : Type 0 where
  pub per_minute : ℕ
  pub per_day : ℕ
  pub scope : String

-- What the query of `GetEffectiveRateLimitConfig` returns; a NULL is `none`.
pub record ConfigRow : Type 0 where
  pub tenant_minute : Option ℤ
  pub tenant_day : Option ℤ
  pub tenant_scope : Option String
  pub system_minute : Option String
  pub system_day : Option String
  pub system_scope : Option String

abbrev pub is_rate_limit_scope : String → Bool
is_rate_limit_scope s =
    s == "tenant" || s == "tenant_agent" || s == "tenant_tool" || s == "tenant_agent_tool"

-- a positive number, or none
abbrev pub positive : Option ℤ → Option ℕ
positive (some (pos n)) = if eqb n 0 then none else some n
positive _ = none

abbrev pub or_else {ℓ} : {A : Type ℓ} → Option A → A → A
or_else none d = d
or_else (some a) d = a

-- The scope does not name the action type in any case.
abbrev pub apply_rate_limit_scope : String → RateLimitKey → RateLimitKey
apply_rate_limit_scope scope key =
    if scope == "tenant"
    then record key { agent_id = ""; tool_id = ""; action_type = "" }
    else if scope == "tenant_agent"
    then record key { tool_id = ""; action_type = "" }
    else if scope == "tenant_tool"
    then record key { agent_id = ""; action_type = "" }
    else record key { action_type = "" }

abbrev pub parse_non_negative_int : Value → Option ℕ
parse_non_negative_int (number (pos n)) = if ltb n (2 ^ 63) then some n else none
parse_non_negative_int (float b) =
    if float_negative b && ltb 0 (b % 2 ^ 63) then none else some (float_whole b)
parse_non_negative_int _ = none

pub record PolicyRateLimitOverride : Type 0 where
  pub per_minute : Option ℕ
  pub per_day : Option ℕ
  pub scope : Option String

abbrev pub no_override : PolicyRateLimitOverride
no_override = record { per_minute = none; per_day = none; scope = none }

abbrev pub apply_policy_rate_limit_overrides :
    RateLimitConfig → PolicyRateLimitOverride → RateLimitConfig
apply_policy_rate_limit_overrides c o = record {
  per_minute = or_else o.per_minute c.per_minute;
  per_day = or_else o.per_day c.per_day;
  scope = or_else o.scope c.scope;
}

module _ ⦃u : Unicode⦄ where
  unfoldable pub normalize_rate_limit_scope : Value → Option String
  unfolding trim_space
  normalize_rate_limit_scope (text s) =
      let trimmed = trim_space s in if is_rate_limit_scope trimmed then some trimmed else none
  normalize_rate_limit_scope _ = none

  unfoldable pub parse_policy_rate_limit_override : Members → PolicyRateLimitOverride
  unfolding get normalize_rate_limit_scope
  parse_policy_rate_limit_override constraints = elim (object_of (get "rate_limit" constraints)) [
    | none ↦ no_override
    | some limits ↦ record {
      per_minute = parse_non_negative_int (get "per_minute" limits);
      per_day = parse_non_negative_int (get "per_day" limits);
      scope = normalize_rate_limit_scope (get "scope" limits);
    }
  ]

  parse_optional_scope : Option String → Option String
  unfolding trim_space
  parse_optional_scope none = none
  parse_optional_scope (some s) =
      let scope = trim_space s in
      if is_rate_limit_scope (trim_space scope) then some scope else none

  module _ (parse_int : String → Option ℤ) where
    parse_optional_positive_int : Option String → Option ℕ
    unfolding trim_space
    parse_optional_positive_int none = none
    parse_optional_positive_int (some s) =
        let trimmed = trim_space s in if trimmed == "" then none else positive (parse_int trimmed)

    -- `none` is `ErrNotFound`: the tenant is not there.
    unfoldable pub get_effective_rate_limit_config : Option ConfigRow → Option RateLimitConfig
    unfolding parse_optional_positive_int parse_optional_scope
    get_effective_rate_limit_config none = none
    get_effective_rate_limit_config (some r) = some (record {
      per_minute =
          or_else (positive r.tenant_minute)
            (or_else (parse_optional_positive_int r.system_minute) 60);
      per_day =
          or_else (positive r.tenant_day)
            (or_else (parse_optional_positive_int r.system_day) 10000);
      scope =
          or_else (parse_optional_scope r.tenant_scope)
            (or_else (parse_optional_scope r.system_scope) "tenant_agent_tool");
    })
