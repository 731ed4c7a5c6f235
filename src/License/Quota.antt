-- ===== src/License/Quota.antt =====
-- `enforceUsageQuota` over the table usage_meters, a map from tenants and periods to counts.
use rbitr.Prelude.{
  ℕ, ◌+◌, String, Bool, true, false, ◌&&◌, ◌==◌, if◌then◌else◌, ltb, Option, none, some, List, [],
  ◌∷◌,
}
use rbitr.Json.{ℤ, pos, negsuc}
use rbitr.License.{Entitlements, is_unlimited}

pub record MeterKey : Type 0 where
  pub tenant_id : String
  pub period : String

abbrev pub same_meter : MeterKey → MeterKey → Bool
same_meter a b = a.tenant_id == b.tenant_id && a.period == b.period

abbrev pub Meters : Type 0
Meters = List (MeterKey × ℕ)

-- `GetUsageMeter` where the database answers, 0 where there is no row
unfoldable pub get_usage_meter : MeterKey → Meters → ℕ
get_usage_meter k [] = 0
get_usage_meter k (row ∷ rows) = if same_meter row.0 k then row.1 else get_usage_meter k rows

unfoldable pub set_usage_meter : MeterKey → ℕ → Meters → Meters
set_usage_meter k n [] = (k, n) ∷ []
set_usage_meter k n (row ∷ rows) =
    if same_meter row.0 k then (row.0, n) ∷ rows else row ∷ set_usage_meter k n rows

-- The count after the statement, or `none` where the database fails.
unfoldable pub increment_usage_meter : Bool → MeterKey → Meters → Option ℕ × Meters
unfolding get_usage_meter set_usage_meter
increment_usage_meter false k t = (none, t)
increment_usage_meter true k t =
    (some (get_usage_meter k t + 1), set_usage_meter k (get_usage_meter k t + 1) t)

pub record UsageQuotaViolation : Type 0 where
  pub limit : ℤ
  pub used : ℕ
  pub period : String
  pub message : String

-- nil, a violation or an error
pub data QuotaVerdict : Type 0 where
  within_quota : QuotaVerdict
  over_quota : UsageQuotaViolation → QuotaVerdict
  quota_failed : QuotaVerdict

-- `count > limit`
abbrev pub exceeds : ℕ → ℤ → Bool
exceeds n (pos m) = ltb m n
exceeds n (negsuc m) = true

-- after the increment; what the external reporter answers changes nothing
abbrev pub after_increment : ℤ → String → Option ℕ × Meters → QuotaVerdict × Meters
after_increment limit period (none, t) = (quota_failed, t)
after_increment limit period (some n, t) =
    if exceeds n limit
    then (
      over_quota (record {
        limit = limit;
        used = n;
        period = period;
        message = "Monthly action limit exceeded. Upload a license key to remove limits.";
      }),
      t,
    )
    else (within_quota, t)

-- The entitlements where a license provider is set; `stored` says that there is a store.
unfoldable pub enforce_usage_quota :
    Option Entitlements → Bool → Bool → MeterKey → Meters → QuotaVerdict × Meters
unfolding increment_usage_meter
enforce_usage_quota none stored answers k t = (within_quota, t)
enforce_usage_quota (some e) stored answers k t =
    if is_unlimited e.monthly_action_limit
    then (within_quota, t)
    else if stored
    then after_increment e.monthly_action_limit k.period (increment_usage_meter answers k t)
    else (within_quota, t)
