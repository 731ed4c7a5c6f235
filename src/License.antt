-- ===== src/License.antt =====
-- What a license allows: internal/license/entitlements.go, the check of a feature in
-- internal/api/public/license_check.go, and the monthly quota of internal/api/public/usage_quota.go
-- over the meters of internal/store/store_usage.go.
pub mod Quota
pub mod Tiers
use rbitr.Prelude.{
  ℕ, ◌+◌, ◌-◌, ◌/◌, ◌*◌, ◌^◌, String, Bool, true, false, ◌||◌, ◌==◌, not, if◌then◌else◌, ltb, eqb,
  Option, none, some,
}
use rbitr.Json.{ℤ, pos, negsuc}

pub record Entitlements : Type 0 where
  pub tier : String
  pub max_tenants : ℤ
  pub max_agents_per_tenant : ℤ
  pub max_active_keys : ℤ
  pub monthly_action_limit : ℤ
  pub audit_retention_days : ℤ
  pub approval_workflows : Bool
  pub evidence_export : Bool
  pub integrations : Bool
  pub custom_policies : Bool

-- `Unlimited`, -1
abbrev pub unlimited : ℤ
unlimited = negsuc 0

abbrev pub free_tier_defaults : Entitlements
free_tier_defaults = record {
  tier = "free";
  max_tenants = pos 1;
  max_agents_per_tenant = pos 1;
  max_active_keys = pos 1;
  monthly_action_limit = pos 10000;
  audit_retention_days = pos 7;
  approval_workflows = false;
  evidence_export = false;
  integrations = false;
  custom_policies = true;
}

abbrev everything : String → Entitlements
everything tier = record {
  tier = tier;
  max_tenants = unlimited;
  max_agents_per_tenant = unlimited;
  max_active_keys = unlimited;
  monthly_action_limit = unlimited;
  audit_retention_days = unlimited;
  approval_workflows = true;
  evidence_export = true;
  integrations = true;
  custom_policies = true;
}

abbrev pub paid_tier_defaults : Entitlements
paid_tier_defaults = everything "paid"

abbrev pub trial_tier_defaults : Entitlements
trial_tier_defaults = everything "trial"

unfoldable pub defaults_for_tier : String → Entitlements
defaults_for_tier tier =
    if tier == "paid"
    then paid_tier_defaults
    else if tier == "trial"
    then trial_tier_defaults
    else free_tier_defaults

unfoldable pub has_feature : Entitlements → String → Bool
has_feature e feature =
    if feature == "approval_workflows"
    then e.approval_workflows
    else if feature == "evidence_export"
    then e.evidence_export
    else if feature == "integrations"
    then e.integrations
    else if feature == "custom_policies"
    then e.custom_policies
    else false

abbrev pub is_unlimited : ℤ → Bool
is_unlimited (pos n) = false
is_unlimited (negsuc n) = eqb n 0

-- a claim of 0 stands for one that is not made
abbrev pub claim_or : ℤ → ℤ → ℤ
claim_or (negsuc n) default = negsuc n
claim_or (pos n) default = if eqb n 0 then default else pos n

abbrev merged : String → Entitlements → Entitlements → Entitlements
merged tier defaults claims = record {
  tier = tier;
  max_tenants = claim_or claims.max_tenants defaults.max_tenants;
  max_agents_per_tenant = claim_or claims.max_agents_per_tenant defaults.max_agents_per_tenant;
  max_active_keys = claim_or claims.max_active_keys defaults.max_active_keys;
  monthly_action_limit = claim_or claims.monthly_action_limit defaults.monthly_action_limit;
  audit_retention_days = claim_or claims.audit_retention_days defaults.audit_retention_days;
  approval_workflows = defaults.approval_workflows || claims.approval_workflows;
  evidence_export = defaults.evidence_export || claims.evidence_export;
  integrations = defaults.integrations || claims.integrations;
  custom_policies = defaults.custom_policies || claims.custom_policies;
}

unfoldable pub merge_over_defaults : String → Option Entitlements → Entitlements
unfolding defaults_for_tier
merge_over_defaults tier none = defaults_for_tier tier
merge_over_defaults tier (some claims) = merged tier (defaults_for_tier tier) claims

-- The fields of `LicenseInfo` that are read; the zero time is `none`.
pub record LicenseInfo : Type 0 where
  pub tier : String
  pub trial_expires_at : Option ℕ
  pub entitlements : Entitlements

abbrev before : ℕ → Option ℕ → Bool
before now none = false
before now (some t) = ltb now t

unfoldable pub is_trial_active : LicenseInfo → ℕ → Bool
is_trial_active info now =
    if not (info.tier == "free") then false else before now info.trial_expires_at

-- the hours of a day in nanoseconds
abbrev days_until : ℕ → Option ℕ → ℕ
days_until now none = 0
days_until now (some t) = (t - now) / (24 * 3600 * 10 ^ 9)

unfoldable pub trial_days_remaining : LicenseInfo → ℕ → ℕ
unfolding is_trial_active
trial_days_remaining info now =
    if not (is_trial_active info now) then 0 else days_until now info.trial_expires_at

unfoldable pub has_feature_access : LicenseInfo → String → ℕ → Bool
unfolding has_feature is_trial_active
has_feature_access info feature now =
    if info.tier == "paid"
    then has_feature info.entitlements feature
    else if is_trial_active info now
    then true
    else has_feature info.entitlements feature

-- The entitlements of the license provider, where there is one; the answer is a message, or empty.
unfoldable pub check_feature_access : Option Entitlements → String → String
unfolding has_feature
check_feature_access none feature = ""
check_feature_access (some e) feature =
    if has_feature e feature
    then ""
    else if e.tier == "trial"
    then "Your trial license has expired. Upload a paid license key to continue using premium features."
    else "This feature is not available on the free tier. Upload a trial or paid license key to unlock."
