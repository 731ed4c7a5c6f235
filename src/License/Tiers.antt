-- ===== src/License/Tiers.antt =====
-- A license only adds features to those of its tier, and the quota lets pass as many calls as it says.
use rbitr.Prelude.{
  ℕ, zero, suc, ◌+◌, ◌<◌, String, true, ◌||◌, ◌==◌, eq_iff, ◌≡◌, ◌↔◌, inl, inr, refl, arith,
  Bool-cases, some, [], ◌∷◌, ltb,
}
use rbitr.Json.{pos}
use rbitr.License.{Entitlements, defaults_for_tier, has_feature, merge_over_defaults}
use rbitr.License.Quota.{
  MeterKey, same_meter, Meters, get_usage_meter, set_usage_meter, increment_usage_meter,
  QuotaVerdict, within_quota, after_increment, enforce_usage_quota,
}

-- For every feature: a license with claims has it exactly when its tier has it by default or its
-- claims name it, so that claims never take a feature away.
pub has_feature-merge_over_defaults :
    (tier feature : String) (claims : Entitlements)
    → has_feature (merge_over_defaults tier (some claims)) feature
      ≡ (has_feature (defaults_for_tier tier) feature || has_feature claims feature)
unfolding has_feature merge_over_defaults
has_feature-merge_over_defaults tier feature claims =
    elim (Bool-cases (feature == "approval_workflows")) [
      | inl e ↦ rw e
      | inr n ↦ elim (Bool-cases (feature == "evidence_export")) [
        | inl e ↦ rw (n, e)
        | inr m ↦ elim (Bool-cases (feature == "integrations")) [
          | inl e ↦ rw (n, m, e)
          | inr o ↦ elim (Bool-cases (feature == "custom_policies")) [
            | inl e ↦ rw (n, m, o, e)
            | inr p ↦ rw (n, m, o, p)
          ]
        ]
      ]
    ]

same_meter_self : (k : MeterKey) → same_meter k k ≡ true
same_meter_self k = rw ((eq_iff k.tenant_id k.tenant_id).1 refl, (eq_iff k.period k.period).1 refl)

get-set_usage_meter :
    (k : MeterKey) (n : ℕ) (t : Meters) → get_usage_meter k (set_usage_meter k n t) ≡ n
unfolding get_usage_meter set_usage_meter
get-set_usage_meter k n [] = rw (same_meter_self k)
get-set_usage_meter k n (row ∷ rows) = elim (Bool-cases (same_meter row.0 k)) [
  | inl same ↦ rw (same, get_usage_meter, same)
  | inr other ↦ rw (other, get_usage_meter, other) (get-set_usage_meter k n rows)
]

module _ (e : Entitlements) (k : MeterKey) where
  -- one call of the month, and the table after so many
  abbrev pub charge : Meters → QuotaVerdict × Meters
  charge t = enforce_usage_quota (some e) true true k t

  unfoldable pub after_calls : ℕ → Meters → Meters
  after_calls zero t = t
  after_calls (suc n) t = (charge (after_calls n t)).1

  module _ (m : ℕ) (limited : e.monthly_action_limit ≡ pos m) where
    charge_lem :
        (t : Meters) → charge t ≡ after_increment (pos m) k.period (increment_usage_meter true k t)
    unfolding enforce_usage_quota
    charge_lem t = rw limited

    get-charge : (t : Meters) → get_usage_meter k (charge t).1 ≡ get_usage_meter k t + 1
    unfolding increment_usage_meter
    get-charge t = rw (charge_lem t) (elim (Bool-cases (ltb m (get_usage_meter k t + 1))) [
      | inl over ↦ rw over (get-set_usage_meter k (get_usage_meter k t + 1) t)
      | inr under ↦ rw under (get-set_usage_meter k (get_usage_meter k t + 1) t)
    ])

    get-after_calls :
        (n : ℕ) (t : Meters) → get_usage_meter k (after_calls n t) ≡ get_usage_meter k t + n
    unfolding after_calls
    get-after_calls zero t = omega arith
    get-after_calls (suc n) t = omega (arith, get-charge (after_calls n t), get-after_calls n t)

    within_iff : (t : Meters) → ((charge t).0 ≡ within_quota) ↔ (get_usage_meter k t < m)
    unfolding increment_usage_meter
    within_iff t = rw (charge_lem t) (elim (Bool-cases (ltb m (get_usage_meter k t + 1))) [
      | inl over ↦ rw over (λ h. absurd (cc h), λ h. ground arith)
      | inr under ↦ rw under (λ h. ground arith, λ h. refl)
    ])

    -- Of the calls of a month that are counted from an empty meter, where the license has a limit and
    -- the database answers, the quota lets pass exactly the first ones up to the limit.
    pub enforce_usage_quota_iff :
        (n : ℕ) (t : Meters)
        → get_usage_meter k t ≡ 0
        → ((enforce_usage_quota (some e) true true k (after_calls n t)).0 ≡ within_quota) ↔ (n < m)
    enforce_usage_quota_iff n t empty =
        let used : get_usage_meter k (after_calls n t) ≡ n =
          omega (arith, get-after_calls n t, empty) in
        rw used at (within_iff (after_calls n t))
