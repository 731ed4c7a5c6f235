-- ===== src/Policy.antt =====
-- The policies that decide a tool call: internal/policy and internal/opa.
pub mod Base
pub mod Opa
pub mod Evaluate
pub mod Enforced
pub mod Winner
pub mod Cached
use rbitr.Prelude.{String, List, Bool, ◌==◌, ◌||◌}
use rbitr.Approval.{DecisionReason}
use rbitr.Json.{ℤ, Members}

pub record Rule : Type 0 where
  pub id : String
  pub priority : ℤ

pub record MatchedRule : Type 0 where
  pub rule_id : String
  pub priority : ℤ
  pub effect : String
  pub reasons : List DecisionReason
  pub constraints_summary : Members

-- `opa.Result`; `policy.Result` has the version of the policy in addition.
pub record Decision : Type 0 where
  pub version : String
  pub decision : String
  pub risk : String
  pub rule : Rule
  pub reasons : List DecisionReason
  pub constraints : Members
  pub tags : List String
  pub matched_rules : List MatchedRule

pub record Result : Type 0 where
  pub version : String
  pub decision : String
  pub risk : String
  pub rule : Rule
  pub reasons : List DecisionReason
  pub constraints : Members
  pub tags : List String
  pub matched_rules : List MatchedRule
  pub policy_version : String

abbrev pub is_decision_allowed : String → Bool
is_decision_allowed d = d == "ALLOW" || d == "DENY" || d == "REQUIRE_APPROVAL"

abbrev pub is_risk_allowed : String → Bool
is_risk_allowed r = r == "LOW" || r == "MEDIUM" || r == "HIGH" || r == "CRITICAL"
