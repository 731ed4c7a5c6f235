-- ===== src/Arguments/Enforce.antt =====
-- `enforceArgumentConstraints`. `flag` is the feature switch in the
-- store, with `none` where the store is absent, has no such row or fails; `fallback` is the
-- configuration's.
use Prim.Native.String
use rbitr.Prelude.{
  String, Bool, ◌==◌, if◌then◌else◌, Option, none, some, Map, lookup, insert, List, [], ◌∷◌, ◌++◌,
  Unicode, trim_space,
}
use rbitr.Json.{Value, Members}
use rbitr.Arguments.{
  ArgConstraintRule, ArgConstraintRuleSet, ArgConstraintFailure, ArgConstraintViolation,
  parse_arg_constraint_rule_set,
}
use rbitr.Arguments.Schema.{Matching, matches, differs, invalid}
use rbitr.Arguments.Rules.{match_arg_constraint_rule}

abbrev pub reason_deny : String
reason_deny = "ARG_CONSTRAINT_DENY"

abbrev pub reason_not_allowed : String
reason_not_allowed = "ARG_CONSTRAINT_NOT_ALLOWED"

abbrev pub reason_invalid : String
reason_invalid = "ARG_CONSTRAINT_INVALID_RULE"

-- A loop that collects failures and the first message that is not blank, or stops at an invalid rule.
pub data Scan : Type 0 where
  stopped : ArgConstraintRule → Scan
  scanned : List ArgConstraintFailure → String → Scan

infixl 5 ◌>>=◌
abbrev pub ◌>>=◌ : Scan → (List ArgConstraintFailure → String → Scan) → Scan
stopped rule >>= go = stopped rule
scanned failures message >>= go = go failures message

unfoldable pub scan {ℓ} :
    {A : Type ℓ}
    → (A → List ArgConstraintFailure → String → Scan)
    → List A
    → List ArgConstraintFailure
    → String
    → Scan
scan turn [] failures message = scanned failures message
scan turn (item ∷ items) failures message = turn item failures message >>= scan turn items

unfoldable pub feature_arg_constraints_enabled : Option Bool → Bool → Bool
feature_arg_constraints_enabled none fallback = fallback
feature_arg_constraints_enabled (some enabled) fallback = enabled

abbrev failure_of : ArgConstraintRule → String → ArgConstraintFailure
failure_of rule reason = record {
  path = rule.path;
  op = rule.op;
  reason_code = reason;
  rule_id = rule.id;
}

abbrev failing : ArgConstraintRule → String → List ArgConstraintFailure
failing rule reason = failure_of rule reason ∷ []

abbrev pub invalid_arg_constraint_rule_violation : ArgConstraintRule → ArgConstraintViolation
invalid_arg_constraint_rule_violation rule = record {
  reason_code = reason_invalid;
  message = "Argument constraint rule is invalid";
  failures = failing rule reason_invalid;
}

abbrev unparsed_violation : ArgConstraintViolation
unparsed_violation = record {
  reason_code = reason_invalid;
  message = "Argument constraint rule is invalid";
  failures = [];
}

abbrev pub group_key : ArgConstraintRule → String
group_key rule = String.◌++◌ rule.path (String.◌++◌ "\0" rule.op)

abbrev pub rules_at : Option (List ArgConstraintRule) → List ArgConstraintRule
rules_at none = []
rules_at (some rules) = rules

abbrev pub grouped_with :
    ArgConstraintRule → Map (List ArgConstraintRule) → Map (List ArgConstraintRule)
grouped_with rule groups =
    insert (group_key rule) (rules_at (lookup (group_key rule) groups) ++ rule ∷ []) groups

abbrev pub order_with :
    ArgConstraintRule → Option (List ArgConstraintRule) → List String → List String
order_with rule none order = order ++ group_key rule ∷ []
order_with rule (some rules) order = order

unfoldable pub group_rules :
    List ArgConstraintRule
    → Map (List ArgConstraintRule)
    → List String
    → Map (List ArgConstraintRule) × List String
group_rules [] groups order = (groups, order)
group_rules (rule ∷ rules) groups order =
    group_rules rules (grouped_with rule groups)
      (order_with rule (lookup (group_key rule) groups) order)

unfoldable pub group_allow_constraint_rules :
    List ArgConstraintRule → Map (List ArgConstraintRule) × List String
unfolding group_rules
group_allow_constraint_rules rules = group_rules rules [] []

-- A group is passed by its first rule that matches; an invalid rule before that stops.
pub data GroupOutcome : Type 0 where
  admitted : GroupOutcome
  refused : GroupOutcome
  broken : ArgConstraintRule → GroupOutcome

module _ ⦃u : Unicode⦄ where
  abbrev first_message : String → ArgConstraintRule → String
  first_message message rule = if message == "" then trim_space rule.message else message

  abbrev message_or : String → String → String
  message_or default message = if message == "" then default else message

  module _ (compile : String → Option (String → Bool)) (arguments : Value) where
    abbrev deny_outcome : Matching → ArgConstraintRule → List ArgConstraintFailure → String → Scan
    deny_outcome invalid rule failures message = stopped rule
    deny_outcome differs rule failures message = scanned failures message
    deny_outcome matches rule failures message =
        scanned (failures ++ failing rule reason_deny) (first_message message rule)

    -- one turn of the loop over the deny rules
    unfoldable pub deny_turn : ArgConstraintRule → List ArgConstraintFailure → String → Scan
    deny_turn rule = deny_outcome (match_arg_constraint_rule compile rule arguments) rule

    -- the loop over the rules of a group
    unfoldable pub match_group : List ArgConstraintRule → GroupOutcome
    match_group [] = refused
    match_group (rule ∷ rules) = elim (match_arg_constraint_rule compile rule arguments) [
      | matches ↦ admitted
      | differs ↦ match_group rules
      | invalid ↦ broken rule
    ]

    abbrev group_outcome :
        GroupOutcome → ArgConstraintRule → List ArgConstraintFailure → String → Scan
    group_outcome admitted rule failures message = scanned failures message
    group_outcome (broken bad) rule failures message = stopped bad
    group_outcome refused rule failures message =
        scanned (failures ++ failing rule reason_not_allowed) (first_message message rule)

    abbrev pub check_group : List ArgConstraintRule → List ArgConstraintFailure → String → Scan
    check_group [] failures message = scanned failures message
    check_group (rule ∷ rules) failures message =
        group_outcome (match_group (rule ∷ rules)) rule failures message

    -- one turn of the loop over the groups
    unfoldable pub allow_turn :
        Map (List ArgConstraintRule) → String → List ArgConstraintFailure → String → Scan
    unfolding match_group
    allow_turn groups key = check_group (rules_at (lookup key groups))

    abbrev pub verdict : String → String → Scan → Option ArgConstraintViolation
    verdict reason default (stopped rule) = some (invalid_arg_constraint_rule_violation rule)
    verdict reason default (scanned [] message) = none
    verdict reason default (scanned (first ∷ rest) message) = some (record {
      reason_code = reason;
      message = message_or default message;
      failures = first ∷ rest;
    })

    abbrev pub enforce_allow :
        Map (List ArgConstraintRule) × List String → Option ArgConstraintViolation
    enforce_allow (groups, order) =
        verdict reason_not_allowed "Argument value not allowed by policy constraint"
          (scan (allow_turn groups) order [] "")

    abbrev pub or_next :
        Option ArgConstraintViolation
        → Option ArgConstraintViolation
        → Option ArgConstraintViolation
    or_next none next = next
    or_next (some violation) next = some violation

    -- Without rules both loops end at once, as the early return does.
    unfoldable pub enforce_rules : ArgConstraintRuleSet → Option ArgConstraintViolation
    unfolding scan deny_turn allow_turn group_allow_constraint_rules
    enforce_rules rules =
        or_next
          (verdict reason_deny "Argument value denied by policy constraint"
            (scan deny_turn rules.deny [] ""))
          (enforce_allow (group_allow_constraint_rules rules.allow))

    abbrev pub enforce_parsed : Option ArgConstraintRuleSet → Option ArgConstraintViolation
    enforce_parsed none = some unparsed_violation
    enforce_parsed (some rules) = enforce_rules rules

    unfoldable pub enforce_argument_constraints :
        Option Bool → Bool → Members → Option ArgConstraintViolation
    unfolding feature_arg_constraints_enabled parse_arg_constraint_rule_set enforce_rules
    enforce_argument_constraints flag fallback constraints =
        if feature_arg_constraints_enabled flag fallback
        then enforce_parsed (parse_arg_constraint_rule_set constraints)
        else none
