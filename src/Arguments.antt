-- ===== src/Arguments.antt =====
-- Argument constraints: what internal/api/public/arg_constraints.go reads from a policy's
-- constraints. The children find values in the arguments, match rules and enforce the rule set.
-- `compile` stands for regexp.Compile: the matcher of a pattern, or `none` for its error.
pub mod Resolve
pub mod Schema
pub mod Rules
pub mod Enforce
pub mod Recorded
pub mod Termination
pub mod Groups
pub mod Enforcement
pub mod Admission
pub mod Pointers
pub mod Numbers
use rbitr.Prelude.{
  String, Bool, true, false, ◌||◌, ◌==◌, not, if◌then◌else◌, Option, none, some, Unicode,
  starts_with, to_lower, trim_space, List,
}
use rbitr.Json.{
  Value, null, text, array, Values, nil, cons, Members, get, has_member, array_of, object_of,
  text_of,
}

pub record ArgConstraintRule : Type 0 where
  pub id : String
  pub path : String
  pub op : String
  pub value : Value
  pub message : String

pub record ArgConstraintRuleSet : Type 0 where
  pub allow : List ArgConstraintRule
  pub deny : List ArgConstraintRule

pub record ArgConstraintFailure : Type 0 where
  pub path : String
  pub op : String
  pub reason_code : String
  pub rule_id : String

pub record ArgConstraintViolation : Type 0 where
  pub reason_code : String
  pub message : String
  pub failures : List ArgConstraintFailure

infixl 5 ◌>>=◌
abbrev pub ◌>>=◌ {ℓ κ} : {A : Type ℓ} {B : Type κ} → Option A → (A → Option B) → Option B
none >>= f = none
some a >>= f = f a

abbrev pub is_op : String → Bool
is_op op =
    op == "eq"
    || op == "prefix"
    || op == "regex"
    || op == "in"
    || op == "contains"
    || op == "jsonschema"

module _ ⦃u : Unicode⦄ where
  abbrev path_text : String → Option String
  path_text path =
      if path == ""
      then none
      else if path == "/"
      then some path
      else if not (starts_with path "/")
      then none
      else some path

  unfoldable pub parse_arg_constraint_path : Value → Option String
  parse_arg_constraint_path (text path) = path_text (trim_space path)
  parse_arg_constraint_path _ = none

  abbrev op_text : String → Option String
  op_text op = if is_op op then some op else none

  unfoldable pub parse_arg_constraint_op : Value → Option String
  parse_arg_constraint_op (text op) = op_text (to_lower (trim_space op))
  parse_arg_constraint_op _ = none

  unfoldable pub parse_string_field : Members → String → String
  parse_string_field m key = if has_member key m then trim_space (text_of (get key m)) else ""

  abbrev rule_name : Members → String
  rule_name raw =
      if parse_string_field raw "id" == ""
      then parse_string_field raw "rule_id"
      else parse_string_field raw "id"

  abbrev rule_with_value : Members → String → String → Option ArgConstraintRule
  rule_with_value raw path op =
      if has_member "value" raw
      then some (record {
        id = rule_name raw;
        path = path;
        op = op;
        value = get "value" raw;
        message = parse_string_field raw "message";
      })
      else none

  unfoldable pub parse_arg_constraint_rule : Members → Option ArgConstraintRule
  unfolding parse_arg_constraint_path parse_arg_constraint_op parse_string_field
  parse_arg_constraint_rule raw = do
    path ← parse_arg_constraint_path (get "path" raw)
    op ← parse_arg_constraint_op (get "op" raw)
    rule_with_value raw path op

  -- the loop of `parse_arg_constraint_rule_list`
  unfoldable pub parse_rules : Values → Option (List ArgConstraintRule)
  unfolding parse_arg_constraint_rule
  parse_rules nil = some List.[]
  parse_rules (cons item items) = do
    raw ← object_of item
    rule ← parse_arg_constraint_rule raw
    rules ← parse_rules items
    some (List.◌∷◌ rule rules)

  unfoldable pub parse_arg_constraint_rule_list : Value → Option (List ArgConstraintRule)
  unfolding parse_rules
  parse_arg_constraint_rule_list null = some List.[]
  parse_arg_constraint_rule_list (array items) = parse_rules items
  parse_arg_constraint_rule_list _ = none

  unfoldable pub parse_arg_constraint_rule_set : Members → Option ArgConstraintRuleSet
  unfolding parse_arg_constraint_rule_list
  parse_arg_constraint_rule_set constraints =
      if has_member "args" constraints
      then (do
        args ← object_of (get "args" constraints)
        allow ← parse_arg_constraint_rule_list (get "allow" args)
        deny ← parse_arg_constraint_rule_list (get "deny" args)
        some (record { allow = allow; deny = deny }))
      else some (record { allow = List.[]; deny = List.[] })
