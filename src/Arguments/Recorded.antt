-- ===== src/Arguments/Recorded.antt =====
-- How a violation of an argument constraint is recorded, and how the arguments of a REST call are read.
use rbitr.Prelude.{
  String, ◌==◌, if◌then◌else◌, Option, none, some, List, [], ◌∷◌, Unicode, trim_space,
}
use rbitr.Json.{Value, text, array, object, Values, nil, cons, Members, end, member, set_member}
use rbitr.Arguments.{ArgConstraintFailure, ArgConstraintViolation}
use rbitr.Arguments.Enforce.{reason_deny, reason_not_allowed, reason_invalid}

module _ ⦃u : Unicode⦄ where
  -- the first rule name that is not blank, or one for the reason
  unfoldable pub named_failure : List ArgConstraintFailure → String
  named_failure [] = ""
  named_failure (failure ∷ failures) =
      if trim_space failure.rule_id == ""
      then named_failure failures
      else trim_space failure.rule_id

  abbrev reason_rule_id : String → String
  reason_rule_id reason =
      if reason == reason_deny
      then "arg_constraint_deny"
      else if reason == reason_not_allowed
      then "arg_constraint_not_allowed"
      else if reason == reason_invalid
      then "arg_constraint_invalid"
      else "arg_constraint"

  unfoldable pub arg_constraint_rule_id : ArgConstraintViolation → String
  unfolding named_failure
  arg_constraint_rule_id violation =
      if named_failure violation.failures == ""
      then reason_rule_id violation.reason_code
      else named_failure violation.failures

  abbrev rule_id_member : String → Members
  rule_id_member id = if id == "" then end else member "rule_id" (text id) end

  unfoldable pub arg_constraint_failures_as_maps : List ArgConstraintFailure → Values
  arg_constraint_failures_as_maps [] = nil
  arg_constraint_failures_as_maps (failure ∷ failures) =
      cons
        (object (
          member "path" (text failure.path) (
            member "op" (text failure.op) (
              member "reason_code" (text failure.reason_code)
                (rule_id_member (trim_space failure.rule_id))))))
        (arg_constraint_failures_as_maps failures)

  abbrev with_failures : Members → List ArgConstraintFailure → Members
  with_failures constraints [] = constraints
  with_failures constraints (first ∷ rest) =
      set_member "arg_constraint_failures" (array (arg_constraint_failures_as_maps (first ∷ rest)))
        constraints

  unfoldable pub with_arg_constraint_failures : Members → ArgConstraintViolation → Members
  unfolding arg_constraint_failures_as_maps
  with_arg_constraint_failures constraints violation = with_failures constraints violation.failures

  -- `parse` is json.Unmarshal into `any`, with `none` for its error.
  unfoldable pub parse_rest_arguments : (String → Option Value) → String → Value
  parse_rest_arguments parse body =
      if trim_space body == ""
      then object end
      else elim (parse (trim_space body)) [ none ↦ text (trim_space body) | some parsed ↦ parsed ]
