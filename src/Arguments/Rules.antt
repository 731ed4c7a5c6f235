-- ===== src/Arguments/Rules.antt =====
-- `matchArgConstraintRule`: one rule against the arguments of a call.
use rbitr.Prelude.{
  suc, String, Bool, ◌==◌, ◌||◌, false, if◌then◌else◌, Option, none, some, starts_with, contains,
}
use rbitr.Json.{Value, text, array, Values, nil, cons}
use rbitr.Json.Equality.{deep_equal}
use rbitr.Json.Depth.{depth}
use rbitr.Arguments.{ArgConstraintRule}
use rbitr.Arguments.Resolve.{resolve_arg_constraint_path}
use rbitr.Arguments.Schema.{Matching, matches, differs, invalid, any_equal, match_json_schema}

abbrev pub as_matching : Bool → Matching
as_matching b = if b then matches else differs

-- Fuel beyond the schema's depth is enough: see Termination.
abbrev pub ended : Option Matching → Matching
ended none = invalid
ended (some m) = m

abbrev has_prefix : Value → Value → Matching
has_prefix (text s) (text expected) = as_matching (starts_with s expected)
has_prefix actual (text expected) = differs
has_prefix actual _ = invalid

abbrev is_one_of : Value → Value → Matching
is_one_of actual (array candidates) = as_matching (any_equal actual candidates)
is_one_of actual _ = invalid

unfoldable pub any_item_equal : Values → Value → Bool
any_item_equal nil value = false
any_item_equal (cons item items) value = deep_equal item value || any_item_equal items value

abbrev contains_value : Value → Value → Matching
contains_value (text s) (text expected) = as_matching (contains s expected)
contains_value (text s) _ = invalid
contains_value (array items) value = as_matching (any_item_equal items value)
contains_value _ value = differs

module _ (compile : String → Option (String → Bool)) where
  abbrev run_regex : Option (String → Bool) → Value → Matching
  run_regex none actual = invalid
  run_regex (some runs) (text s) = as_matching (runs s)
  run_regex (some runs) _ = differs

  abbrev fits_regex : Value → Value → Matching
  fits_regex actual (text pattern_text) = run_regex (compile pattern_text) actual
  fits_regex actual _ = invalid

  unfoldable pub validate_arg_constraint_json_schema : Value → Value → Matching
  unfolding match_json_schema depth
  validate_arg_constraint_json_schema schema value =
      ended (match_json_schema compile (suc (depth schema)) schema value)

  abbrev pub match_op : String → Value → Value → Matching
  match_op op value actual =
      if op == "eq"
      then as_matching (deep_equal actual value)
      else if op == "prefix"
      then has_prefix actual value
      else if op == "regex"
      then fits_regex actual value
      else if op == "in"
      then is_one_of actual value
      else if op == "contains"
      then contains_value actual value
      else if op == "jsonschema"
      then validate_arg_constraint_json_schema value actual
      else invalid

  abbrev match_found : ArgConstraintRule → Option Value → Matching
  match_found rule none = differs
  match_found rule (some actual) = match_op rule.op rule.value actual

  unfoldable pub match_arg_constraint_rule : ArgConstraintRule → Value → Matching
  unfolding resolve_arg_constraint_path deep_equal any_equal any_item_equal contains
      validate_arg_constraint_json_schema
  match_arg_constraint_rule rule arguments =
      match_found rule (resolve_arg_constraint_path arguments rule.path)
