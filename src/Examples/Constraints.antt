-- ===== src/Examples/Constraints.antt =====
-- Argument constraints on concrete calls.
use rbitr.Prelude.{insert}
use rbitr.Prelude.{lookup}
use rbitr.Arguments.Resolve.{step_into}
use rbitr.Prelude.{trim_prefix_char}
use rbitr.Prelude.{split}
use rbitr.Prelude.{
  String, Bool, true, false, ◌≡◌, ◌↔◌, inl, inr, refl, Option, none, some, [], ◌∷◌, All, arith,
  Unicode, ascii, contains, trim_space, to_lower, join, ◌==◌, if◌then◌else◌,
}
use rbitr.Json.{
  pos, Value, number, float, text, array, object, nil, cons, Members, end, member, get, has_member,
}
use rbitr.Json.Depth.{depth}
use rbitr.Arguments.{
  ArgConstraintRule, ArgConstraintRuleSet, ArgConstraintViolation, parse_arg_constraint_rule_set,
}
use rbitr.Arguments.Resolve.{resolve_arg_constraint_path, atoi, decode_arg_constraint_token}
use rbitr.Arguments.Schema.{Matching, matches, differs, invalid, match_json_schema}
use rbitr.Arguments.Rules.{match_arg_constraint_rule}
use rbitr.Arguments.Enforce.{
  enforce_argument_constraints, feature_arg_constraints_enabled, reason_invalid,
}
use rbitr.Arguments.Enforcement.{Differs, Admitted, Valid}
use rbitr.Arguments.Termination.{match_json_schema-ends}
use rbitr.Arguments.Admission.{
  enforce_argument_constraints-Admitted, enforce_argument_constraints_iff,
  enforce_argument_constraints-Broken,
}
use rbitr.Arguments.Numbers.{match_arg_constraint_rule-number, decoded}
use rbitr.Arguments.Pointers.{pointer, follow, resolve-pointer}

instance unaccented : Unicode
unaccented = ascii

-- a pattern matches the texts that contain it, and "(" does not compile
abbrev literal : String → Option (String → Bool)
literal p = if p == "(" then none else some (λ s. contains s p)

abbrev rule_of : String → String → Members
rule_of op value =
    member "path" (text "/env") (member "op" (text op) (member "value" (text value) end))

abbrev rule_values : Members → Members → Value
rule_values allow deny = object (
    member "allow" (array (cons (object allow) nil))
      (member "deny" (array (cons (object deny) nil)) end))

abbrev environments : Members
environments = member "args" (rule_values (rule_of "prefix" "test") (rule_of "eq" "prod")) end

abbrev test_call : Value
test_call = object (member "env" (text "test-1") end)

abbrev parsed_rule : String → String → ArgConstraintRule
parsed_rule op value = record { id = ""; path = "/env"; op = op; value = text value; message = "" }

abbrev environment_rules : ArgConstraintRuleSet
environment_rules = record {
  allow = parsed_rule "prefix" "test" ∷ [];
  deny = parsed_rule "eq" "prod" ∷ [];
}

environments_parsed : parse_arg_constraint_rule_set environments ≡ some environment_rules
unfolding parse_arg_constraint_rule_set has_member get trim_space to_lower
environments_parsed = refl

passes_environments :
    enforce_argument_constraints literal test_call (some true) false environments ≡ none
unfolding parse_arg_constraint_rule_set has_member get trim_space to_lower
    enforce_argument_constraints match_arg_constraint_rule split trim_prefix_char step_into
    decode_arg_constraint_token lookup insert
passes_environments = refl

enforce_argument_constraints-Admitted_example :
    All (Differs literal test_call) environment_rules.deny
    × All (Admitted literal test_call environment_rules.allow) environment_rules.allow
enforce_argument_constraints-Admitted_example =
    enforce_argument_constraints-Admitted literal test_call (some true) false environments
      environment_rules (unfold feature_arg_constraints_enabled in refl) environments_parsed
      passes_environments

prefix_matches : match_arg_constraint_rule literal (parsed_rule "prefix" "test") test_call ≡ matches
unfolding match_arg_constraint_rule split trim_prefix_char step_into has_member
    decode_arg_constraint_token get
prefix_matches = refl

prefix-Valid : Valid literal test_call (parsed_rule "prefix" "test")
prefix-Valid = λ e. cc (prefix_matches, e)

enforce_argument_constraints_iff_example :
    (enforce_argument_constraints literal test_call (some true) false environments ≡ none) ↔ (
      All (Differs literal test_call) environment_rules.deny
      × All (Admitted literal test_call environment_rules.allow) environment_rules.allow)
enforce_argument_constraints_iff_example =
    enforce_argument_constraints_iff literal test_call (some true) false environments
      environment_rules (unfold feature_arg_constraints_enabled in refl) environments_parsed
      (prefix-Valid, tt)

-- a deny rule whose pattern does not compile
abbrev broken_rule : Members
broken_rule = member "args" (rule_values (rule_of "prefix" "test") (rule_of "regex" "(")) end

abbrev broken_rules : ArgConstraintRuleSet
broken_rules = record {
  allow = parsed_rule "prefix" "test" ∷ [];
  deny = parsed_rule "regex" "(" ∷ [];
}

broken_parsed : parse_arg_constraint_rule_set broken_rule ≡ some broken_rules
unfolding parse_arg_constraint_rule_set has_member get trim_space to_lower
broken_parsed = refl

regex_invalid : match_arg_constraint_rule literal (parsed_rule "regex" "(") test_call ≡ invalid
unfolding match_arg_constraint_rule split trim_prefix_char step_into has_member
    decode_arg_constraint_token
regex_invalid = refl

enforce_argument_constraints-Broken_example :
    (v : ArgConstraintViolation) × (enforce_argument_constraints literal test_call
        (some true)
        false
        broken_rule
      ≡ some v)
    × (v.reason_code ≡ reason_invalid)
enforce_argument_constraints-Broken_example =
    enforce_argument_constraints-Broken literal test_call (some true) false broken_rule
      (unfold feature_arg_constraints_enabled in refl)
      (inr (broken_rules, parsed_rule "regex" "(", broken_parsed, inl refl, regex_invalid))

-- {"type": "object", "properties": {"n": {"type": "integer"}}}
abbrev counted_schema : Value
counted_schema = object (
    member "type" (text "object") (
      member "properties" (object (member "n" (object (member "type" (text "integer") end)) end))
        end))

match_json_schema-ends_example :
    (m : Matching) × (match_json_schema literal 4 counted_schema
        (object (member "n" (float 0x3FF8000000000000) end))
      ≡ some m)
match_json_schema-ends_example =
    match_json_schema-ends literal 4 counted_schema
      (object (member "n" (float 0x3FF8000000000000) end)) (unfold depth in omega arith)

-- 1.5 is no integer, and 3 is.
one_and_a_half :
    match_json_schema literal 4 counted_schema (object (member "n" (float 0x3FF8000000000000) end))
    ≡ some differs
unfolding match_json_schema has_member get
one_and_a_half = refl

three :
    match_json_schema literal 4 counted_schema (object (member "n" (float 0x4008000000000000) end))
    ≡ some matches
unfolding match_json_schema has_member get
three = refl

-- The policy denies 3, and the call has 3.
abbrev three_rule : ArgConstraintRule
three_rule = record { id = ""; path = "/n"; op = "eq"; value = number (pos 3); message = "" }

match_arg_constraint_rule-number_example :
    match_arg_constraint_rule literal three_rule
      (object (member "n" (float 0x4008000000000000) end))
    ≡ differs
match_arg_constraint_rule-number_example =
    match_arg_constraint_rule-number literal three_rule (pos 3)
      (object (member "n" (float 0x4008000000000000) end)) refl refl (unfold decoded in refl)

abbrev nested : Value
nested = object (member "a/b" (object (member "~" (array (cons (text "x") nil)) end)) end)

pointer_text : pointer ("a/b" ∷ "~" ∷ "0" ∷ []) ≡ "/a~1b/~0/0"
unfolding pointer join
pointer_text = refl

resolve-pointer_example :
    resolve_arg_constraint_path nested (pointer ("a/b" ∷ "~" ∷ "0" ∷ []))
    ≡ follow nested ("a/b" ∷ "~" ∷ "0" ∷ [])
resolve-pointer_example = resolve-pointer nested "a/b" ("~" ∷ "0" ∷ []) (λ e. cc (e, pointer_text))

nested_path : resolve_arg_constraint_path nested "/a~1b/~0/0" ≡ some (text "x")
unfolding resolve_arg_constraint_path split trim_prefix_char step_into has_member
    decode_arg_constraint_token get
nested_path = refl

-- A sign is read, as by strconv.Atoi.
signed_index : atoi "+1" ≡ some (pos 1)
unfolding atoi
signed_index = refl
