-- ===== src/Policy/Opa.antt =====
-- The reading of what a tenant's policy returns: internal/opa/engine.go. The text of the policy is
-- evaluated by the package rego, whose result set is the argument of `parse_result`: the value of its
-- first expression, or none where it has none. The stable sort of package sort is written as an
-- insertion sort.
use Prim.Native.Nat.{compare, Ordering}
use Prim.Native.Char.{code}
use Prim.Native.String.{◌∷◌}
use rbitr.Prelude.{
  ℕ, ◌+◌, ◌-◌, ◌^◌, String, Bool, true, false, not, ◌&&◌, ◌||◌, ◌==◌, if◌then◌else◌, ltb, eqb,
  Option, none, some, List,
}
use rbitr.Json.{
  ℤ, pos, negsuc, ltz, Value, null, number, float, float_to_int, text, array, object, Values, nil,
  cons, Members, end, get, has_member, text_of, object_of,
}
use rbitr.Approval.{DecisionReason}
use rbitr.Policy.{Rule, MatchedRule, Decision, is_decision_allowed, is_risk_allowed}

-- `<` on texts: the order of their bytes in UTF-8, which is that of their characters
unfoldable pub string_less : String → String → Bool
string_less (c ∷ s) (d ∷ t) = elim (compare (code c) (code d)) [
  | Ordering.lt ↦ true
  | Ordering.eq ↦ string_less s t
  | Ordering.gt ↦ false
]
string_less (c ∷ s) t = false
string_less s (d ∷ t) = true
string_less s t = false

-- A value, or the reason of a PolicyOutputError.
pub data Parsed : Type 0 where
  bad : String → Parsed
  parsed : Decision → Parsed

abbrev pub decision_rank : String → ℕ
decision_rank d =
    if d == "DENY" then 3 else if d == "REQUIRE_APPROVAL" then 2 else if d == "ALLOW" then 1 else 0

unfoldable pub matched_rule_less : MatchedRule → MatchedRule → Bool
matched_rule_less l r =
    if ltz r.priority l.priority
    then true
    else if ltz l.priority r.priority
    then false
    else if eqb (decision_rank l.effect) (decision_rank r.effect)
    then string_less l.rule_id r.rule_id
    else ltb (decision_rank r.effect) (decision_rank l.effect)

unfoldable pub place_rule : MatchedRule → List MatchedRule → List MatchedRule
place_rule x List.[] = List.◌∷◌ x List.[]
place_rule x (List.◌∷◌ y ys) =
    if matched_rule_less y x then List.◌∷◌ y (place_rule x ys) else List.◌∷◌ x (List.◌∷◌ y ys)

unfoldable pub sort_rules : List MatchedRule → List MatchedRule
sort_rules List.[] = List.[]
sort_rules (List.◌∷◌ x xs) = place_rule x (sort_rules xs)

-- whether the number is an int64, and whether ParseFloat finds a finite float for it
abbrev in_int64 : ℤ → Bool
in_int64 (pos n) = ltb n (2 ^ 63)
in_int64 (negsuc n) = ltb n (2 ^ 63)

abbrev is_finite : ℤ → Bool
is_finite (pos n) = ltb n (2 ^ 1024 - 2 ^ 970)
is_finite (negsuc n) = ltb (n + 1) (2 ^ 1024 - 2 ^ 970)

-- `int(f)` of a float with this whole part: beyond int64 the language leaves it to the platform, and
-- this is the least integer that amd64 gives.
abbrev to_int : ℤ → ℤ
to_int z = if in_int64 z then z else negsuc (2 ^ 63 - 1)

unfoldable pub parse_priority : Value → Option ℤ
unfolding float_to_int
parse_priority (number z) = if in_int64 z || is_finite z then some (to_int z) else none
parse_priority (float b) = some (to_int (float_to_int b))
parse_priority _ = none

parse_reason : Value → Option DecisionReason
parse_reason (object item) =
    let code = text_of (get "code" item) in
    let message = text_of (get "message" item) in
    if not (code == "") && not (message == "")
    then some (record { code = code; message = message })
    else none
parse_reason _ = none

parse_reason_items : Values → Option (List DecisionReason)
unfolding parse_reason
parse_reason_items nil = some List.[]
parse_reason_items (cons v vs) =
    let rest = parse_reason_items vs in
    elim (parse_reason v) [
      | none ↦ none
      | some r ↦ elim rest [ none ↦ none | some rs ↦ some (List.◌∷◌ r rs) ]
    ]

unfoldable pub parse_reasons : Bool → Value → Option (List DecisionReason)
unfolding parse_reason_items
parse_reasons required null = if required then none else some List.[]
parse_reasons required (array nil) = if required then none else some List.[]
parse_reasons required (array vs) = parse_reason_items vs
parse_reasons required _ = none

parse_matched_rule_effect : Members → Option String
unfolding get
parse_matched_rule_effect rule =
    let effect = text_of (get "effect" rule) in
    let decision = text_of (get "decision" rule) in
    if is_decision_allowed effect
    then some effect
    else if is_decision_allowed decision
    then some decision
    else none

parse_constraints_summary : Members → Option Members
unfolding get has_member
parse_constraints_summary rule =
    if has_member "constraints_summary" rule
    then object_of (get "constraints_summary" rule)
    else some end

parse_matched_rule : Value → Option MatchedRule
unfolding get parse_priority parse_reasons parse_matched_rule_effect parse_constraints_summary
parse_matched_rule (object rule) =
    let rule_id = text_of (get "rule_id" rule) in
    if rule_id == "" then none else elim (parse_priority (get "priority" rule)) [
      | none ↦ none
      | some priority ↦ elim (parse_matched_rule_effect rule) [
        | none ↦ none
        | some effect ↦ elim (parse_reasons false (get "reasons" rule)) [
          | none ↦ none
          | some reasons ↦ elim (parse_constraints_summary rule) [
            | none ↦ none
            | some summary ↦ some (record {
              rule_id = rule_id;
              priority = priority;
              effect = effect;
              reasons = reasons;
              constraints_summary = summary;
            })
          ]
        ]
      ]
    ]
parse_matched_rule _ = none

parse_rule_items : Values → Option (List MatchedRule)
unfolding parse_matched_rule
parse_rule_items nil = some List.[]
parse_rule_items (cons v vs) =
    let rest = parse_rule_items vs in
    elim (parse_matched_rule v) [
      | none ↦ none
      | some r ↦ elim rest [ none ↦ none | some rs ↦ some (List.◌∷◌ r rs) ]
    ]

unfoldable pub parse_matched_rules : Value → Option (List MatchedRule)
unfolding parse_rule_items
parse_matched_rules null = some List.[]
parse_matched_rules (array vs) = elim (parse_rule_items vs) [
  | none ↦ none
  | some rules ↦ some (sort_rules rules)
]
parse_matched_rules _ = none

text_items : Values → List String
text_items nil = List.[]
text_items (cons (text s) vs) = List.◌∷◌ s (text_items vs)
text_items (cons _ vs) = text_items vs

unfoldable pub parse_tags : Value → List String
unfolding text_items
parse_tags (array vs) = text_items vs
parse_tags _ = List.[]

-- The decision, the rule and the reasons that `resolveDecision` returns, in the result.
unfoldable pub resolve_decision : Decision → Decision
resolve_decision d = elim d.matched_rules [
  | List.[] ↦ d
  | List.◌∷◌ winner _ ↦ record d {
    decision = winner.effect;
    rule = record { id = winner.rule_id; priority = winner.priority };
    reasons = elim winner.reasons [ List.[] ↦ d.reasons | List.◌∷◌ _ _ ↦ winner.reasons ];
  }
]

abbrev require : Bool → String → Parsed → Parsed
require true reason next = next
require false reason next = bad reason

-- what follows once the scalar fields are there
unfoldable pub parse_rest : Members → Rule → Parsed
parse_rest value rule = elim (parse_reasons true (get "reasons" value)) [
  | none ↦ bad "missing_required_field"
  | some reasons ↦ elim (object_of (get "constraints" value)) [
    | none ↦ bad "schema_violation"
    | some constraints ↦ elim (parse_matched_rules (get "matched_rules" value)) [
      | none ↦ bad "schema_violation"
      | some matched ↦ parsed (
          resolve_decision (record {
            version = text_of (get "version" value);
            decision = text_of (get "decision" value);
            risk = text_of (get "risk" value);
            rule = rule;
            reasons = reasons;
            constraints = constraints;
            tags = parse_tags (get "tags" value);
            matched_rules = matched;
          }))
    ]
  ]
]

unfoldable pub parse_rule : Members → Parsed
parse_rule value = elim (object_of (get "rule" value)) [
  | none ↦ bad "schema_violation"
  | some rule ↦
      (let id = text_of (get "id" rule) in
        require (not (id == "")) "missing_required_field"
          (elim (parse_priority (get "priority" rule)) [
            | none ↦ bad "schema_violation"
            | some priority ↦ parse_rest value (record { id = id; priority = priority })
          ]))
]

unfoldable pub parse_object : Members → Parsed
parse_object value =
    let version = text_of (get "version" value) in
    let decision = text_of (get "decision" value) in
    let risk = text_of (get "risk" value) in
    require (not (version == "")) "missing_required_field" (
      require (not (decision == "")) "missing_required_field" (
        require (is_decision_allowed decision) "bad_enum" (
          require (not (risk == "")) "missing_required_field"
            (require (is_risk_allowed risk) "bad_enum" (parse_rule value)))))

unfoldable pub parse_result : Option Value → Parsed
parse_result none = bad "opa_result_empty"
parse_result (some (object value)) = parse_object value
parse_result (some _) = bad "decode_error"
