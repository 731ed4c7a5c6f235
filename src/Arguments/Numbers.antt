-- ===== src/Arguments/Numbers.antt =====
-- Numbers that a policy compares with: OPA returns a json.Number, and the arguments of a call are
-- decoded to float64.
use rbitr.Prelude.{
  ℕ, zero, suc, String, Bool, true, false, ◌≡◌, inl, inr, refl, ◌==◌, ◌&&◌, Option, some, List,
  Bool-cases, Option-cases, starts_with,
}
use rbitr.Json.{
  ℤ, pos, negsuc, Value, number, array, object, Values, nil, cons, Members, end, member, get,
  has_member,
}
use rbitr.Json.Equality.{deep_equal}
use rbitr.Arguments.{ArgConstraintRule}
use rbitr.Arguments.Resolve.{
  item_at, get_map_value, atoi, step_into, walk, decode_arg_constraint_token,
  resolve_arg_constraint_path,
}
use rbitr.Arguments.Schema.{differs}
use rbitr.Arguments.Rules.{match_arg_constraint_rule}

-- There is no json.Number in it.
unfoldable mutual
  pub decoded : Value → Bool
  decoded (number z) = false
  decoded (array vs) = decoded_items vs
  decoded (object ms) = decoded_members ms
  decoded _ = true

  pub decoded_items : Values → Bool
  decoded_items nil = true
  decoded_items (cons v vs) = decoded v && decoded_items vs

  pub decoded_members : Members → Bool
  decoded_members end = true
  decoded_members (member k v ms) = decoded v && decoded_members ms

and_true : (a b : Bool) → (a && b) ≡ true → (a ≡ true) × (b ≡ true)
and_true true b e = (refl, e)
and_true false b e = (e, absurd (cc e))

-- What is found in decoded arguments is decoded.
Found : Option Value → Type 0
Found r = (v : Value) → r ≡ some v → decoded v ≡ true

decoded-get :
    (key : String) (ms : Members) → decoded_members ms ≡ true → decoded (get key ms) ≡ true
unfolding decoded get
decoded-get key end d = refl
decoded-get key (member k v ms) d =
    let (here, later) = and_true (decoded v) (decoded_members ms) d in
    elim (Bool-cases (k == key)) [
      | inl same ↦ rw (same, get) here
      | inr other ↦ rw (other, get) (decoded-get key ms later)
    ]

decoded-item_at : (vs : Values) (i : ℕ) → decoded_items vs ≡ true → Found (item_at vs i)
unfolding decoded item_at Found
decoded-item_at nil i d = λ v e. absurd (cc e)
decoded-item_at (cons w vs) zero d =
    λ v e. let same : w ≡ v = cc e in rw (← same) (and_true (decoded w) (decoded_items vs) d).0
decoded-item_at (cons w vs) (suc i) d =
    unfold Found in decoded-item_at vs i (and_true (decoded w) (decoded_items vs) d).1

decoded-step_into :
    (current : Value) (segment : String)
    → decoded current ≡ true
    → Found (step_into current segment)
unfolding decoded step_into get_map_value Found
decoded-step_into (object ms) segment d = elim (Bool-cases (has_member segment ms)) [
  | inl known ↦
      rw known
        (λ v e. let same : get segment ms ≡ v = cc e in rw (← same) (decoded-get segment ms d))
  | inr missing ↦ rw missing (λ v e. absurd (cc e))
]
decoded-step_into (array vs) segment d = elim (Option-cases (atoi segment)) [
  | inl none_found ↦ rw none_found (λ v e. absurd (cc e))
  | inr (pos i, found) ↦ rw found (unfold Found in decoded-item_at vs i d)
  | inr (negsuc i, found) ↦ rw found (λ v e. absurd (cc e))
]
decoded-step_into _ segment d = λ v e. absurd (cc e)

decoded-walk :
    (root : Value) (tokens : List String) → decoded root ≡ true → Found (walk root tokens)
unfolding walk Found
decoded-walk root List.[] d = λ v e. let same : root ≡ v = cc e in rw (← same) d
decoded-walk root (List.◌∷◌ token tokens) d =
    elim (Option-cases (step_into root (decode_arg_constraint_token token))) [
      | inl stuck ↦ rw stuck (λ v e. absurd (cc e))
      | inr (next, found) ↦
          let inside : decoded next ≡ true =
            unfold Found in
            decoded-step_into root (decode_arg_constraint_token token) d next found in
          rw found (unfold Found in decoded-walk next tokens inside)
    ]

decoded-resolve :
    (root : Value) (path : String)
    → decoded root ≡ true
    → Found (resolve_arg_constraint_path root path)
unfolding resolve_arg_constraint_path Found
decoded-resolve root path d = elim (Bool-cases (path == "/")) [
  | inl whole ↦ rw whole (λ v e. let same : root ≡ v = cc e in rw (← same) d)
  | inr other ↦ elim (Bool-cases (starts_with path "/")) [
    | inl rooted ↦ rw (other, rooted) (unfold Found in decoded-walk root _ d)
    | inr bad ↦ rw (other, bad) (λ v e. absurd (cc e))
  ]
]

deep_equal-number : (v : Value) (z : ℤ) → decoded v ≡ true → deep_equal v (number z) ≡ false
unfolding decoded deep_equal
deep_equal-number (number y) z d = absurd (cc d)
deep_equal-number _ z d = refl

-- A rule that asks for equality with a number of the policy matches no call whose arguments were
-- decoded from JSON, whatever number the call has there.
pub match_arg_constraint_rule-number :
    (compile : String → Option (String → Bool)) (rule : ArgConstraintRule) (z : ℤ)
    (arguments : Value)
    → rule.op ≡ "eq"
    → rule.value ≡ number z
    → decoded arguments ≡ true
    → match_arg_constraint_rule compile rule arguments ≡ differs
unfolding match_arg_constraint_rule
match_arg_constraint_rule-number compile rule z arguments op value d =
    elim (Option-cases (resolve_arg_constraint_path arguments rule.path)) [
      | inl missing ↦ rw missing
      | inr (actual, found) ↦
          let inside : decoded actual ≡ true =
            unfold Found in decoded-resolve arguments rule.path d actual found in
          rw (found, op, value, deep_equal-number actual z inside)
    ]
