-- ===== src/Arguments/Enforcement.antt =====
-- What a call that passes the argument constraints fulfils, and that an invalid deny rule refuses.
use rbitr.Prelude.{
  String, Bool, ◌≡◌, ◌≢◌, ◌⊎◌, inl, inr, refl, Option, Map, lookup, List, [], ◌∷◌, All, In, arith,
  Unicode,
}
use rbitr.Json.{Value}
use rbitr.Arguments.{ArgConstraintRule, ArgConstraintFailure}
use rbitr.Arguments.Schema.{Matching, matches, differs, invalid}
use rbitr.Arguments.Rules.{match_arg_constraint_rule}
use rbitr.Arguments.Enforce.{
  Scan, stopped, scanned, ◌>>=◌, scan, group_key, rules_at, admitted, broken, deny_turn, allow_turn,
  check_group, match_group,
}

pub Scan-cases :
    (s : Scan)
    → ((rule : ArgConstraintRule) × (s ≡ stopped rule))
      ⊎ ((failures : List ArgConstraintFailure) × (message : String) × (s
            ≡ scanned failures message))
Scan-cases (stopped rule) = inl (rule, refl)
Scan-cases (scanned failures message) = inr (failures, message, refl)

Matching-cases : (m : Matching) → (m ≡ matches) ⊎ ((m ≡ differs) ⊎ (m ≡ invalid))
Matching-cases matches = inl refl
Matching-cases differs = inr (inl refl)
Matching-cases invalid = inr (inr refl)

-- A scan that collects nothing had nothing, and each item was passed.
pub scan-passed {ℓ} :
    {A : Type ℓ} (turn : A → List ArgConstraintFailure → String → Scan) (Passed : A → Type 0)
    (items : List A) (failures : List ArgConstraintFailure) (message final : String)
    → ((item : A) (before after : List ArgConstraintFailure) (m n : String)
        → turn item before m ≡ scanned after n
        → after ≡ []
        → (before ≡ []) × Passed item)
    → scan turn items failures message ≡ scanned [] final
    → (failures ≡ []) × All Passed items
unfolding scan
scan-passed turn Passed [] failures message final step e = (cc, tt)
scan-passed turn Passed (item ∷ items) failures message final step e =
    elim (Scan-cases (turn item failures message)) [
      | inl (rule, stop) ↦
          absurd (let bad : stopped rule ≡ scanned [] final = rw (stop, ◌>>=◌) at e in cc)
      | inr (after, n, go) ↦
          let e' : scan turn items after n ≡ scanned [] final = rw (go, ◌>>=◌) at e in
          let rest = scan-passed turn Passed items after n final step e' in
          let here = step item failures after message n go rest.0 in (here.0, (here.1, rest.1))
    ]

pub scan-All {ℓ} :
    {A : Type ℓ} (turn : A → List ArgConstraintFailure → String → Scan) (items : List A)
    (failures : List ArgConstraintFailure) (message : String)
    → All
        (λ (item : A).
          (fs : List ArgConstraintFailure) (m : String) → turn item fs m ≡ scanned fs m)
        items
    → scan turn items failures message ≡ scanned failures message
unfolding scan
scan-All turn [] failures message h = refl
scan-All turn (item ∷ items) failures message h =
    rw (h.0 failures message, ◌>>=◌) (scan-All turn items failures message h.1)

module _ ⦃u : Unicode⦄ (compile : String → Option (String → Bool)) (arguments : Value) where
  abbrev pub Matched : ArgConstraintRule → Type 0
  Matched rule = match_arg_constraint_rule compile rule arguments ≡ matches

  abbrev pub Differs : ArgConstraintRule → Type 0
  Differs rule = match_arg_constraint_rule compile rule arguments ≡ differs

  abbrev pub Valid : ArgConstraintRule → Type 0
  Valid rule = match_arg_constraint_rule compile rule arguments ≢ invalid

  -- Some rule of the same group key matches.
  abbrev pub Admitted : List ArgConstraintRule → ArgConstraintRule → Type 0
  Admitted allow rule =
      (q : ArgConstraintRule) × In q allow × (group_key q ≡ group_key rule) × Matched q

  pub deny_turn-Differs :
      (rule : ArgConstraintRule) (before after : List ArgConstraintFailure) (m n : String)
      → deny_turn compile arguments rule before m ≡ scanned after n
      → after ≡ []
      → (before ≡ []) × Differs rule
  unfolding deny_turn
  deny_turn-Differs rule [] after m n e empty = ground arith
  deny_turn-Differs rule (first ∷ before) after m n e empty = ground arith

  pub match_group-Matched :
      (rules : List ArgConstraintRule)
      → match_group compile arguments rules ≡ admitted
      → (q : ArgConstraintRule) × In q rules × Matched q
  unfolding match_group
  match_group-Matched [] e = absurd (cc e)
  match_group-Matched (rule ∷ rules) e =
      elim (Matching-cases (match_arg_constraint_rule compile rule arguments)) [
        | inl yes_matches ↦ (rule, inl refl, yes_matches)
        | inr (inl no_match) ↦
            let (q, here, m) = match_group-Matched rules (rw (no_match, match_group) at e) in
            (q, inr here, m)
        | inr (inr bad) ↦ absurd (let f : broken rule ≡ admitted = rw (bad, match_group) at e in cc)
      ]

  pub match_group-admitted :
      (q : ArgConstraintRule) (rules : List ArgConstraintRule)
      → All Valid rules
      → In q rules
      → Matched q
      → match_group compile arguments rules ≡ admitted
  unfolding match_group
  match_group-admitted q [] v h m = absurd h.lower
  match_group-admitted q (rule ∷ rules) v (inl e) m = rw (← e, m, match_group)
  match_group-admitted q (rule ∷ rules) v (inr later) m =
      let rest = match_group-admitted q rules v.1 later m in
      elim (Matching-cases (match_arg_constraint_rule compile rule arguments)) [
        | inl yes_matches ↦ rw (yes_matches, match_group)
        | inr (inl no_match) ↦ rw (no_match, match_group) rest
        | inr (inr bad) ↦ absurd (v.0 bad)
      ]

  -- what passing a group means: it is empty, or a rule of it matches
  unfoldable pub GroupPassed : List ArgConstraintRule → Type 0
  GroupPassed rules = (rules ≡ []) ⊎ (match_group compile arguments rules ≡ admitted)

  pub allow_turn-Passed :
      (groups : Map (List ArgConstraintRule)) (key : String)
      (before after : List ArgConstraintFailure) (m n : String)
      → allow_turn compile arguments groups key before m ≡ scanned after n
      → after ≡ []
      → (before ≡ []) × GroupPassed (rules_at (lookup key groups))
  unfolding allow_turn GroupPassed
  allow_turn-Passed groups key before after m n e empty =
      check_passed (rules_at (lookup key groups)) before e
    where
      check_passed :
          (rules : List ArgConstraintRule) (before : List ArgConstraintFailure)
          → check_group compile arguments rules before m ≡ scanned after n
          → (before ≡ []) × GroupPassed rules
      check_passed [] before e = (ground arith, inl refl)
      check_passed (rule ∷ rules) [] e = ground arith
      check_passed (rule ∷ rules) (first ∷ before) e = ground arith
