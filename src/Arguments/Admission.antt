-- ===== src/Arguments/Admission.antt =====
-- What `enforceArgumentConstraints` lets pass, and what it refuses.
use rbitr.Prelude.{
  String, Bool, true, ◌≡◌, ◌⊎◌, ◌↔◌, inl, inr, refl, ap, ◌∙◌, Option, none, some, lookup, List, [],
  ◌∷◌, All, All-In, In-All, In, Unicode,
}
use rbitr.Json.{Value, Members}
use rbitr.Arguments.{
  ArgConstraintRule, ArgConstraintRuleSet, ArgConstraintViolation, parse_arg_constraint_rule_set,
}
use rbitr.Arguments.Schema.{invalid}
use rbitr.Arguments.Rules.{match_arg_constraint_rule}
use rbitr.Arguments.Enforce.{
  Scan, stopped, scanned, ◌>>=◌, scan, group_key, rules_at, group_allow_constraint_rules, deny_turn,
  allow_turn, verdict, or_next, enforce_rules, enforce_parsed, enforce_argument_constraints,
  feature_arg_constraints_enabled, reason_invalid, check_group,
}
use rbitr.Arguments.Groups.{of_key, In-of_key, of_key-In, group_allow-of_key, group_allow-In}
use rbitr.Arguments.Enforcement.{
  Matched, Differs, Valid, Admitted, GroupPassed, scan-passed, scan-All, Scan-cases,
  deny_turn-Differs, match_group-Matched, match_group-admitted, allow_turn-Passed,
}

module _ ⦃u : Unicode⦄ (compile : String → Option (String → Bool)) (arguments : Value) where
  verdict-none :
      (reason default : String) (s : Scan)
      → verdict compile arguments reason default s ≡ none
      → (message : String) × (s ≡ scanned [] message)
  verdict-none reason default (stopped rule) e = absurd (cc e)
  verdict-none reason default (scanned [] message) e = (message, refl)
  verdict-none reason default (scanned (first ∷ rest) message) e = absurd (cc e)

  or_next-none :
      (a b : Option ArgConstraintViolation)
      → or_next compile arguments a b ≡ none
      → (a ≡ none) × (b ≡ none)
  or_next-none none b e = (refl, e)
  or_next-none (some v) b e = absurd (cc e)

  GroupPassed-Admitted :
      (rule : ArgConstraintRule) (allow : List ArgConstraintRule)
      → In rule allow
      → GroupPassed compile arguments (of_key (group_key rule) allow)
      → Admitted compile arguments allow rule
  unfolding GroupPassed
  GroupPassed-Admitted rule allow here (inl empty) =
      let inside : In rule (of_key (group_key rule) allow) =
        of_key-In rule (group_key rule) allow here refl in
      absurd (let no_rule : In rule [] = rw empty at inside in no_rule.lower)
  GroupPassed-Admitted rule allow here (inr pass) =
      let (q, inside, m) = match_group-Matched compile arguments _ pass in
      let found = In-of_key q (group_key rule) allow inside in (q, found.0, found.1, m)

  enforce_rules-none :
      (rules : ArgConstraintRuleSet)
      → enforce_rules compile arguments rules ≡ none
      → All (Differs compile arguments) rules.deny
        × All (Admitted compile arguments rules.allow) rules.allow
  unfolding enforce_rules
  enforce_rules-none rules e =
      let (no_deny, no_allow) = or_next-none _ _ e in
      let (m, denied) = verdict-none _ _ _ no_deny in
      let groups = group_allow_constraint_rules rules.allow in
      let (n, allowed) =
        verdict-none _ _ (scan (allow_turn compile arguments groups.0) groups.1 [] "") no_allow in
      let deny =
        scan-passed (deny_turn compile arguments) (Differs compile arguments) rules.deny [] "" m
          (deny_turn-Differs compile arguments) denied in
      let passed =
        scan-passed (allow_turn compile arguments groups.0)
          (λ (key : String). GroupPassed compile arguments (rules_at (lookup key groups.0)))
          groups.1 [] "" n (allow_turn-Passed compile arguments groups.0) allowed in
      (
        deny.1,
        All-In (Admitted compile arguments rules.allow) rules.allow (λ rule here.
            GroupPassed-Admitted rule rules.allow here (
              rw (← group_allow-of_key (group_key rule) rules.allow) (
                In-All
                  (λ (key : String). GroupPassed compile arguments (rules_at (lookup key groups.0)))
                  (group_key rule) groups.1 (group_allow-In rule rules.allow here) passed.1))),
      )

  -- Where the rules are switched on and parsed, a call whose arguments are let pass has no deny rule
  -- that matches them, and for every allow rule some allow rule of its group does.
  pub enforce_argument_constraints-Admitted :
      (flag : Option Bool) (fallback : Bool) (constraints : Members) (rules : ArgConstraintRuleSet)
      → feature_arg_constraints_enabled flag fallback ≡ true
      → parse_arg_constraint_rule_set constraints ≡ some rules
      → enforce_argument_constraints compile arguments flag fallback constraints ≡ none
      → All (Differs compile arguments) rules.deny
        × All (Admitted compile arguments rules.allow) rules.allow
  unfolding enforce_argument_constraints
  enforce_argument_constraints-Admitted flag fallback constraints rules on parsed e =
      enforce_rules-none rules (rw (on, parsed, enforce_parsed) at e)

  deny_turn-passes :
      (rule : ArgConstraintRule)
      → Differs compile arguments rule
      → (fs : List _) (m : String) → deny_turn compile arguments rule fs m ≡ scanned fs m
  unfolding deny_turn
  deny_turn-passes rule d fs m = rw d

  check_group-passes :
      (rules : List ArgConstraintRule)
      → All (Valid compile arguments) rules
      → ((rule : ArgConstraintRule)
          → In rule rules
          → (q : ArgConstraintRule) × In q rules × Matched compile arguments q)
      → (fs : List _) (m : String) → check_group compile arguments rules fs m ≡ scanned fs m
  check_group-passes [] v h fs m = refl
  check_group-passes (rule ∷ rules) v h fs m =
      let (q, here, yes_matches) = h rule (inl refl) in
      rw (match_group-admitted compile arguments q (rule ∷ rules) v here yes_matches)

  allow_turn-passes :
      (allow : List ArgConstraintRule) (key : String)
      → All (Valid compile arguments) allow
      → All (Admitted compile arguments allow) allow
      → (fs : List _) (m : String)
      → allow_turn compile arguments (group_allow_constraint_rules allow).0 key fs m ≡ scanned fs m
  unfolding allow_turn
  allow_turn-passes allow key v a fs m = rw (group_allow-of_key key allow) (
      check_group-passes (of_key key allow)
        (All-In (Valid compile arguments) (of_key key allow) (λ rule inside.
          In-All (Valid compile arguments) rule allow (In-of_key rule key allow inside).0 v))
        (λ rule inside.
          let found = In-of_key rule key allow inside in
          let (q, here, same, m) = In-All (Admitted compile arguments allow) rule allow found.0 a in
          (q, of_key-In q key allow here (same ∙ found.1), m))
        fs m)

  enforce_rules-passes :
      (rules : ArgConstraintRuleSet)
      → All (Valid compile arguments) rules.allow
      → All (Differs compile arguments) rules.deny
      → All (Admitted compile arguments rules.allow) rules.allow
      → enforce_rules compile arguments rules ≡ none
  unfolding enforce_rules
  enforce_rules-passes rules v d a =
      let groups = group_allow_constraint_rules rules.allow in
      let deny : scan (deny_turn compile arguments) rules.deny [] "" ≡ scanned [] "" =
        scan-All (deny_turn compile arguments) rules.deny [] "" (
          All-In _ rules.deny (λ rule here.
            deny_turn-passes rule (In-All (Differs compile arguments) rule rules.deny here d))) in
      let allow : scan (allow_turn compile arguments groups.0) groups.1 [] "" ≡ scanned [] "" =
        scan-All (allow_turn compile arguments groups.0) groups.1 [] ""
          (All-In _ groups.1 (λ key here. allow_turn-passes rules.allow key v a)) in
      rw (deny, allow)

  -- Where the rules are switched on and parsed, and each allow rule is valid for the arguments, a call is let pass
  -- exactly when no deny rule matches its arguments and for every allow rule some allow rule of its
  -- group does.
  pub enforce_argument_constraints_iff :
      (flag : Option Bool) (fallback : Bool) (constraints : Members) (rules : ArgConstraintRuleSet)
      → feature_arg_constraints_enabled flag fallback ≡ true
      → parse_arg_constraint_rule_set constraints ≡ some rules
      → All (Valid compile arguments) rules.allow
      → (enforce_argument_constraints compile arguments flag fallback constraints ≡ none) ↔ (
          All (Differs compile arguments) rules.deny
          × All (Admitted compile arguments rules.allow) rules.allow)
  unfolding enforce_argument_constraints
  enforce_argument_constraints_iff flag fallback constraints rules on parsed v = (
    enforce_argument_constraints-Admitted flag fallback constraints rules on parsed,
    λ h. rw (on, parsed) (enforce_rules-passes rules v h.0 h.1),
  )

  scan-stops :
      (rule : ArgConstraintRule) (rules : List ArgConstraintRule) (fs : List _) (m : String)
      → In rule rules
      → match_arg_constraint_rule compile rule arguments ≡ invalid
      → (bad : ArgConstraintRule) × (scan (deny_turn compile arguments) rules fs m ≡ stopped bad)
  unfolding scan deny_turn
  scan-stops rule [] fs m h e = absurd h.lower
  scan-stops rule (first ∷ rules) fs m (inl same) e = (first, rw (← same, e))
  scan-stops rule (first ∷ rules) fs m (inr later) e =
      elim (Scan-cases (deny_turn compile arguments first fs m)) [
        | inl (bad, stop) ↦
            (bad, ap (λ (s : Scan). s >>= scan (deny_turn compile arguments) rules) stop)
        | inr (gs, n, go) ↦
            let (bad, e') = scan-stops rule rules gs n later e in
            (bad, ap (λ (s : Scan). s >>= scan (deny_turn compile arguments) rules) go ∙ e')
      ]

  -- The constraints cannot be parsed, or parse to rules with a deny rule that is not valid.
  abbrev pub Broken : Members → Type 0
  Broken constraints =
      (parse_arg_constraint_rule_set constraints ≡ none)
      ⊎ ((rules : ArgConstraintRuleSet) × (rule : ArgConstraintRule)
          × (parse_arg_constraint_rule_set constraints ≡ some rules)
          × In rule rules.deny
          × (match_arg_constraint_rule compile rule arguments ≡ invalid))

  -- Where the rules are switched on, constraints that cannot be parsed, or that have a deny rule which is
  -- not valid, refuse the call, with the reason that a rule is invalid.
  pub enforce_argument_constraints-Broken :
      (flag : Option Bool) (fallback : Bool) (constraints : Members)
      → feature_arg_constraints_enabled flag fallback ≡ true
      → Broken constraints
      → (v : ArgConstraintViolation) × (enforce_argument_constraints compile arguments flag fallback
            constraints
          ≡ some v)
        × (v.reason_code ≡ reason_invalid)
  unfolding enforce_argument_constraints enforce_rules
  enforce_argument_constraints-Broken flag fallback constraints on (inl unparsed) =
      rw (on, unparsed) (_, refl, refl)
  enforce_argument_constraints-Broken flag fallback constraints on
        (inr (rules, rule, parsed, here, e)) =
      let (bad, stop) = scan-stops rule rules.deny [] "" here e in
      rw (on, parsed, stop) (_, refl, refl)
