-- ===== src/Arguments/Groups.antt =====
-- `groupAllowConstraintRules` collects, for each key, the rules of that key in their order, and its
-- order of groups names the key of every rule.
use mathlib.Core.List.{append_assoc, append-nil}
use rbitr.Prelude.{
  String, true, ◌≡◌, inl, inr, refl, sym, ap, ◌∙◌, ◌==◌, eq_iff, Option, none, some, Map, lookup,
  lookup-insert, List, [], ◌∷◌, ◌++◌, In, arith, Bool-cases, Option-cases, if◌then◌else◌,
}
use rbitr.Arguments.{ArgConstraintRule}
use rbitr.Arguments.Enforce.{
  group_key, rules_at, grouped_with, order_with, group_rules, group_allow_constraint_rules,
}

-- the rules of a key
unfoldable pub of_key : String → List ArgConstraintRule → List ArgConstraintRule
of_key key [] = []
of_key key (rule ∷ rules) =
    if group_key rule == key then rule ∷ of_key key rules else of_key key rules

pub In-of_key :
    (q : ArgConstraintRule) (key : String) (rules : List ArgConstraintRule)
    → In q (of_key key rules)
    → In q rules × (group_key q ≡ key)
unfolding of_key
In-of_key q key [] h = absurd h.lower
In-of_key q key (rule ∷ rules) h = elim (Bool-cases (group_key rule == key)) [
  | inl same ↦ elim (rw same at h) [
    | inl e ↦ (inl e, ap group_key e ∙ (eq_iff (group_key rule) key).0 same)
    | inr later ↦ (inr (In-of_key q key rules later).0, (In-of_key q key rules later).1)
  ]
  | inr other ↦ let rest = In-of_key q key rules (rw other at h) in (inr rest.0, rest.1)
]

pub of_key-In :
    (q : ArgConstraintRule) (key : String) (rules : List ArgConstraintRule)
    → In q rules
    → group_key q ≡ key
    → In q (of_key key rules)
unfolding of_key
of_key-In q key [] h e = absurd h.lower
of_key-In q key (rule ∷ rules) (inl same) e =
    let t : (group_key rule == key) ≡ true =
      (eq_iff (group_key rule) key).1 (sym (ap group_key same) ∙ e) in
    rw t (inl same)
of_key-In q key (rule ∷ rules) (inr later) e = elim (Bool-cases (group_key rule == key)) [
  | inl same ↦ rw same (inr (of_key-In q key rules later e))
  | inr other ↦ rw other (of_key-In q key rules later e)
]

rules_at-grouped_with :
    (key : String) (rule : ArgConstraintRule) (groups : Map (List ArgConstraintRule))
    → rules_at (lookup key (grouped_with rule groups))
      ≡ rules_at (lookup key groups) ++ of_key key (rule ∷ [])
unfolding of_key
rules_at-grouped_with key rule groups =
    rw (lookup-insert (group_key rule) key) (elim (Bool-cases (group_key rule == key)) [
      | inl same ↦ rw (same, (eq_iff (group_key rule) key).0 same) refl
      | inr other ↦ rw (other, append-nil) refl
    ])

of_key-front :
    (key : String) (rule : ArgConstraintRule) (rules : List ArgConstraintRule)
    → of_key key (rule ∷ []) ++ of_key key rules ≡ of_key key (rule ∷ rules)
unfolding of_key
of_key-front key rule rules = ground arith

group_rules-of_key :
    (key : String) (rules : List ArgConstraintRule) (groups : Map (List ArgConstraintRule))
    (order : List String)
    → rules_at (lookup key (group_rules rules groups order).0)
      ≡ rules_at (lookup key groups) ++ of_key key rules
unfolding group_rules of_key
group_rules-of_key key [] groups order = rw append-nil
group_rules-of_key key (rule ∷ rules) groups order =
    group_rules-of_key key rules (grouped_with rule groups) _
    ∙ ap (λ (front : List ArgConstraintRule). front ++ of_key key rules)
        (rules_at-grouped_with key rule groups)
    ∙ append_assoc (rules_at (lookup key groups)) (of_key key (rule ∷ [])) (of_key key rules)
    ∙ ap (λ (back : List ArgConstraintRule). rules_at (lookup key groups) ++ back)
        (of_key-front key rule rules)

-- Every group is in the order.
Ordered : Map (List ArgConstraintRule) → List String → Type 0
Ordered groups order =
    (key : String) (rules : List ArgConstraintRule) → lookup key groups ≡ some rules → In key order

In-front {ℓ} : {A : Type ℓ} (a : A) (xs ys : List A) → In a xs → In a (xs ++ ys)
In-front a [] ys h = absurd h.lower
In-front a (x ∷ xs) ys (inl e) = inl e
In-front a (x ∷ xs) ys (inr h) = inr (In-front a xs ys h)

In-last {ℓ} : {A : Type ℓ} (a : A) (xs : List A) → In a (xs ++ a ∷ [])
In-last a [] = inl refl
In-last a (x ∷ xs) = inr (In-last a xs)

order_with-keeps :
    (key : String) (rule : ArgConstraintRule) (found : Option (List ArgConstraintRule))
    (order : List String)
    → In key order
    → In key (order_with rule found order)
order_with-keeps key rule none order h = In-front key order _ h
order_with-keeps key rule (some rules) order h = h

order_with-adds :
    (rule : ArgConstraintRule) (groups : Map (List ArgConstraintRule)) (order : List String)
    → Ordered groups order
    → In (group_key rule) (order_with rule (lookup (group_key rule) groups) order)
unfolding Ordered
order_with-adds rule groups order h = elim (Option-cases (lookup (group_key rule) groups)) [
  | inl missing ↦ rw missing (In-last (group_key rule) order)
  | inr (rules, found) ↦ rw found (h (group_key rule) rules found)
]

grouped_with-Ordered :
    (rule : ArgConstraintRule) (groups : Map (List ArgConstraintRule)) (order : List String)
    → Ordered groups order
    → Ordered (grouped_with rule groups) (order_with rule (lookup (group_key rule) groups) order)
unfolding Ordered
grouped_with-Ordered rule groups order h key rules e = elim (Bool-cases (group_key rule == key)) [
  | inl same ↦
      rw (← (eq_iff (group_key rule) key).0 same)
        (order_with-adds rule groups order (unfold Ordered in h))
  | inr other ↦
      order_with-keeps key rule (lookup (group_key rule) groups) order
        (h key rules (rw (lookup-insert (group_key rule) key, other) at e))
]

group_rules-keeps :
    (key : String) (rules : List ArgConstraintRule) (groups : Map (List ArgConstraintRule))
    (order : List String)
    → In key order
    → In key (group_rules rules groups order).1
unfolding group_rules
group_rules-keeps key [] groups order h = h
group_rules-keeps key (rule ∷ rules) groups order h =
    group_rules-keeps key rules _ _
      (order_with-keeps key rule (lookup (group_key rule) groups) order h)

group_rules-In :
    (q : ArgConstraintRule) (rules : List ArgConstraintRule) (groups : Map (List ArgConstraintRule))
    (order : List String)
    → Ordered groups order
    → In q rules
    → In (group_key q) (group_rules rules groups order).1
unfolding group_rules
group_rules-In q [] groups order o h = absurd h.lower
group_rules-In q (rule ∷ rules) groups order o (inl e) =
    group_rules-keeps (group_key q) rules _ _ (rw e (order_with-adds rule groups order o))
group_rules-In q (rule ∷ rules) groups order o (inr later) =
    group_rules-In q rules _ _ (grouped_with-Ordered rule groups order o) later

-- The group of a key holds the rules of that key.
pub group_allow-of_key :
    (key : String) (rules : List ArgConstraintRule)
    → rules_at (lookup key (group_allow_constraint_rules rules).0) ≡ of_key key rules
unfolding group_allow_constraint_rules of_key lookup
group_allow-of_key key rules = group_rules-of_key key rules [] []

pub group_allow-In :
    (q : ArgConstraintRule) (rules : List ArgConstraintRule)
    → In q rules
    → In (group_key q) (group_allow_constraint_rules rules).1
unfolding group_allow_constraint_rules Ordered lookup
group_allow-In q rules h = group_rules-In q rules [] [] (λ key found e. absurd (cc e)) h
