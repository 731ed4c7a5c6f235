-- ===== src/Policy/Winner.antt =====
-- Which of the matched rules decides.
use rbitr.Prelude.{
  ◌≡◌, ◌⊎◌, inl, inr, refl, Bool, true, false, ltb, if◌then◌else◌, List, [], ◌∷◌, arith, Bool-cases,
  All, All-map, In,
}
use rbitr.Json.{ltz, ℤ, pos, negsuc}
use rbitr.Policy.{MatchedRule, Decision}
use rbitr.Policy.Opa.{decision_rank, matched_rule_less, place_rule, sort_rules, resolve_decision}

-- A rule with a higher priority, or with the same priority and a stricter effect.
abbrev pub outranks : MatchedRule → MatchedRule → Bool
outranks l r =
    if ltz r.priority l.priority
    then true
    else if ltz l.priority r.priority
    then false
    else ltb (decision_rank r.effect) (decision_rank l.effect)

abbrev pub Unbeaten : MatchedRule → MatchedRule → Type 0
Unbeaten w m = outranks m w ≡ false

ltz-asym : (a b : ℤ) → ltz a b ≡ true → ltz b a ≡ false
ltz-asym (pos m) (pos n) h = ground arith
ltz-asym (pos m) (negsuc n) h = cc
ltz-asym (negsuc m) (pos n) h = refl
ltz-asym (negsuc m) (negsuc n) h = ground arith

ltz-cut : (a b c : ℤ) → ltz a b ≡ true → ltz c b ≡ false → ltz a c ≡ true
ltz-cut (pos m) (pos n) (pos k) h g = ground arith
ltz-cut (pos m) (pos n) (negsuc k) h g = cc
ltz-cut (pos m) (negsuc n) c h g = cc
ltz-cut (negsuc m) (pos n) (pos k) h g = refl
ltz-cut (negsuc m) (pos n) (negsuc k) h g = cc
ltz-cut (negsuc m) (negsuc n) (pos k) h g = refl
ltz-cut (negsuc m) (negsuc n) (negsuc k) h g = ground arith

less-Unbeaten : (x y : MatchedRule) → matched_rule_less y x ≡ true → Unbeaten y x
unfolding matched_rule_less
less-Unbeaten x y h = ground (arith, ltz-asym x.priority y.priority, ltz-asym y.priority x.priority)

not_less-Unbeaten : (x y : MatchedRule) → matched_rule_less y x ≡ false → Unbeaten x y
unfolding matched_rule_less
not_less-Unbeaten x y h = ground arith

Unbeaten-trans : (x y m : MatchedRule) → Unbeaten x y → Unbeaten y m → Unbeaten x m
Unbeaten-trans x y m h k = ground (
  arith,
  ltz-cut x.priority m.priority y.priority,
  ltz-cut y.priority m.priority x.priority,
  ltz-cut x.priority y.priority m.priority,
  ltz-cut m.priority x.priority y.priority,
  ltz-asym x.priority m.priority,
  ltz-asym x.priority y.priority,
  ltz-asym y.priority m.priority,
)

outranks_self : (x : MatchedRule) → Unbeaten x x
outranks_self x = ground (arith, ltz-asym x.priority x.priority)

-- The first rule of a list is unbeaten by the rules of another.
abbrev HeadUnbeaten : List MatchedRule → List MatchedRule → Type 0
HeadUnbeaten [] zs = zs ≡ []
HeadUnbeaten (w ∷ ws) zs = All (Unbeaten w) zs

place_rule-HeadUnbeaten :
    (x : MatchedRule) (ys zs : List MatchedRule)
    → HeadUnbeaten ys zs
    → HeadUnbeaten (place_rule x ys) (x ∷ zs)
unfolding place_rule
place_rule-HeadUnbeaten x [] zs h = rw h (outranks_self x, tt)
place_rule-HeadUnbeaten x (y ∷ ys) zs h = elim (Bool-cases (matched_rule_less y x)) [
  | inl before ↦ rw (before, place_rule) (less-Unbeaten x y before, h)
  | inr after ↦
      rw (after, place_rule)
        (
          outranks_self x,
          All-map (Unbeaten y) (Unbeaten x) zs
              (λ m. Unbeaten-trans x y m (not_less-Unbeaten x y after)) h,
        )
]

sort_rules-HeadUnbeaten : (xs : List MatchedRule) → HeadUnbeaten (sort_rules xs) xs
unfolding sort_rules
sort_rules-HeadUnbeaten [] = refl
sort_rules-HeadUnbeaten (x ∷ xs) =
    place_rule-HeadUnbeaten x (sort_rules xs) xs (sort_rules-HeadUnbeaten xs)

place_rule-In :
    (w x : MatchedRule) (ys : List MatchedRule) → In w (place_rule x ys) → (w ≡ x) ⊎ In w ys
unfolding place_rule
place_rule-In w x [] h = h
place_rule-In w x (y ∷ ys) h = elim (Bool-cases (matched_rule_less y x)) [
  | inl before ↦ elim (rw (before, place_rule) at h) [
    | inl e ↦ inr (inl e)
    | inr rest ↦ elim (place_rule-In w x ys rest) [ inl e ↦ inl e | inr k ↦ inr (inr k) ]
  ]
  | inr after ↦ rw (after, place_rule) at h
]

sort_rules-In : (w : MatchedRule) (xs : List MatchedRule) → In w (sort_rules xs) → In w xs
unfolding sort_rules
sort_rules-In w [] h = h
sort_rules-In w (x ∷ xs) h = elim (place_rule-In w x (sort_rules xs) h) [
  | inl e ↦ inl e
  | inr k ↦ inr (sort_rules-In w xs k)
]

-- With matched rules, one of them decides: the decision and the rule that the result names are those
-- of a matched rule that no other outranks, by a higher priority or, at the same priority, by a
-- stricter effect (DENY over REQUIRE_APPROVAL over ALLOW).
pub resolve_decision-Unbeaten :
    (d : Decision) (x : MatchedRule) (xs : List MatchedRule)
    → d.matched_rules ≡ sort_rules (x ∷ xs)
    → (w : MatchedRule) × In w (x ∷ xs)
      × ((resolve_decision d).decision ≡ w.effect)
      × ((resolve_decision d).rule.id ≡ w.rule_id)
      × All (Unbeaten w) (x ∷ xs)
unfolding resolve_decision
resolve_decision-Unbeaten d x xs e =
    decided (sort_rules (x ∷ xs)) e (sort_rules-HeadUnbeaten (x ∷ xs))
      (λ w. sort_rules-In w (x ∷ xs))
  where
    decided :
        (sorted : List MatchedRule)
        → d.matched_rules ≡ sorted
        → HeadUnbeaten sorted (x ∷ xs)
        → ((w : MatchedRule) → In w sorted → In w (x ∷ xs))
        → (w : MatchedRule) × In w (x ∷ xs)
          × ((resolve_decision d).decision ≡ w.effect)
          × ((resolve_decision d).rule.id ≡ w.rule_id)
          × All (Unbeaten w) (x ∷ xs)
    decided [] e h k = cc
    decided (w ∷ ws) e h k =
        (w, k w (inl refl), rw (e, resolve_decision) refl, rw (e, resolve_decision) refl, h)
