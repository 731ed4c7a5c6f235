-- ===== src/Arguments/Termination.antt =====
-- The recursion of `matchJSONSchema` ends: fuel beyond the schema's depth gives a result.
use rbitr.Prelude.{
  ℕ, zero, suc, ◌<◌, ◌≤◌, String, Bool, ◌≡◌, refl, inl, inr, Option, none, some, arith, Bool-cases,
  if◌then◌else◌,
}
use rbitr.Json.{
  Value, null, boolean, number, float, text, array, object, Values, nil, cons, Members, end, member,
  get, has_member,
}
use rbitr.Json.Depth.{depth, depth_members, depth-get}
use rbitr.Arguments.{◌>>=◌}
use rbitr.Arguments.Schema.{
  Matching, matches, differs, invalid, and_then, match_properties, match_items, match_keywords,
  match_json_schema, check_properties, check_items, keyword, enum_keyword, const_keyword,
  type_keyword, pattern_keyword, required_keyword,
}

-- There is a result.
abbrev pub Ends : Option Matching → Type 0
Ends r = (m : Matching) × (r ≡ some m)

and_then-Ends : (m : Matching) (next : Option Matching) → Ends next → Ends (and_then m next)
and_then-Ends matches next e = e
and_then-Ends differs next e = (differs, refl)
and_then-Ends invalid next e = (invalid, refl)

>>=-Ends :
    (r : Option Matching) (next : Option Matching)
    → Ends r
    → Ends next
    → Ends (r >>= λ m. and_then m next)
>>=-Ends (some m) next e f = and_then-Ends m next f
>>=-Ends none next (m, e) f = cc

module _ (recur : Value → Value → Option Matching) where
  match_items-Ends :
      (schema : Value) (items : Values)
      → ((value : Value) → Ends (recur schema value))
      → Ends (match_items (recur schema) items)
  unfolding match_items
  match_items-Ends schema nil e = (matches, refl)
  match_items-Ends schema (cons item items) e =
      >>=-Ends (recur schema item) _ (e item) (match_items-Ends schema items e)

  match_properties-Ends :
      (n : ℕ) (properties obj : Members)
      → depth_members properties ≤ n
      → ((schema value : Value) → depth schema ≤ n → Ends (recur schema value))
      → Ends (match_properties recur properties obj)
  unfolding match_properties depth
  match_properties-Ends n end obj d e = (matches, refl)
  match_properties-Ends n (member key schema rest) obj d e =
      let later = match_properties-Ends n rest obj (omega arith) e in
      elim (Bool-cases (has_member key obj)) [
        | inl known ↦
            rw known
              (>>=-Ends (recur schema (get key obj)) _ (e schema (get key obj) (omega arith)) later)
        | inr missing ↦ rw missing later
      ]

  check_properties-Ends :
      (n : ℕ) (value properties : Value)
      → depth properties ≤ n
      → ((schema value : Value) → depth schema ≤ n → Ends (recur schema value))
      → Ends (check_properties recur value properties)
  unfolding depth match_properties
  check_properties-Ends n (object obj) (object properties) d e =
      match_properties-Ends n properties obj (omega arith) e
  check_properties-Ends n null (object properties) d e = (differs, refl)
  check_properties-Ends n (boolean b) (object properties) d e = (differs, refl)
  check_properties-Ends n (number z) (object properties) d e = (differs, refl)
  check_properties-Ends n (float b) (object properties) d e = (differs, refl)
  check_properties-Ends n (text s) (object properties) d e = (differs, refl)
  check_properties-Ends n (array vs) (object properties) d e = (differs, refl)
  check_properties-Ends n _ _ d e = (invalid, refl)

  check_items-Ends :
      (schema value : Value)
      → ((item : Value) → Ends (recur schema item))
      → Ends (check_items (recur schema) value)
  check_items-Ends schema (array items) e = match_items-Ends schema items e
  check_items-Ends schema value e = (differs, refl)

keyword-Ends :
    (key : String) (schema : Members) (absent : Option Matching) (check : Value → Option Matching)
    → Ends absent
    → Ends (check (get key schema))
    → Ends (keyword key schema absent check)
keyword-Ends key schema absent check e f = elim (Bool-cases (has_member key schema)) [
  | inl known ↦ rw known f
  | inr missing ↦ rw missing e
]

module _ (compile : String → Option (String → Bool)) where
  match_keywords-Ends :
      (recur : Value → Value → Option Matching) (schema : Members) (value : Value)
      → ((part value : Value) → depth part ≤ depth_members schema → Ends (recur part value))
      → Ends (match_keywords compile recur schema value)
  unfolding match_keywords
  match_keywords-Ends recur schema value e = and_then-Ends (enum_keyword schema value) _ (
      and_then-Ends (const_keyword schema value) _ (
        and_then-Ends (type_keyword schema value) _ (
          and_then-Ends (pattern_keyword compile schema value) _ (
            and_then-Ends (required_keyword schema value) _ (
              >>=-Ends _ _
                (keyword-Ends "properties" schema (some matches) (check_properties recur value)
                  (matches, refl)
                  (check_properties-Ends recur (depth_members schema) value
                    (get "properties" schema) (depth-get "properties" schema) e))
                (keyword-Ends "items" schema (some matches) (λ part. check_items (recur part) value)
                  (matches, refl)
                  (check_items-Ends recur (get "items" schema) value
                    (λ item. e (get "items" schema) item (depth-get "items" schema)))))))))

  -- With fuel beyond the depth of the schema, matching a schema ends with a result, for every value and
  -- whatever patterns compile to.
  pub match_json_schema-ends :
      (fuel : ℕ) (schema value : Value)
      → depth schema < fuel
      → (m : Matching) × (match_json_schema compile fuel schema value ≡ some m)
  unfolding match_json_schema depth
  match_json_schema-ends (suc fuel) (boolean b) value d = (if b then matches else differs, refl)
  match_json_schema-ends (suc fuel) (object schema) value d =
      match_keywords-Ends (match_json_schema compile fuel) schema value
        (λ part v p. match_json_schema-ends fuel part v (omega arith))
  match_json_schema-ends (suc fuel) _ value d = (invalid, refl)
  match_json_schema-ends zero schema value d = absurd (omega arith)
