-- ===== src/Arguments/Schema.antt =====
-- `matchJSONSchema`. The recursion descends into the schema's parts, and takes fuel here: `none` means
-- that the fuel ran out. A result is whether the value matched, with its second result false where the
-- schema is not valid. Properties are tried in the order of the list that stands for the map.
use rbitr.Prelude.{
  ℕ, zero, suc, ◌-◌, ◌%◌, ◌^◌, String, Bool, true, false, ◌&&◌, ◌||◌, ◌==◌, not, if◌then◌else◌, ltb,
  eqb, Option, none, some, List,
}
use rbitr.Json.{
  pos, negsuc, Value, null, boolean, number, float, text, array, object, Values, nil, cons, Members,
  end, member, get, has_member, float_exponent, float_fraction,
}
use rbitr.Json.Equality.{deep_equal}
use rbitr.Arguments.{◌>>=◌}

-- (true, true), (false, true) and (false, false)
pub data Matching : Type 0 where
  matches : Matching
  differs : Matching
  invalid : Matching

-- the texts of a list, if all are texts
unfoldable pub parse_schema_required_fields : Values → Option (List String)
parse_schema_required_fields nil = some List.[]
parse_schema_required_fields (cons (text s) items) = do
  fields ← parse_schema_required_fields items
  some (List.◌∷◌ s fields)
parse_schema_required_fields (cons _ items) = none

-- ParseFloat overflows from half a unit in the last place above the greatest float.
abbrev within_float : ℕ → Bool
within_float n = ltb n (2 ^ 1024 - 2 ^ 970)

unfoldable pub is_json_number : Value → Bool
is_json_number (number (pos n)) = within_float n
is_json_number (number (negsuc n)) = within_float (suc n)
is_json_number (float b) = true
is_json_number _ = false

-- `math.Trunc(v) == v`: no bit of the fraction weighs less than one
abbrev float_is_whole : ℕ → Bool
float_is_whole b =
    if ltb (float_exponent b) 1023
    then eqb (b % 2 ^ 63) 0
    else if ltb (float_exponent b) 1075
    then eqb (float_fraction b % 2 ^ (1075 - float_exponent b)) 0
    else not (eqb (float_exponent b) 2047 && ltb 0 (float_fraction b))

unfoldable pub is_json_integer : Value → Bool
is_json_integer (number (pos n)) = ltb n (2 ^ 63)
is_json_integer (number (negsuc n)) = ltb n (2 ^ 63)
is_json_integer (float b) = float_is_whole b
is_json_integer _ = false

abbrev is_object : Value → Bool
is_object (object ms) = true
is_object _ = false

abbrev is_array : Value → Bool
is_array (array vs) = true
is_array _ = false

abbrev is_text : Value → Bool
is_text (text s) = true
is_text _ = false

abbrev is_boolean : Value → Bool
is_boolean (boolean b) = true
is_boolean _ = false

abbrev is_null : Value → Bool
is_null null = true
is_null _ = false

unfoldable pub matches_single_json_schema_type : Value → String → Bool
unfolding is_json_number is_json_integer
matches_single_json_schema_type value name =
    if name == "object"
    then is_object value
    else if name == "array"
    then is_array value
    else if name == "string"
    then is_text value
    else if name == "number"
    then is_json_number value
    else if name == "integer"
    then is_json_integer value
    else if name == "boolean"
    then is_boolean value
    else if name == "null"
    then is_null value
    else false

abbrev any_type : Value → List String → Bool
any_type value List.[] = false
any_type value (List.◌∷◌ name names) =
    matches_single_json_schema_type value name || any_type value names

abbrev any_type_of : Value → Option (List String) → Bool
any_type_of value none = false
any_type_of value (some names) = any_type value names

unfoldable pub matches_json_schema_type : Value → Value → Bool
unfolding matches_single_json_schema_type parse_schema_required_fields
matches_json_schema_type value (text name) = any_type value (List.◌∷◌ name List.[])
matches_json_schema_type value (array items) =
    any_type_of value (parse_schema_required_fields items)
matches_json_schema_type value _ = false

-- some candidate is the value
unfoldable pub any_equal : Value → Values → Bool
any_equal value nil = false
any_equal value (cons candidate candidates) =
    deep_equal value candidate || any_equal value candidates

abbrev in_enum : Value → Value → Matching
in_enum value (array candidates) = if any_equal value candidates then matches else differs
in_enum value _ = invalid

abbrev has_all : Members → List String → Bool
has_all obj List.[] = true
has_all obj (List.◌∷◌ key keys) = has_member key obj && has_all obj keys

abbrev has_fields : Value → Option (List String) → Matching
has_fields value none = invalid
has_fields (object obj) (some keys) = if has_all obj keys then matches else differs
has_fields value (some keys) = differs

abbrev has_required : Value → Value → Matching
has_required value (array items) = has_fields value (parse_schema_required_fields items)
has_required value _ = invalid

-- the next check, where this one is passed
abbrev pub and_then : Matching → Option Matching → Option Matching
and_then matches next = next
and_then differs next = some differs
and_then invalid next = some invalid

-- a keyword of the schema, where it has it
abbrev pub keyword {ℓ} : {A : Type ℓ} → String → Members → A → (Value → A) → A
keyword key schema absent check = if has_member key schema then check (get key schema) else absent

-- the loops over the properties and over the items
unfoldable pub match_properties :
    (Value → Value → Option Matching) → Members → Members → Option Matching
match_properties recur end obj = some matches
match_properties recur (member key schema rest) obj =
    let later = match_properties recur rest obj in
    if has_member key obj then (recur schema (get key obj) >>= λ m. and_then m later) else later

unfoldable pub match_items : (Value → Option Matching) → Values → Option Matching
match_items recur nil = some matches
match_items recur (cons item items) =
    let later = match_items recur items in recur item >>= λ m. and_then m later

abbrev pub check_properties : (Value → Value → Option Matching) → Value → Value → Option Matching
check_properties recur (object obj) (object properties) = match_properties recur properties obj
check_properties recur value (object properties) = some differs
check_properties recur value _ = some invalid

abbrev pub check_items : (Value → Option Matching) → Value → Option Matching
check_items recur (array items) = match_items recur items
check_items recur value = some differs

unfoldable pub enum_keyword : Members → Value → Matching
unfolding any_equal
enum_keyword schema value = keyword "enum" schema matches (in_enum value)

unfoldable pub const_keyword : Members → Value → Matching
const_keyword schema value =
    keyword "const" schema matches (λ c. if deep_equal value c then matches else differs)

unfoldable pub type_keyword : Members → Value → Matching
unfolding matches_json_schema_type
type_keyword schema value =
    keyword "type" schema matches
      (λ t. if matches_json_schema_type value t then matches else differs)

unfoldable pub required_keyword : Members → Value → Matching
unfolding parse_schema_required_fields
required_keyword schema value = keyword "required" schema matches (has_required value)

module _ (compile : String → Option (String → Bool)) where
  abbrev run_pattern : Option (String → Bool) → String → Matching
  run_pattern none s = invalid
  run_pattern (some runs) s = if runs s then matches else differs

  -- a value that is no text differs before the pattern is compiled
  abbrev fits_pattern : Value → Value → Matching
  fits_pattern (text s) (text pattern_text) = run_pattern (compile pattern_text) s
  fits_pattern value (text pattern_text) = differs
  fits_pattern value _ = invalid

  unfoldable pub pattern_keyword : Members → Value → Matching
  pattern_keyword schema value = keyword "pattern" schema matches (fits_pattern value)

  -- the checks of a schema that is a map, in order
  unfoldable pub match_keywords :
      (Value → Value → Option Matching) → Members → Value → Option Matching
  unfolding enum_keyword const_keyword type_keyword pattern_keyword required_keyword
      match_properties match_items
  match_keywords recur schema value = and_then (enum_keyword schema value) (
      and_then (const_keyword schema value) (
        and_then (type_keyword schema value) (
          and_then (pattern_keyword schema value) (
            and_then (required_keyword schema value) (
              keyword "properties" schema (some matches) (check_properties recur value) >>= λ m.
              and_then m
                (keyword "items" schema (some matches) (λ s. check_items (recur s) value)))))))

  unfoldable pub match_json_schema : ℕ → Value → Value → Option Matching
  unfolding match_keywords
  match_json_schema zero schema value = none
  match_json_schema (suc fuel) (boolean b) value = some (if b then matches else differs)
  match_json_schema (suc fuel) (object schema) value =
      match_keywords (match_json_schema fuel) schema value
  match_json_schema (suc fuel) schema value = some invalid
