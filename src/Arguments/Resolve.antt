-- ===== src/Arguments/Resolve.antt =====
-- `resolveArgConstraintPath`: the value at a JSON pointer.
use Prim.Native.Char.{Char, code}
use rbitr.Prelude.{
  ℕ, suc, zero, ◌+◌, ◌-◌, ◌*◌, ◌^◌, String, ◌&&◌, ◌==◌, not, if◌then◌else◌, ltb, leb, eqb, Option,
  none, some, starts_with, trim_prefix_char, split, List,
}
use rbitr.Json.{ℤ, pos, negsuc, Value, Values, nil, cons, get, has_member, array_of, object_of}
use rbitr.Arguments.{◌>>=◌}

-- `strings.ReplaceAll` for a pattern of two characters and a text of one
unfoldable pub replace_pair : ℕ → ℕ → Char → String → String
replace_pair a b to String.[] = ""
replace_pair a b to (String.◌∷◌ c String.[]) = String.◌∷◌ c String.[]
replace_pair a b to (String.◌∷◌ c (String.◌∷◌ d s)) =
    let skipped = replace_pair a b to s in
    let kept = replace_pair a b to (String.◌∷◌ d s) in
    if eqb (code c) a && eqb (code d) b then String.◌∷◌ to skipped else String.◌∷◌ c kept

unfoldable pub decode_arg_constraint_token : String → String
unfolding replace_pair
decode_arg_constraint_token value = replace_pair b'~' b'0' "~" (replace_pair b'~' b'1' "/" value)

-- `strconv.Atoi`: a sign at most, then digits, within 64 bits
unfoldable pub digits : ℕ → String → Option ℕ
digits n String.[] = some n
digits n (String.◌∷◌ c s) =
    let rest = digits (n * 10 + (code c - b'0')) s in
    if leb b'0' (code c) && leb (code c) b'9' then rest else none

abbrev unsigned : String → Option ℕ
unsigned s = if s == "" then none else digits 0 s

abbrev as_positive : ℕ → Option ℤ
as_positive n = if ltb n (2 ^ 63) then some (pos n) else none

abbrev as_negative : ℕ → Option ℤ
as_negative zero = some (pos 0)
as_negative (suc n) = if ltb n (2 ^ 63) then some (negsuc n) else none

unfoldable pub atoi : String → Option ℤ
unfolding digits
atoi String.[] = none
atoi (String.◌∷◌ c s) =
    if eqb (code c) b'-'
    then unsigned s >>= as_negative
    else if eqb (code c) b'+'
    then unsigned s >>= as_positive
    else unsigned (String.◌∷◌ c s) >>= as_positive

-- `values[i]` within the bounds
unfoldable pub item_at : Values → ℕ → Option Value
item_at nil i = none
item_at (cons v vs) zero = some v
item_at (cons v vs) (suc i) = item_at vs i

abbrev item_at_int : Values → ℤ → Option Value
item_at_int vs (pos i) = item_at vs i
item_at_int vs (negsuc i) = none

-- `getMapValue`
unfoldable pub get_map_value : Value → String → Option Value
get_map_value container key = do
  m ← object_of container
  if has_member key m then some (get key m) else none

-- the item that a segment numbers
abbrev item_of : Value → String → Option Value
item_of current segment = do
  values ← array_of current
  index ← atoi segment
  item_at_int values index

abbrev or_try : Option Value → Option Value → Option Value
or_try none other = other
or_try (some v) other = some v

-- one turn of the loop, on a decoded segment
unfoldable pub step_into : Value → String → Option Value
unfolding get_map_value atoi item_at
step_into current segment = or_try (get_map_value current segment) (item_of current segment)

unfoldable pub walk : Value → List String → Option Value
walk current List.[] = some current
walk current (List.◌∷◌ token tokens) =
    step_into current (decode_arg_constraint_token token) >>= λ next. walk next tokens

unfoldable pub resolve_arg_constraint_path : Value → String → Option Value
unfolding walk
resolve_arg_constraint_path root path =
    if path == "/"
    then some root
    else if not (starts_with path "/")
    then none
    else walk root (split b'/' (trim_prefix_char b'/' path))
