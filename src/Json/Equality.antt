-- ===== src/Json/Equality.antt =====
-- `reflect.DeepEqual` on decoded JSON.
use rbitr.Prelude.{ℕ, ◌+◌, Bool, true, false, ◌==◌, ◌&&◌, ◌||◌, eqb, ltb, not}
use rbitr.Json.{
  ℤ, pos, negsuc, Value, null, boolean, number, float, text, array, object, Values, nil, cons,
  Members, end, member, get, has_member, float_exponent, float_fraction,
}

abbrev pub eq_bool : Bool → Bool → Bool
eq_bool true b = b
eq_bool false b = not b

-- one decimal form for each whole number
abbrev pub eq_int : ℤ → ℤ → Bool
eq_int (pos m) (pos n) = eqb m n
eq_int (negsuc m) (negsuc n) = eqb m n
eq_int _ _ = false

abbrev float_zero : ℕ → Bool
float_zero b = eqb (float_exponent b) 0 && eqb (float_fraction b) 0

-- a NaN has the highest exponent and a fraction
abbrev float_nan : ℕ → Bool
float_nan b = eqb (float_exponent b) 2047 && ltb 0 (float_fraction b)

-- `==` on float64
abbrev pub eq_float : ℕ → ℕ → Bool
eq_float a b = not (float_nan a) && (eqb a b || (float_zero a && float_zero b))

abbrev pub member_count : Members → ℕ
member_count end = 0
member_count (member k v ms) = 1 + member_count ms

unfoldable mutual
  -- Values of different Go types are never equal: a json.Number is no float64.
  pub deep_equal : Value → Value → Bool
  deep_equal null null = true
  deep_equal (boolean a) (boolean b) = eq_bool a b
  deep_equal (number y) (number z) = eq_int y z
  deep_equal (float a) (float b) = eq_float a b
  deep_equal (text s) (text t) = s == t
  deep_equal (array vs) (array ws) = deep_equal_items vs ws
  deep_equal (object ms) (object ns) =
      eqb (member_count ms) (member_count ns) && deep_equal_members ms ns
  deep_equal _ _ = false

  pub deep_equal_items : Values → Values → Bool
  deep_equal_items nil nil = true
  deep_equal_items (cons v vs) (cons w ws) = deep_equal v w && deep_equal_items vs ws
  deep_equal_items _ _ = false

  -- each member of the first map is in the second
  pub deep_equal_members : Members → Members → Bool
  deep_equal_members end ns = true
  deep_equal_members (member k v ms) ns =
      has_member k ns && deep_equal v (get k ns) && deep_equal_members ms ns
