-- ===== src/Json.antt =====
-- Decoded JSON, Go's `any`. A number that a policy returns is a `json.Number`, and here a whole
-- number in its decimal form, as is an integer that the code itself writes; one that `json.Unmarshal` decodes is a float64, by its bits. Go's nil,
-- and what a missing key yields, is `null`.
pub mod Equality
pub mod Depth
use rbitr.Prelude.{
  ℕ, ◌+◌, ◌-◌, ◌*◌, ◌/◌, ◌%◌, ◌^◌, String, Bool, true, false, ◌==◌, if◌then◌else◌, ltb, Option,
  none, some,
}

pub data ℤ : Type 0 where
  pos : ℕ → ℤ
  negsuc : ℕ → ℤ

abbrev pub ltz : ℤ → ℤ → Bool
ltz (pos m) (pos n) = ltb m n
ltz (pos m) (negsuc n) = false
ltz (negsuc m) (pos n) = true
ltz (negsuc m) (negsuc n) = ltb n m

mutual
  pub data Value : Type 0 where
    null : Value
    boolean : Bool → Value
    number : ℤ → Value
    float : ℕ → Value
    text : String → Value
    array : Values → Value
    object : Members → Value

  pub data Values : Type 0 where
    nil : Values
    cons : Value → Values → Values

  pub data Members : Type 0 where
    end : Members
    member : String → Value → Members → Members

-- `m[key]`
unfoldable pub get : String → Members → Value
get key end = null
get key (member k v ms) = if k == key then v else get key ms

-- `m[key]` with its second result
unfoldable pub has_member : String → Members → Bool
has_member key end = false
has_member key (member k v ms) = if k == key then true else has_member key ms

-- `m[key] = v`
unfoldable pub set_member : String → Value → Members → Members
set_member key v end = member key v end
set_member key v (member k w ms) =
    if k == key then member key v ms else member k w (set_member key v ms)

-- `v.(string)`, with the empty text where the assertion fails
abbrev pub text_of : Value → String
text_of (text s) = s
text_of _ = ""

-- `v.(map[string]any)`
abbrev pub object_of : Value → Option Members
object_of (object ms) = some ms
object_of _ = none

-- `v.([]any)`
abbrev pub array_of : Value → Option Values
array_of (array vs) = some vs
array_of _ = none

-- The parts of the 64 bits of a float: sign, exponent and fraction.
abbrev pub float_negative : ℕ → Bool
float_negative b = ltb 0 (b / 2 ^ 63 % 2)

abbrev pub float_exponent : ℕ → ℕ
float_exponent b = b / 2 ^ 52 % 2 ^ 11

abbrev pub float_fraction : ℕ → ℕ
float_fraction b = b % 2 ^ 52

-- The absolute value of a finite float without its fraction, as `math.Trunc` and the conversions to
-- whole numbers take it
unfoldable pub float_whole : ℕ → ℕ
float_whole b =
    if ltb (float_exponent b) 1023
    then 0
    else if ltb (float_exponent b) 1075
    then (2 ^ 52 + float_fraction b) / 2 ^ (1075 - float_exponent b)
    else (2 ^ 52 + float_fraction b) * 2 ^ (float_exponent b - 1075)

-- `int(v)` of a float64 that the integers hold
unfoldable pub float_to_int : ℕ → ℤ
unfolding float_whole
float_to_int b =
    if float_negative b
    then (if ltb 0 (float_whole b) then negsuc (float_whole b - 1) else pos 0)
    else pos (float_whole b)
