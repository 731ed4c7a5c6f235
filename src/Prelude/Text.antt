-- ===== src/Prelude/Text.antt =====
-- Go's `strings` package, as far as the program uses it, over the native texts.
use Prim.Native.Nat.{ℕ, ◌+◌, ◌-◌}
use Prim.Native.Char.{Char, code}
use Prim.Native.String
use Prim.Native.String.{String, char_at, [], ◌∷◌}
use mathlib.Core.Bool.{Bool, false, ◌&&◌, ◌||◌}
use mathlib.Core.List.{List}
use text.Mathlib.Text.{◌==◌, starts_with}
use rbitr.Prelude.Tests.{eqb, leb, if◌then◌else◌}

-- The tables of Go's package unicode, which are consulted for characters beyond ASCII.
pub record Unicode : Type 0 where
  pub lower : Char → Char
  pub upper : Char → Char
  pub space : Char → Bool

-- The tables of a locale-free ASCII text.
abbrev pub ascii : Unicode
ascii = record { lower = λ c. c; upper = λ c. c; space = λ _. false }

abbrev append : String → String → String
append = String.◌++◌

-- `strings.ReplaceAll` for a pattern of one character
unfoldable pub replace_char : ℕ → Char → String → String
replace_char from to [] = []
replace_char from to (c ∷ s) = (if eqb (code c) from then to else c) ∷ replace_char from to s

unfoldable pub map_chars : (Char → Char) → String → String
map_chars f [] = []
map_chars f (c ∷ s) = f c ∷ map_chars f s

-- `strings.TrimPrefix` for a prefix of one character
unfoldable pub trim_prefix_char : ℕ → String → String
trim_prefix_char n [] = []
trim_prefix_char n (c ∷ s) = if eqb (code c) n then s else c ∷ s

-- the bytes of a character in UTF-8
abbrev char_width : Char → ℕ
char_width c =
    if leb (code c) 127
    then 1
    else if leb (code c) 2047
    then 2
    else if leb (code c) 65535
    then 3
    else 4

-- `len(s)`, in bytes
unfoldable pub byte_length : String → ℕ
byte_length [] = 0
byte_length (c ∷ s) = char_width c + byte_length s

-- `strings.ContainsRune`
unfoldable pub contains_char : ℕ → String → Bool
contains_char n [] = false
contains_char n (c ∷ s) = eqb (code c) n || contains_char n s

-- `strings.Contains`
unfoldable pub contains : String → String → Bool
contains [] t = starts_with [] t
contains (c ∷ s) t = starts_with (c ∷ s) t || contains s t

push_char : Char → List String → List String
push_char c List.[] = List.◌∷◌ (c ∷ []) List.[]
push_char c (List.◌∷◌ s ss) = List.◌∷◌ (c ∷ s) ss

-- `strings.Split(s, sep)` for a separator of one character: the parts between the separators
unfoldable pub split : ℕ → String → List String
unfolding push_char
split sep [] = List.◌∷◌ [] List.[]
split sep (c ∷ s) =
    let rest = split sep s in if eqb (code c) sep then List.◌∷◌ [] rest else push_char c rest

-- `strings.Cut(s, sep)`: the text before the separator, if there is one
unfoldable pub cut_before : ℕ → String → String
cut_before sep [] = []
cut_before sep (c ∷ s) = if eqb (code c) sep then [] else c ∷ cut_before sep s

-- `strings.TrimLeft(s, cutset)`
unfoldable pub trim_left : (Char → Bool) → String → String
trim_left p [] = []
trim_left p (c ∷ s) = if p c then trim_left p s else c ∷ s

-- `strings.TrimRight(s, cutset)`: a trailing run of the cutset is dropped
unfoldable pub trim_right : (Char → Bool) → String → String
trim_right p [] = []
trim_right p (c ∷ s) = let rest = trim_right p s in if p c && rest == "" then [] else c ∷ rest

-- `strings.Join`
unfoldable pub join : String → List String → String
join sep List.[] = ""
join sep (List.◌∷◌ s List.[]) = s
join sep (List.◌∷◌ s (List.◌∷◌ t ts)) = append s (append sep (join sep (List.◌∷◌ t ts)))

module _ ⦃u : Unicode⦄ where
  unfoldable pub lower_char : Char → Char
  lower_char c =
      if leb 65 (code c) && leb (code c) 90
      then char_at "abcdefghijklmnopqrstuvwxyz" (code c - 65)
      else if leb (code c) 127
      then c
      else u.lower c

  unfoldable pub upper_char : Char → Char
  upper_char c =
      if leb 97 (code c) && leb (code c) 122
      then char_at "ABCDEFGHIJKLMNOPQRSTUVWXYZ" (code c - 97)
      else if leb (code c) 127
      then c
      else u.upper c

  -- `unicode.IsSpace`: \t \n \v \f \r and the blank, or the table
  unfoldable pub is_space : Char → Bool
  is_space c =
      if leb (code c) 127 then (leb 9 (code c) && leb (code c) 13) || eqb (code c) 32 else u.space c

  -- `strings.ToLower`
  unfoldable pub to_lower : String → String
  unfolding lower_char
  to_lower [] = []
  to_lower (c ∷ s) = lower_char c ∷ to_lower s

  -- `strings.ToUpper`
  unfoldable pub to_upper : String → String
  unfolding upper_char
  to_upper [] = []
  to_upper (c ∷ s) = upper_char c ∷ to_upper s

  -- `strings.TrimSpace`
  unfoldable pub trim_space : String → String
  unfolding is_space trim_left trim_right
  trim_space s = trim_right is_space (trim_left is_space s)

  -- the pending word, reversed onto the words before it
  fields_from : String → String → List String
  unfolding is_space
  fields_from word [] = if word == "" then List.[] else List.◌∷◌ word List.[]
  fields_from word (c ∷ s) =
      let closed = fields_from "" s in
      let longer = fields_from (append word (c ∷ [])) s in
      if is_space c then (if word == "" then closed else List.◌∷◌ word closed) else longer

  -- `strings.Fields`
  unfoldable pub fields : String → List String
  unfolding fields_from
  fields s = fields_from "" s
