-- ===== src/Arguments/Pointers.antt =====
-- Paths are JSON pointers: what escapes a key is undone, and a pointer leads along its keys.
use Prim.Native.Char.{Char, code}
use Prim.Native.String
use text.Mathlib.TextEquality.{Char-path}
use text.Mathlib.TextLemmas.{nil-append, cons-append, append-nil}
use text.Mathlib.TextPositions.{starts_with-append}
use rbitr.Prelude.{
  ℕ, String, true, false, ◌≡◌, ◌≢◌, inl, inr, refl, sym, ap, ◌∙◌, ◌==◌, eq_iff, Option, some, List,
  map, arith, Bool-cases, Option-cases, if◌then◌else◌, eqb, starts_with, trim_prefix_char, split,
  join,
}
use rbitr.Json.{Value}
use rbitr.Arguments.{◌>>=◌}
use rbitr.Arguments.Resolve.{
  replace_pair, decode_arg_constraint_token, step_into, walk, resolve_arg_constraint_path,
}

-- The escapes of a JSON pointer.
unfoldable pub encode_token : String → String
encode_token String.[] = ""
encode_token (String.◌∷◌ c s) =
    let rest = encode_token s in
    if eqb (code c) b'~'
    then String.◌∷◌ "~" (String.◌∷◌ "0" rest)
    else if eqb (code c) b'/'
    then String.◌∷◌ "~" (String.◌∷◌ "1" rest)
    else String.◌∷◌ c rest

unfoldable pub pointer : List String → String
unfolding encode_token
pointer keys = String.◌∷◌ "/" (join "/" (map encode_token keys))

-- a turn of the loop for each key
unfoldable pub follow : Value → List String → Option Value
follow root List.[] = some root
follow root (List.◌∷◌ key keys) = step_into root key >>= λ next. follow next keys

-- the text after the first of the two replacements
halfway : String → String
halfway String.[] = ""
halfway (String.◌∷◌ c s) =
    let rest = halfway s in
    if eqb (code c) b'~' then String.◌∷◌ "~" (String.◌∷◌ "0" rest) else String.◌∷◌ c rest

replace_pair-other :
    (a b : ℕ) (to : Char) (c : Char) (s : String)
    → eqb (code c) a ≡ false
    → replace_pair a b to (String.◌∷◌ c s) ≡ String.◌∷◌ c (replace_pair a b to s)
unfolding replace_pair
replace_pair-other a b to c String.[] h = refl
replace_pair-other a b to c (String.◌∷◌ d s) h = rw h

first_replacement : (s : String) → replace_pair b'~' b'1' "/" (encode_token s) ≡ halfway s
unfolding encode_token halfway replace_pair
first_replacement String.[] = refl
first_replacement (String.◌∷◌ c s) = elim (Bool-cases (eqb (code c) b'~')) [
  | inl tilde ↦ rw tilde (
      ap (String.◌∷◌ "~") (
        replace_pair-other b'~' b'1' "/" "0" (encode_token s) refl
        ∙ ap (String.◌∷◌ "0") (first_replacement s)))
  | inr other ↦ elim (Bool-cases (eqb (code c) b'/')) [
    | inl slash ↦
        (let same : c ≡ "/" = Char-path c "/" (ground arith) in
          rw (other, slash)
            (ap (String.◌∷◌ "/") (first_replacement s)
              ∙ ap (λ (d : Char). String.◌∷◌ d (halfway s)) (sym same)))
    | inr plain ↦
        rw (other, plain)
          (replace_pair-other b'~' b'1' "/" c (encode_token s) other
            ∙ ap (String.◌∷◌ c) (first_replacement s))
  ]
]

second_replacement : (s : String) → replace_pair b'~' b'0' "~" (halfway s) ≡ s
unfolding halfway replace_pair
second_replacement String.[] = refl
second_replacement (String.◌∷◌ c s) = elim (Bool-cases (eqb (code c) b'~')) [
  | inl tilde ↦
      (let same : c ≡ "~" = Char-path c "~" (ground arith) in
        rw tilde (
          ap (String.◌∷◌ "~") (second_replacement s)
          ∙ ap (λ (d : Char). String.◌∷◌ d s) (sym same)))
  | inr other ↦ rw other (
      replace_pair-other b'~' b'0' "~" c (halfway s) other
      ∙ ap (String.◌∷◌ c) (second_replacement s))
]

-- Decoding a segment undoes its escapes.
pub decode-encode_token : (key : String) → decode_arg_constraint_token (encode_token key) ≡ key
unfolding decode_arg_constraint_token
decode-encode_token key =
    ap (replace_pair b'~' b'0' "~") (first_replacement key) ∙ second_replacement key

split-cons :
    (c : Char) (s t : String) (rest : List String)
    → eqb (code c) b'/' ≡ false
    → split b'/' s ≡ List.◌∷◌ t rest
    → split b'/' (String.◌∷◌ c s) ≡ List.◌∷◌ (String.◌∷◌ c t) rest
unfolding split
split-cons c s t rest plain e = rw (plain, e)

split-prefixed :
    (c : Char) (k s t : String) (rest : List String)
    → eqb (code c) b'/' ≡ false
    → split b'/' (String.◌++◌ k s) ≡ List.◌∷◌ (String.◌++◌ k t) rest
    → split b'/' (String.◌++◌ (String.◌∷◌ c k) s) ≡ List.◌∷◌ (String.◌++◌ (String.◌∷◌ c k) t) rest
split-prefixed c k s t rest plain e =
    rw (cons-append c k s, cons-append c k t) (split-cons c _ _ rest plain e)

-- Escaped text before a separator is one segment.
split-encode_token :
    (key s t : String) (rest : List String)
    → split b'/' s ≡ List.◌∷◌ t rest
    → split b'/' (String.◌++◌ (encode_token key) s)
      ≡ List.◌∷◌ (String.◌++◌ (encode_token key) t) rest
unfolding encode_token
split-encode_token String.[] s t rest e = rw (nil-append s, nil-append t) e
split-encode_token (String.◌∷◌ c key) s t rest e =
    let later = split-encode_token key s t rest e in
    elim (Bool-cases (eqb (code c) b'~')) [
      | inl tilde ↦ rw tilde (
          split-prefixed "~" _ s t rest refl
            (split-prefixed "0" (encode_token key) s t rest refl later))
      | inr other ↦ elim (Bool-cases (eqb (code c) b'/')) [
        | inl slash ↦
            rw (other, slash)
              (split-prefixed "~" _ s t rest refl
                (split-prefixed "1" (encode_token key) s t rest refl later))
        | inr plain ↦ rw (other, plain) (split-prefixed c (encode_token key) s t rest plain later)
      ]
    ]

slash-append : (s : String) → String.◌++◌ "/" s ≡ String.◌∷◌ "/" s
slash-append s = cons-append "/" "" s ∙ ap (String.◌∷◌ "/") (nil-append s)

split-slash : (s : String) → split b'/' (String.◌∷◌ "/" s) ≡ List.◌∷◌ "" (split b'/' s)
unfolding split
split-slash s = refl

split-join :
    (key : String) (keys : List String)
    → split b'/' (join "/" (map encode_token (List.◌∷◌ key keys)))
      ≡ map encode_token (List.◌∷◌ key keys)
unfolding join
split-join key List.[] =
    rw (append-nil (encode_token key)) at
      (split-encode_token key "" "" List.[] (unfold split in refl))
split-join key (List.◌∷◌ next keys) =
    rw (slash-append (join "/" (map encode_token (List.◌∷◌ next keys)))) (
      rw (append-nil (encode_token key)) at (
        split-encode_token key (String.◌∷◌ "/" (join "/" (map encode_token (List.◌∷◌ next keys))))
          "" _
          (split-slash (join "/" (map encode_token (List.◌∷◌ next keys)))
            ∙ ap (List.◌∷◌ "") (split-join next keys))))

walk-follow :
    (root : Value) (keys : List String) → walk root (map encode_token keys) ≡ follow root keys
unfolding walk follow
walk-follow root List.[] = refl
walk-follow root (List.◌∷◌ key keys) =
    rw (decode-encode_token key) (elim (Option-cases (step_into root key)) [
      | inl missing ↦ rw missing
      | inr (next, found) ↦ rw found (walk-follow next keys)
    ])

-- The pointer of some keys leads from the root along these keys, one after the other, as members or
-- as numbers of items, whatever characters they have; only the pointer of the one empty key does not,
-- since its text is that of the root.
pub resolve-pointer :
    (root : Value) (key : String) (keys : List String)
    → pointer (List.◌∷◌ key keys) ≢ "/"
    → resolve_arg_constraint_path root (pointer (List.◌∷◌ key keys))
      ≡ follow root (List.◌∷◌ key keys)
unfolding resolve_arg_constraint_path pointer
resolve-pointer root key keys longer =
    let body = join "/" (map encode_token (List.◌∷◌ key keys)) in
    let rooted : starts_with (String.◌∷◌ "/" body) "/" ≡ true =
      rw (← slash-append body) (starts_with-append "/" body) in
    let tail : trim_prefix_char b'/' (String.◌∷◌ "/" body) ≡ body =
      unfold trim_prefix_char in refl in
    elim (Bool-cases (String.◌∷◌ "/" body == "/")) [
      | inl whole ↦ absurd (longer ((eq_iff (String.◌∷◌ "/" body) "/").0 whole))
      | inr other ↦
          rw (other, rooted, tail, split-join key keys) (walk-follow root (List.◌∷◌ key keys))
    ]
