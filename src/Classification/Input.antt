-- ===== src/Classification/Input.antt =====
-- The normalised request: `newClassifyInput` and what it calls. A token set is the list of its
-- tokens.
use Prim.Native.Char.{Char, code}
use Prim.Native.String
use rbitr.Prelude.{
  String, Bool, true, false, ◌||◌, none, some, List, [], ◌∷◌, ◌++◌, Map, eqb, ◌==◌, if◌then◌else◌,
  starts_with, contains_char, split, cut_before, map_chars, trim_prefix_char, trim_left, trim_right,
  join, Unicode, to_lower, to_upper, trim_space, fields,
}
use rbitr.Classification.{Url, ClassifyInput}

abbrev slash : Char → Bool
slash c = eqb (code c) 47

abbrev append : String → String → String
append = String.◌++◌

-- the last element of a path that `Clean` has built so far, nearest first
pop_segment : Bool → List String → List String
pop_segment true [] = []
pop_segment false [] = ".." ∷ []
pop_segment rooted (s ∷ ss) = if s == ".." then ".." ∷ s ∷ ss else ss

clean_segments : Bool → List String → List String → List String
unfolding pop_segment
clean_segments rooted out [] = out
clean_segments rooted out (s ∷ ss) =
    let skipped = clean_segments rooted out ss in
    let popped = clean_segments rooted (pop_segment rooted out) ss in
    let pushed = clean_segments rooted (s ∷ out) ss in
    if s == "" || s == "." then skipped else if s == ".." then popped else pushed

reverse_onto : List String → List String → List String
reverse_onto [] ys = ys
reverse_onto (x ∷ xs) ys = reverse_onto xs (x ∷ ys)

-- `path.Clean`, and `filepath.Clean` where the separator is the slash
unfoldable pub clean : String → String
unfolding clean_segments reverse_onto split join
clean p =
    let rooted = starts_with p "/" in
    let body = join "/" (reverse_onto (clean_segments rooted [] (split 47 p)) []) in
    if rooted then append "/" body else if body == "" then "." else body

-- `strings.Trim(s, "/")`
unfoldable pub trim_slashes : String → String
unfolding trim_left trim_right
trim_slashes s = trim_right slash (trim_left slash s)

before_question_mark : String → String
unfolding contains_char cut_before
before_question_mark s = if contains_char 63 s then cut_before 63 s else s

replaced : Char → Char
replaced c =
    let n = code c in
    if eqb n 45
      || eqb n 95
      || eqb n 46
      || eqb n 58
      || eqb n 44
      || eqb n 59
      || eqb n 61
      || eqb n 43
      || eqb n 124
    then " "
    else c

replace_separators : String → String
unfolding replaced map_chars
replace_separators = map_chars replaced

module _ ⦃u : Unicode⦄ where
  tokenize : String → List String
  unfolding replace_separators to_lower trim_space fields
  tokenize value = fields (replace_separators (to_lower (trim_space value)))

  -- A set is a list; what is in it twice is in it. `strings.Fields` returns no empty token.
  add_tokens : List String → List String → List String
  unfolding tokenize
  add_tokens set [] = set
  add_tokens set (v ∷ vs) = add_tokens (tokenize v ++ set) vs

  add_query_tokens : List String → Map (List String) → List String
  unfolding add_tokens
  add_query_tokens set [] = set
  add_query_tokens set ((k, entries) ∷ values) =
      add_query_tokens (add_tokens (add_tokens set (k ∷ [])) entries) values

  path_segments : String → List String
  unfolding trim_slashes split
  path_segments p = let trimmed = trim_slashes p in if trimmed == "" then [] else split 47 trimmed

  module _ ⦃l : Url⦄ where
    -- the path of the URL, or what stands before the query
    url_path : String → String
    unfolding before_question_mark
    url_path cleaned = elim (l.parsed_path cleaned) [
      | none ↦ before_question_mark cleaned
      | some p ↦ if p == "" then before_question_mark cleaned else p
    ]

    normalize_path : String → String
    unfolding url_path clean to_lower trim_space
    normalize_path raw =
        let trimmed = trim_space raw in
        let p = url_path trimmed in
        let normalized = to_lower (clean (if starts_with p "/" then p else append "/" p)) in
        if trimmed == "" then "/" else if normalized == "." then "/" else normalized

    parse_query_values : String → Map (List String)
    unfolding trim_prefix_char trim_space
    parse_query_values raw =
        let query = trim_space raw in
        if query == ""
        then []
        else elim (l.parsed_query (trim_prefix_char 63 query)) [ none ↦ [] | some values ↦ values ]

    unfoldable pub new_classify_input : String → String → String → ClassifyInput
    unfolding normalize_path path_segments parse_query_values add_tokens add_query_tokens to_upper
        trim_space
    new_classify_input method path query =
        let trimmed_method = to_upper (trim_space method) in
        let trimmed_path = trim_space path in
        let raw_path = if trimmed_path == "" then "/" else trimmed_path in
        let normalized_path = normalize_path raw_path in
        let segments = path_segments normalized_path in
        let query_values = parse_query_values query in
        record {
          method = if trimmed_method == "" then "GET" else trimmed_method;
          raw_path = raw_path;
          normalized_path = normalized_path;
          segments = segments;
          path_tokens = add_tokens [] segments;
          query_values = query_values;
          query_tokens = add_query_tokens [] query_values;
        }
