-- ===== src/Classification/Paths.antt =====
-- File paths in tool arguments: internal/classification/file_path.go. The members of an object come
-- in the order of the model's list, where Go's order is any.
pub mod Sandbox
use Prim.Native.Char.{Char, code}
use Prim.Native.String
use Prim.Native.String.{String, ◌∷◌}
use rbitr.Prelude.{
  ℕ, Bool, true, false, not, ◌||◌, ◌&&◌, List, ◌++◌, length, eqb, leb, ltb, ◌==◌, if◌then◌else◌,
  starts_with, contains, contains_char, replace_char, split, byte_length, Unicode, to_lower,
  trim_space,
}
use rbitr.Json.{Value, text, array, object, Values, nil, cons, Members, end, member}
use rbitr.Classification.Input.{clean, trim_slashes}

any_of : {A : Type 0} → (A → Bool) → List A → Bool
any_of p List.[] = false
any_of p (List.◌∷◌ x xs) = p x || any_of p xs

list : {A : Type 0} → A → List A → List A
list = List.◌∷◌

no_more : List String
no_more = List.[]

abbrev append : String → String → String
append = String.◌++◌

unfoldable pub contains_traversal : String → Bool
unfolding any_of
contains_traversal p = any_of (λ s. s == "..") (split 47 (replace_char 92 "/" p))

-- `filepath.Join`
unfoldable pub sandbox_root : String → String
sandbox_root tenant_id =
    if tenant_id == "" then "/data/tenants" else clean (append "/data/tenants/" tenant_id)

pub record FilePathResult : Type 0 where
  pub paths : List String
  pub has_traversal : Bool
  pub traversal_paths : List String
  pub denied_paths : List String

-- the loop's body for one path
unfoldable pub check_path : String → String → FilePathResult → FilePathResult
check_path root p r =
    if contains_traversal p
    then record r {
      has_traversal = true;
      traversal_paths = r.traversal_paths ++ List.◌∷◌ p List.[];
    }
    else if not (starts_with (clean p) (append root "/")) && not (clean p == root)
    then record r { denied_paths = r.denied_paths ++ List.◌∷◌ p List.[] }
    else r

unfoldable pub check_paths : String → List String → FilePathResult → FilePathResult
check_paths root List.[] r = r
check_paths root (List.◌∷◌ p ps) r = check_paths root ps (check_path root p r)

unfoldable pub validate_sandbox : List String → String → FilePathResult
validate_sandbox paths tenant_id = check_paths (sandbox_root tenant_id) paths (record {
  paths = paths;
  has_traversal = false;
  traversal_paths = List.[];
  denied_paths = List.[];
})

unfoldable pub validate_tenant_id : String → Bool
unfolding contains_char contains
validate_tenant_id t =
    not (t == "")
    && not (contains_char 47 t || contains_char 92 t)
    && not (contains t "..")
    && not (contains_char 0 t)

module _ ⦃u : Unicode⦄ where
  unfoldable pub is_uri_scheme : String → Bool
  unfolding any_of list no_more to_lower
  is_uri_scheme s =
      let lower = to_lower s in
      any_of (λ scheme. starts_with lower scheme)
        (list "http://" (
          list "https://" (
            list "ftp://" (
              list "ftps://" (
                list "s3://" (
                  list "gs://" (
                    list "ssh://" (
                      list "git://" (list "file://" (list "data:" (list "mailto:" no_more)))))))))))

  -- a segment with a file extension, or the name of a system directory
  is_file_segment : String → Bool
  unfolding contains any_of list no_more
  is_file_segment s =
      contains s "."
      || any_of (λ dir. s == dir)
          (list "data"
            (list "tmp" (list "etc" (list "var" (list "opt" (list "home" (list "usr" no_more)))))))

  unfoldable pub is_likely_http_path : String → Bool
  unfolding is_file_segment any_of contains byte_length trim_slashes split
  is_likely_http_path p =
      let segments = split 47 (trim_slashes p) in
      starts_with p "/"
      && not (contains p "..")
      && ltb (byte_length p) 50
      && not (ltb 3 (length segments))
      && not (any_of is_file_segment segments)

  -- A drive letter is one byte.
  is_windows_path : String → Bool
  is_windows_path (c ∷ d ∷ e ∷ s) =
      leb (code c) 127 && eqb (code d) 58 && (eqb (code e) 92 || eqb (code e) 47)
  is_windows_path s = false

  unfoldable pub is_file_path : String → Bool
  unfolding is_windows_path is_uri_scheme is_likely_http_path contains_char trim_space
  is_file_path value =
      let trimmed = trim_space value in
      if trimmed == ""
        || is_uri_scheme trimmed
        || contains_char 64 trimmed
        || is_likely_http_path trimmed
      then false
      else if starts_with trimmed "/"
          || starts_with trimmed "~/"
          || starts_with trimmed "./"
          || starts_with trimmed "../"
      then true
      else is_windows_path trimmed

  unfoldable mutual
    unfolding is_file_path

    pub detect_file_paths : Value → List String
    detect_file_paths (text s) = if is_file_path s then List.◌∷◌ s List.[] else List.[]
    detect_file_paths (object ms) = detect_in_members ms
    detect_file_paths (array vs) = detect_in_values vs
    detect_file_paths _ = List.[]

    detect_in_members : Members → List String
    detect_in_members end = List.[]
    detect_in_members (member k v ms) = detect_file_paths v ++ detect_in_members ms

    detect_in_values : Values → List String
    detect_in_values nil = List.[]
    detect_in_values (cons v vs) = detect_file_paths v ++ detect_in_values vs
