-- ===== src/Gateway/Request.antt =====
-- The headers of a call that are kept, and the text whose hash stands for the call:
-- internal/utils/request.go. `sha256` is the hexadecimal SHA-256 of a text.
use Prim.Native.String
use rbitr.Prelude.{
  String, Bool, ◌||◌, ◌==◌, if◌then◌else◌, Map, insert, [], ◌∷◌, Unicode, to_lower, to_upper,
}
use rbitr.Policy.Opa.{string_less}

abbrev is_allowed_header : String → Bool
is_allowed_header key =
    key == "content-type" || key == "accept" || key == "user-agent" || key == "x-request-id"

pub record CanonicalRequest : Type 0 where
  pub tenant_id : String
  pub agent_id : String
  pub tool_id : String
  pub method : String
  pub path : String
  pub query : String
  pub headers : Map String
  pub body_hash : String
  pub idempotency_key : String

-- a text, a character and what follows
abbrev pub before : String → String → String
before s r = String.◌++◌ s (String.◌∷◌ "\n" r)

abbrev pub before_value : String → String → String
before_value s r = String.◌++◌ s (String.◌∷◌ ":" r)

unfoldable pub place_key : String × String → Map String → Map String
place_key x [] = x ∷ []
place_key x (y ∷ ys) = if string_less y.0 x.0 then y ∷ place_key x ys else x ∷ y ∷ ys

-- `sort.Strings` on the keys of a map, which differ
unfoldable pub sort_keys : Map String → Map String
unfolding place_key
sort_keys [] = []
sort_keys (x ∷ xs) = place_key x (sort_keys xs)

unfoldable pub header_lines : Map String → String
header_lines [] = ""
header_lines (h ∷ hs) = before (before_value h.0 h.1) (header_lines hs)

unfoldable pub hash_body : (String → String) → String → String
hash_body sha256 body = String.◌++◌ "sha256:" (sha256 body)

module _ ⦃u : Unicode⦄ where
  -- the entries of the map in some order
  unfoldable pub filter_headers : Map String → Map String → Map String
  unfolding insert to_lower
  filter_headers [] filtered = filtered
  filter_headers (h ∷ hs) filtered =
      filter_headers hs
        (if is_allowed_header (to_lower h.0) then insert (to_lower h.0) h.1 filtered else filtered)

  unfoldable pub canonical_text : CanonicalRequest → String
  unfolding sort_keys header_lines to_upper
  canonical_text r = before r.tenant_id (
      before r.agent_id (
        before r.tool_id (
          before (to_upper r.method) (
            before r.path (
              before r.query (
                before r.idempotency_key
                  (before r.body_hash (header_lines (sort_keys r.headers)))))))))

  unfoldable pub hash_canonical : (String → String) → CanonicalRequest → String
  unfolding canonical_text
  hash_canonical sha256 r = String.◌++◌ "sha256:" (sha256 (canonical_text r))
