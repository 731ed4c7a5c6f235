-- ===== src/Gateway/Injective.antt =====
-- The canonical text of a call determines the call.
use Prim.Native.Char.{Char, code}
use Prim.Native.String
use text.Mathlib.TextLemmas.{nil-append, cons-append}
use rbitr.Prelude.{
  ℕ, String, true, false, ◌≡◌, refl, sym, ◌∙◌, eqb_iff, arith, contains_char, Map, [], ◌∷◌, All,
  if-both, Unicode, to_upper,
}
use rbitr.Policy.Opa.{string_less}
use rbitr.Gateway.Request.{
  CanonicalRequest, place_key, before_value, sort_keys, header_lines, canonical_text,
}

contains_char-head :
    (c d : Char) (t : String) → c ≡ d → contains_char (code c) (String.◌∷◌ d t) ≡ true
unfolding contains_char
contains_char-head c d t e = rw (e, (eqb_iff (code d) (code d)).1 refl)

contains_char-tail :
    (n : ℕ) (c : Char) (s : String)
    → contains_char n (String.◌∷◌ c s) ≡ false
    → contains_char n s ≡ false
unfolding contains_char
contains_char-tail n c s e = ground arith

contains_char-cons :
    (n : ℕ) (c : Char) (s t : String)
    → contains_char n (String.◌∷◌ c s) ≡ false
    → contains_char n t ≡ false
    → contains_char n (String.◌∷◌ c t) ≡ false
unfolding contains_char
contains_char-cons n c s t e f = ground arith

-- The first separator ends the same text in both.
pub separator_inj :
    (sep : Char) (s t u v : String)
    → contains_char (code sep) s ≡ false
    → contains_char (code sep) t ≡ false
    → String.◌++◌ s (String.◌∷◌ sep u) ≡ String.◌++◌ t (String.◌∷◌ sep v)
    → (s ≡ t) × (u ≡ v)
separator_inj sep String.[] String.[] u v p q e =
    let e' : String.◌∷◌ sep u ≡ String.◌∷◌ sep v =
      sym (nil-append (String.◌∷◌ sep u)) ∙ e ∙ nil-append (String.◌∷◌ sep v) in
    (refl, cc)
separator_inj sep String.[] (String.◌∷◌ d t) u v p q e =
    let e' : String.◌∷◌ sep u ≡ String.◌∷◌ d (String.◌++◌ t (String.◌∷◌ sep v)) =
      sym (nil-append (String.◌∷◌ sep u)) ∙ e ∙ cons-append d t (String.◌∷◌ sep v) in
    absurd (cc (contains_char-head sep d t (cc e'), q))
separator_inj sep (String.◌∷◌ c s) String.[] u v p q e =
    let e' : String.◌∷◌ c (String.◌++◌ s (String.◌∷◌ sep u)) ≡ String.◌∷◌ sep v =
      sym (cons-append c s (String.◌∷◌ sep u)) ∙ e ∙ nil-append (String.◌∷◌ sep v) in
    absurd (cc (contains_char-head sep c s (cc e'), p))
separator_inj sep (String.◌∷◌ c s) (String.◌∷◌ d t) u v p q e =
    let e' : String.◌∷◌ c (String.◌++◌ s (String.◌∷◌ sep u))
        ≡ String.◌∷◌ d (String.◌++◌ t (String.◌∷◌ sep v)) =
      sym (cons-append c s (String.◌∷◌ sep u)) ∙ e ∙ cons-append d t (String.◌∷◌ sep v) in
    let rest =
      separator_inj sep s t u v (contains_char-tail (code sep) c s p)
        (contains_char-tail (code sep) d t q) (cc e') in
    (cc (e', rest.0), rest.1)

contains_char-append :
    (n : ℕ) (s t : String)
    → contains_char n s ≡ false
    → contains_char n t ≡ false
    → contains_char n (String.◌++◌ s t) ≡ false
contains_char-append n String.[] t p q = rw (nil-append t) q
contains_char-append n (String.◌∷◌ c s) t p q =
    let rest = contains_char-append n s t (contains_char-tail n c s p) q in
    rw (cons-append c s t) (contains_char-cons n c s (String.◌++◌ s t) p rest)

append-ne-nil : (sep : Char) (s r : String) → "" ≡ String.◌++◌ s (String.◌∷◌ sep r) → ⊥
append-ne-nil sep String.[] r e =
    let e' : String.[] ≡ String.◌∷◌ sep r = e ∙ nil-append (String.◌∷◌ sep r) in cc
append-ne-nil sep (String.◌∷◌ c s) r e =
    let e' : String.[] ≡ String.◌∷◌ c (String.◌++◌ s (String.◌∷◌ sep r)) =
      e ∙ cons-append c s (String.◌∷◌ sep r) in
    cc

-- There is no line break in it.
abbrev pub OneLine : String → Type 0
OneLine s = contains_char b'\n' s ≡ false

abbrev pub OneLineHeader : String × String → Type 0
OneLineHeader h = OneLine h.0 × (contains_char b':' h.0 ≡ false) × OneLine h.1

header-OneLine : (h : String × String) → OneLineHeader h → OneLine (before_value h.0 h.1)
header-OneLine h o =
    contains_char-append b'\n' h.0 (String.◌∷◌ ":" h.1) o.0
      (contains_char-cons b'\n' ":" "" h.1 (unfold contains_char in refl) o.2)

header_lines_inj :
    (hs gs : Map String)
    → All OneLineHeader hs
    → All OneLineHeader gs
    → header_lines hs ≡ header_lines gs
    → hs ≡ gs
unfolding header_lines
header_lines_inj [] [] o p e = refl
header_lines_inj [] (g ∷ gs) o p e = absurd (append-ne-nil "\n" _ _ e)
header_lines_inj (h ∷ hs) [] o p e = absurd (append-ne-nil "\n" _ _ (sym e))
header_lines_inj ((k, v) ∷ hs) ((j, w) ∷ gs) o p e =
    let line =
      separator_inj "\n" (before_value k v) (before_value j w) _ _ (header-OneLine (k, v) o.0)
        (header-OneLine (j, w) p.0) e in
    let parts = separator_inj ":" k j v w o.0.1 p.0.1 line.0 in
    let rest = header_lines_inj hs gs o.1 p.1 line.1 in cc (parts.0, parts.1, rest)

place_key-All :
    (P : String × String → Type 0) (x : String × String) (ys : Map String)
    → P x
    → All P ys
    → All P (place_key x ys)
unfolding place_key
place_key-All P x [] p q = (p, tt)
place_key-All P x (y ∷ ys) p q =
    if-both (string_less y.0 x.0) (All P) (q.0, place_key-All P x ys p q.1) (p, q)

sort_keys-All : (P : String × String → Type 0) (xs : Map String) → All P xs → All P (sort_keys xs)
unfolding sort_keys
sort_keys-All P [] p = tt
sort_keys-All P (x ∷ xs) p = place_key-All P x (sort_keys xs) p.0 (sort_keys-All P xs p.1)

module _ ⦃u : Unicode⦄ where
  -- No field of the call has a line break, and no name of a header has a colon.
  pub record Plain (r : CanonicalRequest) : Type 0 where
    pub tenant_id : OneLine r.tenant_id
    pub agent_id : OneLine r.agent_id
    pub tool_id : OneLine r.tool_id
    pub method : OneLine (to_upper r.method)
    pub path : OneLine r.path
    pub query : OneLine r.query
    pub idempotency_key : OneLine r.idempotency_key
    pub body_hash : OneLine r.body_hash
    pub headers : All OneLineHeader r.headers

  -- What the text says of the call.
  abbrev pub SameCall : CanonicalRequest → CanonicalRequest → Type 0
  SameCall r s =
      (r.tenant_id ≡ s.tenant_id)
      × (r.agent_id ≡ s.agent_id)
      × (r.tool_id ≡ s.tool_id)
      × (to_upper r.method ≡ to_upper s.method)
      × (r.path ≡ s.path)
      × (r.query ≡ s.query)
      × (r.idempotency_key ≡ s.idempotency_key)
      × (r.body_hash ≡ s.body_hash)
      × (sort_keys r.headers ≡ sort_keys s.headers)

  -- Two calls with the same canonical text, and no line break in a field nor a colon in the name of a
  -- header, agree in the tenant, the agent, the tool, the method in upper case, the path, the query,
  -- the idempotency key, the hash of the body and the headers in the order of their names.
  pub canonical_text_inj :
      (r s : CanonicalRequest)
      → Plain r
      → Plain s
      → canonical_text r ≡ canonical_text s
      → SameCall r s
  unfolding canonical_text
  canonical_text_inj r s p q e =
      let a = separator_inj "\n" _ _ _ _ p.tenant_id q.tenant_id e in
      let b = separator_inj "\n" _ _ _ _ p.agent_id q.agent_id a.1 in
      let c = separator_inj "\n" _ _ _ _ p.tool_id q.tool_id b.1 in
      let d = separator_inj "\n" _ _ _ _ p.method q.method c.1 in
      let f = separator_inj "\n" _ _ _ _ p.path q.path d.1 in
      let g = separator_inj "\n" _ _ _ _ p.query q.query f.1 in
      let h = separator_inj "\n" _ _ _ _ p.idempotency_key q.idempotency_key g.1 in
      let i = separator_inj "\n" _ _ _ _ p.body_hash q.body_hash h.1 in
      let j =
        header_lines_inj (sort_keys r.headers) (sort_keys s.headers)
          (sort_keys-All OneLineHeader r.headers p.headers)
          (sort_keys-All OneLineHeader s.headers q.headers) i.1 in
      (a.0, b.0, c.0, d.0, f.0, g.0, h.0, i.0, j)
