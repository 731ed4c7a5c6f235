-- ===== src/Examples/Sessions.antt =====
-- A session with a codec that escapes dots, its revocation, and reads of a cache.
use Prim.Native.String.{◌∷◌}
use Prim.Native.Char.{Char, code}
use text.Mathlib.TextEquality.{Char-path}
use rbitr.Prelude.{
  ℕ, ◌*◌, ◌^◌, String, ◌≡◌, refl, sym, ap, inl, inr, Bool, false, ◌&&◌, ◌==◌, if◌then◌else◌, eqb,
  Option, none, some, [], arith, eq_iff, contains_char, Bool-cases, lookup, insert,
}
use rbitr.Cache.{TtlCache, get, set, invalidate_prefix}
use rbitr.Cache.Reads.{get-set, get-invalidate_prefix}
use rbitr.Session.{
  SessionClaims, Codec, SessionManager, valid, new_session_manager, split_dot, sign_claims,
  decode_claims, verify_parts, verify_claims, issue_token, check_claims, validate_token,
  revoke_session, revoke_all_for_tenant,
}
use rbitr.Session.Tokens.{
  Accepted, validate_token-Accepted, validate_token-revoke_session,
  validate_token-revoke_all_for_tenant,
}
use rbitr.Session.Roundtrip.{IsCodec, validate_token-issue_token}

abbrev second : ℕ
second = 10 ^ 9

abbrev claims : SessionClaims
claims = record {
  tenant_id = "acme";
  agent_id = "agent";
  session_id = "sess_1";
  issued_at = 5;
  expires_at = 905;
  source_ip = "10.0.0.1";
}

abbrev same_claims : SessionClaims → Bool
same_claims c =
    c.tenant_id == "acme"
    && c.agent_id == "agent"
    && c.session_id == "sess_1"
    && eqb c.issued_at 5
    && eqb c.expires_at 905
    && c.source_ip == "10.0.0.1"

-- A dot becomes two letters, every other character is marked.
escape : String → String
escape (c ∷ s) = if eqb (code c) 46 then "%" ∷ "d" ∷ escape s else "!" ∷ c ∷ escape s
escape s = ""

restore : String → Option String
restore (m ∷ c ∷ s) =
    let rest = restore s in
    elim rest [ none ↦ none | some r ↦ if eqb (code m) 37 then some ("." ∷ r) else some (c ∷ r) ]
restore s = some ""

restore-escape : (s : String) → restore (escape s) ≡ some s
unfolding restore escape
restore-escape (c ∷ s) = elim (Bool-cases (eqb (code c) 46)) [
  | inl dot ↦
      (let is_dot : c ≡ "." = Char-path c "." (ground arith) in
        rw (dot, escape)
          (rw (restore-escape s, restore) (ap (λ (d : Char). some (d ∷ s)) (sym is_dot))))
  | inr other ↦ rw (other, escape) (rw (restore-escape s, restore) refl)
]
restore-escape s = refl

escape-has_no_dot : (s : String) → contains_char 46 (escape s) ≡ false
unfolding contains_char escape
escape-has_no_dot (c ∷ s) = elim (Bool-cases (eqb (code c) 46)) [
  | inl dot ↦ rw (dot, escape) (escape-has_no_dot s)
  | inr other ↦ rw (other, escape) (rw (other, contains_char) (escape-has_no_dot s))
]
escape-has_no_dot s = refl

abbrev codec : Codec
codec = record {
  marshal = λ c. if same_claims c then some "claims" else none;
  unmarshal = λ p. if p == "claims" then some claims else none;
  encode = escape;
  decode = restore;
  hmac = λ key text. key;
}

unmarshal-marshal :
    (c : SessionClaims) (p : String) → codec.marshal c ≡ some p → codec.unmarshal p ≡ some c
unmarshal-marshal c p h = ground (
  arith,
  eq_iff c.tenant_id "acme",
  eq_iff c.agent_id "agent",
  eq_iff c.session_id "sess_1",
  eq_iff c.source_ip "10.0.0.1",
  eq_iff p "claims",
)

codec-IsCodec : IsCodec codec
codec-IsCodec = record {
  unmarshal_marshal = unmarshal-marshal;
  decode_encode = restore-escape;
  encode_has_no_dot = escape-has_no_dot;
}

abbrev manager : SessionManager
manager = new_session_manager "!key" (900 * second)

abbrev token : String
token = "!c!l!a!i!m!s.!!!k!e!y"

-- the manager after the token was issued at the fifth second
abbrev holding : SessionManager
holding = record manager { sessions = set "sess_1" claims (5 * second) manager.sessions }

issues :
    issue_token codec manager "acme" "agent" "10.0.0.1" (some "sess_1") (5 * second)
    ≡ some (token, claims, holding)
unfolding issue_token sign_claims escape
issues = refl

validate_token-issue_token_example :
    validate_token codec holding token "10.0.0.1" (60 * second) ≡ valid claims
validate_token-issue_token_example =
    validate_token-issue_token codec codec-IsCodec manager "acme" "agent" "10.0.0.1" "sess_1"
      (5 * second) (60 * second) (token, claims, holding) refl (omega arith) issues

validate_token-Accepted_example : Accepted codec holding token "10.0.0.1" (60 * second) claims
unfolding validate_token verify_claims verify_parts decode_claims check_claims split_dot get set
    lookup insert restore
validate_token-Accepted_example =
    validate_token-Accepted codec holding token "10.0.0.1" (60 * second) claims refl

validate_token-revoke_session_example : ¬ (
    validate_token codec (revoke_session holding "sess_1") token "10.0.0.1" (60 * second)
    ≡ valid claims)
validate_token-revoke_session_example =
    validate_token-revoke_session codec holding "sess_1" token "10.0.0.1" (60 * second) claims refl

-- all sessions of acme were revoked, and its token is accepted as before
validate_token-revoke_all_for_tenant_example :
    validate_token codec (revoke_all_for_tenant holding "acme") token "10.0.0.1" (60 * second)
    ≡ validate_token codec holding token "10.0.0.1" (60 * second)
unfolding verify_claims verify_parts decode_claims split_dot restore
validate_token-revoke_all_for_tenant_example =
    validate_token-revoke_all_for_tenant codec holding "acme" token "10.0.0.1" (60 * second) claims
      refl refl

abbrev small : TtlCache String
small = record { entries = []; ttl = 4; hits = 0; misses = 0 }

get-set_example : (get "a" 9 (set "a" "v" 5 small)).0 ≡ some "v"
get-set_example = get-set "a" "a" "v" 5 9 small

get-invalidate_prefix_example :
    (get "acme:x" 9 (invalidate_prefix "acme:" (set "acme:x" "v" 5 small))).0 ≡ none
get-invalidate_prefix_example = get-invalidate_prefix "acme:" "acme:x" 9 (set "acme:x" "v" 5 small)
