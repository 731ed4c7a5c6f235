-- ===== src/Session.antt =====
-- Session tokens: internal/auth/session.go. The packages encoding/json, encoding/base64 and
-- crypto/hmac are parameters; bytes are texts. Times are nanoseconds, those of the claims seconds.
pub mod Signatures
pub mod Tokens
pub mod Roundtrip
use Prim.Native.String
use Prim.Native.Char.{code}
use Prim.Native.String.{◌∷◌}
use rbitr.Prelude.{
  ℕ, ◌+◌, ◌/◌, ◌*◌, ◌^◌, List, [], String, Bool, true, false, not, ◌&&◌, ◌==◌, if◌then◌else◌, ltb,
  eqb, Option, none, some,
}
use rbitr.Cache.{TtlCache, get, set, invalidate, invalidate_prefix}

pub record SessionClaims : Type 0 where
  pub tenant_id : String
  pub agent_id : String
  pub session_id : String
  pub issued_at : ℕ
  pub expires_at : ℕ
  pub source_ip : String

-- `json.Marshal` and `json.Unmarshal` of the claims, `base64.RawURLEncoding`, and HMAC-SHA256 of a
-- text under a key.
pub record Codec : Type 0 where
  pub marshal : SessionClaims → Option String
  pub unmarshal : String → Option SessionClaims
  pub encode : String → String
  pub decode : String → Option String
  pub hmac : String → String → String

pub record SessionManager : Type 0 where
  pub signing_key : String
  pub ttl : ℕ
  pub sessions : TtlCache SessionClaims

pub data SessionError : Type 0 where
  session_expired session_invalid session_ip_mismatch session_revoked : SessionError

pub data Validation : Type 0 where
  valid : SessionClaims → Validation
  refused : SessionError → Validation

-- `Unix()`
abbrev pub unix : ℕ → ℕ
unix now = now / 10 ^ 9

-- `sessionCachePadding`, five minutes
abbrev pub session_cache_padding : ℕ
session_cache_padding = 300 * 10 ^ 9

-- `NewSessionManager` for the key that the random source gave
abbrev pub new_session_manager : String → ℕ → SessionManager
new_session_manager key ttl = record {
  signing_key = key;
  ttl = ttl;
  sessions = record { entries = []; ttl = ttl + session_cache_padding; hits = 0; misses = 0 };
}

-- `strings.SplitN(s, ".", 2)`, where it yields two parts
unfoldable pub split_dot : String → Option (String × String)
split_dot (c ∷ s) =
    let rest = split_dot s in
    if eqb (code c) 46
    then some ("", s)
    else elim rest [ none ↦ none | some parts ↦ some (c ∷ parts.0, parts.1) ]
split_dot s = none

-- Signing and verification take the manager's signing key.
module _ (k : Codec) where
  unfoldable pub sign_claims : String → SessionClaims → Option String
  sign_claims key claims = elim (k.marshal claims) [
    | none ↦ none
    | some payload ↦
        (let encoded = k.encode payload in
          some (String.◌++◌ encoded (String.◌++◌ "." (k.encode (k.hmac key encoded)))))
  ]

  -- the claims of a payload whose signature was verified
  unfoldable pub decode_claims : String → Option SessionClaims
  decode_claims encoded = elim (k.decode encoded) [
    | none ↦ none
    | some payload ↦ k.unmarshal payload
  ]

  unfoldable pub verify_parts : String → Option (String × String) → Option SessionClaims
  verify_parts key none = none
  verify_parts key (some (encoded, signature)) = elim (k.decode signature) [
    | none ↦ none
    | some provided ↦ if k.hmac key encoded == provided then decode_claims encoded else none
  ]

  unfoldable pub verify_claims : String → String → Option SessionClaims
  verify_claims key token = verify_parts key (split_dot token)

  abbrev pub issued : SessionManager → String → String → String → String → ℕ → SessionClaims
  issued sm tenant agent ip id now = record {
    tenant_id = tenant;
    agent_id = agent;
    session_id = id;
    issued_at = unix now;
    expires_at = unix (now + sm.ttl);
    source_ip = ip;
  }

  -- The id is given where the random source answered; the result is the token, the claims and the
  -- manager with the session.
  unfoldable pub issue_token :
      SessionManager
      → String
      → String
      → String
      → Option String
      → ℕ
      → Option (String × SessionClaims × SessionManager)
  issue_token sm tenant agent ip none now = none
  issue_token sm tenant agent ip (some id) now =
      elim (sign_claims sm.signing_key (issued sm tenant agent ip id now)) [
        | none ↦ none
        | some token ↦ some (
          token,
          issued sm tenant agent ip id now,
          record sm { sessions = set id (issued sm tenant agent ip id now) now sm.sessions },
        )
      ]

  -- the checks of claims whose signature is right, with the read of the cache
  unfoldable pub check_claims : SessionClaims → String → ℕ → Option SessionClaims → Validation
  check_claims claims ip now session =
      if ltb claims.expires_at (unix now)
      then refused session_expired
      else if not (claims.source_ip == "") && not (ip == "") && not (claims.source_ip == ip)
      then refused session_ip_mismatch
      else elim session [ none ↦ refused session_revoked | some _ ↦ valid claims ]

  unfoldable pub validate_token : SessionManager → String → String → ℕ → Validation
  validate_token sm token ip now = elim (verify_claims sm.signing_key token) [
    | none ↦ refused session_invalid
    | some claims ↦ check_claims claims ip now (get claims.session_id now sm.sessions).0
  ]

unfoldable pub revoke_session : SessionManager → String → SessionManager
revoke_session sm id = record sm { sessions = invalidate id sm.sessions }

unfoldable pub revoke_all_for_tenant : SessionManager → String → SessionManager
revoke_all_for_tenant sm tenant = record sm {
  sessions = invalidate_prefix (String.◌++◌ tenant ":") sm.sessions;
}
