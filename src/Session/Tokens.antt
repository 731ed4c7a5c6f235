-- ===== src/Session/Tokens.antt =====
-- When a session token is accepted.
use Prim.Native.String
use rbitr.Prelude.{
  ℕ, ◌≤◌, String, ◌≡◌, ◌⊎◌, inl, inr, refl, true, false, ◌==◌, Option, none, some, starts_with,
  arith, eq_iff, Option-cases,
}
use rbitr.Cache.{get}
use rbitr.Cache.Reads.{get-invalidate, get-invalidate_prefix}
use rbitr.Session.Signatures.{Signed, verify_claims-Signed}
use rbitr.Session.{
  SessionClaims, Codec, SessionManager, valid, unix, verify_claims, check_claims, validate_token,
  revoke_session, revoke_all_for_tenant,
}

module _ (k : Codec) (sm : SessionManager) (token ip : String) (now : ℕ) where
  -- What an accepted token has: a signature by this manager's key over these claims, an expiry that is
  -- not over, the caller's address where both are known, and a session that is still held.
  pub record Accepted (claims : SessionClaims) : Type 0 where
    pub signed : Signed k sm.signing_key token claims
    pub in_time : unix now ≤ claims.expires_at
    pub address : (claims.source_ip ≡ "") ⊎ (ip ≡ "") ⊎ (claims.source_ip ≡ ip)
    pub session : SessionClaims
    pub held : (get claims.session_id now sm.sessions).0 ≡ some session

  check_claims-valid :
      (c d : SessionClaims) (o : Option SessionClaims)
      → check_claims k c ip now o ≡ valid d
      → (c ≡ d)
        × (unix now ≤ c.expires_at)
        × ((c.source_ip ≡ "") ⊎ (ip ≡ "") ⊎ (c.source_ip ≡ ip))
        × ((s : SessionClaims) × (o ≡ some s))
  unfolding check_claims
  check_claims-valid c d none h = ground arith
  check_claims-valid c d (some s) h = (
    ground arith,
    ground arith,
    ground (arith, eq_iff c.source_ip "", eq_iff ip "", eq_iff c.source_ip ip),
    (s, refl),
  )

  -- A token is accepted only where it has two parts, parted at its first dot, of which the second
  -- decodes to the HMAC of the first under this manager's key and the first decodes to the claims; not
  -- after the expiry of the claims, from the address that they name if both are known, and while the
  -- session is held.
  pub validate_token-Accepted :
      (claims : SessionClaims) → validate_token k sm token ip now ≡ valid claims → Accepted claims
  unfolding validate_token
  validate_token-Accepted claims h = elim (Option-cases (verify_claims k sm.signing_key token)) [
    | inl forged ↦ cc (rw (forged, validate_token) at h)
    | inr (c, signed) ↦
        (let (same, in_time, address, (s, held)) =
            check_claims-valid c claims (get c.session_id now sm.sessions).0
              (rw (signed, validate_token) at h) in
          rw (← same) (record {
            signed = verify_claims-Signed k sm.signing_key token c signed;
            in_time = in_time;
            address = address;
            session = s;
            held = held;
          }))
  ]

-- After a session was revoked no token with its id is accepted, at any time and from any address.
pub validate_token-revoke_session :
    (k : Codec) (sm : SessionManager) (id token ip : String) (now : ℕ) (claims : SessionClaims)
    → claims.session_id ≡ id
    → ¬ (validate_token k (revoke_session sm id) token ip now ≡ valid claims)
unfolding revoke_session
validate_token-revoke_session k sm id token ip now claims same h =
    let a = validate_token-Accepted k (revoke_session sm id) token ip now claims h in
    let gone = get-invalidate id claims.session_id now sm.sessions in
    let hit : (claims.session_id == id) ≡ true = (eq_iff claims.session_id id).1 same in
    ground (arith, a.held, gone, hit)

-- Revoking all sessions of a tenant accepts and refuses the same tokens as before, as long as no
-- session id begins with the tenant's id and a colon: the sessions are held under their ids, which
-- `generateSessionID` begins with `sess_`, and not under the tenant's.
pub validate_token-revoke_all_for_tenant :
    (k : Codec) (sm : SessionManager) (tenant token ip : String) (now : ℕ) (claims : SessionClaims)
    → verify_claims k sm.signing_key token ≡ some claims
    → starts_with claims.session_id (String.◌++◌ tenant ":") ≡ false
    → validate_token k (revoke_all_for_tenant sm tenant) token ip now
      ≡ validate_token k sm token ip now
unfolding validate_token revoke_all_for_tenant
validate_token-revoke_all_for_tenant k sm tenant token ip now claims signed other =
    let kept = get-invalidate_prefix (String.◌++◌ tenant ":") claims.session_id now sm.sessions in
    rw (signed, validate_token) (rw kept (rw other refl))
