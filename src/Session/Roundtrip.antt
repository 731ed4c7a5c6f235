-- ===== src/Session/Roundtrip.antt =====
-- A token that was issued is accepted.
use Prim.Native.String
use Prim.Native.String.{◌∷◌}
use Prim.Native.Char.{code}
use rbitr.Prelude.{
  ℕ, ◌≤◌, ◌+◌, String, ◌≡◌, inl, inr, refl, ap, ◌∙◌, true, false, eqb, ltb, ◌==◌, some, arith,
  eq_iff, contains_char, Holds, Option-cases,
}
use text.Mathlib.TextLemmas.{nil-append, cons-append}
use rbitr.Cache.Reads.{get-set}
use rbitr.Session.{
  SessionClaims, Codec, SessionManager, valid, unix, session_cache_padding, split_dot, sign_claims,
  decode_claims, verify_parts, verify_claims, issued, issue_token, check_claims, validate_token,
}

split_dot-append :
    (e t : String)
    → contains_char 46 e ≡ false
    → split_dot (String.◌++◌ e (String.◌++◌ "." t)) ≡ some (e, t)
unfolding split_dot contains_char
split_dot-append (c ∷ e) t h =
    let ih = split_dot-append e t (ground arith) in
    let no_dot : eqb (code c) 46 ≡ false = ground arith in
    rw (cons-append c e (String.◌++◌ "." t)) (rw (no_dot, split_dot) (rw (ih, split_dot) refl))
split_dot-append s t h = rw (nil-append (String.◌++◌ "." t)) (
    let dot : String.◌++◌ "." t ≡ "." ∷ t =
      cons-append "." "" t ∙ ap (λ u. "." ∷ u) (nil-append t) in
    rw dot refl)

-- What the packages promise: decoding undoes encoding, and an encoded text has no dot.
pub record IsCodec (k : Codec) : Type 0 where
  pub unmarshal_marshal :
      (c : SessionClaims) (p : String) → k.marshal c ≡ some p → k.unmarshal p ≡ some c
  pub decode_encode : (s : String) → k.decode (k.encode s) ≡ some s
  pub encode_has_no_dot : (s : String) → contains_char 46 (k.encode s) ≡ false

module _ (k : Codec) (good : IsCodec k) where
  verify_claims-sign_claims :
      (key token : String) (c : SessionClaims)
      → sign_claims k key c ≡ some token
      → verify_claims k key token ≡ some c
  unfolding sign_claims verify_claims verify_parts decode_claims
  verify_claims-sign_claims key token c h = elim (Option-cases (k.marshal c)) [
    | inl fails ↦ cc (rw (fails, sign_claims) at h)
    | inr (p, made) ↦
        (let e = k.encode p in
          let is_token : String.◌++◌ e (String.◌++◌ "." (k.encode (k.hmac key e))) ≡ token =
            (let h' = rw (made, sign_claims) at h in cc) in
          let parts = split_dot-append e (k.encode (k.hmac key e)) (good.encode_has_no_dot p) in
          let same : (k.hmac key e == k.hmac key e) ≡ true =
            (eq_iff (k.hmac key e) (k.hmac key e)).1 refl in
          rw (← is_token) (
            rw (parts, verify_claims)
              (rw (good.decode_encode (k.hmac key e), verify_parts)
                (rw same
                  (rw (good.decode_encode p, decode_claims) (good.unmarshal_marshal c p made))))))
  ]

  check_claims-issued :
      (sm : SessionManager) (tenant agent ip id : String) (now later : ℕ)
      → unix later ≤ unix (now + sm.ttl)
      → let c = issued k sm tenant agent ip id now in check_claims k c ip later (some c) ≡ valid c
  unfolding check_claims
  check_claims-issued sm tenant agent ip id now later in_time = ground (arith, eq_iff ip ip)

  issued-valid :
      (sm : SessionManager) (tenant agent ip id : String) (now later : ℕ)
      → sm.sessions.ttl ≡ sm.ttl + session_cache_padding
      → unix later ≤ unix (now + sm.ttl)
      → Holds
          (λ (out : String × SessionClaims × SessionManager).
            validate_token k out.2 out.0 ip later ≡ valid out.1)
          (issue_token k sm tenant agent ip (some id) now)
  unfolding issue_token validate_token
  issued-valid sm tenant agent ip id now later padded in_time =
      let c = issued k sm tenant agent ip id now in
      elim (Option-cases (sign_claims k sm.signing_key c)) [
        | inl fails ↦ rw (fails, issue_token) tt
        | inr (t, signed) ↦
            (let verified = verify_claims-sign_claims sm.signing_key t c signed in
              let read = get-set id id c now later sm.sessions in
              let same : (id == id) ≡ true = (eq_iff id id).1 refl in
              let fresh : ltb (now + sm.sessions.ttl) later ≡ false = ground arith in
              rw (signed, issue_token)
                (rw (verified, validate_token)
                  (rw (read, validate_token)
                    (rw same
                      (rw fresh (check_claims-issued sm tenant agent ip id now later in_time))))))
      ]

  -- A token that was issued is accepted from the same address, with its claims, until the second in
  -- which its time to live is over: with packages that decode what they encode, and a manager whose
  -- cache keeps sessions five minutes longer than their tokens live.
  pub validate_token-issue_token :
      (sm : SessionManager) (tenant agent ip id : String) (now later : ℕ)
      (out : String × SessionClaims × SessionManager)
      → sm.sessions.ttl ≡ sm.ttl + session_cache_padding
      → unix later ≤ unix (now + sm.ttl)
      → issue_token k sm tenant agent ip (some id) now ≡ some out
      → validate_token k out.2 out.0 ip later ≡ valid out.1
  validate_token-issue_token sm tenant agent ip id now later out padded in_time h =
      rw h at (issued-valid sm tenant agent ip id now later padded in_time)
