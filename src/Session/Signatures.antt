-- ===== src/Session/Signatures.antt =====
-- What a signed token is, and that verifyClaims accepts nothing else.
use Prim.Native.String
use Prim.Native.String.{◌∷◌}
use Prim.Native.Char.{code}
use text.Mathlib.TextEquality.{Char-path}
use text.Mathlib.TextLemmas.{nil-append, cons-append}
use rbitr.Prelude.{
  String, ◌≡◌, inl, inr, refl, sym, ap, ◌∙◌, false, eqb, ◌==◌, Option, none, some, arith, eq_iff,
  contains_char, Bool-cases, Option-cases,
}
use rbitr.Session.{SessionClaims, Codec, split_dot, decode_claims, verify_parts, verify_claims}

-- A token is split at its first dot.
split_dot-some :
    (token e s : String)
    → split_dot token ≡ some (e, s)
    → (token ≡ String.◌++◌ e (String.◌++◌ "." s)) × (contains_char 46 e ≡ false)
unfolding split_dot contains_char
split_dot-some (c ∷ t) e s h = elim (Bool-cases (eqb (code c) 46)) [
  | inl dot ↦
      let same : ◌≡◌ {A = String × String} ("", t) (e, s) = cc (rw (dot, split_dot) at h) in
      let empty : "" ≡ e = ap (λ (p : String × String). p.0) same in
      let rest : t ≡ s = ap (λ (p : String × String). p.1) same in
      let is_dot : c ≡ "." = Char-path c "." (ground arith) in
      rw (← empty, ← rest, is_dot)
        (
          sym (
              nil-append (String.◌++◌ "." t)
              ∙ cons-append "." "" t
              ∙ ap (λ u. "." ∷ u) (nil-append t)),
          refl,
        )
  | inr other ↦ elim (Option-cases (split_dot t)) [
    | inl none_there ↦ absurd (
        let bad : ◌≡◌ {A = Option (String × String)} none (some (e, s)) =
          rw (other, none_there, split_dot) at h in
        cc)
    | inr ((a, b), found) ↦
        let same : ◌≡◌ {A = String × String} (c ∷ a, b) (e, s) =
          cc (rw (found, split_dot) at (rw (other, split_dot) at h)) in
        let longer : c ∷ a ≡ e = ap (λ (p : String × String). p.0) same in
        let rest : b ≡ s = ap (λ (p : String × String). p.1) same in
        let (joined, no_dot) = split_dot-some t a b found in
        rw (← longer, ← rest)
          (ap (λ u. c ∷ u) joined ∙ sym (cons-append c a (String.◌++◌ "." b)), rw (other) no_dot)
  ]
]
split_dot-some t e s h = absurd (cc h)

-- Two parts parted by the first dot of the token: the second decodes to the HMAC, under the key, of the
-- first, and the first decodes to the claims.
pub record Signed (k : Codec) (key token : String) (claims : SessionClaims) : Type 0 where
  pub encoded : String
  pub signature : String
  pub json : String
  pub parted : token ≡ String.◌++◌ encoded (String.◌++◌ "." signature)
  pub first_dot : contains_char 46 encoded ≡ false
  pub authentic : k.decode signature ≡ some (k.hmac key encoded)
  pub payload : k.decode encoded ≡ some json
  pub states : k.unmarshal json ≡ some claims

module _ (k : Codec) (key : String) where
  verify_parts-Signed :
      (token : String) (o : Option (String × String)) (claims : SessionClaims)
      → split_dot token ≡ o
      → verify_parts k key o ≡ some claims
      → Signed k key token claims
  unfolding verify_parts decode_claims
  verify_parts-Signed token none claims cut h = absurd (cc h)
  verify_parts-Signed token (some (e, s)) claims cut h = elim (Option-cases (k.decode s)) [
    | inl garbled ↦ absurd (
        let bad : ◌≡◌ {A = Option SessionClaims} none (some claims) =
          rw (garbled, verify_parts) at h in
        cc)
    | inr (provided, decoded) ↦ elim (Bool-cases (k.hmac key e == provided)) [
      | inr forged ↦ absurd (
          let bad : ◌≡◌ {A = Option SessionClaims} none (some claims) =
            rw (forged) at (rw (decoded, verify_parts) at h) in
          cc)
      | inl equal ↦
          let h' : decode_claims k e ≡ some claims =
            rw (equal) at (rw (decoded, verify_parts) at h) in
          elim (Option-cases (k.decode e)) [
            | inl unreadable ↦ absurd (
                let bad : ◌≡◌ {A = Option SessionClaims} none (some claims) =
                  rw (unreadable, decode_claims) at h' in
                cc)
            | inr (json, read) ↦
                let (parted, first) = split_dot-some token e s cut in
                record {
                  encoded = e;
                  signature = s;
                  json = json;
                  parted = parted;
                  first_dot = first;
                  authentic = decoded ∙ ap some (sym ((eq_iff (k.hmac key e) provided).0 equal));
                  payload = read;
                  states = rw (read, decode_claims) at h';
                }
          ]
    ]
  ]

  pub verify_claims-Signed :
      (token : String) (claims : SessionClaims)
      → verify_claims k key token ≡ some claims
      → Signed k key token claims
  unfolding verify_claims
  verify_claims-Signed token claims h = verify_parts-Signed token (split_dot token) claims refl h
