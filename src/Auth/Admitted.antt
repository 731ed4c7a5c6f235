-- ===== src/Auth/Admitted.antt =====
-- The authentication as a whole.
use rbitr.Prelude.{
  inl, inr, String, ◌≡◌, ◌⊎◌, refl, Bool, true, false, ◌||◌, ◌==◌, none, some, Option, List, [],
  ◌∷◌, Bool-cases, In, Unicode, trim_space, split, trim_left, trim_right,
}
use rbitr.Auth.{
  Tenant, Accounts, Lookup, found, not_found, failed, get_tenant_by_key_hash, keyed_tenant,
  first_of, try_lookup, try_all, TenantKeyHashCandidates, refused, unauthorized, authenticated,
  TenantAuthResult, AuthError, plainly, upgraded, after_legacy, after_hmac, upgrade_tenant_key_hash,
  authenticate_tenant_with_hash_candidates, build_tenant_key_hash_candidates, normalize_secrets,
  tenant_key_hash_candidates_from_env, authenticate_tenant_detailed, validate_agent_id,
  with_valid_id,
}
use rbitr.Auth.Accepted.{Keyed, keyed_tenant-Keyed, as_lookup-found}
use rbitr.Auth.Hashes.{KeyHash, Candidate, candidates_by-KeyHash}

first_of-found :
    (l next : Lookup) (t : Tenant) → first_of l next ≡ found t → (l ≡ found t) ⊎ (next ≡ found t)
first_of-found (found x) next t e = inl e
first_of-found not_found next t e = inr e
first_of-found failed next t e = absurd (cc e)

authenticated_tenant :
    (s r : TenantAuthResult) → authenticated s ≡ authenticated r → found s.tenant ≡ found r.tenant
authenticated_tenant s r e = let same : s ≡ r = cc e in rw (same) refl

upgraded-found :
    (t : Tenant) (p : Bool × Accounts) (r : TenantAuthResult)
    → (upgraded t p).0 ≡ authenticated r
    → found t ≡ found r.tenant
upgraded-found t (done, a) r e =
    authenticated_tenant
      (record { tenant = t; legacy_hash_matched = true; legacy_hash_upgraded = done }) r e

-- a lookup by a hash that is not blank found the tenant
abbrev Seen : ⦃u : Unicode⦄ → String → Accounts → Tenant → Type 0
Seen hash a t = ((trim_space hash == "") ≡ false) × Keyed hash a.tenant_keys a.tenants t

module _ ⦃u : Unicode⦄ (fails : String → Bool) (upgrade_fails : Bool) where
  get_tenant-Keyed :
      (b : Bool) (hash : String) (a : Accounts) (t : Tenant)
      → get_tenant_by_key_hash b hash a ≡ found t
      → Keyed hash a.tenant_keys a.tenants t
  unfolding get_tenant_by_key_hash
  get_tenant-Keyed true hash a t e = absurd (cc e)
  get_tenant-Keyed false hash a t e =
      keyed_tenant-Keyed hash a.tenants a.tenant_keys t
        (as_lookup-found (keyed_tenant hash a.tenants a.tenant_keys) t e)

  try_lookup-Seen :
      (hash : String) (a : Accounts) (t : Tenant)
      → try_lookup fails upgrade_fails hash a ≡ found t
      → Seen hash a t
  unfolding try_lookup
  try_lookup-Seen hash a t e = elim (Bool-cases (trim_space hash == "")) [
    | inl blank ↦ absurd (let bad : not_found ≡ found t = rw (blank) at e in cc)
    | inr full ↦ (full, get_tenant-Keyed (fails hash) hash a t (rw (full) at e))
  ]

  try_all-Seen :
      (hashes : List String) (a : Accounts) (t : Tenant)
      → try_all fails upgrade_fails hashes a ≡ found t
      → (hash : String) × In hash hashes × Seen hash a t
  unfolding try_all
  try_all-Seen [] a t e = absurd (cc e)
  try_all-Seen (hash ∷ hashes) a t e =
      elim (first_of-found (try_lookup fails upgrade_fails hash a)
        (try_all fails upgrade_fails hashes a) t e) [
          | inl here ↦ (hash, inl refl, try_lookup-Seen hash a t here)
          | inr later ↦ let rest = try_all-Seen hashes a t later in (rest.0, inr rest.1, rest.2)
        ]

  after_legacy-found :
      (c : TenantKeyHashCandidates) (a : Accounts) (l : Lookup) (r : TenantAuthResult)
      → (after_legacy fails upgrade_fails c a l).0 ≡ authenticated r
      → l ≡ found r.tenant
  after_legacy-found c a not_found r e = absurd (cc e)
  after_legacy-found c a failed r e = absurd (cc e)
  after_legacy-found c a (found t) r e =
      elim (Bool-cases (trim_space c.current == "" || c.current == c.legacy)) [
        | inl settled ↦ upgraded-found t (false, a) r (rw (settled) at e)
        | inr stale ↦
            upgraded-found t (upgrade_tenant_key_hash upgrade_fails c.legacy c.current a) r
              (rw (stale) at e)
      ]

  after_hmac-found :
      (c : TenantKeyHashCandidates) (a : Accounts) (l : Lookup) (r : TenantAuthResult)
      → (after_hmac fails upgrade_fails c a l).0 ≡ authenticated r
      → (l ≡ found r.tenant) ⊎ (try_lookup fails upgrade_fails c.legacy a ≡ found r.tenant)
  after_hmac-found c a (found t) r e = inl (authenticated_tenant (plainly t) r e)
  after_hmac-found c a failed r e = absurd (cc e)
  after_hmac-found c a not_found r e =
      inr (after_legacy-found c a (try_lookup fails upgrade_fails c.legacy a) r e)

  pub authenticate_candidates-Seen :
      (c : TenantKeyHashCandidates) (a : Accounts) (r : TenantAuthResult)
      → (authenticate_tenant_with_hash_candidates fails upgrade_fails c a).0 ≡ authenticated r
      → (hash : String) × Candidate c hash × Seen hash a r.tenant
  unfolding authenticate_tenant_with_hash_candidates
  authenticate_candidates-Seen c a r e =
      let current = try_lookup fails upgrade_fails c.current a in
      let previous = try_all fails upgrade_fails c.previous a in
      elim (after_hmac-found c a (first_of current previous) r e) [
        | inl one ↦ elim (first_of-found current previous r.tenant one) [
          | inl first ↦ (c.current, inl refl, try_lookup-Seen c.current a r.tenant first)
          | inr rest ↦ let p = try_all-Seen c.previous a r.tenant rest in (p.0, inr (inl p.1), p.2)
        ]
        | inr legacy ↦ (c.legacy, inr (inr refl), try_lookup-Seen c.legacy a r.tenant legacy)
      ]

blank_absurd : ⦃u : Unicode⦄ (hash : String) → ((trim_space hash == "") ≡ false) → hash ≡ "" → ⊥
unfolding trim_space trim_left trim_right
blank_absurd hash full e = let bad : (trim_space "" == "") ≡ false = rw (e) at full in cc

known_hash :
    ⦃u : Unicode⦄ (sha256 : String → String) (hmac : String → String → String)
    (secrets : List String) (raw_key hash : String)
    → ((trim_space hash == "") ≡ false)
    → Candidate (build_tenant_key_hash_candidates sha256 hmac raw_key secrets) hash
    → KeyHash sha256 hmac (normalize_secrets secrets) raw_key hash
unfolding build_tenant_key_hash_candidates
known_hash sha256 hmac secrets raw_key hash full c =
    elim (candidates_by-KeyHash sha256 hmac raw_key (normalize_secrets secrets) hash c) [
      | inl blank ↦ absurd (blank_absurd hash full blank)
      | inr known ↦ known
    ]

module _ ⦃u : Unicode⦄ (sha256 : String → String) (hmac : String → String → String)
    (pattern : String → Bool) (secrets_text : String) (fails : String → Bool) (upgrade_fails : Bool)
    (tenant_key : String) (a : Accounts) (r : TenantAuthResult) where
  with_valid_id-none :
      (o : Option AuthError)
      → (with_valid_id sha256 hmac pattern secrets_text fails upgrade_fails tenant_key a o).0
        ≡ authenticated r
      → (o ≡ none)
        × ((authenticate_tenant_with_hash_candidates fails upgrade_fails
              (tenant_key_hash_candidates_from_env sha256 hmac pattern secrets_text fails
                upgrade_fails tenant_key)
              a).0
            ≡ authenticated r)
  with_valid_id-none none e = (refl, e)
  with_valid_id-none (some x) e = absurd (cc e)

-- Where the authentication succeeds, the key is not empty, the agent's id is valid, and a hash of the
-- key is that of a row of tenant_keys that is not revoked, whose tenant is the one returned, enabled
-- and not deleted. The hash is SHA-256 of the key, or HMAC under a configured secret, which is a
-- part of the variable between commas, trimmed.
pub authenticate_tenant-Keyed :
    ⦃u : Unicode⦄ (sha256 : String → String) (hmac : String → String → String)
    (pattern : String → Bool) (secrets_text : String) (fails : String → Bool) (upgrade_fails : Bool)
    (tenant_key agent_id : String) (a : Accounts) (r : TenantAuthResult)
    → (authenticate_tenant_detailed sha256 hmac pattern secrets_text fails upgrade_fails tenant_key
        agent_id a).0
      ≡ authenticated r
    → ((tenant_key == "") ≡ false)
      × (validate_agent_id pattern agent_id ≡ none)
      × ((hash : String) × KeyHash sha256 hmac
            (normalize_secrets (normalize_secrets (split 44 (trim_space secrets_text))))
            tenant_key
            hash
          × Keyed hash a.tenant_keys a.tenants r.tenant)
unfolding authenticate_tenant_detailed tenant_key_hash_candidates_from_env
    build_tenant_key_hash_candidates
authenticate_tenant-Keyed sha256 hmac pattern secrets_text fails upgrade_fails tenant_key agent_id a
      r e =
    elim (Bool-cases (tenant_key == "")) [
      | inl empty ↦
          absurd (let bad : refused unauthorized ≡ authenticated r = rw (empty) at e in cc)
      | inr full ↦
          let valid =
            with_valid_id-none sha256 hmac pattern secrets_text fails upgrade_fails tenant_key a r
              (validate_agent_id pattern agent_id) (rw (full) at e) in
          let c =
            tenant_key_hash_candidates_from_env sha256 hmac pattern secrets_text fails upgrade_fails
              tenant_key in
          let seen = authenticate_candidates-Seen fails upgrade_fails c a r valid.1 in
          let secrets = normalize_secrets (split 44 (trim_space secrets_text)) in
          (
            full,
            valid.0,
            (seen.0, known_hash sha256 hmac secrets tenant_key seen.0 seen.2.0 seen.1, seen.2.1),
          )
    ]
