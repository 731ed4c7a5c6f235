-- ===== src/Auth/Hashes.antt =====
-- Which hashes of a key the authentication looks for.
use rbitr.Prelude.{
  Bool-cases, In, List, String, Unicode, [], ap, arith, eq_iff, inl, inr, refl, trim_space, ◌==◌,
  ◌↔◌, ◌∙◌, ◌∷◌, ◌≡◌, ◌≢◌, ◌⊎◌,
}
use rbitr.Auth.{
  TenantKeyHashCandidates, in_set, normalize_from, normalize_secrets, other_hashes, candidates_by,
  build_tenant_key_hash_candidates,
}

-- a text that is trimmed from one of a list
abbrev pub Trimmed : ⦃u : Unicode⦄ → String → List String → Type 0
Trimmed s secrets = (x : String) × In x secrets × (s ≡ trim_space x)

Trimmed-later :
    ⦃u : Unicode⦄ (s x : String) (secrets : List String)
    → Trimmed s secrets
    → Trimmed s (x ∷ secrets)
Trimmed-later s x secrets (y, inside, e) = (y, inr inside, e)

normalize_from-Trimmed :
    ⦃u : Unicode⦄ (seen secrets : List String) (s : String)
    → In s (normalize_from seen secrets)
    → Trimmed s secrets
unfolding normalize_from
normalize_from-Trimmed seen [] s inside = absurd inside.lower
normalize_from-Trimmed seen (x ∷ secrets) s inside = elim (Bool-cases (trim_space x == "")) [
  | inl empty ↦
      Trimmed-later s x secrets (normalize_from-Trimmed seen secrets s (rw (empty) at inside))
  | inr full ↦ elim (Bool-cases (in_set (trim_space x) seen)) [
    | inl again ↦
        Trimmed-later s x secrets
          (normalize_from-Trimmed seen secrets s (rw (full, again) at inside))
    | inr new ↦
        let cases : (s ≡ trim_space x) ⊎ In s (normalize_from (trim_space x ∷ seen) secrets) =
          rw (full, new) at inside in
        elim cases [
          | inl here ↦ (x, inl refl, here)
          | inr rest ↦
              Trimmed-later s x secrets
                (normalize_from-Trimmed (trim_space x ∷ seen) secrets s rest)
        ]
  ]
]

-- A hash that a key has: by SHA-256, or by HMAC under a secret that is configured.
abbrev pub KeyHash :
    (String → String) → (String → String → String) → List String → String → String → Type 0
KeyHash sha256 hmac secrets raw_key hash =
    (hash ≡ sha256 raw_key) ⊎ ((secret : String) × In secret secrets × (hash ≡ hmac raw_key secret))

-- the hashes that are looked for
abbrev pub Candidate : TenantKeyHashCandidates → String → Type 0
Candidate c hash = (hash ≡ c.current) ⊎ In hash c.previous ⊎ (hash ≡ c.legacy)

module _ ⦃u : Unicode⦄ (sha256 : String → String) (hmac : String → String → String) where
  other_hashes-In :
      (raw_key current : String) (secrets : List String) (hash : String)
      → In hash (other_hashes sha256 hmac raw_key current secrets)
      → (secret : String) × In secret secrets × (hash ≡ hmac raw_key secret)
  unfolding other_hashes
  other_hashes-In raw_key current [] hash inside = absurd inside.lower
  other_hashes-In raw_key current (secret ∷ secrets) hash inside =
      elim (Bool-cases (hmac raw_key secret == current)) [
        | inl same ↦
            let rest = other_hashes-In raw_key current secrets hash (rw (same) at inside) in
            (rest.0, inr rest.1, rest.2)
        | inr differs ↦
            let cases : (hash ≡ hmac raw_key secret)
                ⊎ In hash (other_hashes sha256 hmac raw_key current secrets) =
              rw (differs) at inside in
            elim cases [
              | inl here ↦ (secret, inl refl, here)
              | inr later ↦
                  let rest = other_hashes-In raw_key current secrets hash later in
                  (rest.0, inr rest.1, rest.2)
            ]
      ]

  pub candidates_by-KeyHash :
      (raw_key : String) (secrets : List String) (hash : String)
      → Candidate (candidates_by sha256 hmac raw_key secrets) hash
      → (hash ≡ "") ⊎ KeyHash sha256 hmac secrets raw_key hash
  candidates_by-KeyHash raw_key [] hash (inl e) = inl e
  candidates_by-KeyHash raw_key [] hash (inr (inl inside)) = absurd inside.lower
  candidates_by-KeyHash raw_key [] hash (inr (inr e)) = inr (inl e)
  candidates_by-KeyHash raw_key (secret ∷ secrets) hash (inl e) = inr (inr (secret, inl refl, e))
  candidates_by-KeyHash raw_key (secret ∷ secrets) hash (inr (inl inside)) =
      let rest = other_hashes-In raw_key (hmac raw_key secret) secrets hash inside in
      inr (inr (rest.0, inr rest.1, rest.2))
  candidates_by-KeyHash raw_key (secret ∷ secrets) hash (inr (inr e)) = inr (inl e)

pub normalize_secrets-Trimmed :
    ⦃u : Unicode⦄ (secrets : List String) (s : String)
    → In s (normalize_secrets secrets)
    → Trimmed s secrets
unfolding normalize_secrets
normalize_secrets-Trimmed secrets s inside = normalize_from-Trimmed [] secrets s inside

module _ ⦃u : Unicode⦄ (sha256 : String → String) (hmac : String → String → String) where
  other_hashes_complete :
      (raw_key current secret : String) (secrets : List String)
      → In secret secrets
      → (hmac raw_key secret ≡ current)
        ⊎ In (hmac raw_key secret) (other_hashes sha256 hmac raw_key current secrets)
  unfolding other_hashes
  other_hashes_complete raw_key current secret [] inside = absurd inside.lower
  other_hashes_complete raw_key current secret (x ∷ secrets) inside =
      elim (Bool-cases (hmac raw_key x == current)) [
        | inl same ↦
            let equal : hmac raw_key x ≡ current =
              ground (arith, eq_iff (hmac raw_key x) current) in
            elim inside [
              | inl here ↦ inl (rw (here) equal)
              | inr later ↦ rw (same) (other_hashes_complete raw_key current secret secrets later)
            ]
        | inr differs ↦ rw (differs) elim inside [
          | inl here ↦ inr (inl (ap (hmac raw_key) here))
          | inr later ↦ elim (other_hashes_complete raw_key current secret secrets later) [
            | inl e ↦ inl e
            | inr rest ↦ inr (inr rest)
          ]
        ]
      ]

  candidates_by_complete :
      (raw_key : String) (secrets : List String) (hash : String)
      → KeyHash sha256 hmac secrets raw_key hash
      → Candidate (candidates_by sha256 hmac raw_key secrets) hash
  candidates_by_complete raw_key [] hash (inl e) = inr (inr e)
  candidates_by_complete raw_key [] hash (inr known) = absurd known.1.lower
  candidates_by_complete raw_key (x ∷ secrets) hash (inl e) = inr (inr e)
  candidates_by_complete raw_key (x ∷ secrets) hash (inr (secret, inl here, e)) =
      inl (e ∙ ap (hmac raw_key) here)
  candidates_by_complete raw_key (x ∷ secrets) hash (inr (secret, inr later, e)) =
      elim (other_hashes_complete raw_key (hmac raw_key x) secret secrets later) [
        | inl same ↦ inl (e ∙ same)
        | inr rest ↦ rw (e) (inr (inl rest))
      ]

-- The hashes that the authentication looks for, where they are not empty, are exactly SHA-256 of the
-- key and the HMAC of the key under each of the configured secrets, trimmed.
pub build_candidates_iff :
    ⦃u : Unicode⦄ (sha256 : String → String) (hmac : String → String → String) (raw_key : String)
    (secrets : List String) (hash : String)
    → hash ≢ ""
    → Candidate (build_tenant_key_hash_candidates sha256 hmac raw_key secrets) hash
      ↔ KeyHash sha256 hmac (normalize_secrets secrets) raw_key hash
unfolding build_tenant_key_hash_candidates
build_candidates_iff sha256 hmac raw_key secrets hash full = (
  λ c. elim (candidates_by-KeyHash sha256 hmac raw_key (normalize_secrets secrets) hash c) [
    | inl blank ↦ absurd (full blank)
    | inr known ↦ known
  ],
  candidates_by_complete sha256 hmac raw_key (normalize_secrets secrets) hash,
)
