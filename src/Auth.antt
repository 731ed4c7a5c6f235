-- ===== src/Auth.antt =====
-- The authentication of tenants: internal/auth/tenant.go over the hashes of internal/utils/hash.go
-- and the tables tenant_keys and tenants of internal/store/store.go. `sha256` is HashString, `hmac`
-- is HashStringHMAC, `pattern` is the match of agentIDPattern, and `secrets_text` is the variable
-- RBTR_TENANT_KEY_HMAC_SECRETS.
pub mod Accepted
pub mod Hashes
pub mod Admitted
use rbitr.Prelude.{
  ℕ, String, Bool, true, false, ◌&&◌, ◌||◌, ◌==◌, not, if◌then◌else◌, ltb, Option, none, some, List,
  [], ◌∷◌, Unicode, trim_space, split, byte_length,
}
use Prim.Native.String

-- A row of tenant_keys; `revoked` says that revoked_at is not NULL.
pub record TenantKey : Type 0 where
  pub key_hash : String
  pub tenant_id : String
  pub revoked : Bool

-- A row of tenants; `deleted` says that deleted_at is not NULL.
pub record Tenant : Type 0 where
  pub tenant_id : String
  pub name : String
  pub enabled : Bool
  pub deleted : Bool

pub record Accounts : Type 0 where
  pub tenant_keys : List TenantKey
  pub tenants : List Tenant

-- A tenant, ErrNotFound, or another error
pub data Lookup : Type 0 where
  found : Tenant → Lookup
  not_found : Lookup
  failed : Lookup

unfoldable pub live_tenant : String → List Tenant → Option Tenant
live_tenant id [] = none
live_tenant id (t ∷ tenants) =
    if t.tenant_id == id && t.enabled && not t.deleted then some t else live_tenant id tenants

abbrev pub or_else : Option Tenant → Option Tenant → Option Tenant
or_else none other = other
or_else (some t) other = some t

-- The join of the two tables
unfoldable pub keyed_tenant : String → List Tenant → List TenantKey → Option Tenant
unfolding live_tenant
keyed_tenant hash tenants [] = none
keyed_tenant hash tenants (k ∷ keys) =
    let rest = keyed_tenant hash tenants keys in
    if k.key_hash == hash && not k.revoked
    then or_else (live_tenant k.tenant_id tenants) rest
    else rest

abbrev pub as_lookup : Option Tenant → Lookup
as_lookup none = not_found
as_lookup (some t) = found t

-- `fails` is true where the database fails
unfoldable pub get_tenant_by_key_hash : Bool → String → Accounts → Lookup
unfolding keyed_tenant
get_tenant_by_key_hash fails hash a =
    if fails then failed else as_lookup (keyed_tenant hash a.tenants a.tenant_keys)

abbrev pub holds_hash : String → List TenantKey → Bool
holds_hash hash [] = false
holds_hash hash (k ∷ keys) = k.key_hash == hash || holds_hash hash keys

-- whether the statement has a row to update
abbrev pub holds_live : String → List TenantKey → Bool
holds_live hash [] = false
holds_live hash (k ∷ keys) = (k.key_hash == hash && not k.revoked) || holds_live hash keys

unfoldable pub rehash : String → String → List TenantKey → List TenantKey
rehash old new [] = []
rehash old new (k ∷ keys) =
    (if k.key_hash == old && not k.revoked then record k { key_hash = new } else k)
    ∷ rehash old new keys

-- Whether it succeeds, and the tables. The index on key_hash is unique, so that no row gets a hash
-- that another has.
unfoldable pub upgrade_tenant_key_hash :
    ⦃u : Unicode⦄ → Bool → String → String → Accounts → Bool × Accounts
unfolding rehash
upgrade_tenant_key_hash fails old new a =
    if trim_space old == "" || trim_space new == "" || old == new
    then (true, a)
    else if fails || holds_hash new a.tenant_keys
    then (false, a)
    else (holds_live old a.tenant_keys, record a { tenant_keys = rehash old new a.tenant_keys })

abbrev pub in_set : String → List String → Bool
in_set s [] = false
in_set s (x ∷ xs) = x == s || in_set s xs

-- the loop of `normalizeSecrets`, with what it has seen
unfoldable pub normalize_from : ⦃u : Unicode⦄ → List String → List String → List String
normalize_from seen [] = []
normalize_from seen (secret ∷ secrets) =
    let trimmed = trim_space secret in
    let skipped = normalize_from seen secrets in
    let kept = trimmed ∷ normalize_from (trimmed ∷ seen) secrets in
    if trimmed == "" then skipped else if in_set trimmed seen then skipped else kept

unfoldable pub normalize_secrets : ⦃u : Unicode⦄ → List String → List String
unfolding normalize_from
normalize_secrets secrets = normalize_from [] secrets

pub record TenantKeyHashCandidates : Type 0 where
  pub current : String
  pub previous : List String
  pub legacy : String

-- The errors of tenant.go, and any other of the store
pub data AuthError : Type 0 where
  unauthorized forbidden invalid_agent_id store_error : AuthError

pub record TenantAuthResult : Type 0 where
  pub tenant : Tenant
  pub legacy_hash_matched : Bool
  pub legacy_hash_upgraded : Bool

pub data AuthOutcome : Type 0 where
  refused : AuthError → AuthOutcome
  authenticated : TenantAuthResult → AuthOutcome

module _ ⦃u : Unicode⦄ (pattern : String → Bool) where
  -- the trimmed id is tested; `none` where it is valid
  unfoldable pub validate_agent_id : String → Option AuthError
  validate_agent_id agent_id =
      let id = trim_space agent_id in
      if id == ""
      then some forbidden
      else if ltb 128 (byte_length id)
      then some invalid_agent_id
      else if not (pattern id)
      then some invalid_agent_id
      else none

module _ ⦃u : Unicode⦄ (sha256 : String → String) (hmac : String → String → String) where
  -- the hashes by the other secrets, less those equal to the current one
  unfoldable pub other_hashes : String → String → List String → List String
  other_hashes raw_key current [] = []
  other_hashes raw_key current (secret ∷ secrets) =
      let rest = other_hashes raw_key current secrets in
      if hmac raw_key secret == current then rest else hmac raw_key secret ∷ rest

  abbrev pub candidates_by : String → List String → TenantKeyHashCandidates
  candidates_by raw_key [] = record { current = ""; previous = []; legacy = sha256 raw_key }
  candidates_by raw_key (secret ∷ secrets) = record {
    current = hmac raw_key secret;
    previous = other_hashes raw_key (hmac raw_key secret) secrets;
    legacy = sha256 raw_key;
  }

  unfoldable pub build_tenant_key_hash_candidates : String → List String → TenantKeyHashCandidates
  unfolding other_hashes normalize_secrets
  build_tenant_key_hash_candidates raw_key secrets =
      candidates_by raw_key (normalize_secrets secrets)

abbrev pub plainly : Tenant → TenantAuthResult
plainly t = record { tenant = t; legacy_hash_matched = false; legacy_hash_upgraded = false }

abbrev pub upgraded : Tenant → Bool × Accounts → AuthOutcome × Accounts
upgraded t (done, a) = (
  authenticated (record { tenant = t; legacy_hash_matched = true; legacy_hash_upgraded = done }),
  a,
)

abbrev pub first_of : Lookup → Lookup → Lookup
first_of not_found next = next
first_of (found t) next = found t
first_of failed next = failed

-- `fails` says of each hash whether the database fails at it, `upgrade_fails` whether the update does.
module _ ⦃u : Unicode⦄ (fails : String → Bool) (upgrade_fails : Bool) where
  unfoldable pub try_lookup : String → Accounts → Lookup
  unfolding get_tenant_by_key_hash
  try_lookup hash a =
      if trim_space hash == "" then not_found else get_tenant_by_key_hash (fails hash) hash a

  abbrev pub after_legacy : TenantKeyHashCandidates → Accounts → Lookup → AuthOutcome × Accounts
  after_legacy c a not_found = (refused unauthorized, a)
  after_legacy c a failed = (refused store_error, a)
  after_legacy c a (found t) =
      if trim_space c.current == "" || c.current == c.legacy
      then upgraded t (false, a)
      else upgraded t (upgrade_tenant_key_hash upgrade_fails c.legacy c.current a)

  -- the loop over the previous hashes
  unfoldable pub try_all : List String → Accounts → Lookup
  unfolding try_lookup
  try_all [] a = not_found
  try_all (hash ∷ hashes) a = first_of (try_lookup hash a) (try_all hashes a)

  abbrev pub after_hmac : TenantKeyHashCandidates → Accounts → Lookup → AuthOutcome × Accounts
  after_hmac c a (found t) = (authenticated (plainly t), a)
  after_hmac c a failed = (refused store_error, a)
  after_hmac c a not_found = after_legacy c a (try_lookup c.legacy a)

  unfoldable pub authenticate_tenant_with_hash_candidates :
      TenantKeyHashCandidates → Accounts → AuthOutcome × Accounts
  unfolding try_lookup try_all upgrade_tenant_key_hash
  authenticate_tenant_with_hash_candidates c a =
      after_hmac c a (first_of (try_lookup c.current a) (try_all c.previous a))

module _ ⦃u : Unicode⦄ (sha256 : String → String) (hmac : String → String → String)
    (pattern : String → Bool) (secrets_text : String) (fails : String → Bool)
    (upgrade_fails : Bool) where
  -- the secrets are parted at the commas
  unfoldable pub tenant_key_hash_candidates_from_env : String → TenantKeyHashCandidates
  unfolding build_tenant_key_hash_candidates normalize_secrets
  tenant_key_hash_candidates_from_env raw_key =
      build_tenant_key_hash_candidates sha256 hmac raw_key
        (normalize_secrets (split 44 (trim_space secrets_text)))

  abbrev pub with_valid_id : String → Accounts → Option AuthError → AuthOutcome × Accounts
  with_valid_id tenant_key a (some e) = (refused e, a)
  with_valid_id tenant_key a none =
      authenticate_tenant_with_hash_candidates fails upgrade_fails
        (tenant_key_hash_candidates_from_env tenant_key) a

  unfoldable pub authenticate_tenant_detailed : String → String → Accounts → AuthOutcome × Accounts
  unfolding validate_agent_id tenant_key_hash_candidates_from_env
      authenticate_tenant_with_hash_candidates
  authenticate_tenant_detailed tenant_key agent_id a =
      if tenant_key == ""
      then (refused unauthorized, a)
      else with_valid_id tenant_key a (validate_agent_id pattern agent_id)
