-- ===== src/Examples/Keys.antt =====
-- A tenant that authenticates under the secret before the last.
use rbitr.Prelude.{[], ap, byte_length, false, true, ◌==◌, ◌↔◌, ◌∷◌, ◌≢◌}
use rbitr.Prelude.{
  ◌≡◌, refl, String, Bool, true, false, none, [], ◌∷◌, ascii, split, trim_space, ◌==◌,
}
use Prim.Native.String
use rbitr.Auth.{
  build_tenant_key_hash_candidates, Tenant, Accounts, authenticated, TenantAuthResult,
  authenticate_tenant_detailed, validate_agent_id, normalize_secrets,
}
use rbitr.Auth.Accepted.{Keyed}
use rbitr.Auth.Hashes.{KeyHash, Candidate, build_candidates_iff}
use rbitr.Auth.Admitted.{authenticate_tenant-Keyed}

abbrev hash_plain : String → String
hash_plain s = String.◌++◌ "sha:" s

abbrev hash_keyed : String → String → String
hash_keyed s secret = String.◌++◌ secret (String.◌++◌ ":" s)

abbrev any_id : String → Bool
any_id s = true

abbrev answering : String → Bool
answering hash = false

abbrev acme : Tenant
acme = record { tenant_id = "acme"; name = "Acme"; enabled = true; deleted = false }

abbrev accounts : Accounts
accounts = record {
  tenant_keys =
      record { key_hash = "new:old_key"; tenant_id = "acme"; revoked = true }
      ∷ record { key_hash = "old:rbtr_1"; tenant_id = "acme"; revoked = false }
      ∷ [];
  tenants = acme ∷ [];
}

abbrev entered : TenantAuthResult
entered = record { tenant = acme; legacy_hash_matched = false; legacy_hash_upgraded = false }

acme_enters :
    (authenticate_tenant_detailed ⦃u = ascii⦄ hash_plain hash_keyed any_id "new, old" answering
      false "rbtr_1" "bot" accounts).0
    ≡ authenticated entered
unfolding authenticate_tenant_detailed trim_space byte_length split
acme_enters = refl

authenticate_tenant-Keyed_example :
    (("rbtr_1" == "") ≡ false)
    × (validate_agent_id ⦃u = ascii⦄ any_id "bot" ≡ none)
    × ((hash : String) × KeyHash hash_plain hash_keyed
          (normalize_secrets ⦃u = ascii⦄
            (normalize_secrets ⦃u = ascii⦄ (split 44 (trim_space ⦃u = ascii⦄ "new, old"))))
          "rbtr_1"
          hash
        × Keyed hash accounts.tenant_keys accounts.tenants acme)
authenticate_tenant-Keyed_example =
    authenticate_tenant-Keyed ⦃u = ascii⦄ hash_plain hash_keyed any_id "new, old" answering false
      "rbtr_1" "bot" accounts entered acme_enters

not_empty : ◌≢◌ {A = String} "old:rbtr_1" ""
not_empty = λ e. let bad : false ≡ true = ap (λ (s : String). s == "") e in absurd (cc bad)

build_candidates_iff_example :
    Candidate
      (build_tenant_key_hash_candidates ⦃u = ascii⦄ hash_plain hash_keyed "rbtr_1"
        ("new" ∷ " old" ∷ []))
      "old:rbtr_1"
    ↔ KeyHash hash_plain hash_keyed
        (normalize_secrets ⦃u = ascii⦄ ("new" ∷ " old" ∷ []))
        "rbtr_1"
        "old:rbtr_1"
build_candidates_iff_example =
    build_candidates_iff ⦃u = ascii⦄ hash_plain hash_keyed "rbtr_1" ("new" ∷ " old" ∷ [])
      "old:rbtr_1" not_empty
