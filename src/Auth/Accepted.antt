-- ===== src/Auth/Accepted.antt =====
-- Whom the authentication lets in.
use rbitr.Prelude.{
  inl, inr, String, ◌≡◌, ◌⊎◌, refl, true, false, ◌&&◌, ◌==◌, not, none, some, Option, List, [], ◌∷◌,
  arith, eq_iff, Bool-cases, In,
}
use rbitr.Auth.{TenantKey, Tenant, found, live_tenant, keyed_tenant, as_lookup, or_else}

-- what the join asks of a tenant
abbrev pub Active : String → List Tenant → Tenant → Type 0
Active id tenants t = In t tenants × (t.tenant_id ≡ id) × (t.enabled ≡ true) × (t.deleted ≡ false)

live_tenant-Active :
    (id : String) (tenants : List Tenant) (t : Tenant)
    → live_tenant id tenants ≡ some t
    → Active id tenants t
unfolding live_tenant
live_tenant-Active id [] t e = absurd (cc e)
live_tenant-Active id (x ∷ tenants) t e =
    elim (Bool-cases (x.tenant_id == id && x.enabled && not x.deleted)) [
      | inl good ↦
          let same : x ≡ t = cc (rw (good) at e) in
          rw (← same)
            (inl refl, ground (arith, eq_iff x.tenant_id id), ground (arith), ground (arith))
      | inr bad ↦
          let later = live_tenant-Active id tenants t (rw (bad) at e) in
          (inr later.0, later.1, later.2, later.3)
    ]

-- A key of the tenant that is not revoked, under a hash
abbrev pub Keyed : String → List TenantKey → List Tenant → Tenant → Type 0
Keyed hash keys tenants t =
    (k : TenantKey) × In k keys
    × (k.key_hash ≡ hash)
    × (k.revoked ≡ false)
    × Active k.tenant_id tenants t

Keyed-later :
    (hash : String) (k : TenantKey) (keys : List TenantKey) (tenants : List Tenant) (t : Tenant)
    → Keyed hash keys tenants t
    → Keyed hash (k ∷ keys) tenants t
Keyed-later hash k keys tenants t (row, inside, named, live, active) =
    (row, inr inside, named, live, active)

or_else-some :
    (first other : Option Tenant) (t : Tenant)
    → or_else first other ≡ some t
    → (first ≡ some t) ⊎ (other ≡ some t)
or_else-some none other t e = inr e
or_else-some (some x) other t e = inl e

pub keyed_tenant-Keyed :
    (hash : String) (tenants : List Tenant) (keys : List TenantKey) (t : Tenant)
    → keyed_tenant hash tenants keys ≡ some t
    → Keyed hash keys tenants t
unfolding keyed_tenant
keyed_tenant-Keyed hash tenants [] t e = absurd (cc e)
keyed_tenant-Keyed hash tenants (k ∷ keys) t e =
    elim (Bool-cases (k.key_hash == hash && not k.revoked)) [
      | inl good ↦
          elim (or_else-some (live_tenant k.tenant_id tenants) (keyed_tenant hash tenants keys) t
            (rw (good) at e)) [
              | inl here ↦ (
                k,
                inl refl,
                ground (arith, eq_iff k.key_hash hash),
                ground (arith),
                live_tenant-Active k.tenant_id tenants t here,
              )
              | inr rest ↦
                  Keyed-later hash k keys tenants t (keyed_tenant-Keyed hash tenants keys t rest)
            ]
      | inr bad ↦
          Keyed-later hash k keys tenants t (keyed_tenant-Keyed hash tenants keys t (rw (bad) at e))
    ]

pub as_lookup-found : (o : Option Tenant) (t : Tenant) → as_lookup o ≡ found t → o ≡ some t
as_lookup-found none t e = absurd (cc e)
as_lookup-found (some x) t e = cc e
