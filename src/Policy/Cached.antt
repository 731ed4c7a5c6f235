-- ===== src/Policy/Cached.antt =====
-- The cache of prepared policies changes no decision.
use rbitr.Prelude.{
  ℕ, String, ◌≡◌, refl, inl, inr, Option, none, some, arith, eq_iff, Option-cases, All, Map, lookup,
  lookup-All, insert-All,
}
use rbitr.Json.{Value, Members}
use rbitr.Policy.Evaluate.{
  TenantPolicy, CachedPrepared, EvalOutcome, eval_failed, cache_key, evaluate_prepared, fresh_entry,
  prepare_and_evaluate, evaluate_tenant_policy,
}

module _ {P : Type 0} (prepare : String → Option P) (eval : P → Members → Option (Option Value))
    (get_policy : String → Option TenantPolicy) where
  -- What is cached is the prepared form of the text that it is cached with.
  abbrev pub IsEntry : CachedPrepared P → Type 0
  IsEntry c = prepare c.module_text ≡ some c.prepared

  abbrev pub IsCache : Map (CachedPrepared P) → Type 0
  IsCache cache = All (λ (e : String × CachedPrepared P). IsEntry e.1) cache

  fresh_entry-IsEntry :
      (o : Option (CachedPrepared P)) (policy : TenantPolicy) (now : ℕ) (q : P)
      → ((c : CachedPrepared P) → o ≡ some c → IsEntry c)
      → fresh_entry prepare eval get_policy o policy now ≡ some q
      → prepare policy.rego_module ≡ some q
  unfolding fresh_entry
  fresh_entry-IsEntry none policy now q h e = cc
  fresh_entry-IsEntry (some c) policy now q h e =
      ground (arith, eq_iff c.module_text policy.rego_module, h c refl)

  -- the outcome without a cache
  abbrev pub uncached : String → Members → EvalOutcome
  uncached tenant_id input = elim (get_policy tenant_id) [
    | none ↦ eval_failed
    | some policy ↦ elim (prepare policy.rego_module) [
      | none ↦ eval_failed
      | some q ↦ evaluate_prepared prepare eval get_policy q input policy
    ]
  ]

  -- With a cache whose entries are what was prepared from the text beside them, the tenant's policy
  -- is evaluated to the same outcome as without a cache, at any time, also after the policy was
  -- changed; and the cache is again such a cache.
  pub evaluate_tenant_policy-uncached :
      (now : ℕ) (tenant_id : String) (input : Members) (cache : Map (CachedPrepared P))
      → IsCache cache
      → let (out, cache') =
          evaluate_tenant_policy prepare eval get_policy now tenant_id input cache in
        (out ≡ uncached tenant_id input) × IsCache cache'
  unfolding evaluate_tenant_policy prepare_and_evaluate
  evaluate_tenant_policy-uncached now tenant_id input cache h =
      elim (Option-cases (get_policy tenant_id)) [
        | inl missing ↦ rw (missing, evaluate_tenant_policy, uncached) (refl, h)
        | inr (policy, found) ↦
            rw (found, evaluate_tenant_policy, uncached)
              (elim (Option-cases (
                fresh_entry prepare eval get_policy (lookup (cache_key tenant_id policy) cache)
                  policy now)) [
                    | inr (q, hit) ↦
                        rw (hit, evaluate_tenant_policy)
                          (rw
                            (
                              fresh_entry-IsEntry (lookup (cache_key tenant_id policy) cache) policy
                                  now q
                                  (λ c. lookup-All IsEntry (cache_key tenant_id policy) cache h)
                                  hit,
                              uncached,
                            )
                            (refl, h))
                    | inl miss ↦
                        rw (miss, evaluate_tenant_policy)
                          (elim (Option-cases (prepare policy.rego_module)) [
                            | inl bad ↦ rw (bad, prepare_and_evaluate, uncached) (refl, h)
                            | inr (q, ok) ↦
                                rw (ok, prepare_and_evaluate, uncached)
                                  (
                                    refl,
                                    insert-All IsEntry (cache_key tenant_id policy) _ cache h ok,
                                  )
                          ])
                  ])
      ]
