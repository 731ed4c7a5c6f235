-- ===== src/Cache.antt =====
-- The cache with expiry: internal/cache/cache.go. Times are nanoseconds; each operation is atomic
-- under the cache's mutex.
pub mod Reads
use rbitr.Prelude.{
  ℕ, ◌+◌, String, Bool, true, false, ◌==◌, if◌then◌else◌, ltb, Option, none, some, List, [], ◌∷◌,
  Map, lookup, insert, starts_with,
}

pub record Entry {ℓ} (V : Type ℓ) : Type ℓ where
  pub value : V
  pub expires_at : ℕ

pub record TtlCache {ℓ} (V : Type ℓ) : Type ℓ where
  pub entries : Map (Entry V)
  pub ttl : ℕ
  pub hits : ℕ
  pub misses : ℕ

-- `delete` of the keys that satisfy the test
unfoldable pub delete_if {ℓ} : {V : Type ℓ} → (String → Bool) → Map (Entry V) → Map (Entry V)
delete_if test [] = []
delete_if test (e ∷ es) = let rest = delete_if test es in if test e.0 then rest else e ∷ rest

module _ {ℓ} {V : Type ℓ} where
  abbrev miss : TtlCache V → Option V × TtlCache V
  miss c = (none, record c { misses = c.misses + 1 })

  unfoldable pub get : String → ℕ → TtlCache V → Option V × TtlCache V
  get key now c = elim (lookup key c.entries) [
    | none ↦ miss c
    | some e ↦
        if ltb e.expires_at now then miss c else (some e.value, record c { hits = c.hits + 1 })
  ]

  unfoldable pub set : String → V → ℕ → TtlCache V → TtlCache V
  set key v now c = record c {
    entries = insert key (record { value = v; expires_at = now + c.ttl }) c.entries;
  }

  unfoldable pub invalidate : String → TtlCache V → TtlCache V
  invalidate key c = record c { entries = delete_if (λ k. k == key) c.entries }

  unfoldable pub invalidate_prefix : String → TtlCache V → TtlCache V
  invalidate_prefix prefix c = record c {
    entries = delete_if (λ k. starts_with k prefix) c.entries;
  }
