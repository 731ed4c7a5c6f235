-- ===== src/Limits.antt =====
-- The rate limits of tool calls: internal/api/public/rate_limit.go, and of internal/store/store.go the
-- counters in rbitr.rate_limit_counters and the configuration that applies to a tenant. Times are
-- nanoseconds since a midnight in UTC. The table is a map from keys to counts.
pub mod Config
pub mod Enforce
pub mod Counts
pub mod Violations
use rbitr.Prelude.{
  ℕ, zero, suc, ◌+◌, String, Bool, true, false, ◌&&◌, ◌==◌, if◌then◌else◌, eqb, ltb, Option, none,
  some, List, [], ◌∷◌,
}

pub record RateLimitKey : Type 0 where
  pub tenant_id : String
  pub agent_id : String
  pub tool_id : String
  pub action_type : String

-- the columns of the table's unique key
pub record CounterKey : Type 0 where
  pub key : RateLimitKey
  pub window : String
  pub bucket_start : ℕ

abbrev pub same_key : CounterKey → CounterKey → Bool
same_key a b =
    a.key.tenant_id == b.key.tenant_id
    && a.key.agent_id == b.key.agent_id
    && a.key.tool_id == b.key.tool_id
    && a.key.action_type == b.key.action_type
    && a.window == b.window
    && eqb a.bucket_start b.bucket_start

abbrev pub Counters : Type 0
Counters = List (CounterKey × ℕ)

-- the count of the key's row, or 0 where there is none
unfoldable pub count : CounterKey → Counters → ℕ
count k [] = 0
count k (row ∷ rows) = if same_key row.0 k then row.1 else count k rows

unfoldable pub set_count : CounterKey → ℕ → Counters → Counters
set_count k n [] = (k, n) ∷ []
set_count k n (row ∷ rows) =
    if same_key row.0 k then (row.0, n) ∷ rows else row ∷ set_count k n rows

-- What an increment returns: whether it is allowed, and the count.
pub data Increment : Type 0 where
  counted : Bool → ℕ → Increment
  counter_failed : Increment

-- The row is inserted with the count 1, or counted up where its count is below the limit. A row's
-- count is never 0, so that 0 stands for no row.
unfoldable pub increment_rate_limit_counter :
    Bool → CounterKey → ℕ → Counters → Increment × Counters
increment_rate_limit_counter answers k zero t = (counted true 0, t)
increment_rate_limit_counter false k (suc n) t = (counter_failed, t)
increment_rate_limit_counter true k (suc n) t =
    if eqb (count k t) 0
    then (counted true 1, set_count k 1 t)
    else if ltb (count k t) (suc n)
    then (counted true (count k t + 1), set_count k (count k t + 1) t)
    else (counted false 0, t)
