-- ===== src/Limits/Counts.antt =====
-- How many calls a limit lets through.
use rbitr.Prelude.{
  ℕ, zero, suc, ◌+◌, ◌-◌, ◌≤◌, ◌≡◌, refl, inl, inr, Bool, true, false, ◌&&◌, if◌then◌else◌, eqb,
  ltb, List, [], ◌∷◌, arith, eq_iff, Bool-cases, All,
}
use rbitr.Limits.{
  CounterKey, same_key, Counters, count, set_count, Increment, counted, counter_failed,
  increment_rate_limit_counter,
}

same_key-eq : (a b : CounterKey) → same_key a b ≡ true → a ≡ b
same_key-eq a b h = ground (
  arith,
  eq_iff a.key.tenant_id b.key.tenant_id,
  eq_iff a.key.agent_id b.key.agent_id,
  eq_iff a.key.tool_id b.key.tool_id,
  eq_iff a.key.action_type b.key.action_type,
  eq_iff a.window b.window,
)

same_key_self : (a : CounterKey) → same_key a a ≡ true
same_key_self a = ground (
  arith,
  eq_iff a.key.tenant_id a.key.tenant_id,
  eq_iff a.key.agent_id a.key.agent_id,
  eq_iff a.key.tool_id a.key.tool_id,
  eq_iff a.key.action_type a.key.action_type,
  eq_iff a.window a.window,
)

count-set_count : (k : CounterKey) (n : ℕ) (t : Counters) → count k (set_count k n t) ≡ n
unfolding count set_count
count-set_count k n [] = rw (same_key_self k) refl
count-set_count k n (row ∷ rows) = elim (Bool-cases (same_key row.0 k)) [
  | inl same ↦ rw (same, set_count) (rw (same, count) refl)
  | inr other ↦ rw (other, set_count) (rw (other, count) (count-set_count k n rows))
]

count-set_count_ne :
    (j k : CounterKey) (n : ℕ) (t : Counters)
    → same_key j k ≡ false
    → count k (set_count j n t) ≡ count k t
unfolding count set_count
count-set_count_ne j k n [] h = rw h refl
count-set_count_ne j k n (row ∷ rows) h = elim (Bool-cases (same_key row.0 j)) [
  | inl same ↦
      (let row_is_j : row.0 ≡ j = same_key-eq row.0 j same in
        let differs : same_key row.0 k ≡ false = rw row_is_j h in
        rw (same, set_count) (rw (differs, count) refl))
  | inr other ↦
      rw (other, set_count)
        (elim (Bool-cases (same_key row.0 k)) [
          | inl here ↦ rw (here, count) refl
          | inr there ↦ rw (there, count) (count-set_count_ne j k n rows h)
        ])
]

-- One attempt: a key, and the limit that holds for it then.
abbrev pub Attempt : Type 0
Attempt = CounterKey × ℕ

abbrev pub is_allowed : Increment → Bool
is_allowed (counted b n) = b
is_allowed counter_failed = false

-- the attempts that a database which answers lets through, of those with the key
unfoldable pub admitted : CounterKey → List Attempt → Counters → ℕ
admitted k [] t = 0
admitted k (a ∷ rest) t =
    let out = increment_rate_limit_counter true a.0 a.1 t in
    let later = admitted k rest out.1 in
    if same_key a.0 k && is_allowed out.0 then later + 1 else later

unfoldable pub attempts : CounterKey → List Attempt → ℕ
attempts k [] = 0
attempts k (a ∷ rest) = let later = attempts k rest in if same_key a.0 k then later + 1 else later

-- the lesser of two numbers
abbrev pub min : ℕ → ℕ → ℕ
min a b = if ltb a b then a else b

-- an attempt with another key
pub increment-other :
    (j k : CounterKey) (l : ℕ) (t : Counters)
    → same_key j k ≡ false
    → count k (increment_rate_limit_counter true j l t).1 ≡ count k t
unfolding increment_rate_limit_counter
increment-other j k zero t h = refl
increment-other j k (suc l) t h = elim (Bool-cases (eqb (count j t) 0)) [
  | inl new ↦ rw (new, increment_rate_limit_counter) (count-set_count_ne j k 1 t h)
  | inr old ↦ elim (Bool-cases (ltb (count j t) (suc l))) [
    | inl below ↦
        rw (old, below, increment_rate_limit_counter) (count-set_count_ne j k (count j t + 1) t h)
    | inr full ↦ rw (old, full, increment_rate_limit_counter) refl
  ]
]

-- an attempt below the limit, and one at it
increment-below :
    (k : CounterKey) (l : ℕ) (t : Counters)
    → count k t ≤ l
    → let out = increment_rate_limit_counter true k (suc l) t in
      (is_allowed out.0 ≡ true) × (count k out.1 ≡ count k t + 1)
unfolding increment_rate_limit_counter
increment-below k l t h = elim (Bool-cases (eqb (count k t) 0)) [
  | inl new ↦
      rw (new, increment_rate_limit_counter) (refl, (let e = count-set_count k 1 t in ground arith))
  | inr old ↦
      (let below : ltb (count k t) (suc l) ≡ true = ground arith in
        rw (old, below, increment_rate_limit_counter) (refl, count-set_count k (count k t + 1) t))
]

increment-full :
    (k : CounterKey) (l : ℕ) (t : Counters)
    → count k t ≡ suc l
    → let out = increment_rate_limit_counter true k (suc l) t in
      (is_allowed out.0 ≡ false) × (count k out.1 ≡ count k t)
unfolding increment_rate_limit_counter
increment-full k l t h =
    let old : eqb (count k t) 0 ≡ false = ground arith in
    let full : ltb (count k t) (suc l) ≡ false = ground arith in
    rw (old, full, increment_rate_limit_counter) (refl, refl)

increment-key_below :
    (j k : CounterKey) (m l : ℕ) (t : Counters)
    → j ≡ k
    → m ≡ suc l
    → count k t ≤ l
    → let out = increment_rate_limit_counter true j m t in
      (is_allowed out.0 ≡ true) × (count k out.1 ≡ count k t + 1)
increment-key_below j k m l t key limit h = rw (key, limit) (increment-below k l t h)

increment-key_full :
    (j k : CounterKey) (m l : ℕ) (t : Counters)
    → j ≡ k
    → m ≡ suc l
    → count k t ≡ suc l
    → let out = increment_rate_limit_counter true j m t in
      (is_allowed out.0 ≡ false) × (count k out.1 ≡ count k t)
increment-key_full j k m l t key limit h = rw (key, limit) (increment-full k l t h)

-- The attempts with the key meet the same limit.
abbrev pub HasLimit : CounterKey → ℕ → Attempt → Type 0
HasLimit k l a = same_key a.0 k ≡ true → a.1 ≡ l

-- Of the attempts that count under one key (a tenant, perhaps an agent and a tool, and one minute or
-- day) and meet one and the same limit, of at least 1 and not exceeded before, exactly as many are let
-- through as the limit has left, or all of them if they are fewer, however attempts under other keys
-- and with other limits come in between.
pub admitted-min :
    (k : CounterKey) (l : ℕ) (ops : List Attempt) (t : Counters)
    → All (HasLimit k (suc l)) ops
    → count k t ≤ suc l
    → admitted k ops t ≡ min (attempts k ops) (suc l - count k t)
unfolding admitted attempts
admitted-min k l [] t h le = ground arith
admitted-min k l (a ∷ rest) t h le = elim (Bool-cases (same_key a.0 k)) [
  | inr other ↦
      (let kept = increment-other a.0 k a.1 t other in
        let after = (increment_rate_limit_counter true a.0 a.1 t).1 in
        let ih = admitted-min k l rest after h.1 (ground arith) in ground (arith, ih, kept, other))
  | inl same ↦
      (let is_k : a.0 ≡ k = same_key-eq a.0 k same in
        let limit : a.1 ≡ suc l = h.0 same in
        let after = (increment_rate_limit_counter true a.0 a.1 t).1 in
        elim (Bool-cases (ltb (count k t) (suc l))) [
          | inl below ↦
              (let (allowed, grows) = increment-key_below a.0 k a.1 l t is_k limit (ground arith) in
                let ih = admitted-min k l rest after h.1 (ground arith) in
                ground (arith, ih, allowed, grows, same))
          | inr full ↦
              (let (refused, stays) = increment-key_full a.0 k a.1 l t is_k limit (ground arith) in
                let ih = admitted-min k l rest after h.1 (ground arith) in
                ground (arith, ih, refused, stays, same))
        ])
]
