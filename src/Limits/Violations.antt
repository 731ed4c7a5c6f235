-- ===== src/Limits/Violations.antt =====
-- What a rate limit violation tells the caller.
use rbitr.Prelude.{
  ℕ, zero, suc, ◌+◌, ◌*◌, ◌≤◌, ◌≡◌, ◌⊎◌, inl, inr, refl, Bool, true, false, ltb, arith, Bool-cases,
}
use rbitr.Limits.{
  RateLimitKey, CounterKey, Counters, count, Increment, counted, counter_failed,
  increment_rate_limit_counter,
}
use rbitr.Limits.Config.{RateLimitConfig}
use rbitr.Limits.Counts.{increment-other}
use rbitr.Limits.Enforce.{
  RateLimitViolation, violates, minute, day, second, minute_bucket_start, day_bucket_start,
  seconds_until_next_minute, seconds_until_next_day, after_day, check_day, after_minute,
  check_minute,
}

next_minute :
    (now : ℕ)
    → minute_bucket_start (now + seconds_until_next_minute now * second)
      ≡ minute_bucket_start now + minute
next_minute now = omega arith

next_day :
    (now : ℕ)
    → day_bucket_start (now + seconds_until_next_day now * second) ≡ day_bucket_start now + day
next_day now = omega arith

increment-refused :
    (answers : Bool) (k : CounterKey) (l m : ℕ) (t : Counters)
    → (increment_rate_limit_counter answers k l t).0 ≡ counted false m
    → l ≤ count k t
unfolding increment_rate_limit_counter
increment-refused answers k zero m t h = omega arith
increment-refused false k (suc l) m t h = cc
increment-refused true k (suc l) m t h = ground arith

module _ (c : RateLimitConfig) (key : RateLimitKey) (now : ℕ) where
  abbrev pub minute_key : CounterKey
  minute_key = record { key = key; window = "minute"; bucket_start = minute_bucket_start now }

  abbrev pub day_key : CounterKey
  day_key = record { key = key; window = "day"; bucket_start = day_bucket_start now }

  -- The limit that is named is used up, and after the seconds that are named the next bucket begins.
  abbrev pub IsMinuteFull : Counters → RateLimitViolation → Type 0
  IsMinuteFull t v =
      (v.window ≡ "minute")
      × (v.limit ≡ c.per_minute)
      × (c.per_minute ≤ count minute_key t)
      × (minute_bucket_start (now + v.retry_after_seconds * second)
          ≡ minute_bucket_start now + minute)

  abbrev pub IsDayFull : Counters → RateLimitViolation → Type 0
  IsDayFull t v =
      (v.window ≡ "day")
      × (v.limit ≡ c.per_day)
      × (c.per_day ≤ count day_key t)
      × (day_bucket_start (now + v.retry_after_seconds * second) ≡ day_bucket_start now + day)

  after_day-IsDayFull :
      (t : Counters) (out : Increment × Counters) (v : RateLimitViolation)
      → ((m : ℕ) → out.0 ≡ counted false m → c.per_day ≤ count day_key t)
      → (after_day c now out).0 ≡ violates v
      → IsDayFull t v
  unfolding after_day
  after_day-IsDayFull t (counter_failed, t') v full h = cc
  after_day-IsDayFull t (counted true n, t') v full h = cc
  after_day-IsDayFull t (counted false n, t') v full h =
      let used = full n refl in let next = next_day now in ground (arith, used, next)

  check_day-IsDayFull :
      (answers : Bool) (t : Counters) (v : RateLimitViolation)
      → (check_day answers c key now t).0 ≡ violates v
      → IsDayFull t v
  unfolding check_day
  check_day-IsDayFull answers t v h = elim (Bool-cases (ltb 0 c.per_day)) [
    | inr unlimited ↦ cc (rw (unlimited, check_day) at h)
    | inl limited ↦
        after_day-IsDayFull t (increment_rate_limit_counter answers day_key c.per_day t) v
          (λ m. increment-refused answers day_key c.per_day m t) (rw (limited, check_day) at h)
  ]

  minute_key-day_key :
      (answers : Bool) (l : ℕ) (t : Counters)
      → count day_key (increment_rate_limit_counter answers minute_key l t).1 ≡ count day_key t
  unfolding increment_rate_limit_counter
  minute_key-day_key true l t = increment-other minute_key day_key l t (ground arith)
  minute_key-day_key false zero t = refl
  minute_key-day_key false (suc l) t = refl

  after_minute-full :
      (answers : Bool) (t : Counters) (out : Increment × Counters) (v : RateLimitViolation)
      → ((m : ℕ) → out.0 ≡ counted false m → c.per_minute ≤ count minute_key t)
      → count day_key out.1 ≡ count day_key t
      → (after_minute answers c key now out).0 ≡ violates v
      → IsMinuteFull t v ⊎ IsDayFull t v
  unfolding after_minute
  after_minute-full answers t (counter_failed, t') v full kept h = cc
  after_minute-full answers t (counted true n, t') v full kept h =
      inr (
        let (w, l, used, next) = check_day-IsDayFull answers t' v h in
        (w, l, rw kept at used, next))
  after_minute-full answers t (counted false n, t') v full kept h =
      inl (let used = full n refl in let next = next_minute now in ground (arith, used, next))

  -- A violation is reported only if the limit that it names, of this minute or of this day, is used
  -- up under the call's key in the table as it was, and waiting for the number of seconds that it
  -- names leads to exactly the next minute or the next day.
  pub check_minute-full :
      (answers : Bool) (t : Counters) (v : RateLimitViolation)
      → (check_minute answers c key now t).0 ≡ violates v
      → IsMinuteFull t v ⊎ IsDayFull t v
  unfolding check_minute
  check_minute-full answers t v h = elim (Bool-cases (ltb 0 c.per_minute)) [
    | inr unlimited ↦ inr (check_day-IsDayFull answers t v (rw (unlimited, check_minute) at h))
    | inl limited ↦
        after_minute-full answers t (increment_rate_limit_counter answers minute_key c.per_minute t)
          v (λ m. increment-refused answers minute_key c.per_minute m t)
          (minute_key-day_key answers c.per_minute t) (rw (limited, check_minute) at h)
  ]
