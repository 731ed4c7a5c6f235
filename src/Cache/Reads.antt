-- ===== src/Cache/Reads.antt =====
-- What a read finds after the cache was changed.
use rbitr.Prelude.{
  ℕ, ◌+◌, String, ◌≡◌, refl, inl, inr, Bool, ◌==◌, if◌then◌else◌, ltb, Option, none, some, [], ◌∷◌,
  Map, lookup, insert, starts_with, arith, eq_iff, Bool-cases,
}
use rbitr.Cache.{Entry, TtlCache, delete_if, get, set, invalidate, invalidate_prefix}

module _ {ℓ} {W : Type ℓ} where
  lookup-insert :
      (key other : String) (v : W) (m : Map W)
      → lookup other (insert key v m) ≡ (if key == other then some v else lookup other m)
  unfolding lookup insert
  lookup-insert key other v [] = refl
  lookup-insert key other v ((k, w) ∷ m) =
      ground (arith, eq_iff k key, eq_iff k other, eq_iff key other, lookup-insert key other v m)

module _ {ℓ} {V : Type ℓ} where
  lookup-delete_if :
      (test : String → Bool) (key : String) (m : Map (Entry V))
      → lookup key (delete_if test m) ≡ (if test key then none else lookup key m)
  unfolding lookup delete_if
  lookup-delete_if test key [] = ground arith
  lookup-delete_if test key ((k, w) ∷ m) = ground (arith, eq_iff k key, lookup-delete_if test key m)

  -- what `Get` returns for the entry that it found
  abbrev live : Option (Entry V) → ℕ → Option V
  live none now = none
  live (some e) now = if ltb e.expires_at now then none else some e.value

  get-live :
      (key : String) (now : ℕ) (c : TtlCache V)
      → (get key now c).0 ≡ live (lookup key c.entries) now
  unfolding get
  get-live key now c = ground arith

  -- A read after a write: the value that was written until the time to live is over, and nothing
  -- then; under every other key what was there before.
  pub get-set :
      (key other : String) (v : V) (now later : ℕ) (c : TtlCache V)
      → (get other later (set key v now c)).0 ≡ (
          if key == other
          then (if ltb (now + c.ttl) later then none else some v)
          else (get other later c).0)
  unfolding set
  get-set key other v now later c =
      let after = get-live other later (set key v now c) in
      let before = get-live other later c in
      let entry : Entry V = record { value = v; expires_at = now + c.ttl } in
      let found = lookup-insert key other entry c.entries in
      elim (Bool-cases (key == other)) [
        | inl same ↦ rw (after, found, same) refl
        | inr differ ↦ rw (after, found, differ, before) refl
      ]

  -- A read after the keys with a prefix were invalidated: nothing under these, and under every other
  -- key what was there before.
  pub get-invalidate_prefix :
      (prefix other : String) (later : ℕ) (c : TtlCache V)
      → (get other later (invalidate_prefix prefix c)).0
        ≡ (if starts_with other prefix then none else (get other later c).0)
  unfolding invalidate_prefix
  get-invalidate_prefix prefix other later c =
      let after = get-live other later (invalidate_prefix prefix c) in
      let before = get-live other later c in
      let found = lookup-delete_if (λ k. starts_with k prefix) other c.entries in
      elim (Bool-cases (starts_with other prefix)) [
        | inl same ↦ rw (after, found, same) refl
        | inr differ ↦ rw (after, found, differ, before) refl
      ]

  pub get-invalidate :
      (key other : String) (later : ℕ) (c : TtlCache V)
      → (get other later (invalidate key c)).0
        ≡ (if other == key then none else (get other later c).0)
  unfolding invalidate
  get-invalidate key other later c =
      let after = get-live other later (invalidate key c) in
      let before = get-live other later c in
      let found = lookup-delete_if (λ k. k == key) other c.entries in
      elim (Bool-cases (other == key)) [
        | inl same ↦ rw (after, found, same) refl
        | inr differ ↦ rw (after, found, differ, before) refl
      ]
