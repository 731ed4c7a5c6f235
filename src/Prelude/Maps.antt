-- ===== src/Prelude/Maps.antt =====
-- Go's `map[string]V` as an association list. A map has one entry for each key; `insert` keeps that.
use Prim.Native.String.{String}
use mathlib.Core.Path.{◌≡◌, refl}
use mathlib.Core.Option.{Option, none, some}
use mathlib.Core.List.{List, [], ◌∷◌}
use native.Mathlib.Omega.{arith}
use text.Mathlib.Text.{◌==◌}
use text.Mathlib.TextEquality.{eq_iff}
use rbitr.Prelude.Tests.{if◌then◌else◌, Bool-cases}
use rbitr.Prelude.Lists.{All}
use mathlib.Core.Logic.{inl, inr}

abbrev pub Map {ℓ} : Type ℓ → Type ℓ
Map V = List (String × V)

module _ {ℓ} {V : Type ℓ} where
  -- `table[key]` with its second result
  unfoldable pub lookup : String → Map V → Option V
  lookup key [] = none
  lookup key (entry ∷ table) = if entry.0 == key then some entry.1 else lookup key table

  -- `table[key] = value`
  unfoldable pub insert : String → V → Map V → Map V
  insert key value [] = (key, value) ∷ []
  insert key value (entry ∷ table) =
      if entry.0 == key then (key, value) ∷ table else entry ∷ insert key value table

  pub lookup-All {κ} :
      (P : V → Type κ) (k : String) (m : Map V) {v : V}
      → All (λ (e : String × V). P e.1) m
      → lookup k m ≡ some v
      → P v
  unfolding lookup
  lookup-All P k [] h e = cc
  lookup-All P k ((j, w) ∷ m) {v} h e = elim (Bool-cases (j == k)) [
    | inl same ↦ (let e' : w ≡ v = ground (arith, rw (same, lookup) at e) in rw (← e') h.0)
    | inr other ↦ lookup-All P k m h.1 (rw (other, lookup) at e)
  ]

  pub insert-All {κ} :
      (P : V → Type κ) (k : String) (v : V) (m : Map V)
      → All (λ (e : String × V). P e.1) m
      → P v
      → All (λ (e : String × V). P e.1) (insert k v m)
  unfolding insert
  insert-All P k v [] h p = (p, tt)
  insert-All P k v ((j, w) ∷ m) h p = elim (Bool-cases (j == k)) [
    | inl same ↦ rw (same, insert) (p, h.1)
    | inr other ↦ rw (other, insert) (h.0, insert-All P k v m h.1 p)
  ]

  -- What a written map answers for any key.
  pub lookup-insert :
      (written key : String) (value : V) (table : Map V)
      → lookup key (insert written value table)
        ≡ (if written == key then some value else lookup key table)
  unfolding lookup insert
  lookup-insert written key value [] = refl
  lookup-insert written key value (entry ∷ table) =
      let tail = lookup-insert written key value table in
      ground (arith, tail, eq_iff entry.0 written, eq_iff entry.0 key, eq_iff written key)
