-- ===== src/Json/Depth.antt =====
-- How deep decoded JSON nests, and that a member lies less deep than its object.
use Prim.Native.Nat.{max}
use rbitr.Prelude.{ℕ, suc, ◌≤◌, String, ◌==◌, inl, inr, arith, Bool-cases}
use rbitr.Json.{Value, array, object, Values, nil, cons, Members, end, member, get}

unfoldable mutual
  pub depth : Value → ℕ
  depth (array vs) = suc (depth_items vs)
  depth (object ms) = suc (depth_members ms)
  depth _ = 0

  pub depth_items : Values → ℕ
  depth_items nil = 0
  depth_items (cons v vs) = max (depth v) (depth_items vs)

  pub depth_members : Members → ℕ
  depth_members end = 0
  depth_members (member k v ms) = max (depth v) (depth_members ms)

pub depth-get : (key : String) (ms : Members) → depth (get key ms) ≤ depth_members ms
unfolding depth get
depth-get key end = omega arith
depth-get key (member k v ms) = elim (Bool-cases (k == key)) [
  | inl same ↦ rw (same, get) (omega arith)
  | inr other ↦ rw (other, get) (omega (arith, depth-get key ms))
]
