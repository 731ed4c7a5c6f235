-- ===== src/Classification/Paths/Sandbox.antt =====
-- Which paths a tenant's sandbox accepts.
use Prim.Native.String
use rbitr.Prelude.{
  String, ◌≡◌, ◌↔◌, ◌⊎◌, inl, inr, refl, true, false, ◌==◌, List, [], ◌∷◌, ◌++◌, starts_with, arith,
  eq_iff, Bool-cases, All,
}
use rbitr.Classification.Input.{clean}
use rbitr.Classification.Paths.{
  contains_traversal, sandbox_root, FilePathResult, check_path, check_paths, validate_sandbox,
}

-- A path without a `..` segment that is the root itself or lies below it, once it is cleaned.
abbrev pub IsInside : String → String → Type 0
IsInside root p =
    (contains_traversal p ≡ false)
    × ((starts_with (clean p) (String.◌++◌ root "/") ≡ true) ⊎ (clean p ≡ root))

-- A result that has nothing to object to.
abbrev pub IsAccepted : FilePathResult → Type 0
IsAccepted r = (r.has_traversal ≡ false) × (r.denied_paths ≡ [])

append-nonempty : (xs : List String) (x : String) → ¬ (xs ++ x ∷ [] ≡ [])
append-nonempty [] x e = cc
append-nonempty (y ∷ ys) x e = cc

check_path-IsAccepted :
    (root p : String) (r : FilePathResult)
    → IsAccepted (check_path root p r) ↔ (IsAccepted r × IsInside root p)
unfolding check_path
check_path-IsAccepted root p r = elim (Bool-cases (contains_traversal p)) [
  | inl escapes ↦ rw (escapes, check_path) (λ a. cc, λ h. cc)
  | inr stays ↦ elim (Bool-cases (starts_with (clean p) (String.◌++◌ root "/"))) [
    | inl below ↦ rw (stays, below, check_path) (λ a. (a, (refl, inl refl)), λ h. h.0)
    | inr outside ↦ elim (Bool-cases (clean p == root)) [
      | inl same ↦
          (let at_root : clean p ≡ root = (eq_iff (clean p) root).0 same in
            rw (stays, outside, same, check_path) (λ a. (a, (refl, inr at_root)), λ h. h.0))
      | inr other ↦
          rw (stays, outside, other, check_path)
            (
              λ a. absurd (append-nonempty r.denied_paths p a.1),
              λ h. ground (arith, eq_iff (clean p) root),
            )
    ]
  ]
]

check_paths-IsAccepted :
    (root : String) (ps : List String) (r : FilePathResult)
    → IsAccepted (check_paths root ps r) ↔ (IsAccepted r × All (IsInside root) ps)
unfolding check_paths
check_paths-IsAccepted root [] r = (λ a. (a, tt), λ h. h.0)
check_paths-IsAccepted root (p ∷ ps) r =
    let rest = check_paths-IsAccepted root ps (check_path root p r) in
    let here = check_path-IsAccepted root p r in
    (
      λ a.
          (let (accepted, inside) = rest.0 a in
            let (before, first) = here.0 accepted in (before, (first, inside))),
      λ h. rest.1 (here.1 (h.0, h.1.0), h.1.1),
    )

-- The sandbox check finds nothing to object to exactly if every path is free of `..` segments and,
-- once cleaned, is the tenant's sandbox root or lies below it.
pub validate_sandbox-IsAccepted :
    (paths : List String) (tenant_id : String)
    → IsAccepted (validate_sandbox paths tenant_id) ↔ All (IsInside (sandbox_root tenant_id)) paths
unfolding validate_sandbox
validate_sandbox-IsAccepted paths tenant_id =
    let all =
      check_paths-IsAccepted (sandbox_root tenant_id) paths (record {
        paths = paths;
        has_traversal = false;
        traversal_paths = [];
        denied_paths = [];
      }) in
    (λ a. (all.0 a).1, λ h. all.1 ((refl, refl), h))
