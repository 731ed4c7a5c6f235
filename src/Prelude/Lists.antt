-- ===== src/Prelude/Lists.antt =====
-- Predicates on lists, and lists measured by native numbers.
use Prim.Native.Nat.{ℕ, suc, ◌+◌}
use mathlib.Core.Path.{◌≡◌, refl, sym, subst}
use mathlib.Core.Logic.{◌⊎◌, inl, inr, Lift}
use mathlib.Core.Option.{Option, none, some}
use mathlib.Core.List.{List, [], ◌∷◌, ◌++◌}
use native.Mathlib.Omega.{arith}

abbrev pub All {ℓ κ} : {A : Type ℓ} → (A → Type κ) → List A → Type κ
All Good [] = Unit
All Good (first ∷ rest) = Good first × All Good rest

pub All-append {ℓ κ} :
    {A : Type ℓ} (front back : List A) (Good : A → Type κ)
    → All Good front
    → All Good back
    → All Good (front ++ back)
All-append [] back Good good_front good_back = good_back
All-append (first ∷ front) back Good good_front good_back =
    (good_front.0, All-append front back Good good_front.1 good_back)

abbrev pub length {ℓ} : {A : Type ℓ} → List A → ℕ
length [] = 0
length (x ∷ xs) = suc (length xs)

pub length-append {ℓ} : {A : Type ℓ} (xs ys : List A) → length (xs ++ ys) ≡ length xs + length ys
length-append [] ys = omega arith
length-append (x ∷ xs) ys = omega (arith, length-append xs ys)

-- What holds of the value, if there is one.
abbrev pub Holds {ℓ κ} : {A : Type ℓ} → (A → Type κ) → Option A → Type κ
Holds P none = Unit
Holds P (some a) = P a

pub All-map {ℓ κ μ} :
    {A : Type ℓ} (P : A → Type κ) (Q : A → Type μ) (xs : List A)
    → ((a : A) → P a → Q a)
    → All P xs
    → All Q xs
All-map P Q [] f h = tt
All-map P Q (x ∷ xs) f h = (f x h.0, All-map P Q xs f h.1)

abbrev pub In {ℓ} : {A : Type ℓ} → A → List A → Type ℓ
In a [] = Lift ⊥
In a (x ∷ xs) = (a ≡ x) ⊎ In a xs

pub All-In {ℓ κ} :
    {A : Type ℓ} (P : A → Type κ) (xs : List A) → ((a : A) → In a xs → P a) → All P xs
All-In P [] h = tt
All-In P (x ∷ xs) h = (h x (inl refl), All-In P xs (λ a later. h a (inr later)))

pub In-All {ℓ κ} : {A : Type ℓ} (P : A → Type κ) (a : A) (xs : List A) → In a xs → All P xs → P a
In-All P a [] h all = absurd h.lower
In-All P a (x ∷ xs) (inl e) all = subst P (sym e) all.0
In-All P a (x ∷ xs) (inr later) all = In-All P a xs later all.1
