-- ===== src/Prelude/Lists.antt =====
-- Lists measured by native numbers, predicates on their members, and sets of names as lists.
use Prim.Native.Nat.{ℕ, zero, suc, ◌+◌}
use Prim.Native.String.{String}
use mathlib.Core.Path.{◌≡◌, refl, ap}
use mathlib.Core.Logic.{inl, inr}
use mathlib.Core.Bool.{Bool, true, false, ◌||◌, false≢true}
use mathlib.Core.List.{List, [], ◌∷◌, ◌++◌}
use native.Mathlib.Omega.{arith}
use text.Mathlib.Text.{◌==◌}
use text.Mathlib.TextEquality.{eq_iff}
use chainbind_go.Prelude.Tests.{String-cases, ==-eq-false}

module _ {ℓ} {A : Type ℓ} where
  abbrev pub length : List A → ℕ
  length [] = 0
  length (x ∷ xs) = suc (length xs)

  abbrev pub take : ℕ → List A → List A
  take zero xs = []
  take (suc n) [] = []
  take (suc n) (x ∷ xs) = x ∷ take n xs

  abbrev pub drop : ℕ → List A → List A
  drop zero xs = xs
  drop (suc n) [] = []
  drop (suc n) (x ∷ xs) = drop n xs

  pub length-append : (xs ys : List A) → length (xs ++ ys) ≡ length xs + length ys
  length-append [] ys = omega arith
  length-append (x ∷ xs) ys = omega (arith, length-append xs ys)

  pub take-append-drop : (n : ℕ) (xs : List A) → take n xs ++ drop n xs ≡ xs
  take-append-drop zero xs = refl
  take-append-drop (suc n) [] = refl
  take-append-drop (suc n) (x ∷ xs) = ap (λ r. x ∷ r) (take-append-drop n xs)

module _ {ℓ κ} {A : Type ℓ} (P : A → Type κ) where
  abbrev pub All : List A → Type κ
  All [] = Unit
  All (x ∷ xs) = P x × All xs

pub All-zip {ℓ κ} :
    {A : Type ℓ} (P Q R : A → Type κ)
    → ((x : A) → P x → Q x → R x)
    → (xs : List A) → All P xs
    → All Q xs
    → All R xs
All-zip P Q R f [] ps qs = tt
All-zip P Q R f (x ∷ xs) (p, ps) (q, qs) = (f x p q, All-zip P Q R f xs ps qs)

-- Membership of a name, as the program's `map[string]struct{}` sets test it.
abbrev pub contains : String → List String → Bool
contains a [] = false
contains a (x ∷ xs) = a == x || contains a xs

-- No name is listed twice.
abbrev pub Distinct : List String → Type 0
Distinct [] = Unit
Distinct (x ∷ xs) = (contains x xs ≡ false) × Distinct xs

pub All-contains {κ} :
    (P : String → Type κ) (a : String) (xs : List String) → All P xs → contains a xs ≡ true → P a
All-contains P a [] h c = absurd (false≢true c)
All-contains P a (x ∷ xs) (p, h) c = elim (String-cases a x) [
  | inl e ↦ rw e p
  | inr n ↦ All-contains P a xs h (rw (==-eq-false a x n) at c)
]

pub All-of_contains {κ} :
    (P : String → Type κ) (xs : List String)
    → ((a : String) → contains a xs ≡ true → P a)
    → All P xs
All-of_contains P [] h = tt
All-of_contains P (x ∷ xs) h = (
  h x (ground (arith, eq_iff x x)),
  All-of_contains P xs (λ a c. h a (ground (arith, eq_iff a x))),
)
