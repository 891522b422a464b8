-- ===== src/Prelude/Counting.antt =====
-- Counting names: a list without repetition that lies in another one and is no shorter holds all of
-- its names.
use Prim.Native.Nat.{suc, ◌≤◌}
use Prim.Native.String.{String}
use mathlib.Core.Path.{◌≡◌, refl}
use mathlib.Core.Logic.{inl, inr}
use mathlib.Core.Bool.{true, false}
use mathlib.Core.List.{List, [], ◌∷◌}
use native.Mathlib.Omega.{arith}
use text.Mathlib.Text.{◌==◌}
use text.Mathlib.TextEquality.{eq_iff}
use chainbind_go.Prelude.Tests.{if◌then◌else◌, Bool-cases}
use chainbind_go.Prelude.Lists.{length, contains, Distinct}

-- The list without the first place where a name stands.
erase : String → List String → List String
erase a [] = []
erase a (x ∷ xs) = if a == x then xs else x ∷ erase a xs

length-erase :
    (a : String) (xs : List String) → contains a xs ≡ true → length xs ≡ suc (length (erase a xs))
unfolding erase
length-erase a [] h = cc
length-erase a (x ∷ xs) h = ground (arith, length-erase a xs)

contains-erase_ne :
    (a b : String) (xs : List String) → (b == a) ≡ false → contains b (erase a xs) ≡ contains b xs
unfolding erase
contains-erase_ne a b [] h = refl
contains-erase_ne a b (x ∷ xs) h =
    ground (arith, contains-erase_ne a b xs, eq_iff a x, eq_iff b a, eq_iff b x)

-- `xs` lies in `ys` away from its own head.
erase_keeps :
    (a : String) (xs ys : List String)
    → contains a xs ≡ false
    → ((b : String) → contains b xs ≡ true → contains b ys ≡ true)
    → (b : String) → contains b xs ≡ true
    → contains b (erase a ys) ≡ true
erase_keeps a xs ys away inside b here = elim (Bool-cases (b == a)) [
  | inl same ↦ absurd (ground (arith, eq_iff b a))
  | inr other ↦ rw (contains-erase_ne a b ys other) (inside b here)
]

pub contains_of_full :
    (xs ys : List String)
    → Distinct xs
    → ((b : String) → contains b xs ≡ true → contains b ys ≡ true)
    → length ys ≤ length xs
    → (a : String) → contains a ys ≡ true
    → contains a xs ≡ true
contains_of_full [] [] d inside short a here = here
contains_of_full [] (y ∷ ys) d inside short a here = absurd (omega arith)
contains_of_full (x ∷ xs) ys (away, d) inside short a here = elim (Bool-cases (a == x)) [
  | inl same ↦ rw same refl
  | inr other ↦
      let there : contains x ys ≡ true = inside x (ground (arith, eq_iff x x)) in
      let rest =
        contains_of_full xs (erase x ys) d (erase_keeps x xs ys away λ b h. inside b (ground arith))
          (omega (arith, length-erase x ys there)) a (rw (contains-erase_ne x a ys other) here) in
      rw (other, rest) refl
]

-- A list without repetition that lies in another one is no longer.
pub length-le_of_inside :
    (xs ys : List String)
    → Distinct xs
    → ((b : String) → contains b xs ≡ true → contains b ys ≡ true)
    → length xs ≤ length ys
length-le_of_inside [] ys d inside = omega arith
length-le_of_inside (x ∷ xs) ys (away, d) inside =
    let there : contains x ys ≡ true = inside x (ground (arith, eq_iff x x)) in
    let rest =
      length-le_of_inside xs (erase x ys) d
        (erase_keeps x xs ys away λ b h. inside b (ground arith)) in
    omega (arith, length-erase x ys there)
