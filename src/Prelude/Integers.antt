-- ===== src/Prelude/Integers.antt =====
-- Go's `int`, as far as the program uses it: a number that is read, compared and written.
use Prim.Native.Nat.{ℕ}
use mathlib.Core.Path.{◌≡◌, ap}
use mathlib.Core.Bool.{Bool, true, false}
use native.Mathlib.Omega.{arith}
use chainbind_go.Prelude.Tests.{eqb}

pub data ℤ : Type 0 where
  pos : ℕ → ℤ
  -- `negsuc n` is -(n + 1)
  negsuc : ℕ → ℤ

abbrev pub same_int : ℤ → ℤ → Bool
same_int (pos a) (pos b) = eqb a b
same_int (negsuc a) (negsuc b) = eqb a b
same_int (pos a) (negsuc b) = false
same_int (negsuc a) (pos b) = false

pub same_int-eq : (a b : ℤ) → same_int a b ≡ true → a ≡ b
same_int-eq (pos a) (pos b) h = ap pos (ground arith)
same_int-eq (negsuc a) (negsuc b) h = ap negsuc (ground arith)
same_int-eq (pos a) (negsuc b) h = absurd (cc)
same_int-eq (negsuc a) (pos b) h = absurd (cc)
