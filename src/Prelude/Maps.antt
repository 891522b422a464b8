-- ===== src/Prelude/Maps.antt =====
-- Go's `map[string]V` as an association list. `insert` replaces or adds one entry, so a map that is
-- built by it holds each key once (`IsMap`). Go leaves the order of iteration open: what the
-- program computes from a map is stated by look-ups.
use Prim.Native.String.{String}
use Prim.Native.Nat.{suc, ◌≤◌}
use mathlib.Core.Path.{◌≡◌, refl, ap}
use mathlib.Core.Bool.{Bool, true, false, ◌||◌}
use mathlib.Core.Option.{Option, none, some}
use mathlib.Core.List.{List, [], ◌∷◌}
use native.Mathlib.Omega.{arith}
use text.Mathlib.Text.{◌==◌}
use text.Mathlib.TextEquality.{eq_iff}
use chainbind_go.Prelude.Tests.{if◌then◌else◌}
use chainbind_go.Prelude.Lists.{contains, length, Distinct}

abbrev pub Map {ℓ} : Type ℓ → Type ℓ
Map V = List (String × V)

module _ {ℓ} {V : Type ℓ} where
  -- v, ok := m[k]
  abbrev pub lookup : String → Map V → Option V
  lookup k [] = none
  lookup k ((j, v) ∷ m) = if k == j then some v else lookup k m

  -- m[k] = v
  abbrev pub insert : String → V → Map V → Map V
  insert k v [] = (k, v) ∷ []
  insert k v ((j, w) ∷ m) = if k == j then (k, v) ∷ m else (j, w) ∷ insert k v m

  -- delete(m, k)
  abbrev pub delete : String → Map V → Map V
  delete k [] = []
  delete k ((j, v) ∷ m) = let rest = delete k m in if k == j then rest else (j, v) ∷ rest

  abbrev pub keys : Map V → List String
  keys [] = []
  keys ((k, v) ∷ m) = k ∷ keys m

  abbrev pub or_else : Option V → V → V
  or_else none d = d
  or_else (some v) d = v

  abbrev pub IsMap : Map V → Type 0
  IsMap m = Distinct (keys m)

  -- The same content, in whatever order.
  abbrev pub Same : Map V → Map V → Type ℓ
  Same m n = (k : String) → lookup k m ≡ lookup k n

  abbrev pub is_some : Option V → Bool
  is_some none = false
  is_some (some v) = true

  pub contains-keys : (k : String) (m : Map V) → contains k (keys m) ≡ is_some (lookup k m)
  contains-keys k [] = refl
  contains-keys k ((j, v) ∷ m) = ground (arith, contains-keys k m)

  pub lookup-insert :
      (k j : String) (v : V) (m : Map V)
      → lookup j (insert k v m) ≡ (if j == k then some v else lookup j m)
  lookup-insert k j v [] = refl
  lookup-insert k j v ((i, w) ∷ m) =
      ground (arith, eq_iff k i, eq_iff j k, eq_iff j i, lookup-insert k j v m)

  pub lookup-delete :
      (k j : String) (m : Map V) → lookup j (delete k m) ≡ (if j == k then none else lookup j m)
  lookup-delete k j [] = ground arith
  lookup-delete k j ((i, w) ∷ m) =
      ground (arith, eq_iff k i, eq_iff j k, eq_iff j i, lookup-delete k j m)

  pub contains-keys-insert :
      (a k : String) (v : V) (m : Map V)
      → contains a (keys (insert k v m)) ≡ (a == k || contains a (keys m))
  contains-keys-insert a k v [] = refl
  contains-keys-insert a k v ((j, w) ∷ m) =
      ground (arith, eq_iff k j, eq_iff a k, eq_iff a j, contains-keys-insert a k v m)

  pub insert-IsMap : (k : String) (v : V) (m : Map V) → IsMap m → IsMap (insert k v m)
  insert-IsMap k v [] h = (refl, tt)
  insert-IsMap k v ((j, w) ∷ m) (fresh, h) =
      ground (arith, eq_iff k j, eq_iff j k, insert-IsMap k v m h, contains-keys-insert j k v m)

  pub length-keys : (m : Map V) → length (keys m) ≡ length m
  length-keys [] = refl
  length-keys ((k, v) ∷ m) = ap suc (length-keys m)

  pub length-insert : (k : String) (v : V) (m : Map V) → length m ≤ length (insert k v m)
  length-insert k v [] = omega arith
  length-insert k v ((j, w) ∷ m) = ground (arith, length-insert k v m)
