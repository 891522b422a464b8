-- ===== src/Prelude/Seen.antt =====
-- The sets of names that the program's loops fill to refuse a repetition.
use Prim.Native.String.{String}
use mathlib.Core.Path.{◌≡◌, refl}
use mathlib.Core.Bool.{false}
use mathlib.Core.List.{List, [], ◌∷◌}
use native.Mathlib.Omega.{arith}
use text.Mathlib.TextEquality.{eq_iff}
use chainbind_go.Prelude.Lists.{contains, All}

-- None of the names is in `seen`.
abbrev pub Unseen : List String → List String → Type 0
Unseen seen names = All (λ n. contains n seen ≡ false) names

pub Unseen-nil : (names : List String) → Unseen [] names
Unseen-nil [] = tt
Unseen-nil (n ∷ names) = (refl, Unseen-nil names)

pub Unseen-cons :
    (a : String) (seen names : List String)
    → contains a names ≡ false
    → Unseen seen names
    → Unseen (a ∷ seen) names
Unseen-cons a seen [] away h = tt
Unseen-cons a seen (n ∷ names) away (h, hs) =
    (ground (arith, eq_iff n a, eq_iff a n), Unseen-cons a seen names (ground arith) hs)

pub Unseen-tail :
    (a : String) (seen names : List String)
    → Unseen (a ∷ seen) names
    → Unseen seen names × (contains a names ≡ false)
Unseen-tail a seen [] h = (tt, refl)
Unseen-tail a seen (n ∷ names) (h, hs) =
    let (rest, away) = Unseen-tail a seen names hs in
    ((ground arith, rest), ground (arith, eq_iff n a, eq_iff a n))
