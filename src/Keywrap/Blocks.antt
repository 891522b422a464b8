-- ===== src/Keywrap/Blocks.antt =====
-- Blocks of bytes: cutting, joining, and what stays a block.
use chainbind_go.Prelude.{
  ℕ, zero, suc, ◌+◌, ◌*◌, ◌≤◌, ◌≡◌, refl, ap, ◌∙◌, List, [], ◌∷◌, ◌++◌, All, arith, length, take,
  drop, length-append, take-append-drop,
}
use chainbind_go.Value.{Bytes, IsByte, IsBlock}
use chainbind_go.Keywrap.{blocks, join, xor_counter}
use chainbind_go.Keywrap.Xor.{length-xor_counter, xor_counter-IsByte}

length-take : (n : ℕ) (b : Bytes) → n ≤ length b → length (take n b) ≡ n
length-take zero b h = refl
length-take (suc n) [] h = absurd (omega arith)
length-take (suc n) (x ∷ b) h = ap suc (length-take n b (omega arith))

length-drop : (n m : ℕ) (b : Bytes) → length b ≡ n + m → length (drop n b) ≡ m
length-drop zero m b h = omega arith
length-drop (suc n) m [] h = absurd (omega arith)
length-drop (suc n) m (x ∷ b) h = length-drop n m b (omega arith)

All-take : (n : ℕ) (b : Bytes) → All IsByte b → All IsByte (take n b)
All-take zero b h = tt
All-take (suc n) [] h = tt
All-take (suc n) (x ∷ b) (p, h) = (p, All-take n b h)

All-drop : (n : ℕ) (b : Bytes) → All IsByte b → All IsByte (drop n b)
All-drop zero b h = h
All-drop (suc n) [] h = tt
All-drop (suc n) (x ∷ b) (p, h) = All-drop n b h

All-append : (a b : Bytes) → All IsByte a → All IsByte b → All IsByte (a ++ b)
All-append [] b h k = k
All-append (x ∷ a) b (p, h) k = (p, All-append a b h k)

pub take-append : (n : ℕ) (a b : Bytes) → length a ≡ n → take n (a ++ b) ≡ a
take-append zero [] b h = refl
take-append zero (x ∷ a) b h = absurd (omega arith)
take-append (suc n) [] b h = absurd (omega arith)
take-append (suc n) (x ∷ a) b h = ap (λ r. x ∷ r) (take-append n a b (omega arith))

pub drop-append : (n : ℕ) (a b : Bytes) → length a ≡ n → drop n (a ++ b) ≡ b
drop-append zero [] b h = refl
drop-append zero (x ∷ a) b h = absurd (omega arith)
drop-append (suc n) [] b h = absurd (omega arith)
drop-append (suc n) (x ∷ a) b h = drop-append n a b (omega arith)

pub IsBlock-append : (a b : Bytes) → IsBlock 8 a → IsBlock 8 b → IsBlock 16 (a ++ b)
IsBlock-append a b (m, h) (n, k) = (omega (arith, length-append a b), All-append a b h k)

pub IsBlock-take : (n m : ℕ) (b : Bytes) → IsBlock (n + m) b → IsBlock n (take n b)
IsBlock-take n m b (e, h) = (length-take n b (omega arith), All-take n b h)

pub IsBlock-drop : (n m : ℕ) (b : Bytes) → IsBlock (n + m) b → IsBlock m (drop n b)
IsBlock-drop n m b (e, h) = (length-drop n m b e, All-drop n b h)

pub IsBlock-xor_counter : (a : Bytes) (t : ℕ) → IsBlock 8 a → IsBlock 8 (xor_counter a t)
IsBlock-xor_counter a t (e, h) = (length-xor_counter a t ∙ e, xor_counter-IsByte a t h)

pub blocks-IsBlock : (n : ℕ) (d : Bytes) → IsBlock (8 * n) d → All (IsBlock 8) (blocks n d)
unfolding blocks
blocks-IsBlock zero d h = tt
blocks-IsBlock (suc n) d (e, h) =
    let whole : IsBlock (8 + 8 * n) d = (omega arith, h) in
    (IsBlock-take 8 (8 * n) d whole, blocks-IsBlock n (drop 8 d) (IsBlock-drop 8 (8 * n) d whole))

pub join-blocks : (n : ℕ) (d : Bytes) → length d ≡ 8 * n → join (blocks n d) ≡ d
unfolding blocks join
join-blocks zero [] e = refl
join-blocks zero (x ∷ d) e = absurd (omega arith)
join-blocks (suc n) d e =
    rw (join-blocks n (drop 8 d) (length-drop 8 (8 * n) d (omega arith))) (take-append-drop 8 d)

pub blocks-join :
    (n : ℕ) (r : List Bytes) → length r ≡ n → All (IsBlock 8) r → blocks n (join r) ≡ r
unfolding blocks join
blocks-join zero [] e h = refl
blocks-join zero (x ∷ r) e h = absurd (omega arith)
blocks-join (suc n) [] e h = absurd (omega arith)
blocks-join (suc n) (x ∷ r) e ((m, _), h) =
    rw (take-append 8 x (join r) m, drop-append 8 x (join r) m, blocks-join n r (omega arith) h)
      refl

pub length-join : (r : List Bytes) → All (IsBlock 8) r → length (join r) ≡ 8 * length r
unfolding join
length-join [] h = refl
length-join (x ∷ r) ((m, _), h) = omega (arith, length-append x (join r), length-join r h)

pub length-blocks : (n : ℕ) (d : Bytes) → length (blocks n d) ≡ n
unfolding blocks
length-blocks zero d = refl
length-blocks (suc n) d = ap suc (length-blocks n (drop 8 d))
