-- ===== src/Keywrap/Xor.antt =====
-- xorCounter undoes itself.
use chainbind_go.Prelude.{
  ℕ, zero, suc, ◌+◌, ◌*◌, ◌/◌, ◌%◌, ◌≡◌, refl, ap, [], ◌∷◌, All, arith, length,
}
use chainbind_go.Value.{Bytes, IsByte}
use chainbind_go.Keywrap.{xor_bits, xor_byte, xor_into, xor_counter, big_endian}

-- A number of so many bits.
abbrev Fits : ℕ → ℕ → Type 0
Fits zero a = a ≡ 0
Fits (suc bits) a = Fits bits (a / 2)

halves : (p q r : ℕ) → (((p + q) % 2 + 2 * r) / 2 ≡ r) × (((p + q) % 2 + 2 * r) % 2 ≡ (p + q) % 2)
halves p q r = (omega arith, omega arith)

xor_bits-cancel : (n a b : ℕ) → Fits n a → xor_bits n (xor_bits n a b) b ≡ a
unfolding xor_bits
xor_bits-cancel zero a b f = ground arith
xor_bits-cancel (suc n) a b f =
    let r = xor_bits n (a / 2) (b / 2) in
    let (half, low) = halves (a % 2) (b % 2) r in
    let ih = xor_bits-cancel n (a / 2) (b / 2) f in rw (half, low, ih) (omega arith)

xor_bits-Fits : (n a b : ℕ) → Fits n (xor_bits n a b)
unfolding xor_bits
xor_bits-Fits zero a b = refl
xor_bits-Fits (suc n) a b =
    let r = xor_bits n (a / 2) (b / 2) in
    let (half, _) = halves (a % 2) (b % 2) r in rw half (xor_bits-Fits n (a / 2) (b / 2))

Fits-IsByte : (x : ℕ) → Fits 8 x → IsByte x
Fits-IsByte x f = omega arith

IsByte-Fits : (x : ℕ) → IsByte x → Fits 8 x
IsByte-Fits x h = omega arith

xor_byte-cancel : (x y : ℕ) → IsByte x → xor_byte (xor_byte x y) y ≡ x
unfolding xor_byte
xor_byte-cancel x y h = xor_bits-cancel 8 x y (IsByte-Fits x h)

xor_into-cancel : (a tb : Bytes) → All IsByte a → xor_into (xor_into a tb) tb ≡ a
unfolding xor_into
xor_into-cancel [] tb h = refl
xor_into-cancel (x ∷ a) [] h = refl
xor_into-cancel (x ∷ a) (y ∷ tb) (b, h) = rw (xor_byte-cancel x y b, xor_into-cancel a tb h) refl

length-xor_into : (a tb : Bytes) → length (xor_into a tb) ≡ length a
unfolding xor_into
length-xor_into [] tb = refl
length-xor_into (x ∷ a) [] = refl
length-xor_into (x ∷ a) (y ∷ tb) = ap suc (length-xor_into a tb)

xor_into-IsByte : (a tb : Bytes) → All IsByte a → All IsByte (xor_into a tb)
unfolding xor_into xor_byte
xor_into-IsByte [] tb h = tt
xor_into-IsByte (x ∷ a) [] h = h
xor_into-IsByte (x ∷ a) (y ∷ tb) (b, h) =
    (Fits-IsByte _ (xor_bits-Fits 8 x y), xor_into-IsByte a tb h)

pub xor_counter-cancel : (a : Bytes) (t : ℕ) → All IsByte a → xor_counter (xor_counter a t) t ≡ a
unfolding xor_counter
xor_counter-cancel a t h = xor_into-cancel a (big_endian 8 t) h

pub length-xor_counter : (a : Bytes) (t : ℕ) → length (xor_counter a t) ≡ length a
unfolding xor_counter
length-xor_counter a t = length-xor_into a (big_endian 8 t)

pub xor_counter-IsByte : (a : Bytes) (t : ℕ) → All IsByte a → All IsByte (xor_counter a t)
unfolding xor_counter
xor_counter-IsByte a t h = xor_into-IsByte a (big_endian 8 t) h
