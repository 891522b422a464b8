-- ===== src/Keywrap.antt =====
-- internal/adapters/keywrap/x25519/wrapper.go: ECDH-ES over X25519, the Concat KDF, and the AES key
-- wrap of RFC 3394. crypto/ecdh and the AES block cipher are parameters. The loop counters are far
-- below 2 ^ 32, so the guards of safeUint32 and safeUint64 are never reached.
pub mod Xor
pub mod Blocks
pub mod RoundTrip
pub mod Wrapper
pub mod Agreement
pub mod Port
pub mod Derivation
use chainbind_go.Prelude.{
  ℕ, zero, suc, ◌+◌, ◌*◌, ◌/◌, ◌%◌, ◌^◌, ◌-◌, Bool, true, false, ◌||◌, not, Option, none, some,
  List, [], ◌∷◌, ◌++◌, length, take, drop, eqb, ltb, if◌then◌else◌,
}
use chainbind_go.Errors.{Result, ok, err, Error, or_err, ◌>>=◌}
use chainbind_go.Value.{Bytes}
use chainbind_go.Platform.{Platform}

-- crypto/ecdh on X25519, and AES on one block of 16 bytes.
pub record Curve : Type 0 where
  pub accepts_public : Bytes → Bool
  pub accepts_private : Bytes → Bool
  pub public_of : Bytes → Bytes
  pub ecdh : Bytes → Bytes → Option Bytes
  pub aes_encrypt : Bytes → Bytes → Bytes
  pub aes_decrypt : Bytes → Bytes → Bytes

-- Bitwise exclusive or of two numbers of `bits` bits.
xor_bits : ℕ → ℕ → ℕ → ℕ
xor_bits zero a b = 0
xor_bits (suc bits) a b = (a % 2 + b % 2) % 2 + 2 * xor_bits bits (a / 2) (b / 2)

unfoldable pub xor_byte : ℕ → ℕ → ℕ
unfolding xor_bits
xor_byte a b = xor_bits 8 a b

-- binary.BigEndian.PutUint32 and PutUint64: the `n` lowest bytes of a number.
unfoldable pub big_endian : ℕ → ℕ → Bytes
big_endian zero v = []
big_endian (suc n) v = (v / 256 ^ n) % 256 ∷ big_endian n v

unfoldable pub xor_into : Bytes → Bytes → Bytes
xor_into [] tb = []
xor_into (x ∷ a) [] = x ∷ a
xor_into (x ∷ a) (y ∷ tb) = xor_byte x y ∷ xor_into a tb

unfoldable pub xor_counter : Bytes → ℕ → Bytes
xor_counter a t = xor_into a (big_endian 8 t)

abbrev pub aes_key_wrap_iv : Bytes
aes_key_wrap_iv = 166 ∷ 166 ∷ 166 ∷ 166 ∷ 166 ∷ 166 ∷ 166 ∷ 166 ∷ []

-- `n` blocks of 8 bytes, and back.
unfoldable pub blocks : ℕ → Bytes → List Bytes
blocks zero d = []
blocks (suc n) d = take 8 d ∷ blocks n (drop 8 d)

unfoldable pub join : List Bytes → Bytes
join [] = []
join (x ∷ r) = x ++ join r

-- One run of the inner loop of aesKeyWrap, from block `i` on, where `t` is n * j + i.
unfoldable pub wrap_pass : (Bytes → Bytes) → ℕ → Bytes → List Bytes → Bytes × List Bytes
wrap_pass encrypt t a [] = (a, [])
wrap_pass encrypt t a (x ∷ r) =
    let b = encrypt (a ++ x) in
    let (a', r') = wrap_pass encrypt (t + 1) (xor_counter (take 8 b) t) r in (a', drop 8 b ∷ r')

-- The outer loop, for `k` more values of `j`.
unfoldable pub wrap_rounds : (Bytes → Bytes) → ℕ → ℕ → ℕ → Bytes → List Bytes → Bytes × List Bytes
wrap_rounds encrypt n zero j a r = (a, r)
wrap_rounds encrypt n (suc k) j a r =
    let (a', r') = wrap_pass encrypt (n * j + 1) a r in wrap_rounds encrypt n k (j + 1) a' r'

-- The loops of aesKeyUnwrap, which run downwards: the later blocks and rounds come first.
unfoldable pub unwrap_pass : (Bytes → Bytes) → ℕ → Bytes → List Bytes → Bytes × List Bytes
unwrap_pass decrypt t a [] = (a, [])
unwrap_pass decrypt t a (x ∷ r) =
    let (a', r') = unwrap_pass decrypt (t + 1) a r in
    let b = decrypt (xor_counter a' t ++ x) in (take 8 b, drop 8 b ∷ r')

unfoldable pub unwrap_rounds : (Bytes → Bytes) → ℕ → ℕ → ℕ → Bytes → List Bytes → Bytes × List Bytes
unwrap_rounds decrypt n zero j a r = (a, r)
unwrap_rounds decrypt n (suc k) j a r =
    let (a', r') = unwrap_rounds decrypt n k (j + 1) a r in unwrap_pass decrypt (n * j + 1) a' r'

-- subtle.ConstantTimeCompare
unfoldable pub equal_bytes : Bytes → Bytes → Bool
equal_bytes [] [] = true
equal_bytes [] (y ∷ b) = false
equal_bytes (x ∷ a) [] = false
equal_bytes (x ∷ a) (y ∷ b) = let rest = equal_bytes a b in if eqb x y then rest else false

unfoldable pub aes_key_wrap : Platform → Curve → Bytes → Bytes → Result Bytes
aes_key_wrap pf curve kek key_data =
    if eqb (length key_data) 0 || not (eqb (length key_data % 8) 0)
    then err Error.wrap_failed
    else if not (pf.aes_accepts kek)
    then err Error.wrap_failed
    else let n = length key_data / 8 in
      let (a, r) = wrap_rounds (curve.aes_encrypt kek) n 6 0 aes_key_wrap_iv (blocks n key_data) in
      ok (a ++ join r)

unfoldable pub aes_key_unwrap : Platform → Curve → Bytes → Bytes → Result Bytes
aes_key_unwrap pf curve kek wrapped =
    if ltb (length wrapped) 16 || not (eqb (length wrapped % 8) 0)
    then err Error.wrap_failed
    else if not (pf.aes_accepts kek)
    then err Error.wrap_failed
    else let n = length wrapped / 8 - 1 in
      let (a, r) =
        unwrap_rounds (curve.aes_decrypt kek) n 6 0 (take 8 wrapped) (blocks n (drop 8 wrapped)) in
      if not (equal_bytes a aes_key_wrap_iv) then err Error.key_integrity else ok (join r)
