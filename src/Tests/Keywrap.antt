-- ===== src/Tests/Keywrap.antt =====
-- Keys wrapped on a curve whose shared secrets are all alike, with a block cipher that leaves a
-- block as it is.
use chainbind_go.Prelude.{◌*◌, ◌+◌, ◌≡◌, refl, true, some, [], ◌∷◌, arith, length, take}
use chainbind_go.Errors.{Result, ok, err}
use chainbind_go.Value.{Bytes, IsBlock}
use chainbind_go.Ports.{Trace, Wrapping}
use chainbind_go.Keywrap.{
  Curve, aes_key_wrap, aes_key_unwrap, wrap_rounds, wrap_pass, blocks, join, xor_counter, xor_into,
  xor_byte, big_endian,
}
use chainbind_go.Keywrap.RoundTrip.{IsCipher, aes_key_unwrap-aes_key_wrap}
use chainbind_go.Keywrap.Wrapper.{wrap, unwrap, concat_kdf}
use chainbind_go.Keywrap.Derivation.{DigestsOf32, digests, concat_kdf-digests}
use chainbind_go.Platform.{Platform}
use chainbind_go.Keywrap.Agreement.{Agrees, unwrap-wrap}
use chainbind_go.Tests.Toy.{fill, blank}

abbrev pub flat : Curve
flat = record {
  accepts_public = λ b. true;
  accepts_private = λ b. true;
  public_of = λ b. b;
  ecdh = λ a b. some [];
  aes_encrypt = λ key b. b;
  aes_decrypt = λ key b. b;
}

pub flat-IsCipher : (key : Bytes) → IsCipher (flat.aes_encrypt key) (flat.aes_decrypt key)
flat-IsCipher key = record { encrypt-IsBlock = λ b h. h; decrypt-encrypt = λ b h. refl }

flat-Agrees : Agrees blank flat
flat-Agrees = record {
  public_ok = λ priv. refl;
  agree = λ a b. refl;
  accepts = λ shared. refl;
  ciphers = λ shared. flat-IsCipher shared;
}

abbrev dek : Bytes
dek = 1 ∷ 2 ∷ 3 ∷ 4 ∷ 5 ∷ 6 ∷ 7 ∷ 255 ∷ []

dek-IsBlock : IsBlock (8 * 1) dek
dek-IsBlock = (
  refl,
  (
    omega arith,
    (
      omega arith,
      (omega arith, (omega arith, (omega arith, (omega arith, (omega arith, (omega arith, tt)))))),
    ),
  ),
)

aes_key_unwrap-aes_key_wrap_example :
    (w : Bytes) × (aes_key_wrap blank flat [] dek ≡ ok w)
    × (length w ≡ 8 * 1 + 8)
    × (aes_key_unwrap blank flat [] w ≡ ok dek)
aes_key_unwrap-aes_key_wrap_example =
    aes_key_unwrap-aes_key_wrap blank flat [] (flat-IsCipher []) refl 1 dek (omega arith)
      dek-IsBlock

abbrev pub ephemeral : Trace → Result Bytes
ephemeral t = ok (5 ∷ [])

abbrev or_none : Result Wrapping → Wrapping
or_none (err e) = record { key = []; epk = [] }
or_none (ok w) = w

abbrev wrapping : Wrapping
wrapping = or_none (wrap blank flat ephemeral (9 ∷ []) dek [])

wrapping-made : wrap blank flat ephemeral (9 ∷ []) dek [] ≡ ok wrapping
unfolding wrap aes_key_wrap wrap_rounds wrap_pass blocks join xor_counter xor_into xor_byte
    big_endian
wrapping-made = refl

unwrap-wrap_example : unwrap blank flat (9 ∷ []) wrapping.epk wrapping.key ≡ ok dek
unwrap-wrap_example =
    unwrap-wrap blank flat ephemeral (9 ∷ []) dek 1 [] wrapping flat-Agrees refl (omega arith)
      dek-IsBlock wrapping-made

abbrev sevens : Platform
sevens = record blank { sha256 = λ b. fill 7 32 }

sevens-DigestsOf32 : DigestsOf32 sevens
unfolding fill
sevens-DigestsOf32 b = refl

concat_kdf-digests_example :
    (concat_kdf sevens (1 ∷ []) [] 512 ≡ take 64 (digests sevens (1 ∷ []) [] 2 1))
    × (length (concat_kdf sevens (1 ∷ []) [] 512) ≡ 64)
concat_kdf-digests_example =
    concat_kdf-digests sevens (1 ∷ []) [] 512 2 sevens-DigestsOf32 (omega arith) (omega arith)
