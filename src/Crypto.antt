-- ===== src/Crypto.antt =====
-- pkg/chainbind/crypto.go
use chainbind_go.Prelude.{ℕ, none, some, [], ◌∷◌, length, eqb, if◌then◌else◌}
use chainbind_go.Errors.{Result, ok, err, Error, or_err}
use chainbind_go.Errors
use chainbind_go.Value.{Bytes, Slice}
use chainbind_go.Platform.{Platform}
use chainbind_go.Ports.{Entropy, Act, call, drew, lift, pure, ◌>>=◌, ◌>>◌}

abbrev pub dek_size : ℕ
dek_size = 32

abbrev pub nonce_size : ℕ
nonce_size = 12

unfoldable pub new_dek : Entropy → Act Bytes
new_dek rand = call (drew dek_size) (rand dek_size)

-- newGCM: whether an AEAD can be built from the key.
unfoldable pub new_gcm : Platform → Bytes → Result (Unit {0})
new_gcm pf dek =
    if eqb (length dek) dek_size
    then if pf.aes_accepts dek
      then if pf.gcm_accepts dek then ok tt else err Error.decryption_failed
      else err Error.decryption_failed
    else err Error.decryption_failed

pub record Encrypted : Type 0 where
  pub ciphertext : Bytes
  pub nonce : Bytes

unfoldable pub encrypt : Platform → Entropy → Bytes → Bytes → Bytes → Act Encrypted
encrypt pf rand dek plaintext aad = do
  lift (new_gcm pf dek)
  nonce ← call (drew nonce_size) (rand nonce_size)
  pure (record { ciphertext = pf.gcm_seal dek nonce plaintext aad; nonce = nonce })

-- gcm.Open appends the plaintext to the nil slice that it is given, which an empty plaintext leaves nil.
abbrev pub appended : Bytes → Slice
appended [] = none
appended (x ∷ b) = some (x ∷ b)

unfoldable pub decrypt : Platform → Bytes → Bytes → Bytes → Bytes → Result Slice
decrypt pf dek nonce ciphertext aad = Errors.◌>>◌ (new_gcm pf dek) (
    if eqb (length nonce) nonce_size
    then Errors.◌>>=◌ (or_err Error.decryption_failed (pf.gcm_open dek nonce ciphertext aad))
        (λ plaintext. ok (appended plaintext))
    else err Error.decryption_failed)
