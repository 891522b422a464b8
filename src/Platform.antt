-- ===== src/Platform.antt =====
-- What the core uses of code outside this repository: encoding/json, gowebpki/jcs, crypto/sha256,
-- encoding/hex, encoding/base64, crypto/ed25519 and AES-GCM of crypto/aes and crypto/cipher. The
-- definitions take a `Platform`; a theorem names the documented laws that it needs.
use chainbind_go.Prelude.{String, Bool, ◌≡◌, ◌≢◌, Option, some, length}
use chainbind_go.Value.{Bytes, Value}

pub record Platform : Type 0 where
  pub json_marshal : Value → Option Bytes
  pub jcs_transform : Bytes → Option Bytes
  pub sha256 : Bytes → Bytes
  pub hex : Bytes → String
  pub base64url : Bytes → String
  pub base64url_decode : String → Option Bytes
  -- public key, message, signature; called only at keys of the right length
  pub ed25519_verify : Bytes → Bytes → Bytes → Bool
  -- whether aes.NewCipher and cipher.NewGCM accept a key
  pub aes_accepts : Bytes → Bool
  pub gcm_accepts : Bytes → Bool
  -- key, nonce, plaintext or ciphertext, additional data
  pub gcm_seal : Bytes → Bytes → Bytes → Bytes → Bytes
  pub gcm_open : Bytes → Bytes → Bytes → Bytes → Option Bytes

-- Raw base64url decodes what it encoded.
pub record DecodesBase64 (pf : Platform) : Type 0 where
  pub decode-encode : (b : Bytes) → pf.base64url_decode (pf.base64url b) ≡ some b

-- AES-256-GCM with a 32-byte key and a 12-byte nonce.
pub record OpensGcm (pf : Platform) : Type 0 where
  pub gcm_open-gcm_seal :
      (key nonce plain aad : Bytes)
      → length key ≡ 32
      → length nonce ≡ 12
      → pf.gcm_open key nonce (pf.gcm_seal key nonce plain aad) aad ≡ some plain

-- Two different byte strings with one digest.
pub record Collision (pf : Platform) : Type 0 where
  pub left : Bytes
  pub right : Bytes
  pub differ : left ≢ right
  pub collide : pf.sha256 left ≡ pf.sha256 right
