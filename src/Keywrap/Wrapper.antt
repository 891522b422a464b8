-- ===== src/Keywrap/Wrapper.antt =====
-- The methods of Wrapper, the Concat KDF and the thumbprint. A text that is hashed is its ASCII
-- bytes. `fresh` is curve.GenerateKey: an ephemeral private key, drawn at each call.
use Prim.Native.Char.{code}
use Prim.Native.String.{[] as no_text, ◌∷◌ as ◌<:◌, ◌++◌ as ◌<>◌}
use chainbind_go.Prelude.{
  ℕ, zero, suc, String, ◌+◌, ◌/◌, ◌%◌, ◌^◌, not, [], ◌∷◌, ◌++◌, length, take, ltb, if◌then◌else◌,
}
use chainbind_go.Errors.{Result, ok, err, Error, or_err, ◌>>=◌}
use chainbind_go.Value.{Bytes}
use chainbind_go.Platform.{Platform}
use chainbind_go.Ports.{Trace, Wrapping, KeyWrapper}
use chainbind_go.Keywrap.{Curve, big_endian, aes_key_wrap, aes_key_unwrap}

unfoldable pub ascii : String → Bytes
ascii no_text = []
ascii (c <: s) = code c ∷ ascii s

abbrev pub algorithm_id : String
algorithm_id = "ECDH-ES+A256KW"

abbrev pub kek_len_bits : ℕ
kek_len_bits = 256

-- Every int that is converted here is a natural number.
unfoldable pub safe_uint32 : ℕ → ℕ
safe_uint32 n = if ltb 4294967295 n then 0 else n

unfoldable pub length_prefixed : Bytes → Bytes
unfolding safe_uint32
length_prefixed v = big_endian 4 (safe_uint32 (length v)) ++ v

unfoldable pub concat_kdf_other_info : String → ℕ → Bytes
unfolding safe_uint32
concat_kdf_other_info alg_id key_data_len_bits =
    length_prefixed (ascii alg_id)
    ++ length_prefixed []
    ++ length_prefixed []
    ++ big_endian 4 (safe_uint32 key_data_len_bits)

-- The loop of concatKDF. A digest is not empty, so as many rounds as there are bytes to make are
-- enough.
unfoldable pub kdf_rounds : Platform → Bytes → Bytes → ℕ → ℕ → ℕ → Bytes → Bytes
kdf_rounds pf z other_info len zero counter out = out
kdf_rounds pf z other_info len (suc fuel) counter out =
    let h = pf.sha256 (big_endian 4 counter ++ z ++ other_info) in
    let more = kdf_rounds pf z other_info len fuel ((counter + 1) % 2 ^ 32) (out ++ h) in
    if ltb (length out) len then more else out

unfoldable pub concat_kdf : Platform → Bytes → Bytes → ℕ → Bytes
concat_kdf pf z other_info key_data_len_bits =
    let len = key_data_len_bits / 8 in take len (kdf_rounds pf z other_info len len 1 [])

abbrev pub kek_of : Platform → Bytes → Bytes
kek_of pf shared =
    concat_kdf pf shared (concat_kdf_other_info algorithm_id kek_len_bits) kek_len_bits

unfoldable pub thumbprint_of : Platform → Bytes → String
thumbprint_of pf canonical_jwk = pf.base64url (pf.sha256 canonical_jwk)

-- base64url has no character that %q escapes.
unfoldable pub thumbprint : Platform → Curve → Bytes → Result String
thumbprint pf curve public =
    if not (curve.accepts_public public)
    then err (Error.foreign "parse public key")
    else ok (
        thumbprint_of pf (
          ascii ("{\"crv\":\"X25519\",\"kty\":\"OKP\",\"x\":\"" <> (pf.base64url public <> "\"}"))))

unfoldable pub wrap :
    Platform → Curve → (Trace → Result Bytes) → Bytes → Bytes → Trace → Result Wrapping
wrap pf curve fresh recipient dek t =
    if not (curve.accepts_public recipient)
    then err (Error.foreign "parse recipient public key")
    else do
      ephemeral ← fresh t
      shared ← or_err (Error.foreign "ecdh") (curve.ecdh ephemeral recipient)
      wrapped ← aes_key_wrap pf curve (kek_of pf shared) dek
      ok (record { key = wrapped; epk = curve.public_of ephemeral })

-- `if err != nil { return nil, ErrUnwrapFailed }`
abbrev pub unwrap_or_fail : Result Bytes → Result Bytes
unwrap_or_fail (ok dek) = ok dek
unwrap_or_fail (err e) = err Error.unwrap_failed

unfoldable pub unwrap : Platform → Curve → Bytes → Bytes → Bytes → Result Bytes
unwrap pf curve priv epk wrapped =
    if not (curve.accepts_private priv)
    then err Error.unwrap_failed
    else if not (curve.accepts_public epk)
    then err Error.unwrap_failed
    else do
      shared ← or_err Error.unwrap_failed (curve.ecdh priv epk)
      unwrap_or_fail (aes_key_unwrap pf curve (kek_of pf shared) wrapped)

unfoldable pub public_key : Curve → Bytes → Result Bytes
public_key curve priv =
    if not (curve.accepts_private priv) then err Error.unwrap_failed else ok (curve.public_of priv)

-- Wrapper as the port that the core calls.
abbrev pub wrapper : Platform → Curve → (Trace → Result Bytes) → KeyWrapper
wrapper pf curve fresh = record {
  wrap = wrap pf curve fresh;
  unwrap = λ priv epk wrapped t. unwrap pf curve priv epk wrapped;
  thumbprint = thumbprint pf curve;
  public_key = public_key curve;
}
