-- ===== src/Keywrap/Agreement.antt =====
-- The recipient unwraps what was wrapped for its public key.
use chainbind_go.Prelude.{ℕ, ◌*◌, ◌≡◌, ◌≢◌, refl, true, Option, none, some}
use chainbind_go.Errors.{Result, ok, Error, or_err, bind-eq-ok, ok-injective}
use chainbind_go.Value.{Bytes, IsBlock}
use chainbind_go.Platform.{Platform}
use chainbind_go.Ports.{Trace, Wrapping}
use chainbind_go.Keywrap.{Curve, aes_key_wrap}
use chainbind_go.Keywrap.RoundTrip.{IsCipher, aes_key_unwrap-aes_key_wrap}
use chainbind_go.Keywrap.Wrapper.{wrap, unwrap, kek_of}

-- X25519 agrees on one secret from both sides; AES with any derived key is a cipher.
pub record Agrees (pf : Platform) (curve : Curve) : Type 0 where
  pub public_ok : (priv : Bytes) → curve.accepts_public (curve.public_of priv) ≡ true
  pub agree : (a b : Bytes) → curve.ecdh a (curve.public_of b) ≡ curve.ecdh b (curve.public_of a)
  pub accepts : (shared : Bytes) → pf.aes_accepts (kek_of pf shared) ≡ true
  pub ciphers :
      (shared : Bytes)
      → IsCipher (curve.aes_encrypt (kek_of pf shared)) (curve.aes_decrypt (kek_of pf shared))

or_err-eq-ok :
    {A : Type 0} (e f : Error) (o : Option A) {a : A} → or_err e o ≡ ok a → or_err f o ≡ ok a
or_err-eq-ok e f none h = absurd (cc)
or_err-eq-ok e f (some b) h = cc

-- Where the two sides of X25519 agree, AES accepts every derived key and its decryption undoes its
-- encryption, what Wrap makes of a data key of n > 0 blocks of 8 bytes for a recipient's public
-- key, Unwrap opens with the private key, if that one is accepted.
pub unwrap-wrap :
    (pf : Platform) (curve : Curve) (fresh : Trace → Result Bytes) (priv dek : Bytes) (n : ℕ)
    (t : Trace) (w : Wrapping)
    → Agrees pf curve
    → curve.accepts_private priv ≡ true
    → n ≢ 0
    → IsBlock (8 * n) dek
    → wrap pf curve fresh (curve.public_of priv) dek t ≡ ok w
    → unwrap pf curve priv w.epk w.key ≡ ok dek
unfolding wrap unwrap
unwrap-wrap pf curve fresh priv dek n t w laws private some_blocks sized h =
    let parsed = rw (laws.public_ok priv) at h in
    let (eph, drawn, h₁) = bind-eq-ok (fresh t) _ parsed in
    let (shared, agreed, h₂) =
      bind-eq-ok (or_err (Error.foreign "ecdh") (curve.ecdh eph (curve.public_of priv))) _ h₁ in
    let (key, wrapped, h₃) = bind-eq-ok (aes_key_wrap pf curve (kek_of pf shared) dek) _ h₂ in
    let (k, made, _, back) =
      aes_key_unwrap-aes_key_wrap pf curve (kek_of pf shared) (laws.ciphers shared)
        (laws.accepts shared) n dek some_blocks sized in
    let same : k ≡ key = cc in
    let theirs : or_err Error.unwrap_failed (curve.ecdh priv (curve.public_of eph)) ≡ ok shared =
      rw (← laws.agree eph priv) (or_err-eq-ok _ Error.unwrap_failed _ agreed) in
    let result = ok-injective (record { key = key; epk = curve.public_of eph }) w h₃ in
    rw (← result, private, laws.public_ok eph, theirs, ← same, back) refl
