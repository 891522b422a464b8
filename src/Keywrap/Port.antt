-- ===== src/Keywrap/Port.antt =====
-- The wrapper as the port that Seal and Open use.
use chainbind_go.Prelude.{◌≡◌, refl, true, arith}
use chainbind_go.Errors.{Result}
use chainbind_go.Value.{Bytes}
use chainbind_go.Platform.{Platform}
use chainbind_go.Ports.{Trace}
use chainbind_go.Keywrap.{Curve}
use chainbind_go.Keywrap.Wrapper.{wrapper, public_key}
use chainbind_go.Keywrap.Agreement.{Agrees, unwrap-wrap}
use chainbind_go.Open.Recovers.{Unwraps}

-- The X25519 wrapper keeps what Open asks of a key wrapper: an accepted private key has its public
-- key, and unwraps every data key of 32 bytes that was wrapped for that key, where the two sides of
-- X25519 agree, AES accepts every derived key and its decryption undoes its encryption.
pub wrapper-Unwraps :
    (pf : Platform) (curve : Curve) (fresh : Trace → Result Bytes) (priv : Bytes)
    → Agrees pf curve
    → curve.accepts_private priv ≡ true
    → Unwraps (wrapper pf curve fresh) priv (curve.public_of priv)
unfolding public_key
wrapper-Unwraps pf curve fresh priv laws accepted = record {
  derives = rw accepted refl;
  opens = λ dek t u x size h.
      unwrap-wrap pf curve fresh priv dek 4 t x laws accepted (omega arith) size h;
}
