-- ===== src/Adapters/LocalSigner.antt =====
-- internal/adapters/signer/local/signer.go: a signer with its private key in the process.
use chainbind_go.Prelude.{
  ℕ, String, Bool, true, false, ◌||◌, not, ◌≡◌, refl, subst, Option, some, length, eqb,
  if◌then◌else◌,
}
use chainbind_go.Errors.{Result, ok, err, Error, ok-injective, bind-eq-ok, ◌>>◌}
use chainbind_go.Value.{Bytes}
use chainbind_go.Platform.{Platform}
use chainbind_go.Ports
use chainbind_go.Ports.{Trace}
use chainbind_go.Adapters.{Context, live}
use chainbind_go.Verify.{verify_ed25519}
use chainbind_go.Seal.Verifies.{Trusts}

-- crypto/ed25519: the private key of a seed, the signature by a private key, and the public key of
-- one, which is its last 32 bytes.
pub record Ed25519 : Type 0 where
  pub new_key_from_seed : Bytes → Bytes
  pub sign : Bytes → Bytes → Bytes
  pub public_of : Bytes → Bytes

abbrev pub private_key_size : ℕ
private_key_size = 64

pub record Signer : Type 0 where
  pub priv : Bytes
  pub kid : String

unfoldable pub new : Bytes → String → Result Signer
new priv kid =
    if not (eqb (length priv) private_key_size)
    then err Error.key_size
    else ok (record { priv = priv; kid = kid })

unfoldable pub signer_kid : Signer → Context → Trace → Result String
signer_kid s ctx t = live ctx t >> ok s.kid

unfoldable pub signer_sign : Ed25519 → Signer → Context → Bytes → Trace → Result Bytes
signer_sign ed s ctx message t = live ctx t >> ok (ed.sign s.priv message)

unfoldable pub verify : Platform → Bytes → Bytes → Bytes → Bool
verify pf pub_key message sig =
    if not (eqb (length pub_key) 32) || not (eqb (length sig) 64)
    then false
    else pf.ed25519_verify pub_key message sig

-- The signer as the port that Seal uses.
abbrev pub port : Ed25519 → Context → Signer → Ports.Signer
port ed ctx s = record { kid = signer_kid s ctx; sign = λ m t. signer_sign ed s ctx m t }

-- RFC 8032 as crypto/ed25519 implements it, for the private keys that come from a seed of 32 bytes.
pub record Signs (pf : Platform) (ed : Ed25519) : Type 0 where
  pub private_size : (seed : Bytes) → length seed ≡ 32 → length (ed.new_key_from_seed seed) ≡ 64
  pub public_size :
      (seed : Bytes) → length seed ≡ 32 → length (ed.public_of (ed.new_key_from_seed seed)) ≡ 32
  pub signature_size :
      (seed m : Bytes) → length seed ≡ 32 → length (ed.sign (ed.new_key_from_seed seed) m) ≡ 64
  pub verifies :
      (seed m : Bytes)
      → length seed ≡ 32
      → (let priv = ed.new_key_from_seed seed in
          pf.ed25519_verify (ed.public_of priv) m (ed.sign priv m) ≡ true)

-- New accepts the key of a seed, and keeps key and name.
new-eq-ok :
    (pf : Platform) (ed : Ed25519) (seed : Bytes) (kid : String)
    → Signs pf ed
    → length seed ≡ 32
    → new (ed.new_key_from_seed seed) kid
      ≡ ok (record { priv = ed.new_key_from_seed seed; kid = kid })
unfolding new
new-eq-ok pf ed seed kid laws size = rw (laws.private_size seed size) refl

signer_kid-eq-ok :
    (s : Signer) (ctx : Context) (t : Trace) (kid : String)
    → signer_kid s ctx t ≡ ok kid
    → s.kid ≡ kid
unfolding signer_kid
signer_kid-eq-ok s ctx t kid h =
    let (x, checked, named) = bind-eq-ok (live ctx t) (λ _. ok s.kid) h in
    ok-injective s.kid kid named

signer_sign-eq-ok :
    (ed : Ed25519) (s : Signer) (ctx : Context) (m : Bytes) (t : Trace) (sig : Bytes)
    → signer_sign ed s ctx m t ≡ ok sig
    → ed.sign s.priv m ≡ sig
unfolding signer_sign
signer_sign-eq-ok ed s ctx m t sig h =
    let (x, checked, signed) = bind-eq-ok (live ctx t) (λ _. ok (ed.sign s.priv m)) h in
    ok-injective (ed.sign s.priv m) sig signed

-- For every seed of 32 bytes New makes a signer of the seed's key, and that signer is one that a
-- verifier can trust, whatever its context: where the verifier's resolver holds the public key of the
-- private key under the signer's name, every signature that Sign returns is of 64 bytes and verifies
-- under that key.
pub port-Trusts :
    (pf : Platform) (ed : Ed25519) (ctx : Context) (resolve : String → String → Option Bytes)
    (iss kid : String) (seed : Bytes)
    → Signs pf ed
    → length seed ≡ 32
    → resolve iss kid ≡ some (ed.public_of (ed.new_key_from_seed seed))
    → (s : Signer) × (new (ed.new_key_from_seed seed) kid ≡ ok s)
      × Trusts pf (port ed ctx s) resolve iss
port-Trusts pf ed ctx resolve iss kid seed laws size known =
    let priv = ed.new_key_from_seed seed in
    let own : Signer = record { priv = priv; kid = kid } in
    (
      own,
      new-eq-ok pf ed seed kid laws size,
      record {
        key = λ k. ed.public_of priv;
        key_size = λ k. laws.public_size seed size;
        resolves = λ t k named.
            subst (λ x. resolve iss x ≡ some (ed.public_of priv))
              (signer_kid-eq-ok own ctx t k named) known;
        checks = λ t u k view sig named signed.
            subst (λ x. (length x ≡ 64) × (pf.ed25519_verify (ed.public_of priv) view x ≡ true))
              (signer_sign-eq-ok ed own ctx view u sig signed)
              (laws.signature_size seed view size, laws.verifies seed view size);
      },
    )

-- The Verify of this package decides as the core's verifyEd25519 does.
pub verify-verify_ed25519 :
    (pf : Platform) (pub_key message sig : Bytes)
    → verify pf pub_key message sig ≡ verify_ed25519 pf pub_key message sig
unfolding verify verify_ed25519
verify-verify_ed25519 pf pub_key message sig = refl
