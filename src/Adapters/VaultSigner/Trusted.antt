-- ===== src/Adapters/VaultSigner/Trusted.antt =====
-- The Vault signer as one that a verifier can trust.
use chainbind_go.Prelude.{String, true, ◌≡◌, ap, sym, ◌∙◌, subst, Option, some, length}
use chainbind_go.Prelude.Maps.{lookup}
use chainbind_go.Errors.{ok, bind-eq-ok, ok-injective}
use chainbind_go.Value.{Bytes}
use chainbind_go.Platform.{Platform}
use chainbind_go.Ports.{Trace}
use chainbind_go.Seal.Verifies.{Trusts}
use chainbind_go.Adapters.{Context, live}
use chainbind_go.Adapters.Http.{Net, Answers}
use chainbind_go.Adapters.VaultSigner.{
  Signer, KeysResponse, Library, keys_endpoint, new, kid_text, kid, public_key, port,
}
use chainbind_go.Adapters.VaultSigner.Pinned.{Signed, sign-Signed, new-IsPublished}

-- What Vault signs with the version of a key verifies under the public key that it publishes for that
-- version, in any answer about the key.
pub record KeepsKeys (pf : Platform) (lib : Library) (s : Signer) : Type 0 where
  pub verifies :
      (resp : KeysResponse) (public_text : String) (key message : Bytes) (t u : Trace) (sig : Bytes)
      → Answers s.net lib.keys_response (keys_endpoint s.addr s.token s.name s.net) t resp
      → lookup (lib.itoa s.version) resp.keys ≡ some public_text
      → lib.decode public_text ≡ some key
      → Signed lib pf s message u sig
      → pf.ed25519_verify key message sig ≡ true

kid-eq-ok :
    (lib : Library) (ctx : Context) (s : Signer) (t : Trace) (k : String)
    → kid lib ctx s t ≡ ok k
    → kid_text lib s ≡ k
unfolding kid
kid-eq-ok lib ctx s t k h =
    let (x, alive, named) = bind-eq-ok (live ctx t) (λ _. ok (kid_text lib s)) h in
    ok-injective (kid_text lib s) k named

-- The signer that New makes is one that a verifier can trust, whenever its calls succeed: where what
-- Vault signs with the signer's version verifies under every key that Vault publishes for that
-- version, and the verifier's resolver holds PublicKey under the text of Kid, which names key and
-- version.
pub new-Trusts :
    (pf : Platform) (lib : Library) (ctx : Context) (resolve : String → String → Option Bytes)
    (iss addr token name : String) (client : Option Net) (default_client : Net) (t : Trace)
    (s : Signer)
    → new lib addr token name client default_client t ≡ ok s
    → KeepsKeys pf lib s
    → resolve iss (kid_text lib s) ≡ some (public_key s)
    → Trusts pf (port pf lib ctx s) resolve iss
unfolding public_key
new-Trusts pf lib ctx resolve iss addr token name client default_client t s made keeps known =
    let p = new-IsPublished lib addr token name client default_client t s made in
    record {
      key = λ k. s.key;
      key_size = λ k. ap (λ x. length x.key) p.built ∙ p.size;
      resolves = λ u k named. ap (resolve iss) (sym (kid-eq-ok lib ctx s u k named)) ∙ known;
      checks = λ u w k view sig named signed.
          let it = sign-Signed lib pf s view w sig signed in
          (
            it.pinned.size,
            ap (λ x. pf.ed25519_verify x.key view sig) p.built
                ∙ keeps.verifies p.resp p.public_text p.key view t w sig
                    (subst
                      (λ x.
                        Answers x.net lib.keys_response (keys_endpoint x.addr x.token x.name x.net)
                          t p.resp)
                      (sym p.built) p.answers)
                    (ap (λ x. lookup (lib.itoa x.version) p.resp.keys) p.built ∙ p.published)
                    p.decoded it,
          );
    }
