-- ===== src/Deployment.antt =====
-- The core with the components that cmd and internal wire to it in a process of its own: the local
-- signer, the X25519 key wrapping, the mock authority and the agentic checkout profile.
use chainbind_go.Prelude.{
  length, none, ◌≢◌, String, ◌≡◌, sym, ◌∙◌, subst, Option, some, All, [], true,
}
use chainbind_go.Prelude.Maps.{lookup, or_else}
use chainbind_go.Errors.{Result, ok, ok-injective}
use chainbind_go.Value.{Bytes}
use chainbind_go.Platform.{Platform, DecodesBase64, OpensGcm}
use chainbind_go.Ports.{Trace, Entropy, FillsBuffer}
use chainbind_go.Package.{Package}
use chainbind_go.Report.{Report, report_ok}
use chainbind_go.Verify.{VerifyOptions, verify}
use chainbind_go.Seal.{Audience, Sealer, SealRequest, seal}
use chainbind_go.Seal.Sealed.{Among}
use chainbind_go.Seal.Verifies.{Trusts}
use chainbind_go.Open.{open_package}
use chainbind_go.Open.Recovers.{OwnThumbprint, Unwraps, open_package-seal}
use chainbind_go.AgenticCheckout.{binding_specs}
use chainbind_go.AgenticCheckout.Bindings.{Distinct-names, binding_specs-IsPure, profile-report_ok}
use chainbind_go.Keywrap.{Curve}
use chainbind_go.Keywrap.Wrapper.{wrapper}
use chainbind_go.Keywrap.Agreement.{Agrees}
use chainbind_go.Keywrap.Port.{wrapper-Unwraps}
use chainbind_go.Adapters.{Context, NeverDone}
use chainbind_go.Adapters.LocalSigner
use chainbind_go.Adapters.LocalSigner.{Ed25519, Signs, port-Trusts}
use chainbind_go.Adapters.MockAuthority
use chainbind_go.Adapters.MockAuthority.{Floats, Library, Verifier}
use chainbind_go.Adapters.MockAuthority.History.{Reaches, port-IsImmutable}

-- A sealer of these parts.
abbrev pub local_sealer :
    Platform
    → Entropy
    → Ed25519
    → LocalSigner.Signer
    → Curve
    → (Trace → Result Bytes)
    → (fl : Floats) → Library fl.Float
    → (Trace → Verifier fl)
    → Context
    → Sealer
local_sealer pf rand ed signer curve fresh fl lib memory ctx = record {
  rand = rand;
  signer = LocalSigner.port ed ctx signer;
  wrapper = wrapper pf curve fresh;
  verifier = MockAuthority.port fl pf lib ctx memory;
}

module _ (pf : Platform) (rand : Entropy) (ed : Ed25519) (signer : LocalSigner.Signer)
    (curve : Curve) (fresh : Trace → Result Bytes) (fl : Floats) (lib : Library fl.Float)
    (memory : Trace → Verifier fl) (loaded : Verifier fl) (ctx : Context)
    (resolve : String → String → Option Bytes) (kid : String) (seed : Bytes) where
  abbrev sealer : Sealer
  sealer = local_sealer pf rand ed signer curve fresh fl lib memory ctx

  -- What this sealer seals under the profile, a verifier who holds the signer's public key and asks
  -- the same authority finds OK at any later time, however often authorizations have been used
  -- in between; and each recipient whose private key is accepted, with a thumbprint of its own, opens
  -- it to its own plaintext, unless that was an empty slice that is not nil. The signer's key comes
  -- from a seed of 32 bytes. The parts keep the laws of Ed25519, X25519, AES and base64url, the
  -- random source fills its buffer, and no context is done.
  pub seal-verify_open :
      (req : SealRequest) (opt : VerifyOptions) (aud : Audience) (priv : Bytes) (t u v : Trace)
      (p : Package)
      → DecodesBase64 pf
      → OpensGcm pf
      → FillsBuffer rand
      → Signs pf ed
      → length seed ≡ 32
      → LocalSigner.new (ed.new_key_from_seed seed) kid ≡ ok signer
      → resolve req.issuer kid ≡ some (ed.public_of (ed.new_key_from_seed seed))
      → Agrees pf curve
      → NeverDone ctx
      → ((w : Trace) → Reaches fl loaded (memory w))
      → opt.issuer_key ≡ some resolve
      → opt.intent ≡ some sealer.verifier
      → opt.binding_specs ≡ binding_specs pf
      → req.binding_specs ≡ binding_specs pf
      → Among aud req.audiences
      → or_else (lookup aud.name req.segments) none ≢ some []
      → curve.accepts_private priv ≡ true
      → aud.public_key ≡ curve.public_of priv
      → All (OwnThumbprint sealer.wrapper aud) req.audiences
      → seal pf sealer req t ≡ (ok p, u)
      → ((report : Report) × (w : Trace) × (verify pf (some p) opt v ≡ (ok report, w))
          × (report_ok (some report) ≡ true))
        × ((w : Trace) × (open_package pf (some p) priv sealer.wrapper opt v
              ≡ (ok (aud.name, or_else (lookup aud.name req.segments) none), w)))
  seal-verify_open req opt aud priv t u v p decodes gcm fills signs size made known agrees alive
        reached keyed same specs req_specs here kept accepted holder own h =
      let (s, own_made, own_trust) =
        port-Trusts pf ed ctx resolve req.issuer kid seed signs size known in
      let trust =
        subst (λ x. Trusts pf (LocalSigner.port ed ctx x) resolve req.issuer)
          (ok-injective s signer (sym own_made ∙ made)) own_trust in
      (
        profile-report_ok pf sealer req opt resolve t u v p decodes keyed trust same
            (port-IsImmutable fl pf lib ctx memory loaded alive reached) specs req_specs h,
        open_package-seal pf sealer req opt resolve aud priv t u v p decodes gcm fills keyed trust
            (specs ∙ sym req_specs) (rw req_specs (Distinct-names pf))
            (rw req_specs (binding_specs-IsPure pf)) here kept
            (subst (Unwraps sealer.wrapper priv) (sym holder)
              (wrapper-Unwraps pf curve fresh priv agrees accepted))
            own h,
      )
