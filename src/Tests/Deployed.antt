-- ===== src/Tests/Deployed.antt =====
-- A checkout sealed for its three audiences, on a platform whose digest is its input.
use mathlib.Core.Bool.{false≢true}
use chainbind_go.Prelude.{
  ◌≢◌, ◌+◌, ◌++◌, none, length, drop, length-append, String, true, ◌==◌, ◌≡◌, refl, sym, ◌∙◌, false,
  ap, some, inl, [], ◌∷◌, All, eq_iff,
}
use chainbind_go.Value.{Bytes}
use chainbind_go.Prelude.Maps.{lookup, or_else}
use chainbind_go.Errors.{Result, ok, err}
use chainbind_go.Platform.{Platform, DecodesBase64, OpensGcm}
use chainbind_go.Ports.{Trace}
use chainbind_go.Package.{Package, marshal_bindings}
use chainbind_go.Package.View
use chainbind_go.Canonical.{jcs, hash}
use chainbind_go.Aad.{aad}
use chainbind_go.Crypto.{new_dek, encrypt, new_gcm}
use chainbind_go.Bindings.{
  segments_root, root_entries, all_seen, intent_commitment, compute_bindings,
}
use chainbind_go.SignView.{
  build_signing_view, select_fields, members, signing_view_fields, encode_signature_value,
}
use chainbind_go.Report.{Report, report_ok}
use chainbind_go.Verify.{VerifyOptions, verify}
use chainbind_go.Seal.{
  Audience, Sealer, SealRequest, seal, check_audiences, seal_allowed, new_package_id, seal_segments,
  seal_segment, finish_segment, add_segment, commit_segments, sign_package, with_kid,
  with_signature, assemble,
}
use chainbind_go.Open.{open_package}
use chainbind_go.Open.Recovers.{OwnThumbprint}
use chainbind_go.AgenticCheckout.{
  binding_specs, compute_checkout_hash, compute_transaction_id, compute_conditional_transaction_id,
}
use chainbind_go.Keywrap.{
  aes_key_wrap, wrap_rounds, wrap_pass, blocks, join, xor_counter, xor_into, xor_byte, big_endian,
}
use chainbind_go.Keywrap.Blocks.{drop-append}
use chainbind_go.Keywrap.Wrapper.{
  wrap, thumbprint, thumbprint_of, ascii, concat_kdf, kdf_rounds, concat_kdf_other_info,
  length_prefixed, safe_uint32,
}
use chainbind_go.Keywrap.Agreement.{Agrees}
use chainbind_go.Adapters.LocalSigner
use chainbind_go.Adapters.LocalSigner.{Ed25519, Signs, signer_kid, signer_sign, port-Trusts}
use chainbind_go.Adapters.MockAuthority.{
  evaluate, evaluate_equals, evaluate_bounds, same_any, lookup_doc, record_use, projection_fields,
  check_rules, check, hash_constraints, constraints_hash,
}
use chainbind_go.Deployment.{local_sealer, seal-verify_open}
use chainbind_go.Seal.Verifies.{Trusts}
use chainbind_go.Tests.Codec.{unary, encode, cons, chars}
use chainbind_go.Tests.Toy.{fill, blank, blank_decodes}
use chainbind_go.Tests.Sealing.{zeros, keys_of, or_blank, unsealed}
use chainbind_go.Tests.Recovering.{zeros-FillsBuffer, blank-OpensGcm}
use chainbind_go.Tests.Checkout.{checkout_request, checkout_options}
use chainbind_go.Tests.Keywrap.{flat, flat-IsCipher, ephemeral}
use chainbind_go.Tests.Authority.{
  whole, files, loaded, memory, memory-Reaches, background, background-NeverDone,
}

abbrev platform : Platform
platform = record blank { sha256 = λ b. b }

platform-decodes : DecodesBase64 platform
platform-decodes = record { decode-encode = blank_decodes.decode-encode }

platform-OpensGcm : OpensGcm platform
platform-OpensGcm = record { gcm_open-gcm_seal = blank-OpensGcm.gcm_open-gcm_seal }

flat-Agrees_over : Agrees platform flat
flat-Agrees_over = record {
  public_ok = λ priv. refl;
  agree = λ a b. refl;
  accepts = λ shared. refl;
  ciphers = λ shared. flat-IsCipher shared;
}

abbrev ed : Ed25519
ed = record {
  new_key_from_seed = λ seed. seed ++ fill 9 32;
  sign = λ priv m. fill 0 64;
  public_of = λ priv. drop 32 priv;
}

-- The public key is behind the seed.
ed-public : (seed : Bytes) → length seed ≡ 32 → drop 32 (seed ++ fill 9 32) ≡ fill 9 32
ed-public seed h = drop-append 32 seed (fill 9 32) h

ed-Signs : Signs platform ed
unfolding fill
ed-Signs = record {
  private_size = λ seed h. length-append seed (fill 9 32) ∙ ap (λ n. n + 32) h;
  public_size = λ seed h. ap length (ed-public seed h);
  signature_size = λ seed m h. refl;
  verifies = λ seed m h. refl;
}

abbrev seed : Bytes
seed = fill 1 32

seed-size : length seed ≡ 32
unfolding fill
seed-size = refl

abbrev signer : LocalSigner.Signer
signer = record { priv = ed.new_key_from_seed seed; kid = "key-1" }

signer-made : LocalSigner.new (ed.new_key_from_seed seed) "key-1" ≡ ok signer
unfolding LocalSigner.new fill
signer-made = refl

resolved : keys_of "agent" "key-1" ≡ some (ed.public_of (ed.new_key_from_seed seed))
unfolding fill
resolved = refl

port-Trusts_example :
    (s : LocalSigner.Signer) × (LocalSigner.new (ed.new_key_from_seed seed) "key-1" ≡ ok s)
    × Trusts platform (LocalSigner.port ed background s) keys_of "agent"
port-Trusts_example =
    port-Trusts platform ed background keys_of "agent" "key-1" seed ed-Signs seed-size resolved

abbrev sealer : Sealer
sealer = local_sealer platform zeros ed signer flat ephemeral whole files memory background

abbrev wanted : SealRequest
wanted = record checkout_request { binding_specs = binding_specs platform }

abbrev asked : VerifyOptions
asked = record checkout_options {
  intent = some sealer.verifier;
  binding_specs = binding_specs platform;
}

abbrev user : Audience
user = record { name = "user"; public_key = 1 ∷ []; kid = "u-1" }

abbrev deployed_outcome : Result Package × Trace
deployed_outcome = seal platform sealer wanted []

abbrev deployed : Package
deployed = or_blank deployed_outcome unsealed

deployed-IsOk : deployed_outcome ≡ (ok deployed, deployed_outcome.1)
unfolding wrap ascii thumbprint thumbprint_of concat_kdf kdf_rounds concat_kdf_other_info
    length_prefixed safe_uint32 aes_key_wrap wrap_rounds wrap_pass blocks join xor_counter xor_into
    xor_byte big_endian signer_kid signer_sign evaluate evaluate_equals evaluate_bounds same_any
    lookup_doc record_use projection_fields check_rules check hash_constraints constraints_hash
    compute_checkout_hash compute_transaction_id compute_conditional_transaction_id seal
    check_audiences seal_allowed new_package_id seal_segments seal_segment new_dek encrypt new_gcm
    finish_segment aad jcs hash add_segment commit_segments segments_root root_entries all_seen
    intent_commitment compute_bindings sign_package with_kid with_signature assemble
    build_signing_view select_fields members signing_view_fields View.bindings marshal_bindings fill
    encode_signature_value
deployed-IsOk = refl

abbrev or_empty : Result String → String
or_empty (ok s) = s
or_empty (err e) = ""

-- Two thumbprints that a test tells apart are not the same.
apart : (r s : Result String) → (or_empty r == or_empty s) ≡ false → r ≡ s → ⊥
apart r s differ same = false≢true (sym differ ∙ (eq_iff _ _).1 (ap or_empty same))

merchant-apart :
    (or_empty (thumbprint platform flat (2 ∷ [])) == or_empty (thumbprint platform flat (1 ∷ [])))
    ≡ false
unfolding thumbprint thumbprint_of ascii unary encode cons chars
merchant-apart = refl

gateway-apart :
    (or_empty (thumbprint platform flat (3 ∷ [])) == or_empty (thumbprint platform flat (1 ∷ [])))
    ≡ false
unfolding thumbprint thumbprint_of ascii unary encode cons chars
gateway-apart = refl

user-OwnThumbprint : All (OwnThumbprint sealer.wrapper user) wanted.audiences
user-OwnThumbprint = (
  (λ h. refl),
  ((λ h. absurd (apart _ _ merchant-apart h)), ((λ h. absurd (apart _ _ gateway-apart h)), tt)),
)

user-kept : or_else (lookup "user" wanted.segments) none ≢ some []
user-kept h = cc

seal-verify_open_example :
    ((report : Report) × (w : Trace) × (verify platform (some deployed) asked [] ≡ (ok report, w))
      × (report_ok (some report) ≡ true))
    × ((w : Trace) × (open_package platform (some deployed) (1 ∷ []) sealer.wrapper asked []
          ≡ (ok ("user", or_else (lookup "user" wanted.segments) none), w)))
seal-verify_open_example =
    seal-verify_open platform zeros ed signer flat ephemeral whole files memory loaded background
      keys_of "key-1" seed wanted asked user (1 ∷ []) [] deployed_outcome.1 [] deployed
      platform-decodes platform-OpensGcm zeros-FillsBuffer ed-Signs seed-size signer-made resolved
      flat-Agrees_over background-NeverDone memory-Reaches refl refl refl refl (inl refl) user-kept
      refl refl user-OwnThumbprint deployed-IsOk
