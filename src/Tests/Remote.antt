-- ===== src/Tests/Remote.antt =====
-- An authority and a Vault that answer every request in one way.
use chainbind_go.Prelude.{true, ◌==◌, ◌≡◌, refl, ap, none, some, [], ◌∷◌, eqb, if◌then◌else◌}
use chainbind_go.Prelude.Integers.{pos}
use chainbind_go.Errors.{Result, ok, err}
use chainbind_go.Ports.{Event, Trace, IntentDecision}
use chainbind_go.Package.{Package, marshal_bindings}
use chainbind_go.Package.View
use chainbind_go.Canonical.{jcs, hash}
use chainbind_go.Aad.{aad}
use chainbind_go.Crypto.{new_dek, encrypt, new_gcm}
use chainbind_go.Bindings.{
  segments_root, root_entries, all_seen, intent_commitment, compute_bindings,
}
use chainbind_go.SignView.{
  build_signing_view, select_fields, members, signing_view_fields, encode_signature_value,
}
use chainbind_go.Seal.{
  Sealer, seal, check_audiences, seal_allowed, new_package_id, seal_segments, seal_segment,
  finish_segment, add_segment, commit_segments, sign_package, with_kid, with_signature, assemble,
}
use chainbind_go.Seal.Verifies.{Trusts}
use chainbind_go.Adapters.Http.{Net, exchange}
use chainbind_go.Adapters.HttpAuthority
use chainbind_go.Adapters.HttpAuthority.{Decoders, do_json, check, constraints_hash}
use chainbind_go.Adapters.HttpAuthority.FailsClosed.{Decides, Pins, seal-Decides}
use chainbind_go.Adapters.VaultSigner
use chainbind_go.Adapters.VaultSigner.{
  fetch_key_metadata, pin, kid_text, parse_vault_signature, accept_signature, public_key, sign,
}
use chainbind_go.Adapters.VaultSigner.Pinned.{Signed, sign-Signed}
use chainbind_go.Adapters.VaultSigner.Trusted.{KeepsKeys, new-Trusts}
use chainbind_go.Tests.Toy.{fill, blank}
use chainbind_go.Tests.Sealing.{request, sealer, keys_of, or_blank, unsealed}
use chainbind_go.Tests.Authority.{background}

abbrev pub calm : Net
calm = record {
  send = λ req t. some (record { status_code = 200; body = [] });
  accepts_url = λ url. true;
  path_escape = λ s. s;
}

abbrev pub decoders : Decoders
decoders = record {
  check_response = λ b. some (record { allowed = true; reason = "" });
  constraints_hash_response = λ b. some (record { constraints_hash = "sha256:c0" });
}

abbrev remote : HttpAuthority.Verifier
remote = record { base_url = "https://authority"; net = calm }

abbrev remote_sealer : Sealer
remote_sealer = record sealer { verifier = HttpAuthority.port blank decoders remote }

abbrev remote_outcome : Result Package × Trace
remote_outcome = seal blank remote_sealer request []

abbrev remote_package : Package
remote_package = or_blank remote_outcome unsealed

remote_package-IsOk : remote_outcome ≡ (ok remote_package, remote_outcome.1)
unfolding check constraints_hash do_json exchange seal check_audiences seal_allowed new_package_id
    seal_segments seal_segment new_dek encrypt new_gcm finish_segment aad jcs hash add_segment
    commit_segments segments_root root_entries all_seen intent_commitment compute_bindings
    sign_package with_kid with_signature assemble build_signing_view select_fields members
    signing_view_fields View.bindings marshal_bindings fill encode_signature_value
remote_package-IsOk = refl

seal-Decides_example :
    ((d : IntentDecision) × Decides blank decoders remote request.intent_ref request.projection [] d
      × (d.allowed ≡ true))
    × Pins blank decoders remote request.intent_ref
        (Event.checked request.intent_ref request.projection ∷ [])
        remote_package.intent.constraints_hash
seal-Decides_example =
    seal-Decides blank decoders remote remote_sealer request [] remote_outcome.1 remote_package refl
      remote_package-IsOk

-- Vault holds version 3 of one key, and signs with 64 zero bytes.
abbrev vault_library : VaultSigner.Library
vault_library = record {
  split_colons = λ s. "vault" ∷ "v3" ∷ "sig" ∷ [];
  has_prefix_v = λ s. true;
  trim_prefix_v = λ s. "3";
  atoi = λ s. some (pos 3);
  itoa = λ n. "3";
  encode = λ b. "";
  decode = λ s. some (if s == "sig" then fill 0 64 else fill 9 32);
  keys_response =
      λ b. some (record { latest_version = pos 3; type = "ed25519"; keys = ("3", "key") ∷ [] });
  sign_response = λ b. some "vault:v3:sig";
}

abbrev or_unpinned : Result VaultSigner.Signer → VaultSigner.Signer
or_unpinned (ok s) = s
or_unpinned (err e) = record {
  addr = "";
  token = "";
  name = "";
  net = calm;
  version = pos 0;
  key = [];
}

abbrev made : Result VaultSigner.Signer
made = VaultSigner.new vault_library "https://vault" "token" "issuer" none calm []

abbrev vault_signer : VaultSigner.Signer
vault_signer = or_unpinned made

vault_signer-made : made ≡ ok vault_signer
unfolding VaultSigner.new fetch_key_metadata VaultSigner.do_json exchange pin fill
vault_signer-made = refl

signs : sign blank vault_library vault_signer (1 ∷ []) [] ≡ ok (fill 0 64)
unfolding VaultSigner.new fetch_key_metadata VaultSigner.do_json exchange pin fill sign
    parse_vault_signature accept_signature
signs = refl

sign-Signed_example : Signed vault_library blank vault_signer (1 ∷ []) [] (fill 0 64)
sign-Signed_example = sign-Signed vault_library blank vault_signer (1 ∷ []) [] (fill 0 64) signs

vault-KeepsKeys : KeepsKeys blank vault_library vault_signer
vault-KeepsKeys = record {
  verifies = λ resp public_text key message t u sig answers published decoded it.
      ap (λ n. eqb n 64) it.pinned.size;
}

resolved : keys_of "agent" (kid_text vault_library vault_signer) ≡ some (public_key vault_signer)
unfolding VaultSigner.new fetch_key_metadata VaultSigner.do_json exchange pin fill public_key
resolved = refl

new-Trusts_example :
    Trusts blank (VaultSigner.port blank vault_library background vault_signer) keys_of "agent"
new-Trusts_example =
    new-Trusts blank vault_library background keys_of "agent" "https://vault" "token" "issuer" none
      calm [] vault_signer vault_signer-made vault-KeepsKeys resolved
