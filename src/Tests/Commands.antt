-- ===== src/Tests/Commands.antt =====
-- `chainbind verify` on the package of the module Checkout, with an authority over HTTP.
use chainbind_go.Prelude.{true, false, ◌≡◌, refl, subst, some, []}
use chainbind_go.Prelude.Maps.{IsMap}
use chainbind_go.Errors.{ok, ok-injective}
use chainbind_go.Package.{Package, marshal_bindings, check_spec_version}
use chainbind_go.Package.View
use chainbind_go.Canonical.{jcs, hash}
use chainbind_go.Aad.{aad}
use chainbind_go.Crypto.{new_dek, encrypt, new_gcm}
use chainbind_go.Bindings.{
  segments_root, root_entries, all_seen, intent_commitment, compute_bindings,
}
use chainbind_go.SignView.{
  build_signing_view, select_fields, members, signing_view_fields, encode_signature_value,
  reconstruct_signing_view, check_signed_fields, check_names, decode_signature_value,
}
use chainbind_go.Report.{level1_passed, report_ok}
use chainbind_go.Verify.{
  verify, spec_version_supported, parse_package, check_segments, parse_signature, verify_parsed,
  resolve_issuer_key, verify_ed25519, check_content, check_cipher_hash, plain_hashes, cipher_hashes,
  profile_bindings, verify_intent, compare_intent, intent_answer,
}
use chainbind_go.Seal.{
  seal, check_audiences, seal_allowed, new_package_id, seal_segments, seal_segment, finish_segment,
  add_segment, commit_segments, sign_package, with_kid, with_signature, assemble,
}
use chainbind_go.Seal.Run.{seal-Run}
use chainbind_go.Seal.Verifies.{Run-IsMap}
use chainbind_go.AgenticCheckout.{
  compute_checkout_hash, compute_transaction_id, compute_conditional_transaction_id,
}
use chainbind_go.Adapters.Http.{exchange}
use chainbind_go.Adapters.HttpAuthority.{do_json, constraints_hash, new}
use chainbind_go.Cli.{
  System, Surroundings, read_key_bytes, load_key, resolve_authority, read_package,
}
use chainbind_go.Cli.Commands.{
  VerifyFlags, print_report, report_lines, verdict_lines, entry_lines, verify_files, run_verify,
}
use chainbind_go.Cli.Exits.{Verified, run_verify-Verified}
use chainbind_go.Tests.Codec.{unary, encode, cons, decode, chars}
use chainbind_go.Tests.Toy.{fill, blank, blank_decodes}
use chainbind_go.Tests.Sealing.{sealer, request}
use chainbind_go.Tests.Checkout.{
  order_3, checkout_request, checkout_outcome, checkout_package, checkout_package-IsOk,
}
use chainbind_go.Tests.Authority.{whole, files}
use chainbind_go.Tests.Remote.{calm, decoders}

abbrev system : System
system = record {
  read_file = λ path. some [];
  writes = λ out. true;
  trimmed = λ raw. blank.base64url (fill 9 32);
  trim_space = λ s. s;
  sorted = λ names. names;
  decode_package = λ raw. some checkout_package;
  decode_payload = λ raw. some order_3;
  decode_audiences = λ raw. some [];
  indent_package = λ p. some [];
  indent_report = λ r. some [];
  new_key_from_seed = λ seed. fill 1 64;
  now = λ t. request.issued_at;
}

abbrev surroundings : Surroundings
surroundings = record { floats = whole; library = files; decoders = decoders; net = calm }

abbrev flags : VerifyFlags
flags = record {
  package_path = "p.json";
  issuer_key = "issuer.pub";
  authority_seed_dir = "";
  authority_url = "https://authority";
  json = false;
}

verify-exits : (run_verify blank system surroundings (some flags) []).exit ≡ 0
unfolding run_verify verify_files read_key_bytes load_key resolve_authority read_package
    print_report report_lines verdict_lines entry_lines exchange do_json constraints_hash new
    compare_intent intent_answer report_ok reconstruct_signing_view check_signed_fields check_names
    decode_signature_value level1_passed verify spec_version_supported check_spec_version
    parse_package check_segments parse_signature verify_parsed resolve_issuer_key verify_ed25519
    check_content check_cipher_hash plain_hashes cipher_hashes profile_bindings verify_intent unary
    encode cons decode chars compute_checkout_hash compute_transaction_id
    compute_conditional_transaction_id seal check_audiences seal_allowed new_package_id
    seal_segments seal_segment new_dek encrypt new_gcm finish_segment aad jcs hash add_segment
    commit_segments segments_root root_entries all_seen intent_commitment compute_bindings
    sign_package with_kid with_signature assemble build_signing_view select_fields members
    signing_view_fields View.bindings marshal_bindings fill encode_signature_value
verify-exits = refl

package-once : (p : Package) → read_package system "p.json" ≡ ok p → IsMap p.manifest.segments
unfolding read_package
package-once p h =
    subst (λ q. IsMap q.manifest.segments) (ok-injective checkout_package p h)
      (Run-IsMap
        (seal-Run blank sealer checkout_request [] checkout_package checkout_outcome.1
          checkout_package-IsOk)
        blank_decodes)

run_verify-Verified_example : Verified blank system surroundings flags []
run_verify-Verified_example =
    run_verify-Verified blank system surroundings flags [] package-once verify-exits
