-- ===== src/Tests/Opening.antt =====
-- The first audience opens its segment of the package of the module Sealing.
use chainbind_go.Prelude.{◌≡◌, refl, some, [], ◌∷◌}
use chainbind_go.Prelude.Maps.{IsMap}
use chainbind_go.Errors.{ok}
use chainbind_go.Canonical.{jcs, hash}
use chainbind_go.Aad.{aad}
use chainbind_go.Crypto.{new_dek, encrypt, new_gcm}
use chainbind_go.Package.{marshal_bindings}
use chainbind_go.Package.View
use chainbind_go.Bindings.{
  segments_root, root_entries, all_seen, intent_commitment, compute_bindings,
}
use chainbind_go.SignView.{
  build_signing_view, select_fields, members, signing_view_fields, encode_signature_value,
}
use chainbind_go.Seal.{
  seal, check_audiences, seal_allowed, new_package_id, seal_segments, seal_segment, finish_segment,
  add_segment, commit_segments, sign_package, with_kid, with_signature, assemble,
}
use chainbind_go.SignView.{
  reconstruct_signing_view, check_signed_fields, check_names, decode_signature_value,
}
use chainbind_go.Report.{level1, level1_passed}
use chainbind_go.Verify.{
  verify, spec_version_supported, parse_package, check_segments, parse_signature, verify_parsed,
  resolve_issuer_key, verify_ed25519, check_content, check_cipher_hash, plain_hashes, cipher_hashes,
  profile_bindings, verify_intent,
}
use chainbind_go.Package.{check_spec_version}
use chainbind_go.Crypto.{decrypt}
use chainbind_go.Open.{
  match_loop, single_match, matching_audience, decode_sealed_segment, check_plain_hash,
  open_segment, open_verified, open_package,
}
use chainbind_go.Open.Opened.{IsOpened, open_package-IsOpened}
use chainbind_go.Tests.Codec.{unary, encode, cons, decode, chars}
use chainbind_go.Tests.Toy.{fill, blank}
use chainbind_go.Tests.Sealing.{sealed, options, wrapper}

sealed-opens : open_package blank (some sealed) (1 ∷ []) wrapper options [] ≡ (
  ok ("shop", some (1 ∷ 2 ∷ [])),
  (open_package blank (some sealed) (1 ∷ []) wrapper options []).1,
)
unfolding reconstruct_signing_view check_signed_fields check_names decode_signature_value level1
    level1_passed verify spec_version_supported check_spec_version parse_package check_segments
    parse_signature verify_parsed resolve_issuer_key verify_ed25519 check_content check_cipher_hash
    plain_hashes cipher_hashes profile_bindings verify_intent decrypt match_loop single_match
    matching_audience decode_sealed_segment check_plain_hash open_segment open_verified open_package
    unary encode cons decode chars seal check_audiences seal_allowed new_package_id seal_segments
    seal_segment new_dek encrypt new_gcm finish_segment aad jcs hash add_segment commit_segments
    segments_root root_entries all_seen intent_commitment compute_bindings sign_package with_kid
    with_signature assemble build_signing_view select_fields members signing_view_fields
    View.bindings marshal_bindings fill encode_signature_value
sealed-opens = refl

sealed-cnf : IsMap sealed.cnf
unfolding seal check_audiences seal_allowed new_package_id seal_segments seal_segment new_dek
    encrypt new_gcm finish_segment aad jcs hash add_segment commit_segments segments_root
    root_entries all_seen intent_commitment compute_bindings sign_package with_kid with_signature
    assemble build_signing_view select_fields members signing_view_fields View.bindings
    marshal_bindings fill encode_signature_value
sealed-cnf = (refl, (refl, tt))

open_package-IsOpened_example :
    IsOpened blank wrapper sealed (1 ∷ []) options [] "shop" (some (1 ∷ 2 ∷ []))
open_package-IsOpened_example =
    open_package-IsOpened blank wrapper sealed (1 ∷ []) options []
      ((open_package blank (some sealed) (1 ∷ []) wrapper options []).1) "shop" (some (1 ∷ 2 ∷ []))
      sealed-cnf sealed-opens
