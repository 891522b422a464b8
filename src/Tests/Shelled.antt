-- ===== src/Tests/Shelled.antt =====
-- A checkout sent to the seal route, and the package to the verify route.
use chainbind_go.Prelude.{
  if◌then◌else◌, true, ◌≡◌, refl, subst, eqb, length, Option, none, some, [], ◌∷◌,
}
use chainbind_go.Prelude.Maps.{Map}
use chainbind_go.Errors.{Result, ok, err, Error, ok-injective}
use chainbind_go.Value.{Slice}
use chainbind_go.Ports.{Trace}
use chainbind_go.Package.{Package, marshal_bindings}
use chainbind_go.Package.View
use chainbind_go.Canonical.{jcs, hash}
use chainbind_go.Aad.{aad}
use chainbind_go.Crypto.{new_dek, encrypt, new_gcm}
use chainbind_go.Bindings.{
  segments_root, root_entries, all_seen, intent_commitment, compute_bindings,
}
use chainbind_go.SignView.{
  build_signing_view, select_fields, members, signing_view_fields, encode_signature_value,
}
use chainbind_go.Report.{Report, report_ok}
use chainbind_go.Seal.{
  seal, check_audiences, seal_allowed, new_package_id, seal_segments, seal_segment, finish_segment,
  add_segment, commit_segments, sign_package, with_kid, with_signature, assemble,
}
use chainbind_go.Seal.Verifies.{Trusts}
use chainbind_go.Seal.Refusals.{Refusal}
use chainbind_go.AgenticCheckout.{
  Projection, split, project, as_payload, compute_checkout_hash, compute_transaction_id,
  compute_conditional_transaction_id,
}
use chainbind_go.Shell.{
  Reply, packaged, reported, HttpRequest, Codecs, SealDeps, seal_handler, seal_payload,
  seal_request, sealer_of, parts_of, before_semicolon, has_json_content_type, after_prefix,
  bearer_token, issuer_key_resolver, verify_handler, Authorizer, require_issuer_admin,
}
use chainbind_go.Shell.Guards.{SealedBy, seal_handler-SealedBy}
use chainbind_go.Verify.Received.{received}
use chainbind_go.Shell.RoundTrip.{
  IsAnswer, own_options, verify_handler-seal_handler, seal_payload-Refusal,
}
use chainbind_go.Adapters.Keycloak.{
  Jwx, Cache, list, text, object, new, lists_role, has_role, key_set, check_token, authorize,
}
use chainbind_go.Adapters.Keycloak.Admits.{Admits, port, seal_handler-Admits}
use chainbind_go.Tests.Toy.{fill, blank, blank_decodes}
use chainbind_go.Tests.Sealing.{
  local_signer, wrapper, authority, authority-IsImmutable, zeros, unsealed, request,
}
use chainbind_go.Tests.Checkout.{order_3, checkout_request}
use chainbind_go.Tests.Outcomes.{strict, denies}

abbrev realm : Jwx
realm = record {
  KeySet = Unit;
  Token = Unit;
  fetch = λ url t. some tt;
  parse = λ bearer keys issuer audience t. some tt;
  realm_access = λ token. some (object (("roles", list (text "role_issuer_admin" ∷ [])) ∷ []));
  now = λ t. 0;
}

abbrev empty_cache : Trace → Cache realm
empty_cache t = none

abbrev authorizer : Authorizer
authorizer = port realm (new "https://realm/certs" "https://realm" "shell") empty_cache

abbrev deps : SealDeps
deps = record {
  rand = zeros;
  signer = local_signer;
  key_wrapper = wrapper;
  intent = authority;
  audiences = checkout_request.audiences;
  issuer_id = "agent";
  now = λ t. request.issued_at;
}

abbrev posted : HttpRequest
posted = record {
  content_type = "application/json;charset=utf-8";
  authorization = "Bearer abc";
  body = [];
}

abbrev reading : Option Package → Codecs
reading p = record {
  trim_space = λ s. s;
  decode_payload = λ b. some order_3;
  decode_package = λ b. if eqb (length b) 0 then none else p;
}

abbrev answer : Reply × Trace
answer = require_issuer_admin authorizer (seal_handler blank (reading none) deps) posted []

abbrev or_unsealed : Reply → Package
or_unsealed (packaged p) = p
or_unsealed _ = unsealed

abbrev made : Package
made = or_unsealed answer.0

abbrev codecs : Codecs
codecs = reading (some (received made))

-- The request that carries the package.
abbrev carrying : HttpRequest
carrying = record posted { body = 123 ∷ [] }

made-packaged :
    require_issuer_admin authorizer (seal_handler blank codecs deps) posted []
    ≡ (packaged made, answer.1)
unfolding require_issuer_admin seal_handler seal_payload seal_request parts_of before_semicolon
    has_json_content_type after_prefix bearer_token new lists_role has_role key_set check_token
    authorize split project as_payload compute_checkout_hash compute_transaction_id
    compute_conditional_transaction_id seal check_audiences seal_allowed new_package_id
    seal_segments seal_segment new_dek encrypt new_gcm finish_segment aad jcs hash add_segment
    commit_segments segments_root root_entries all_seen intent_commitment compute_bindings
    sign_package with_kid with_signature assemble build_signing_view select_fields members
    signing_view_fields View.bindings marshal_bindings fill encode_signature_value
made-packaged = refl

seal_handler-SealedBy_example : SealedBy blank codecs deps authorizer posted [] made answer.1
seal_handler-SealedBy_example =
    seal_handler-SealedBy blank codecs deps authorizer posted [] answer.1 made made-packaged

seal_handler-Admits_example :
    Admits realm
      (new "https://realm/certs" "https://realm" "shell")
      (bearer_token posted)
      []
      (authorize realm
        (new "https://realm/certs" "https://realm" "shell")
        none
        (bearer_token posted)
        []).1
seal_handler-Admits_example =
    seal_handler-Admits realm "https://realm/certs" "https://realm" "shell" empty_cache blank codecs
      deps posted [] answer.1 made made-packaged

own_key-Trusts : Trusts blank local_signer (issuer_key_resolver "key-1" (fill 9 32)) "agent"
unfolding issuer_key_resolver fill
own_key-Trusts = record {
  key = λ kid. fill 9 32;
  key_size = λ kid. refl;
  resolves = λ t kid h.
      subst (λ k. issuer_key_resolver "key-1" (fill 9 32) "agent" k ≡ some (fill 9 32))
        (ok-injective "key-1" kid h) refl;
  checks = λ t u kid view sig named signed.
      subst (λ s. (length s ≡ 64) × (eqb (length s) 64 ≡ true))
        (ok-injective (fill 0 64) sig signed) (refl, refl);
}

carrying-json : has_json_content_type codecs carrying ≡ true
unfolding has_json_content_type before_semicolon
carrying-json = refl

verify_handler-seal_handler_example :
    (report : Report) × (w : Trace) × (verify_handler blank codecs
        (own_options deps "key-1" (fill 9 32))
        carrying
        []
      ≡ (reported report, w))
    × (report_ok (some report) ≡ true)
verify_handler-seal_handler_example =
    verify_handler-seal_handler blank codecs deps authorizer "key-1" (fill 9 32) posted carrying []
      answer.1 [] made blank_decodes own_key-Trusts authority-IsImmutable made-packaged
      carrying-json refl

abbrev strict_deps : SealDeps
strict_deps = record deps { intent = strict }

abbrev or_no_parts : Result (Map Slice × Projection) → Map Slice × Projection
or_no_parts (ok parts) = parts
or_no_parts (err e) =
    ([], record { amount = order_3.payment.amount; currency = ""; merchant_id = "" })

abbrev parts : Map Slice × Projection
parts = or_no_parts (parts_of blank order_3)

order_3-parts : parts_of blank order_3 ≡ ok parts
unfolding parts_of split project as_payload
order_3-parts = refl

seal_payload-Refusal_example :
    (e : Error) × (reply : Reply) × (u : Trace) × Refusal
      (sealer_of strict_deps)
      (seal_request blank strict_deps order_3 parts.0 parts.1 [])
      []
      e
      u
    × IsAnswer e reply
    × (seal_payload blank strict_deps order_3 [] ≡ (reply, u))
seal_payload-Refusal_example =
    seal_payload-Refusal blank strict_deps order_3 parts.0 parts.1 [] order_3-parts denies
