-- ===== src/Tests/Checkout.antt =====
-- A checkout, split and sealed under its profile.
use chainbind_go.Prelude.{true, String, ◌≡◌, ◌⊎◌, refl, none, some, [], ◌∷◌}
use chainbind_go.Prelude.Integers.{pos}
use chainbind_go.Prelude.Maps.{Map}
use chainbind_go.Errors.{Result, ok, err}
use chainbind_go.Value.{Slice}
use chainbind_go.Platform.{Collision}
use chainbind_go.Ports.{Trace}
use chainbind_go.Canonical.{jcs, hash}
use chainbind_go.Aad.{aad}
use chainbind_go.Crypto.{new_dek, encrypt, new_gcm}
use chainbind_go.Package.{Package, marshal_bindings}
use chainbind_go.Package.View
use chainbind_go.Bindings.{
  BindingContext, segments_root, root_entries, all_seen, intent_commitment, compute_bindings,
}
use chainbind_go.SignView.{
  build_signing_view, select_fields, members, signing_view_fields, encode_signature_value,
}
use chainbind_go.Report.{Report, report_ok}
use chainbind_go.Verify.{VerifyOptions, verify}
use chainbind_go.Seal.{
  SealRequest, seal, check_audiences, seal_allowed, new_package_id, seal_segments, seal_segment,
  finish_segment, add_segment, commit_segments, sign_package, with_kid, with_signature, assemble,
}
use chainbind_go.AgenticCheckout.{
  Payload, payload, split, as_payload, segment_order, segment_hash, binding_specs, profile_name,
  compute_checkout_hash, compute_transaction_id, compute_conditional_transaction_id,
}
use chainbind_go.AgenticCheckout.Sections.{IsSplit, split-IsSplit}
use chainbind_go.AgenticCheckout.Bindings.{profile-report_ok, compute_transaction_id-injective}
use chainbind_go.Tests.Toy.{fill, toy, blank, toy_reads, blank_decodes}
use chainbind_go.Tests.Sealing.{
  request, sealer, authority, keys_of, trusted, authority-IsImmutable, or_blank, unsealed,
}

abbrev pub order_3 : Payload
order_3 = record {
  request_context = record {
    tenant_id = "tenant";
    environment = "test";
    request_id = "r";
    correlation_id = "c";
    issued_by = "agent";
  };
  intent = record { intent_ref = "intent-1"; authority = "authority" };
  subject = record {
    user_id = "u";
    account_id = "a";
    name = "n";
    email = "e";
    roles = none;
    permissions = some ("buy" ∷ []);
    account_status = "active";
  };
  checkout = record {
    checkout_id = "c";
    merchant_id = "m";
    merchant_name = "shop";
    currency = "EUR";
    items = some (record { sku = "s"; name = "n"; quantity = pos 2; unit_price = pos 150 } ∷ []);
    subtotal = pos 300;
    shipping = pos 0;
    discount = pos 0;
    total = pos 300;
  };
  payment = record {
    payment_id = "p";
    payment_method = "card";
    bank_account_masked = "x";
    bank_code = "b";
    payment_reference = "r";
    transaction_status = "new";
    amount = pos 300;
  };
}

abbrev or_nil : Result (Map Slice) → Map Slice
or_nil (ok m) = m
or_nil (err e) = []

abbrev parts : Map Slice
parts = or_nil (split blank (payload order_3))

parts-split : split blank (payload order_3) ≡ ok parts
unfolding split as_payload
parts-split = refl

split-IsSplit_example : IsSplit blank (payload order_3) parts
split-IsSplit_example = split-IsSplit blank (payload order_3) parts parts-split

abbrev pub checkout_request : SealRequest
checkout_request = record request {
  segments =
      ("user", some (1 ∷ [])) ∷ ("merchant", some (2 ∷ [])) ∷ ("gateway", some (3 ∷ [])) ∷ [];
  segment_order = segment_order;
  audiences =
      record { name = "user"; public_key = 1 ∷ []; kid = "u-1" }
      ∷ record { name = "merchant"; public_key = 2 ∷ []; kid = "m-1" }
      ∷ record { name = "gateway"; public_key = 3 ∷ []; kid = "g-1" }
      ∷ [];
  profile = profile_name;
  binding_specs = binding_specs blank;
}

abbrev pub checkout_options : VerifyOptions
checkout_options = record {
  issuer_key = some keys_of;
  intent = some authority;
  binding_specs = binding_specs blank;
}

abbrev pub checkout_outcome : Result Package × Trace
checkout_outcome = seal blank sealer checkout_request []

abbrev pub checkout_package : Package
checkout_package = or_blank checkout_outcome unsealed

pub checkout_package-IsOk : checkout_outcome ≡ (ok checkout_package, checkout_outcome.1)
unfolding compute_checkout_hash compute_transaction_id compute_conditional_transaction_id seal
    check_audiences seal_allowed new_package_id seal_segments seal_segment new_dek encrypt new_gcm
    finish_segment aad jcs hash add_segment commit_segments segments_root root_entries all_seen
    intent_commitment compute_bindings sign_package with_kid with_signature assemble
    build_signing_view select_fields members signing_view_fields View.bindings marshal_bindings fill
    encode_signature_value
checkout_package-IsOk = refl

profile-report_ok_example :
    (report : Report) × (w : Trace) × (verify blank (some checkout_package) checkout_options []
      ≡ (ok report, w))
    × (report_ok (some report) ≡ true)
profile-report_ok_example =
    profile-report_ok blank sealer checkout_request checkout_options keys_of [] checkout_outcome.1
      [] checkout_package blank_decodes refl trusted refl authority-IsImmutable refl refl
      checkout_package-IsOk

abbrev context : BindingContext
context = record {
  plain_hash = ("merchant", "m") ∷ ("gateway", "g") ∷ [];
  intent_ref = "intent-1";
  constraints_hash = "c0";
  segments_root = "r0";
}

abbrev reversed : BindingContext
reversed = record context { plain_hash = ("gateway", "g") ∷ ("merchant", "m") ∷ [] }

abbrev or_empty : Result String → String
or_empty (err e) = ""
or_empty (ok s) = s

abbrev id : String
id = or_empty (compute_transaction_id toy context)

context-id : compute_transaction_id toy context ≡ ok id
unfolding compute_transaction_id jcs
context-id = refl

reversed-id : compute_transaction_id toy reversed ≡ ok id
unfolding compute_transaction_id jcs
reversed-id = refl

compute_transaction_id-injective_example :
    ((segment_hash context "merchant" ≡ segment_hash reversed "merchant")
      × (segment_hash context "gateway" ≡ segment_hash reversed "gateway"))
    ⊎ Collision toy
compute_transaction_id-injective_example =
    compute_transaction_id-injective toy_reads context reversed id context-id reversed-id
