-- ===== src/Tests/Witnesses.antt =====
-- The theorems on packages, at the package of the module Sealing and at variants of it.
use chainbind_go.Prelude.{
  String, ◌≡◌, ◌↔◌, refl, none, some, List, [], ◌∷◌, true, false, contains, All, ◌⊎◌,
}
use chainbind_go.Prelude.Maps.{Map, lookup, IsMap, Same}
use chainbind_go.Errors.{Result, ok, err}
use chainbind_go.Canonical.{jcs}
use chainbind_go.Platform.{Collision}
use chainbind_go.Package.{
  Package, Bindings, Segment, SealedSegment, marshal_bindings, unmarshal_bindings,
}
use chainbind_go.Package.RoundTrip.{unmarshal-marshal_bindings}
use chainbind_go.Bindings.{
  BindingContext, segments_root, root_entries, all_seen, intent_commitment, compute_bindings,
}
use chainbind_go.Bindings.Roots.{Covers, digest, segments_root-eq-ok_iff}
use chainbind_go.Bindings.Commitments.{segments_root-injective, intent_commitment-injective}
use chainbind_go.Bindings.Specs.{Holds, names, compute_bindings-Holds}
use chainbind_go.SignView.{
  reconstruct_signing_view, build_signing_view, decode_signature_value, check_signed_fields,
  check_names,
}
use chainbind_go.SignView.Names.{NamesView, check_signed_fields_iff}
use chainbind_go.SignView.Order.{reconstruct-eq-build}
use chainbind_go.Fault.{StructuralFault, unmarshal_fault, fault_text, unmarshal_fault_iff}
use chainbind_go.Report.{report_ok, level1}
use chainbind_go.Verify.{parse_package, parsed, refused, check_segments}
use chainbind_go.Verify.Structure.{IsStructured, parse_package-parsed_iff}
use chainbind_go.Verify.Faults.{Explains, parse_package-Explains}
use chainbind_go.Verify.Accept.{IsAuthentic, IsAuthorized, level1-verify_iff, report_ok-verify_iff}
use chainbind_go.Verify.Asks.{Reported, verify-Reported}
use chainbind_go.Tests.Toy.{toy, blank, toy_reads, blank_sorts}
use chainbind_go.Tests.Sealing.{sealed, sealed-IsMap, unsealed, options, cart, cart-Distinct}

abbrev no_segment : Segment
no_segment = record {
  audience = "";
  kid = "";
  alg = "";
  wrap_alg = "";
  plain_hash = "";
  cipher_hash = "";
}

abbrev no_sealed : SealedSegment
no_sealed = record {
  epk = record { kty = ""; crv = ""; x = "" };
  dek_wrapped = "";
  nonce = "";
  ciphertext = "";
  tag = "";
}

-- A package of two audiences, in the given order.
abbrev ordered : List String → List String → Package
ordered order signed = record unsealed {
  spec_version = "1.0.0";
  manifest = record unsealed.manifest {
    segment_order = order;
    segments = ("shop", no_segment) ∷ ("bank", no_segment) ∷ [];
  };
  segments = ("shop", no_sealed) ∷ ("bank", no_sealed) ∷ [];
  signature = record unsealed.signature { signed_fields = signed; value = "" };
}

verify-Reported_example : Reported blank sealed options []
verify-Reported_example = verify-Reported blank sealed options []

-- What Verify reports of `sealed`.
abbrev answer : Reported blank sealed options []
answer = verify-Reported blank sealed options []

level1-verify_iff_example : (level1 (some answer.report) ≡ true) ↔ IsAuthentic blank sealed options
level1-verify_iff_example =
    level1-verify_iff blank sealed options [] answer.left answer.report sealed-IsMap cart-Distinct
      answer.result

report_ok-verify_iff_example :
    (report_ok (some answer.report) ≡ true)
    ↔ (IsAuthentic blank sealed options × IsAuthorized blank sealed options [])
report_ok-verify_iff_example =
    report_ok-verify_iff blank sealed options [] answer.left answer.report sealed-IsMap
      cart-Distinct answer.result

-- The nine names, backwards.
abbrev backwards : List String
backwards =
    "manifest" ∷ "bindings" ∷ "cnf" ∷ "intent" ∷ "issuer" ∷ "issued_at" ∷ "package_id" ∷ "profile"
    ∷ "spec_version" ∷ []

abbrev reordered : Package
reordered = ordered ("bank" ∷ "shop" ∷ []) backwards

reordered-IsMap : IsMap reordered.manifest.segments
reordered-IsMap = (refl, (refl, tt))

parse_package-parsed_iff_example : (parse_package blank reordered ≡ parsed [] []) ↔ (
    IsStructured reordered
    × NamesView reordered.signature.signed_fields
    × (reconstruct_signing_view blank reordered ≡ ok [])
    × (decode_signature_value blank reordered.signature.value ≡ ok []))
parse_package-parsed_iff_example = parse_package-parsed_iff reordered reordered-IsMap blank [] []

abbrev twice : Package
twice = ordered ("shop" ∷ "shop" ∷ []) backwards

twice-refused : parse_package blank twice ≡ refused StructuralFault.duplicate_audience
unfolding parse_package check_segments
twice-refused = refl

parse_package-Explains_example : Explains blank twice StructuralFault.duplicate_audience
parse_package-Explains_example =
    parse_package-Explains blank twice StructuralFault.duplicate_audience twice-refused

backwards-checked : check_signed_fields backwards ≡ ok tt
unfolding check_signed_fields check_names
backwards-checked = refl

reconstruct-eq-build_example :
    reconstruct_signing_view blank reordered ≡ build_signing_view blank reordered
reconstruct-eq-build_example = reconstruct-eq-build blank_sorts reordered backwards-checked

check_signed_fields_iff_example : (check_signed_fields backwards ≡ ok tt) ↔ NamesView backwards
check_signed_fields_iff_example = check_signed_fields_iff backwards

abbrev order : List String
order = "shop" ∷ "bank" ∷ []

abbrev hashes : Map String
hashes = ("bank", "b") ∷ ("shop", "a") ∷ []

-- The same entries in another order.
abbrev shuffled : Map String
shuffled = ("shop", "a") ∷ ("bank", "b") ∷ []

abbrev or_empty : Result String → String
or_empty (err e) = ""
or_empty (ok s) = s

abbrev root : String
root = or_empty (segments_root toy order hashes)

hashes-root : segments_root toy order hashes ≡ ok root
unfolding segments_root root_entries all_seen jcs
hashes-root = refl

shuffled-root : segments_root toy order shuffled ≡ ok root
unfolding segments_root root_entries all_seen jcs
shuffled-root = refl

segments_root-injective_example : ((order ≡ order) × Same hashes shuffled) ⊎ Collision toy
segments_root-injective_example =
    segments_root-injective toy_reads order order hashes shuffled root hashes-root shuffled-root

segments_root-eq-ok_iff_example :
    (segments_root toy order hashes ≡ ok root)
    ↔ (Covers order hashes × (digest toy order hashes ≡ ok root))
segments_root-eq-ok_iff_example = segments_root-eq-ok_iff toy order hashes root

abbrev ref : String
ref = "intent-1"

abbrev chash : String
chash = "c0"

abbrev rhash : String
rhash = "r0"

abbrev commitment : String
commitment = or_empty (intent_commitment toy ref chash rhash)

commitment-made : intent_commitment toy ref chash rhash ≡ ok commitment
unfolding intent_commitment jcs
commitment-made = refl

intent_commitment-injective_example :
    ((ref ≡ ref) × (chash ≡ chash) × (rhash ≡ rhash)) ⊎ Collision toy
intent_commitment-injective_example =
    intent_commitment-injective toy_reads ref ref chash chash rhash rhash commitment commitment-made
      commitment-made

abbrev context : BindingContext
context = record {
  plain_hash = hashes;
  intent_ref = "intent-1";
  constraints_hash = "c0";
  segments_root = "r0";
}

abbrev bound : Map String
bound = ("cart", "a") ∷ []

bound-computed : compute_bindings context (cart ∷ []) ≡ ok bound
unfolding compute_bindings
bound-computed = refl

compute_bindings-Holds_example :
    IsMap bound
    × All (Holds context bound) (cart ∷ [])
    × ((k : String) → contains k (names (cart ∷ [])) ≡ false → lookup k bound ≡ none)
compute_bindings-Holds_example =
    compute_bindings-Holds context (cart ∷ []) bound cart-Distinct bound-computed

abbrev some_bindings : Bindings
some_bindings = record { segments_root = "r0"; intent_commitment = "c1"; extra = bound }

bound-IsMap : IsMap bound
bound-IsMap = (refl, tt)

unmarshal-marshal_bindings_example :
    (m : Map String) × (marshal_bindings some_bindings ≡ ok m)
    × ((unmarshal_bindings m).segments_root ≡ "r0")
    × ((unmarshal_bindings m).intent_commitment ≡ "c1")
    × Same (unmarshal_bindings m).extra bound
unmarshal-marshal_bindings_example = unmarshal-marshal_bindings some_bindings bound-IsMap refl refl

unmarshal_fault_iff_example :
    (unmarshal_fault "an audience is listed twice in segment_order"
      ≡ ok StructuralFault.duplicate_audience)
    ↔ (fault_text StructuralFault.duplicate_audience
        ≡ "an audience is listed twice in segment_order")
unmarshal_fault_iff_example =
    unmarshal_fault_iff "an audience is listed twice in segment_order"
      StructuralFault.duplicate_audience tt
