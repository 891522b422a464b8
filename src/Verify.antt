-- ===== src/Verify.antt =====
-- pkg/chainbind/verify.go: the two-level verification of a package.
pub mod Structure
pub mod Faults
pub mod Content
pub mod Accept
pub mod Asks
pub mod Received
use chainbind_go.Prelude.{
  ℕ, String, ◌==◌, Bool, true, false, ◌&&◌, ◌||◌, not, Option, none, some, List, [], ◌∷◌, ◌++◌,
  length, contains, eqb, if◌then◌else◌,
}
use chainbind_go.Prelude.Maps.{Map, lookup, insert, or_else, is_some}
use chainbind_go.Errors.{Result, ok, err, Error, is_ok}
use chainbind_go.Value.{Bytes}
use chainbind_go.Platform.{Platform}
use chainbind_go.Ports.{IntentVerifier, Act, Trace, Event, call, pure, fail, attempt, ◌>>=◌}
use chainbind_go.Canonical.{hash}
use chainbind_go.Package.{Package, Segment, SealedSegment, check_spec_version}
use chainbind_go.Bindings.{BindingContext, BindingSpec, segments_root, intent_commitment}
use chainbind_go.SignView.{check_signed_fields, reconstruct_signing_view, decode_signature_value}
use chainbind_go.Fault.{StructuralFault}
use chainbind_go.Report.{IntentResult, Report, empty_report, level1_passed}

pub record VerifyOptions : Type 0 where
  pub issuer_key : Option (String → String → Option Bytes)
  pub intent : Option IntentVerifier
  pub binding_specs : List BindingSpec

unfoldable pub spec_version_supported : String → Bool
spec_version_supported v = is_ok (check_spec_version v)

-- The result of parsePackage: a fault, or the signing view and the signature.
pub data Parse : Type 0 where
  refused : StructuralFault → Parse
  parsed : Bytes → Bytes → Parse

-- The loop of parsePackage over segment_order; `seen` is the set of names met so far.
unfoldable pub check_segments : Package → List String → List String → Option StructuralFault
check_segments p seen [] = none
check_segments p seen (a ∷ order) =
    if contains a seen
    then some StructuralFault.duplicate_audience
    else if not (is_some (lookup a p.manifest.segments))
    then some StructuralFault.manifest_segment_missing
    else if not (is_some (lookup a p.segments))
    then some StructuralFault.sealed_segment_missing
    else check_segments p (a ∷ seen) order

-- The rest of parsePackage, from the check of signed_fields.
unfoldable pub parse_signature : Platform → Package → Parse
parse_signature pf p = elim (check_signed_fields p.signature.signed_fields) [
  | err e ↦ refused StructuralFault.signed_fields_invalid
  | ok u ↦ elim (reconstruct_signing_view pf p) [
    | err e ↦ refused StructuralFault.signing_view_unbuildable
    | ok view ↦ elim (decode_signature_value pf p.signature.value) [
      | err e ↦ refused StructuralFault.signature_undecodable
      | ok sig ↦ parsed view sig
    ]
  ]
]

unfoldable pub parse_package : Platform → Package → Parse
parse_package pf p =
    if eqb (length p.signature.signed_fields) 0
    then refused StructuralFault.empty_signed_fields
    else if eqb (length p.manifest.segment_order) 0
    then refused StructuralFault.empty_segment_order
    else if not (eqb (length p.manifest.segments) (length p.manifest.segment_order))
    then refused StructuralFault.segment_count_mismatch
    else elim (check_segments p [] p.manifest.segment_order) [
      | some fault ↦ refused fault
      | none ↦ parse_signature pf p
    ]

unfoldable pub resolve_issuer_key :
    Option (String → String → Option Bytes) → String → String → Option Bytes
resolve_issuer_key none iss kid = none
resolve_issuer_key (some resolve) iss kid = resolve iss kid

abbrev pub public_key_size : ℕ
public_key_size = 32

abbrev pub signature_size : ℕ
signature_size = 64

unfoldable pub verify_ed25519 : Platform → Bytes → Bytes → Bytes → Bool
verify_ed25519 pf pub_key message sig =
    if not (eqb (length pub_key) public_key_size) || not (eqb (length sig) signature_size)
    then false
    else pf.ed25519_verify pub_key message sig

unfoldable pub check_cipher_hash : Platform → Segment → SealedSegment → Bool
check_cipher_hash pf seg sealed = elim (pf.base64url_decode sealed.ciphertext) [
  | none ↦ false
  | some ciphertext ↦ elim (pf.base64url_decode sealed.tag) [
    | none ↦ false
    | some tag ↦ hash pf (ciphertext ++ tag) == seg.cipher_hash
  ]
]

-- A missing entry of a map of structs reads as the zero struct.
abbrev pub zero_segment : Segment
zero_segment = record {
  audience = "";
  kid = "";
  alg = "";
  wrap_alg = "";
  plain_hash = "";
  cipher_hash = "";
}

abbrev pub zero_sealed : SealedSegment
zero_sealed = record {
  epk = record { kty = ""; crv = ""; x = "" };
  dek_wrapped = "";
  nonce = "";
  ciphertext = "";
  tag = "";
}

abbrev pub segment_at : Package → String → Segment
segment_at p a = or_else (lookup a p.manifest.segments) zero_segment

abbrev pub sealed_at : Package → String → SealedSegment
sealed_at p a = or_else (lookup a p.segments) zero_sealed

-- The two maps that the loop of L1.4 fills.
unfoldable pub plain_hashes : Package → Map String → List String → Map String
plain_hashes p m [] = m
plain_hashes p m (a ∷ order) = plain_hashes p (insert a (segment_at p a).plain_hash m) order

unfoldable pub cipher_hashes : Platform → Package → Map Bool → List String → Map Bool
cipher_hashes pf p m [] = m
cipher_hashes pf p m (a ∷ order) =
    cipher_hashes pf p (insert a (check_cipher_hash pf (segment_at p a) (sealed_at p a)) m) order

abbrev pub equals_ok : Result String → String → Bool
equals_ok (err e) s = false
equals_ok (ok v) s = v == s

abbrev pub or_empty : Result String → String
or_empty (err e) = ""
or_empty (ok v) = v

-- The loop of L1.6.
unfoldable pub profile_bindings : Package → BindingContext → Map Bool → List BindingSpec → Map Bool
profile_bindings p c m [] = m
profile_bindings p c m (spec ∷ specs) =
    profile_bindings p c
      (insert spec.name
        (equals_ok (spec.compute c) (or_else (lookup spec.name p.bindings.extra) "")) m)
      specs

-- L1.3 to L1.6, once the signature is good: everything accumulates.
unfoldable pub check_content : Platform → Package → List BindingSpec → Report
unfolding plain_hashes cipher_hashes profile_bindings
check_content pf p specs =
    let order = p.manifest.segment_order in
    let plain = plain_hashes p [] order in
    let root = segments_root pf order plain in
    let c : BindingContext = record {
      plain_hash = plain;
      intent_ref = p.intent.intent_ref;
      constraints_hash = p.intent.constraints_hash;
      segments_root = or_empty root;
    } in
    record {
      spec_version_supported = true;
      structural = StructuralFault.no_fault;
      signature = true;
      aad_context_consistent = p.manifest.aad_context.package_id == p.package_id;
      cipher_hashes = some (cipher_hashes pf p [] order);
      segments_root = equals_ok root p.bindings.segments_root;
      profile_bindings =
          if eqb (length specs) 0 then none else some (profile_bindings p c [] specs);
      intent = record { evaluated = false; valid = false; reason = "" };
    }

-- L2.2 to L2.4, once the authority has answered.
unfoldable pub compare_intent : Platform → Package → String → IntentResult
compare_intent pf p authoritative =
    if not (authoritative == p.intent.constraints_hash)
    then record {
      evaluated = true;
      valid = false;
      reason = "constraints_hash does not match the authority";
    }
    else elim (intent_commitment pf p.intent.intent_ref authoritative p.bindings.segments_root) [
      | err e ↦ record {
        evaluated = true;
        valid = false;
        reason = "failed to recompute intent commitment";
      }
      | ok commitment ↦
          if not (commitment == p.bindings.intent_commitment)
          then record {
            evaluated = true;
            valid = false;
            reason = "intent commitment does not match";
          }
          else record { evaluated = true; valid = true; reason = "" }
    ]

unfoldable pub intent_answer : Platform → Package → Report → Result String → Report
intent_answer pf p report (err e) = record report {
  intent = record { evaluated = false; valid = false; reason = "intent authority unreachable" };
}
intent_answer pf p report (ok authoritative) = record report {
  intent = compare_intent pf p authoritative;
}

unfoldable pub verify_intent : Platform → Package → Option IntentVerifier → Report → Act Report
verify_intent pf p none report = pure (record report {
  intent = record { evaluated = false; valid = false; reason = "intent authority not configured" };
})
verify_intent pf p (some iv) report = do
  answer ←
      attempt (
        call (Event.asked_constraints p.intent.intent_ref)
          (iv.constraints_hash p.intent.intent_ref))
  pure (intent_answer pf p report answer)

-- L1.2 and what follows it.
unfoldable pub verify_parsed : Platform → Package → VerifyOptions → Bytes → Bytes → Act Report
verify_parsed pf p opt view sig =
    let report : Report = record empty_report { spec_version_supported = true } in
    elim (resolve_issuer_key opt.issuer_key p.issuer.iss p.issuer.kid) [
      | none ↦ pure report
      | some pub_key ↦
          if not (verify_ed25519 pf pub_key view sig)
          then pure report
          else let full = check_content pf p opt.binding_specs in
            if not (level1_passed full) then pure full else verify_intent pf p opt.intent full
    ]

unfoldable pub verify : Platform → Option Package → VerifyOptions → Act Report
verify pf none opt = fail Error.nil_package
verify pf (some p) opt =
    if not (spec_version_supported p.spec_version)
    then pure empty_report
    else elim (parse_package pf p) [
      | refused fault ↦
          pure (record empty_report { spec_version_supported = true; structural = fault })
      | parsed view sig ↦ verify_parsed pf p opt view sig
    ]
