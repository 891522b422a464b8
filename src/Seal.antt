-- ===== src/Seal.antt =====
-- pkg/chainbind/seal.go: sealing a request into a signed package. The zeroing of a data key after its
-- use (`defer zero(dek)`) changes nothing that the program reads and is not modelled.
pub mod Segments
pub mod Run
pub mod Sealed
pub mod Verifies
pub mod Order
pub mod Refusals
use chainbind_go.Prelude.{
  ℕ, String, Bool, not, Option, none, some, List, [], ◌∷◌, length, ◌-◌, take, drop, contains, ltb,
  eqb, if◌then◌else◌,
}
use Prim.Native.String.{◌++◌ as ◌<>◌}
use chainbind_go.Prelude.Maps.{Map, lookup, insert, or_else, is_some}
use chainbind_go.Errors.{Result, ok, err, Error}
use chainbind_go.Errors
use chainbind_go.Value.{Bytes, Slice, contents, slice_bytes, Time, Value}
use chainbind_go.Platform.{Platform}
use chainbind_go.Ports.{
  Event, Wrapping, Entropy, Signer, KeyWrapper, IntentVerifier, Act, call, lift, pure, fail, ◌>>=◌,
  ◌>>◌,
}
use chainbind_go.Package.{
  Package, Segment, SealedSegment, KeyConfirmation, AadContext, Cnf, Signature,
  supported_spec_version,
}
use chainbind_go.Canonical.{jcs, hash}
use chainbind_go.Aad.{aad}
use chainbind_go.Crypto.{Encrypted, new_dek, encrypt}
use chainbind_go.Bindings.{
  BindingContext, BindingSpec, segments_root, intent_commitment, compute_bindings,
}
use chainbind_go.SignView.{build_signing_view, required_signed_fields, encode_signature_value}

abbrev pub gcm_tag_size : ℕ
gcm_tag_size = 16

abbrev pub package_id_bytes : ℕ
package_id_bytes = 16

pub record Audience : Type 0 where
  pub name : String
  pub public_key : Bytes
  pub kid : String

pub record SealRequest : Type 0 where
  pub segments : Map Slice
  pub segment_order : List String
  pub audiences : List Audience
  pub intent_ref : String
  pub authority : String
  pub projection : Value
  pub issuer : String
  pub issued_at : Time
  pub tenant_id : String
  pub environment : String
  pub profile : String
  pub binding_specs : List BindingSpec

-- The loop of checkAudiences; `seen` is the set of names met so far.
unfoldable pub check_audiences : Map Slice → List String → List Audience → Result (Unit {0})
check_audiences segments seen [] = ok tt
check_audiences segments seen (aud ∷ audiences) =
    if contains aud.name seen
    then err Error.duplicate_audience
    else if not (is_some (lookup aud.name segments))
    then err Error.segment_missing
    else check_audiences segments (aud.name ∷ seen) audiences

-- The components that Seal is given.
pub record Sealer : Type 0 where
  pub rand : Entropy
  pub signer : Signer
  pub wrapper : KeyWrapper
  pub verifier : IntentVerifier

-- The results of sealSegment.
pub record SegmentSealed : Type 0 where
  pub segment : Segment
  pub sealed : SealedSegment
  pub plain_hash : String

-- The manifest entry, the wire segment and the plaintext hash that sealSegment returns.
abbrev pub segment_result : Platform → Audience → Encrypted → Bytes → Wrapping → SegmentSealed
segment_result pf aud encrypted canon_plain wrapping =
    let combined = encrypted.ciphertext in
    let cut = length combined - gcm_tag_size in
    record {
      segment = record {
        audience = aud.name;
        kid = aud.kid;
        alg = "AES-256-GCM";
        wrap_alg = "ECDH-ES+A256KW";
        plain_hash = hash pf canon_plain;
        cipher_hash = hash pf combined;
      };
      sealed = record {
        epk = record { kty = "OKP"; crv = "X25519"; x = pf.base64url wrapping.epk };
        dek_wrapped = pf.base64url wrapping.key;
        nonce = pf.base64url encrypted.nonce;
        ciphertext = pf.base64url (take cut combined);
        tag = pf.base64url (drop cut combined);
      };
      plain_hash = hash pf canon_plain;
    }

-- sealSegment from the point where the plaintext is encrypted.
unfoldable pub finish_segment :
    Platform → Sealer → Audience → Slice → Bytes → Encrypted → Act SegmentSealed
finish_segment pf s aud plaintext dek encrypted =
    if ltb (length encrypted.ciphertext) gcm_tag_size then fail Error.decryption_failed else do
      canon_plain ← lift (jcs pf (slice_bytes plaintext))
      wrapping ← call (Event.wrapped aud.public_key dek) (s.wrapper.wrap aud.public_key dek)
      pure (segment_result pf aud encrypted canon_plain wrapping)

unfoldable pub seal_segment : Platform → Sealer → AadContext → Audience → Slice → Act SegmentSealed
seal_segment pf s c aud plaintext = do
  dek ← new_dek s.rand
  ad ← lift (aad pf c aud.name supported_spec_version)
  encrypted ← encrypt pf s.rand dek (contents plaintext) ad
  finish_segment pf s aud plaintext dek encrypted

-- The four maps that Seal's loop fills.
pub record Sealing : Type 0 where
  pub plain_hash : Map String
  pub manifest_segments : Map Segment
  pub sealed_segments : Map SealedSegment
  pub cnf : Cnf

abbrev pub no_segments : Sealing
no_segments = record { plain_hash = []; manifest_segments = []; sealed_segments = []; cnf = [] }

unfoldable pub add_segment : Audience → SegmentSealed → String → Sealing → Sealing
add_segment aud sealed jkt m = record {
  plain_hash = insert aud.name sealed.plain_hash m.plain_hash;
  manifest_segments = insert aud.name sealed.segment m.manifest_segments;
  sealed_segments = insert aud.name sealed.sealed m.sealed_segments;
  cnf = insert aud.name (record { kid = aud.kid; jkt = jkt; method = "jwk-thumbprint" }) m.cnf;
}

unfoldable pub seal_segments :
    Platform → Sealer → AadContext → Map Slice → Sealing → List Audience → Act Sealing
seal_segments pf s c segments m [] = pure m
seal_segments pf s c segments m (aud ∷ audiences) = do
  sealed ← seal_segment pf s c aud (or_else (lookup aud.name segments) none)
  jkt ← lift (s.wrapper.thumbprint aud.public_key)
  seal_segments pf s c segments (add_segment aud sealed jkt m) audiences

unfoldable pub new_package_id : Platform → Entropy → Act String
new_package_id pf rand = do
  buf ← call (Event.drew package_id_bytes) (rand package_id_bytes)
  pure ("pkg_" <> pf.hex buf)

-- signPackage fills issuer.kid and then the signature.
unfoldable pub with_kid : String → Package → Package
with_kid kid p = record p { issuer = record { iss = p.issuer.iss; kid = kid } }

unfoldable pub with_signature : Platform → String → Bytes → Package → Package
with_signature pf kid sig p = record p {
  signature = record {
    alg = "EdDSA";
    kid = kid;
    signed_fields = required_signed_fields;
    value = encode_signature_value pf sig;
  };
}

unfoldable pub sign_package : Platform → Signer → Package → Act Package
sign_package pf signer p = do
  kid ← call Event.asked_kid signer.kid
  view ← lift (build_signing_view pf (with_kid kid p))
  sig ← call (Event.signed view) (signer.sign view)
  pure (with_signature pf kid sig (with_kid kid p))

-- The commitments of a package: segments_root, intent_commitment, and the profile's bindings.
pub record Committed : Type 0 where
  pub root : String
  pub commitment : String
  pub extra : Map String

unfoldable pub commit_segments : Platform → SealRequest → String → Map String → Result Committed
commit_segments pf req constraints_hash plain_hash =
    Errors.◌>>=◌ (segments_root pf req.segment_order plain_hash) λ root.
      Errors.◌>>=◌ (intent_commitment pf req.intent_ref constraints_hash root) λ commitment.
        Errors.◌>>=◌
          (compute_bindings
            (record {
              plain_hash = plain_hash;
              intent_ref = req.intent_ref;
              constraints_hash = constraints_hash;
              segments_root = root;
            })
            req.binding_specs)
          λ extra. ok (record { root = root; commitment = commitment; extra = extra })

-- The package before it is signed.
unfoldable pub assemble : SealRequest → AadContext → String → Sealing → Committed → Package
assemble req c constraints_hash m committed = record {
  spec_version = supported_spec_version;
  profile = req.profile;
  package_id = c.package_id;
  issued_at = req.issued_at;
  issuer = record { iss = req.issuer; kid = "" };
  intent = record {
    intent_ref = req.intent_ref;
    authority = req.authority;
    constraints_hash = constraints_hash;
  };
  cnf = m.cnf;
  bindings = record {
    segments_root = committed.root;
    intent_commitment = committed.commitment;
    extra = committed.extra;
  };
  manifest = record {
    schema = "chainbind-package/v1";
    hash_alg = "SHA-256";
    canonicalization = "RFC8785";
    segment_order = req.segment_order;
    aad_context = c;
    segments = m.manifest_segments;
    disclosures = none;
  };
  segments = m.sealed_segments;
  signature = record { alg = ""; kid = ""; signed_fields = []; value = "" };
}

-- Seal from the authority's permission on.
unfoldable pub seal_allowed : Platform → Sealer → SealRequest → Act Package
seal_allowed pf s req = do
  constraints_hash ←
      call (Event.asked_constraints req.intent_ref) (s.verifier.constraints_hash req.intent_ref)
  package_id ← new_package_id pf s.rand
  let c : AadContext = record {
    package_id = package_id;
    tenant_id = req.tenant_id;
    environment = req.environment;
  }
  m ← seal_segments pf s c req.segments no_segments req.audiences
  committed ← lift (commit_segments pf req constraints_hash m.plain_hash)
  sign_package pf s.signer (assemble req c constraints_hash m committed)

unfoldable pub seal : Platform → Sealer → SealRequest → Act Package
seal pf s req = if eqb (length req.audiences) 0 then fail Error.no_audiences else do
  lift (check_audiences req.segments [] req.audiences)
  decision ←
      call (Event.checked req.intent_ref req.projection)
        (s.verifier.check req.intent_ref req.projection)
  if not decision.allowed then fail (Error.intent_denied decision.reason) else seal_allowed pf s req
