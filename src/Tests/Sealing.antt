-- ===== src/Tests/Sealing.antt =====
-- A request of two audiences, sealed on the platform `blank`, and what is made of the package.
use chainbind_go.Prelude.{
  if◌then◌else◌, String, length, eqb, subst, ◌≡◌, refl, ap, Option, none, some, [], ◌∷◌, true,
  Distinct,
}
use chainbind_go.Prelude.Maps.{lookup, or_else, IsMap}
use chainbind_go.Errors.{Result, ok, err, Error, ok-injective}
use chainbind_go.Value.{Bytes, null}
use chainbind_go.Ports.{Trace, Signer, KeyWrapper, IntentVerifier, Entropy}
use chainbind_go.Package.{Package}
use chainbind_go.Bindings.{BindingSpec}
use chainbind_go.Bindings.Specs.{names}
use chainbind_go.Report.{Report, report_ok}
use chainbind_go.Verify.{VerifyOptions, verify}
use chainbind_go.Seal.{
  SealRequest, Sealer, seal, check_audiences, seal_allowed, new_package_id, seal_segments,
  seal_segment, finish_segment, add_segment, commit_segments, sign_package, with_kid,
  with_signature, assemble,
}
use chainbind_go.Crypto.{new_dek, encrypt, new_gcm}
use chainbind_go.Aad.{aad}
use chainbind_go.Canonical.{jcs, hash}
use chainbind_go.Bindings.{
  segments_root, root_entries, all_seen, intent_commitment, compute_bindings,
}
use chainbind_go.SignView.{
  build_signing_view, select_fields, members, signing_view_fields, encode_signature_value,
}
use chainbind_go.Package.{marshal_bindings}
use chainbind_go.Package.View
use chainbind_go.Seal.Verifies.{Trusts, IsPure, IsImmutable, seal-report_ok}
use chainbind_go.Tests.Toy.{fill, blank, blank_decodes}

abbrev pub local_signer : Signer
local_signer = record { kid = λ t. ok "key-1"; sign = λ view t. ok (fill 0 64) }

abbrev pub wrapper : KeyWrapper
wrapper = record {
  wrap = λ key dek t. ok (record { key = dek; epk = key });
  unwrap = λ priv epk wrapped t. ok wrapped;
  thumbprint = λ key. elim key [
    | [] ↦ err Error.malformed_package
    | b ∷ rest ↦ ok (if eqb b 1 then "jkt-1" else "jkt-2")
  ];
  public_key = λ priv. ok priv;
}

abbrev pub authority : IntentVerifier
authority = record {
  check = λ ref projection t. ok (record { allowed = true; reason = "" });
  constraints_hash = λ ref t. ok "sha256:c0";
}

abbrev pub zeros : Entropy
zeros n t = ok (fill 0 n)

abbrev pub sealer : Sealer
sealer = record { rand = zeros; signer = local_signer; wrapper = wrapper; verifier = authority }

-- The hash of the shop's segment, under the name `cart`.
abbrev pub cart : BindingSpec
cart = record { name = "cart"; compute = λ c. ok (or_else (lookup "shop" c.plain_hash) "") }

abbrev pub request : SealRequest
request = record {
  segments = ("shop", some (1 ∷ 2 ∷ [])) ∷ ("bank", some (3 ∷ [])) ∷ [];
  segment_order = "bank" ∷ "shop" ∷ [];
  audiences =
      record { name = "shop"; public_key = 1 ∷ []; kid = "shop-1" }
      ∷ record { name = "bank"; public_key = 2 ∷ []; kid = "bank-1" }
      ∷ [];
  intent_ref = "intent-1";
  authority = "authority";
  projection = null;
  issuer = "agent";
  issued_at = record { rfc3339 = "2026-01-01T00:00:00Z" };
  tenant_id = "tenant";
  environment = "test";
  profile = "checkout";
  binding_specs = cart ∷ [];
}

abbrev pub or_blank : Result Package × Trace → Package → Package
or_blank (ok p, t) q = p
or_blank (err e, t) q = q

abbrev pub keys_of : String → String → Option Bytes
keys_of iss kid = some (fill 9 32)

abbrev pub options : VerifyOptions
options = record { issuer_key = some keys_of; intent = some authority; binding_specs = cart ∷ [] }

pub trusted : Trusts blank local_signer keys_of "agent"
trusted = record {
  key = λ kid. fill 9 32;
  key_size = λ kid. unfold fill in refl;
  resolves = λ t kid h. refl;
  checks = λ t u kid view sig named signed.
      unfold fill in
      subst (λ s. (length s ≡ 64) × (eqb (length s) 64 ≡ true))
        (ok-injective (fill 0 64) sig signed) (refl, refl);
}

abbrev pub unsealed : Package
unsealed = record {
  spec_version = "";
  profile = "";
  package_id = "";
  issued_at = record { rfc3339 = "" };
  issuer = record { iss = ""; kid = "" };
  intent = record { intent_ref = ""; authority = ""; constraints_hash = "" };
  cnf = [];
  bindings = record { segments_root = ""; intent_commitment = ""; extra = [] };
  manifest = record {
    schema = "";
    hash_alg = "";
    canonicalization = "";
    segment_order = [];
    aad_context = record { package_id = ""; tenant_id = ""; environment = "" };
    segments = [];
    disclosures = none;
  };
  segments = [];
  signature = record { alg = ""; kid = ""; signed_fields = []; value = "" };
}

abbrev pub outcome : Result Package × Trace
outcome = seal blank sealer request []

abbrev pub sealed : Package
sealed = or_blank outcome unsealed

pub sealed-IsOk : outcome ≡ (ok sealed, outcome.1)
unfolding seal check_audiences seal_allowed new_package_id seal_segments seal_segment new_dek
    encrypt new_gcm finish_segment aad jcs hash add_segment commit_segments segments_root
    root_entries all_seen intent_commitment compute_bindings sign_package with_kid with_signature
    assemble build_signing_view select_fields members signing_view_fields View.bindings
    marshal_bindings fill encode_signature_value
sealed-IsOk = refl

pub sealed-IsMap : IsMap sealed.manifest.segments
unfolding seal check_audiences seal_allowed new_package_id seal_segments seal_segment new_dek
    encrypt new_gcm finish_segment aad jcs hash add_segment commit_segments segments_root
    root_entries all_seen intent_commitment compute_bindings sign_package with_kid with_signature
    assemble build_signing_view select_fields members signing_view_fields View.bindings
    marshal_bindings fill encode_signature_value
sealed-IsMap = (refl, (refl, tt))

pub cart-IsPure : IsPure cart
cart-IsPure c d same ref hash root = ap (λ x. ok (or_else x "")) (same "shop")

pub authority-IsImmutable : IsImmutable authority
authority-IsImmutable ref t u = refl

pub cart-Distinct : Distinct (names (cart ∷ []))
cart-Distinct = (refl, tt)

seal-report_ok_example :
    (report : Report) × (w : Trace) × (verify blank (some sealed) options [] ≡ (ok report, w))
    × (report_ok (some report) ≡ true)
seal-report_ok_example =
    seal-report_ok blank sealer request options keys_of [] outcome.1 [] sealed blank_decodes refl
      trusted refl authority-IsImmutable refl cart-Distinct (cart-IsPure, tt) sealed-IsOk
