-- ===== src/Package.antt =====
-- pkg/chainbind/package.go: the sealed wire format, and what its own marshallers hand to
-- encoding/json. A nil map and an empty one are not told apart: the program asks only for entries
-- and lengths. `disclosures` is nil or a list, since MarshalJSON of Manifest asks for that.
pub mod RoundTrip
pub mod View
use chainbind_go.Prelude.{String, ◌==◌, Option, some, List, [], ◌∷◌, if◌then◌else◌}
use chainbind_go.Prelude.Maps.{Map, lookup, insert, delete, or_else, is_some}
use chainbind_go.Errors.{Result, ok, err, Error}
use chainbind_go.Value.{Time, Value}

abbrev pub supported_spec_version : String
supported_spec_version = "1.0.0"

unfoldable pub check_spec_version : String → Result (Unit {0})
check_spec_version v =
    if v == supported_spec_version then ok tt else err Error.unsupported_spec_version

pub record Issuer : Type 0 where
  pub iss : String
  pub kid : String

pub record Intent : Type 0 where
  pub intent_ref : String
  pub authority : String
  pub constraints_hash : String

pub record KeyConfirmation : Type 0 where
  pub kid : String
  pub jkt : String
  pub method : String

abbrev pub Cnf : Type 0
Cnf = Map KeyConfirmation

pub record Bindings : Type 0 where
  pub segments_root : String
  pub intent_commitment : String
  pub extra : Map String

pub record AadContext : Type 0 where
  pub package_id : String
  pub tenant_id : String
  pub environment : String

pub record Segment : Type 0 where
  pub audience : String
  pub kid : String
  pub alg : String
  pub wrap_alg : String
  pub plain_hash : String
  pub cipher_hash : String

pub record Manifest : Type 0 where
  pub schema : String
  pub hash_alg : String
  pub canonicalization : String
  pub segment_order : List String
  pub aad_context : AadContext
  pub segments : Map Segment
  pub disclosures : Option (List Value)

pub record Epk : Type 0 where
  pub kty : String
  pub crv : String
  pub x : String

pub record SealedSegment : Type 0 where
  pub epk : Epk
  pub dek_wrapped : String
  pub nonce : String
  pub ciphertext : String
  pub tag : String

pub record Signature : Type 0 where
  pub alg : String
  pub kid : String
  pub signed_fields : List String
  pub value : String

pub record Package : Type 0 where
  pub spec_version : String
  pub profile : String
  pub package_id : String
  pub issued_at : Time
  pub issuer : Issuer
  pub intent : Intent
  pub cnf : Cnf
  pub bindings : Bindings
  pub manifest : Manifest
  pub segments : Map SealedSegment
  pub signature : Signature

abbrev pub bindings_field_segments_root : String
bindings_field_segments_root = "segments_root"

abbrev pub bindings_field_intent_commitment : String
bindings_field_intent_commitment = "intent_commitment"

-- The loop `for k, v := range b.Extra { m[k] = v }`.
copy_into : Map String → Map String → Map String
copy_into m [] = m
copy_into m ((k, v) ∷ rest) = copy_into (insert k v m) rest

-- Bindings.MarshalJSON, up to its call of json.Marshal on the map.
unfoldable pub marshal_bindings : Bindings → Result (Map String)
unfolding copy_into
marshal_bindings b =
    if is_some (lookup bindings_field_segments_root b.extra)
    then err Error.binding_collision
    else if is_some (lookup bindings_field_intent_commitment b.extra)
    then err Error.binding_collision
    else ok (
        insert bindings_field_intent_commitment b.intent_commitment
          (insert bindings_field_segments_root b.segments_root (copy_into [] b.extra)))

-- Bindings.UnmarshalJSON, from the map that json.Unmarshal has decoded.
unfoldable pub unmarshal_bindings : Map String → Bindings
unmarshal_bindings m = record {
  segments_root = or_else (lookup bindings_field_segments_root m) "";
  intent_commitment = or_else (lookup bindings_field_intent_commitment m) "";
  extra = delete bindings_field_intent_commitment (delete bindings_field_segments_root m);
}

-- Manifest.MarshalJSON: the alias whose Disclosures are never nil.
unfoldable pub marshal_manifest : Manifest → Manifest
marshal_manifest m = record m { disclosures = some (or_else m.disclosures []) }
