-- ===== src/Package/View.antt =====
-- What encoding/json sees of each struct of pkg/chainbind/package.go, under its json tags.
use chainbind_go.Prelude.{◌≡◌, refl, Option, none, some, List, [], ◌∷◌, map}
use chainbind_go.Prelude.Maps.{Map}
use chainbind_go.Errors.{Result, ok, ◌>>=◌}
use chainbind_go.Value.{Value, Fields, null, text, array, object, end, field, values, texts}
use chainbind_go.Package.{
  Issuer, Intent, KeyConfirmation, AadContext, Segment, Manifest, Bindings, marshal_manifest,
  marshal_bindings,
}

abbrev pub issuer : Issuer → Value
issuer i = object (texts (("iss", i.iss) ∷ ("kid", i.kid) ∷ []))

abbrev pub intent : Intent → Value
intent i = object (
    texts (
      ("intent_ref", i.intent_ref)
      ∷ ("authority", i.authority)
      ∷ ("constraints_hash", i.constraints_hash)
      ∷ []))

abbrev pub confirmation : KeyConfirmation → Value
confirmation c = object (texts (("kid", c.kid) ∷ ("jkt", c.jkt) ∷ ("method", c.method) ∷ []))

abbrev pub aad_context : AadContext → Value
aad_context a = object (
    texts (
      ("package_id", a.package_id)
      ∷ ("tenant_id", a.tenant_id)
      ∷ ("environment", a.environment)
      ∷ []))

abbrev pub segment : Segment → Value
segment s = object (
    texts (
      ("audience", s.audience)
      ∷ ("kid", s.kid)
      ∷ ("alg", s.alg)
      ∷ ("wrap_alg", s.wrap_alg)
      ∷ ("plain_hash", s.plain_hash)
      ∷ ("cipher_hash", s.cipher_hash)
      ∷ []))

abbrev pub each : {V : Type 0} → (V → Value) → Map V → Fields
each f [] = end
each f ((k, v) ∷ m) = field k (f v) (each f m)

abbrev disclosed : Option (List Value) → Value
disclosed none = null
disclosed (some vs) = array (values vs)

abbrev plain_manifest : Manifest → Value
plain_manifest m = object (
    field "schema" (text m.schema) (
      field "hash_alg" (text m.hash_alg) (
        field "canonicalization" (text m.canonicalization) (
          field "segment_order" (array (values (map text m.segment_order))) (
            field "aad_context" (aad_context m.aad_context) (
              field "segments" (object (each segment m.segments))
                (field "disclosures" (disclosed m.disclosures) end)))))))

pub manifest : Manifest → Value
manifest m = plain_manifest (marshal_manifest m)

-- Marshalling twice is marshalling once.
pub manifest-marshal_manifest : (m : Manifest) → manifest (marshal_manifest m) ≡ manifest m
unfolding manifest marshal_manifest
manifest-marshal_manifest m = refl

unfoldable pub bindings : Bindings → Result Value
bindings b = do m ← marshal_bindings b; ok (object (texts m))
