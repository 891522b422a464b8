-- ===== src/SignView.antt =====
-- pkg/chainbind/signview.go: the bytes that the issuer signs. A value whose own MarshalJSON fails is
-- a `Result`; the failure surfaces when the view is encoded, as in encoding/json.
pub mod Names
pub mod Members
pub mod Order
use chainbind_go.Prelude.{ℕ, String, Bool, List, [], ◌∷◌, length, contains, eqb, if◌then◌else◌}
use chainbind_go.Prelude.Maps.{Map, lookup, insert, or_else}
use chainbind_go.Errors.{Result, ok, err, Error, or_err, ◌>>=◌, ◌>>◌}
use chainbind_go.Value.{Bytes, Value, null, text, time, object, fields}
use chainbind_go.Platform.{Platform}
use chainbind_go.Canonical.{jcs}
use chainbind_go.Package.{Package}
use chainbind_go.Package.View

abbrev pub required_signed_fields : List String
required_signed_fields =
    "spec_version" ∷ "profile" ∷ "package_id" ∷ "issued_at" ∷ "issuer" ∷ "intent" ∷ "cnf"
    ∷ "bindings" ∷ "manifest" ∷ []

unfoldable pub signing_view_fields : Package → Map (Result Value)
signing_view_fields p =
    ("spec_version", ok (text p.spec_version))
    ∷ ("profile", ok (text p.profile))
    ∷ ("package_id", ok (text p.package_id))
    ∷ ("issued_at", ok (time p.issued_at))
    ∷ ("issuer", ok (View.issuer p.issuer))
    ∷ ("intent", ok (View.intent p.intent))
    ∷ ("cnf", ok (object (View.each View.confirmation p.cnf)))
    ∷ ("bindings", View.bindings p.bindings)
    ∷ ("manifest", ok (View.manifest p.manifest))
    ∷ []

-- The loop of selectFields; a name that is not there selects a nil value.
unfoldable pub select_into :
    Map (Result Value) → Map (Result Value) → List String → Map (Result Value)
select_into out view [] = out
select_into out view (n ∷ names) =
    select_into (insert n (or_else (lookup n view) (ok null)) out) view names

unfoldable pub select_fields : Map (Result Value) → List String → Map (Result Value)
unfolding select_into
select_fields view names = select_into [] view names

-- The members of the view as encoding/json meets them: one that cannot be encoded fails the whole.
unfoldable pub members : Map (Result Value) → Result (Map Value)
members [] = ok []
members ((k, r) ∷ m) = do v ← r; rest ← members m; ok ((k, v) ∷ rest)

-- JCS of a selected view.
abbrev pub encode_view : Platform → Map (Result Value) → Result Bytes
encode_view pf view = do m ← members view; jcs pf (object (fields m))

unfoldable pub build_signing_view : Platform → Package → Result Bytes
build_signing_view pf p =
    encode_view pf (select_fields (signing_view_fields p) required_signed_fields)

-- The loop of checkSignedFields.
unfoldable pub check_names : List String → List String → Result (Unit {0})
check_names seen [] = ok tt
check_names seen (n ∷ names) =
    if contains n required_signed_fields
    then if contains n seen then err Error.malformed_package else check_names (n ∷ seen) names
    else err Error.malformed_package

unfoldable pub check_signed_fields : List String → Result (Unit {0})
unfolding check_names
check_signed_fields names =
    if eqb (length names) (length required_signed_fields)
    then check_names [] names
    else err Error.malformed_package

unfoldable pub reconstruct_signing_view : Platform → Package → Result Bytes
reconstruct_signing_view pf p = do
  check_signed_fields p.signature.signed_fields
  encode_view pf (select_fields (signing_view_fields p) p.signature.signed_fields)

unfoldable pub encode_signature_value : Platform → Bytes → String
encode_signature_value pf sig = pf.base64url sig

unfoldable pub decode_signature_value : Platform → String → Result Bytes
decode_signature_value pf s =
    or_err (Error.foreign "decode signature value") (pf.base64url_decode s)
