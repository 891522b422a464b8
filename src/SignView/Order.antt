-- ===== src/SignView/Order.antt =====
-- The signing view does not depend on the order in which signed_fields names its members.
use chainbind_go.Prelude.{String, ◌==◌, Bool-cases, inl, inr, ◌≡◌, some, arith, List, [], ◌∷◌}
use chainbind_go.Prelude.Maps.{Map, lookup}
use chainbind_go.Errors.{Result, ok, err, Error}
use chainbind_go.Value.{Value}
use chainbind_go.Platform.{Platform}
use chainbind_go.Canonical.{SortsMembers}
use chainbind_go.Package.{Package, marshal_bindings}
use chainbind_go.Package.View
use chainbind_go.SignView.{
  required_signed_fields, signing_view_fields, select_fields, build_signing_view,
  check_signed_fields, reconstruct_signing_view,
}
use chainbind_go.SignView.Names.{check_signed_fields_iff}
use chainbind_go.SignView.Members.{lookup-select_fields, select_fields-IsMap, encode_view-Same}

-- Every member that fails does so as `r` does.
abbrev FailsAs : Result Value → Map (Result Value) → Type 0
FailsAs r [] = Unit
FailsAs r ((k, x) ∷ m) = ((e : Error) → x ≡ err e → r ≡ err e) × FailsAs r m

lookup-FailsAs :
    (r : Result Value) (m : Map (Result Value)) (k : String) (e : Error)
    → FailsAs r m
    → lookup k m ≡ some (err e)
    → r ≡ err e
lookup-FailsAs r [] k e f h = cc
lookup-FailsAs r ((j, x) ∷ m) k e (f, fs) h = elim (Bool-cases (k == j)) [
  | inl same ↦ f e (ground arith)
  | inr other ↦ lookup-FailsAs r m k e fs (ground arith)
]

never :
    (r : Result Value) (v : Value) (e : Error) → ◌≡◌ {A = Result Value} (ok v) (err e) → r ≡ err e
never r v e h = cc

-- The only member of the view whose own encoding can fail is `bindings`.
view_FailsAs : (p : Package) → FailsAs (View.bindings p.bindings) (signing_view_fields p)
unfolding signing_view_fields
view_FailsAs p =
    let r = View.bindings p.bindings in
    (
      never r _,
      (
        never r _,
        (
          never r _,
          (never r _, (never r _, (never r _, (never r _, ((λ e h. h), (never r _, tt)))))),
        ),
      ),
    )

binding_failure :
    (p : Package) (e : Error) → View.bindings p.bindings ≡ err e → e ≡ Error.binding_collision
unfolding View.bindings marshal_bindings
binding_failure p e h = ground arith

view_failures :
    (p : Package) (names : List String) (k : String) (e : Error)
    → lookup k (select_fields (signing_view_fields p) names) ≡ some (err e)
    → e ≡ Error.binding_collision
view_failures p names k e h =
    let view = signing_view_fields p in
    binding_failure p e (
      lookup-FailsAs (View.bindings p.bindings) view k e (view_FailsAs p)
        (ground (arith, lookup-select_fields view k names)))

-- Where canonical JSON sorts the members of an object and signed_fields passes its check, the view
-- that a verifier reconstructs is the view that the issuer built, or fails as it does, whatever
-- the order of the names.
pub reconstruct-eq-build :
    {pf : Platform} (sorts : SortsMembers pf) (p : Package)
    → check_signed_fields p.signature.signed_fields ≡ ok tt
    → reconstruct_signing_view pf p ≡ build_signing_view pf p
unfolding reconstruct_signing_view build_signing_view
reconstruct-eq-build {pf} sorts p checked =
    let names = p.signature.signed_fields in
    let view = signing_view_fields p in
    let v = (check_signed_fields_iff names).0 checked in
    rw checked (
      encode_view-Same sorts Error.binding_collision (select_fields view names)
        (select_fields view required_signed_fields) (select_fields-IsMap view names)
        (select_fields-IsMap view required_signed_fields)
        (λ k. ground (
          arith,
          lookup-select_fields view k names,
          lookup-select_fields view k required_signed_fields,
          v.exact k,
        ))
        (view_failures p names))
