-- ===== src/Verify/Faults.antt =====
-- The fault that parsePackage names is a fault that the package has.
use chainbind_go.Prelude.{
  String, eq_iff, ◌≡◌, ◌≢◌, inl, inr, subst, sym, ◌∙◌, true, none, some, List, [], ◌∷◌, arith,
  length, contains, eqb, Distinct, Bool-cases, Option-cases,
}
use mathlib.Core.Bool.{false≢true}
use chainbind_go.Prelude.Seen.{Unseen, Unseen-nil, Unseen-cons}
use chainbind_go.Prelude.Maps.{lookup}
use chainbind_go.Errors.{Error, err, Result-cases}
use chainbind_go.Platform.{Platform}
use chainbind_go.Package.{Package}
use chainbind_go.SignView.{reconstruct_signing_view, decode_signature_value, check_signed_fields}
use chainbind_go.SignView.Names.{NamesView, check_signed_fields_iff}
use chainbind_go.Fault.{
  StructuralFault, empty_signed_fields, empty_segment_order, segment_count_mismatch,
  duplicate_audience, manifest_segment_missing, sealed_segment_missing, signed_fields_invalid,
  signing_view_unbuildable, signature_undecodable,
}
use chainbind_go.Verify.{check_segments, parse_signature, parse_package, refused}

module _ (pf : Platform) (p : Package) where
  -- What each fault says of a package. "No fault" and a number that is no fault say nothing.
  abbrev pub Explains : StructuralFault → Type 0
  Explains empty_signed_fields = p.signature.signed_fields ≡ []
  Explains empty_segment_order = p.manifest.segment_order ≡ []
  Explains segment_count_mismatch = length p.manifest.segments ≢ length p.manifest.segment_order
  Explains duplicate_audience = ¬ Distinct p.manifest.segment_order
  Explains manifest_segment_missing =
      (a : String) × (contains a p.manifest.segment_order ≡ true)
      × (lookup a p.manifest.segments ≡ none)
  Explains sealed_segment_missing =
      (a : String) × (contains a p.manifest.segment_order ≡ true) × (lookup a p.segments ≡ none)
  Explains signed_fields_invalid = ¬ NamesView p.signature.signed_fields
  Explains signing_view_unbuildable =
      NamesView p.signature.signed_fields × ((e : Error) × (reconstruct_signing_view pf p ≡ err e))
  Explains signature_undecodable =
      (e : Error) × (decode_signature_value pf p.signature.value ≡ err e)
  Explains _ = ⊥

  -- What has stopped the loop over segment_order.
  abbrev StopsAt : List String → List String → StructuralFault → Type 0
  StopsAt seen order duplicate_audience = ¬ (Distinct order × Unseen seen order)
  StopsAt seen order manifest_segment_missing =
      (a : String) × (contains a order ≡ true) × (lookup a p.manifest.segments ≡ none)
  StopsAt seen order sealed_segment_missing =
      (a : String) × (contains a order ≡ true) × (lookup a p.segments ≡ none)
  StopsAt seen order _ = ⊥

  StopsAt-cons :
      (a : String) (seen order : List String) (f : StructuralFault)
      → StopsAt (a ∷ seen) order f
      → StopsAt seen (a ∷ order) f
  StopsAt-cons a seen order duplicate_audience h =
      λ ((away, d), (u, us)). h (d, Unseen-cons a seen order away us)
  StopsAt-cons a seen order manifest_segment_missing (b, here, missing) = (b, ground arith, missing)
  StopsAt-cons a seen order sealed_segment_missing (b, here, missing) = (b, ground arith, missing)
  StopsAt-cons a seen order _ h = elim h [ ]

  check_segments-StopsAt :
      (seen order : List String) (f : StructuralFault)
      → check_segments p seen order ≡ some f
      → StopsAt seen order f
  unfolding check_segments
  check_segments-StopsAt seen [] f h = absurd (ground arith)
  check_segments-StopsAt seen (a ∷ order) f h = elim (Bool-cases (contains a seen)) [
    | inl dup ↦
        let e : StructuralFault.duplicate_audience ≡ f = ground arith in
        subst (StopsAt seen (a ∷ order)) e (λ (_, (u, _)). false≢true (sym u ∙ dup))
    | inr fresh ↦ elim (Option-cases (lookup a p.manifest.segments)) [
      | inl missing ↦
          let e : StructuralFault.manifest_segment_missing ≡ f = ground arith in
          subst (StopsAt seen (a ∷ order)) e (a, ground (arith, eq_iff a a), missing)
      | inr (m, described) ↦ elim (Option-cases (lookup a p.segments)) [
        | inl missing ↦
            let e : StructuralFault.sealed_segment_missing ≡ f = ground arith in
            subst (StopsAt seen (a ∷ order)) e (a, ground (arith, eq_iff a a), missing)
        | inr (s, sealed) ↦
            StopsAt-cons a seen order f (check_segments-StopsAt (a ∷ seen) order f (ground arith))
      ]
    ]
  ]

  Explains-of_StopsAt : (f : StructuralFault) → StopsAt [] p.manifest.segment_order f → Explains f
  Explains-of_StopsAt duplicate_audience h = λ d. h (d, Unseen-nil p.manifest.segment_order)
  Explains-of_StopsAt manifest_segment_missing h = h
  Explains-of_StopsAt sealed_segment_missing h = h
  Explains-of_StopsAt _ h = elim h [ ]

  parse_signature-Explains : (f : StructuralFault) → parse_signature pf p ≡ refused f → Explains f
  unfolding parse_signature
  parse_signature-Explains f h = elim (Result-cases (check_signed_fields fields)) [
    | inl (e, invalid) ↦
        let named : StructuralFault.signed_fields_invalid ≡ f = ground arith in
        subst Explains named (λ v. cc ((check_signed_fields_iff fields).1 v))
    | inr (u, checked) ↦ elim (Result-cases (reconstruct_signing_view pf p)) [
      | inl (e, unbuildable) ↦
          let named : StructuralFault.signing_view_unbuildable ≡ f = ground arith in
          subst Explains named ((check_signed_fields_iff fields).0 checked, (e, unbuildable))
      | inr (view, viewed) ↦ elim (Result-cases (decode_signature_value pf p.signature.value)) [
        | inl (e, undecodable) ↦
            let named : StructuralFault.signature_undecodable ≡ f = ground arith in
            subst Explains named (e, undecodable)
        | inr (sig, decoded) ↦ absurd (ground arith)
      ]
    ]
  ]
    where
      open p.signature use {signed_fields as fields}

  -- Whatever fault parsePackage refuses with, the package has that fault.
  pub parse_package-Explains : (f : StructuralFault) → parse_package pf p ≡ refused f → Explains f
  unfolding parse_package
  parse_package-Explains f h = elim (Bool-cases (eqb (length p.signature.signed_fields) 0)) [
    | inl nothing ↦
        let named : StructuralFault.empty_signed_fields ≡ f = ground arith in
        subst Explains named (ground arith)
    | inr signed ↦ elim (Bool-cases (eqb (length order) 0)) [
      | inl nobody ↦
          let named : StructuralFault.empty_segment_order ≡ f = ground arith in
          subst Explains named (ground arith)
      | inr somebody ↦ elim (Bool-cases (eqb (length p.manifest.segments) (length order))) [
        | inr differ ↦
            let named : StructuralFault.segment_count_mismatch ≡ f = ground arith in
            subst Explains named (ground arith)
        | inl agree ↦ elim (Option-cases (check_segments p [] order)) [
          | inl passed ↦ parse_signature-Explains f (ground arith)
          | inr (g, stopped) ↦
              let named : g ≡ f = ground arith in
              subst Explains named
                (Explains-of_StopsAt g (check_segments-StopsAt [] order g stopped))
        ]
      ]
    ]
  ]
    where
      open p.manifest use {segment_order as order}
