-- ===== src/Fault.antt =====
-- StructuralFault of pkg/chainbind/verify.go: the closed set of reasons why a package does not
-- parse, and its text on the wire. `other` is a value of the uint8 that names no fault.
use chainbind_go.Prelude.{
  ℕ, String, ◌==◌, eq_iff, ◌≡◌, refl, ◌↔◌, inl, inr, false, List, [], ◌∷◌, arith, All, Bool-cases,
  if◌then◌else◌,
}
use chainbind_go.Errors.{Result, ok, err, Error}

pub data StructuralFault : Type 0 where
  no_fault empty_signed_fields empty_segment_order segment_count_mismatch : StructuralFault
  duplicate_audience manifest_segment_missing sealed_segment_missing : StructuralFault
  signed_fields_invalid signing_view_unbuildable signature_undecodable : StructuralFault
  other : ℕ → StructuralFault

-- StructuralFault.String, which MarshalJSON writes as a JSON text.
unfoldable pub fault_text : StructuralFault → String
fault_text no_fault = "no structural fault"
fault_text empty_signed_fields = "signature.signed_fields is empty"
fault_text empty_segment_order = "manifest.segment_order is empty"
fault_text segment_count_mismatch = "manifest.segments count does not match segment_order count"
fault_text duplicate_audience = "an audience is listed twice in segment_order"
fault_text manifest_segment_missing = "an audience in segment_order has no manifest.segments entry"
fault_text sealed_segment_missing = "an audience in segment_order has no sealed segments entry"
fault_text signed_fields_invalid = "signature.signed_fields does not name the required fields"
fault_text signing_view_unbuildable = "the signing view could not be canonicalized"
fault_text signature_undecodable = "signature value could not be decoded"
fault_text (other n) = "unknown structural fault"

-- The values from FaultNone to FaultSignatureUndecodable, in the order of the iota block.
abbrev pub declared_faults : List StructuralFault
declared_faults =
    no_fault ∷ empty_signed_fields ∷ empty_segment_order ∷ segment_count_mismatch
    ∷ duplicate_audience ∷ manifest_segment_missing ∷ sealed_segment_missing ∷ signed_fields_invalid
    ∷ signing_view_unbuildable ∷ signature_undecodable ∷ []

find_fault : String → List StructuralFault → Result StructuralFault
find_fault s [] = err Error.unrecognised_fault
find_fault s (v ∷ vs) = if fault_text v == s then ok v else find_fault s vs

-- StructuralFault.UnmarshalJSON, from the text that json.Unmarshal has decoded.
unfoldable pub unmarshal_fault : String → Result StructuralFault
unfolding find_fault fault_text
unmarshal_fault s = find_fault s declared_faults

abbrev pub IsDeclared : StructuralFault → Type 0
IsDeclared (other n) = ⊥
IsDeclared _ = Unit

find_fault-text :
    (s : String) (vs : List StructuralFault) (f : StructuralFault)
    → find_fault s vs ≡ ok f
    → fault_text f ≡ s
unfolding find_fault
find_fault-text s [] f h = cc
find_fault-text s (v ∷ vs) f h = elim (Bool-cases (fault_text v == s)) [
  | inl same ↦ ground (arith, eq_iff (fault_text v) s)
  | inr differ ↦ find_fault-text s vs f (ground arith)
]

unmarshal-text : (f : StructuralFault) → IsDeclared f → unmarshal_fault (fault_text f) ≡ ok f
unfolding unmarshal_fault
unmarshal-text no_fault d = refl
unmarshal-text empty_signed_fields d = refl
unmarshal-text empty_segment_order d = refl
unmarshal-text segment_count_mismatch d = refl
unmarshal-text duplicate_audience d = refl
unmarshal-text manifest_segment_missing d = refl
unmarshal-text sealed_segment_missing d = refl
unmarshal-text signed_fields_invalid d = refl
unmarshal-text signing_view_unbuildable d = refl
unmarshal-text signature_undecodable d = refl
unmarshal-text (other n) d = elim d [ ]

-- A text decodes to a declared fault exactly when it is the text of that fault.
pub unmarshal_fault_iff :
    (s : String) (f : StructuralFault)
    → IsDeclared f
    → (unmarshal_fault s ≡ ok f) ↔ (fault_text f ≡ s)
unmarshal_fault_iff s f d = (
  λ h. unfold unmarshal_fault in find_fault-text s declared_faults f h,
  λ e. rw (← e) (unmarshal-text f d),
)

find_fault_unknown :
    (s : String) (vs : List StructuralFault)
    → All (λ f. (fault_text f == s) ≡ false) vs
    → find_fault s vs ≡ err Error.unrecognised_fault
unfolding find_fault
find_fault_unknown s [] h = refl
find_fault_unknown s (v ∷ vs) (differs, h) = rw differs (find_fault_unknown s vs h)

-- A text that is no declared fault's own text is an error, and is not read as "no fault".
pub unmarshal_fault_unknown :
    (s : String)
    → All (λ f. (fault_text f == s) ≡ false) declared_faults
    → unmarshal_fault s ≡ err Error.unrecognised_fault
unmarshal_fault_unknown s h =
    let e = find_fault_unknown s declared_faults h in unfold unmarshal_fault in e
