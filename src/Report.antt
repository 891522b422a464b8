-- ===== src/Report.antt =====
-- Report of pkg/chainbind/verify.go and its verdicts. A nil map is `none`.
pub mod Verdicts
use chainbind_go.Prelude.{
  String, Bool, true, false, not, ◌&&◌, ◌||◌, Option, none, some, List, [], ◌∷◌, length, eqb,
  if◌then◌else◌,
}
use chainbind_go.Prelude.Maps.{Map, or_else}
use chainbind_go.Fault.{StructuralFault, no_fault}

pub record IntentResult : Type 0 where
  pub evaluated : Bool
  pub valid : Bool
  pub reason : String

pub record Report : Type 0 where
  pub spec_version_supported : Bool
  pub structural : StructuralFault
  pub signature : Bool
  pub aad_context_consistent : Bool
  pub cipher_hashes : Option (Map Bool)
  pub segments_root : Bool
  pub profile_bindings : Option (Map Bool)
  pub intent : IntentResult

-- &Report{}
abbrev pub empty_report : Report
empty_report = record {
  spec_version_supported = false;
  structural = no_fault;
  signature = false;
  aad_context_consistent = false;
  cipher_hashes = none;
  segments_root = false;
  profile_bindings = none;
  intent = record { evaluated = false; valid = false; reason = "" };
}

-- `for _, ok := range m { if !ok { return false } }`
abbrev pub all_true : Map Bool → Bool
all_true [] = true
all_true ((k, b) ∷ m) = b && all_true m

abbrev pub is_no_fault : StructuralFault → Bool
is_no_fault no_fault = true
is_no_fault _ = false

unfoldable pub level1_passed : Report → Bool
level1_passed r =
    if not (is_no_fault r.structural)
    then false
    else if not r.spec_version_supported
        || not r.signature
        || not r.aad_context_consistent
        || not r.segments_root
    then false
    else if eqb (length (or_else r.cipher_hashes [])) 0
    then false
    else all_true (or_else r.cipher_hashes []) && all_true (or_else r.profile_bindings [])

-- Report.OK and Report.Level1, on a pointer that may be nil.
unfoldable pub report_ok : Option Report → Bool
report_ok none = false
report_ok (some r) = level1_passed r && r.intent.evaluated && r.intent.valid

unfoldable pub level1 : Option Report → Bool
level1 none = false
level1 (some r) = level1_passed r
