-- ===== src/Bindings.antt =====
-- pkg/chainbind/bindings.go
pub mod Roots
pub mod Commitments
pub mod Specs
use chainbind_go.Prelude.{
  String, Bool, Option, none, some, List, [], ◌∷◌, ◌++◌, map, contains, if◌then◌else◌,
}
use chainbind_go.Prelude.Maps.{Map, lookup, insert, keys}
use Prim.Native.String.{◌++◌ as ◌<>◌}
use chainbind_go.Errors.{Result, ok, err, Error, ◌>>=◌, ◌>>◌}
use chainbind_go.Value.{Bytes, Value, array, object, values, texts}
use chainbind_go.Platform.{Platform}
use chainbind_go.Canonical.{jcs, hash}

pub record SegmentRootEntry : Type 0 where
  pub audience : String
  pub plain_hash : String

abbrev pub entry_value : SegmentRootEntry → Value
entry_value e = object (texts (("audience", e.audience) ∷ ("plain_hash", e.plain_hash) ∷ []))

-- The first loop of SegmentsRoot, over segment_order; `seen` is the set of names met so far.
unfoldable pub root_entries :
    Map String
    → List SegmentRootEntry
    → List String
    → List String
    → Result (List SegmentRootEntry × List String)
root_entries plain_hash entries seen [] = ok (entries, seen)
root_entries plain_hash entries seen (a ∷ order) =
    if contains a seen then err Error.malformed_package else elim (lookup a plain_hash) [
      | none ↦ err Error.malformed_package
      | some ph ↦
          root_entries plain_hash (entries ++ record { audience = a; plain_hash = ph } ∷ [])
            (a ∷ seen) order
    ]

-- Its second loop, over the keys of plainHash.
unfoldable pub all_seen : List String → List String → Result (Unit {0})
all_seen seen [] = ok tt
all_seen seen (a ∷ names) =
    if contains a seen then all_seen seen names else err Error.malformed_package

unfoldable pub segments_root : Platform → List String → Map String → Result String
segments_root pf segment_order plain_hash = do
  (entries, seen) ← root_entries plain_hash [] [] segment_order
  all_seen seen (keys plain_hash)
  canon ← jcs pf (array (values (map entry_value entries)))
  ok (hash pf canon)

-- intentCommitmentInput
abbrev pub commitment_input : String → String → String → Value
commitment_input intent_ref constraints_hash root = object (
    texts (
      ("intent_ref", intent_ref)
      ∷ ("constraints_hash", constraints_hash)
      ∷ ("segments_root", root)
      ∷ []))

unfoldable pub intent_commitment : Platform → String → String → String → Result String
intent_commitment pf intent_ref constraints_hash root = do
  canon ← jcs pf (commitment_input intent_ref constraints_hash root)
  ok ("ctx:" <> hash pf canon)

pub record BindingContext : Type 0 where
  pub plain_hash : Map String
  pub intent_ref : String
  pub constraints_hash : String
  pub segments_root : String

pub record BindingSpec : Type 0 where
  pub name : String
  pub compute : BindingContext → Result String

-- The loop of ComputeBindings.
compute_into : Map String → BindingContext → List BindingSpec → Result (Map String)
compute_into out c [] = ok out
compute_into out c (spec ∷ specs) = do
  v ← spec.compute c
  compute_into (insert spec.name v out) c specs

unfoldable pub compute_bindings : BindingContext → List BindingSpec → Result (Map String)
unfolding compute_into
compute_bindings c specs = compute_into [] c specs
