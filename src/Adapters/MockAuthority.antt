-- ===== src/Adapters/MockAuthority.antt =====
-- internal/adapters/intent/mock/verifier.go: an authority that answers from seeded documents. The
-- lock makes every method one step, so that a history is a sequence of whole calls. What the
-- standard library does (directories and files, encoding/json on the package's own types, the
-- verbs of fmt, the comparisons of float64) is a parameter.
pub mod Rules
pub mod Decision
pub mod History
pub mod Seeds
use Prim.Native.String.{◌++◌}
use chainbind_go.Prelude.{
  ℕ, suc, ◌+◌, String, Bool, true, false, ◌==◌, ◌≡◌, not, ◌||◌, Option, none, some, List, [], ◌∷◌,
  if◌then◌else◌,
}
use chainbind_go.Prelude.Integers.{ℤ}
use chainbind_go.Prelude.Maps.{Map, lookup, insert, is_some}
use chainbind_go.Errors.{Result, ok, err, Error, or_err, ◌>>=◌, ◌>>◌}
use chainbind_go.Value.{Bytes, Value}
use chainbind_go.Platform.{Platform}
use chainbind_go.Canonical.{hash}
use chainbind_go.Ports
use chainbind_go.Ports.{Trace, IntentDecision}
use chainbind_go.Adapters.{Context, live}

-- float64, with its comparisons.
pub record Floats : Type 1 where
  pub Float : Type 0
  pub equal : Float → Float → Bool
  pub greater : Float → Float → Bool
  pub less : Float → Float → Bool

-- What encoding/json decodes into an `any`. The elements of an array or an object are not looked at.
pub data Any (F : Type 0) : Type 0 where
  null : Any F
  bool : Bool → Any F
  number : F → Any F
  text : String → Any F
  array : Bytes → Any F
  object : Bytes → Any F

pub record Rule (F : Type 0) : Type 0 where
  pub equals : List (Any F)
  pub max : Option F
  pub min : Option F

pub record Constraints (F : Type 0) : Type 0 where
  pub version : ℤ
  pub rules : Map (Rule F)

pub record SeedDoc (F : Type 0) : Type 0 where
  pub ref : String
  pub constraints : Constraints F

pub record Authorization (F : Type 0) : Type 0 where
  pub doc : Constraints F
  pub consumed : ℕ

pub record DirEntry : Type 0 where
  pub name : String
  pub is_dir : Bool

-- os.ReadDir, filepath.Ext, os.ReadFile by the name in the directory; json.Unmarshal into a seed
-- document and into a map; json.Marshal of a document; the verbs %q and %v.
pub record Library (F : Type 0) : Type 0 where
  pub read_dir : String → Option (List DirEntry)
  pub ext : String → String
  pub read_file : String → String → Option Bytes
  pub decode_seed : Bytes → Option (SeedDoc F)
  pub decode_fields : Bytes → Option (Map (Any F))
  pub marshal_doc : Constraints F → Option Bytes
  pub quote : String → String
  pub show : Any F → String

-- The verdict on one value: the reason of a failure, or a panic of `==`.
pub data Evaluation : Type 0 where
  satisfied : Evaluation
  failed : String → Evaluation
  panics : Evaluation

module _ (fl : Floats) where
  -- `allowed == val` on two interfaces: none is the panic on a type that cannot be compared.
  unfoldable pub same_any : Any fl.Float → Any fl.Float → Option Bool
  same_any null null = some true
  same_any (bool a) (bool b) = some (if a then b else not b)
  same_any (number a) (number b) = some (fl.equal a b)
  same_any (text a) (text b) = some (a == b)
  same_any (array a) (array b) = none
  same_any (object a) (object b) = none
  same_any a b = some false

  -- The loop over rule.Equals.
  unfoldable pub evaluate_equals : String → Any fl.Float → List (Any fl.Float) → Evaluation
  evaluate_equals reason val [] = failed reason
  evaluate_equals reason val (allowed ∷ rest) =
      let later = evaluate_equals reason val rest in
      elim (same_any allowed val) [ none ↦ panics | some same ↦ if same then satisfied else later ]

  -- `bound != nil && cmp(num, *bound)`
  abbrev pub beyond : (fl.Float → fl.Float → Bool) → fl.Float → Option fl.Float → Bool
  beyond cmp num none = false
  beyond cmp num (some bound) = cmp num bound

  abbrev pub show_bound : Library fl.Float → Option fl.Float → String
  show_bound lib none = ""
  show_bound lib (some bound) = lib.show (number bound)

  unfoldable pub evaluate_bounds :
      Library fl.Float → Rule fl.Float → String → Any fl.Float → Evaluation
  evaluate_bounds lib rule field val = elim val [
    | number num ↦
        let shown = lib.show (number num) in
        if beyond fl.greater num rule.max
        then failed (
            "field "
            ++ lib.quote field
            ++ ": value "
            ++ shown
            ++ " exceeds maximum "
            ++ show_bound lib rule.max)
        else if beyond fl.less num rule.min
        then failed (
            "field "
            ++ lib.quote field
            ++ ": value "
            ++ shown
            ++ " is below minimum "
            ++ show_bound lib rule.min)
        else satisfied
    | _ ↦ failed ("field " ++ lib.quote field ++ ": expected a numeric value")
  ]

  unfoldable pub evaluate : Library fl.Float → Rule fl.Float → String → Any fl.Float → Evaluation
  evaluate lib rule field val = elim rule.equals [
    | allowed ∷ rest ↦
        evaluate_equals
          ("field "
            ++ lib.quote field
            ++ ": value "
            ++ lib.show val
            ++ " is not in the allowed set")
          val (allowed ∷ rest)
    | [] ↦
        if is_some rule.max || is_some rule.min
        then evaluate_bounds lib rule field val
        else satisfied
  ]

  -- Verifier: its authorizations by intent_ref.
  abbrev pub Verifier : Type 0
  Verifier = Map (Authorization fl.Float)

  -- Whether a directory entry is a seed file.
  abbrev pub is_seed : Library fl.Float → DirEntry → Bool
  is_seed lib entry = not (entry.is_dir || not (lib.ext entry.name == ".json"))

  unfoldable pub load_file : Library fl.Float → String → DirEntry → Verifier → Result Verifier
  load_file lib dir entry auths = do
    raw ← or_err (Error.foreign "read seed file") (lib.read_file dir entry.name)
    doc ← or_err (Error.foreign "parse seed file") (lib.decode_seed raw)
    if doc.ref == ""
        then err Error.unknown_intent_ref
        else if is_some (lookup doc.ref auths)
        then err Error.duplicate_intent_ref
        else ok (insert doc.ref (record { doc = doc.constraints; consumed = 0 }) auths)

  -- The loop of New over the entries of the directory.
  unfoldable pub load_files : Library fl.Float → String → List DirEntry → Verifier → Result Verifier
  load_files lib dir [] auths = ok auths
  load_files lib dir (entry ∷ entries) auths =
      if not (is_seed lib entry)
      then load_files lib dir entries auths
      else do next ← load_file lib dir entry auths; load_files lib dir entries next

  unfoldable pub new : Library fl.Float → String → Result Verifier
  new lib dir = do
    entries ← or_err (Error.foreign "read seed dir") (lib.read_dir dir)
    load_files lib dir entries []

  unfoldable pub lookup_doc : Verifier → String → Result (Constraints fl.Float)
  lookup_doc v intent_ref = elim (lookup intent_ref v) [
    | none ↦ err Error.unknown_intent_ref
    | some auth ↦ ok auth.doc
  ]

  unfoldable pub record_use : Verifier → String → Verifier
  record_use v intent_ref = elim (lookup intent_ref v) [
    | none ↦ v
    | some auth ↦ insert intent_ref (record auth { consumed = auth.consumed + 1 }) v
  ]

  -- json.Unmarshal decodes into an empty map.
  unfoldable pub projection_fields :
      Platform → Library fl.Float → Value → Result (Map (Any fl.Float))
  projection_fields pf lib projection = do
    raw ← or_err (Error.foreign "encode projection") (pf.json_marshal projection)
    or_err (Error.foreign "decode projection") (lib.decode_fields raw)

  abbrev pub denied : String → IntentDecision
  denied reason = record { allowed = false; reason = reason }

  abbrev pub granted : IntentDecision
  granted = record { allowed = true; reason = "" }

  -- The loop of Check over doc.Rules, in whatever order Go takes them.
  unfoldable pub check_rules :
      Library fl.Float → Map (Any fl.Float) → Map (Rule fl.Float) → Result IntentDecision
  check_rules lib fields [] = ok granted
  check_rules lib fields ((field, rule) ∷ rules) =
      let later = check_rules lib fields rules in
      elim (lookup field fields) [
        | none ↦ ok (denied ("required field " ++ lib.quote field ++ " not present in projection"))
        | some val ↦ elim (evaluate lib rule field val) [
          | failed reason ↦ ok (denied reason)
          | panics ↦ err Error.panicked
          | satisfied ↦ later
        ]
      ]

  unfoldable pub check :
      Platform
      → Library fl.Float
      → Context
      → Verifier
      → String
      → Value
      → Trace
      → Result IntentDecision
  check pf lib ctx v intent_ref projection t = do
    live ctx t
    doc ← lookup_doc v intent_ref
    fields ← projection_fields pf lib projection
    check_rules lib fields doc.rules

  -- H of the canonical text of the document; chainbind.JCS is given the document itself.
  unfoldable pub hash_constraints :
      Platform → Library fl.Float → Constraints fl.Float → Result String
  hash_constraints pf lib doc = do
    raw ← or_err (Error.foreign "jcs marshal") (lib.marshal_doc doc)
    canon ← or_err (Error.foreign "jcs transform") (pf.jcs_transform raw)
    ok (hash pf canon)

  unfoldable pub constraints_hash :
      Platform → Library fl.Float → Context → Verifier → String → Trace → Result String
  constraints_hash pf lib ctx v intent_ref t = do
    live ctx t
    doc ← lookup_doc v intent_ref
    hash_constraints pf lib doc

  unfoldable pub ping : Context → Trace → Result (Unit {0})
  ping ctx t = live ctx t

  -- The authority as the port that the core calls; its memory may have changed between two calls.
  abbrev pub port :
      Platform → Library fl.Float → Context → (Trace → Verifier) → Ports.IntentVerifier
  port pf lib ctx memory = record {
    check = λ intent_ref projection t. check pf lib ctx (memory t) intent_ref projection t;
    constraints_hash = λ intent_ref t. constraints_hash pf lib ctx (memory t) intent_ref t;
  }
