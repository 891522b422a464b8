-- ===== src/Cli/Commands.antt =====
-- The three subcommands themselves.
use Prim.Native.String.{◌++◌}
use chainbind_go.Prelude.{
  String, Bool, true, false, ◌==◌, ◌||◌, not, Option, none, some, List, [], ◌∷◌, ◌++◌ as ◌<>◌,
  if◌then◌else◌,
}
use chainbind_go.Prelude.Maps.{Map, lookup, keys, or_else}
use chainbind_go.Errors.{Result, ok, err, Error, or_err, ◌>>=◌}
use chainbind_go.Value.{Bytes, Slice, contents}
use chainbind_go.Platform.{Platform}
use chainbind_go.Ports.{Trace, Entropy, IntentVerifier, KeyWrapper}
use chainbind_go.Fault.{fault_text}
use chainbind_go.Report.{Report, report_ok}
use chainbind_go.Verify.{VerifyOptions, verify}
use chainbind_go.Seal.{seal}
use chainbind_go.Open.{open_package}
use chainbind_go.AgenticCheckout.{
  payload, profile_name, segment_order, split, project, projection_value, binding_specs,
}
use chainbind_go.Adapters.LocalSigner
use chainbind_go.Adapters.LocalSigner.{Ed25519}
use chainbind_go.Cli.{
  System, Surroundings, Outcome, exit_ok, exit_operational, exit_usage, exit_negative, stop,
  write_output, load_key, load_issuer_signing_key, load_audiences, resolve_authority,
  authority_label, read_package, read_payload, printed, to_stdout,
}

-- %t
abbrev pub show_bool : Bool → String
show_bool true = "true"
show_bool false = "false"

unfoldable pub entry_lines : String → Map Bool → List String → List String
entry_lines label m [] = []
entry_lines label m (name ∷ names) =
    (label ++ "[" ++ name ++ "]: " ++ show_bool (or_else (lookup name m) false))
    ∷ entry_lines label m names

-- The end of printReportHuman.
unfoldable pub verdict_lines : Report → List String
verdict_lines r =
    let intent =
      if r.intent.evaluated
      then "intent: evaluated, valid=" ++ show_bool r.intent.valid
      else "intent: NOT EVALUATED — no reachable intent authority was consulted, so this package's binding to its authorization has not been checked" in
    let result = if report_ok (some r) then "result: PASS" else "result: FAIL" in
    if not (r.intent.reason == "")
    then intent ∷ ("intent_reason: " ++ r.intent.reason) ∷ result ∷ []
    else intent ∷ result ∷ []

-- printReportHuman, a line each.
unfoldable pub report_lines : System → Report → List String
report_lines sys r =
    let ciphers = or_else r.cipher_hashes [] in
    let bindings = or_else r.profile_bindings [] in
    ("structural: " ++ fault_text r.structural)
    ∷ ("spec_version_supported: " ++ show_bool r.spec_version_supported)
    ∷ ("signature: " ++ show_bool r.signature)
    ∷ ("aad_context_consistent: " ++ show_bool r.aad_context_consistent)
    ∷ ("segments_root: " ++ show_bool r.segments_root)
    ∷ (entry_lines "cipher_hash" ciphers (sys.sorted (keys ciphers))
        <> (entry_lines "binding" bindings (sys.sorted (keys bindings)) <> verdict_lines r))

pub record VerifyFlags : Type 0 where
  pub package_path : String
  pub issuer_key : String
  pub authority_seed_dir : String
  pub authority_url : String
  pub json : Bool

-- Errors of code after the flags are operational.
abbrev pub or_operational : Result Outcome → Outcome
or_operational (ok out) = out
or_operational (err e) = stop exit_operational

-- The printing of a report, and the exit code.
unfoldable pub print_report : System → VerifyFlags → Report → Outcome
print_report sys flags report =
    let code = if not (report_ok (some report)) then exit_negative else exit_ok in
    if flags.json
    then elim (sys.indent_report report) [
      | none ↦ stop exit_operational
      | some content ↦
          if sys.writes (to_stdout content)
          then record { exit = code; output = to_stdout content ∷ [] }
          else stop exit_operational
    ]
    else record { exit = code; output = printed (report_lines sys report) ∷ [] }

-- The issuer key is trusted whatever the package says of its issuer.
abbrev pub cli_options : Platform → Bytes → Option IntentVerifier → VerifyOptions
cli_options pf key iv = record {
  issuer_key = some (λ iss kid. some key);
  intent = iv;
  binding_specs = binding_specs pf;
}

unfoldable pub verify_files :
    Platform → System → VerifyFlags → Option IntentVerifier → Trace → Result Outcome
verify_files pf sys flags iv t = do
  key ← load_key pf sys flags.issuer_key
  p ← read_package sys flags.package_path
  report ← (verify pf (some p) (cli_options pf key iv) t).0
  ok (print_report sys flags report)

-- No flags: the flag package has refused them.
unfoldable pub run_verify : Platform → System → Surroundings → Option VerifyFlags → Trace → Outcome
run_verify pf sys env none t = stop exit_usage
run_verify pf sys env (some flags) t =
    if flags.package_path == "" || flags.issuer_key == ""
    then stop exit_usage
    else elim (resolve_authority pf env flags.authority_seed_dir flags.authority_url) [
      | err e ↦ stop exit_usage
      | ok iv ↦ or_operational (verify_files pf sys flags iv t)
    ]

pub record OpenFlags : Type 0 where
  pub package_path : String
  pub key : String
  pub issuer_key : String
  pub out : String

-- What runOpen does with the answer of Open.
unfoldable pub report_opened : System → OpenFlags → Result (String × Slice) → Outcome
report_opened sys flags (err e) = stop exit_negative
report_opened sys flags (ok (audience, plaintext)) =
    write_output sys flags.out (contents plaintext) exit_ok

unfoldable pub open_files : Platform → System → KeyWrapper → OpenFlags → Trace → Result Outcome
open_files pf sys w flags t = do
  priv ← load_key pf sys flags.key
  key ← load_key pf sys flags.issuer_key
  p ← read_package sys flags.package_path
  ok (report_opened sys flags (open_package pf (some p) priv w (cli_options pf key none) t).0)

unfoldable pub run_open : Platform → System → KeyWrapper → Option OpenFlags → Trace → Outcome
run_open pf sys w none t = stop exit_usage
run_open pf sys w (some flags) t =
    if flags.package_path == "" || flags.key == "" || flags.issuer_key == ""
    then stop exit_usage
    else or_operational (open_files pf sys w flags t)

pub record SealFlags : Type 0 where
  pub payload : String
  pub audiences : String
  pub intent_ref : String
  pub signing_key : String
  pub issuer : String
  pub kid : String
  pub tenant : String
  pub environment : String
  pub authority_seed_dir : String
  pub authority_url : String
  pub out : String

unfoldable pub seal_files :
    Platform
    → System
    → Entropy
    → Ed25519
    → KeyWrapper
    → SealFlags
    → IntentVerifier
    → Trace
    → Result Outcome
seal_files pf sys rand ed w flags iv t = do
  priv ← load_issuer_signing_key pf sys flags.signing_key
  audiences ← load_audiences pf sys flags.audiences
  p ← read_payload sys flags.payload
  segments ← split pf (payload p)
  projection ← project (payload p)
  signer ← LocalSigner.new priv flags.kid
  sealed ←
      (seal pf
        (record {
          rand = rand;
          signer = LocalSigner.port ed (λ u. none) signer;
          wrapper = w;
          verifier = iv;
        })
        (record {
          segments = segments;
          segment_order = segment_order;
          audiences = audiences;
          intent_ref = flags.intent_ref;
          authority = authority_label flags.authority_seed_dir flags.authority_url;
          projection = projection_value projection;
          issuer = flags.issuer;
          issued_at = sys.now t;
          tenant_id = flags.tenant;
          environment = flags.environment;
          profile = profile_name;
          binding_specs = binding_specs pf;
        })
        t).0
  raw ← or_err (Error.foreign "encode package") (sys.indent_package sealed)
  ok (write_output sys flags.out raw exit_ok)

unfoldable pub run_seal :
    Platform
    → System
    → Surroundings
    → Entropy
    → Ed25519
    → KeyWrapper
    → Option SealFlags
    → Trace
    → Outcome
run_seal pf sys env rand ed w none t = stop exit_usage
run_seal pf sys env rand ed w (some flags) t =
    if flags.payload == ""
      || flags.audiences == ""
      || flags.intent_ref == ""
      || flags.signing_key == ""
      || flags.issuer == ""
      || flags.kid == ""
    then stop exit_usage
    else elim (resolve_authority pf env flags.authority_seed_dir flags.authority_url) [
      | err e ↦ stop exit_usage
      | ok none ↦ stop exit_usage
      | ok (some iv) ↦ or_operational (seal_files pf sys rand ed w flags iv t)
    ]
