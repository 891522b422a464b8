-- ===== src/Cli.antt =====
-- cmd/chainbind: the three subcommands, from their parsed flags to an exit code and what they write.
-- The flag package, os.ReadFile and os.WriteFile, the JSON of files, strings.TrimSpace, sort.Strings
-- and the clock are parameters; what goes to stderr is not here.
pub mod Commands
pub mod Exits
use Prim.Native.String.{◌++◌}
use chainbind_go.Prelude.{
  ℕ, String, Bool, true, false, ◌==◌, ◌||◌, ◌&&◌, not, Option, none, some, List, [], ◌∷◌,
  ◌++◌ as ◌<>◌, length, eqb, if◌then◌else◌,
}
use chainbind_go.Prelude.Maps.{Map, lookup, keys, or_else}
use chainbind_go.Errors.{Result, ok, err, Error, or_err, ◌>>=◌}
use chainbind_go.Value.{Bytes, Time}
use chainbind_go.Platform.{Platform}
use chainbind_go.Ports.{Trace, Entropy, IntentVerifier, KeyWrapper}
use chainbind_go.Package.{Package}
use chainbind_go.Fault.{fault_text}
use chainbind_go.Report.{Report, report_ok}
use chainbind_go.Verify.{VerifyOptions, verify}
use chainbind_go.Seal.{Audience, SealRequest, Sealer, seal}
use chainbind_go.Open.{open_package}
use chainbind_go.AgenticCheckout.{
  Payload, payload, profile_name, segment_order, split, project, projection_value, binding_specs,
}
use chainbind_go.Adapters.LocalSigner
use chainbind_go.Adapters.LocalSigner.{Ed25519}
use chainbind_go.Adapters.MockAuthority
use chainbind_go.Adapters.MockAuthority.{Floats, Library}
use chainbind_go.Adapters.HttpAuthority
use chainbind_go.Adapters.HttpAuthority.{Decoders}
use chainbind_go.Adapters.Http.{Net}

-- Lines on stdout, bytes on stdout with a newline at their end, or a file.
pub data Output : Type 0 where
  printed : List String → Output
  to_stdout : Bytes → Output
  to_file : String → Bytes → Output

pub record AudienceEntry : Type 0 where
  pub name : String
  pub kid : String
  pub public_key : String

pub record System : Type 0 where
  pub read_file : String → Option Bytes
  -- whether a write succeeds
  pub writes : Output → Bool
  -- the text of a file, trimmed
  pub trimmed : Bytes → String
  pub trim_space : String → String
  pub sorted : List String → List String
  pub decode_package : Bytes → Option Package
  pub decode_payload : Bytes → Option Payload
  pub decode_audiences : Bytes → Option (List AudienceEntry)
  pub indent_package : Package → Option Bytes
  pub indent_report : Report → Option Bytes
  pub new_key_from_seed : Bytes → Bytes
  pub now : Trace → Time

-- What the two authorities need of their surroundings.
pub record Surroundings : Type 1 where
  pub floats : Floats
  pub library : Library (floats.Float)
  pub decoders : Decoders
  pub net : Net

pub record Outcome : Type 0 where
  pub exit : ℕ
  pub output : List Output

abbrev pub exit_ok : ℕ
exit_ok = 0

abbrev pub exit_operational : ℕ
exit_operational = 1

abbrev pub exit_usage : ℕ
exit_usage = 2

abbrev pub exit_negative : ℕ
exit_negative = 3

abbrev pub stop : ℕ → Outcome
stop code = record { exit = code; output = [] }

-- writeOutput, and the exit code of its caller.
unfoldable pub write_output : System → String → Bytes → ℕ → Outcome
write_output sys path content code =
    let out : Output = if path == "" then to_stdout content else to_file path content in
    if sys.writes out then record { exit = code; output = out ∷ [] } else stop exit_operational

unfoldable pub read_key_bytes : Platform → System → String → Result Bytes
read_key_bytes pf sys path = do
  raw ← or_err (Error.foreign "read key file") (sys.read_file path)
  or_err (Error.foreign "decode key file") (pf.base64url_decode (sys.trimmed raw))

-- The keys of all three files are of 32 bytes.
unfoldable pub load_key : Platform → System → String → Result Bytes
load_key pf sys path = do
  b ← read_key_bytes pf sys path
  if not (eqb (length b) 32) then err Error.key_file_length else ok b

unfoldable pub load_issuer_signing_key : Platform → System → String → Result Bytes
load_issuer_signing_key pf sys path = do b ← load_key pf sys path; ok (sys.new_key_from_seed b)

unfoldable pub load_audience_entry : Platform → System → AudienceEntry → Result Audience
load_audience_entry pf sys e = elim (pf.base64url_decode (sys.trim_space e.public_key)) [
  | none ↦ err (Error.audience_encoding e.name)
  | some key ↦
      if not (eqb (length key) 32)
      then err (Error.audience_key_size e.name)
      else ok (record { name = e.name; public_key = key; kid = e.kid })
]

unfoldable pub load_entries : Platform → System → List AudienceEntry → Result (List Audience)
load_entries pf sys [] = ok []
load_entries pf sys (e ∷ entries) = do
  aud ← load_audience_entry pf sys e
  auds ← load_entries pf sys entries
  ok (aud ∷ auds)

-- loadAudiences and toChainbindAudiences.
unfoldable pub load_audiences : Platform → System → String → Result (List Audience)
load_audiences pf sys path = do
  raw ← or_err (Error.foreign "read audiences file") (sys.read_file path)
  entries ← or_err (Error.foreign "parse audiences file") (sys.decode_audiences raw)
  load_entries pf sys entries

unfoldable pub resolve_authority :
    Platform → Surroundings → String → String → Result (Option IntentVerifier)
resolve_authority pf env seed_dir authority_url =
    if not (seed_dir == "") && not (authority_url == "")
    then err Error.both_authority_flags
    else if not (seed_dir == "")
    then (MockAuthority.new env.floats env.library seed_dir >>= λ v.
        ok (some (MockAuthority.port env.floats pf env.library (λ t. none) (λ t. v))))
    else if not (authority_url == "")
    then ok
        (some (HttpAuthority.port pf env.decoders (HttpAuthority.new authority_url none env.net)))
    else ok none

unfoldable pub authority_label : String → String → String
authority_label seed_dir authority_url =
    if not (authority_url == "")
    then authority_url
    else if not (seed_dir == "")
    then "seed:" ++ seed_dir
    else ""

unfoldable pub read_package : System → String → Result Package
read_package sys path = do
  raw ← or_err (Error.foreign "read package") (sys.read_file path)
  or_err (Error.foreign "parse package") (sys.decode_package raw)

unfoldable pub read_payload : System → String → Result Payload
read_payload sys path = do
  raw ← or_err (Error.foreign "read payload") (sys.read_file path)
  or_err (Error.foreign "parse payload") (sys.decode_payload raw)
