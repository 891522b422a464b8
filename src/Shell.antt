-- ===== src/Shell.antt =====
-- internal/adapters/http: the handlers of the HTTP shell, as functions from a request to a reply.
-- net/http's routing, the writing of a reply as JSON and the decoding of bodies by encoding/json are
-- not here; the decoders, strings.TrimSpace, the clock and the Authorizer are parameters.
pub mod Audiences
pub mod Guards
pub mod RoundTrip
use Prim.Native.Char.{code}
use Prim.Native.String.{[] as no_text, ◌∷◌ as ◌<:◌}
use chainbind_go.Prelude.{
  ℕ, String, Bool, true, false, ◌==◌, not, Option, none, some, List, [], ◌∷◌, length, take, eqb,
  if◌then◌else◌,
}
use chainbind_go.Prelude.Maps.{Map}
use chainbind_go.Errors.{Result, ok, err, Error, or_err}
use chainbind_go.Errors.{◌>>=◌}
use chainbind_go.Value.{Bytes, Slice, Time}
use chainbind_go.Platform.{Platform}
use chainbind_go.Ports.{Trace, Act, Entropy, Signer, KeyWrapper, IntentVerifier}
use chainbind_go.Package.{Package}
use chainbind_go.Report.{Report}
use chainbind_go.Verify.{VerifyOptions, verify}
use chainbind_go.Seal.{Audience, SealRequest, Sealer, seal}
use chainbind_go.AgenticCheckout.{
  Payload, payload, Projection, profile_name, segment_order, split, project, projection_value,
  binding_specs,
}

pub record Problem : Type 0 where
  pub type : String
  pub title : String
  pub status : ℕ
  pub detail : String

-- A problem, or a body with status 200.
pub data Reply : Type 0 where
  problem : Problem → Reply
  packaged : Package → Reply
  reported : Report → Reply
  status_text : String → Reply

abbrev pub status_of : Reply → ℕ
status_of (problem p) = p.status
status_of (packaged p) = 200
status_of (reported r) = 200
status_of (status_text s) = 200

pub record HttpRequest : Type 0 where
  pub content_type : String
  pub authorization : String
  pub body : Bytes

-- Reading a body by MaxBytesReader and Decode: no more than the first `max` bytes are decoded.
pub record Codecs : Type 0 where
  pub trim_space : String → String
  pub decode_payload : Bytes → Option Payload
  pub decode_package : Bytes → Option Package

abbrev pub max_request_body : ℕ
max_request_body = 1048576

abbrev pub write_problem : ℕ → String → String → String → Reply
write_problem status type title detail =
    problem (record { type = type; title = title; status = status; detail = detail })

abbrev pub unsupported_media : Reply
unsupported_media =
    write_problem 415 "urn:chainbind:problem:unsupported-media-type" "unsupported media type"
      "Content-Type must be application/json"

abbrev pub malformed : String → Reply
malformed detail =
    write_problem 400 "urn:chainbind:problem:malformed-request" "malformed request" detail

-- The text before the first semicolon.
unfoldable pub before_semicolon : String → String
before_semicolon no_text = ""
before_semicolon (c <: s) =
    let rest = before_semicolon s in if eqb (code c) 59 then "" else c <: rest

unfoldable pub has_json_content_type : Codecs → HttpRequest → Bool
has_json_content_type cs r = cs.trim_space (before_semicolon r.content_type) == "application/json"

-- strings.HasPrefix and strings.TrimPrefix: what follows a prefix, if the text has it.
unfoldable pub after_prefix : String → String → Option String
after_prefix no_text s = some s
after_prefix (c <: p) no_text = none
after_prefix (c <: p) (d <: s) =
    let rest = after_prefix p s in if eqb (code c) (code d) then rest else none

unfoldable pub bearer_token : HttpRequest → String
bearer_token r = elim (after_prefix "Bearer " r.authorization) [ none ↦ "" | some token ↦ token ]

pub record SealDeps : Type 0 where
  pub rand : Entropy
  pub signer : Signer
  pub key_wrapper : KeyWrapper
  pub intent : IntentVerifier
  pub audiences : List Audience
  pub issuer_id : String
  -- time.Now
  pub now : Trace → Time

-- A denial is the one error that carries text to the caller.
unfoldable pub write_seal_error : Error → Reply
write_seal_error (Error.intent_denied reason) =
    write_problem 422 "urn:chainbind:problem:intent-denied" "intent denied" reason
write_seal_error _ =
    write_problem 502 "urn:chainbind:problem:authority-unreachable" "authority unreachable"
      "the intent authority could not be reached"

abbrev pub seal_reply : Result Package × Trace → Reply × Trace
seal_reply (ok p, t) = (packaged p, t)
seal_reply (err e, t) = (write_seal_error e, t)

abbrev pub bad_shape : Reply
bad_shape = malformed "payload does not match the agentic-checkout shape"

unfoldable pub seal_request :
    Platform → SealDeps → Payload → Map Slice → Projection → Trace → SealRequest
seal_request pf deps p segments projection t = record {
  segments = segments;
  segment_order = segment_order;
  audiences = deps.audiences;
  intent_ref = p.intent.intent_ref;
  authority = p.intent.authority;
  projection = projection_value projection;
  issuer = deps.issuer_id;
  issued_at = deps.now t;
  tenant_id = p.request_context.tenant_id;
  environment = p.request_context.environment;
  profile = profile_name;
  binding_specs = binding_specs pf;
}

abbrev pub sealer_of : SealDeps → Sealer
sealer_of deps = record {
  rand = deps.rand;
  signer = deps.signer;
  wrapper = deps.key_wrapper;
  verifier = deps.intent;
}

-- The payload's segments and projection, or an error of the profile.
unfoldable pub parts_of : Platform → Payload → Result (Map Slice × Projection)
parts_of pf p = do
  segments ← split pf (payload p)
  projection ← project (payload p)
  ok (segments, projection)

unfoldable pub seal_payload : Platform → SealDeps → Payload → Trace → Reply × Trace
seal_payload pf deps p t = elim (parts_of pf p) [
  | err e ↦ (bad_shape, t)
  | ok parts ↦ seal_reply (seal pf (sealer_of deps) (seal_request pf deps p parts.0 parts.1 t) t)
]

unfoldable pub seal_handler : Platform → Codecs → SealDeps → HttpRequest → Trace → Reply × Trace
seal_handler pf cs deps r t =
    if not (has_json_content_type cs r)
    then (unsupported_media, t)
    else elim (cs.decode_payload (take max_request_body r.body)) [
      | none ↦ (malformed "invalid or oversized payload", t)
      | some p ↦ seal_payload pf deps p t
    ]

unfoldable pub issuer_key_resolver : String → Bytes → String → String → Option Bytes
issuer_key_resolver expected_kid key iss kid = if not (kid == expected_kid) then none else some key

pub record VerifyOpts : Type 0 where
  pub issuer_key : String → String → Option Bytes
  pub intent : IntentVerifier

abbrev pub verify_options : Platform → VerifyOpts → VerifyOptions
verify_options pf opts = record {
  issuer_key = some opts.issuer_key;
  intent = some opts.intent;
  binding_specs = binding_specs pf;
}

abbrev pub verify_reply : Result Report × Trace → Reply × Trace
verify_reply (err e, t) = (malformed "package could not be processed", t)
verify_reply (ok report, t) =
    if not report.spec_version_supported
    then (
      write_problem 422 "urn:chainbind:problem:unsupported-spec-version" "unsupported spec_version"
          "this build does not recognise the package's spec_version",
      t,
    )
    else (reported report, t)

unfoldable pub verify_handler : Platform → Codecs → VerifyOpts → HttpRequest → Trace → Reply × Trace
verify_handler pf cs opts r t =
    if not (has_json_content_type cs r)
    then (unsupported_media, t)
    else elim (cs.decode_package (take max_request_body r.body)) [
      | none ↦ (malformed "invalid or oversized package", t)
      | some p ↦ verify_reply (verify pf (some p) (verify_options pf opts) t)
    ]

-- The port that the seal route gates on.
abbrev pub Authorizer : Type 0
Authorizer = String → Trace → Result (Unit {0})

abbrev pub Handler : Type 0
Handler = HttpRequest → Trace → Reply × Trace

abbrev pub rejection : Error → Reply
rejection Error.forbidden =
    write_problem 403 "urn:chainbind:problem:forbidden" "forbidden" "missing required role"
rejection _ =
    write_problem 401 "urn:chainbind:problem:unauthorized" "unauthorized"
      "missing or invalid bearer token"

unfoldable pub require_issuer_admin : Authorizer → Handler → Handler
require_issuer_admin authz next r t = elim (authz (bearer_token r) t) [
  | ok x ↦ next r t
  | err e ↦ (rejection e, t)
]

pub record NamedProber : Type 0 where
  pub name : String
  pub ping : Trace → Result (Unit {0})

unfoldable pub ready_handler : List NamedProber → Trace → Reply
ready_handler [] t = status_text "ready"
ready_handler (np ∷ probers) t =
    let later = ready_handler probers t in
    elim (np.ping t) [
      | err e ↦ write_problem 503 "urn:chainbind:problem:not-ready" "not ready" np.name
      | ok x ↦ later
    ]

abbrev pub health_handler : Reply
health_handler = status_text "ok"

-- sealDeps is what the seal route is wired to.
pub record HandlerConfig : Type 0 where
  pub authorizer : Authorizer
  pub seal_deps : SealDeps
  pub issuer_key : String → String → Option Bytes
  pub vault_prober : Trace → Result (Unit {0})
  pub authority_prober : Trace → Result (Unit {0})

-- The routes, by the pattern that net/http's ServeMux has picked for a request; a request for which
-- it picks none is answered by ServeMux itself.
unfoldable pub new_handler :
    Platform → Codecs → HandlerConfig → (HttpRequest → Reply) → Option String → Handler
new_handler pf cs cfg unrouted none r t = (unrouted r, t)
new_handler pf cs cfg unrouted (some pattern) r t =
    if pattern == "POST /v1/packages/seal"
    then require_issuer_admin cfg.authorizer (seal_handler pf cs cfg.seal_deps) r t
    else if pattern == "POST /v1/packages/verify"
    then verify_handler pf cs
        (record { issuer_key = cfg.issuer_key; intent = cfg.seal_deps.intent }) r t
    else if pattern == "GET /health"
    then (health_handler, t)
    else if pattern == "GET /ready"
    then (
      ready_handler
          (record { name = "vault"; ping = cfg.vault_prober }
            ∷ record { name = "intent-authority"; ping = cfg.authority_prober }
            ∷ [])
          t,
      t,
    )
    else (unrouted r, t)
