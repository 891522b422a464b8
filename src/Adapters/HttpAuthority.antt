-- ===== src/Adapters/HttpAuthority.antt =====
-- internal/adapters/intent/http/verifier.go: an authority that is asked over HTTP. The decoders are
-- encoding/json's, into the response types of the file.
pub mod FailsClosed
use Prim.Native.String.{◌++◌}
use chainbind_go.Prelude.{String, Bool, ◌==◌, Option, none, some, [], if◌then◌else◌}
use chainbind_go.Errors.{Result, ok, err, Error, or_err, ◌>>=◌}
use chainbind_go.Value.{Bytes, Value, object, field, end}
use chainbind_go.Platform.{Platform}
use chainbind_go.Ports
use chainbind_go.Ports.{Trace, IntentDecision}
use chainbind_go.Adapters.Http.{Net, Request, Response, new_request, exchange, is_refused}

pub record Verifier : Type 0 where
  pub base_url : String
  pub net : Net

-- A nil client is the default one.
unfoldable pub new : String → Option Net → Net → Verifier
new base_url none default_client = record { base_url = base_url; net = default_client }
new base_url (some client) default_client = record { base_url = base_url; net = client }

pub record CheckResponse : Type 0 where
  pub allowed : Bool
  pub reason : String

pub record ConstraintsHashResponse : Type 0 where
  pub constraints_hash : String

pub record Decoders : Type 0 where
  pub check_response : Bytes → Option CheckResponse
  pub constraints_hash_response : Bytes → Option ConstraintsHashResponse

abbrev pub check_request : Value → Value
check_request projection = object (field "projection" projection end)

unfoldable pub do_json {ℓ} :
    {A : Type ℓ} → Verifier → (Bytes → Option A) → Request → Trace → Result A
do_json v decode req t =
    exchange Error.authority_unreachable Error.authority_response v.net decode req t

abbrev pub check_endpoint : Verifier → String → Bytes → Request
check_endpoint v intent_ref body = record {
  method = "POST";
  url = v.base_url ++ "/v1/intents/" ++ v.net.path_escape intent_ref ++ "/check";
  token = none;
  body = body;
}

abbrev pub hash_endpoint : Verifier → String → Request
hash_endpoint v intent_ref = record {
  method = "GET";
  url = v.base_url ++ "/v1/intents/" ++ v.net.path_escape intent_ref ++ "/constraints-hash";
  token = none;
  body = [];
}

unfoldable pub check :
    Platform → Decoders → Verifier → String → Value → Trace → Result IntentDecision
check pf dec v intent_ref projection t = do
  body ← or_err (Error.foreign "encode check request") (pf.json_marshal (check_request projection))
  req ← new_request v.net (check_endpoint v intent_ref body)
  resp ← do_json v dec.check_response req t
  ok (record { allowed = resp.allowed; reason = resp.reason })

unfoldable pub constraints_hash : Decoders → Verifier → String → Trace → Result String
constraints_hash dec v intent_ref t = do
  req ← new_request v.net (hash_endpoint v intent_ref)
  resp ← do_json v dec.constraints_hash_response req t
  if resp.constraints_hash == "" then err Error.authority_response else ok resp.constraints_hash

unfoldable pub ping : Verifier → Trace → Result (Unit {0})
ping v t = do
  req ←
      new_request v.net
        (record { method = "GET"; url = v.base_url ++ "/v1/health"; token = none; body = [] })
  resp ← or_err Error.authority_unreachable (v.net.send req t)
  if is_refused resp.status_code then err Error.authority_response else ok tt

-- The authority as the port that the core calls.
abbrev pub port : Platform → Decoders → Verifier → Ports.IntentVerifier
port pf dec v = record {
  check = λ intent_ref projection t. check pf dec v intent_ref projection t;
  constraints_hash = λ intent_ref t. constraints_hash dec v intent_ref t;
}
