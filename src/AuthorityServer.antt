-- ===== src/AuthorityServer.antt =====
-- cmd/mock-authority/main.go: the mock authority behind three HTTP routes. The matching of a request
-- to a route by net/http, encoding/json on the bodies and the texts of http.Error are parameters; the
-- reading of the environment, the log and the start of the server are left out.
pub mod Faithful
use chainbind_go.Prelude.{ℕ, String, Bool, Option, none, some}
use chainbind_go.Errors.{Result, ok, err, Error}
use chainbind_go.Value.{Bytes, Value}
use chainbind_go.Platform.{Platform}
use chainbind_go.Ports.{Trace, IntentDecision}
use chainbind_go.Adapters.{Context}
use chainbind_go.Adapters.Http.{Net, Request, Response}
use chainbind_go.Adapters.MockAuthority
use chainbind_go.Adapters.MockAuthority.{Floats, Library, Verifier}

pub data Route : Type 0 where
  check_route : String → Route
  hash_route : String → Route
  health_route : Route

pub record Serving : Type 0 where
  pub route : Request → Option Route
  -- the answer of ServeMux to a request that no route matches
  pub unrouted : Request → Response
  pub decode_projection : Bytes → Option Value
  pub encode_decision : IntentDecision → Bytes
  pub encode_hash : String → Bytes
  pub encode_status : Bytes
  pub error_text : String → Bytes

abbrev pub reply : ℕ → Bytes → Option Response
reply status body = some (record { status_code = status; body = body })

-- An error is answered with a status; a panic ends the connection without an answer.
abbrev pub failure : Serving → ℕ → String → Error → Option Response
failure sv status message Error.panicked = none
failure sv status message _ = reply status (sv.error_text message)

module _ (fl : Floats) (pf : Platform) (lib : Library fl.Float) (ctx : Context) (sv : Serving) where
  unfoldable pub serve_check : Verifier fl → String → Bytes → Trace → Option Response
  serve_check v ref body t = elim (sv.decode_projection body) [
    | none ↦ reply 400 (sv.error_text "malformed request body")
    | some projection ↦ elim (MockAuthority.check fl pf lib ctx v ref projection t) [
      | err e ↦ failure sv 500 "intent check failed" e
      | ok decision ↦ reply 200 (sv.encode_decision decision)
    ]
  ]

  unfoldable pub serve_hash : Verifier fl → String → Trace → Option Response
  serve_hash v ref t = elim (MockAuthority.constraints_hash fl pf lib ctx v ref t) [
    | err e ↦ failure sv 500 "constraints hash failed" e
    | ok hash ↦ reply 200 (sv.encode_hash hash)
  ]

  unfoldable pub serve_health : Trace → Option Response
  serve_health t = elim (MockAuthority.ping fl ctx t) [
    | err e ↦ failure sv 503 "not ready" e
    | ok x ↦ reply 200 sv.encode_status
  ]

  -- newHandler
  unfoldable pub serve : Verifier fl → Request → Trace → Option Response
  serve v req t = elim (sv.route req) [
    | none ↦ some (sv.unrouted req)
    | some (check_route ref) ↦ serve_check v ref req.body t
    | some (hash_route ref) ↦ serve_hash v ref t
    | some health_route ↦ serve_health t
  ]

  -- The network on which every request is answered by this server.
  abbrev pub served_net : (Trace → Verifier fl) → (String → Bool) → (String → String) → Net
  served_net memory accepts_url path_escape = record {
    send = λ req t. serve (memory t) req t;
    accepts_url = accepts_url;
    path_escape = path_escape;
  }
