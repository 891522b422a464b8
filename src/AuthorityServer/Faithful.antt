-- ===== src/AuthorityServer/Faithful.antt =====
-- The HTTP authority, pointed at this server, answers as the mock authority behind it does.
use chainbind_go.Prelude.{
  ℕ, String, Bool, true, ◌≡◌, ◌↔◌, refl, sym, ap, ◌∙◌, inl, inr, Option, none, some, [], take,
  arith,
}
use chainbind_go.Errors.{Result, ok, err, Error, Result-cases}
use chainbind_go.Value.{Bytes, Value}
use chainbind_go.Platform.{Platform}
use chainbind_go.Ports.{Trace, IntentDecision}
use chainbind_go.Adapters.{Context}
use chainbind_go.Adapters.Http.{Response, max_response_body, exchange}
use chainbind_go.Adapters.HttpAuthority
use chainbind_go.Adapters.HttpAuthority.{
  Decoders, CheckResponse, ConstraintsHashResponse, check_request, check_endpoint, hash_endpoint,
  do_json,
}
use chainbind_go.Adapters.HttpAuthority.FailsClosed.{check-Decides}
use chainbind_go.Adapters.MockAuthority
use chainbind_go.Adapters.MockAuthority.{Floats, Library, Verifier}
use chainbind_go.AuthorityServer.{
  check_route, Serving, reply, failure, serve_check, serve, served_net,
}

-- What the two sides of a wire format keep for one request and its answer: the URL is accepted and
-- routed back to its reference, and what one side encodes the other decodes, within the limit of a
-- body.
pub record Wired (dec : Decoders) (sv : Serving) (v : HttpAuthority.Verifier) (ref : String)
    (projection : Value) (body : Bytes) (answer : Result IntentDecision) : Type 0 where
  pub accepted : v.net.accepts_url (check_endpoint v ref body).url ≡ true
  pub routed : sv.route (check_endpoint v ref body) ≡ some (check_route ref)
  pub reads_projection : sv.decode_projection body ≡ some projection
  pub reads_decision :
      (d : IntentDecision)
      → answer ≡ ok d
      → dec.check_response (take max_response_body (sv.encode_decision d))
        ≡ some (record { allowed = d.allowed; reason = d.reason })

abbrev or_no_body : Option Bytes → Bytes
or_no_body none = []
or_no_body (some b) = b

abbrev status_or_zero : Option Response → ℕ
status_or_zero none = 0
status_or_zero (some resp) = resp.status_code

failure-status :
    (sv : Serving) (message : String) (e : Error) (resp : Response)
    → failure sv 500 message e ≡ some resp
    → resp.status_code ≡ 500
failure-status sv message Error.panicked resp h = absurd (cc)
failure-status sv message _ resp h = sym (ap status_or_zero h)

module _ (fl : Floats) (pf : Platform) (lib : Library fl.Float) (ctx : Context) (sv : Serving)
    (memory : Trace → Verifier fl) (base_url : String) (accepts_url : String → Bool)
    (path_escape : String → String) (dec : Decoders) where
  -- The HTTP authority whose every request this server answers.
  abbrev pub client : HttpAuthority.Verifier
  client = record {
    base_url = base_url;
    net = served_net fl pf lib ctx sv memory accepts_url path_escape;
  }

  module _ (ref : String) (projection : Value) (body : Bytes) (t : Trace)
      (wired : Wired dec sv client ref projection body
        (MockAuthority.check fl pf lib ctx (memory t) ref projection t))
      (encoded : pf.json_marshal (check_request projection) ≡ some body) where
    serve-ok :
        (d : IntentDecision)
        → MockAuthority.check fl pf lib ctx (memory t) ref projection t ≡ ok d
        → client.net.send (check_endpoint client ref body) t ≡ reply 200 (sv.encode_decision d)
    unfolding serve serve_check
    serve-ok d h = rw (wired.routed, serve, wired.reads_projection, serve_check, h) refl

    serve-err :
        (e : Error)
        → MockAuthority.check fl pf lib ctx (memory t) ref projection t ≡ err e
        → client.net.send (check_endpoint client ref body) t
          ≡ failure sv 500 "intent check failed" e
    unfolding serve serve_check
    serve-err e h = rw (wired.routed, serve, wired.reads_projection, serve_check, h) refl

    client-ok :
        (d : IntentDecision)
        → MockAuthority.check fl pf lib ctx (memory t) ref projection t ≡ ok d
        → HttpAuthority.check pf dec client ref projection t ≡ ok d
    unfolding HttpAuthority.check do_json exchange
    client-ok d h =
        rw (encoded, wired.accepted, serve-ok d h, exchange, wired.reads_decision d h) refl

    ok-client :
        (d : IntentDecision)
        → HttpAuthority.check pf dec client ref projection t ≡ ok d
        → MockAuthority.check fl pf lib ctx (memory t) ref projection t ≡ ok d
    ok-client d h =
        elim (Result-cases (MockAuthority.check fl pf lib ctx (memory t) ref projection t)) [
          | inr (other, decided) ↦ decided ∙ sym (client-ok other decided) ∙ h
          | inl (e, failed) ↦
              let x = check-Decides pf dec client ref projection t d h in
              let same : x.body ≡ body = ap or_no_body (sym x.encoded ∙ encoded) in
              let sent : failure sv 500 "intent check failed" e ≡ some x.answers.resp =
                sym (serve-err e failed)
                ∙ ap (λ b. client.net.send (check_endpoint client ref b) t) (sym same)
                ∙ x.answers.sent in
              absurd (
                omega (
                  arith,
                  failure-status sv "intent check failed" e x.answers.resp sent,
                  x.answers.less,
                ))
        ]

  -- The HTTP authority, pointed at a server of the mock authority, allows and denies exactly what the
  -- mock authority does, with its reasons: Check over HTTP returns a decision exactly where Check of
  -- the authority behind the server, with the memory that it has at that time, returns it. The two
  -- sides agree on the route and the bodies, and the projection has a JSON text.
  pub check-check_iff :
      (ref : String) (projection : Value) (body : Bytes) (t : Trace) (d : IntentDecision)
      → Wired dec sv client ref projection body
          (MockAuthority.check fl pf lib ctx (memory t) ref projection t)
      → pf.json_marshal (check_request projection) ≡ some body
      → (HttpAuthority.check pf dec client ref projection t ≡ ok d)
        ↔ (MockAuthority.check fl pf lib ctx (memory t) ref projection t ≡ ok d)
  check-check_iff ref projection body t d wired encoded = (
    ok-client ref projection body t wired encoded d,
    client-ok ref projection body t wired encoded d,
  )
