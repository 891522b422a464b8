-- ===== src/Adapters/HttpAuthority/FailsClosed.antt =====
-- The HTTP authority never turns a failure into an answer, and so Seal never goes ahead on one.
use chainbind_go.Prelude.{
  String, true, false, ◌==◌, ◌≡◌, inl, inr, sym, ◌∙◌, ap, subst, some, ◌∷◌, Bool-cases,
}
use chainbind_go.Errors.{ok, Error, or_err, or_err-eq-ok, bind-eq-ok, ok-injective}
use chainbind_go.Value.{Bytes, Value}
use chainbind_go.Platform.{Platform}
use chainbind_go.Ports.{Trace, Event, IntentDecision}
use chainbind_go.Package.{Package}
use chainbind_go.Seal.{Sealer, SealRequest, seal, with_signature, with_kid, assemble}
use chainbind_go.Seal.Run.{Run, seal-Run}
use chainbind_go.Adapters.Http.{Answers, exchange-Answers, new_request, new_request-eq-ok}
use chainbind_go.Adapters.HttpAuthority.{
  Verifier, CheckResponse, Decoders, do_json, check_request, check_endpoint, hash_endpoint, check,
  constraints_hash, port,
}

module _ (pf : Platform) (dec : Decoders) (v : Verifier) where
  -- The authority has answered the request for a decision.
  pub record Decides (intent_ref : String) (projection : Value) (t : Trace) (d : IntentDecision)
      : Type 0 where
    pub body : Bytes
    pub encoded : pf.json_marshal (check_request projection) ≡ some body
    pub resp : CheckResponse
    pub answers : Answers v.net dec.check_response (check_endpoint v intent_ref body) t resp
    pub decision : record { allowed = resp.allowed; reason = resp.reason } ≡ d

  pub check-Decides :
      (intent_ref : String) (projection : Value) (t : Trace) (d : IntentDecision)
      → check pf dec v intent_ref projection t ≡ ok d
      → Decides intent_ref projection t d
  unfolding check do_json
  check-Decides intent_ref projection t d h =
      let (body, encoded, h1) =
        bind-eq-ok
          (or_err (Error.foreign "encode check request")
            (pf.json_marshal (check_request projection)))
          _ h in
      let (req, built, h2) =
        bind-eq-ok (new_request v.net (check_endpoint v intent_ref body)) _ h1 in
      let (resp, sent, h3) = bind-eq-ok (do_json v dec.check_response req t) _ h2 in
      record {
        body = body;
        encoded = or_err-eq-ok _ _ body encoded;
        resp = resp;
        answers =
            subst (λ q. Answers v.net dec.check_response q t resp)
              (new_request-eq-ok v.net (check_endpoint v intent_ref body) req built)
              (exchange-Answers _ _ v.net dec.check_response req t resp sent);
        decision = ok-injective _ d h3;
      }

  -- The authority has answered the request for a constraints hash, with one that is not empty.
  pub record Pins (intent_ref : String) (t : Trace) (hash : String) : Type 0 where
    pub answers :
        Answers v.net dec.constraints_hash_response
          (hash_endpoint v intent_ref)
          t
          (record { constraints_hash = hash })
    pub some_text : (hash == "") ≡ false

  constraints_hash-Pins :
      (intent_ref : String) (t : Trace) (hash : String)
      → constraints_hash dec v intent_ref t ≡ ok hash
      → Pins intent_ref t hash
  unfolding constraints_hash do_json
  constraints_hash-Pins intent_ref t hash h =
      let (req, built, h1) = bind-eq-ok (new_request v.net (hash_endpoint v intent_ref)) _ h in
      let (resp, sent, h2) = bind-eq-ok (do_json v dec.constraints_hash_response req t) _ h1 in
      let answered =
        subst (λ q. Answers v.net dec.constraints_hash_response q t resp)
          (new_request-eq-ok v.net (hash_endpoint v intent_ref) req built)
          (exchange-Answers _ _ v.net dec.constraints_hash_response req t resp sent) in
      elim (Bool-cases (resp.constraints_hash == "")) [
        | inl empty ↦ absurd (let g = rw empty at h2 in cc)
        | inr some_text ↦
            let same : resp.constraints_hash ≡ hash = ok-injective _ hash (rw some_text at h2) in
            subst (Pins intent_ref t) same (record { answers = answered; some_text = some_text })
      ]

  sealed_hash :
      (s : Sealer) (req : SealRequest) (t u : Trace) (p : Package) (r : Run pf s req t p u)
      → p.intent.constraints_hash ≡ r.constraints_hash
  unfolding with_signature with_kid assemble
  sealed_hash s req t u p r = ap (λ q. q.intent.constraints_hash) r.result

  -- Seal fails closed over HTTP: a package is returned only where the authority has answered the
  -- check of the request's own authorization and projection with a status between 200 and 299 and
  -- `allowed: true`, and has then answered its constraints hash so, with a text that is not empty;
  -- that text is the package's constraints hash.
  pub seal-Decides :
      (s : Sealer) (req : SealRequest) (t u : Trace) (p : Package)
      → s.verifier ≡ port pf dec v
      → seal pf s req t ≡ (ok p, u)
      → ((d : IntentDecision) × Decides req.intent_ref req.projection t d × (d.allowed ≡ true))
        × Pins req.intent_ref
            (Event.checked req.intent_ref req.projection ∷ t)
            p.intent.constraints_hash
  seal-Decides s req t u p same h =
      let r = seal-Run pf s req t p u h in
      (
        (
          r.decision,
          check-Decides req.intent_ref req.projection t r.decision (
              subst (λ iv. iv.check req.intent_ref req.projection t ≡ ok r.decision) same
                r.decided),
          r.allowed,
        ),
        constraints_hash-Pins req.intent_ref (Event.checked req.intent_ref req.projection ∷ t)
            p.intent.constraints_hash
            (subst
              (λ iv.
                iv.constraints_hash req.intent_ref (Event.checked req.intent_ref req.projection ∷ t)
                ≡ ok p.intent.constraints_hash)
              same (r.answered ∙ ap ok (sym (sealed_hash s req t u p r)))),
      )
