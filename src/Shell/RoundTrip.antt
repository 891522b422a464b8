-- ===== src/Shell/RoundTrip.antt =====
-- What the seal route returns, the verify route accepts; and what the seal route answers where the
-- authority permits nothing.
use chainbind_go.Prelude.{
  String, true, false, ◌≡◌, ◌≢◌, ◌↔◌, refl, sym, subst, inl, inr, some, List, [], ◌∷◌, take, All,
}
use chainbind_go.Prelude.Maps.{Map}
use chainbind_go.Errors.{ok, Error, Result-cases}
use chainbind_go.Value.{Bytes, Slice}
use chainbind_go.Platform.{Platform, DecodesBase64}
use chainbind_go.Ports.{Trace, IntentDecision}
use chainbind_go.Package.{Package}
use chainbind_go.Report.{Report, report_ok}
use chainbind_go.Report.Verdicts.{report_ok_iff}
use chainbind_go.Verify.{verify}
use chainbind_go.Verify.Received.{received, verify-received}
use chainbind_go.Seal.Run.{seal-Run}
use chainbind_go.Seal.Verifies.{Trusts, IsImmutable, Run-IsMap}
use chainbind_go.Seal.Refusals.{Refusal, seal-Refused}
use chainbind_go.AgenticCheckout.{Payload, Projection, projection_value}
use chainbind_go.AgenticCheckout.Bindings.{Distinct-names, profile-report_ok}
use chainbind_go.Shell.{
  Reply, problem, packaged, reported, status_text, HttpRequest, Codecs, max_request_body,
  has_json_content_type, SealDeps, seal_handler, seal_payload, seal_request, sealer_of, parts_of,
  write_seal_error, issuer_key_resolver, VerifyOpts, verify_options, verify_handler, Authorizer,
  require_issuer_admin, NamedProber, ready_handler,
}
use chainbind_go.Shell.Guards.{seal_handler-SealedBy}

-- The options of a verify route that trusts one signing key under one kid.
abbrev pub own_options : SealDeps → String → Bytes → VerifyOpts
own_options deps kid key = record { issuer_key = issuer_key_resolver kid key; intent = deps.intent }

verify_handler-lem :
    (pf : Platform) (cs : Codecs) (opts : VerifyOpts) (r : HttpRequest) (p : Package) (v w : Trace)
    (report : Report)
    → has_json_content_type cs r ≡ true
    → cs.decode_package (take max_request_body r.body) ≡ some p
    → verify pf (some p) (verify_options pf opts) v ≡ (ok report, w)
    → report.spec_version_supported ≡ true
    → verify_handler pf cs opts r v ≡ (reported report, w)
unfolding verify_handler
verify_handler-lem pf cs opts r p v w report json decoded verified supported =
    rw (json, decoded, verify_handler, verified, supported) refl

-- A package that the seal route has returned, sent as JSON to the verify route of the same shell at
-- any later time, is answered with a report that is OK. The body decodes to the package as its own
-- JSON carries it, where nil disclosures have become an empty list. The shell trusts its own signer,
-- under the kid that it has pinned; its authority's hash for an authorization never changes; raw
-- base64url decodes what it encoded.
pub verify_handler-seal_handler :
    (pf : Platform) (cs : Codecs) (deps : SealDeps) (authz : Authorizer) (kid : String)
    (key : Bytes) (asked sent : HttpRequest) (t u v : Trace) (p : Package)
    → DecodesBase64 pf
    → Trusts pf deps.signer (issuer_key_resolver kid key) deps.issuer_id
    → IsImmutable deps.intent
    → require_issuer_admin authz (seal_handler pf cs deps) asked t ≡ (packaged p, u)
    → has_json_content_type cs sent ≡ true
    → cs.decode_package (take max_request_body sent.body) ≡ some (received p)
    → (report : Report) × (w : Trace) × (verify_handler pf cs (own_options deps kid key) sent v
        ≡ (reported report, w))
      × (report_ok (some report) ≡ true)
verify_handler-seal_handler pf cs deps authz kid key asked sent t u v p decodes trust fixed h json
      decoded =
    let s = seal_handler-SealedBy pf cs deps authz asked t u p h in
    let opt = verify_options pf (own_options deps kid key) in
    let (sealed, x, checked, fine) =
      profile-report_ok pf (sealer_of deps) s.req opt (issuer_key_resolver kid key) t u v p decodes
        refl
        (subst (Trusts pf deps.signer (issuer_key_resolver kid key)) (sym s.request.issuer) trust)
        refl fixed refl s.request.binding_specs s.sealed in
    let run = seal-Run pf (sealer_of deps) s.req t p u s.sealed in
    let (report, w, verified, good) =
      verify-received pf p opt v x sealed (Run-IsMap run decodes) (Distinct-names pf) checked
        fine in
    let (passes, _, _) = (report_ok_iff report).0 good in
    (
      report,
      w,
      verify_handler-lem pf cs (own_options deps kid key) sent (received p) v w report json decoded
          verified passes.supported,
      good,
    )

-- The answers to a failed Seal.
pub data IsAnswer : Error → Reply → Type 0 where
  denial :
      (reason : String)
      → IsAnswer (Error.intent_denied reason) (
          problem (record {
            type = "urn:chainbind:problem:intent-denied";
            title = "intent denied";
            status = 422;
            detail = reason;
          }))
  unavailable :
      {e : Error}
      → ((reason : String) → e ≢ Error.intent_denied reason)
      → IsAnswer e (
          problem (record {
            type = "urn:chainbind:problem:authority-unreachable";
            title = "authority unreachable";
            status = 502;
            detail = "the intent authority could not be reached";
          }))

write_seal_error-IsAnswer : (e : Error) → IsAnswer e (write_seal_error e)
unfolding write_seal_error
write_seal_error-IsAnswer (Error.intent_denied reason) = denial reason
write_seal_error-IsAnswer _ = unavailable (λ reason h. cc)

-- Where the authority permits nothing, the seal route answers a payload that the profile splits with
-- a problem, after at most the one question to the authority, and seals and signs nothing. Where the
-- authority has denied, the problem has status 422 and the authority's own reason as its detail; any
-- other failure is a problem with status 502 and one fixed text, whatever the error was.
pub seal_payload-Refusal :
    (pf : Platform) (deps : SealDeps) (payload : Payload) (segments : Map Slice)
    (projection : Projection) (t : Trace)
    → parts_of pf payload ≡ ok (segments, projection)
    → ((d : IntentDecision)
        → deps.intent.check payload.intent.intent_ref (projection_value projection) t ≡ ok d
        → d.allowed ≡ false)
    → (e : Error) × (reply : Reply) × (u : Trace) × Refusal
        (sealer_of deps)
        (seal_request pf deps payload segments projection t)
        t
        e
        u
      × IsAnswer e reply
      × (seal_payload pf deps payload t ≡ (reply, u))
unfolding seal_payload seal_request
seal_payload-Refusal pf deps payload segments projection t split never =
    let x =
      seal-Refused pf (sealer_of deps) (seal_request pf deps payload segments projection t) t
        never in
    (
      x.error,
      write_seal_error x.error,
      x.left,
      x.reason,
      write_seal_error-IsAnswer x.error,
      rw (split, seal_payload, x.result) refl,
    )

-- The shell is ready exactly where every dependency answers its ping.
pub ready_handler_iff :
    (probers : List NamedProber) (t : Trace)
    → (ready_handler probers t ≡ status_text "ready") ↔ All (λ np. np.ping t ≡ ok tt) probers
unfolding ready_handler
ready_handler_iff [] t = ((λ h. tt), λ h. refl)
ready_handler_iff (np ∷ probers) t = elim (Result-cases (np.ping t)) [
  | inl (e, down) ↦
      ((λ h. absurd (let g = rw (down, ready_handler) at h in cc)), λ (up, rest). absurd (cc))
  | inr (x, up) ↦
      let rest = ready_handler_iff probers t in
      (
        (λ h. (up, rest.0 (rw (up, ready_handler) at h))),
        λ (_, ups). rw (up, ready_handler) (rest.1 ups),
      )
]
