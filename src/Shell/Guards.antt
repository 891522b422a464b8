-- ===== src/Shell/Guards.antt =====
-- What the routes of the shell let through.
use chainbind_go.Prelude.{
  true, ◌≡◌, inl, inr, refl, sym, ◌∙◌, ap, some, [], ◌∷◌, take, Bool-cases, Option-cases,
}
use chainbind_go.Prelude.Maps.{Map}
use chainbind_go.Errors.{Result, ok, err, Error, Result-cases, bind-eq-ok, ok-injective}
use chainbind_go.Value.{Slice}
use chainbind_go.Platform.{Platform}
use chainbind_go.Ports.{Trace}
use chainbind_go.Package.{Package}
use chainbind_go.Seal.{Sealer, SealRequest, seal, with_kid, with_signature, assemble}
use chainbind_go.Seal.Run.{seal-Run}
use chainbind_go.AgenticCheckout
use chainbind_go.AgenticCheckout.{Payload, payload, Projection, projection_value}
use chainbind_go.Shell.{
  Problem, bad_shape, Reply, problem, packaged, HttpRequest, Codecs, max_request_body,
  unsupported_media, malformed, has_json_content_type, bearer_token, SealDeps, write_seal_error,
  seal_request, sealer_of, parts_of, seal_payload, seal_reply, seal_handler, Authorizer,
  require_issuer_admin, rejection,
}

-- The request that the seal route makes of a payload, field by field.
pub record IsRequest (pf : Platform) (deps : SealDeps) (body : Payload) (t : Trace)
    (req : SealRequest) : Type 0 where
  pub split : AgenticCheckout.split pf (payload body) ≡ ok req.segments
  pub segment_order : req.segment_order ≡ "user" ∷ "merchant" ∷ "gateway" ∷ []
  pub audiences : req.audiences ≡ deps.audiences
  pub intent_ref : req.intent_ref ≡ body.intent.intent_ref
  pub authority : req.authority ≡ body.intent.authority
  pub projected : Projection
  pub project : AgenticCheckout.project (payload body) ≡ ok projected
  pub projection : req.projection ≡ projection_value projected
  pub issuer : req.issuer ≡ deps.issuer_id
  pub issued_at : req.issued_at ≡ deps.now t
  pub tenant_id : req.tenant_id ≡ body.request_context.tenant_id
  pub environment : req.environment ≡ body.request_context.environment
  pub profile : req.profile ≡ "agentic-checkout/v1"
  pub binding_specs : req.binding_specs ≡ AgenticCheckout.binding_specs pf

-- What the seal route has done where it returns a package.
pub record SealedBy (pf : Platform) (cs : Codecs) (deps : SealDeps) (authz : Authorizer)
    (r : HttpRequest) (t : Trace) (p : Package) (u : Trace) : Type 0 where
  pub admitted : authz (bearer_token r) t ≡ ok tt
  pub json : has_json_content_type cs r ≡ true
  pub body : Payload
  pub decoded : cs.decode_payload (take max_request_body r.body) ≡ some body
  pub req : SealRequest
  pub request : IsRequest pf deps body t req
  pub sealed : seal pf (sealer_of deps) req t ≡ (ok p, u)
  pub issuer : p.issuer.iss ≡ deps.issuer_id
  pub intent : p.intent.intent_ref ≡ body.intent.intent_ref
  pub profile : p.profile ≡ "agentic-checkout/v1"

seal_request-IsRequest :
    (pf : Platform) (deps : SealDeps) (body : Payload) (segments : Map Slice)
    (projected : Projection) (t : Trace)
    → parts_of pf body ≡ ok (segments, projected)
    → IsRequest pf deps body t (seal_request pf deps body segments projected t)
unfolding parts_of seal_request
seal_request-IsRequest pf deps body segments projected t h =
    let (m, split, h₁) = bind-eq-ok (AgenticCheckout.split pf (payload body)) _ h in
    let (x, project, h₂) = bind-eq-ok (AgenticCheckout.project (payload body)) _ h₁ in
    let same = ok-injective (m, x) (segments, projected) h₂ in
    record {
      split = split ∙ ap (λ y. ok y.0) same;
      segment_order = refl;
      audiences = refl;
      intent_ref = refl;
      authority = refl;
      projected = projected;
      project = project ∙ ap (λ y. ok y.1) same;
      projection = refl;
      issuer = refl;
      issued_at = refl;
      tenant_id = refl;
      environment = refl;
      profile = refl;
      binding_specs = refl;
    }

-- What a package takes over from the request that it is sealed from.
seal-taken :
    (pf : Platform) (s : Sealer) (req : SealRequest) (t u : Trace) (p : Package)
    → seal pf s req t ≡ (ok p, u)
    → (p.issuer.iss ≡ req.issuer)
      × (p.intent.intent_ref ≡ req.intent_ref)
      × (p.profile ≡ req.profile)
unfolding with_signature with_kid assemble
seal-taken pf s req t u p h =
    let r = seal-Run pf s req t p u h in
    (
      ap (λ q. q.issuer.iss) r.result,
      ap (λ q. q.intent.intent_ref) r.result,
      ap (λ q. q.profile) r.result,
    )

write_seal_error-problem : (e : Error) → (x : Problem) × (write_seal_error e ≡ problem x)
unfolding write_seal_error
write_seal_error-problem (Error.intent_denied reason) = (_, refl)
write_seal_error-problem _ = (_, refl)

rejection-problem : (e : Error) → (x : Problem) × (rejection e ≡ problem x)
rejection-problem Error.forbidden = (_, refl)
rejection-problem _ = (_, refl)

-- A problem is not a package.
problem-packaged :
    (reply : Reply) (x : Problem) (p : Package) (t u : Trace)
    → reply ≡ problem x
    → ◌≡◌ {A = Reply × Trace} (reply, t) (packaged p, u)
    → ⊥
problem-packaged reply x p t u e h =
    let clash : problem x ≡ packaged p = sym e ∙ ap (λ r. r.0) h in cc

seal_reply-packaged :
    (r : Result Package × Trace) (p : Package) (u : Trace)
    → seal_reply r ≡ (packaged p, u)
    → r ≡ (ok p, u)
seal_reply-packaged (ok q, t) p u h = cc
seal_reply-packaged (err e, t) p u h =
    let (x, same) = write_seal_error-problem e in
    absurd (problem-packaged (write_seal_error e) x p t u same h)

-- The seal route returns a package only to a caller whose bearer token the Authorizer accepts, for a
-- JSON request of a payload that the profile splits. The package is what Seal returns for the
-- segments and the projection of that payload, with the payload's authorization, tenant and
-- environment, and with the issuer, the audiences and the time of the operator; and it names the
-- operator's issuer, the payload's authorization and the checkout profile.
pub seal_handler-SealedBy :
    (pf : Platform) (cs : Codecs) (deps : SealDeps) (authz : Authorizer) (r : HttpRequest)
    (t u : Trace) (p : Package)
    → require_issuer_admin authz (seal_handler pf cs deps) r t ≡ (packaged p, u)
    → SealedBy pf cs deps authz r t p u
unfolding require_issuer_admin seal_handler seal_payload
seal_handler-SealedBy pf cs deps authz r t u p h = elim (Result-cases (authz (bearer_token r) t)) [
  | inl (e, refused) ↦
      let (x, same) = rejection-problem e in
      absurd (problem-packaged (rejection e) x p t u same (rw (refused, require_issuer_admin) at h))
  | inr (x, admitted) ↦ elim (Bool-cases (has_json_content_type cs r)) [
    | inr other ↦ absurd (
        problem-packaged unsupported_media _ p t u refl
          (rw (admitted, require_issuer_admin, other) at h))
    | inl json ↦ elim (Option-cases (cs.decode_payload (take max_request_body r.body))) [
      | inl bad ↦ absurd (
          problem-packaged (malformed "invalid or oversized payload") _ p t u refl
            (rw (admitted, require_issuer_admin, json, bad, seal_handler) at h))
      | inr (body, decoded) ↦ elim (Result-cases (parts_of pf body)) [
        | inl (e, unsplit) ↦ absurd (
            problem-packaged bad_shape _ p t u refl (
              rw
                (admitted, require_issuer_admin, json, decoded, seal_handler, unsplit, seal_payload)
                at h))
        | inr ((segments, projected), parts) ↦
            let req = seal_request pf deps body segments projected t in
            let request = seal_request-IsRequest pf deps body segments projected t parts in
            let sealed = seal_reply-packaged (seal pf (sealer_of deps) req t) p u (
              rw (admitted, require_issuer_admin, json, decoded, seal_handler, parts, seal_payload)
                at h) in
            let (issuer, intent, profile) = seal-taken pf (sealer_of deps) req t u p sealed in
            record {
              admitted = admitted;
              json = json;
              body = body;
              decoded = decoded;
              req = req;
              request = request;
              sealed = sealed;
              issuer = issuer ∙ request.issuer;
              intent = intent ∙ request.intent_ref;
              profile = profile ∙ request.profile;
            }
      ]
    ]
  ]
]
