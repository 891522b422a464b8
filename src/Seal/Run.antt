-- ===== src/Seal/Run.antt =====
-- What a successful Seal has done, step by step.
use chainbind_go.Prelude.{
  String, ◌≡◌, ◌≢◌, sym, subst, inl, inr, true, false, List, [], ◌∷◌, arith, length, eqb, contains,
  Distinct, All, Bool-cases,
}
use chainbind_go.Prelude.Seen.{Unseen, Unseen-tail}
use chainbind_go.Prelude.Maps.{Map, lookup, is_some}
use chainbind_go.Errors.{Result, ok, err}
use chainbind_go.Errors
use chainbind_go.Value.{Bytes, Slice}
use chainbind_go.Platform.{Platform}
use chainbind_go.Ports.{
  Entropy, Event, Trace, IntentDecision, call-bind-eq-ok, lift-bind-eq-ok, bind-eq-ok,
  answer-injective,
}
use chainbind_go.Package.{Package, AadContext}
use chainbind_go.Bindings.{BindingContext, segments_root, intent_commitment, compute_bindings}
use chainbind_go.SignView.{build_signing_view}
use chainbind_go.Seal.{
  Audience, Sealer, SealRequest, Sealing, Committed, no_segments, check_audiences, seal_segments,
  new_package_id, with_kid, with_signature, sign_package, commit_segments, assemble, seal_allowed,
  seal,
}
use chainbind_go.Seal.Segments.{audience_names}

-- The context of the bindings that Seal computes.
abbrev pub seal_context : SealRequest → String → Map String → String → BindingContext
seal_context req constraints_hash plain_hash root = record {
  plain_hash = plain_hash;
  intent_ref = req.intent_ref;
  constraints_hash = constraints_hash;
  segments_root = root;
}

-- The steps of a successful Seal.
pub record Run (pf : Platform) (s : Sealer) (req : SealRequest) (t : Trace) (p : Package)
    (u : Trace) : Type 0 where
  pub some_audience : length req.audiences ≢ 0
  pub checked : check_audiences req.segments [] req.audiences ≡ ok tt
  pub decision : IntentDecision
  pub decided : s.verifier.check req.intent_ref req.projection t ≡ ok decision
  pub allowed : decision.allowed ≡ true
  pub constraints_hash : String
  pub answered :
      s.verifier.constraints_hash req.intent_ref (Event.checked req.intent_ref req.projection ∷ t)
      ≡ ok constraints_hash
  pub context : AadContext
  pub before : Trace
  pub began :
      before
      ≡ Event.drew 16
        ∷ Event.asked_constraints req.intent_ref
        ∷ Event.checked req.intent_ref req.projection
        ∷ t
  pub segments : Sealing
  pub after : Trace
  pub sealed :
      seal_segments pf s context req.segments no_segments req.audiences before
      ≡ (ok segments, after)
  pub committed : Committed
  pub commits : commit_segments pf req constraints_hash segments.plain_hash ≡ ok committed
  pub kid : String
  pub named : s.signer.kid after ≡ ok kid
  pub view : Bytes
  pub viewed :
      build_signing_view pf
        (with_kid kid (assemble req context constraints_hash segments committed))
      ≡ ok view
  pub sig : Bytes
  pub signed : s.signer.sign view (Event.asked_kid ∷ after) ≡ ok sig
  pub result :
      p
      ≡ with_signature pf kid sig
          (with_kid kid (assemble req context constraints_hash segments committed))
  pub left : u ≡ Event.signed view ∷ Event.asked_kid ∷ after

-- What signPackage has done.
record IsSignedBy (pf : Platform) (s : Sealer) (q : Package) (t : Trace) (p : Package) (u : Trace)
    : Type 0 where
  kid : String
  named : s.signer.kid t ≡ ok kid
  view : Bytes
  viewed : build_signing_view pf (with_kid kid q) ≡ ok view
  sig : Bytes
  signed : s.signer.sign view (Event.asked_kid ∷ t) ≡ ok sig
  result : p ≡ with_signature pf kid sig (with_kid kid q)
  left : u ≡ Event.signed view ∷ Event.asked_kid ∷ t

sign_package-IsSignedBy :
    (pf : Platform) (s : Sealer) (q : Package) (t : Trace) (p : Package) (u : Trace)
    → sign_package pf s.signer q t ≡ (ok p, u)
    → IsSignedBy pf s q t p u
unfolding sign_package
sign_package-IsSignedBy pf s q t p u h =
    let (kid, named, h₁) = call-bind-eq-ok _ s.signer.kid _ t h in
    let (view, viewed, h₂) = lift-bind-eq-ok (build_signing_view pf (with_kid kid q)) _ _ h₁ in
    let (sig, signed, h₃) = call-bind-eq-ok _ (s.signer.sign view) _ _ h₂ in
    let (same, left) = answer-injective (with_signature pf kid sig (with_kid kid q)) p _ u h₃ in
    record {
      kid = kid;
      named = named;
      view = view;
      viewed = viewed;
      sig = sig;
      signed = signed;
      result = sym same;
      left = sym left;
    }

check_audiences-Distinct :
    (segments : Map Slice) (seen : List String) (auds : List Audience)
    → check_audiences segments seen auds ≡ ok tt
    → Distinct (audience_names auds)
      × Unseen seen (audience_names auds)
      × All (λ a. is_some (lookup a.name segments) ≡ true) auds
unfolding check_audiences
check_audiences-Distinct segments seen [] h = (tt, tt, tt)
check_audiences-Distinct segments seen (a ∷ auds) h =
    let fresh : contains a.name seen ≡ false = ground arith in
    let (d, us, hs) = check_audiences-Distinct segments (a.name ∷ seen) auds (ground arith) in
    let (rest, away) = Unseen-tail a.name seen (audience_names auds) us in
    ((away, d), (fresh, rest), (ground arith, hs))

pub Run-Distinct :
    {pf : Platform} {s : Sealer} {req : SealRequest} {t u : Trace} {p : Package}
    → Run pf s req t p u
    → Distinct (audience_names req.audiences)
Run-Distinct {req} r = (check_audiences-Distinct req.segments [] req.audiences r.checked).0

-- Seal from the authority's answer on.
record AllowedRun (pf : Platform) (s : Sealer) (req : SealRequest) (t : Trace) (p : Package)
    (u : Trace) : Type 0 where
  constraints_hash : String
  answered : s.verifier.constraints_hash req.intent_ref t ≡ ok constraints_hash
  context : AadContext
  before : Trace
  began : before ≡ Event.drew 16 ∷ Event.asked_constraints req.intent_ref ∷ t
  segments : Sealing
  after : Trace
  sealed :
      seal_segments pf s context req.segments no_segments req.audiences before
      ≡ (ok segments, after)
  committed : Committed
  commits : commit_segments pf req constraints_hash segments.plain_hash ≡ ok committed
  signing : IsSignedBy pf s (assemble req context constraints_hash segments committed) after p u

new_package_id-trace :
    (pf : Platform) (rand : Entropy) (t u : Trace) (id : String)
    → new_package_id pf rand t ≡ (ok id, u)
    → u ≡ Event.drew 16 ∷ t
unfolding new_package_id
new_package_id-trace pf rand t u id h =
    let (buf, drawn, h₁) = call-bind-eq-ok (Event.drew 16) (rand 16) _ t h in
    sym (answer-injective _ id _ u h₁).1

seal_allowed-AllowedRun :
    (pf : Platform) (s : Sealer) (req : SealRequest) (t : Trace) (p : Package) (u : Trace)
    → seal_allowed pf s req t ≡ (ok p, u)
    → AllowedRun pf s req t p u
unfolding seal_allowed new_package_id
seal_allowed-AllowedRun pf s req t p u h =
    let (hash, answered, h₁) =
      call-bind-eq-ok _ (s.verifier.constraints_hash req.intent_ref) _ t h in
    let (id, t₂, identified, h₂) = bind-eq-ok (new_package_id pf s.rand) _ _ h₁ in
    let c : AadContext = record {
      package_id = id;
      tenant_id = req.tenant_id;
      environment = req.environment;
    } in
    let (m, t₃, sealed, h₃) =
      bind-eq-ok (seal_segments pf s c req.segments no_segments req.audiences) _ t₂ h₂ in
    let (k, commits, h₄) = lift-bind-eq-ok (commit_segments pf req hash m.plain_hash) _ t₃ h₃ in
    record {
      constraints_hash = hash;
      answered = answered;
      context = c;
      before = t₂;
      began = new_package_id-trace pf s.rand _ t₂ id identified;
      segments = m;
      after = t₃;
      sealed = sealed;
      committed = k;
      commits = commits;
      signing = sign_package-IsSignedBy pf s (assemble req c hash m k) t₃ p u h₄;
    }

-- The part of Seal that follows the check of the audiences.
seal_decided :
    (pf : Platform) (s : Sealer) (req : SealRequest) (t : Trace) (p : Package) (u : Trace)
    → seal pf s req t ≡ (ok p, u)
    → (length req.audiences ≢ 0)
      × (check_audiences req.segments [] req.audiences ≡ ok tt)
      × ((d : IntentDecision) × (s.verifier.check req.intent_ref req.projection t ≡ ok d)
          × (d.allowed ≡ true)
          × (seal_allowed pf s req (Event.checked req.intent_ref req.projection ∷ t) ≡ (ok p, u)))
unfolding seal
seal_decided pf s req t p u h = elim (Bool-cases (eqb (length req.audiences) 0)) [
  | inl nobody ↦ absurd (cc (rw nobody at h))
  | inr somebody ↦
      let (_, checked, h₁) =
        lift-bind-eq-ok (check_audiences req.segments [] req.audiences) _ t (rw somebody at h) in
      let (d, decided, h₂) =
        call-bind-eq-ok _ (s.verifier.check req.intent_ref req.projection) _ t h₁ in
      elim (Bool-cases d.allowed) [
        | inl allowed ↦ (ground arith, checked, (d, decided, allowed, rw allowed at h₂))
        | inr denied ↦ absurd (cc (rw denied at h₂))
      ]
]

pub seal-Run :
    (pf : Platform) (s : Sealer) (req : SealRequest) (t : Trace) (p : Package) (u : Trace)
    → seal pf s req t ≡ (ok p, u)
    → Run pf s req t p u
seal-Run pf s req t p u h =
    let (some_audience, checked, (d, decided, allowed, h₁)) = seal_decided pf s req t p u h in
    let r = seal_allowed-AllowedRun pf s req _ p u h₁ in
    let g = r.signing in
    record {
      some_audience = some_audience;
      checked = checked;
      decision = d;
      decided = decided;
      allowed = allowed;
      constraints_hash = r.constraints_hash;
      answered = r.answered;
      context = r.context;
      before = r.before;
      began = r.began;
      segments = r.segments;
      after = r.after;
      sealed = r.sealed;
      committed = r.committed;
      commits = r.commits;
      kid = g.kid;
      named = g.named;
      view = g.view;
      viewed = g.viewed;
      sig = g.sig;
      signed = g.signed;
      result = g.result;
      left = g.left;
    }

-- What commit_segments has computed.
pub record Commits (pf : Platform) (req : SealRequest) (hash : String) (plain_hash : Map String)
    (k : Committed) : Type 0 where
  pub root : segments_root pf req.segment_order plain_hash ≡ ok k.root
  pub commitment : intent_commitment pf req.intent_ref hash k.root ≡ ok k.commitment
  pub extra :
      compute_bindings (seal_context req hash plain_hash k.root) req.binding_specs ≡ ok k.extra

pub commit_segments-Commits :
    (pf : Platform) (req : SealRequest) (hash : String) (plain_hash : Map String) (k : Committed)
    → commit_segments pf req hash plain_hash ≡ ok k
    → Commits pf req hash plain_hash k
unfolding commit_segments
commit_segments-Commits pf req hash plain_hash k h =
    let (root, rooted, h₁) =
      Errors.bind-eq-ok (segments_root pf req.segment_order plain_hash) _ h in
    let (commitment, committed, h₂) =
      Errors.bind-eq-ok (intent_commitment pf req.intent_ref hash root) _ h₁ in
    let (extra, computed, h₃) =
      Errors.bind-eq-ok (compute_bindings (seal_context req hash plain_hash root) req.binding_specs)
        _ h₂ in
    subst (Commits pf req hash plain_hash)
      (Errors.ok-injective (record { root = root; commitment = commitment; extra = extra }) k h₃)
      (record { root = rooted; commitment = committed; extra = computed })
