-- ===== src/Seal/Order.antt =====
-- The calls that a successful Seal makes, in their order.
use chainbind_go.Prelude.{
  none, ◌≡◌, sym, ap, subst, ◌∙◌, inl, inr, List, [], ◌∷◌, length, ltb, Bool-cases,
}
use chainbind_go.Prelude.Maps.{Map, lookup, or_else}
use chainbind_go.Errors.{ok}
use chainbind_go.Value.{Bytes, Slice, contents, slice_bytes}
use chainbind_go.Platform.{Platform}
use chainbind_go.Ports.{
  Event, Trace, Entropy, call-bind-eq-ok, lift-bind-eq-ok, bind-eq-ok, answer-injective,
}
use chainbind_go.Package.{Package, AadContext, supported_spec_version}
use chainbind_go.Canonical.{jcs}
use chainbind_go.Aad.{aad}
use chainbind_go.Crypto.{Encrypted, new_dek, new_gcm, encrypt}
use chainbind_go.Seal.{
  Audience, Sealer, SealRequest, SegmentSealed, Sealing, gcm_tag_size, finish_segment, seal_segment,
  seal_segments, seal, add_segment, no_segments,
}
use chainbind_go.Seal.Run.{seal-Run}

-- For every audience, newest last: a data key drawn, a nonce drawn, and that key wrapped for that
-- audience.
abbrev pub segment_events : List Audience → List Bytes → Trace → Trace
segment_events [] deks t = t
segment_events (aud ∷ auds) [] t = t
segment_events (aud ∷ auds) (dek ∷ deks) t =
    segment_events auds deks (Event.wrapped aud.public_key dek ∷ Event.drew 12 ∷ Event.drew 32 ∷ t)

encrypt-trace :
    (pf : Platform) (rand : Entropy) (dek plaintext ad : Bytes) (t u : Trace) (e : Encrypted)
    → encrypt pf rand dek plaintext ad t ≡ (ok e, u)
    → u ≡ Event.drew 12 ∷ t
unfolding encrypt
encrypt-trace pf rand dek plaintext ad t u e h =
    let (_, keyed, h₁) = lift-bind-eq-ok (new_gcm pf dek) _ t h in
    let (nonce, drawn, h₂) = call-bind-eq-ok (Event.drew 12) (rand 12) _ t h₁ in
    sym (answer-injective _ e _ u h₂).1

finish_segment-trace :
    (pf : Platform) (s : Sealer) (aud : Audience) (plaintext : Slice) (dek : Bytes) (e : Encrypted)
    (t u : Trace) (r : SegmentSealed)
    → finish_segment pf s aud plaintext dek e t ≡ (ok r, u)
    → u ≡ Event.wrapped aud.public_key dek ∷ t
unfolding finish_segment
finish_segment-trace pf s aud plaintext dek e t u r h =
    elim (Bool-cases (ltb (length e.ciphertext) gcm_tag_size)) [
      | inl short ↦ absurd (cc (rw short at h))
      | inr long ↦
          let (canon, _, h₁) =
            lift-bind-eq-ok (jcs pf (slice_bytes plaintext)) _ t (rw long at h) in
          let (w, _, h₂) =
            call-bind-eq-ok (Event.wrapped aud.public_key dek) (s.wrapper.wrap aud.public_key dek) _
              t h₁ in
          sym (answer-injective _ r _ u h₂).1
    ]

seal_segment-trace :
    (pf : Platform) (s : Sealer) (c : AadContext) (aud : Audience) (plaintext : Slice) (t u : Trace)
    (r : SegmentSealed)
    → seal_segment pf s c aud plaintext t ≡ (ok r, u)
    → (dek : Bytes) × (s.rand 32 t ≡ ok dek)
      × (u ≡ Event.wrapped aud.public_key dek ∷ Event.drew 12 ∷ Event.drew 32 ∷ t)
unfolding seal_segment new_dek
seal_segment-trace pf s c aud plaintext t u r h =
    let (dek, drawn, h₁) = call-bind-eq-ok (Event.drew 32) (s.rand 32) _ t h in
    let (ad, _, h₂) = lift-bind-eq-ok (aad pf c aud.name supported_spec_version) _ _ h₁ in
    let (e, t₃, encrypted, h₃) =
      bind-eq-ok (encrypt pf s.rand dek (contents plaintext) ad) _ _ h₂ in
    let first = encrypt-trace pf s.rand dek (contents plaintext) ad _ t₃ e encrypted in
    (
      dek,
      drawn,
      finish_segment-trace pf s aud plaintext dek e t₃ u r h₃
          ∙ ap (λ v. Event.wrapped aud.public_key dek ∷ v) first,
    )

-- The keys are drawn in the order of the audiences, each in the trace that the call before has left.
abbrev pub DrawnFor : Sealer → List Audience → List Bytes → Trace → Type 0
DrawnFor s [] [] t = Unit
DrawnFor s [] (dek ∷ deks) t = ⊥
DrawnFor s (aud ∷ auds) [] t = ⊥
DrawnFor s (aud ∷ auds) (dek ∷ deks) t =
    (s.rand 32 t ≡ ok dek)
    × DrawnFor s auds deks (Event.wrapped aud.public_key dek ∷ Event.drew 12 ∷ Event.drew 32 ∷ t)

seal_segments-trace :
    (pf : Platform) (s : Sealer) (c : AadContext) (segments : Map Slice) (m n : Sealing)
    (auds : List Audience) (t u : Trace)
    → seal_segments pf s c segments m auds t ≡ (ok n, u)
    → (deks : List Bytes) × DrawnFor s auds deks t × (u ≡ segment_events auds deks t)
unfolding seal_segments
seal_segments-trace pf s c segments m n [] t u h = ([], tt, sym (answer-injective m n t u h).1)
seal_segments-trace pf s c segments m n (aud ∷ auds) t u h =
    let plaintext = or_else (lookup aud.name segments) none in
    let (r, t₁, done, h₁) = bind-eq-ok (seal_segment pf s c aud plaintext) _ t h in
    let (jkt, _, h₂) = lift-bind-eq-ok (s.wrapper.thumbprint aud.public_key) _ t₁ h₁ in
    let (dek, drawn, first) = seal_segment-trace pf s c aud plaintext t t₁ r done in
    let (deks, rest, left) =
      seal_segments-trace pf s c segments (add_segment aud r jkt m) n auds t₁ u h₂ in
    (
      dek ∷ deks,
      (drawn, subst (DrawnFor s auds deks) first rest),
      left ∙ ap (segment_events auds deks) first,
    )

-- All calls of a successful Seal, in their order: the authority is asked, first for permission and
-- then for the constraints hash; the package id is drawn; for every audience in turn a data key is
-- drawn, a nonce is drawn, and this key is wrapped for this audience; then the kid is asked for, and
-- one message is signed, once.
pub seal-trace :
    (pf : Platform) (s : Sealer) (req : SealRequest) (t u : Trace) (p : Package)
    → seal pf s req t ≡ (ok p, u)
    → let start =
        Event.drew 16
        ∷ Event.asked_constraints req.intent_ref
        ∷ Event.checked req.intent_ref req.projection
        ∷ t in
      (deks : List Bytes) × (view : Bytes) × DrawnFor s req.audiences deks start
      × (u ≡ Event.signed view ∷ Event.asked_kid ∷ segment_events req.audiences deks start)
seal-trace pf s req t u p h =
    let r = seal-Run pf s req t p u h in
    let (deks, drawn, left) =
      seal_segments-trace pf s r.context req.segments no_segments r.segments req.audiences r.before
        r.after r.sealed in
    (
      deks,
      r.view,
      subst (DrawnFor s req.audiences deks) r.began drawn,
      r.left
          ∙ ap (λ v. Event.signed r.view ∷ Event.asked_kid ∷ v)
              (left ∙ ap (segment_events req.audiences deks) r.began),
    )
