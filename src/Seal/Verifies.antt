-- ===== src/Seal/Verifies.antt =====
-- A sealed package verifies.
use chainbind_go.Prelude.{
  All-zip, String, eq_iff, ◌≡◌, refl, sym, ◌∙◌, inl, inr, true, Option, some, [], ◌∷◌, ◌++◌, ◌-◌,
  length, take, drop, contains, Distinct, All, All-of_contains, Bool-cases, take-append-drop, subst,
  ap,
}
use chainbind_go.Prelude.Maps.{lookup, IsMap, Same}
use chainbind_go.Errors.{ok}
use chainbind_go.Value.{Bytes, Slice}
use chainbind_go.Platform.{Platform, DecodesBase64}
use chainbind_go.Crypto.{Encrypted}
use chainbind_go.Ports.{Trace, Event, Wrapping, Signer, IntentVerifier}
use chainbind_go.Package.{Package, AadContext, Segment, SealedSegment, supported_spec_version}
use chainbind_go.Canonical.{hash}
use chainbind_go.Bindings.{BindingContext, BindingSpec}
use chainbind_go.Bindings.Commitments.{segments_root-Same, lookup-eq-none}
use chainbind_go.Bindings.Specs.{names, compute_bindings-Holds, Holds}
use chainbind_go.SignView.{
  required_signed_fields, signing_view_fields, build_signing_view, reconstruct_signing_view,
  check_signed_fields, check_names, encode_signature_value, decode_signature_value,
}
use chainbind_go.SignView.Names.{check_signed_fields_iff}
use chainbind_go.Report.{Report, report_ok}
use chainbind_go.Verify.{VerifyOptions, check_cipher_hash, plain_hashes, resolve_issuer_key, verify}
use chainbind_go.Verify.Structure.{IsStructured}
use chainbind_go.Verify.Content.{
  IsConsistent, CipherMatches, check_cipher_hash_iff, BindingMatches, lookup-plain_hashes,
  package_context,
}
use chainbind_go.Verify.Accept.{IsSigned, IsAuthentic, IsAuthorized, report_ok-verify_iff}
use chainbind_go.Verify.Asks.{verify-Reported}
use chainbind_go.Seal.{
  Audience, Sealer, SealRequest, SegmentSealed, segment_result, with_kid, with_signature, assemble,
  seal,
}
use chainbind_go.Seal.Segments.{IsSealed}
use chainbind_go.Seal.Run.{Run, seal-Run, commit_segments-Commits, seal_context}
use chainbind_go.Seal.Sealed.{Run-AreMaps, Run-Covers, Sealed-in_order, described_iff, order-ne-nil}

-- The key that a verifier trusts for an issuer checks what the signer signs.
pub record Trusts (pf : Platform) (signer : Signer) (resolve : String → String → Option Bytes)
    (iss : String) : Type 0 where
  pub key : String → Bytes
  pub key_size : (kid : String) → length (key kid) ≡ 32
  pub resolves :
      (t : Trace) (kid : String) → signer.kid t ≡ ok kid → resolve iss kid ≡ some (key kid)
  pub checks :
      (t u : Trace) (kid : String) (view sig : Bytes)
      → signer.kid t ≡ ok kid
      → signer.sign view u ≡ ok sig
      → (length sig ≡ 64) × (pf.ed25519_verify (key kid) view sig ≡ true)

-- A profile's binding is a function of the content of its context's hash map.
abbrev pub IsPure : BindingSpec → Type 0
IsPure spec =
    (c d : BindingContext)
    → Same c.plain_hash d.plain_hash
    → c.intent_ref ≡ d.intent_ref
    → c.constraints_hash ≡ d.constraints_hash
    → c.segments_root ≡ d.segments_root
    → spec.compute c ≡ spec.compute d

-- The constraints hash of an authorization never changes.
abbrev pub IsImmutable : IntentVerifier → Type 0
IsImmutable iv =
    (ref : String) (t u : Trace) → iv.constraints_hash ref t ≡ iv.constraints_hash ref u

-- The check of a cipher hash, once its two parts are decoded.
check_cipher_hash_lem :
    (pf : Platform) (seg : Segment) (sealed : SealedSegment) (ciphertext tag : Bytes)
    → pf.base64url_decode sealed.ciphertext ≡ some ciphertext
    → pf.base64url_decode sealed.tag ≡ some tag
    → hash pf (ciphertext ++ tag) ≡ seg.cipher_hash
    → check_cipher_hash pf seg sealed ≡ true
unfolding check_cipher_hash
check_cipher_hash_lem pf seg sealed ciphertext tag hc ht e =
    rw (hc, ht, check_cipher_hash) ((eq_iff _ _).1 e)

-- A segment as sealed passes the check of its cipher hash.
check_cipher_hash-result :
    (pf : Platform) (decodes : DecodesBase64 pf) (aud : Audience) (e : Encrypted) (canon : Bytes)
    (w : Wrapping)
    → let r = segment_result pf aud e canon w in check_cipher_hash pf r.segment r.sealed ≡ true
check_cipher_hash-result pf decodes aud e canon w =
    let cut = length e.ciphertext - 16 in
    let r = segment_result pf aud e canon w in
    check_cipher_hash_lem pf r.segment r.sealed (take cut e.ciphertext) (drop cut e.ciphertext)
      (decodes.decode-encode _) (decodes.decode-encode _)
      (ap (hash pf) (take-append-drop cut e.ciphertext))

check_cipher_hash-IsSealed :
    (pf : Platform) (decodes : DecodesBase64 pf) (r : SegmentSealed) {s : Sealer} {c : AadContext}
    {aud : Audience} {plaintext : Slice}
    → IsSealed pf s c aud plaintext r
    → check_cipher_hash pf r.segment r.sealed ≡ true
check_cipher_hash-IsSealed pf decodes r {aud} x =
    subst (λ q. check_cipher_hash pf q.segment q.sealed ≡ true) (sym x.made)
      (check_cipher_hash-result pf decodes aud x.encrypted x.canon x.wrapping)

required-checked : check_signed_fields required_signed_fields ≡ ok tt
unfolding check_signed_fields check_names
required-checked = refl

module _ {pf : Platform} {s : Sealer} {req : SealRequest} {t u : Trace} {p : Package}
    (r : Run pf s req t p u) (decodes : DecodesBase64 pf) where
  -- The returned package, in full.
  abbrev pub final : Package
  final =
      with_signature pf r.kid r.sig
        (with_kid r.kid (assemble req r.context r.constraints_hash r.segments r.committed))

  final-IsStructured : IsStructured final
  unfolding with_signature with_kid assemble
  final-IsStructured = record {
    some_audience = order-ne-nil r;
    once = (Run-Covers r).once;
    described = described_iff r;
    sealed = λ a h.
        let x = Sealed-in_order r a h in
        let found : lookup a r.segments.sealed_segments ≡ some x.holds.result.sealed =
          rw (← x.name) x.holds.sealed_at in
        rw found refl;
  }

  final-cipher : (a : String) → contains a req.segment_order ≡ true → CipherMatches pf final a
  unfolding with_signature with_kid assemble
  final-cipher a h =
      let x = Sealed-in_order r a h in
      let sealed : lookup a r.segments.sealed_segments ≡ some x.holds.result.sealed =
        rw (← x.name) x.holds.sealed_at in
      let described : lookup a r.segments.manifest_segments ≡ some x.holds.result.segment =
        rw (← x.name) x.holds.described_at in
      rw (described, sealed)
        ((check_cipher_hash_iff pf x.holds.result.segment x.holds.result.sealed).0
          (check_cipher_hash-IsSealed pf decodes x.holds.result x.holds.is_sealed))

  -- The hashes that a verifier reads off the manifest are those that were committed to.
  final-hashes : Same r.segments.plain_hash (plain_hashes final [] req.segment_order)
  unfolding with_signature with_kid assemble
  final-hashes a = elim (Bool-cases (contains a req.segment_order)) [
    | inl here ↦
        let x = Sealed-in_order r a here in
        let hashed : lookup a r.segments.plain_hash ≡ some x.holds.result.plain_hash =
          rw (← x.name) x.holds.hash_at in
        let described : lookup a r.segments.manifest_segments ≡ some x.holds.result.segment =
          rw (← x.name) x.holds.described_at in
        let m = x.holds.is_sealed.made in
        let same : x.holds.result.plain_hash ≡ x.holds.result.segment.plain_hash = rw m refl in
        rw (lookup-plain_hashes final a [] req.segment_order, here, hashed, described)
          (ap some same)
    | inr away ↦
        rw
          (
            lookup-plain_hashes final a [] req.segment_order,
            away,
            lookup-eq-none a (Run-Covers r) away,
          )
          refl
  ]

  final-viewed : reconstruct_signing_view pf final ≡ ok r.view
  unfolding reconstruct_signing_view build_signing_view signing_view_fields with_signature
  final-viewed = rw required-checked r.viewed

  -- The signature is over the view of the very package that carries it.
  final-IsSigned :
      {opt : VerifyOptions} {resolve : String → String → Option Bytes}
      → opt.issuer_key ≡ some resolve
      → Trusts pf s.signer resolve req.issuer
      → IsSigned pf final opt
  unfolding with_signature with_kid assemble
  final-IsSigned {opt} {resolve} keyed trust =
      let (sig_size, verified) =
        trust.checks r.after (Event.asked_kid ∷ r.after) r.kid r.view r.sig r.named r.signed in
      record {
        names = (check_signed_fields_iff required_signed_fields).0 required-checked;
        view = r.view;
        viewed = final-viewed;
        sig = r.sig;
        decoded =
            unfold decode_signature_value encode_signature_value in
            rw (decodes.decode-encode r.sig) refl;
        key = trust.key r.kid;
        trusted =
            unfold resolve_issuer_key in
            rw (keyed, resolve_issuer_key) (trust.resolves r.after r.kid r.named);
        key_size = trust.key_size r.kid;
        sig_size = sig_size;
        verified = verified;
      }

  -- What was sealed under a pure binding's name is what the binding computes for a verifier.
  BindingMatches-IsPure :
      (spec : BindingSpec)
      → IsPure spec
      → Holds
          (seal_context req r.constraints_hash r.segments.plain_hash r.committed.root)
          r.committed.extra
          spec
      → BindingMatches final (package_context pf final) spec
  unfolding with_signature with_kid assemble
  BindingMatches-IsPure spec pure (v, computed, found) =
      let k =
        commit_segments-Commits pf req r.constraints_hash r.segments.plain_hash r.committed
          r.commits in
      let rooted =
        segments_root-Same pf req.segment_order r.segments.plain_hash
          (plain_hashes final [] req.segment_order) final-hashes k.root in
      let sealed = seal_context req r.constraints_hash r.segments.plain_hash r.committed.root in
      rw found (
        sym (pure sealed (package_context pf final) final-hashes refl refl (rw rooted refl))
        ∙ computed)

  final-IsConsistent :
      All IsPure req.binding_specs
      → Distinct (names req.binding_specs)
      → IsConsistent pf final req.binding_specs
  unfolding with_signature with_kid assemble
  final-IsConsistent pure distinct =
      let k =
        commit_segments-Commits pf req r.constraints_hash r.segments.plain_hash r.committed
          r.commits in
      let rooted =
        segments_root-Same pf req.segment_order r.segments.plain_hash
          (plain_hashes final [] req.segment_order) final-hashes k.root in
      let sealed = seal_context req r.constraints_hash r.segments.plain_hash r.committed.root in
      let (_, held, _) =
        compute_bindings-Holds sealed req.binding_specs r.committed.extra distinct k.extra in
      record {
        same_id = refl;
        ciphers = All-of_contains (CipherMatches pf final) req.segment_order final-cipher;
        root = rooted;
        bindings =
            All-zip IsPure (Holds sealed r.committed.extra)
              (BindingMatches final (package_context pf final)) BindingMatches-IsPure
              req.binding_specs pure held;
      }

  final-IsAuthorized :
      {opt : VerifyOptions}
      → opt.intent ≡ some s.verifier
      → IsImmutable s.verifier
      → (v : Trace) → IsAuthorized pf final opt v
  unfolding with_signature with_kid assemble
  final-IsAuthorized same fixed v =
      let k =
        commit_segments-Commits pf req r.constraints_hash r.segments.plain_hash r.committed
          r.commits in
      record {
        authority = s.verifier;
        configured = same;
        answered = fixed req.intent_ref v _ ∙ r.answered;
        committed = k.commitment;
      }

  final-IsMap : (q : Package) → q ≡ final → IsMap q.manifest.segments
  unfolding with_signature with_kid assemble
  final-IsMap q e = subst (λ x. IsMap x.manifest.segments) (sym e) (Run-AreMaps r).described

  final-version : (q : Package) → q ≡ final → q.spec_version ≡ supported_spec_version
  unfolding with_signature with_kid assemble
  final-version q e = ap (λ x. x.spec_version) e

-- The package is authentic for every verifier who trusts the issuer's signer and asks for the
-- bindings of the request, whatever authority that verifier has.
module _ {pf : Platform} {s : Sealer} {req : SealRequest} {t u : Trace} {p : Package}
    (r : Run pf s req t p u) (decodes : DecodesBase64 pf) where
  pub Run-IsMap : IsMap p.manifest.segments
  Run-IsMap = final-IsMap r decodes p r.result

  pub Run-IsAuthentic :
      {opt : VerifyOptions} {resolve : String → String → Option Bytes}
      → opt.issuer_key ≡ some resolve
      → Trusts pf s.signer resolve req.issuer
      → opt.binding_specs ≡ req.binding_specs
      → Distinct (names req.binding_specs)
      → All IsPure req.binding_specs
      → IsAuthentic pf p opt
  Run-IsAuthentic {opt} keyed trust specs distinct pure = record {
    version = final-version r decodes p r.result;
    structured = subst IsStructured (sym r.result) (final-IsStructured r decodes);
    signed = subst (λ q. IsSigned pf q opt) (sym r.result) (final-IsSigned r decodes keyed trust);
    consistent =
        subst (λ q. IsConsistent pf q opt.binding_specs) (sym r.result)
          (subst (IsConsistent pf (final r decodes)) (sym specs)
            (final-IsConsistent r decodes pure distinct));
  }

-- What Seal returns, Verify accepts: at any later time, the report of the verifier that trusts the
-- issuer's signer is OK. Raw base64url decodes what it encoded; the binding specs are those of the
-- request, with distinct names and pure; the authority is the one that Seal asked, and its hash
-- for an authorization never changes.
pub seal-report_ok :
    (pf : Platform) (s : Sealer) (req : SealRequest) (opt : VerifyOptions)
    (resolve : String → String → Option Bytes) (t u v : Trace) (p : Package)
    → DecodesBase64 pf
    → opt.issuer_key ≡ some resolve
    → Trusts pf s.signer resolve req.issuer
    → opt.intent ≡ some s.verifier
    → IsImmutable s.verifier
    → opt.binding_specs ≡ req.binding_specs
    → Distinct (names req.binding_specs)
    → All IsPure req.binding_specs
    → seal pf s req t ≡ (ok p, u)
    → (report : Report) × (w : Trace) × (verify pf (some p) opt v ≡ (ok report, w))
      × (report_ok (some report) ≡ true)
seal-report_ok pf s req opt resolve t u v p decodes keyed trust same fixed specs distinct pure h =
    let r = seal-Run pf s req t p u h in
    let authentic = Run-IsAuthentic r decodes {opt = opt} keyed trust specs distinct pure in
    let authorized =
      subst (λ q. IsAuthorized pf q opt v) (sym r.result)
        (final-IsAuthorized r decodes same fixed v) in
    let x = verify-Reported pf p opt v in
    let good =
      (report_ok-verify_iff pf p opt v x.left x.report (Run-IsMap r decodes)
          (subst (λ specs. Distinct (names specs)) (sym specs) distinct) x.result).1
        (authentic, authorized) in
    (x.report, x.left, x.result, good)
