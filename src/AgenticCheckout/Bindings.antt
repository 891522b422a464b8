-- ===== src/AgenticCheckout/Bindings.antt =====
-- The profile's bindings: pure, so that Verify recomputes what Seal stored, and telling.
use package.text.Mathlib.TextLemmas.{append_cancel_left}
use chainbind_go.Prelude.{
  String, ◌≡◌, refl, sym, ap, ◌∙◌, true, some, Option, arith, Distinct, All, ◌⊎◌, inl, inr,
}
use chainbind_go.Prelude.Maps.{Same}
use chainbind_go.Errors.{ok, Error, or_err, bind-eq-ok}
use chainbind_go.Value.{Bytes}
use chainbind_go.Platform.{Platform, DecodesBase64, Collision}
use chainbind_go.Ports.{Trace}
use chainbind_go.Canonical.{jcs, hash, ReadsBack, both_object, both_field, both_text, both_end}
use chainbind_go.Canonical.Digests.{hash-jcs_injective}
use chainbind_go.Package.{Package}
use chainbind_go.Bindings.{BindingContext}
use chainbind_go.Bindings.Specs.{names}
use chainbind_go.Report.{Report, report_ok}
use chainbind_go.Verify.{VerifyOptions, verify}
use chainbind_go.Seal.{Sealer, SealRequest, seal}
use chainbind_go.Seal.Verifies.{Trusts, IsPure, IsImmutable, seal-report_ok}
use chainbind_go.AgenticCheckout.{
  transaction_id_input, segment_hash, compute_checkout_hash, compute_transaction_id,
  compute_conditional_transaction_id, binding_specs,
}

pub Distinct-names : (pf : Platform) → Distinct (names (binding_specs pf))
Distinct-names pf = (refl, (refl, (refl, tt)))

segment_hash-Same :
    (c d : BindingContext) (a : String)
    → Same c.plain_hash d.plain_hash
    → segment_hash c a ≡ segment_hash d a
segment_hash-Same c d a same = ap (or_err Error.missing_segment_hash) (same a)

pub binding_specs-IsPure : (pf : Platform) → All IsPure (binding_specs pf)
unfolding compute_checkout_hash compute_transaction_id compute_conditional_transaction_id
binding_specs-IsPure pf = (
  λ c d same ref hash root. segment_hash-Same c d "merchant" same,
  (
    λ c d same ref hash root.
        rw (segment_hash-Same c d "merchant" same, segment_hash-Same c d "gateway" same) refl,
    (λ c d same ref hash root. rw (ref, hash, root) refl, tt),
  ),
)

-- A package sealed with the three bindings of the profile verifies, with no condition on them: at
-- any later time the report is OK for a verifier who trusts the issuer's signer and asks the same
-- authority, if that one's hash for an authorization never changes and raw base64url decodes what
-- it encoded.
pub profile-report_ok :
    (pf : Platform) (s : Sealer) (req : SealRequest) (opt : VerifyOptions)
    (resolve : String → String → Option Bytes) (t u v : Trace) (p : Package)
    → DecodesBase64 pf
    → opt.issuer_key ≡ some resolve
    → Trusts pf s.signer resolve req.issuer
    → opt.intent ≡ some s.verifier
    → IsImmutable s.verifier
    → opt.binding_specs ≡ binding_specs pf
    → req.binding_specs ≡ binding_specs pf
    → seal pf s req t ≡ (ok p, u)
    → (report : Report) × (w : Trace) × (verify pf (some p) opt v ≡ (ok report, w))
      × (report_ok (some report) ≡ true)
profile-report_ok pf s req opt resolve t u v p decodes keyed trust same fixed asked sealed h =
    seal-report_ok pf s req opt resolve t u v p decodes keyed trust same fixed (asked ∙ sym sealed)
      (rw sealed (Distinct-names pf)) (rw sealed (binding_specs-IsPure pf)) h

-- Where canonical JSON can be read back, two contexts with one transaction_id have one merchant
-- hash and one gateway hash, unless a SHA-256 collision is at hand.
pub compute_transaction_id-injective :
    {pf : Platform} (reads : ReadsBack pf) (c d : BindingContext) (id : String)
    → compute_transaction_id pf c ≡ ok id
    → compute_transaction_id pf d ≡ ok id
    → ((segment_hash c "merchant" ≡ segment_hash d "merchant")
        × (segment_hash c "gateway" ≡ segment_hash d "gateway"))
      ⊎ Collision pf
unfolding compute_transaction_id
compute_transaction_id-injective {pf} reads c d id h h' =
    let (m, hm, h₁) = bind-eq-ok (segment_hash c "merchant") _ h in
    let (g, hg, h₂) = bind-eq-ok (segment_hash c "gateway") _ h₁ in
    let (a, ja, ea) = bind-eq-ok (jcs pf (transaction_id_input m g)) _ h₂ in
    let (m', hm', h₁') = bind-eq-ok (segment_hash d "merchant") _ h' in
    let (g', hg', h₂') = bind-eq-ok (segment_hash d "gateway") _ h₁' in
    let (b, jb, eb) = bind-eq-ok (jcs pf (transaction_id_input m' g')) _ h₂' in
    let digests = append_cancel_left "txn:" (hash pf a) (hash pf b) (ground arith) in
    elim (hash-jcs_injective reads (transaction_id_input m g) (transaction_id_input m' g') a b
      (both_object (both_field both_text (both_field both_text both_end))) ja jb digests) [
        | inl same ↦
            let em : m ≡ m' = ground arith in
            let eg : g ≡ g' = ground arith in inl (rw (hm, hm', em) refl, rw (hg, hg', eg) refl)
        | inr x ↦ inr x
      ]
