-- ===== src/Verify/Accept.antt =====
-- What Verify accepts, stated without its order of checks.
use chainbind_go.Prelude.{
  sym, ◌∙◌, eq_refl, String, eq_iff, ◌≡◌, refl, ◌↔◌, ◌⊎◌, inl, inr, true, Option, none, some, arith,
  length, Distinct, Bool-cases, Option-cases,
}
use chainbind_go.Prelude.Maps.{IsMap}
use chainbind_go.Errors.{ok, Result-cases}
use chainbind_go.Value.{Bytes}
use chainbind_go.Platform.{Platform}
use chainbind_go.Ports.{IntentVerifier, Trace, answer-injective}
use chainbind_go.Package.{Package, check_spec_version, supported_spec_version}
use chainbind_go.Bindings.{intent_commitment}
use chainbind_go.Bindings.Specs.{names}
use chainbind_go.SignView.{reconstruct_signing_view, decode_signature_value}
use chainbind_go.SignView.Names.{NamesView}
use chainbind_go.Fault.{StructuralFault}
use chainbind_go.Report.{Report, level1_passed, level1, report_ok}
use chainbind_go.Report.Verdicts.{
  level1-intent, level1_passed_sound, level1_passed_complete, report_ok_iff,
}
use chainbind_go.Verify.{
  VerifyOptions, Parse, refused, parsed, parse_package, resolve_issuer_key, verify_ed25519,
  spec_version_supported, check_content, compare_intent, intent_answer, verify_intent,
  verify_parsed, verify,
}
use chainbind_go.Verify.Structure.{IsStructured, parse_package-parsed_iff}
use chainbind_go.Verify.Content.{IsConsistent, check_content_iff}

-- A signature that the caller's trust store vouches for.
pub record IsSigned (pf : Platform) (p : Package) (opt : VerifyOptions) : Type 0 where
  pub names : NamesView p.signature.signed_fields
  pub view : Bytes
  pub viewed : reconstruct_signing_view pf p ≡ ok view
  pub sig : Bytes
  pub decoded : decode_signature_value pf p.signature.value ≡ ok sig
  pub key : Bytes
  pub trusted : resolve_issuer_key opt.issuer_key p.issuer.iss p.issuer.kid ≡ some key
  pub key_size : length key ≡ 32
  pub sig_size : length sig ≡ 64
  pub verified : pf.ed25519_verify key view sig ≡ true

-- The package is authentic: of this version, well structured, signed, and consistent with what
-- was signed.
pub record IsAuthentic (pf : Platform) (p : Package) (opt : VerifyOptions) : Type 0 where
  pub version : p.spec_version ≡ supported_spec_version
  pub structured : IsStructured p
  pub signed : IsSigned pf p opt
  pub consistent : IsConsistent pf p opt.binding_specs

-- The authority confirms the constraints hash, and the commitment is over it.
pub record IsAuthorized (pf : Platform) (p : Package) (opt : VerifyOptions) (t : Trace)
    : Type 0 where
  pub authority : IntentVerifier
  pub configured : opt.intent ≡ some authority
  pub answered : authority.constraints_hash p.intent.intent_ref t ≡ ok p.intent.constraints_hash
  pub committed :
      intent_commitment pf p.intent.intent_ref p.intent.constraints_hash p.bindings.segments_root
      ≡ ok p.bindings.intent_commitment

spec_version_supported_iff :
    (v : String) → (spec_version_supported v ≡ true) ↔ (v ≡ supported_spec_version)
unfolding spec_version_supported check_spec_version
spec_version_supported_iff v = ground (arith, eq_iff v supported_spec_version)

verify_ed25519_iff :
    (pf : Platform) (key view sig : Bytes)
    → (verify_ed25519 pf key view sig ≡ true)
      ↔ ((length key ≡ 32) × (length sig ≡ 64) × (pf.ed25519_verify key view sig ≡ true))
unfolding verify_ed25519
verify_ed25519_iff pf key view sig = ground arith

pub Parse-cases :
    (r : Parse)
    → ((f : StructuralFault) × (r ≡ refused f))
      ⊎ ((view : Bytes) × ((sig : Bytes) × (r ≡ parsed view sig)))
Parse-cases (refused f) = inl (f, refl)
Parse-cases (parsed view sig) = inr (view, (sig, refl))

module _ (pf : Platform) (p : Package) (opt : VerifyOptions) where
  -- The outcome of L1.1 and L1.2.
  IsSigned-verified :
      (view sig key : Bytes)
      → NamesView p.signature.signed_fields
      → reconstruct_signing_view pf p ≡ ok view
      → decode_signature_value pf p.signature.value ≡ ok sig
      → resolve_issuer_key opt.issuer_key p.issuer.iss p.issuer.kid ≡ some key
      → verify_ed25519 pf key view sig ≡ true
      → IsSigned pf p opt
  IsSigned-verified view sig key names viewed decoded trusted good =
      let (key_size, sig_size, verified) = (verify_ed25519_iff pf key view sig).0 good in
      record {
        names = names;
        view = view;
        viewed = viewed;
        sig = sig;
        decoded = decoded;
        key = key;
        trusted = trusted;
        key_size = key_size;
        sig_size = sig_size;
        verified = verified;
      }

  abbrev content : Report
  content = check_content pf p opt.binding_specs

  verify_intent-level1 :
      (iv : Option IntentVerifier) (t u : Trace) (r : Report)
      → verify_intent pf p iv content t ≡ (ok r, u)
      → level1_passed r ≡ level1_passed content
  unfolding verify_intent intent_answer
  verify_intent-level1 none t u r h =
      rw (← (answer-injective _ r t u h).0) (level1-intent content _)
  verify_intent-level1 (some iv) t u r h =
      elim (Result-cases (iv.constraints_hash p.intent.intent_ref t)) [
        | inl (e, unreachable) ↦
            rw (← (answer-injective _ r _ u (rw unreachable at h)).0) (level1-intent content _)
        | inr (a, answered) ↦
            rw (← (answer-injective _ r _ u (rw answered at h)).0) (level1-intent content _)
      ]

  verify_parsed-level1 :
      (view sig : Bytes) (t u : Trace) (r : Report)
      → verify_parsed pf p opt view sig t ≡ (ok r, u)
      → level1_passed r ≡ true
      → (key : Bytes) × (resolve_issuer_key opt.issuer_key p.issuer.iss p.issuer.kid ≡ some key)
        × (verify_ed25519 pf key view sig ≡ true)
        × (level1_passed content ≡ true)
  unfolding verify_parsed
  verify_parsed-level1 view sig t u r h good =
      elim (Option-cases (resolve_issuer_key opt.issuer_key p.issuer.iss p.issuer.kid)) [
        | inl untrusted ↦ absurd (ground (arith, (level1_passed_sound r good).signed))
        | inr (key, trusted) ↦ elim (Bool-cases (verify_ed25519 pf key view sig)) [
          | inr forged ↦ absurd (ground (arith, (level1_passed_sound r good).signed))
          | inl signed ↦ elim (Bool-cases (level1_passed content)) [
            | inl passed ↦ (key, trusted, signed, passed)
            | inr failed ↦ absurd (ground (arith, good))
          ]
        ]
      ]

  -- Where Level 1 of a report passes, the package is authentic.
  level1-IsAuthentic :
      (t u : Trace) (r : Report)
      → IsMap p.manifest.segments
      → Distinct (names opt.binding_specs)
      → verify pf (some p) opt t ≡ (ok r, u)
      → level1_passed r ≡ true
      → IsAuthentic pf p opt
  unfolding verify
  level1-IsAuthentic t u r m named h good =
      elim (Bool-cases (spec_version_supported p.spec_version)) [
        | inr unsupported ↦ absurd (ground (arith, (level1_passed_sound r good).signed))
        | inl supported ↦ elim (Parse-cases (parse_package pf p)) [
          | inl (fault, broken) ↦ absurd (ground (arith, (level1_passed_sound r good).signed))
          | inr (view, (sig, sound)) ↦
              let (structured, fields, viewed, decoded) =
                (parse_package-parsed_iff p m pf view sig).0 sound in
              let (key, trusted, verified, passed) =
                verify_parsed-level1 view sig t u r (ground arith) good in
              record {
                version = (spec_version_supported_iff p.spec_version).0 supported;
                structured = structured;
                signed = IsSigned-verified view sig key fields viewed decoded trusted verified;
                consistent =
                    (check_content_iff pf p opt.binding_specs structured.once
                        structured.some_audience named).0
                      passed;
              }
        ]
      ]

  verify_parsed-IsAuthentic :
      (t : Trace) (view sig key : Bytes)
      → resolve_issuer_key opt.issuer_key p.issuer.iss p.issuer.kid ≡ some key
      → verify_ed25519 pf key view sig ≡ true
      → level1_passed content ≡ true
      → verify_parsed pf p opt view sig t ≡ verify_intent pf p opt.intent content t
  unfolding verify_parsed
  verify_parsed-IsAuthentic t view sig key trusted verified passed =
      rw (trusted, verified, passed, verify_parsed) refl

  -- An authentic package goes through to the intent level.
  verify-IsAuthentic :
      (t : Trace)
      → IsMap p.manifest.segments
      → Distinct (names opt.binding_specs)
      → IsAuthentic pf p opt
      → (verify pf (some p) opt t ≡ verify_intent pf p opt.intent content t)
        × (level1_passed content ≡ true)
  unfolding verify
  verify-IsAuthentic t m named a =
      let s = a.signed in
      let sound =
        (parse_package-parsed_iff p m pf s.view s.sig).1
          (a.structured, s.names, s.viewed, s.decoded) in
      let passed =
        (check_content_iff pf p opt.binding_specs a.structured.once a.structured.some_audience
            named).1
          a.consistent in
      let verified =
        (verify_ed25519_iff pf s.key s.view s.sig).1 (s.key_size, s.sig_size, s.verified) in
      (
        rw ((spec_version_supported_iff p.spec_version).1 a.version, sound)
            (verify_parsed-IsAuthentic t s.view s.sig s.key s.trusted verified passed),
        passed,
      )

  -- Where the manifest map has each key once and the binding specs have distinct names, Level 1 of
  -- Verify's report passes exactly for authentic packages: of this version, well structured,
  -- signed by a trusted key, and consistent with what was signed.
  pub level1-verify_iff :
      (t u : Trace) (r : Report)
      → IsMap p.manifest.segments
      → Distinct (names opt.binding_specs)
      → verify pf (some p) opt t ≡ (ok r, u)
      → (level1 (some r) ≡ true) ↔ IsAuthentic pf p opt
  unfolding level1
  level1-verify_iff t u r m named h = (
    level1-IsAuthentic t u r m named h,
    λ a.
        let (through, passed) = verify-IsAuthentic t m named a in
        verify_intent-level1 opt.intent t u r (sym through ∙ h) ∙ passed,
  )

  -- The intent level as IsAuthorized states it.
  compare_intent_iff :
      (a : String)
      → ((compare_intent pf p a).valid ≡ true) ↔ (
          (a ≡ p.intent.constraints_hash)
          × (intent_commitment pf p.intent.intent_ref a p.bindings.segments_root
              ≡ ok p.bindings.intent_commitment))
  unfolding compare_intent
  compare_intent_iff a = (
    λ h.
        let same : a ≡ p.intent.constraints_hash =
          ground (arith, eq_iff a p.intent.constraints_hash) in
        (same, committed same h),
    λ (same, e). rw ((eq_iff a p.intent.constraints_hash).1 same, e, eq_refl) refl,
  )
    where
      committed :
          a ≡ p.intent.constraints_hash
          → (compare_intent pf p a).valid ≡ true
          → intent_commitment pf p.intent.intent_ref a p.bindings.segments_root
            ≡ ok p.bindings.intent_commitment
      committed same h =
          elim (Result-cases
            (intent_commitment pf p.intent.intent_ref a p.bindings.segments_root)) [
              | inl (e, failed) ↦ absurd (ground (arith, eq_iff a p.intent.constraints_hash))
              | inr (c, made) ↦
                  ground (
                    arith,
                    eq_iff a p.intent.constraints_hash,
                    eq_iff c p.bindings.intent_commitment,
                  )
            ]

  compare_intent-evaluated : (a : String) → (compare_intent pf p a).evaluated ≡ true
  unfolding compare_intent
  compare_intent-evaluated a = ground arith

  authority-eq :
      {t : Trace} (iv : IntentVerifier)
      → opt.intent ≡ some iv
      → (a : IsAuthorized pf p opt t) → a.authority ≡ iv
  authority-eq iv e a = cc (a.configured)

  intent-IsAuthorized :
      (iv : Option IntentVerifier) (t u : Trace) (r : Report)
      → opt.intent ≡ iv
      → verify_intent pf p iv content t ≡ (ok r, u)
      → ((r.intent.evaluated ≡ true) × (r.intent.valid ≡ true)) ↔ IsAuthorized pf p opt t
  unfolding verify_intent intent_answer
  intent-IsAuthorized none t u r e h =
      (λ (evaluated, _). absurd (ground arith), λ a. absurd (ground (arith, a.configured)))
  intent-IsAuthorized (some iv) t u r e h =
      elim (Result-cases (iv.constraints_hash p.intent.intent_ref t)) [
        | inl (x, unreachable) ↦
            let same = (answer-injective _ r _ u (rw unreachable at h)).0 in
            (
              λ (evaluated, _). absurd (ground arith),
              λ a. absurd (ground (arith, authority-eq iv e a, a.answered)),
            )
        | inr (hash, answered) ↦
            let same = (answer-injective _ r _ u (rw answered at h)).0 in
            let agrees = compare_intent_iff hash in
            (
              λ (_, valid).
                  let (confirmed, committed) = agrees.0 (ground arith) in
                  record {
                    authority = iv;
                    configured = e;
                    answered = rw (← confirmed) answered;
                    committed = rw (← confirmed) committed;
                  },
              λ a.
                  let confirmed : hash ≡ p.intent.constraints_hash =
                    ground (arith, authority-eq iv e a, a.answered) in
                  (
                    ground (arith, compare_intent-evaluated hash),
                    ground (arith, agrees.1 (confirmed, rw confirmed a.committed)),
                  ),
            )
      ]

  -- Where the manifest map has each key once and the binding specs have distinct names, Verify's
  -- report is OK exactly for an authentic package that the authority, asked now, confirms: the
  -- hash it answers is the package's, and the signed commitment is over that hash.
  pub report_ok-verify_iff :
      (t u : Trace) (r : Report)
      → IsMap p.manifest.segments
      → Distinct (names opt.binding_specs)
      → verify pf (some p) opt t ≡ (ok r, u)
      → (report_ok (some r) ≡ true) ↔ (IsAuthentic pf p opt × IsAuthorized pf p opt t)
  report_ok-verify_iff t u r m named h =
      let iff = report_ok_iff r in
      let level = level1-verify_iff t u r m named h in
      (
        λ good.
            let (passes, evaluated, valid) = iff.0 good in
            let a = level.0 (unfold level1 in level1_passed_complete r passes) in
            let (through, _) = verify-IsAuthentic t m named a in
            (a, (intent-IsAuthorized opt.intent t u r refl (sym through ∙ h)).0 (evaluated, valid)),
        λ (a, authorized).
            let (through, _) = verify-IsAuthentic t m named a in
            let (evaluated, valid) =
              (intent-IsAuthorized opt.intent t u r refl (sym through ∙ h)).1 authorized in
            iff.1 (level1_passed_sound r (unfold level1 in level.1 a), evaluated, valid),
      )
