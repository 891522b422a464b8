-- ===== src/Verify/Asks.antt =====
-- What Verify always returns, and when it asks the authority.
use chainbind_go.Prelude.{
  String, ◌∙◌, ◌≡◌, refl, ◌⊎◌, inl, inr, true, false, Option, none, some, ◌∷◌, Bool-cases,
  Option-cases,
}
use chainbind_go.Errors.{Result, ok, err}
use chainbind_go.Platform.{Platform}
use chainbind_go.Ports.{Event, Trace, IntentVerifier}
use chainbind_go.Package.{Package}
use chainbind_go.Report.{Report, empty_report, level1_passed, level1}
use chainbind_go.Report.Verdicts.{level1-intent}
use chainbind_go.Verify.{
  VerifyOptions, parse_package, resolve_issuer_key, verify_ed25519, intent_answer,
  spec_version_supported, check_content, verify_intent, verify_parsed, verify,
}
use chainbind_go.Verify.Accept.{Parse-cases}

-- A report, and what was asked for it: nothing, or the authority once, of a package that had passed
-- Level 1.
pub record Reported (pf : Platform) (p : Package) (opt : VerifyOptions) (t : Trace) : Type 0 where
  pub report : Report
  pub left : Trace
  pub result : verify pf (some p) opt t ≡ (ok report, left)
  pub asked :
      (left ≡ t)
      ⊎ ((left ≡ Event.asked_constraints p.intent.intent_ref ∷ t) × (level1 (some report) ≡ true))

abbrev supported_report : Report
supported_report = record empty_report { spec_version_supported = true }

module _ (pf : Platform) (p : Package) (opt : VerifyOptions) (t : Trace) where
  -- A report for which nothing was asked.
  reported : (r : Report) → verify pf (some p) opt t ≡ (ok r, t) → Reported pf p opt t
  reported r h = record { report = r; left = t; result = h; asked = inl refl }

  answer-level1 :
      (full : Report) (answer : Result String)
      → level1_passed (intent_answer pf p full answer) ≡ level1_passed full
  unfolding intent_answer
  answer-level1 full (err e) = level1-intent full _
  answer-level1 full (ok a) = level1-intent full _

  reported-intent :
      (iv : Option IntentVerifier) (full : Report)
      → level1_passed full ≡ true
      → verify pf (some p) opt t ≡ verify_intent pf p iv full t
      → Reported pf p opt t
  unfolding verify_intent intent_answer level1
  reported-intent none full passed h =
      reported
        (record full {
          intent = record {
            evaluated = false;
            valid = false;
            reason = "intent authority not configured";
          };
        })
        h
  reported-intent (some iv) full passed h =
      let r = intent_answer pf p full (iv.constraints_hash p.intent.intent_ref t) in
      record {
        report = r;
        left = Event.asked_constraints p.intent.intent_ref ∷ t;
        result = h;
        asked = inr (refl, answer-level1 full (iv.constraints_hash p.intent.intent_ref t) ∙ passed);
      }

  -- Verify of a package always returns a report. It asks the authority at most once, about the
  -- package's own authorization, and only where Level 1 has passed.
  pub verify-Reported : Reported pf p opt t
  unfolding verify verify_parsed
  verify-Reported = elim (Bool-cases (spec_version_supported p.spec_version)) [
    | inr unsupported ↦ reported empty_report (rw unsupported refl)
    | inl supported ↦ elim (Parse-cases (parse_package pf p)) [
      | inl (fault, broken) ↦
          reported (record supported_report { structural = fault }) (rw (supported, broken) refl)
      | inr (view, (sig, sound)) ↦
          elim (Option-cases (resolve_issuer_key opt.issuer_key p.issuer.iss p.issuer.kid)) [
            | inl untrusted ↦
                reported supported_report (rw (supported, sound, verify_parsed, untrusted) refl)
            | inr (key, trusted) ↦ elim (Bool-cases (verify_ed25519 pf key view sig)) [
              | inr forged ↦
                  reported supported_report
                    (rw (supported, sound, verify_parsed, trusted, forged) refl)
              | inl signed ↦
                  elim (Bool-cases (level1_passed (check_content pf p opt.binding_specs))) [
                    | inr failed ↦
                        reported (check_content pf p opt.binding_specs)
                          (rw (supported, sound, verify_parsed, trusted, signed, failed) refl)
                    | inl passed ↦
                        reported-intent opt.intent (check_content pf p opt.binding_specs) passed
                          (rw (supported, sound, verify_parsed, trusted, signed, passed) refl)
                  ]
            ]
          ]
    ]
  ]
