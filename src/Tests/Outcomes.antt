-- ===== src/Tests/Outcomes.antt =====
-- The calls of a Seal that succeeds, and a Seal and an Open that fail.
use chainbind_go.Prelude.{◌≡◌, false, sym, ap, List, [], ◌∷◌}
use chainbind_go.Errors.{Result, ok, ok-injective}
use chainbind_go.Value.{Bytes}
use chainbind_go.Ports.{Event, IntentVerifier, IntentDecision}
use chainbind_go.Seal.Order.{DrawnFor, segment_events, seal-trace}
use chainbind_go.Seal.Refusals.{Refused, seal-Refused}
use chainbind_go.Tests.Toy.{blank}
use chainbind_go.Tests.Sealing.{request, sealer, outcome, sealed, sealed-IsOk}

seal-trace_example :
    (deks : List Bytes) × (view : Bytes) × DrawnFor sealer request.audiences deks (
      Event.drew 16
      ∷ Event.asked_constraints request.intent_ref
      ∷ Event.checked request.intent_ref request.projection
      ∷ [])
    × (outcome.1
        ≡ Event.signed view
          ∷ Event.asked_kid
          ∷ segment_events request.audiences deks (
              Event.drew 16
              ∷ Event.asked_constraints request.intent_ref
              ∷ Event.checked request.intent_ref request.projection
              ∷ []))
seal-trace_example = seal-trace blank sealer request [] outcome.1 sealed sealed-IsOk

abbrev pub denial : IntentDecision
denial = record { allowed = false; reason = "budget" }

abbrev pub strict : IntentVerifier
strict = record {
  check = λ ref projection t. ok denial;
  constraints_hash = λ ref t. ok "sha256:c0";
}

pub denies :
    (d : IntentDecision) → ◌≡◌ {A = Result IntentDecision} (ok denial) (ok d) → d.allowed ≡ false
denies d h = ap (λ x. x.allowed) (sym (ok-injective denial d h))

seal-Refused_example : Refused blank (record sealer { verifier = strict }) request []
seal-Refused_example = seal-Refused blank (record sealer { verifier = strict }) request [] denies
