-- ===== src/Seal/Refusals.antt =====
-- What Seal does where it may not go on.
use chainbind_go.Prelude.{◌≡◌, refl, inl, inr, false, [], ◌∷◌, arith, length, eqb, Bool-cases}
use chainbind_go.Errors.{ok, err, Error, Result-cases}
use chainbind_go.Platform.{Platform}
use chainbind_go.Ports.{Event, Trace, IntentDecision}
use chainbind_go.Seal.{Sealer, SealRequest, check_audiences, seal}

-- Why Seal refuses, with the error that it returns and the calls that it has made: none, or the one
-- question to the authority.
pub data Refusal (s : Sealer) (req : SealRequest) (t : Trace) : Error → Trace → Type 0 where
  nobody : length req.audiences ≡ 0 → Refusal s req t Error.no_audiences t
  unfit : {e : Error} → check_audiences req.segments [] req.audiences ≡ err e → Refusal s req t e t
  unreachable :
      {e : Error}
      → s.verifier.check req.intent_ref req.projection t ≡ err e
      → Refusal s req t e (Event.checked req.intent_ref req.projection ∷ t)
  denied :
      (d : IntentDecision)
      → s.verifier.check req.intent_ref req.projection t ≡ ok d
      → d.allowed ≡ false
      → Refusal s req t
          (Error.intent_denied d.reason)
          (Event.checked req.intent_ref req.projection ∷ t)

-- Seal's refusal, as its result.
pub record Refused (pf : Platform) (s : Sealer) (req : SealRequest) (t : Trace) : Type 0 where
  pub error : Error
  pub left : Trace
  pub result : seal pf s req t ≡ (err error, left)
  pub reason : Refusal s req t error left

-- Where the authority permits nothing (it denies, or does not answer), Seal returns an error, and
-- nothing else has happened than at most the one question to the authority: nothing is drawn, no key
-- is wrapped and nothing is signed. A denial carries the authority's own reason.
pub seal-Refused :
    (pf : Platform) (s : Sealer) (req : SealRequest) (t : Trace)
    → ((d : IntentDecision)
        → s.verifier.check req.intent_ref req.projection t ≡ ok d
        → d.allowed ≡ false)
    → Refused pf s req t
unfolding seal
seal-Refused pf s req t never = elim (Bool-cases (eqb (length req.audiences) 0)) [
  | inl empty ↦ record {
    error = Error.no_audiences;
    left = t;
    result = rw empty refl;
    reason = nobody (ground arith);
  }
  | inr some_audience ↦ elim (Result-cases (check_audiences req.segments [] req.audiences)) [
    | inl (e, bad) ↦ record {
      error = e;
      left = t;
      result = rw (some_audience, bad) refl;
      reason = unfit bad;
    }
    | inr (_, good) ↦ elim (Result-cases (s.verifier.check req.intent_ref req.projection t)) [
      | inl (e, failed) ↦ record {
        error = e;
        left = Event.checked req.intent_ref req.projection ∷ t;
        result = rw (some_audience, good, failed) refl;
        reason = unreachable failed;
      }
      | inr (d, decided) ↦
          let no = never d decided in
          record {
            error = Error.intent_denied d.reason;
            left = Event.checked req.intent_ref req.projection ∷ t;
            result = rw (some_audience, good, decided, no) refl;
            reason = denied d decided no;
          }
    ]
  ]
]
