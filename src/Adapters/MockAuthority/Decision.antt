-- ===== src/Adapters/MockAuthority/Decision.antt =====
-- The mock authority's Check: what it allows, whatever the order of a document's rules.
use chainbind_go.Prelude.{
  String, true, ◌≡◌, ◌↔◌, ◌⊎◌, inl, inr, refl, some, [], ◌∷◌, Option-cases, eq_iff, arith,
  String-cases, ==-eq-false,
}
use chainbind_go.Prelude.Maps.{Map, lookup, IsMap, contains-keys}
use chainbind_go.Errors.{ok, bind-eq-ok}
use chainbind_go.Value.{Value}
use chainbind_go.Platform.{Platform}
use chainbind_go.Ports.{Trace, IntentDecision}
use chainbind_go.Adapters.{Context, live}
use chainbind_go.Adapters.MockAuthority.{
  Floats, Any, Rule, Constraints, Library, Evaluation, satisfied, failed, panics, evaluate,
  Verifier, lookup_doc, projection_fields, check_rules, check, granted,
}
use chainbind_go.Adapters.MockAuthority.Rules.{Meets, evaluate-Meets, Meets-evaluate}

module _ (fl : Floats) where
  -- Every rule's field is there, with a value that the rule accepts.
  abbrev pub Fulfils : Map (Any fl.Float) → Map (Rule fl.Float) → Type 0
  Fulfils fields rules =
      (field : String) (rule : Rule fl.Float)
      → lookup field rules ≡ some rule
      → (val : Any fl.Float) × (lookup field fields ≡ some val) × Meets fl rule val

  Evaluation-cases :
      (e : Evaluation) → (e ≡ satisfied) ⊎ (((r : String) × (e ≡ failed r)) ⊎ (e ≡ panics))
  Evaluation-cases satisfied = inl refl
  Evaluation-cases (failed r) = inr (inl (r, refl))
  Evaluation-cases panics = inr (inr refl)

  -- The first rule that is looked at passes, and so do the others.
  check_rules-cons :
      (lib : Library fl.Float) (fields : Map (Any fl.Float)) (name : String) (rule : Rule fl.Float)
      (rules : Map (Rule fl.Float)) (d : IntentDecision)
      → check_rules fl lib fields ((name, rule) ∷ rules) ≡ ok d
      → d.allowed ≡ true
      → (val : Any fl.Float) × (lookup name fields ≡ some val)
        × Meets fl rule val
        × (check_rules fl lib fields rules ≡ ok d)
  unfolding check_rules
  check_rules-cons lib fields name rule rules d h allowed =
      elim (Option-cases (lookup name fields)) [
        | inl missing ↦ absurd (let g = rw (missing, check_rules) at h in cc)
        | inr (val, found) ↦ elim (Evaluation-cases (evaluate fl lib rule name val)) [
          | inl good ↦ (
            val,
            found,
            evaluate-Meets fl lib rule name val good,
            rw (found, good, check_rules) at h,
          )
          | inr (inl (r, bad)) ↦ absurd (let g = rw (found, bad, check_rules) at h in cc)
          | inr (inr broken) ↦ absurd (let g = rw (found, broken, check_rules) at h in cc)
        ]
      ]

  check_rules-Fulfils :
      (lib : Library fl.Float) (fields : Map (Any fl.Float)) (rules : Map (Rule fl.Float))
      (d : IntentDecision)
      → check_rules fl lib fields rules ≡ ok d
      → d.allowed ≡ true
      → Fulfils fields rules
  check_rules-Fulfils lib fields [] d h allowed field rule e = absurd (cc)
  check_rules-Fulfils lib fields ((name, first) ∷ rules) d h allowed field rule e =
      let (val, found, meets, rest) = check_rules-cons lib fields name first rules d h allowed in
      elim (String-cases field name) [
        | inl same ↦
            let this : first ≡ rule = ground (arith, eq_iff field name) in
            (val, rw same found, rw (← this) meets)
        | inr other ↦
            check_rules-Fulfils lib fields rules d rest allowed field rule
              (rw (==-eq-false field name other) at e)
      ]

  Fulfils-check_rules :
      (lib : Library fl.Float) (fields : Map (Any fl.Float)) (rules : Map (Rule fl.Float))
      → IsMap rules
      → Fulfils fields rules
      → check_rules fl lib fields rules ≡ ok (granted fl)
  unfolding check_rules
  Fulfils-check_rules lib fields [] once h = refl
  Fulfils-check_rules lib fields ((name, first) ∷ rules) (fresh, once) h =
      let (val, found, meets) = h name first (ground (arith, eq_iff name name)) in
      rw (found, Meets-evaluate fl lib first name val meets, check_rules)
        (Fulfils-check_rules lib fields rules once λ field rule e.
          h field rule (ground (arith, eq_iff field name, contains-keys name rules)))

  -- What makes the authority allow a projection.
  pub record Authorizes (pf : Platform) (lib : Library fl.Float) (ctx : Context) (v : Verifier fl)
      (intent_ref : String) (projection : Value) (t : Trace) : Type 0 where
    pub in_time : live ctx t ≡ ok tt
    pub doc : Constraints fl.Float
    pub pinned : lookup_doc fl v intent_ref ≡ ok doc
    pub fields : Map (Any fl.Float)
    pub decoded : projection_fields fl pf lib projection ≡ ok fields
    pub fulfils : Fulfils fields doc.rules

  -- Check allows a projection exactly where its context is not done, the reference is seeded, the
  -- projection decodes to an object, and every rule of the document finds its field there with a
  -- value that it accepts, whatever the order of the rules. A document has one rule for a field.
  pub check-Authorizes_iff :
      (pf : Platform) (lib : Library fl.Float) (ctx : Context) (v : Verifier fl)
      (intent_ref : String) (projection : Value) (t : Trace)
      → ((doc : Constraints fl.Float) → lookup_doc fl v intent_ref ≡ ok doc → IsMap doc.rules)
      → ((d : IntentDecision) × (check fl pf lib ctx v intent_ref projection t ≡ ok d)
          × (d.allowed ≡ true))
        ↔ Authorizes pf lib ctx v intent_ref projection t
  unfolding check
  check-Authorizes_iff pf lib ctx v intent_ref projection t once = (
    (λ (d, h, allowed).
        let (x, in_time, h1) = bind-eq-ok (live ctx t) _ h in
        let (doc, pinned, h2) = bind-eq-ok (lookup_doc fl v intent_ref) _ h1 in
        let (fields, decoded, h3) = bind-eq-ok (projection_fields fl pf lib projection) _ h2 in
        record {
          in_time = in_time;
          doc = doc;
          pinned = pinned;
          fields = fields;
          decoded = decoded;
          fulfils = check_rules-Fulfils lib fields doc.rules d h3 allowed;
        }),
    λ a. (
      granted fl,
      rw (a.in_time, a.pinned, a.decoded)
          (Fulfils-check_rules lib a.fields a.doc.rules (once a.doc a.pinned) a.fulfils),
      refl,
    ),
  )
