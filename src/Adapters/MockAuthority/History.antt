-- ===== src/Adapters/MockAuthority/History.antt =====
-- The life of the mock authority: calls in any order, of which only recordUse changes its memory.
use chainbind_go.Prelude.{
  String, ◌≡◌, refl, sym, ◌∙◌, inl, inr, ap, none, some, Option-cases, Bool-cases, eq_iff, arith,
  ◌==◌,
}
use chainbind_go.Prelude.Maps.{lookup, insert, lookup-insert}
use chainbind_go.Errors.{ok, ◌>>=◌}
use chainbind_go.Value.{Value}
use chainbind_go.Platform.{Platform}
use chainbind_go.Ports.{Trace}
use chainbind_go.Adapters.{Context, NeverDone, live-eq-ok}
use chainbind_go.Adapters.MockAuthority.{
  Floats, Library, Authorization, Verifier, lookup_doc, record_use, constraints_hash,
  hash_constraints, port,
}
use chainbind_go.Seal.Verifies.{IsImmutable}

module _ (fl : Floats) where
  -- One call of the authority: Check, ConstraintsHash and Ping only read.
  pub data Step : Verifier fl → Verifier fl → Type 0 where
    checked : {v : Verifier fl} → String → Value → Step v v
    hashed : {v : Verifier fl} → String → Step v v
    pinged : {v : Verifier fl} → Step v v
    used : {v : Verifier fl} (intent_ref : String) → Step v (record_use fl v intent_ref)

  pub data Reaches : Verifier fl → Verifier fl → Type 0 where
    start : {v : Verifier fl} → Reaches v v
    next : {v w x : Verifier fl} → Reaches v w → Step w x → Reaches v x

  lookup_doc-eq-ok :
      (v : Verifier fl) (intent_ref : String) (auth : Authorization fl.Float)
      → lookup intent_ref v ≡ some auth
      → lookup_doc fl v intent_ref ≡ ok auth.doc
  unfolding lookup_doc
  lookup_doc-eq-ok v intent_ref auth found = rw (found, lookup_doc) refl

  lookup_doc-cong :
      (v w : Verifier fl) (intent_ref : String)
      → lookup intent_ref v ≡ lookup intent_ref w
      → lookup_doc fl v intent_ref ≡ lookup_doc fl w intent_ref
  unfolding lookup_doc
  lookup_doc-cong v w intent_ref same = rw (same, lookup_doc) refl

  insert-lookup_doc :
      (v : Verifier fl) (used_ref intent_ref : String) (old new : Authorization fl.Float)
      → lookup used_ref v ≡ some old
      → new.doc ≡ old.doc
      → lookup_doc fl (insert used_ref new v) intent_ref ≡ lookup_doc fl v intent_ref
  insert-lookup_doc v used_ref intent_ref old new found same =
      elim (Bool-cases (intent_ref == used_ref)) [
        | inl hit ↦
            let here : lookup intent_ref v ≡ some old =
              ground (arith, eq_iff intent_ref used_ref) in
            lookup_doc-eq-ok (insert used_ref new v) intent_ref new
              (lookup-insert used_ref intent_ref new v ∙ rw hit refl)
            ∙ ap ok same
            ∙ sym (lookup_doc-eq-ok v intent_ref old here)
        | inr other ↦
            lookup_doc-cong (insert used_ref new v) v intent_ref
              (lookup-insert used_ref intent_ref new v ∙ rw other refl)
      ]

  record_use-lookup_doc :
      (v : Verifier fl) (used_ref intent_ref : String)
      → lookup_doc fl (record_use fl v used_ref) intent_ref ≡ lookup_doc fl v intent_ref
  unfolding record_use
  record_use-lookup_doc v used_ref intent_ref = elim (Option-cases (lookup used_ref v)) [
    | inl missing ↦ rw (missing, record_use) refl
    | inr (auth, found) ↦
        rw (found, record_use) (insert-lookup_doc v used_ref intent_ref auth _ found refl)
  ]

  Step-lookup_doc :
      (v w : Verifier fl) (intent_ref : String)
      → Step v w
      → lookup_doc fl w intent_ref ≡ lookup_doc fl v intent_ref
  Step-lookup_doc v w intent_ref (checked r p) = refl
  Step-lookup_doc v w intent_ref (hashed r) = refl
  Step-lookup_doc v w intent_ref pinged = refl
  Step-lookup_doc v w intent_ref (used r) = record_use-lookup_doc v r intent_ref

  Reaches-lookup_doc :
      (v w : Verifier fl) (intent_ref : String)
      → Reaches v w
      → lookup_doc fl w intent_ref ≡ lookup_doc fl v intent_ref
  Reaches-lookup_doc v w intent_ref start = refl
  Reaches-lookup_doc v w intent_ref (next {w = x} r s) =
      Step-lookup_doc x w intent_ref s ∙ Reaches-lookup_doc v x intent_ref r

  constraints_hash-live :
      (pf : Platform) (lib : Library fl.Float) (ctx : Context) (v : Verifier fl)
      (intent_ref : String) (t : Trace)
      → ctx t ≡ none
      → constraints_hash fl pf lib ctx v intent_ref t
        ≡ (lookup_doc fl v intent_ref >>= hash_constraints fl pf lib)
  unfolding constraints_hash
  constraints_hash-live pf lib ctx v intent_ref t alive = rw (live-eq-ok ctx t alive) refl

  -- Whatever calls come between, and however often an authorization is used, the authority answers
  -- with one constraints hash for a reference: it is one that a core may count on, where its memory
  -- at every call is reached from the memory it started with and no context is done.
  pub port-IsImmutable :
      (pf : Platform) (lib : Library fl.Float) (ctx : Context) (memory : Trace → Verifier fl)
      (loaded : Verifier fl)
      → NeverDone ctx
      → ((t : Trace) → Reaches loaded (memory t))
      → IsImmutable (port fl pf lib ctx memory)
  port-IsImmutable pf lib ctx memory loaded alive reached intent_ref t u =
      let pinned : (x : Trace)
          → lookup_doc fl (memory x) intent_ref ≡ lookup_doc fl loaded intent_ref =
        λ x. Reaches-lookup_doc loaded (memory x) intent_ref (reached x) in
      constraints_hash-live pf lib ctx (memory t) intent_ref t (alive t)
      ∙ ap (λ d. d >>= hash_constraints fl pf lib) (pinned t ∙ sym (pinned u))
      ∙ sym (constraints_hash-live pf lib ctx (memory u) intent_ref u (alive u))
