-- ===== src/Canonical/Digests.antt =====
-- Digests told apart: equal digests come from equal bytes, or exhibit a collision of SHA-256.
use native.Mathlib.Decide.{ℕ_discrete}
use text.Mathlib.TextLemmas.{append_cancel_left}
use chainbind_go.Prelude.{◌≡◌, ◌⊎◌, inl, inr}
use chainbind_go.Errors.{ok}
use chainbind_go.Value.{Bytes, Value}
use chainbind_go.Platform.{Platform, Collision}
use chainbind_go.Canonical.{jcs, hash, ReadsBack, SameShape}

Bytes-discrete : Discrete Bytes
Bytes-discrete = hlevel ℕ_discrete

module _ {pf : Platform} (reads : ReadsBack pf) where
  -- Two byte strings with one digest are equal, or a collision.
  pub hash-injective : (a b : Bytes) → hash pf a ≡ hash pf b → (a ≡ b) ⊎ Collision pf
  unfolding hash
  hash-injective a b e = elim (Bytes-discrete a b) [
    | yes same ↦ inl same
    | no differ ↦ inr (record {
      left = a;
      right = b;
      differ = differ;
      collide = reads.hex_injective _ _ (append_cancel_left "sha256:" _ _ e);
    })
  ]

  -- Two values of one shape whose canonical texts have one digest are equal, or a collision.
  pub hash-jcs_injective :
      (v w : Value) (a b : Bytes)
      → SameShape v w
      → jcs pf v ≡ ok a
      → jcs pf w ≡ ok b
      → hash pf a ≡ hash pf b
      → (v ≡ w) ⊎ Collision pf
  hash-jcs_injective v w a b shape hv hw e = elim (hash-injective a b e) [
    | inl same ↦ inl (reads.jcs_injective v w b shape (rw (← same) hv) hw)
    | inr c ↦ inr c
  ]
