-- ===== src/Ports.antt =====
-- pkg/chainbind/ports.go and crypto/rand: the components that the core calls and does not implement.
-- Every call that leaves the process or draws randomness is an `Event` of a trace, newest first. An
-- answer may depend on all earlier calls, so a port may be of any kind: fresh randomness, a live
-- authority, a rotating key.
use chainbind_go.Prelude.{ℕ, String, Bool, ◌≡◌, refl, List, ◌∷◌, inl, inr}
use chainbind_go.Errors.{Result, ok, err, Error, Result-cases}
use chainbind_go.Value.{Bytes, Value, IsBlock}

pub data Event : Type 0 where
  -- IntentVerifier.Check, IntentVerifier.ConstraintsHash
  checked : String → Value → Event
  asked_constraints : String → Event
  -- rand.Read of so many bytes
  drew : ℕ → Event
  -- KeyWrapper.Wrap with the recipient's key and the data key; KeyWrapper.Unwrap
  wrapped : Bytes → Bytes → Event
  unwrapped : Bytes → Bytes → Bytes → Event
  -- Signer.Kid, Signer.Sign
  asked_kid : Event
  signed : Bytes → Event

abbrev pub Trace : Type 0
Trace = List Event

pub record IntentDecision : Type 0 where
  pub allowed : Bool
  pub reason : String

pub record Signer : Type 0 where
  pub kid : Trace → Result String
  pub sign : Bytes → Trace → Result Bytes

pub record Wrapping : Type 0 where
  pub key : Bytes
  pub epk : Bytes

pub record KeyWrapper : Type 0 where
  pub wrap : Bytes → Bytes → Trace → Result Wrapping
  pub unwrap : Bytes → Bytes → Bytes → Trace → Result Bytes
  pub thumbprint : Bytes → Result String
  pub public_key : Bytes → Result Bytes

pub record IntentVerifier : Type 0 where
  pub check : String → Value → Trace → Result IntentDecision
  pub constraints_hash : String → Trace → Result String

-- crypto/rand.Read: fills a buffer of the given length, or fails.
abbrev pub Entropy : Type 0
Entropy = ℕ → Trace → Result Bytes

pub record FillsBuffer (rand : Entropy) : Type 0 where
  pub drawn : (n : ℕ) (t : Trace) (b : Bytes) → rand n t ≡ ok b → IsBlock n b

-- Code that makes such calls: its result or error, and the trace that it leaves.
abbrev pub Act {ℓ} : Type ℓ → Type ℓ
Act A = Trace → Result A × Trace

abbrev pub call {ℓ} : {A : Type ℓ} → Event → (Trace → Result A) → Act A
call e answer t = (answer t, e ∷ t)

abbrev pub lift {ℓ} : {A : Type ℓ} → Result A → Act A
lift r t = (r, t)

abbrev pub pure {ℓ} : {A : Type ℓ} → A → Act A
pure a t = (ok a, t)

abbrev pub fail {ℓ} : {A : Type ℓ} → Error → Act A
fail e t = (err e, t)

abbrev proceed {ℓ} : {A B : Type ℓ} → Result A → (A → Act B) → Act B
proceed (ok a) f t = f a t
proceed (err e) f t = (err e, t)

infixl 10 ◌>>=◌ ◌>>◌
abbrev pub ◌>>=◌ {ℓ} : {A B : Type ℓ} → Act A → (A → Act B) → Act B
◌>>=◌ m f t = let (r, s) = m t in proceed r f s

abbrev pub ◌>>◌ {ℓ} : {A B : Type ℓ} → Act A → Act B → Act B
m >> n = m >>= λ _. n

-- `v, err := m` where the code goes on after an error.
abbrev pub attempt {ℓ} : {A : Type ℓ} → Act A → Act (Result A)
attempt m t = let (r, s) = m t in (ok r, s)

pub answer-injective {ℓ} :
    {A : Type ℓ} (a b : A) (t u : Trace)
    → ◌≡◌ {A = Result A × Trace} (ok a, t) (ok b, u)
    → (a ≡ b) × (t ≡ u)
answer-injective a b t u h = (cc, cc)

-- What a successful sequence has done, by the kind of its first act.
pub call-bind-eq-ok {ℓ} :
    {A B : Type ℓ} (e : Event) (answer : Trace → Result A) (f : A → Act B) (t : Trace) {b : B}
    {u : Trace}
    → (call e answer >>= f) t ≡ (ok b, u)
    → (a : A) × (answer t ≡ ok a) × (f a (e ∷ t) ≡ (ok b, u))
call-bind-eq-ok e answer f t h = elim (Result-cases (answer t)) [
  | inl (x, failed) ↦ absurd (cc failed)
  | inr (a, answered) ↦ (a, answered, rw answered at h)
]

pub lift-bind-eq-ok {ℓ} :
    {A B : Type ℓ} (r : Result A) (f : A → Act B) (t : Trace) {b : B} {u : Trace}
    → (lift r >>= f) t ≡ (ok b, u)
    → (a : A) × (r ≡ ok a) × (f a t ≡ (ok b, u))
lift-bind-eq-ok (ok a) f t h = (a, refl, h)
lift-bind-eq-ok (err e) f t h = absurd (cc)

pub bind-eq-ok {ℓ} :
    {A B : Type ℓ} (m : Act A) (f : A → Act B) (t : Trace) {b : B} {u : Trace}
    → (m >>= f) t ≡ (ok b, u)
    → (a : A) × (s : Trace) × (m t ≡ (ok a, s)) × (f a s ≡ (ok b, u))
bind-eq-ok {A} {B} m f t {b} {u} h = let (r, s) = m t in after r s h
  where
    after :
        (r : Result A) (s : Trace)
        → proceed r f s ≡ (ok b, u)
        → (a : A) × (s' : Trace) × (◌≡◌ {A = Result A × Trace} (r, s) (ok a, s'))
          × (f a s' ≡ (ok b, u))
    after (ok a) s e = (a, s, refl, e)
    after (err x) s e = cc
