-- ===== src/Errors.antt =====
-- pkg/chainbind/errors.go and the other sentinel errors of the library. A wrapped error
-- (`fmt.Errorf("...: %w", err)`) is the sentinel that `errors.Is` finds in it; the message round it
-- is not kept, but for the authority's reason in a denial.
use chainbind_go.Prelude.{◌≡◌, refl, String, Bool, true, false, Option, none, some, ◌⊎◌, inl, inr}

pub data Error : Type 0 where
  -- errors.go
  unsupported_spec_version malformed_package signature_invalid hash_mismatch : Error
  binding_mismatch intent_not_evaluated intent_invalid binding_collision : Error
  nil_package integrity_check_failed : Error
  -- ErrIntentDenied, with the authority's reason that `Seal` puts behind it
  intent_denied : String → Error
  -- the static error of StructuralFault.UnmarshalJSON in verify.go
  unrecognised_fault : Error
  -- crypto.go
  decryption_failed : Error
  -- seal.go
  no_audiences duplicate_audience segment_missing : Error
  -- profile/agenticcheckout/profile.go
  unsupported_payload missing_segment_hash : Error
  -- internal/adapters/keywrap/x25519/wrapper.go
  unwrap_failed wrap_failed key_integrity : Error
  -- internal/adapters/signer/local/signer.go
  key_size : Error
  -- internal/adapters/intent/mock/verifier.go
  unknown_intent_ref duplicate_intent_ref : Error
  -- internal/adapters/intent/http/verifier.go
  authority_unreachable authority_response : Error
  -- internal/adapters/signer/vault/signer.go
  vault_unreachable vault_response key_type_unsupported key_version_mismatch : Error
  -- internal/adapters/auth/keycloak/provider.go
  unauthorized forbidden : Error
  -- internal/adapters/http/audiences.go: an encoding that is not base64url, a key of another size
  audience_encoding audience_key_size : String → Error
  -- cmd/chainbind: errBothAuthorityFlags, and the errors for a key of another length
  both_authority_flags key_file_length : Error
  -- a panic of the Go run time, which ends the call without a result
  panicked : Error
  -- an error value of code that is not in this repository
  foreign : String → Error

-- `(T, error)`: the error, or the value.
pub data Result {ℓ} (A : Type ℓ) : Type ℓ where
  err : Error → Result A
  ok : A → Result A

abbrev pub is_ok {ℓ} : {A : Type ℓ} → Result A → Bool
is_ok (err e) = false
is_ok (ok a) = true

-- `if err != nil { return ..., e }` after a call of external code that answers or fails.
abbrev pub or_err {ℓ} : {A : Type ℓ} → Error → Option A → Result A
or_err e none = err e
or_err e (some a) = ok a

-- `if err != nil { return ..., err }`
infixl 10 ◌>>=◌ ◌>>◌
abbrev pub ◌>>=◌ {ℓ κ} : {A : Type ℓ} {B : Type κ} → Result A → (A → Result B) → Result B
◌>>=◌ (err e) next = err e
◌>>=◌ (ok a) next = next a

abbrev pub ◌>>◌ {ℓ κ} : {A : Type ℓ} {B : Type κ} → Result A → Result B → Result B
first >> second = first >>= λ _. second

pub bind-eq-ok {ℓ κ} :
    {A : Type ℓ} {B : Type κ} (first : Result A) (next : A → Result B) {b : B}
    → first >>= next ≡ ok b
    → (a : A) × (first ≡ ok a) × (next a ≡ ok b)
bind-eq-ok (err e) next h = absurd (cc)
bind-eq-ok (ok a) next h = (a, refl, h)

pub Result-cases {ℓ} :
    {A : Type ℓ} (r : Result A) → ((e : Error) × (r ≡ err e)) ⊎ ((a : A) × (r ≡ ok a))
Result-cases (ok a) = inr (a, refl)
Result-cases (err e) = inl (e, refl)

pub ok-injective {ℓ} : {A : Type ℓ} (a b : A) → ok a ≡ ok b → a ≡ b
ok-injective a b h = cc

pub or_err-eq-ok {ℓ} :
    {A : Type ℓ} (e : Error) (o : Option A) (a : A) → or_err e o ≡ ok a → o ≡ some a
or_err-eq-ok e none a h = absurd (cc)
or_err-eq-ok e (some b) a h = cc
