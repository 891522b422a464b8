-- ===== src/Open/Failures.antt =====
-- What Open's errors tell, and what they do not.
use chainbind_go.Prelude.{String, ◌≡◌, Bool, true, false, some}
use chainbind_go.Prelude.Maps.{lookup}
use chainbind_go.Errors.{Result, ok, err, Error}
use chainbind_go.Value.{Bytes, Slice}
use chainbind_go.Platform.{Platform}
use chainbind_go.Ports.{Trace, KeyWrapper}
use chainbind_go.Package.{Package, Segment}
use chainbind_go.Crypto.{decrypt}
use chainbind_go.Report.{Report, level1}
use chainbind_go.Verify.{VerifyOptions, verify}
use chainbind_go.Open.{matching_audience, check_plain_hash, offline}

-- Every error of a computation satisfies P.
abbrev FailsOnly : (Error → Type 0) → {A : Type 0} → Result A × Trace → Type 0
FailsOnly P out = (e : Error) (u : Trace) → out ≡ (err e, u) → P e

-- Level 1 of the offline Verify, with this outcome.
abbrev Level1Is : Platform → Package → VerifyOptions → Trace → Bool → Type 0
Level1Is pf p opt t b =
    (report : Report) × (u : Trace) × (verify pf (some p) (offline opt) t ≡ (ok report, u))
    × (level1 (some report) ≡ b)

-- The three errors of Open, and when each is returned.
pub data Failure (pf : Platform) (w : KeyWrapper) (p : Package) (priv : Bytes) (opt : VerifyOptions)
    (t : Trace) : Error → Type 0 where
  integrity : Level1Is pf p opt t false → Failure pf w p priv opt t Error.integrity_check_failed
  undecrypted : Level1Is pf p opt t true → Failure pf w p priv opt t Error.decryption_failed
  mismatch :
      (a : String) (seg : Segment) (dek nonce combined ad : Bytes) (plaintext : Slice)
      → Level1Is pf p opt t true
      → matching_audience p.cnf w priv ≡ some a
      → lookup a p.manifest.segments ≡ some seg
      → decrypt pf dek nonce combined ad ≡ ok plaintext
      → check_plain_hash pf seg a plaintext ≡ err Error.hash_mismatch
      → Failure pf w p priv opt t Error.hash_mismatch

module _ (pf : Platform) (w : KeyWrapper) (p : Package) (priv : Bytes) (opt : VerifyOptions)
    (t : Trace) where
  abbrev Fails : Error → Type 0
  Fails = Failure pf w p priv opt t
