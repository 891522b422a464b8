-- ===== src/Open.antt =====
-- pkg/chainbind/open.go: recovering the one segment that a private key is the recipient of.
pub mod Opened
pub mod Matching
pub mod Recovers
pub mod Failures
use chainbind_go.Prelude.{
  ℕ, String, ◌==◌, Option, none, some, [], ◌∷◌, ◌++◌, ◌+◌, eqb, if◌then◌else◌, not,
}
use chainbind_go.Prelude.Maps.{lookup}
use chainbind_go.Errors.{Result, ok, err, Error, or_err}
use chainbind_go.Errors
use chainbind_go.Value.{Bytes, Slice, slice_bytes}
use chainbind_go.Platform.{Platform}
use chainbind_go.Ports.{Event, KeyWrapper, Act, call, lift, fail, ◌>>=◌, ◌>>◌}
use chainbind_go.Package.{Package, Segment, SealedSegment, Cnf}
use chainbind_go.Canonical.{jcs, hash}
use chainbind_go.Aad.{aad}
use chainbind_go.Crypto.{decrypt}
use chainbind_go.Report.{level1}
use chainbind_go.Verify.{VerifyOptions, verify}

-- The loop of matchingAudience: the last name with this thumbprint, and how many there are.
unfoldable pub match_loop : String → String → ℕ → Cnf → String × ℕ
match_loop jkt name found [] = (name, found)
match_loop jkt name found ((a, conf) ∷ cnf) =
    let hit = match_loop jkt a (found + 1) cnf in
    let miss = match_loop jkt name found cnf in if conf.jkt == jkt then hit else miss

-- `found != 1` is no match.
unfoldable pub single_match : String × ℕ → Option String
single_match (name, found) = if eqb found 1 then some name else none

unfoldable pub matching_audience : Cnf → KeyWrapper → Bytes → Option String
matching_audience cnf w priv = elim (w.public_key priv) [
  | err e ↦ none
  | ok pub_key ↦ elim (w.thumbprint pub_key) [
    | err e ↦ none
    | ok jkt ↦ single_match (match_loop jkt "" 0 cnf)
  ]
]

pub record SealedSegmentWire : Type 0 where
  pub epk : Bytes
  pub wrapped : Bytes
  pub nonce : Bytes
  pub ciphertext : Bytes
  pub tag : Bytes

-- The error that base64 decoding gives is never passed on: Open replaces it.
abbrev pub decode : Platform → String → Result Bytes
decode pf s = or_err (Error.foreign "base64") (pf.base64url_decode s)

unfoldable pub decode_sealed_segment : Platform → SealedSegment → Result SealedSegmentWire
decode_sealed_segment pf sealed = Errors.◌>>=◌ (decode pf sealed.epk.x) λ epk.
    Errors.◌>>=◌ (decode pf sealed.dek_wrapped) λ wrapped.
      Errors.◌>>=◌ (decode pf sealed.nonce) λ nonce.
        Errors.◌>>=◌ (decode pf sealed.ciphertext) λ ciphertext.
          Errors.◌>>=◌ (decode pf sealed.tag) λ tag. ok (record {
            epk = epk;
            wrapped = wrapped;
            nonce = nonce;
            ciphertext = ciphertext;
            tag = tag;
          })

-- `if err != nil { return "", nil, e }`: the error is replaced.
abbrev pub replace_err {ℓ} : {A : Type ℓ} → Error → Result A → Result A
replace_err e (ok a) = ok a
replace_err e (err x) = err e

abbrev pub found_or {ℓ} : {A : Type ℓ} → Error → Option A → Result A
found_or e none = err e
found_or e (some a) = ok a

-- Open's last check, that only the recipient can make.
unfoldable pub check_plain_hash : Platform → Segment → String → Slice → Result (String × Slice)
check_plain_hash pf seg audience plaintext =
    Errors.◌>>=◌ (replace_err Error.hash_mismatch (jcs pf (slice_bytes plaintext))) λ canon_plain.
      if not (hash pf canon_plain == seg.plain_hash)
      then err Error.hash_mismatch
      else ok (audience, plaintext)

-- Open from the point where the audience is known.
unfoldable pub open_segment :
    Platform
    → KeyWrapper
    → Package
    → Bytes
    → String
    → Segment
    → SealedSegment
    → Act (String × Slice)
open_segment pf w p priv audience seg sealed = do
  wire ← lift (replace_err Error.decryption_failed (decode_sealed_segment pf sealed))
  dek ←
      call (Event.unwrapped priv wire.epk wire.wrapped)
        (λ t. replace_err Error.decryption_failed (w.unwrap priv wire.epk wire.wrapped t))
  ad ←
      lift (
        replace_err Error.decryption_failed (aad pf p.manifest.aad_context audience p.spec_version))
  plaintext ← lift (
      replace_err Error.decryption_failed
        (decrypt pf dek wire.nonce (wire.ciphertext ++ wire.tag) ad))
  lift (check_plain_hash pf seg audience plaintext)

-- Open from the point where Level 1 has passed.
unfoldable pub open_verified : Platform → KeyWrapper → Package → Bytes → Act (String × Slice)
open_verified pf w p priv = do
  audience ← lift (found_or Error.decryption_failed (matching_audience p.cnf w priv))
  seg ← lift (found_or Error.decryption_failed (lookup audience p.manifest.segments))
  sealed ← lift (found_or Error.decryption_failed (lookup audience p.segments))
  open_segment pf w p priv audience seg sealed

-- opt.Intent is not passed on to Verify: opening is offline.
abbrev pub offline : VerifyOptions → VerifyOptions
offline opt = record {
  issuer_key = opt.issuer_key;
  intent = none;
  binding_specs = opt.binding_specs;
}

unfoldable pub open_package :
    Platform → Option Package → Bytes → KeyWrapper → VerifyOptions → Act (String × Slice)
open_package pf none priv w opt = do verify pf none (offline opt); fail Error.integrity_check_failed
open_package pf (some p) priv w opt = do
  report ← verify pf (some p) (offline opt)
  if not (level1 (some report))
      then fail Error.integrity_check_failed
      else open_verified pf w p priv
