-- ===== src/Open/Opened.antt =====
-- What a successful Open has checked.
use chainbind_go.Prelude.{
  String, ◌==◌, eq_iff, ◌≡◌, subst, ap, inl, inr, true, Option, none, some, ◌++◌, Bool-cases,
}
use chainbind_go.Prelude.Maps.{lookup, IsMap}
use chainbind_go.Errors.{Result, ok, err, Error}
use chainbind_go.Errors
use chainbind_go.Value.{Bytes, Slice, slice_bytes}
use chainbind_go.Platform.{Platform}
use chainbind_go.Ports.{Event, Trace, KeyWrapper, bind-eq-ok, lift-bind-eq-ok, call-bind-eq-ok}
use chainbind_go.Package.{Package, Segment, SealedSegment}
use chainbind_go.Canonical.{jcs, hash}
use chainbind_go.Aad.{aad}
use chainbind_go.Crypto.{decrypt}
use chainbind_go.Report.{Report, level1}
use chainbind_go.Verify.{VerifyOptions, verify}
use chainbind_go.Open.{
  matching_audience, decode_sealed_segment, replace_err, found_or, check_plain_hash, open_segment,
  open_verified, offline, open_package,
}
use chainbind_go.Open.Matching.{IsRecipient, matching_audience-IsRecipient}

-- The plaintext is the one whose hash the issuer signed for the audience of the key.
pub record IsOpened (pf : Platform) (w : KeyWrapper) (p : Package) (priv : Bytes)
    (opt : VerifyOptions) (t : Trace) (name : String) (plaintext : Slice) : Type 0 where
  pub report : Report
  pub verified_at : Trace
  pub verified : verify pf (some p) (offline opt) t ≡ (ok report, verified_at)
  pub passed : level1 (some report) ≡ true
  pub recipient : IsRecipient w p.cnf priv name
  pub segment : Segment
  pub described : lookup name p.manifest.segments ≡ some segment
  pub canon : Bytes
  pub canonical : jcs pf (slice_bytes plaintext) ≡ ok canon
  pub confirmed : hash pf canon ≡ segment.plain_hash

found_or-eq-ok : {A : Type 0} (e : Error) (o : Option A) {a : A} → found_or e o ≡ ok a → o ≡ some a
found_or-eq-ok e none h = absurd (cc)
found_or-eq-ok e (some b) h = cc

replace_err-eq-ok :
    {A : Type 0} (e : Error) (r : Result A) {a : A} → replace_err e r ≡ ok a → r ≡ ok a
replace_err-eq-ok e (err x) h = absurd (cc)
replace_err-eq-ok e (ok b) h = cc

-- A check of a plaintext that succeeds returns it unchanged.
check_plain_hash-eq-ok :
    (pf : Platform) (seg : Segment) (a b : String) (plaintext result : Slice)
    → check_plain_hash pf seg a plaintext ≡ ok (b, result)
    → (a ≡ b)
      × (plaintext ≡ result)
      × ((canon : Bytes) × (jcs pf (slice_bytes plaintext) ≡ ok canon)
          × (hash pf canon ≡ seg.plain_hash))
unfolding check_plain_hash
check_plain_hash-eq-ok pf seg a b plaintext result h =
    let (canon, made, h₁) =
      Errors.bind-eq-ok (replace_err Error.hash_mismatch (jcs pf (slice_bytes plaintext))) _ h in
    elim (Bool-cases (hash pf canon == seg.plain_hash)) [
      | inl same ↦
          let e = rw same at h₁ in
          (
            cc,
            cc,
            (canon, replace_err-eq-ok _ _ made, (eq_iff (hash pf canon) seg.plain_hash).0 same),
          )
      | inr other ↦ absurd (cc (rw other at h₁))
    ]

open_segment-eq-ok :
    (pf : Platform) (w : KeyWrapper) (p : Package) (priv : Bytes) (a b : String) (seg : Segment)
    (sealed : SealedSegment) (result : Slice) (t u : Trace)
    → open_segment pf w p priv a seg sealed t ≡ (ok (b, result), u)
    → (a ≡ b)
      × ((canon : Bytes) × (jcs pf (slice_bytes result) ≡ ok canon)
          × (hash pf canon ≡ seg.plain_hash))
unfolding open_segment
open_segment-eq-ok pf w p priv a b seg sealed result t u h =
    let failed = Error.decryption_failed in
    let (wire, _, h₁) =
      lift-bind-eq-ok (replace_err failed (decode_sealed_segment pf sealed)) _ t h in
    let unwrapped = λ (v : Trace). replace_err failed (w.unwrap priv wire.epk wire.wrapped v) in
    let (dek, _, h₂) =
      call-bind-eq-ok (Event.unwrapped priv wire.epk wire.wrapped) unwrapped _ t h₁ in
    let (ad, _, h₃) =
      lift-bind-eq-ok (replace_err failed (aad pf p.manifest.aad_context a p.spec_version)) _ _
        h₂ in
    let (plaintext, _, h₄) =
      lift-bind-eq-ok
        (replace_err failed (decrypt pf dek wire.nonce (wire.ciphertext ++ wire.tag) ad)) _ _ h₃ in
    let checked : check_plain_hash pf seg a plaintext ≡ ok (b, result) = ap (λ x. x.0) h₄ in
    let (name, same, (canon, made, good)) =
      check_plain_hash-eq-ok pf seg a b plaintext result checked in
    (name, (canon, subst (λ x. jcs pf (slice_bytes x) ≡ ok canon) same made, good))

-- Where Open returns a name and a plaintext, Level 1 of the offline Verify has passed; the entry of
-- cnf under that name, and no other entry, has the thumbprint of the private key's public key; and the
-- hash of the plaintext is the one that the signed manifest holds for that name. The map cnf has each
-- name once.
pub open_package-IsOpened :
    (pf : Platform) (w : KeyWrapper) (p : Package) (priv : Bytes) (opt : VerifyOptions)
    (t u : Trace) (name : String) (plaintext : Slice)
    → IsMap p.cnf
    → open_package pf (some p) priv w opt t ≡ (ok (name, plaintext), u)
    → IsOpened pf w p priv opt t name plaintext
unfolding open_package open_verified
open_package-IsOpened pf w p priv opt t u name plaintext m h =
    let (report, s, verified, h₁) = bind-eq-ok (verify pf (some p) (offline opt)) _ t h in
    elim (Bool-cases (level1 (some report))) [
      | inr failed ↦ absurd (cc (rw failed at h₁))
      | inl passed ↦
          let (a, matched, h₂) =
            lift-bind-eq-ok (found_or Error.decryption_failed (matching_audience p.cnf w priv)) _ s
              (rw passed at h₁) in
          let (seg, described, h₃) =
            lift-bind-eq-ok (found_or Error.decryption_failed (lookup a p.manifest.segments)) _ s
              h₂ in
          let (sealed, _, h₄) =
            lift-bind-eq-ok (found_or Error.decryption_failed (lookup a p.segments)) _ s h₃ in
          let (same, (canon, made, good)) =
            open_segment-eq-ok pf w p priv a name seg sealed plaintext s u h₄ in
          record {
            report = report;
            verified_at = s;
            verified = verified;
            passed = passed;
            recipient = matching_audience-IsRecipient p.cnf w priv name m (
                subst (λ x. matching_audience p.cnf w priv ≡ some x) same
                  (found_or-eq-ok Error.decryption_failed (matching_audience p.cnf w priv)
                    matched));
            segment = seg;
            described =
                subst (λ x. lookup x p.manifest.segments ≡ some seg) same
                  (found_or-eq-ok Error.decryption_failed (lookup a p.manifest.segments) described);
            canon = canon;
            canonical = made;
            confirmed = good;
          }
    ]
