-- ===== src/Open/Recovers.antt =====
-- The recipient of a segment recovers it from the package that Seal has returned.
use chainbind_go.Prelude.{
  Option, String, eq_iff, eq_refl, ◌≡◌, ◌≢◌, refl, sym, ap, ◌∙◌, subst, inl, inr, true, none, some,
  [], ◌∷◌, ◌++◌, ◌-◌, arith, length, take, drop, contains, Distinct, All, All-zip, Bool-cases,
  take-append-drop,
}
use chainbind_go.Prelude.Maps.{lookup, or_else}
use chainbind_go.Errors.{ok}
use chainbind_go.Value.{Bytes, Slice, contents, slice_bytes, IsBlock}
use chainbind_go.Platform.{Platform, DecodesBase64, OpensGcm}
use chainbind_go.Ports.{Event, Trace, Wrapping, KeyWrapper, FillsBuffer}
use chainbind_go.Package.{Package, AadContext, Segment, SealedSegment, supported_spec_version}
use chainbind_go.Canonical.{jcs, hash}
use chainbind_go.Aad.{aad}
use chainbind_go.Crypto.{Encrypted, new_gcm, appended, decrypt}
use chainbind_go.Bindings.Specs.{names}
use chainbind_go.Report.{Report, level1}
use chainbind_go.Verify.{VerifyOptions, verify}
use chainbind_go.Verify.Accept.{level1-verify_iff}
use chainbind_go.Verify.Asks.{verify-Reported}
use chainbind_go.Seal.{
  Audience, Sealer, SealRequest, SegmentSealed, segment_result, with_kid, with_signature, assemble,
  seal,
}
use chainbind_go.Seal.Segments.{IsSealed, audience_names}
use chainbind_go.Seal.Run.{Run, seal-Run}
use chainbind_go.Seal.Sealed.{
  Sealed, Among, All-Among, all-Sealed, audience-at, absent, Run-AreMaps,
}
use chainbind_go.Seal.Verifies.{Trusts, IsPure, final, Run-IsMap, Run-IsAuthentic}
use chainbind_go.Open.{
  SealedSegmentWire, decode_sealed_segment, matching_audience, check_plain_hash, open_segment,
  open_verified, offline, open_package,
}
use chainbind_go.Open.Matching.{OnlyAt, matching_audience-OnlyAt}

-- A private key of a recipient: it has the public key, and unwraps what is wrapped for that key.
pub record Unwraps (w : KeyWrapper) (priv public : Bytes) : Type 0 where
  pub derives : w.public_key priv ≡ ok public
  pub opens :
      (dek : Bytes) (t u : Trace) (x : Wrapping)
      → IsBlock 32 dek
      → w.wrap public dek t ≡ ok x
      → w.unwrap priv x.epk x.key u ≡ ok dek

-- No other audience has the thumbprint of this one.
abbrev pub OwnThumbprint : KeyWrapper → Audience → Audience → Type 0
OwnThumbprint w aud b = w.thumbprint b.public_key ≡ w.thumbprint aud.public_key → b.name ≡ aud.name

decode_sealed_segment_lem :
    (pf : Platform) (decodes : DecodesBase64 pf) (aud : Audience) (e : Encrypted) (canon : Bytes)
    (w : Wrapping)
    → let r = segment_result pf aud e canon w in
      let cut = length e.ciphertext - 16 in
      decode_sealed_segment pf r.sealed
      ≡ ok (record {
        epk = w.epk;
        wrapped = w.key;
        nonce = e.nonce;
        ciphertext = take cut e.ciphertext;
        tag = drop cut e.ciphertext;
      })
unfolding decode_sealed_segment
decode_sealed_segment_lem pf decodes aud e canon w =
    let cut = length e.ciphertext - 16 in
    rw
      (
        decodes.decode-encode w.epk,
        decodes.decode-encode w.key,
        decodes.decode-encode e.nonce,
        decodes.decode-encode (take cut e.ciphertext),
        decodes.decode-encode (drop cut e.ciphertext),
      )
      refl

-- An empty slice that is not nil is the one that does not come back.
appended-contents : (s : Slice) → s ≢ some [] → appended (contents s) ≡ s
appended-contents none kept = refl
appended-contents (some []) kept = absurd (kept refl)
appended-contents (some (x ∷ b)) kept = refl

decrypt_lem :
    (pf : Platform) (gcm : OpensGcm pf) (dek nonce ad : Bytes) (plaintext : Slice)
    → plaintext ≢ some []
    → new_gcm pf dek ≡ ok tt
    → length dek ≡ 32
    → length nonce ≡ 12
    → decrypt pf dek nonce (pf.gcm_seal dek nonce (contents plaintext) ad) ad ≡ ok plaintext
unfolding decrypt
decrypt_lem pf gcm dek nonce ad plaintext kept keyed long short =
    let opened = gcm.gcm_open-gcm_seal dek nonce (contents plaintext) ad long short in
    rw (keyed, short, opened, decrypt) (ap ok (appended-contents plaintext kept))

check_plain_hash_lem :
    (pf : Platform) (aud : Audience) (e : Encrypted) (canon : Bytes) (w : Wrapping)
    (plaintext : Slice)
    → jcs pf (slice_bytes plaintext) ≡ ok canon
    → check_plain_hash pf (segment_result pf aud e canon w).segment aud.name plaintext
      ≡ ok (aud.name, plaintext)
unfolding check_plain_hash
check_plain_hash_lem pf aud e canon w plaintext made =
    rw (made, check_plain_hash, eq_refl (hash pf canon)) refl

open_segment_lem :
    (pf : Platform) (w : KeyWrapper) (p : Package) (priv : Bytes) (a : String) (seg : Segment)
    (sealed : SealedSegment) (wire : SealedSegmentWire) (dek ad : Bytes) (plaintext : Slice)
    (t : Trace)
    → decode_sealed_segment pf sealed ≡ ok wire
    → w.unwrap priv wire.epk wire.wrapped t ≡ ok dek
    → aad pf p.manifest.aad_context a p.spec_version ≡ ok ad
    → decrypt pf dek wire.nonce (wire.ciphertext ++ wire.tag) ad ≡ ok plaintext
    → check_plain_hash pf seg a plaintext ≡ ok (a, plaintext)
    → open_segment pf w p priv a seg sealed t
      ≡ (ok (a, plaintext), Event.unwrapped priv wire.epk wire.wrapped ∷ t)
unfolding open_segment
open_segment_lem pf w p priv a seg sealed wire dek ad plaintext t h₁ h₂ h₃ h₄ h₅ =
    rw (h₁, h₂, h₃, h₄, h₅) refl

open_package_lem :
    (pf : Platform) (w : KeyWrapper) (p : Package) (priv : Bytes) (opt : VerifyOptions) (a : String)
    (seg : Segment) (sealed : SealedSegment) (plaintext : Slice) (report : Report) (t u v : Trace)
    → verify pf (some p) (offline opt) t ≡ (ok report, u)
    → level1 (some report) ≡ true
    → matching_audience p.cnf w priv ≡ some a
    → lookup a p.manifest.segments ≡ some seg
    → lookup a p.segments ≡ some sealed
    → open_segment pf w p priv a seg sealed u ≡ (ok (a, plaintext), v)
    → open_package pf (some p) priv w opt t ≡ (ok (a, plaintext), v)
unfolding open_package open_verified
open_package_lem pf w p priv opt a seg sealed plaintext report t u v h₁ h₂ h₃ h₄ h₅ h₆ =
    rw (h₁, h₂, open_verified, h₃, h₄, h₅, h₆) refl

module _ {pf : Platform} (gcm : OpensGcm pf) (decodes : DecodesBase64 pf) {s : Sealer}
    (fills : FillsBuffer s.rand) (priv : Bytes) where
  -- A segment that was sealed to the key's audience opens, wherever its context is at hand.
  open_segment-IsSealed :
      {c : AadContext} {aud : Audience} {plaintext : Slice} {r : SegmentSealed} (p : Package)
      (t : Trace)
      → plaintext ≢ some []
      → IsSealed pf s c aud plaintext r
      → Unwraps s.wrapper priv aud.public_key
      → aad pf p.manifest.aad_context aud.name p.spec_version
        ≡ aad pf c aud.name supported_spec_version
      → (v : Trace) × (open_segment pf s.wrapper p priv aud.name r.segment r.sealed t
          ≡ (ok (aud.name, plaintext), v))
  unfolding open_segment
  open_segment-IsSealed {c} {aud} {plaintext} {r} p t kept x un context =
      let e = x.encrypted in
      let w = x.wrapping in
      let dek_size = fills.drawn 32 x.dek_at x.dek x.dek_drawn in
      let nonce_size = fills.drawn 12 x.nonce_at x.nonce x.nonce_drawn in
      let unwrapped = un.opens x.dek x.wrapped_at t w dek_size x.wrapped in
      let opened =
        decrypt_lem pf gcm x.dek x.nonce x.ad plaintext kept x.keyed dek_size.0 nonce_size.0 in
      let sealed : e.ciphertext ≡ pf.gcm_seal x.dek x.nonce (contents plaintext) x.ad =
        ap (λ y. y.ciphertext) x.encryption in
      let nonce : e.nonce ≡ x.nonce = ap (λ y. y.nonce) x.encryption in
      let cut = length e.ciphertext - 16 in
      (
        Event.unwrapped priv w.epk w.key ∷ t,
        rw x.made (
            open_segment_lem pf s.wrapper p priv aud.name
              (segment_result pf aud e x.canon w).segment (segment_result pf aud e x.canon w).sealed
              (record {
                epk = w.epk;
                wrapped = w.key;
                nonce = e.nonce;
                ciphertext = take cut e.ciphertext;
                tag = drop cut e.ciphertext;
              })
              x.dek x.ad plaintext t (decode_sealed_segment_lem pf decodes aud e x.canon w)
              unwrapped (context ∙ x.bound)
              (rw (take-append-drop cut e.ciphertext, sealed, nonce) opened)
              (check_plain_hash_lem pf aud e x.canon w plaintext x.canonical)),
      )

abbrev Owned :
    {pf : Platform} {s : Sealer} {req : SealRequest} {t u : Trace} {p : Package}
    → Run pf s req t p u
    → Audience
    → Audience
    → Type 0
Owned {s} r aud b = Sealed r b × OwnThumbprint s.wrapper aud b

module _ {pf : Platform} {s : Sealer} {req : SealRequest} {t u : Trace} {p : Package}
    (r : Run pf s req t p u) (decodes : DecodesBase64 pf) (aud : Audience)
    (here : Among aud req.audiences) where
  holds : Sealed r aud
  holds = All-Among (Sealed r) aud req.audiences here (all-Sealed r)

  -- Only the audience's own entry of cnf has its thumbprint.
  cnf-OnlyAt :
      All (OwnThumbprint s.wrapper aud) req.audiences → OnlyAt holds.jkt aud.name r.segments.cnf
  cnf-OnlyAt own k conf found hit = elim (Bool-cases (contains k (audience_names req.audiences))) [
    | inr away ↦ absurd (ground (arith, (absent r k away).confirmed))
    | inl known ↦
        let x =
          audience-at (Owned r aud) k req.audiences
            (All-zip (Sealed r) (OwnThumbprint s.wrapper aud) (Owned r aud) (λ b y z. (y, z))
              req.audiences (all-Sealed r) own)
            known in
        let (sealed, mine) = x.holds in
        let entry : lookup k r.segments.cnf
            ≡ some (record { kid = x.audience.kid; jkt = sealed.jkt; method = "jwk-thumbprint" }) =
          rw (← x.name) sealed.confirmed_at in
        let same : sealed.jkt ≡ conf.jkt = cc in
        let jkts : conf.jkt ≡ holds.jkt = (eq_iff conf.jkt holds.jkt).0 hit in
        sym x.name ∙ mine (sealed.thumbprint ∙ ap (λ j. ok j) (same ∙ jkts) ∙ sym holds.thumbprint)
  ]

  abbrev Recovered : VerifyOptions → Bytes → Trace → Package → Type 0
  Recovered opt priv v q =
      (w : Trace) × (open_package pf (some q) priv s.wrapper opt v
        ≡ (ok (aud.name, or_else (lookup aud.name req.segments) none), w))

  final-Recovered :
      (opt : VerifyOptions) (priv : Bytes) (v : Trace) (q : Package)
      → q ≡ final r decodes
      → or_else (lookup aud.name req.segments) none ≢ some []
      → OpensGcm pf
      → FillsBuffer s.rand
      → Unwraps s.wrapper priv aud.public_key
      → All (OwnThumbprint s.wrapper aud) req.audiences
      → (report : Report) (x : Trace) → verify pf (some q) (offline opt) v ≡ (ok report, x)
      → level1 (some report) ≡ true
      → Recovered opt priv v q
  unfolding with_signature with_kid assemble
  final-Recovered opt priv v q e kept gcm fills un own report x verified passed =
      let (w, opened) =
        open_segment-IsSealed gcm decodes fills priv q x kept holds.is_sealed un (rw e refl) in
      (
        w,
        open_package_lem pf s.wrapper q priv opt aud.name holds.result.segment holds.result.sealed
            (or_else (lookup aud.name req.segments) none) report v x w verified passed
            (rw e (
              matching_audience-OnlyAt r.segments.cnf s.wrapper priv aud.public_key holds.jkt
                aud.name _ (Run-AreMaps r).confirmed un.derives holds.thumbprint (cnf-OnlyAt own)
                holds.confirmed_at refl))
            (rw e holds.described_at) (rw e holds.sealed_at) opened,
      )

-- What Seal returns, the recipient opens: the holder of an audience's private key gets, at any later
-- time, that audience's name and the very plaintext that was sealed for it, unless that was an empty
-- slice that is not nil. The issuer's signer is trusted; the binding specs are those of the request, with distinct names and pure; AES-GCM opens
-- what it sealed, raw base64url decodes what it encoded, and crypto/rand fills its buffer; the
-- private key unwraps what is wrapped for its public key; no other audience has its thumbprint.
pub open_package-seal :
    (pf : Platform) (s : Sealer) (req : SealRequest) (opt : VerifyOptions)
    (resolve : String → String → Option Bytes) (aud : Audience) (priv : Bytes) (t u v : Trace)
    (p : Package)
    → DecodesBase64 pf
    → OpensGcm pf
    → FillsBuffer s.rand
    → opt.issuer_key ≡ some resolve
    → Trusts pf s.signer resolve req.issuer
    → opt.binding_specs ≡ req.binding_specs
    → Distinct (names req.binding_specs)
    → All IsPure req.binding_specs
    → Among aud req.audiences
    → or_else (lookup aud.name req.segments) none ≢ some []
    → Unwraps s.wrapper priv aud.public_key
    → All (OwnThumbprint s.wrapper aud) req.audiences
    → seal pf s req t ≡ (ok p, u)
    → (w : Trace) × (open_package pf (some p) priv s.wrapper opt v
        ≡ (ok (aud.name, or_else (lookup aud.name req.segments) none), w))
open_package-seal pf s req opt resolve aud priv t u v p decodes gcm fills keyed trust specs distinct
      pure here kept un own h =
    let r = seal-Run pf s req t p u h in
    let authentic = Run-IsAuthentic r decodes {opt = offline opt} keyed trust specs distinct pure in
    let x = verify-Reported pf p (offline opt) v in
    let passed =
      (level1-verify_iff pf p (offline opt) v x.left x.report (Run-IsMap r decodes)
          (subst (λ specs. Distinct (names specs)) (sym specs) distinct) x.result).1
        authentic in
    final-Recovered r decodes aud here opt priv v p r.result kept gcm fills un own x.report x.left
      x.result passed
