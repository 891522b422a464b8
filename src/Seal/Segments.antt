-- ===== src/Seal/Segments.antt =====
-- What the loop of Seal leaves in its four maps.
use chainbind_go.Prelude.{
  none, String, ◌==◌, ◌≡◌, refl, sym, ◌∙◌, eq_refl, inl, inr, false, some, List, [], ◌∷◌, arith,
  length, ltb, contains, Distinct, All, Bool-cases,
}
use chainbind_go.Prelude.Maps.{Map, lookup, or_else, IsMap, lookup-insert, insert-IsMap}
use chainbind_go.Errors.{ok}
use chainbind_go.Value.{Bytes, Slice, contents, slice_bytes}
use chainbind_go.Platform.{Platform}
use chainbind_go.Ports.{
  Trace, Wrapping, Entropy, call-bind-eq-ok, lift-bind-eq-ok, bind-eq-ok, answer-injective,
}
use chainbind_go.Package.{AadContext, supported_spec_version}
use chainbind_go.Canonical.{jcs}
use chainbind_go.Aad.{aad}
use chainbind_go.Crypto.{Encrypted, new_dek, new_gcm, encrypt}
use chainbind_go.Seal.{
  Audience, Sealer, SegmentSealed, Sealing, gcm_tag_size, segment_result, finish_segment,
  seal_segment, add_segment, seal_segments,
}

abbrev pub audience_names : List Audience → List String
audience_names [] = []
audience_names (a ∷ as') = a.name ∷ audience_names as'

-- One segment as sealSegment makes it: the plaintext under a fresh key and nonce, bound to its
-- audience by the additional data, and the key wrapped for the audience.
pub record IsSealed (pf : Platform) (s : Sealer) (c : AadContext) (aud : Audience)
    (plaintext : Slice) (r : SegmentSealed) : Type 0 where
  pub dek : Bytes
  pub dek_at : Trace
  pub dek_drawn : s.rand 32 dek_at ≡ ok dek
  pub ad : Bytes
  pub bound : aad pf c aud.name supported_spec_version ≡ ok ad
  pub keyed : new_gcm pf dek ≡ ok tt
  pub nonce : Bytes
  pub nonce_at : Trace
  pub nonce_drawn : s.rand 12 nonce_at ≡ ok nonce
  pub encrypted : Encrypted
  pub encryption :
      encrypted
      ≡ record { ciphertext = pf.gcm_seal dek nonce (contents plaintext) ad; nonce = nonce }
  pub canon : Bytes
  pub canonical : jcs pf (slice_bytes plaintext) ≡ ok canon
  pub wrapping : Wrapping
  pub wrapped_at : Trace
  pub wrapped : s.wrapper.wrap aud.public_key dek wrapped_at ≡ ok wrapping
  pub made : r ≡ segment_result pf aud encrypted canon wrapping

-- What a successful Encrypt has done.
record IsEncrypted (pf : Platform) (rand : Entropy) (dek plaintext ad : Bytes) (t : Trace)
    (e : Encrypted) : Type 0 where
  keyed : new_gcm pf dek ≡ ok tt
  nonce : Bytes
  drawn : rand 12 t ≡ ok nonce
  result : e ≡ record { ciphertext = pf.gcm_seal dek nonce plaintext ad; nonce = nonce }

encrypt-IsEncrypted :
    (pf : Platform) (rand : Entropy) (dek plaintext ad : Bytes) (t u : Trace) (e : Encrypted)
    → encrypt pf rand dek plaintext ad t ≡ (ok e, u)
    → IsEncrypted pf rand dek plaintext ad t e
unfolding encrypt
encrypt-IsEncrypted pf rand dek plaintext ad t u e h =
    let (_, keyed, h₁) = lift-bind-eq-ok (new_gcm pf dek) _ t h in
    let (nonce, drawn, h₂) = call-bind-eq-ok _ (rand 12) _ t h₁ in
    record {
      keyed = keyed;
      nonce = nonce;
      drawn = drawn;
      result = (answer-injective e _ u _ (sym h₂)).0;
    }

finish_segment-IsSealed :
    (pf : Platform) (s : Sealer) (c : AadContext) (aud : Audience) (plaintext : Slice)
    (t t₂ t₃ u : Trace) (dek ad : Bytes) (e : Encrypted) (r : SegmentSealed)
    → s.rand 32 t ≡ ok dek
    → aad pf c aud.name supported_spec_version ≡ ok ad
    → IsEncrypted pf s.rand dek (contents plaintext) ad t₂ e
    → finish_segment pf s aud plaintext dek e t₃ ≡ (ok r, u)
    → IsSealed pf s c aud plaintext r
unfolding finish_segment
finish_segment-IsSealed pf s c aud plaintext t t₂ t₃ u dek ad e r drawn bound x h =
    elim (Bool-cases (ltb (length e.ciphertext) gcm_tag_size)) [
      | inl short ↦ absurd (cc (rw short at h))
      | inr long ↦
          let (canon, canonical, h₁) =
            lift-bind-eq-ok (jcs pf (slice_bytes plaintext)) _ t₃ (rw long at h) in
          let (w, wrapped, h₂) = call-bind-eq-ok _ (s.wrapper.wrap aud.public_key dek) _ t₃ h₁ in
          record {
            dek = dek;
            dek_at = t;
            dek_drawn = drawn;
            ad = ad;
            bound = bound;
            keyed = x.keyed;
            nonce = x.nonce;
            nonce_at = t₂;
            nonce_drawn = x.drawn;
            encrypted = e;
            encryption = x.result;
            canon = canon;
            canonical = canonical;
            wrapping = w;
            wrapped_at = t₃;
            wrapped = wrapped;
            made = sym (answer-injective (segment_result pf aud e canon w) r _ u h₂).0;
          }
    ]

seal_segment-IsSealed :
    (pf : Platform) (s : Sealer) (c : AadContext) (aud : Audience) (plaintext : Slice) (t u : Trace)
    (r : SegmentSealed)
    → seal_segment pf s c aud plaintext t ≡ (ok r, u)
    → IsSealed pf s c aud plaintext r
unfolding seal_segment new_dek
seal_segment-IsSealed pf s c aud plaintext t u r h =
    let (dek, drawn, h₁) = call-bind-eq-ok _ (s.rand 32) _ t h in
    let (ad, bound, h₂) = lift-bind-eq-ok (aad pf c aud.name supported_spec_version) _ _ h₁ in
    let (e, t₃, encrypted, h₃) =
      bind-eq-ok (encrypt pf s.rand dek (contents plaintext) ad) _ _ h₂ in
    let x = encrypt-IsEncrypted pf s.rand dek (contents plaintext) ad _ t₃ e encrypted in
    finish_segment-IsSealed pf s c aud plaintext t _ t₃ u dek ad e r drawn bound x h₃

-- The four maps agree at a name.
pub record SameAt (k : String) (m n : Sealing) : Type 0 where
  pub hashes : lookup k m.plain_hash ≡ lookup k n.plain_hash
  pub described : lookup k m.manifest_segments ≡ lookup k n.manifest_segments
  pub sealed : lookup k m.sealed_segments ≡ lookup k n.sealed_segments
  pub confirmed : lookup k m.cnf ≡ lookup k n.cnf

-- What the maps hold for an audience: one segment, sealed to it, and its thumbprint.
pub record SealedFor (pf : Platform) (s : Sealer) (c : AadContext) (segments : Map Slice)
    (m : Sealing) (aud : Audience) : Type 0 where
  pub result : SegmentSealed
  pub is_sealed : IsSealed pf s c aud (or_else (lookup aud.name segments) none) result
  pub jkt : String
  pub thumbprint : s.wrapper.thumbprint aud.public_key ≡ ok jkt
  pub hash_at : lookup aud.name m.plain_hash ≡ some result.plain_hash
  pub described_at : lookup aud.name m.manifest_segments ≡ some result.segment
  pub sealed_at : lookup aud.name m.sealed_segments ≡ some result.sealed
  pub confirmed_at :
      lookup aud.name m.cnf ≡ some (record { kid = aud.kid; jkt = jkt; method = "jwk-thumbprint" })

-- The maps are maps: no name is entered twice.
pub record AreMaps (m : Sealing) : Type 0 where
  pub described : IsMap m.manifest_segments
  pub confirmed : IsMap m.cnf

SameAt-add_segment :
    (k : String) (aud : Audience) (r : SegmentSealed) (jkt : String) (m : Sealing)
    → (k == aud.name) ≡ false
    → SameAt k (add_segment aud r jkt m) m
unfolding add_segment
SameAt-add_segment k aud r jkt m other = record {
  hashes = rw (lookup-insert, other) refl;
  described = rw (lookup-insert, other) refl;
  sealed = rw (lookup-insert, other) refl;
  confirmed = rw (lookup-insert, other) refl;
}

add_segment-AreMaps :
    (aud : Audience) (r : SegmentSealed) (jkt : String) (m : Sealing)
    → AreMaps m
    → AreMaps (add_segment aud r jkt m)
unfolding add_segment
add_segment-AreMaps aud r jkt m h = record {
  described = insert-IsMap _ _ m.manifest_segments h.described;
  confirmed = insert-IsMap _ _ m.cnf h.confirmed;
}

SameAt-trans : (k : String) (a b c : Sealing) → SameAt k a b → SameAt k b c → SameAt k a c
SameAt-trans k a b c p q = record {
  hashes = p.hashes ∙ q.hashes;
  described = p.described ∙ q.described;
  sealed = p.sealed ∙ q.sealed;
  confirmed = p.confirmed ∙ q.confirmed;
}

module _ (pf : Platform) (s : Sealer) (c : AadContext) (segments : Map Slice) where
  -- One round of the loop, and the rest.
  record Round (m : Sealing) (aud : Audience) (rest : List Audience) (n : Sealing) (u : Trace)
      : Type 0 where
    result : SegmentSealed
    is_sealed : IsSealed pf s c aud (or_else (lookup aud.name segments) none) result
    jkt : String
    thumbprint : s.wrapper.thumbprint aud.public_key ≡ ok jkt
    later : Trace
    continued : seal_segments pf s c segments (add_segment aud result jkt m) rest later ≡ (ok n, u)

  seal_segments-Round :
      (m n : Sealing) (aud : Audience) (rest : List Audience) (t u : Trace)
      → seal_segments pf s c segments m (aud ∷ rest) t ≡ (ok n, u)
      → Round m aud rest n u
  unfolding seal_segments
  seal_segments-Round m n aud rest t u h =
      let plaintext = or_else (lookup aud.name segments) none in
      let (r, t₁, done, h₁) = bind-eq-ok (seal_segment pf s c aud plaintext) _ t h in
      let (jkt, thumbprint, h₂) = lift-bind-eq-ok (s.wrapper.thumbprint aud.public_key) _ t₁ h₁ in
      record {
        result = r;
        is_sealed = seal_segment-IsSealed pf s c aud plaintext t t₁ r done;
        jkt = jkt;
        thumbprint = thumbprint;
        later = t₁;
        continued = h₂;
      }

  pub seal_segments-SameAt :
      (k : String) (m n : Sealing) (auds : List Audience) (t u : Trace)
      → seal_segments pf s c segments m auds t ≡ (ok n, u)
      → contains k (audience_names auds) ≡ false
      → SameAt k n m
  unfolding seal_segments
  seal_segments-SameAt k m n [] t u h away =
      rw (← (answer-injective m n t u h).0)
        (record { hashes = refl; described = refl; sealed = refl; confirmed = refl })
  seal_segments-SameAt k m n (aud ∷ auds) t u h away =
      let r = seal_segments-Round m n aud auds t u h in
      let next = add_segment aud r.result r.jkt m in
      SameAt-trans k n next m
        (seal_segments-SameAt k next n auds r.later u r.continued (ground arith))
        (SameAt-add_segment k aud r.result r.jkt m (ground arith))

  pub seal_segments-AreMaps :
      (m n : Sealing) (auds : List Audience) (t u : Trace)
      → seal_segments pf s c segments m auds t ≡ (ok n, u)
      → AreMaps m
      → AreMaps n
  unfolding seal_segments
  seal_segments-AreMaps m n [] t u h k = rw (← (answer-injective m n t u h).0) k
  seal_segments-AreMaps m n (aud ∷ auds) t u h k =
      let r = seal_segments-Round m n aud auds t u h in
      seal_segments-AreMaps (add_segment aud r.result r.jkt m) n auds r.later u r.continued
        (add_segment-AreMaps aud r.result r.jkt m k)

  -- After the loop every audience has its segment, if no two audiences share a name.
  pub seal_segments-SealedFor :
      (m n : Sealing) (auds : List Audience) (t u : Trace)
      → seal_segments pf s c segments m auds t ≡ (ok n, u)
      → Distinct (audience_names auds)
      → All (SealedFor pf s c segments n) auds
  unfolding add_segment
  seal_segments-SealedFor m n [] t u h d = tt
  seal_segments-SealedFor m n (aud ∷ auds) t u h (away, d) =
      let r = seal_segments-Round m n aud auds t u h in
      let next = add_segment aud r.result r.jkt m in
      let same = seal_segments-SameAt aud.name next n auds r.later u r.continued away in
      (
        record {
          result = r.result;
          is_sealed = r.is_sealed;
          jkt = r.jkt;
          thumbprint = r.thumbprint;
          hash_at = same.hashes ∙ rw (lookup-insert, eq_refl) refl;
          described_at = same.described ∙ rw (lookup-insert, eq_refl) refl;
          sealed_at = same.sealed ∙ rw (lookup-insert, eq_refl) refl;
          confirmed_at = same.confirmed ∙ rw (lookup-insert, eq_refl) refl;
        },
        seal_segments-SealedFor next n auds r.later u r.continued d,
      )
