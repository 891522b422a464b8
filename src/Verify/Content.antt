-- ===== src/Verify/Content.antt =====
-- The maps that Verify fills after the signature, and when all their entries are true.
use chainbind_go.Prelude.{
  inl, inr, Option-cases, String, eq_iff, ◌++◌, ◌≡◌, refl, ◌↔◌, ◌≢◌, ◌≤◌, length, eqb, none, Bool,
  true, false, ◌&&◌, some, List, [], ◌∷◌, arith, contains, Distinct, All, if◌then◌else◌,
}
use chainbind_go.Prelude.Seen.{Unseen, Unseen-nil}
use chainbind_go.Prelude.Maps.{
  Map, lookup, insert, keys, or_else, lookup-insert, contains-keys-insert, length-insert,
}
use chainbind_go.Errors.{Result, ok, err}
use chainbind_go.Value.{Bytes}
use chainbind_go.Platform.{Platform}
use chainbind_go.Canonical.{hash}
use chainbind_go.Package.{Package, Segment, SealedSegment}
use chainbind_go.Bindings.{BindingContext, BindingSpec, segments_root}
use chainbind_go.Bindings.Specs.{names}
use chainbind_go.Report.{all_true, level1_passed}
use chainbind_go.Report.Verdicts.{level1_passed_sound, level1_passed_complete}
use chainbind_go.Verify.{
  segment_at, sealed_at, check_cipher_hash, plain_hashes, cipher_hashes, profile_bindings,
  equals_ok, or_empty, check_content,
}

all_true-insert :
    (k : String) (b : Bool) (m : Map Bool)
    → contains k (keys m) ≡ false
    → all_true (insert k b m) ≡ (all_true m && b)
all_true-insert k b [] away = ground arith
all_true-insert k b ((j, c) ∷ m) away = ground (arith, all_true-insert k b m)

-- A name that is new to the map and to the rest stays new to the rest.
Unseen-insert :
    (k : String) (b : Bool) (m : Map Bool) (order : List String)
    → contains k order ≡ false
    → Unseen (keys m) order
    → Unseen (keys (insert k b m)) order
Unseen-insert k b m [] away h = tt
Unseen-insert k b m (a ∷ order) away (h, hs) = (
  ground (arith, contains-keys-insert a k b m, eq_iff a k, eq_iff k a),
  Unseen-insert k b m order (ground arith) hs,
)

pub lookup-plain_hashes :
    (p : Package) (k : String) (m : Map String) (order : List String)
    → lookup k (plain_hashes p m order)
      ≡ (if contains k order then some (segment_at p k).plain_hash else lookup k m)
unfolding plain_hashes
lookup-plain_hashes p k m [] = refl
lookup-plain_hashes p k m (a ∷ order) = ground (
  arith,
  lookup-plain_hashes p k (insert a (segment_at p a).plain_hash m) order,
  lookup-insert a k (segment_at p a).plain_hash m,
  eq_iff k a,
)

-- The cipher hash that the manifest has for a segment is that of its ciphertext and tag.
pub record CipherHash (pf : Platform) (seg : Segment) (sealed : SealedSegment) : Type 0 where
  pub ciphertext : Bytes
  pub read : pf.base64url_decode sealed.ciphertext ≡ some ciphertext
  pub tag : Bytes
  pub read_tag : pf.base64url_decode sealed.tag ≡ some tag
  pub digest : hash pf (ciphertext ++ tag) ≡ seg.cipher_hash

pub check_cipher_hash_iff :
    (pf : Platform) (seg : Segment) (sealed : SealedSegment)
    → (check_cipher_hash pf seg sealed ≡ true) ↔ CipherHash pf seg sealed
unfolding check_cipher_hash
check_cipher_hash_iff pf seg sealed = (
  λ h. elim (Option-cases (pf.base64url_decode sealed.ciphertext)) [
    | inl bad ↦ absurd (let g = rw (check_cipher_hash, bad) at h in cc)
    | inr (ciphertext, read) ↦ elim (Option-cases (pf.base64url_decode sealed.tag)) [
      | inl bad ↦ absurd (let g = rw (check_cipher_hash, read, bad) at h in cc)
      | inr (tag, read_tag) ↦ record {
        ciphertext = ciphertext;
        read = read;
        tag = tag;
        read_tag = read_tag;
        digest =
            (eq_iff (hash pf (ciphertext ++ tag)) seg.cipher_hash).0
              (rw (check_cipher_hash, read, read_tag) at h);
      }
    ]
  ],
  λ c. rw (c.read, c.read_tag, check_cipher_hash) ((eq_iff _ _).1 c.digest),
)

abbrev pub CipherMatches : Platform → Package → String → Type 0
CipherMatches pf p a = CipherHash pf (segment_at p a) (sealed_at p a)

cipher_hashes_iff :
    (pf : Platform) (p : Package) (m : Map Bool) (order : List String)
    → Distinct order
    → Unseen (keys m) order
    → (all_true (cipher_hashes pf p m order) ≡ true)
      ↔ ((all_true m ≡ true) × All (CipherMatches pf p) order)
unfolding cipher_hashes
cipher_hashes_iff pf p m [] d u = (λ h. (h, tt), λ h. h.0)
cipher_hashes_iff pf p m (a ∷ order) (away, d) (u, us) =
    let b = check_cipher_hash pf (segment_at p a) (sealed_at p a) in
    let ih = cipher_hashes_iff pf p (insert a b m) order d (Unseen-insert a b m order away us) in
    let e = all_true-insert a b m u in
    (
      λ h.
          let (now, rest) = ih.0 h in
          (
            ground arith,
            ((check_cipher_hash_iff pf (segment_at p a) (sealed_at p a)).0 (ground arith), rest),
          ),
      λ (old, (here, rest)).
          let good = (check_cipher_hash_iff pf (segment_at p a) (sealed_at p a)).1 here in
          ih.1 (ground arith, rest),
    )

abbrev pub BindingMatches : Package → BindingContext → BindingSpec → Type 0
BindingMatches p c s = s.compute c ≡ ok (or_else (lookup s.name p.bindings.extra) "")

pub equals_ok_iff : (r : Result String) (v : String) → (equals_ok r v ≡ true) ↔ (r ≡ ok v)
equals_ok_iff (ok u) v = ground (arith, eq_iff u v)
equals_ok_iff (err e) v = ground arith

profile_bindings_iff :
    (p : Package) (c : BindingContext) (m : Map Bool) (specs : List BindingSpec)
    → Distinct (names specs)
    → Unseen (keys m) (names specs)
    → (all_true (profile_bindings p c m specs) ≡ true)
      ↔ ((all_true m ≡ true) × All (BindingMatches p c) specs)
unfolding profile_bindings
profile_bindings_iff p c m [] d u = (λ h. (h, tt), λ h. h.0)
profile_bindings_iff p c m (s ∷ specs) (away, d) (u, us) =
    let v = or_else (lookup s.name p.bindings.extra) "" in
    let b = equals_ok (s.compute c) v in
    let ih =
      profile_bindings_iff p c (insert s.name b m) specs d
        (Unseen-insert s.name b m (names specs) away us) in
    let e = all_true-insert s.name b m u in
    (
      λ h.
          let (now, rest) = ih.0 h in
          (ground arith, ((equals_ok_iff (s.compute c) v).0 (ground arith), rest)),
      λ (old, (here, rest)). ih.1 (ground (arith, (equals_ok_iff (s.compute c) v).1 here), rest),
    )

-- `insert` never leaves a map empty, so a loop over some names does not.
length-cipher_hashes :
    (pf : Platform) (p : Package) (m : Map Bool) (order : List String)
    → length m ≤ length (cipher_hashes pf p m order)
unfolding cipher_hashes
length-cipher_hashes pf p m [] = omega arith
length-cipher_hashes pf p m (a ∷ order) =
    let b = check_cipher_hash pf (segment_at p a) (sealed_at p a) in
    omega (arith, length-insert a b m, length-cipher_hashes pf p (insert a b m) order)

cipher_hashes-ne-nil :
    (pf : Platform) (p : Package) (order : List String)
    → length order ≢ 0
    → length (cipher_hashes pf p [] order) ≢ 0
unfolding cipher_hashes
cipher_hashes-ne-nil pf p [] h = absurd (h refl)
cipher_hashes-ne-nil pf p (a ∷ order) h =
    let b = check_cipher_hash pf (segment_at p a) (sealed_at p a) in
    omega (arith, length-cipher_hashes pf p ((a, b) ∷ []) order)

-- What the bindings are recomputed from: the values of the package itself.
abbrev pub package_context : Platform → Package → BindingContext
package_context pf p = record {
  plain_hash = plain_hashes p [] p.manifest.segment_order;
  intent_ref = p.intent.intent_ref;
  constraints_hash = p.intent.constraints_hash;
  segments_root =
      or_empty
        (segments_root pf p.manifest.segment_order (plain_hashes p [] p.manifest.segment_order));
}

-- The content is consistent with the hashes and commitments that the issuer has signed.
pub record IsConsistent (pf : Platform) (p : Package) (specs : List BindingSpec) : Type 0 where
  pub same_id : p.manifest.aad_context.package_id ≡ p.package_id
  pub ciphers : All (CipherMatches pf p) p.manifest.segment_order
  pub root :
      segments_root pf p.manifest.segment_order (plain_hashes p [] p.manifest.segment_order)
      ≡ ok p.bindings.segments_root
  pub bindings : All (BindingMatches p (package_context pf p)) specs

-- The map of profile bindings as the report holds it: nil where no binding was asked for.
bound_iff :
    (p : Package) (c : BindingContext) (specs : List BindingSpec)
    → Distinct (names specs)
    → (all_true
          (or_else (if eqb (length specs) 0 then none else some (profile_bindings p c [] specs)) [])
        ≡ true)
      ↔ All (BindingMatches p c) specs
bound_iff p c [] d = (λ h. tt, λ h. refl)
bound_iff p c (s ∷ specs) d =
    let iff = profile_bindings_iff p c [] (s ∷ specs) d (Unseen-nil (names (s ∷ specs))) in
    (λ h. (iff.0 (ground arith)).1, λ h. ground (arith, iff.1 (refl, h)))

module _ (pf : Platform) (p : Package) (specs : List BindingSpec) where
  open p.manifest use {segment_order as order}

  -- L1.3 to L1.6 all pass exactly where the content is consistent.
  pub check_content_iff :
      Distinct order
      → length order ≢ 0
      → Distinct (names specs)
      → (level1_passed (check_content pf p specs) ≡ true) ↔ IsConsistent pf p specs
  unfolding check_content
  check_content_iff once some_audience named =
      let c = package_context pf p in
      let root = segments_root pf order (plain_hashes p [] order) in
      let hashes = cipher_hashes_iff pf p [] order once (Unseen-nil order) in
      (
        λ h.
            let v = level1_passed_sound (check_content pf p specs) h in
            record {
              same_id = (eq_iff p.manifest.aad_context.package_id p.package_id).0 v.consistent;
              ciphers = (hashes.0 v.ciphers).1;
              root = (equals_ok_iff root p.bindings.segments_root).0 v.rooted;
              bindings = (bound_iff p c specs named).0 v.bound;
            },
        λ k. level1_passed_complete (check_content pf p specs) (record {
          structural = refl;
          supported = refl;
          signed = refl;
          consistent = (eq_iff p.manifest.aad_context.package_id p.package_id).1 k.same_id;
          rooted = (equals_ok_iff root p.bindings.segments_root).1 k.root;
          hashed = cipher_hashes-ne-nil pf p order some_audience;
          ciphers = hashes.1 (refl, k.ciphers);
          bound = (bound_iff p c specs named).1 k.bindings;
        }),
      )
