-- ===== src/Bindings/Commitments.antt =====
-- The commitments of pkg/chainbind/bindings.go bind what they are computed from.
use text.Mathlib.TextLemmas.{append_cancel_left}
use chainbind_go.Prelude.{
  String, ◌≡◌, refl, ◌⊎◌, inl, inr, true, false, none, List, [], ◌∷◌, map, arith, contains, All,
  All-contains, All-of_contains, Bool-cases,
}
use chainbind_go.Prelude.Maps.{Map, lookup, keys, is_some, or_else, Same, contains-keys}
use chainbind_go.Errors.{ok, bind-eq-ok}
use chainbind_go.Value.{values}
use chainbind_go.Platform.{Platform, Collision}
use chainbind_go.Canonical.{
  jcs, hash, ReadsBack, both_text, both_array, both_object, both_field, both_end,
}
use chainbind_go.Canonical.Digests.{hash-jcs_injective}
use chainbind_go.Bindings.{entry_value, segments_root, intent_commitment}
use chainbind_go.Bindings.Roots.{
  Covers, committed, segments_root-eq-ok_iff, SameItems-entries, entry_values-injective,
  committed_hashes,
}

-- A name that segment_order leaves out has no hash.
pub lookup-eq-none :
    {o : List String} {m : Map String} (k : String)
    → Covers o m
    → contains k o ≡ false
    → lookup k m ≡ none
lookup-eq-none {o} {m} k c away = elim (Bool-cases (contains k (keys m))) [
  | inl here ↦ absurd (ground (arith, All-contains (λ a. contains a o ≡ true) k (keys m) c.listed))
  | inr absent ↦ ground (arith, contains-keys k m)
]

Covers-Same : {o : List String} (m n : Map String) → Same m n → Covers o m → Covers o n
Covers-Same {o} m n same c = record {
  once = c.once;
  hashed =
      All-of_contains _ o
        λ a here. rw (← same a) (All-contains (λ b. is_some (lookup b m) ≡ true) a o c.hashed here);
  listed = All-of_contains _ (keys n) λ a here.
      All-contains (λ b. contains b o ≡ true) a (keys m) c.listed
        (ground (arith, contains-keys a m, contains-keys a n, same a));
}

committed-Same : (o : List String) (m n : Map String) → Same m n → committed m o ≡ committed n o
committed-Same [] m n same = refl
committed-Same (a ∷ o) m n same = rw (same a, committed-Same o m n same) refl

-- The root depends on the content of the hash map alone.
pub segments_root-Same :
    (pf : Platform) (o : List String) (m n : Map String) {r : String}
    → Same m n
    → segments_root pf o m ≡ ok r
    → segments_root pf o n ≡ ok r
segments_root-Same pf o m n {r} same h =
    let (c, d) = (segments_root-eq-ok_iff pf o m r).0 h in
    (segments_root-eq-ok_iff pf o n r).1
      (Covers-Same m n same c, rw (committed-Same o m n same) at d)

module _ {pf : Platform} (reads : ReadsBack pf) where
  Same-of_hashes :
      {o : List String} (m n : Map String)
      → Covers o m
      → Covers o n
      → All (λ a. or_else (lookup a m) "" ≡ or_else (lookup a n) "") o
      → Same m n
  Same-of_hashes {o} m n c d eqs k = elim (Bool-cases (contains k o)) [
    | inl here ↦
        let hm = All-contains (λ a. is_some (lookup a m) ≡ true) k o c.hashed here in
        let hn = All-contains (λ a. is_some (lookup a n) ≡ true) k o d.hashed here in
        let e =
          All-contains (λ a. or_else (lookup a m) "" ≡ or_else (lookup a n) "") k o eqs here in
        ground arith
    | inr away ↦ rw (lookup-eq-none k c away, lookup-eq-none k d away) refl
  ]

  -- Where canonical JSON can be read back, two lists of audiences with one segments_root are the
  -- same list and have, for every audience, the same plaintext hash, unless a SHA-256 collision is
  -- at hand.
  pub segments_root-injective :
      (o p : List String) (m n : Map String) (root : String)
      → segments_root pf o m ≡ ok root
      → segments_root pf p n ≡ ok root
      → ((o ≡ p) × Same m n) ⊎ Collision pf
  segments_root-injective o p m n root hm hn =
      let (c, dm) = (segments_root-eq-ok_iff pf o m root).0 hm in
      let (d, dn) = (segments_root-eq-ok_iff pf p n root).0 hn in
      let (a, ja, ea) = bind-eq-ok (jcs pf _) _ dm in
      let (b, jb, eb) = bind-eq-ok (jcs pf _) _ dn in
      elim (hash-jcs_injective reads _ _ a b
        (both_array (SameItems-entries (committed m o) (committed n p))) ja jb (ground arith)) [
          | inr collision ↦ inr collision
          | inl same ↦
              let rows : values (map entry_value (committed m o))
                  ≡ values (map entry_value (committed n p)) =
                ground arith in
              let names = entry_values-injective o p m n c.once rows in
              inl (
                names,
                Same-of_hashes m n c (rw (← names) at d)
                    (committed_hashes o m n (rw (← names) at rows)),
              )
        ]

  -- Where canonical JSON can be read back, two equal intent commitments have the same
  -- authorization, the same constraints hash and the same segments_root, unless a SHA-256
  -- collision is at hand.
  pub intent_commitment-injective :
      (ref ref' chash chash' root root' commitment : String)
      → intent_commitment pf ref chash root ≡ ok commitment
      → intent_commitment pf ref' chash' root' ≡ ok commitment
      → ((ref ≡ ref') × (chash ≡ chash') × (root ≡ root')) ⊎ Collision pf
  unfolding intent_commitment
  intent_commitment-injective ref ref' chash chash' root root' commitment h h' =
      let (a, ja, ea) = bind-eq-ok (jcs pf _) _ h in
      let (b, jb, eb) = bind-eq-ok (jcs pf _) _ h' in
      let digests = append_cancel_left "ctx:" (hash pf a) (hash pf b) (ground arith) in
      elim (hash-jcs_injective reads _ _ a b
        (both_object (both_field both_text (both_field both_text (both_field both_text both_end))))
        ja jb digests) [ inr collision ↦ inr collision | inl same ↦ inl (cc, cc, cc) ]
