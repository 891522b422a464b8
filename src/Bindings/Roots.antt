-- ===== src/Bindings/Roots.antt =====
-- What segments_root commits to: the names of segment_order, in that order, each with its hash.
use mathlib.Core.List.{append_assoc, append-nil}
use chainbind_go.Prelude.{
  String, ◌≡◌, refl, ◌↔◌, inl, inr, true, false, ◌||◌, List, [], ◌∷◌, ◌++◌, map, arith, contains,
  Distinct, All, Option-cases,
}
use chainbind_go.Prelude.Seen.{Unseen, Unseen-nil, Unseen-cons, Unseen-tail}
use chainbind_go.Prelude.Maps.{Map, lookup, keys, is_some, or_else}
use chainbind_go.Errors.{Result, ok, bind-eq-ok, ◌>>=◌}
use chainbind_go.Value.{array, values}
use chainbind_go.Platform.{Platform}
use chainbind_go.Canonical.{
  jcs, hash, SameItems, left_done, right_done, both_cons, both_text, both_object, both_field,
  both_end,
}
use chainbind_go.Bindings.{SegmentRootEntry, entry_value, root_entries, all_seen, segments_root}

-- segment_order and the hashes name the same audiences, each once.
pub record Covers (order : List String) (m : Map String) : Type 0 where
  pub once : Distinct order
  pub hashed : All (λ a. is_some (lookup a m) ≡ true) order
  pub listed : All (λ a. contains a order ≡ true) (keys m)

-- The list that is hashed.
abbrev pub committed : Map String → List String → List SegmentRootEntry
committed m [] = []
committed m (a ∷ order) =
    record { audience = a; plain_hash = or_else (lookup a m) "" } ∷ committed m order

abbrev seen_after : List String → List String → List String
seen_after seen [] = seen
seen_after seen (a ∷ order) = seen_after (a ∷ seen) order

contains-seen_after :
    (a : String) (seen order : List String)
    → contains a (seen_after seen order) ≡ (contains a order || contains a seen)
contains-seen_after a seen [] = refl
contains-seen_after a seen (b ∷ order) = ground (arith, contains-seen_after a (b ∷ seen) order)

module _ (m : Map String) where
  root_entries_complete :
      (es : List SegmentRootEntry) (seen order : List String)
      → Distinct order
      → Unseen seen order
      → All (λ a. is_some (lookup a m) ≡ true) order
      → root_entries m es seen order ≡ ok (es ++ committed m order, seen_after seen order)
  unfolding root_entries
  root_entries_complete es seen [] d f h = rw append-nil
  root_entries_complete es seen (a ∷ order) (away, d) (f, fs) (h, hs) =
      elim (Option-cases (lookup a m)) [
        | inl missing ↦ absurd (ground arith)
        | inr (ph, found) ↦
            let e : SegmentRootEntry = record { audience = a; plain_hash = ph } in
            let ih =
              root_entries_complete (es ++ e ∷ []) (a ∷ seen) order d
                (Unseen-cons a seen order away fs) hs in
            rw (f, found, root_entries) (rw (append_assoc es) at ih)
      ]

  root_entries_sound :
      (es : List SegmentRootEntry) (seen order : List String)
      {r : List SegmentRootEntry × List String}
      → root_entries m es seen order ≡ ok r
      → Distinct order × Unseen seen order × All (λ a. is_some (lookup a m) ≡ true) order
  unfolding root_entries
  root_entries_sound es seen [] h = (tt, tt, tt)
  root_entries_sound es seen (a ∷ order) h = elim (Option-cases (lookup a m)) [
    | inl missing ↦ absurd (ground arith)
    | inr (ph, found) ↦
        let e : SegmentRootEntry = record { audience = a; plain_hash = ph } in
        let unseen : contains a seen ≡ false = ground arith in
        let (d, f, hs) =
          root_entries_sound (es ++ e ∷ []) (a ∷ seen) order
            (rw (unseen, found, root_entries) at h) in
        let (fresh, away) = Unseen-tail a seen order f in
        ((away, d), (unseen, fresh), (rw found refl, hs))
  ]

  all_seen_complete :
      (order names : List String)
      → All (λ a. contains a order ≡ true) names
      → all_seen (seen_after [] order) names ≡ ok tt
  unfolding all_seen
  all_seen_complete order [] h = refl
  all_seen_complete order (a ∷ names) (c, cs) =
      ground (arith, contains-seen_after a [] order, all_seen_complete order names cs)

  all_seen_sound :
      (order names : List String) {u : Unit {0}}
      → all_seen (seen_after [] order) names ≡ ok u
      → All (λ a. contains a order ≡ true) names
  unfolding all_seen
  all_seen_sound order [] h = tt
  all_seen_sound order (a ∷ names) h =
      (ground (arith, contains-seen_after a [] order), all_seen_sound order names (ground arith))

module _ (pf : Platform) (order : List String) (m : Map String) where
  abbrev pub digest : Result String
  digest = do
    canon ← jcs pf (array (values (map entry_value (committed m order))))
    ok (hash pf canon)

  -- Where the order covers the hashes, segments_root is the digest of the committed list.
  pub segments_root_complete : Covers order m → segments_root pf order m ≡ digest
  unfolding segments_root
  segments_root_complete c = rw (
    root_entries_complete m [] [] order c.once (Unseen-nil order) c.hashed,
    all_seen_complete m order (keys m) c.listed,
  )

  -- Where SegmentsRoot succeeds, segment_order covers the hashes.
  pub segments_root-Covers : {r : String} → segments_root pf order m ≡ ok r → Covers order m
  unfolding segments_root
  segments_root-Covers h =
      let (r, entered, rest) = bind-eq-ok (root_entries m [] [] order) _ h in
      let (d, f, hs) = root_entries_sound m [] [] order entered in
      let whole = root_entries_complete m [] [] order d f hs in
      let (u, seen, _) = bind-eq-ok (all_seen (seen_after [] order) (keys m)) _ (rw whole at h) in
      record { once = d; hashed = hs; listed = all_seen_sound m order (keys m) seen }

-- SegmentsRoot succeeds exactly where segment_order and the hashes name the same audiences, each
-- once, and the committed list has a canonical text; its result is then the digest of that text.
pub segments_root-eq-ok_iff :
    (pf : Platform) (order : List String) (m : Map String) (root : String)
    → (segments_root pf order m ≡ ok root) ↔ (Covers order m × (digest pf order m ≡ ok root))
segments_root-eq-ok_iff pf order m root = (
  λ h.
      let c = segments_root-Covers pf order m h in
      (c, rw (segments_root_complete pf order m c) at h),
  λ (c, h). rw (segments_root_complete pf order m c) h,
)

pub SameItems-entries :
    (es gs : List SegmentRootEntry)
    → SameItems (values (map entry_value es)) (values (map entry_value gs))
SameItems-entries [] gs = left_done
SameItems-entries (e ∷ es) [] = right_done
SameItems-entries (e ∷ es) (g ∷ gs) =
    both_cons (both_object (both_field both_text (both_field both_text both_end)))
      (SameItems-entries es gs)

pub entry_values-injective :
    (o p : List String) (m n : Map String)
    → Distinct o
    → values (map entry_value (committed m o)) ≡ values (map entry_value (committed n p))
    → o ≡ p
entry_values-injective [] [] m n d e = refl
entry_values-injective [] (b ∷ p) m n d e = cc
entry_values-injective (a ∷ o) [] m n d e = cc
entry_values-injective (a ∷ o) (b ∷ p) m n (_, d) e =
    cc (entry_values-injective o p m n d (ground arith))

pub committed_hashes :
    (o : List String) (m n : Map String)
    → values (map entry_value (committed m o)) ≡ values (map entry_value (committed n o))
    → All (λ a. or_else (lookup a m) "" ≡ or_else (lookup a n) "") o
committed_hashes [] m n e = tt
committed_hashes (a ∷ o) m n e = (ground arith, committed_hashes o m n (ground arith))
