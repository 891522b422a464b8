-- ===== src/Verify/Structure.antt =====
-- When parsePackage accepts, and with which fault it refuses.
use chainbind_go.Prelude.{
  String, ◌≡◌, refl, sym, ◌∙◌, Bool-iff, ◌↔◌, ◌≢◌, true, false, none, List, [], ◌∷◌, arith, length,
  contains, Distinct, All, All-contains, All-of_contains,
}
use chainbind_go.Prelude.Seen.{Unseen, Unseen-nil, Unseen-cons, Unseen-tail}
use chainbind_go.Prelude.Counting.{contains_of_full, length-le_of_inside}
use chainbind_go.Prelude.Maps.{lookup, keys, is_some, IsMap, contains-keys, length-keys}
use chainbind_go.Errors.{ok}
use chainbind_go.Value.{Bytes}
use chainbind_go.Platform.{Platform}
use chainbind_go.Package.{Package}
use chainbind_go.SignView.{reconstruct_signing_view, decode_signature_value}
use chainbind_go.SignView.Names.{NamesView, check_signed_fields_iff, length-names}
use chainbind_go.Verify.{check_segments, parse_signature, parse_package, parsed}

-- The audiences of a package: each declared once, with a manifest entry and a sealed segment each,
-- and no manifest entry besides.
pub record IsStructured (p : Package) : Type 0 where
  pub some_audience : length p.manifest.segment_order ≢ 0
  pub once : Distinct p.manifest.segment_order
  pub described :
      (a : String) → contains a p.manifest.segment_order ≡ is_some (lookup a p.manifest.segments)
  pub sealed :
      (a : String)
      → contains a p.manifest.segment_order ≡ true
      → is_some (lookup a p.segments) ≡ true

module _ (p : Package) where
  abbrev Listed : List String → Type 0
  Listed order =
      All
        (λ a.
          (is_some (lookup a p.manifest.segments) ≡ true) × (is_some (lookup a p.segments) ≡ true))
        order

  check_segments_sound :
      (seen order : List String)
      → check_segments p seen order ≡ none
      → Listed order × Distinct order × Unseen seen order
  unfolding check_segments
  check_segments_sound seen [] h = (tt, tt, tt)
  check_segments_sound seen (a ∷ order) h =
      let unseen : contains a seen ≡ false = ground arith in
      let described : is_some (lookup a p.manifest.segments) ≡ true = ground arith in
      let sealed : is_some (lookup a p.segments) ≡ true = ground arith in
      let (ls, d, us) = check_segments_sound (a ∷ seen) order (ground arith) in
      let (rest, away) = Unseen-tail a seen order us in
      (((described, sealed), ls), (away, d), (unseen, rest))

  check_segments_complete :
      (seen order : List String)
      → Listed order
      → Distinct order
      → Unseen seen order
      → check_segments p seen order ≡ none
  unfolding check_segments
  check_segments_complete seen [] l d u = refl
  check_segments_complete seen (a ∷ order) ((described, sealed), ls) (away, d) (u, us) =
      rw (u, described, sealed)
        (check_segments_complete (a ∷ seen) order ls d (Unseen-cons a seen order away us))

-- Where manifest.segments is a map with as many entries as segment_order, the loop accepts exactly
-- the packages whose audiences are each declared once and have their two entries.
module _ (p : Package) (m : IsMap p.manifest.segments) where
  open p use {manifest}
  open manifest use {segment_order as order, segments as described}

  IsStructured-sound :
      length order ≢ 0
      → length described ≡ length order
      → check_segments p [] order ≡ none
      → IsStructured p
  IsStructured-sound some_audience count checked =
      let (listed, once, _) = check_segments_sound p [] order checked in
      let has = λ (a : String).
        All-contains
          (λ b. (is_some (lookup b described) ≡ true) × (is_some (lookup b p.segments) ≡ true)) a
          order listed in
      record {
        some_audience = some_audience;
        once = once;
        described = λ a.
            Bool-iff (contains a order) (is_some (lookup a described)) (λ h. (has a h).0)
              λ h.
                contains_of_full order (keys described) once
                  (λ b c. contains-keys b described ∙ (has b c).0)
                  (omega (arith, length-keys described)) a (contains-keys a described ∙ h);
        sealed = λ a h. (has a h).1;
      }

  structured_complete :
      IsStructured p → (length described ≡ length order) × (check_segments p [] order ≡ none)
  structured_complete s =
      let above =
        length-le_of_inside order (keys described) s.once
          (λ b c. contains-keys b described ∙ sym (s.described b) ∙ c) in
      let below =
        length-le_of_inside (keys described) order m
          (λ b c. s.described b ∙ sym (contains-keys b described) ∙ c) in
      (
        omega (arith, length-keys described),
        check_segments_complete p [] order
            (All-of_contains _ order (λ a h. (sym (s.described a) ∙ h, s.sealed a h))) s.once
            (Unseen-nil order),
      )

  -- Where the manifest map has each key once, parsePackage succeeds exactly where the audiences
  -- are each declared once with their manifest entry and sealed segment and there is no other
  -- manifest entry, signed_fields names the nine fields, the view can be built and the signature
  -- decoded; its results are these two.
  pub parse_package-parsed_iff :
      (pf : Platform) (view sig : Bytes)
      → (parse_package pf p ≡ parsed view sig) ↔ (
          IsStructured p
          × NamesView p.signature.signed_fields
          × (reconstruct_signing_view pf p ≡ ok view)
          × (decode_signature_value pf p.signature.value ≡ ok sig))
  unfolding parse_package parse_signature
  parse_package-parsed_iff pf view sig = (
    λ h. (
      IsStructured-sound (ground arith) (ground arith) (ground arith),
      (check_signed_fields_iff p.signature.signed_fields).0 (ground arith),
      ground arith,
      ground arith,
    ),
    λ (s, names, viewed, decoded).
        let (count, checked) = structured_complete s in
        ground (
          arith,
          length-names p.signature.signed_fields names,
          s.some_audience,
          (check_signed_fields_iff p.signature.signed_fields).1 names,
        ),
  )
