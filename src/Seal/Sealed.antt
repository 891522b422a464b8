-- ===== src/Seal/Sealed.antt =====
-- The package that a successful Seal returns, audience by audience.
use chainbind_go.Prelude.{
  String, eq_refl, ◌≡◌, ◌≢◌, refl, sym, ◌∙◌, inl, inr, ◌⊎◌, subst, true, false, some, List, [], ◌∷◌,
  arith, length, contains, All, All-contains, Bool-cases, Bool-iff, String-cases, ==-eq-false,
}
use chainbind_go.Prelude.Maps.{lookup, keys, is_some, contains-keys}
use chainbind_go.Platform.{Platform}
use chainbind_go.Ports.{Trace}
use chainbind_go.Package.{Package}
use chainbind_go.Bindings.Roots.{Covers, segments_root-Covers}
use chainbind_go.Seal.{Audience, Sealer, SealRequest, no_segments}
use chainbind_go.Seal.Segments.{
  audience_names, SealedFor, SameAt, seal_segments-SealedFor, seal_segments-SameAt,
  seal_segments-AreMaps, AreMaps,
}
use chainbind_go.Seal.Run.{Run, Run-Distinct, commit_segments-Commits}

-- The audience of a name.
pub record AudienceAt (P : Audience → Type 0) (a : String) : Type 0 where
  pub audience : Audience
  pub name : audience.name ≡ a
  pub holds : P audience

pub audience-at :
    (P : Audience → Type 0) (a : String) (auds : List Audience)
    → All P auds
    → contains a (audience_names auds) ≡ true
    → AudienceAt P a
audience-at P a [] h c = absurd (cc)
audience-at P a (b ∷ auds) (p, h) c = elim (String-cases a b.name) [
  | inl same ↦ record { audience = b; name = sym same; holds = p }
  | inr other ↦ audience-at P a auds h (rw (==-eq-false a b.name other) at c)
]

-- An audience of a list, and what holds of all of them holds of it.
abbrev pub Among : Audience → List Audience → Type 0
Among a [] = ⊥
Among a (b ∷ auds) = (a ≡ b) ⊎ Among a auds

pub All-Among :
    (P : Audience → Type 0) (a : Audience) (auds : List Audience) → Among a auds → All P auds → P a
All-Among P a [] here h = elim here [ ]
All-Among P a (b ∷ auds) (inl same) (p, h) = subst P (sym same) p
All-Among P a (b ∷ auds) (inr rest) (p, h) = All-Among P a auds rest h

some-name :
    (auds : List Audience)
    → length auds ≢ 0
    → (a : String) × (contains a (audience_names auds) ≡ true)
some-name [] h = absurd (h refl)
some-name (b ∷ auds) h = (b.name, rw eq_refl refl)

nonempty : (a : String) (order : List String) → contains a order ≡ true → length order ≢ 0
nonempty a [] h = absurd (cc)
nonempty a (b ∷ order) h = omega arith

module _ {pf : Platform} {s : Sealer} {req : SealRequest} {t u : Trace} {p : Package}
    (r : Run pf s req t p u) where
  abbrev pub Sealed : Audience → Type 0
  Sealed = SealedFor pf s r.context req.segments r.segments

  pub all-Sealed : All Sealed req.audiences
  all-Sealed =
      seal_segments-SealedFor pf s r.context req.segments no_segments r.segments req.audiences
        r.before r.after r.sealed (Run-Distinct r)

  pub Run-AreMaps : AreMaps r.segments
  Run-AreMaps =
      seal_segments-AreMaps pf s r.context req.segments no_segments r.segments req.audiences
        r.before r.after r.sealed (record { described = tt; confirmed = tt })

  pub Run-Covers : Covers req.segment_order r.segments.plain_hash
  Run-Covers =
      segments_root-Covers pf req.segment_order r.segments.plain_hash
        (commit_segments-Commits pf req r.constraints_hash r.segments.plain_hash r.committed
          r.commits).root

  -- A name that is no audience's is in none of the maps.
  pub absent :
      (a : String)
      → contains a (audience_names req.audiences) ≡ false
      → SameAt a r.segments no_segments
  absent a away =
      seal_segments-SameAt pf s r.context req.segments a no_segments r.segments req.audiences
        r.before r.after r.sealed away

  named : (a : String) → contains a (audience_names req.audiences) ≡ true → AudienceAt Sealed a
  named a here = audience-at Sealed a req.audiences all-Sealed here

  -- segment_order names the audiences.
  pub contains-order :
      (a : String) → contains a req.segment_order ≡ contains a (audience_names req.audiences)
  contains-order a =
      Bool-iff (contains a req.segment_order) (contains a (audience_names req.audiences))
        (λ h. elim (Bool-cases (contains a (audience_names req.audiences))) [
          | inl here ↦ here
          | inr away ↦
              let hashed =
                All-contains (λ b. is_some (lookup b r.segments.plain_hash) ≡ true) a
                  req.segment_order Run-Covers.hashed h in
              absurd (ground (arith, (absent a away).hashes))
        ])
        (λ here.
          let x = named a here in
          let found : lookup a r.segments.plain_hash ≡ some x.holds.result.plain_hash =
            rw (← x.name) x.holds.hash_at in
          All-contains (λ b. contains b req.segment_order ≡ true) a (keys r.segments.plain_hash)
            Run-Covers.listed (ground (arith, contains-keys a r.segments.plain_hash)))

  -- The audience of a name in segment_order.
  pub Sealed-in_order : (a : String) → contains a req.segment_order ≡ true → AudienceAt Sealed a
  Sealed-in_order a h = named a (sym (contains-order a) ∙ h)

  pub described_iff :
      (a : String) → contains a req.segment_order ≡ is_some (lookup a r.segments.manifest_segments)
  described_iff a = elim (Bool-cases (contains a (audience_names req.audiences))) [
    | inl here ↦
        let x = named a here in
        let found : lookup a r.segments.manifest_segments ≡ some x.holds.result.segment =
          rw (← x.name) x.holds.described_at in
        ground (arith, contains-order a)
    | inr away ↦ ground (arith, contains-order a, (absent a away).described)
  ]

  pub order-ne-nil : length req.segment_order ≢ 0
  order-ne-nil =
      let (a, here) = some-name req.audiences r.some_audience in
      nonempty a req.segment_order (contains-order a ∙ here)
