-- ===== src/Package/RoundTrip.antt =====
-- Reading back what Bindings.MarshalJSON writes.
use chainbind_go.Prelude.{
  String, ◌==◌, eq_iff, ◌≡◌, refl, true, none, some, [], ◌∷◌, arith, if◌then◌else◌, ◌↔◌, ◌⊎◌,
}
use chainbind_go.Prelude.Maps.{
  Map, lookup, is_some, lookup-insert, lookup-delete, IsMap, insert, delete, contains-keys, Same,
}
use chainbind_go.Errors.{ok, err, Error}
use chainbind_go.Package.{
  Bindings, copy_into, marshal_bindings, unmarshal_bindings, bindings_field_segments_root,
  bindings_field_intent_commitment,
}

-- Copying the entries of a map, each key listed once, over another map.
lookup-copy_into :
    (k : String) (m n : Map String)
    → IsMap n
    → lookup k (copy_into m n) ≡ (if is_some (lookup k n) then lookup k n else lookup k m)
unfolding copy_into
lookup-copy_into k m [] h = refl
lookup-copy_into k m ((j, v) ∷ n) (fresh, h) = ground (
  arith,
  lookup-copy_into k (insert j v m) n h,
  lookup-insert j k v m,
  contains-keys k n,
  eq_iff k j,
)

-- The map that a Bindings without a reserved name is marshalled as.
abbrev members : Bindings → Map String
members b =
    insert bindings_field_intent_commitment b.intent_commitment
      (insert bindings_field_segments_root b.segments_root (copy_into [] b.extra))

lookup-members :
    (k : String) (b : Bindings)
    → IsMap b.extra
    → lookup k (members b) ≡ (
        if k == bindings_field_intent_commitment
        then some b.intent_commitment
        else if k == bindings_field_segments_root
        then some b.segments_root
        else lookup k b.extra)
lookup-members k b h = ground (
  arith,
  lookup-insert bindings_field_intent_commitment k b.intent_commitment
      (insert bindings_field_segments_root b.segments_root (copy_into [] b.extra)),
  lookup-insert bindings_field_segments_root k b.segments_root (copy_into [] b.extra),
  lookup-copy_into k [] b.extra h,
)

-- Bindings.MarshalJSON fails exactly when Extra holds a reserved name, and then with the collision
-- error.
pub marshal_bindings-binding_collision_iff :
    (b : Bindings)
    → (marshal_bindings b ≡ err Error.binding_collision) ↔ (
        (is_some (lookup bindings_field_segments_root b.extra) ≡ true)
        ⊎ (is_some (lookup bindings_field_intent_commitment b.extra) ≡ true))
unfolding marshal_bindings
marshal_bindings-binding_collision_iff b = ground arith

-- A Bindings whose Extra has each key once and names no core field is marshalled, and
-- unmarshalling gives back both core values and every entry of Extra, no more and no fewer.
pub unmarshal-marshal_bindings :
    (b : Bindings)
    → IsMap b.extra
    → lookup bindings_field_segments_root b.extra ≡ none
    → lookup bindings_field_intent_commitment b.extra ≡ none
    → (m : Map String) × (marshal_bindings b ≡ ok m)
      × ((unmarshal_bindings m).segments_root ≡ b.segments_root)
      × ((unmarshal_bindings m).intent_commitment ≡ b.intent_commitment)
      × Same (unmarshal_bindings m).extra b.extra
unfolding marshal_bindings unmarshal_bindings
unmarshal-marshal_bindings b h root commitment = (
  members b,
  ground arith,
  ground (arith, lookup-members bindings_field_segments_root b h),
  ground (arith, lookup-members bindings_field_intent_commitment b h),
  λ k. ground (
    arith,
    lookup-members k b h,
    lookup-delete bindings_field_intent_commitment k
        (delete bindings_field_segments_root (members b)),
    lookup-delete bindings_field_segments_root k (members b),
    eq_iff k bindings_field_segments_root,
    eq_iff k bindings_field_intent_commitment,
  ),
)
