-- ===== src/Tests/Logging.antt =====
-- A record whose caller has chosen the key of the correlation id, at the top level and in a group.
use chainbind_go.Prelude.{◌≡◌, refl, [], ◌∷◌, ◌++◌}
use chainbind_go.Logger.{
  Attrs, attr, no_attrs, plain, Chain, with_group, with_attrs, with_goa, apply_link, group, nest,
  delete_key, omit_empty, written, inlined, handle, values_of, handle-correlation_id,
}

abbrev claimed : Attrs
claimed = attr "correlation_id" (plain "forged") (attr "user" (plain "u") no_attrs)

abbrev chain : Chain
chain = with_group (with_attrs [] claimed) "req"

handle-correlation_id_example :
    (values_of "correlation_id" (written (handle chain "id-1" claimed))
      ≡ inlined "correlation_id" (nest chain claimed) ++ (plain "id-1" ∷ []))
    × (values_of "req" (written (handle chain "id-1" claimed))
        ≡ values_of "req" (written (nest chain claimed)))
handle-correlation_id_example = handle-correlation_id chain "id-1" "req" claimed refl refl

-- The caller's own correlation id is gone from the top level, but stays where it is inlined.
shadowed : inlined "correlation_id" (nest chain claimed) ≡ []
unfolding with_group with_attrs with_goa apply_link nest inlined
shadowed = refl

repeated :
    values_of "correlation_id" (written (handle [] "id-1" (attr "" (group claimed) no_attrs)))
    ≡ plain "forged" ∷ plain "id-1" ∷ []
unfolding handle written nest delete_key omit_empty
repeated = refl
