-- ===== src/Canonical.antt =====
-- pkg/chainbind/canonical.go
pub mod Digests
use chainbind_go.Prelude.{String, ◌≡◌}
use chainbind_go.Prelude.Maps.{Map, IsMap, Same}
use Prim.Native.String.{◌++◌}
use chainbind_go.Errors.{Result, ok, Error, or_err, ◌>>=◌}
use chainbind_go.Value.{
  Bytes, Value, Values, Fields, text, bytes, array, object, nil, cons, end, field, fields,
}
use chainbind_go.Platform.{Platform}

module _ (pf : Platform) where
  -- JCS
  unfoldable pub jcs : Value → Result Bytes
  jcs v = do
    raw ← or_err (Error.foreign "jcs marshal") (pf.json_marshal v)
    or_err (Error.foreign "jcs transform") (pf.jcs_transform raw)

  -- H
  unfoldable pub hash : Bytes → String
  hash b = "sha256:" ++ pf.hex (pf.sha256 b)

  -- RFC 8785: the members of an object are sorted, so their order does not show.
  pub record SortsMembers : Type 0 where
    pub jcs_same :
        (m n : Map Value)
        → IsMap m
        → IsMap n
        → Same m n
        → jcs (object (fields m)) ≡ jcs (object (fields n))

-- Values that differ at most in their texts, their byte strings and the lengths of their arrays.
mutual
  pub data SameShape : Value → Value → Type 0 where
    both_text : {s t : String} → SameShape (text s) (text t)
    both_bytes : {a b : Bytes} → SameShape (bytes a) (bytes b)
    both_array : {vs ws : Values} → SameItems vs ws → SameShape (array vs) (array ws)
    both_object : {fs gs : Fields} → SameMembers fs gs → SameShape (object fs) (object gs)

  pub data SameItems : Values → Values → Type 0 where
    left_done : {ws : Values} → SameItems nil ws
    right_done : {vs : Values} → SameItems vs nil
    both_cons :
        {v w : Value} {vs ws : Values}
        → SameShape v w
        → SameItems vs ws
        → SameItems (cons v vs) (cons w ws)

  pub data SameMembers : Fields → Fields → Type 0 where
    both_end : SameMembers end end
    both_field :
        {k : String} {v w : Value} {fs gs : Fields}
        → SameShape v w
        → SameMembers fs gs
        → SameMembers (field k v fs) (field k w gs)

-- JSON can be read back: between values of one shape, the canonical text shows every difference.
pub record ReadsBack (pf : Platform) : Type 0 where
  pub jcs_injective :
      (v w : Value) (b : Bytes) → SameShape v w → jcs pf v ≡ ok b → jcs pf w ≡ ok b → v ≡ w
  pub hex_injective : (a b : Bytes) → pf.hex a ≡ pf.hex b → a ≡ b
