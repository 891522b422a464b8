-- ===== src/Tests/Json.antt =====
-- A text of values from which a value of a known shape can be read back.
use Prim.Native.Char.{Char, code}
use package.text.Mathlib.TextBridge.{to_list, of_list-to_list, of_list}
use package.text.Mathlib.TextEquality.{Char-path}
use chainbind_go.Prelude.{suc, ◌≡◌, refl, sym, ap, ◌∙◌, List, [], ◌∷◌}
use chainbind_go.Value.{
  Bytes, Value, Values, Fields, text, bytes, array, object, nil, cons, end, field,
}
use chainbind_go.Canonical.{
  SameShape, both_text, both_bytes, both_array, both_object, SameItems, left_done, right_done,
  both_cons, SameMembers, both_end, both_field,
}

unfoldable pub put_bytes : Bytes → Bytes → Bytes
put_bytes [] rest = 0 ∷ rest
put_bytes (n ∷ b) rest = suc n ∷ put_bytes b rest

unfoldable pub put_chars : List Char → Bytes → Bytes
put_chars [] rest = 0 ∷ rest
put_chars (c ∷ cs) rest = suc (code c) ∷ put_chars cs rest

unfoldable mutual
  pub put : Value → Bytes → Bytes
  put (text s) rest = put_chars (to_list s) rest
  put (bytes b) rest = put_bytes b rest
  put (array vs) rest = put_items vs rest
  put (object fs) rest = put_members fs rest
  put v rest = rest

  pub put_items : Values → Bytes → Bytes
  put_items nil rest = 0 ∷ rest
  put_items (cons v vs) rest = 1 ∷ put v (put_items vs rest)

  pub put_members : Fields → Bytes → Bytes
  put_members end rest = rest
  put_members (field k v fs) rest = put v (put_members fs rest)

put_bytes-injective : (a b x y : Bytes) → put_bytes a x ≡ put_bytes b y → (a ≡ b) × (x ≡ y)
unfolding put_bytes
put_bytes-injective [] [] x y h = (refl, cc)
put_bytes-injective [] (n ∷ b) x y h = absurd (cc)
put_bytes-injective (m ∷ a) [] x y h = absurd (cc)
put_bytes-injective (m ∷ a) (n ∷ b) x y h = let (e, f) = put_bytes-injective a b x y cc in (cc, f)

put_chars-injective :
    (a b : List Char) (x y : Bytes) → put_chars a x ≡ put_chars b y → (a ≡ b) × (x ≡ y)
unfolding put_chars
put_chars-injective [] [] x y h = (refl, cc)
put_chars-injective [] (n ∷ b) x y h = absurd (cc)
put_chars-injective (m ∷ a) [] x y h = absurd (cc)
put_chars-injective (m ∷ a) (n ∷ b) x y h =
    let (e, f) = put_chars-injective a b x y cc in let same = Char-path m n cc in (cc, f)

mutual
  unfolding put put_items put_members

  pub put-injective :
      (v w : Value) (x y : Bytes) → SameShape v w → put v x ≡ put w y → (v ≡ w) × (x ≡ y)
  put-injective _ _ x y (both_text {s} {t}) h =
      let (e, f) = put_chars-injective (to_list s) (to_list t) x y h in
      (ap text (sym (of_list-to_list s) ∙ ap of_list e ∙ of_list-to_list t), f)
  put-injective _ _ x y (both_bytes {a} {b}) h =
      let (e, f) = put_bytes-injective a b x y h in (ap bytes e, f)
  put-injective _ _ x y (both_array {vs} {ws} s) h =
      let (e, f) = items-injective vs ws x y s h in (ap array e, f)
  put-injective _ _ x y (both_object {fs} {gs} s) h =
      let (e, f) = members-injective fs gs x y s h in (ap object e, f)

  items-injective :
      (v w : Values) (x y : Bytes)
      → SameItems v w
      → put_items v x ≡ put_items w y
      → (v ≡ w) × (x ≡ y)
  items-injective _ nil x y left_done h = (refl, cc)
  items-injective _ (cons w ws) x y left_done h = absurd (cc)
  items-injective nil _ x y right_done h = (refl, cc)
  items-injective (cons w ws) _ x y right_done h = absurd (cc)
  items-injective _ _ x y (both_cons {v} {w} {vs} {ws} s ss) h =
      let (e, f) = put-injective v w (put_items vs x) (put_items ws y) s cc in
      let (es, g) = items-injective vs ws x y ss f in (cc, g)

  members-injective :
      (v w : Fields) (x y : Bytes)
      → SameMembers v w
      → put_members v x ≡ put_members w y
      → (v ≡ w) × (x ≡ y)
  members-injective _ _ x y both_end h = (refl, h)
  members-injective _ _ x y (both_field {k} {v} {w} {fs} {gs} s ss) h =
      let (e, f) = put-injective v w (put_members fs x) (put_members gs y) s h in
      let (es, g) = members-injective fs gs x y ss f in (cc, g)
