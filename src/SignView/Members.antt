-- ===== src/SignView/Members.antt =====
-- Selecting the fields of a view, and encoding its members: the order of the names does not show.
use chainbind_go.Prelude.{
  String, eq_iff, ◌≡◌, refl, sym, ◌∙◌, ap, ◌⊎◌, inl, inr, false, Option, none, some, List, [], ◌∷◌,
  arith, contains, if◌then◌else◌,
}
use chainbind_go.Prelude.Maps.{
  Map, lookup, insert, or_else, keys, IsMap, Same, contains-keys, lookup-insert, insert-IsMap,
}
use chainbind_go.Errors.{Result, ok, err, Error}
use chainbind_go.Value.{Value, null}
use chainbind_go.Platform.{Platform}
use chainbind_go.Canonical.{SortsMembers}
use chainbind_go.SignView.{select_into, select_fields, members, encode_view}

module _ (view : Map (Result Value)) where
  lookup-select_into :
      (k : String) (out : Map (Result Value)) (names : List String)
      → lookup k (select_into out view names)
        ≡ (if contains k names then some (or_else (lookup k view) (ok null)) else lookup k out)
  unfolding select_into
  lookup-select_into k out [] = refl
  lookup-select_into k out (n ∷ names) = ground (
    arith,
    lookup-select_into k (insert n (or_else (lookup n view) (ok null)) out) names,
    lookup-insert n k (or_else (lookup n view) (ok null)) out,
    eq_iff k n,
  )

  select_into-IsMap :
      (out : Map (Result Value)) (names : List String)
      → IsMap out
      → IsMap (select_into out view names)
  unfolding select_into
  select_into-IsMap out [] h = h
  select_into-IsMap out (n ∷ names) h =
      select_into-IsMap (insert n (or_else (lookup n view) (ok null)) out) names
        (insert-IsMap n (or_else (lookup n view) (ok null)) out h)

  pub lookup-select_fields :
      (k : String) (names : List String)
      → lookup k (select_fields view names)
        ≡ (if contains k names then some (or_else (lookup k view) (ok null)) else none)
  unfolding select_fields
  lookup-select_fields k names = lookup-select_into k [] names

  pub select_fields-IsMap : (names : List String) → IsMap (select_fields view names)
  unfolding select_fields
  select_fields-IsMap names = select_into-IsMap [] names tt

abbrev answered : Option Value → Option (Result Value)
answered none = none
answered (some v) = some (ok v)

-- All members are values.
record Encodes (m : Map (Result Value)) : Type 0 where
  value : Map Value
  encodes : members m ≡ ok value
  names : keys value ≡ keys m
  entries : (k : String) → lookup k m ≡ answered (lookup k value)

-- One of the members fails the encoding.
record Fails (m : Map (Result Value)) : Type 0 where
  key : String
  error : Error
  fails : members m ≡ err error
  entry : lookup key m ≡ some (err error)

lookup-cons_ne :
    (k j : String) (r : Result Value) (m : Map (Result Value)) {x : Result Value}
    → contains j (keys m) ≡ false
    → lookup k m ≡ some x
    → lookup k ((j, r) ∷ m) ≡ some x
lookup-cons_ne k j r m away found = ground (arith, contains-keys j m, eq_iff k j)

members-cases : (m : Map (Result Value)) → IsMap m → Encodes m ⊎ Fails m
unfolding members
members-cases [] h = inl (record { value = []; encodes = refl; names = refl; entries = λ k. refl })
members-cases ((k, err e) ∷ m) h =
    inr (record { key = k; error = e; fails = refl; entry = ground (arith, eq_iff k k) })
members-cases ((k, ok v) ∷ m) (away, h) = elim (members-cases m h) [
  | inl s ↦ inl (record {
    value = (k, v) ∷ s.value;
    encodes = rw s.encodes refl;
    names = rw s.names refl;
    entries = λ j. ground (arith, s.entries j);
  })
  | inr f ↦ inr (record {
    key = f.key;
    error = f.error;
    fails = rw f.fails refl;
    entry = lookup-cons_ne f.key k (ok v) m away f.entry;
  })
]

-- Views with the same members, of which at most one kind of failure can come, encode alike.
pub encode_view-Same :
    {pf : Platform} (sorts : SortsMembers pf) (e : Error) (m n : Map (Result Value))
    → IsMap m
    → IsMap n
    → Same m n
    → ((k : String) (x : Error) → lookup k m ≡ some (err x) → x ≡ e)
    → encode_view pf m ≡ encode_view pf n
encode_view-Same {pf} sorts e m n hm hn same only = elim (members-cases m hm) [
  | inl s ↦ elim (members-cases n hn) [
    | inl t ↦
        rw (s.encodes, t.encodes)
          (sorts.jcs_same s.value t.value (rw s.names hm) (rw t.names hn)
            λ k. ground (arith, s.entries k, t.entries k, same k))
    | inr g ↦ absurd (ground (arith, s.entries g.key, same g.key, g.entry))
  ]
  | inr f ↦ elim (members-cases n hn) [
    | inl t ↦ absurd (ground (arith, t.entries f.key, same f.key, f.entry))
    | inr g ↦
        rw (f.fails, g.fails)
          (ap err (only f.key f.error f.entry ∙ sym (only g.key g.error (same g.key ∙ g.entry))))
  ]
]
