-- ===== src/Logger.antt =====
-- internal/platform/logger/logger.go: the handler that puts the correlation id on every record, and
-- what log/slog makes of its attributes. The message, level and time of a record are passed on as they
-- are; a value is what log/slog has resolved it to, and `nil_value` is the nil one.
use chainbind_go.Prelude.{
  String, Bool, true, false, ◌==◌, not, ◌≡◌, refl, sym, ap, ◌∙◌, inl, inr, List, [], ◌∷◌, ◌++◌,
  Bool-cases, eq_iff, if◌then◌else◌, arith,
}

mutual
  pub data AttrValue : Type 0 where
    plain : String → AttrValue
    nil_value : AttrValue
    group : Attrs → AttrValue

  pub data Attrs : Type 0 where
    no_attrs : Attrs
    attr : String → AttrValue → Attrs → Attrs

abbrev pub append : Attrs → Attrs → Attrs
append no_attrs b = b
append (attr k v a) b = attr k v (append a b)

abbrev pub is_empty : Attrs → Bool
is_empty no_attrs = true
is_empty (attr k v a) = false

abbrev pub is_empty_group : AttrValue → Bool
is_empty_group (plain s) = false
is_empty_group nil_value = false
is_empty_group (group a) = is_empty a

-- slog.GroupValue and Record.AddAttrs omit the groups without attributes.
unfoldable pub omit_empty : Attrs → Attrs
omit_empty no_attrs = no_attrs
omit_empty (attr k v a) =
    let rest = omit_empty a in if is_empty_group v then rest else attr k v rest

-- The members that slog's JSON handler writes: a group with an empty key is inlined, one that has
-- nothing to write is left out, and so is the zero attribute.
unfoldable pub written : Attrs → Attrs
written no_attrs = no_attrs
written (attr k (plain s) a) = attr k (plain s) (written a)
written (attr k nil_value a) =
    let rest = written a in if k == "" then rest else attr k nil_value rest
written (attr k (group g) a) =
    let inner = written g in
    let rest = written a in
    if k == ""
    then append inner rest
    else if is_empty inner
    then rest
    else attr k (group inner) rest

pub record GroupOrAttrs : Type 0 where
  pub group : String
  pub attrs : Attrs

-- The chain of a handler, the outermost link first.
abbrev pub Chain : Type 0
Chain = List GroupOrAttrs

unfoldable pub with_goa : Chain → GroupOrAttrs → Chain
with_goa goas goa = goas ++ (goa ∷ [])

unfoldable pub with_attrs : Chain → Attrs → Chain
with_attrs goas attrs =
    if is_empty attrs then goas else with_goa goas (record { group = ""; attrs = attrs })

unfoldable pub with_group : Chain → String → Chain
with_group goas name =
    if name == "" then goas else with_goa goas (record { group = name; attrs = no_attrs })

abbrev pub correlation_id_attr : String
correlation_id_attr = "correlation_id"

-- One link of the chain, round the attributes inside it.
unfoldable pub apply_link : GroupOrAttrs → Attrs → Attrs
apply_link goa attrs =
    if not (goa.group == "")
    then if is_empty attrs then attrs else attr goa.group (group (omit_empty attrs)) no_attrs
    else append goa.attrs attrs

-- The loop of Handle, from the innermost link outwards.
unfoldable pub nest : Chain → Attrs → Attrs
nest [] attrs = attrs
nest (goa ∷ goas) attrs = apply_link goa (nest goas attrs)

-- slices.DeleteFunc
unfoldable pub delete_key : String → Attrs → Attrs
delete_key key no_attrs = no_attrs
delete_key key (attr k v a) =
    let rest = delete_key key a in if k == key then rest else attr k v rest

-- Handle, up to the attributes of the record that it passes on to the base handler; the first text is
-- the correlation id of the context, empty if there is none.
unfoldable pub handle : Chain → String → Attrs → Attrs
handle goas id attrs =
    let nested = nest goas attrs in
    if not (id == "")
    then append (omit_empty (delete_key correlation_id_attr nested))
        (attr correlation_id_attr (plain id) no_attrs)
    else omit_empty nested

-- EnsureCorrelationID: the id of a context, or a fresh one.
unfoldable pub ensure_correlation_id : String → String → String
ensure_correlation_id id fresh = if not (id == "") then id else fresh

-- The values under a key at the top level, in order.
abbrev pub values_of : String → Attrs → List AttrValue
values_of key no_attrs = []
values_of key (attr k v a) = let rest = values_of key a in if k == key then v ∷ rest else rest

values_of-append :
    (key : String) (a b : Attrs) → values_of key (append a b) ≡ values_of key a ++ values_of key b
values_of-append key no_attrs b = refl
values_of-append key (attr k v a) b = elim (Bool-cases (k == key)) [
  | inl same ↦ rw same (ap (λ r. v ∷ r) (values_of-append key a b))
  | inr other ↦ rw other (values_of-append key a b)
]

append_assoc : (a b c : Attrs) → append (append a b) c ≡ append a (append b c)
append_assoc no_attrs b c = refl
append_assoc (attr k v a) b c = ap (λ r. attr k v r) (append_assoc a b c)

written-append : (a b : Attrs) → written (append a b) ≡ append (written a) (written b)
unfolding written
written-append no_attrs b = refl
written-append (attr k (plain s) a) b = ap (λ r. attr k (plain s) r) (written-append a b)
written-append (attr k nil_value a) b = elim (Bool-cases (k == "")) [
  | inl zero ↦ rw zero (written-append a b)
  | inr named ↦ rw named (ap (λ r. attr k nil_value r) (written-append a b))
]
written-append (attr k (group g) a) b = elim (Bool-cases (k == "")) [
  | inl inline ↦ rw inline (
      ap (append (written g)) (written-append a b)
      ∙ sym (append_assoc (written g) (written a) (written b)))
  | inr named ↦ elim (Bool-cases (is_empty (written g))) [
    | inl nothing ↦ rw (named, nothing) (written-append a b)
    | inr something ↦
        rw (named, something) (ap (λ r. attr k (group (written g)) r) (written-append a b))
  ]
]

-- What is omitted early would not have been written.
written-omit_empty : (a : Attrs) → written (omit_empty a) ≡ written a
unfolding written omit_empty
written-omit_empty no_attrs = refl
written-omit_empty (attr k (plain s) a) = ap (λ r. attr k (plain s) r) (written-omit_empty a)
written-omit_empty (attr k nil_value a) = rw (written-omit_empty a) refl
written-omit_empty (attr k (group no_attrs) a) = elim (Bool-cases (k == "")) [
  | inl inline ↦ rw inline (written-omit_empty a)
  | inr named ↦ rw named (written-omit_empty a)
]
written-omit_empty (attr k (group (attr j v g)) a) = rw (written-omit_empty a) refl

-- The values under a key that are written at the top level from groups with an empty key.
unfoldable pub inlined : String → Attrs → List AttrValue
inlined key no_attrs = []
inlined key (attr k (plain s) a) = inlined key a
inlined key (attr k nil_value a) = inlined key a
inlined key (attr k (group g) a) =
    let rest = inlined key a in if k == "" then values_of key (written g) ++ rest else rest

-- An attribute writes nothing under another key, unless it is inlined.
written-other :
    (key k : String) (v : AttrValue) (a : Attrs)
    → (k == key) ≡ false
    → (k == "") ≡ false
    → values_of key (written (attr k v a)) ≡ values_of key (written a)
unfolding written
written-other key k (plain s) a other named = rw other refl
written-other key k nil_value a other named = rw (named, other) refl
written-other key k (group g) a other named = elim (Bool-cases (is_empty (written g))) [
  | inl nothing ↦ rw (named, nothing) refl
  | inr something ↦ rw (named, something, other) refl
]

written-rest :
    (key k : String) (v : AttrValue) (a b : Attrs)
    → values_of key (written a) ≡ values_of key (written b)
    → values_of key (written (attr k v a)) ≡ values_of key (written (attr k v b))
unfolding written
written-rest key k (plain s) a b h = rw h refl
written-rest key k nil_value a b h = elim (Bool-cases (k == "")) [
  | inl zero ↦ rw zero h
  | inr named ↦ rw (named, h) refl
]
written-rest key k (group g) a b h = elim (Bool-cases (k == "")) [
  | inl inline ↦
      rw (inline, values_of-append key (written g) (written a))
        (rw (values_of-append key (written g) (written b))
          (ap (λ r. values_of key (written g) ++ r) h))
  | inr named ↦ elim (Bool-cases (is_empty (written g))) [
    | inl nothing ↦ rw (named, nothing) h
    | inr something ↦ rw (named, something, h) refl
  ]
]

inlined-named :
    (key k : String) (v : AttrValue) (a : Attrs)
    → (k == "") ≡ false
    → inlined key (attr k v a) ≡ inlined key a
unfolding inlined
inlined-named key k (plain s) a named = refl
inlined-named key k nil_value a named = refl
inlined-named key k (group g) a named = rw named refl

-- An attribute without a key.
inlined-step :
    (key k : String) (v : AttrValue) (a b : Attrs)
    → (k == key) ≡ false
    → (k == "") ≡ true
    → values_of key (written a) ≡ inlined key b
    → values_of key (written (attr k v a)) ≡ inlined key (attr k v b)
unfolding written inlined
inlined-step key k (plain s) a b other zero h = rw other h
inlined-step key k nil_value a b other zero h = rw zero h
inlined-step key k (group g) a b other zero h =
    rw zero
      (values_of-append key (written g) (written a) ∙ ap (λ r. values_of key (written g) ++ r) h)

written-delete_key_same :
    (key : String) (a : Attrs)
    → (key == "") ≡ false
    → values_of key (written (delete_key key a)) ≡ inlined key a
unfolding delete_key
written-delete_key_same key no_attrs h = unfold written inlined in refl
written-delete_key_same key (attr k v a) h =
    let rest = written-delete_key_same key a h in
    elim (Bool-cases (k == key)) [
      | inl same ↦
          let named : (k == "") ≡ false = ground (arith, eq_iff k key) in
          rw (same, delete_key) (rest ∙ sym (inlined-named key k v a named))
      | inr other ↦ elim (Bool-cases (k == "")) [
        | inl zero ↦
            rw (other, delete_key) (inlined-step key k v (delete_key key a) a other zero rest)
        | inr named ↦
            rw (other, delete_key)
              (written-other key k v (delete_key key a) other named
                ∙ rest
                ∙ sym (inlined-named key k v a named))
      ]
    ]

written-delete_key :
    (key away : String) (a : Attrs)
    → (away == "") ≡ false
    → (away == key) ≡ false
    → values_of key (written (delete_key away a)) ≡ values_of key (written a)
unfolding delete_key
written-delete_key key away no_attrs named h = refl
written-delete_key key away (attr k v a) named h =
    let rest = written-delete_key key away a named h in
    elim (Bool-cases (k == away)) [
      | inl same ↦
          let e = (eq_iff k away).0 same in
          rw (same, delete_key)
            (rest ∙ sym (written-other key k v a (rw (← e) at h) (rw (← e) at named)))
      | inr other ↦ rw (other, delete_key) (written-rest key k v (delete_key away a) a rest)
    ]

append_nil : (vs : List AttrValue) → vs ++ [] ≡ vs
append_nil [] = refl
append_nil (v ∷ vs) = ap (λ r. v ∷ r) (append_nil vs)

-- The record with an id, as it is written under a key.
handle-written :
    (goas : Chain) (id key : String) (attrs : Attrs)
    → (id == "") ≡ false
    → values_of key (written (handle goas id attrs))
      ≡ values_of key (written (delete_key correlation_id_attr (nest goas attrs)))
        ++ values_of key (written (attr correlation_id_attr (plain id) no_attrs))
unfolding handle
handle-written goas id key attrs given =
    let kept = delete_key correlation_id_attr (nest goas attrs) in
    let own = attr correlation_id_attr (plain id) no_attrs in
    rw (given, handle)
      (ap (values_of key) (written-append (omit_empty kept) own ∙ rw (written-omit_empty kept) refl)
        ∙ values_of-append key (written kept) (written own))

-- Where the context has a correlation id, the JSON handler writes it at the top level of every record,
-- as the last value under its key, whatever the caller's attributes and groups are. No other value is
-- written there under that key but those that the caller has put into a group with an empty key, which
-- log/slog inlines. Under every other key the top level is written as it would be without the id.
pub handle-correlation_id :
    (goas : Chain) (id key : String) (attrs : Attrs)
    → (id == "") ≡ false
    → (correlation_id_attr == key) ≡ false
    → (values_of correlation_id_attr (written (handle goas id attrs))
        ≡ inlined correlation_id_attr (nest goas attrs) ++ (plain id ∷ []))
      × (values_of key (written (handle goas id attrs)) ≡ values_of key (written (nest goas attrs)))
unfolding written
handle-correlation_id goas id key attrs given other =
    let nested = nest goas attrs in
    (
      handle-written goas id correlation_id_attr attrs given
          ∙ ap (λ r. r ++ (plain id ∷ []))
              (written-delete_key_same correlation_id_attr nested refl),
      handle-written goas id key attrs given
          ∙ rw other (append_nil (values_of key (written (delete_key correlation_id_attr nested))))
          ∙ written-delete_key key correlation_id_attr nested refl other,
    )
