-- ===== src/Adapters/MockAuthority/Seeds.antt =====
-- What New loads from the seed files.
use chainbind_go.Prelude.{
  String, true, false, ◌==◌, ◌||◌, contains, Distinct, All, ◌≡◌, inl, inr, refl, ◌∙◌, none, some,
  List, [], ◌∷◌, Option-cases, Bool-cases, eq_iff, arith,
}
use chainbind_go.Prelude.Maps.{
  lookup, insert, IsMap, keys, lookup-insert, insert-IsMap, contains-keys-insert,
}
use chainbind_go.Errors.{ok, Error, or_err, or_err-eq-ok, ok-injective, bind-eq-ok}
use chainbind_go.Value.{Bytes}
use chainbind_go.Adapters.MockAuthority.{
  Floats, SeedDoc, Authorization, DirEntry, Library, Verifier, is_seed, load_file, load_files, new,
}

module _ (fl : Floats) (lib : Library fl.Float) (dir : String) where
  -- A document that a seed file declares.
  pub record Declares (entry : DirEntry) (doc : SeedDoc fl.Float) : Type 0 where
    pub seed : is_seed fl lib entry ≡ true
    pub raw : Bytes
    pub read : lib.read_file dir entry.name ≡ some raw
    pub decoded : lib.decode_seed raw ≡ some doc

  abbrev pub fresh : SeedDoc fl.Float → Authorization fl.Float
  fresh doc = record { doc = doc.constraints; consumed = 0 }

  -- One file adds one new reference, unused.
  record Adds (entry : DirEntry) (before after : Verifier fl) : Type 0 where
    doc : SeedDoc fl.Float
    raw : Bytes
    read : lib.read_file dir entry.name ≡ some raw
    decoded : lib.decode_seed raw ≡ some doc
    named : (doc.ref == "") ≡ false
    unseen : lookup doc.ref before ≡ none
    after_is : insert doc.ref (fresh doc) before ≡ after

  load_file-Adds :
      (entry : DirEntry) (before after : Verifier fl)
      → load_file fl lib dir entry before ≡ ok after
      → Adds entry before after
  unfolding load_file
  load_file-Adds entry before after h =
      let (raw, read, h1) =
        bind-eq-ok (or_err (Error.foreign "read seed file") (lib.read_file dir entry.name)) _ h in
      let (doc, decoded, h2) =
        bind-eq-ok (or_err (Error.foreign "parse seed file") (lib.decode_seed raw)) _ h1 in
      elim (Bool-cases (doc.ref == "")) [
        | inl empty ↦ absurd (let g = rw empty at h2 in cc)
        | inr named ↦ elim (Option-cases (lookup doc.ref before)) [
          | inr (a, dup) ↦ absurd (let g = rw (named, dup) at h2 in cc)
          | inl unseen ↦ record {
            doc = doc;
            raw = raw;
            read = or_err-eq-ok _ _ raw read;
            decoded = or_err-eq-ok _ _ doc decoded;
            named = named;
            unseen = unseen;
            after_is = ok-injective _ after (rw (named, unseen) at h2);
          }
        ]
      ]

  -- The documents that the seed files among the entries declare, one for each, in order.
  pub data Reads : List DirEntry → List (SeedDoc fl.Float) → Type 0 where
    done : Reads [] []
    skipped :
        {entry : DirEntry} {entries : List DirEntry} {docs : List (SeedDoc fl.Float)}
        → is_seed fl lib entry ≡ false
        → Reads entries docs
        → Reads (entry ∷ entries) docs
    seeded :
        {entry : DirEntry} {doc : SeedDoc fl.Float} {entries : List DirEntry}
        {docs : List (SeedDoc fl.Float)}
        → Declares entry doc
        → Reads entries docs
        → Reads (entry ∷ entries) (doc ∷ docs)

  abbrev pub refs : List (SeedDoc fl.Float) → List String
  refs [] = []
  refs (doc ∷ docs) = doc.ref ∷ refs docs

  abbrev stored : List (SeedDoc fl.Float) → Verifier fl → Verifier fl
  stored [] v = v
  stored (doc ∷ docs) v = stored docs (insert doc.ref (fresh doc) v)

  abbrev Fresh : Verifier fl → List (SeedDoc fl.Float) → Type 0
  Fresh v docs = All (λ doc. lookup doc.ref v ≡ none) docs

  Fresh-insert :
      (ref : String) (auth : Authorization fl.Float) (v : Verifier fl)
      (docs : List (SeedDoc fl.Float))
      → Fresh (insert ref auth v) docs
      → Fresh v docs × (contains ref (refs docs) ≡ false)
  Fresh-insert ref auth v [] h = (tt, refl)
  Fresh-insert ref auth v (doc ∷ docs) (h, hs) =
      let (rest, away) = Fresh-insert ref auth v docs hs in
      (
        (ground (arith, lookup-insert ref doc.ref auth v), rest),
        ground (arith, eq_iff ref doc.ref, eq_iff doc.ref ref, lookup-insert ref doc.ref auth v),
      )

  lookup-stored :
      (ref : String) (docs : List (SeedDoc fl.Float)) (v : Verifier fl)
      → contains ref (refs docs) ≡ false
      → lookup ref (stored docs v) ≡ lookup ref v
  lookup-stored ref [] v away = refl
  lookup-stored ref (doc ∷ docs) v away =
      lookup-stored ref docs (insert doc.ref (fresh doc) v) (ground arith)
      ∙ ground (arith, lookup-insert doc.ref ref (fresh doc) v)

  stored-served :
      (docs : List (SeedDoc fl.Float)) (v : Verifier fl)
      → Distinct (refs docs)
      → All (λ doc. lookup doc.ref (stored docs v) ≡ some (fresh doc)) docs
  stored-served [] v d = tt
  stored-served (doc ∷ docs) v (away, d) = (
    lookup-stored doc.ref docs (insert doc.ref (fresh doc) v) away
        ∙ ground (arith, lookup-insert doc.ref doc.ref (fresh doc) v, eq_iff doc.ref doc.ref),
    stored-served docs (insert doc.ref (fresh doc) v) d,
  )

  stored-keys :
      (ref : String) (docs : List (SeedDoc fl.Float)) (v : Verifier fl)
      → contains ref (keys (stored docs v)) ≡ (contains ref (refs docs) || contains ref (keys v))
  stored-keys ref [] v = refl
  stored-keys ref (doc ∷ docs) v = ground (
    arith,
    stored-keys ref docs (insert doc.ref (fresh doc) v),
    contains-keys-insert ref doc.ref (fresh doc) v,
  )

  stored-IsMap :
      (docs : List (SeedDoc fl.Float)) (v : Verifier fl) → IsMap v → IsMap (stored docs v)
  stored-IsMap [] v h = h
  stored-IsMap (doc ∷ docs) v h =
      stored-IsMap docs (insert doc.ref (fresh doc) v) (insert-IsMap doc.ref (fresh doc) v h)

  abbrev pub Named : SeedDoc fl.Float → Type 0
  Named doc = (doc.ref == "") ≡ false

  record Loads (entries : List DirEntry) (before after : Verifier fl) : Type 0 where
    docs : List (SeedDoc fl.Float)
    reads : Reads entries docs
    named : All Named docs
    distinct : Distinct (refs docs)
    new_refs : Fresh before docs
    result : stored docs before ≡ after

  load_files-Loads :
      (entries : List DirEntry) (before after : Verifier fl)
      → load_files fl lib dir entries before ≡ ok after
      → Loads entries before after
  unfolding load_files
  load_files-Loads [] before after h = record {
    docs = [];
    reads = done;
    named = tt;
    distinct = tt;
    new_refs = tt;
    result = ok-injective before after h;
  }
  load_files-Loads (entry ∷ entries) before after h = elim (Bool-cases (is_seed fl lib entry)) [
    | inr other ↦
        let l = load_files-Loads entries before after (rw (other, load_files) at h) in
        record {
          docs = l.docs;
          reads = skipped other l.reads;
          named = l.named;
          distinct = l.distinct;
          new_refs = l.new_refs;
          result = l.result;
        }
    | inl seed ↦
        let (mid, added, h1) =
          bind-eq-ok (load_file fl lib dir entry before) _ (rw (seed, load_files) at h) in
        let a = load_file-Adds entry before mid added in
        let l = load_files-Loads entries mid after h1 in
        let (rest, away) =
          Fresh-insert a.doc.ref (fresh a.doc) before l.docs (rw a.after_is l.new_refs) in
        record {
          docs = a.doc ∷ l.docs;
          reads =
              seeded (record { seed = seed; raw = a.raw; read = a.read; decoded = a.decoded })
                l.reads;
          named = (a.named, l.named);
          distinct = (away, l.distinct);
          new_refs = (a.unseen, rest);
          result = rw a.after_is l.result;
        }
  ]

  -- The memory after the seeds are loaded.
  pub record IsSeeded (entries : List DirEntry) (v : Verifier fl) : Type 0 where
    pub docs : List (SeedDoc fl.Float)
    pub reads : Reads entries docs
    pub named : All Named docs
    pub distinct : Distinct (refs docs)
    pub once : IsMap v
    pub served : All (λ doc. lookup doc.ref v ≡ some (fresh doc)) docs
    pub no_other : (ref : String) → contains ref (keys v) ≡ contains ref (refs docs)

  -- Where New succeeds, the directory could be read and every seed file in it declares a document,
  -- under a reference that is not empty and that no other file declares; the authority serves
  -- exactly these references, each with its document and unused.
  pub new-IsSeeded :
      (v : Verifier fl)
      → new fl lib dir ≡ ok v
      → (entries : List DirEntry) × (lib.read_dir dir ≡ some entries) × IsSeeded entries v
  unfolding new
  new-IsSeeded v h =
      let (entries, listed, h1) =
        bind-eq-ok (or_err (Error.foreign "read seed dir") (lib.read_dir dir)) _ h in
      let l = load_files-Loads entries [] v h1 in
      (
        entries,
        or_err-eq-ok _ _ entries listed,
        record {
          docs = l.docs;
          reads = l.reads;
          named = l.named;
          distinct = l.distinct;
          once = rw (← l.result) (stored-IsMap l.docs [] tt);
          served = rw (← l.result) (stored-served l.docs [] l.distinct);
          no_other = λ ref. rw (← l.result) (stored-keys ref l.docs [] ∙ ground arith);
        },
      )
