-- ===== src/Tests/Authority.antt =====
-- A mock authority over whole numbers, seeded from one file.
use chainbind_go.Prelude.{
  ℕ, true, false, ◌==◌, ◌≡◌, ◌↔◌, refl, subst, if◌then◌else◌, none, some, List, [], ◌∷◌, ltb, eqb,
}
use chainbind_go.Prelude.Integers.{pos}
use chainbind_go.Prelude.Maps.{IsMap}
use chainbind_go.Errors.{ok, ok-injective}
use chainbind_go.Value.{null}
use chainbind_go.Ports.{Trace, IntentDecision}
use chainbind_go.Adapters.{Context, NeverDone}
use chainbind_go.Adapters.MockAuthority.{
  Floats, number, text, Constraints, SeedDoc, Library, DirEntry, Verifier, load_file, load_files,
  new, lookup_doc, record_use, check, port,
}
use chainbind_go.Adapters.MockAuthority.Decision.{Authorizes, check-Authorizes_iff}
use chainbind_go.Adapters.MockAuthority.History.{Reaches, start, next, used, port-IsImmutable}
use chainbind_go.Adapters.MockAuthority.Seeds.{IsSeeded, new-IsSeeded}
use chainbind_go.Seal.Verifies.{IsImmutable}
use chainbind_go.Tests.Toy.{blank}

abbrev pub whole : Floats
whole = record { Float = ℕ; equal = eqb; greater = λ a b. ltb b a; less = ltb }

abbrev budget : Constraints ℕ
budget = record {
  version = pos 1;
  rules =
      ("amount", record { equals = []; max = some 500; min = none })
      ∷ ("currency", record { equals = text "EUR" ∷ text "USD" ∷ []; max = none; min = none })
      ∷ [];
}

abbrev seed : SeedDoc ℕ
seed = record { ref = "intent-1"; constraints = budget }

abbrev pub files : Library ℕ
files = record {
  read_dir = λ dir.
      some (
        record { name = "notes"; is_dir = true } ∷ record { name = "a.json"; is_dir = false } ∷ []);
  ext = λ name. if name == "a.json" then ".json" else "";
  read_file = λ dir name. some [];
  decode_seed = λ raw. some seed;
  decode_fields = λ raw. some (("currency", text "EUR") ∷ ("amount", number 300) ∷ []);
  marshal_doc = λ doc. some [];
  quote = λ s. s;
  show = λ v. "v";
}

abbrev pub loaded : Verifier whole
loaded = ("intent-1", record { doc = budget; consumed = 0 }) ∷ []

loaded-new : new whole files "seeds" ≡ ok loaded
unfolding new load_files load_file
loaded-new = refl

new-IsSeeded_example :
    (entries : List DirEntry) × (files.read_dir "seeds" ≡ some entries)
    × IsSeeded whole files "seeds" entries loaded
new-IsSeeded_example = new-IsSeeded whole files "seeds" loaded loaded-new

abbrev pub background : Context
background t = none

pub background-NeverDone : NeverDone background
background-NeverDone t = refl

loaded-once : (doc : Constraints ℕ) → lookup_doc whole loaded "intent-1" ≡ ok doc → IsMap doc.rules
unfolding lookup_doc
loaded-once doc h = subst (λ d. IsMap d.rules) (ok-injective budget doc h) (refl, (refl, tt))

check-Authorizes_iff_example :
    ((d : IntentDecision) × (check whole blank files background loaded "intent-1" null [] ≡ ok d)
      × (d.allowed ≡ true))
    ↔ Authorizes whole blank files background loaded "intent-1" null []
check-Authorizes_iff_example =
    check-Authorizes_iff whole blank files background loaded "intent-1" null [] loaded-once

-- An authorization is used once at every call that has been made.
abbrev pub memory : Trace → Verifier whole
memory [] = loaded
memory (e ∷ t) = record_use whole (memory t) "intent-1"

pub memory-Reaches : (t : Trace) → Reaches whole loaded (memory t)
memory-Reaches [] = start
memory-Reaches (e ∷ t) = next (memory-Reaches t) (used "intent-1")

port-IsImmutable_example : IsImmutable (port whole blank files background memory)
port-IsImmutable_example =
    port-IsImmutable whole blank files background memory loaded background-NeverDone memory-Reaches
