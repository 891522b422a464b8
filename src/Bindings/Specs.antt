-- ===== src/Bindings/Specs.antt =====
-- ComputeBindings: every binding's value, under the binding's name.
use chainbind_go.Prelude.{
  String, eq_iff, ◌≡◌, false, none, some, List, [], ◌∷◌, arith, Distinct, All, contains,
}
use chainbind_go.Prelude.Maps.{Map, lookup, insert, IsMap, lookup-insert, insert-IsMap}
use chainbind_go.Errors.{ok, bind-eq-ok}
use chainbind_go.Bindings.{BindingContext, BindingSpec, compute_into, compute_bindings}

abbrev pub names : List BindingSpec → List String
names [] = []
names (s ∷ specs) = s.name ∷ names specs

-- `out` holds the value that the spec computes, under its name.
abbrev pub Holds : BindingContext → Map String → BindingSpec → Type 0
Holds c out s = (v : String) × (s.compute c ≡ ok v) × (lookup s.name out ≡ some v)

module _ (c : BindingContext) where
  lookup-compute_into :
      (k : String) (out : Map String) (specs : List BindingSpec) {r : Map String}
      → compute_into out c specs ≡ ok r
      → contains k (names specs) ≡ false
      → lookup k r ≡ lookup k out
  unfolding compute_into
  lookup-compute_into k out [] h away = ground arith
  lookup-compute_into k out (s ∷ specs) h away =
      let (v, computed, rest) = bind-eq-ok (s.compute c) _ h in
      ground (
        arith,
        lookup-compute_into k (insert s.name v out) specs rest,
        lookup-insert s.name k v out,
      )

  compute_into-IsMap :
      (out : Map String) (specs : List BindingSpec) {r : Map String}
      → compute_into out c specs ≡ ok r
      → IsMap out
      → IsMap r
  unfolding compute_into
  compute_into-IsMap out [] h m = ground arith
  compute_into-IsMap out (s ∷ specs) h m =
      let (v, computed, rest) = bind-eq-ok (s.compute c) _ h in
      compute_into-IsMap (insert s.name v out) specs rest (insert-IsMap s.name v out m)

  compute_into-Holds :
      (out : Map String) (specs : List BindingSpec) {r : Map String}
      → compute_into out c specs ≡ ok r
      → Distinct (names specs)
      → All (Holds c r) specs
  unfolding compute_into
  compute_into-Holds out [] h d = tt
  compute_into-Holds out (s ∷ specs) h (away, d) =
      let (v, computed, rest) = bind-eq-ok (s.compute c) _ h in
      (
        (
          v,
          computed,
          ground (
            arith,
            lookup-compute_into s.name (insert s.name v out) specs rest away,
            lookup-insert s.name s.name v out,
            eq_iff s.name s.name,
          ),
        ),
        compute_into-Holds (insert s.name v out) specs rest d,
      )

  -- Where ComputeBindings succeeds on specs with distinct names, its map holds for every spec the
  -- value that the spec computes, each name once, and no other name.
  pub compute_bindings-Holds :
      (specs : List BindingSpec) (r : Map String)
      → Distinct (names specs)
      → compute_bindings c specs ≡ ok r
      → IsMap r
        × All (Holds c r) specs
        × ((k : String) → contains k (names specs) ≡ false → lookup k r ≡ none)
  unfolding compute_bindings
  compute_bindings-Holds specs r d h = (
    compute_into-IsMap [] specs h tt,
    compute_into-Holds [] specs h d,
    λ k away. lookup-compute_into k [] specs h away,
  )
