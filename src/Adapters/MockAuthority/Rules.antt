-- ===== src/Adapters/MockAuthority/Rules.antt =====
-- The mock authority's decision: what it takes to be allowed, whatever the order of the rules.
use chainbind_go.Prelude.{
  String, Bool, true, false, ◌≡◌, ◌≢◌, ◌⊎◌, ◌||◌, inl, inr, refl, Option, none, some, List, [], ◌∷◌,
  Option-cases, Bool-cases, arith,
}
use chainbind_go.Prelude.Maps.{is_some}
use chainbind_go.Adapters.MockAuthority.{
  Floats, Any, null, bool, number, text, array, object, Rule, Library, satisfied, same_any,
  evaluate_equals, evaluate_bounds, beyond, evaluate,
}

module _ (fl : Floats) where
  -- A value equal to one of the allowed ones, before any comparison that panics.
  abbrev pub IsOneOf : Any fl.Float → List (Any fl.Float) → Type 0
  IsOneOf val [] = ⊥
  IsOneOf val (a ∷ rest) =
      (same_any fl a val ≡ some true) ⊎ ((same_any fl a val ≡ some false) × IsOneOf val rest)

  -- A number within the bounds that there are.
  pub record IsWithin (rule : Rule fl.Float) (val : Any fl.Float) : Type 0 where
    pub num : fl.Float
    pub is_number : val ≡ number num
    pub below : (m : fl.Float) → rule.max ≡ some m → fl.greater num m ≡ false
    pub above : (m : fl.Float) → rule.min ≡ some m → fl.less num m ≡ false

  -- What a rule asks of a value: to be one of the allowed values where it lists any; otherwise to be
  -- a number within its bounds, where it has any.
  abbrev pub Meets : Rule fl.Float → Any fl.Float → Type 0
  Meets rule val =
      ((rule.equals ≢ []) × IsOneOf val rule.equals)
      ⊎ (rule.equals ≡ []) × (((rule.max ≡ none) × (rule.min ≡ none)) ⊎ IsWithin rule val)

  evaluate_equals-IsOneOf :
      (reason : String) (val : Any fl.Float) (allowed : List (Any fl.Float))
      → evaluate_equals fl reason val allowed ≡ satisfied
      → IsOneOf val allowed
  unfolding evaluate_equals
  evaluate_equals-IsOneOf reason val [] h = absurd (cc)
  evaluate_equals-IsOneOf reason val (a ∷ rest) h = elim (Option-cases (same_any fl a val)) [
    | inl e ↦ absurd (let g = rw (e, evaluate_equals) at h in cc g)
    | inr (b, e) ↦ elim (Bool-cases b) [
      | inl hit ↦ inl (rw (e, hit) refl)
      | inr miss ↦ inr (
        rw (e, miss) refl,
        evaluate_equals-IsOneOf reason val rest (rw (e, evaluate_equals, miss) at h),
      )
    ]
  ]

  IsOneOf-evaluate_equals :
      (reason : String) (val : Any fl.Float) (allowed : List (Any fl.Float))
      → IsOneOf val allowed
      → evaluate_equals fl reason val allowed ≡ satisfied
  unfolding evaluate_equals
  IsOneOf-evaluate_equals reason val [] h = absurd h
  IsOneOf-evaluate_equals reason val (a ∷ rest) (inl e) = rw (e, evaluate_equals) refl
  IsOneOf-evaluate_equals reason val (a ∷ rest) (inr (e, h)) =
      rw (e, evaluate_equals) (IsOneOf-evaluate_equals reason val rest h)

  beyond-eq-false :
      (cmp : fl.Float → fl.Float → Bool) (num : fl.Float) (bound : Option fl.Float)
      → beyond fl cmp num bound ≡ false
      → (m : fl.Float) → bound ≡ some m
      → cmp num m ≡ false
  beyond-eq-false cmp num none h m e = absurd (cc)
  beyond-eq-false cmp num (some b) h m e = cc

  eq-false-beyond :
      (cmp : fl.Float → fl.Float → Bool) (num : fl.Float) (bound : Option fl.Float)
      → ((m : fl.Float) → bound ≡ some m → cmp num m ≡ false)
      → beyond fl cmp num bound ≡ false
  eq-false-beyond cmp num none h = refl
  eq-false-beyond cmp num (some b) h = h b refl

  evaluate_bounds-IsWithin :
      (lib : Library fl.Float) (rule : Rule fl.Float) (field : String) (val : Any fl.Float)
      → evaluate_bounds fl lib rule field val ≡ satisfied
      → IsWithin rule val
  unfolding evaluate_bounds
  evaluate_bounds-IsWithin lib rule field null h = absurd (cc h)
  evaluate_bounds-IsWithin lib rule field (bool b) h = absurd (cc h)
  evaluate_bounds-IsWithin lib rule field (text s) h = absurd (cc h)
  evaluate_bounds-IsWithin lib rule field (array b) h = absurd (cc h)
  evaluate_bounds-IsWithin lib rule field (object b) h = absurd (cc h)
  evaluate_bounds-IsWithin lib rule field (number num) h =
      let low : beyond fl fl.greater num rule.max ≡ false = ground arith in
      let high : beyond fl fl.less num rule.min ≡ false = ground arith in
      record {
        num = num;
        is_number = refl;
        below = beyond-eq-false fl.greater num rule.max low;
        above = beyond-eq-false fl.less num rule.min high;
      }

  IsWithin-evaluate_bounds :
      (lib : Library fl.Float) (rule : Rule fl.Float) (field : String) (val : Any fl.Float)
      → IsWithin rule val
      → evaluate_bounds fl lib rule field val ≡ satisfied
  unfolding evaluate_bounds
  IsWithin-evaluate_bounds lib rule field val w =
      rw
        (
          w.is_number,
          eq-false-beyond fl.greater w.num rule.max w.below,
          eq-false-beyond fl.less w.num rule.min w.above,
        )
        refl

  List-cases :
      (xs : List (Any fl.Float))
      → (xs ≡ []) ⊎ ((a : Any fl.Float) × (rest : List (Any fl.Float)) × (xs ≡ a ∷ rest))
  List-cases [] = inl refl
  List-cases (a ∷ rest) = inr (a, rest, refl)

  is_some-eq-false : (o : Option fl.Float) → is_some o ≡ false → o ≡ none
  is_some-eq-false none h = refl
  is_some-eq-false (some a) h = absurd (cc)

  pub evaluate-Meets :
      (lib : Library fl.Float) (rule : Rule fl.Float) (field : String) (val : Any fl.Float)
      → evaluate fl lib rule field val ≡ satisfied
      → Meets rule val
  unfolding evaluate evaluate_bounds
  evaluate-Meets lib rule field val h = elim (List-cases rule.equals) [
    | inr (a, rest, e) ↦
        inl ((λ empty. absurd (cc)), rw e (evaluate_equals-IsOneOf _ val (a ∷ rest) (rw e at h)))
    | inl e ↦ elim (Bool-cases (is_some rule.max || is_some rule.min)) [
      | inl bounded ↦
          inr (e, inr (evaluate_bounds-IsWithin lib rule field val (rw (e, bounded) at h)))
      | inr free ↦ inr (
        e,
        inl (is_some-eq-false rule.max (ground arith), is_some-eq-false rule.min (ground arith)),
      )
    ]
  ]

  pub Meets-evaluate :
      (lib : Library fl.Float) (rule : Rule fl.Float) (field : String) (val : Any fl.Float)
      → Meets rule val
      → evaluate fl lib rule field val ≡ satisfied
  unfolding evaluate evaluate_bounds
  Meets-evaluate lib rule field val (inl (listed, h)) = elim (List-cases rule.equals) [
    | inl e ↦ absurd (listed e)
    | inr (a, rest, e) ↦ rw (e) (IsOneOf-evaluate_equals _ val (a ∷ rest) (rw e at h))
  ]
  Meets-evaluate lib rule field val (inr (e, inl (no_max, no_min))) = rw (e, no_max, no_min) refl
  Meets-evaluate lib rule field val (inr (e, inr w)) =
      elim (Bool-cases (is_some rule.max || is_some rule.min)) [
        | inl bounded ↦ rw (e, bounded) (IsWithin-evaluate_bounds lib rule field val w)
        | inr free ↦ rw (e, free) refl
      ]
