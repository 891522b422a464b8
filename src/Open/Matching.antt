-- ===== src/Open/Matching.antt =====
-- matchingAudience finds the one audience that a thumbprint belongs to, and only such a one.
use chainbind_go.Prelude.{
  ℕ, ◌≤◌, ap, String, ◌==◌, eq_iff, ◌≡◌, refl, ◌∙◌, inl, inr, true, false, none, some, [], ◌∷◌, ◌+◌,
  arith, Bool-cases,
}
use chainbind_go.Prelude.Maps.{lookup, IsMap, contains-keys}
use chainbind_go.Errors.{ok, Result-cases}
use chainbind_go.Value.{Bytes}
use chainbind_go.Ports.{KeyWrapper}
use chainbind_go.Package.{KeyConfirmation, Cnf}
use chainbind_go.Open.{match_loop, single_match, matching_audience}

-- No entry has the thumbprint.
abbrev Without : String → Cnf → Type 0
Without jkt [] = Unit
Without jkt ((a, conf) ∷ cnf) = ((conf.jkt == jkt) ≡ false) × Without jkt cnf

match_loop-Without :
    (jkt name : String) (found : ℕ) (cnf : Cnf)
    → Without jkt cnf
    → match_loop jkt name found cnf ≡ (name, found)
unfolding match_loop
match_loop-Without jkt name found [] h = refl
match_loop-Without jkt name found ((a, conf) ∷ cnf) (other, h) =
    rw other (match_loop-Without jkt name found cnf h)

-- Every entry with the thumbprint is under the name.
abbrev pub OnlyAt : String → String → Cnf → Type 0
OnlyAt jkt name cnf =
    (k : String) (conf : KeyConfirmation)
    → lookup k cnf ≡ some conf
    → (conf.jkt == jkt) ≡ true
    → k ≡ name

OnlyAt-tail :
    (jkt name a : String) (conf : KeyConfirmation) (cnf : Cnf)
    → IsMap ((a, conf) ∷ cnf)
    → OnlyAt jkt name ((a, conf) ∷ cnf)
    → OnlyAt jkt name cnf
OnlyAt-tail jkt name a conf cnf (away, m) only k c found hit =
    only k c (ground (arith, contains-keys k cnf, eq_iff k a)) hit

Without-of_OnlyAt :
    (jkt name : String) (cnf : Cnf)
    → IsMap cnf
    → OnlyAt jkt name cnf
    → lookup name cnf ≡ none
    → Without jkt cnf
Without-of_OnlyAt jkt name [] m only gone = tt
Without-of_OnlyAt jkt name ((a, conf) ∷ cnf) (away, m) only gone = (
  ground (arith, only a conf, eq_iff a a, eq_iff name a),
  Without-of_OnlyAt jkt name cnf m (OnlyAt-tail jkt name a conf cnf (away, m) only)
      (ground (arith, eq_iff name a)),
)

match_loop-OnlyAt :
    (jkt init name : String) (cnf : Cnf) (conf : KeyConfirmation)
    → IsMap cnf
    → OnlyAt jkt name cnf
    → lookup name cnf ≡ some conf
    → (conf.jkt == jkt) ≡ true
    → match_loop jkt init 0 cnf ≡ (name, 1)
unfolding match_loop
match_loop-OnlyAt jkt init name [] conf m only found hit = absurd (cc)
match_loop-OnlyAt jkt init name ((a, c) ∷ cnf) conf (away, m) only found hit =
    let rest = OnlyAt-tail jkt name a c cnf (away, m) only in
    elim (Bool-cases (c.jkt == jkt)) [
      | inl here ↦
          let same : a ≡ name = only a c (ground (arith, eq_iff a a)) here in
          let gone : lookup name cnf ≡ none =
            ground (arith, contains-keys a cnf, contains-keys name cnf) in
          rw here (
            match_loop-Without jkt a (0 + 1) cnf (Without-of_OnlyAt jkt name cnf m rest gone)
            ∙ rw same refl)
      | inr other ↦
          rw other
            (match_loop-OnlyAt jkt init name cnf conf m rest (ground (arith, eq_iff name a)) hit)
    ]

-- The audience that a private key is matched to: one entry of cnf, and only one, has the thumbprint
-- of its public key.
pub matching_audience-OnlyAt :
    (cnf : Cnf) (w : KeyWrapper) (priv public : Bytes) (jkt name : String) (conf : KeyConfirmation)
    → IsMap cnf
    → w.public_key priv ≡ ok public
    → w.thumbprint public ≡ ok jkt
    → OnlyAt jkt name cnf
    → lookup name cnf ≡ some conf
    → conf.jkt ≡ jkt
    → matching_audience cnf w priv ≡ some name
unfolding matching_audience single_match
matching_audience-OnlyAt cnf w priv public jkt name conf m derived printed only found same =
    rw
      (
        derived,
        matching_audience,
        printed,
        match_loop-OnlyAt jkt "" name cnf conf m only found ((eq_iff conf.jkt jkt).1 same),
        single_match,
      )
      refl

-- The loop never counts down.
match_loop-count :
    (jkt name : String) (found : ℕ) (cnf : Cnf) → found ≤ (match_loop jkt name found cnf).1
unfolding match_loop
match_loop-count jkt name found [] = omega arith
match_loop-count jkt name found ((a, conf) ∷ cnf) = elim (Bool-cases (conf.jkt == jkt)) [
  | inl here ↦ rw here (let more = match_loop-count jkt a (found + 1) cnf in omega arith)
  | inr other ↦ rw other (match_loop-count jkt name found cnf)
]

-- A count that has not moved has met no entry with the thumbprint.
match_loop-unmoved :
    (jkt init name : String) (found : ℕ) (cnf : Cnf)
    → match_loop jkt init found cnf ≡ (name, found)
    → Without jkt cnf × (init ≡ name)
unfolding match_loop
match_loop-unmoved jkt init name found [] h = (tt, ap (λ x. x.0) h)
match_loop-unmoved jkt init name found ((a, conf) ∷ cnf) h = elim (Bool-cases (conf.jkt == jkt)) [
  | inl here ↦
      let moved : (match_loop jkt a (found + 1) cnf).1 ≡ found = ap (λ x. x.1) (rw here at h) in
      let more = match_loop-count jkt a (found + 1) cnf in absurd (omega arith)
  | inr other ↦
      let (rest, same) = match_loop-unmoved jkt init name found cnf (rw other at h) in
      ((other, rest), same)
]

Without-lookup :
    (jkt k : String) (conf : KeyConfirmation) (cnf : Cnf)
    → Without jkt cnf
    → lookup k cnf ≡ some conf
    → (conf.jkt == jkt) ≡ false
Without-lookup jkt k conf [] w found = absurd (cc)
Without-lookup jkt k conf ((a, c) ∷ cnf) (other, w) found =
    let rest = Without-lookup jkt k conf cnf w in ground (arith, rest)

-- The entry that is counted once, and that no other entry has the thumbprint.
abbrev Single : String → String → Cnf → Type 0
Single jkt name cnf =
    ((conf : KeyConfirmation) × (lookup name cnf ≡ some conf) × (conf.jkt ≡ jkt))
    × OnlyAt jkt name cnf

match_loop-Single :
    (jkt init name : String) (found : ℕ) (cnf : Cnf)
    → IsMap cnf
    → match_loop jkt init found cnf ≡ (name, found + 1)
    → Single jkt name cnf
unfolding match_loop
match_loop-Single jkt init name found [] m h =
    let moved : found ≡ found + 1 = ap (λ x. x.1) h in absurd (omega arith)
match_loop-Single jkt init name found ((a, c) ∷ cnf) (away, m) h =
    elim (Bool-cases (c.jkt == jkt)) [
      | inl here ↦
          let (rest, same) = match_loop-unmoved jkt a name (found + 1) cnf (rw here at h) in
          (
            (c, ground (arith, eq_iff name a), (eq_iff c.jkt jkt).0 here),
            λ k conf at_k hit.
                let gone = Without-lookup jkt k conf cnf rest in ground (arith, gone, eq_iff k a),
          )
      | inr other ↦
          let ((conf, at_name, jkts), only) =
            match_loop-Single jkt init name found cnf m (rw other at h) in
          (
            (conf, ground (arith, contains-keys name cnf, eq_iff name a), jkts),
            λ k x at_k hit. let tail = only k x in ground (arith, tail, eq_iff k a),
          )
    ]

single_match-eq-some : (x : String × ℕ) (name : String) → single_match x ≡ some name → x ≡ (name, 1)
unfolding single_match
single_match-eq-some (n, found) name h = ground arith

-- The audience whose entry of cnf, and no other entry, has the thumbprint of the private key.
pub record IsRecipient (w : KeyWrapper) (cnf : Cnf) (priv : Bytes) (name : String) : Type 0 where
  pub public : Bytes
  pub derived : w.public_key priv ≡ ok public
  pub jkt : String
  pub printed : w.thumbprint public ≡ ok jkt
  pub conf : KeyConfirmation
  pub found : lookup name cnf ≡ some conf
  pub same : conf.jkt ≡ jkt
  pub only : OnlyAt jkt name cnf

pub matching_audience-IsRecipient :
    (cnf : Cnf) (w : KeyWrapper) (priv : Bytes) (name : String)
    → IsMap cnf
    → matching_audience cnf w priv ≡ some name
    → IsRecipient w cnf priv name
unfolding matching_audience
matching_audience-IsRecipient cnf w priv name m h = elim (Result-cases (w.public_key priv)) [
  | inl (e, failed) ↦ absurd (let g = rw (matching_audience, failed) at h in cc)
  | inr (public, derived) ↦ elim (Result-cases (w.thumbprint public)) [
    | inl (e, failed) ↦ absurd (let g = rw (matching_audience, derived, failed) at h in cc)
    | inr (jkt, printed) ↦
        let matched =
          single_match-eq-some (match_loop jkt "" 0 cnf) name
            (rw (matching_audience, derived, printed) at h) in
        let ((conf, found, same), only) = match_loop-Single jkt "" name 0 cnf m matched in
        record {
          public = public;
          derived = derived;
          jkt = jkt;
          printed = printed;
          conf = conf;
          found = found;
          same = same;
          only = only;
        }
  ]
]
