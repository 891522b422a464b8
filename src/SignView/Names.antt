-- ===== src/SignView/Names.antt =====
-- checkSignedFields accepts exactly the permutations of the nine required names.
use chainbind_go.Prelude.{
  Bool-iff, String, ◌≡◌, refl, ◌↔◌, true, false, List, [], ◌∷◌, arith, length, contains, Distinct,
  All, All-contains, All-of_contains, sym, ◌∙◌,
}
use chainbind_go.Prelude.Seen.{Unseen, Unseen-nil, Unseen-cons, Unseen-tail}
use chainbind_go.Prelude.Counting.{contains_of_full, length-le_of_inside}
use chainbind_go.Errors.{ok}
use chainbind_go.SignView.{required_signed_fields, check_names, check_signed_fields}

-- Each of the required names once, and nothing else.
pub record NamesView (names : List String) : Type 0 where
  pub once : Distinct names
  pub exact : (n : String) → contains n names ≡ contains n required_signed_fields

abbrev Known : List String → Type 0
Known names = All (λ n. contains n required_signed_fields ≡ true) names

check_names_sound :
    (seen names : List String)
    → check_names seen names ≡ ok tt
    → Known names × Distinct names × Unseen seen names
unfolding check_names
check_names_sound seen [] h = (tt, tt, tt)
check_names_sound seen (n ∷ names) h =
    let known : contains n required_signed_fields ≡ true = ground arith in
    let unseen : contains n seen ≡ false = ground arith in
    let (ks, d, us) = check_names_sound (n ∷ seen) names (rw (known, unseen, check_names) at h) in
    let (rest, away) = Unseen-tail n seen names us in ((known, ks), (away, d), (unseen, rest))

check_names_complete :
    (seen names : List String)
    → Known names
    → Distinct names
    → Unseen seen names
    → check_names seen names ≡ ok tt
unfolding check_names
check_names_complete seen [] k d u = refl
check_names_complete seen (n ∷ names) (k, ks) (away, d) (u, us) =
    rw (k, u, check_names)
      (check_names_complete (n ∷ seen) names ks d (Unseen-cons n seen names away us))

Distinct-required : Distinct required_signed_fields
Distinct-required = (refl, (refl, (refl, (refl, (refl, (refl, (refl, (refl, (refl, tt)))))))))

NamesView-known :
    (names : List String) → length names ≡ 9 → Known names → Distinct names → NamesView names
NamesView-known names count known once = record {
  once = once;
  exact = λ n.
      Bool-iff (contains n names) (contains n required_signed_fields)
        (All-contains (λ a. contains a required_signed_fields ≡ true) n names known)
        (contains_of_full names required_signed_fields once
          (λ b. All-contains (λ a. contains a required_signed_fields ≡ true) b names known)
          (omega arith) n);
}

pub length-names : (names : List String) → NamesView names → length names ≡ 9
length-names names v =
    let above =
      length-le_of_inside names required_signed_fields v.once λ b h. sym (v.exact b) ∙ h in
    let below =
      length-le_of_inside required_signed_fields names Distinct-required λ b h. v.exact b ∙ h in
    omega arith

-- checkSignedFields succeeds exactly where signed_fields lists each of the nine required names once
-- and no other name.
pub check_signed_fields_iff :
    (names : List String) → (check_signed_fields names ≡ ok tt) ↔ NamesView names
unfolding check_signed_fields
check_signed_fields_iff names = (
  λ h.
      let (known, once, _) = check_names_sound [] names (ground arith) in
      NamesView-known names (ground arith) known once,
  λ v. rw (length-names names v) (
      check_names_complete [] names (All-of_contains _ names (λ a h. sym (v.exact a) ∙ h)) v.once
        (Unseen-nil names)),
)
