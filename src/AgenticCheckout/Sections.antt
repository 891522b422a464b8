-- ===== src/AgenticCheckout/Sections.antt =====
-- What each audience's segment is made of.
use chainbind_go.Prelude.{String, ◌≡◌, refl, subst, contains, none, some, [], ◌∷◌, arith}
use chainbind_go.Prelude.Maps.{Map, lookup, is_some, IsMap, or_else}
use chainbind_go.Errors.{ok, bind-eq-ok, ok-injective}
use chainbind_go.Value.{Slice, contents}
use chainbind_go.Platform.{Platform}
use chainbind_go.AgenticCheckout.{
  Payload, Any, as_payload, subject_value, checkout_value, payment_value, segment_order, marshal,
  split, project,
}

-- The segments of a payload: one for each audience of segment_order and no other, each the text of
-- its own section, and the projection of the same payload.
pub record IsSplit (pf : Platform) (a : Any) (m : Map Slice) : Type 0 where
  pub body : Payload
  pub read : as_payload a ≡ ok body
  pub one_each : IsMap m
  pub exact : (k : String) → is_some (lookup k m) ≡ contains k segment_order
  pub user :
      marshal pf (subject_value body.subject) ≡ ok (contents (or_else (lookup "user" m) none))
  pub merchant :
      marshal pf (checkout_value body.checkout) ≡ ok (contents (or_else (lookup "merchant" m) none))
  pub gateway :
      marshal pf (payment_value body.payment) ≡ ok (contents (or_else (lookup "gateway" m) none))
  pub projection :
      project a
      ≡ ok (record {
        amount = body.payment.amount;
        currency = body.checkout.currency;
        merchant_id = body.checkout.merchant_id;
      })

-- Where Split succeeds, its map has exactly the three audiences, and each one's segment is the text
-- of its own section of the payload and of nothing else; Project succeeds on the same payload.
pub split-IsSplit : (pf : Platform) (a : Any) (m : Map Slice) → split pf a ≡ ok m → IsSplit pf a m
unfolding split project
split-IsSplit pf a m h =
    let (p, read, h₁) = bind-eq-ok (as_payload a) _ h in
    let (user, hu, h₂) = bind-eq-ok (marshal pf (subject_value p.subject)) _ h₁ in
    let (merchant, hm, h₃) = bind-eq-ok (marshal pf (checkout_value p.checkout)) _ h₂ in
    let (gateway, hg, h₄) = bind-eq-ok (marshal pf (payment_value p.payment)) _ h₃ in
    subst (IsSplit pf a)
      (ok-injective
        (("user", some user) ∷ ("merchant", some merchant) ∷ ("gateway", some gateway) ∷ []) m h₄)
      (record {
        body = p;
        read = read;
        one_each = (refl, (refl, (refl, tt)));
        exact = λ k. ground arith;
        user = hu;
        merchant = hm;
        gateway = hg;
        projection = rw read refl;
      })
