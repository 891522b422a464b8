-- ===== src/AgenticCheckout.antt =====
-- pkg/chainbind/profile/agenticcheckout/profile.go: the profile that splits a checkout into the
-- segments of three audiences and adds three bindings. A nil slice is `none`; encoding/json writes
-- it as null. The int64 fields are only copied and encoded.
pub mod Sections
pub mod Bindings
use Prim.Native.String.{◌++◌ as ◌<>◌}
use chainbind_go.Prelude.Integers.{ℤ}
use chainbind_go.Prelude.{String, Option, none, some, List, [], ◌∷◌, map}
use chainbind_go.Prelude.Maps.{Map, lookup}
use chainbind_go.Errors.{Result, ok, err, Error, or_err, ◌>>=◌}
use chainbind_go.Value.{
  Bytes, Slice, Value, null, int_value, text, array, object, end, field, values, texts,
}
use chainbind_go.Platform.{Platform}
use chainbind_go.Canonical.{jcs, hash}
use chainbind_go.Bindings.{BindingContext, BindingSpec, intent_commitment}

abbrev pub profile_name : String
profile_name = "agentic-checkout/v1"

abbrev pub audience_user : String
audience_user = "user"

abbrev pub audience_merchant : String
audience_merchant = "merchant"

abbrev pub audience_gateway : String
audience_gateway = "gateway"

pub record RequestContext : Type 0 where
  pub tenant_id : String
  pub environment : String
  pub request_id : String
  pub correlation_id : String
  pub issued_by : String

pub record IntentPointer : Type 0 where
  pub intent_ref : String
  pub authority : String

pub record Subject : Type 0 where
  pub user_id : String
  pub account_id : String
  pub name : String
  pub email : String
  pub roles : Option (List String)
  pub permissions : Option (List String)
  pub account_status : String

pub record Item : Type 0 where
  pub sku : String
  pub name : String
  pub quantity : ℤ
  pub unit_price : ℤ

pub record Checkout : Type 0 where
  pub checkout_id : String
  pub merchant_id : String
  pub merchant_name : String
  pub currency : String
  pub items : Option (List Item)
  pub subtotal : ℤ
  pub shipping : ℤ
  pub discount : ℤ
  pub total : ℤ

pub record Payment : Type 0 where
  pub payment_id : String
  pub payment_method : String
  pub bank_account_masked : String
  pub bank_code : String
  pub payment_reference : String
  pub transaction_status : String
  pub amount : ℤ

pub record Payload : Type 0 where
  pub request_context : RequestContext
  pub intent : IntentPointer
  pub subject : Subject
  pub checkout : Checkout
  pub payment : Payment

pub record Projection : Type 0 where
  pub amount : ℤ
  pub currency : String
  pub merchant_id : String

-- The dynamic types that asPayload tells apart; a pointer may be nil.
pub data Any : Type 0 where
  payload : Payload → Any
  payload_pointer : Option Payload → Any
  foreign_type : Any

abbrev pub segment_order : List String
segment_order = audience_user ∷ audience_merchant ∷ audience_gateway ∷ []

unfoldable pub as_payload : Any → Result Payload
as_payload (payload p) = ok p
as_payload (payload_pointer none) = err Error.unsupported_payload
as_payload (payload_pointer (some p)) = ok p
as_payload foreign_type = err Error.unsupported_payload

-- What encoding/json sees, under the json tags.
abbrev pub slice_value {ℓ} : {A : Type ℓ} → (A → Value) → Option (List A) → Value
slice_value f none = null
slice_value f (some xs) = array (values (map f xs))

abbrev pub subject_value : Subject → Value
subject_value s = object (
    field "user_id" (text s.user_id) (
      field "account_id" (text s.account_id) (
        field "name" (text s.name) (
          field "email" (text s.email) (
            field "roles" (slice_value text s.roles) (
              field "permissions" (slice_value text s.permissions)
                (field "account_status" (text s.account_status) end)))))))

abbrev pub item_value : Item → Value
item_value i = object (
    field "sku" (text i.sku) (
      field "name" (text i.name) (
        field "quantity" (int_value i.quantity) (field "unit_price" (int_value i.unit_price) end))))

abbrev pub checkout_value : Checkout → Value
checkout_value c = object (
    field "checkout_id" (text c.checkout_id) (
      field "merchant_id" (text c.merchant_id) (
        field "merchant_name" (text c.merchant_name) (
          field "currency" (text c.currency) (
            field "items" (slice_value item_value c.items) (
              field "subtotal" (int_value c.subtotal) (
                field "shipping" (int_value c.shipping) (
                  field "discount" (int_value c.discount)
                    (field "total" (int_value c.total) end)))))))))

abbrev pub payment_value : Payment → Value
payment_value p = object (
    field "payment_id" (text p.payment_id) (
      field "payment_method" (text p.payment_method) (
        field "bank_account_masked" (text p.bank_account_masked) (
          field "bank_code" (text p.bank_code) (
            field "payment_reference" (text p.payment_reference) (
              field "transaction_status" (text p.transaction_status)
                (field "amount" (int_value p.amount) end)))))))

abbrev pub marshal : Platform → Value → Result Bytes
marshal pf v = or_err (Error.foreign "json") (pf.json_marshal v)

unfoldable pub split : Platform → Any → Result (Map Slice)
split pf a = do
  p ← as_payload a
  user ← marshal pf (subject_value p.subject)
  merchant ← marshal pf (checkout_value p.checkout)
  gateway ← marshal pf (payment_value p.payment)
  ok (
      (audience_user, some user)
      ∷ (audience_merchant, some merchant)
      ∷ (audience_gateway, some gateway)
      ∷ [])

unfoldable pub project : Any → Result Projection
project a = do
  p ← as_payload a
  ok (record {
    amount = p.payment.amount;
    currency = p.checkout.currency;
    merchant_id = p.checkout.merchant_id;
  })

-- transactionIDInput
abbrev pub transaction_id_input : String → String → Value
transaction_id_input checkout_hash gateway_plain_hash =
    object
      (texts (("checkout_hash", checkout_hash) ∷ ("gateway_plain_hash", gateway_plain_hash) ∷ []))

abbrev pub segment_hash : BindingContext → String → Result String
segment_hash c audience = or_err Error.missing_segment_hash (lookup audience c.plain_hash)

unfoldable pub compute_checkout_hash : BindingContext → Result String
compute_checkout_hash c = segment_hash c audience_merchant

unfoldable pub compute_transaction_id : Platform → BindingContext → Result String
compute_transaction_id pf c = do
  checkout_hash ← segment_hash c audience_merchant
  gateway_plain_hash ← segment_hash c audience_gateway
  canon ← jcs pf (transaction_id_input checkout_hash gateway_plain_hash)
  ok ("txn:" <> hash pf canon)

unfoldable pub compute_conditional_transaction_id : Platform → BindingContext → Result String
compute_conditional_transaction_id pf c =
    intent_commitment pf c.intent_ref c.constraints_hash c.segments_root

abbrev pub binding_specs : Platform → List BindingSpec
binding_specs pf =
    record { name = "checkout_hash"; compute = compute_checkout_hash }
    ∷ record { name = "transaction_id"; compute = compute_transaction_id pf }
    ∷ record {
      name = "conditional_transaction_id";
      compute = compute_conditional_transaction_id pf;
    }
    ∷ []

-- What encoding/json sees of a projection.
abbrev pub projection_value : Projection → Value
projection_value p = object (
    field "amount" (int_value p.amount)
      (field "currency" (text p.currency) (field "merchant_id" (text p.merchant_id) end)))
