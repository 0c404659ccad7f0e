-- ===== src/Providers/Peach/Checkout.antt =====
-- src/providers/peach/peach.checkout.ts.
use gateway_orchestrator.Prelude.{
  String, ◌==◌, Option, none, some, [], ◌∷◌, put, coalesce, if◌then◌else◌, get_field,
}
use gateway_orchestrator.Prelude.Text.{
  template, to_fixed, trim, is_empty, starts_with, slice_to, without_char,
}
use gateway_orchestrator.Value.{Value, Fields, end, field, obj, str, property, as_string}
use gateway_orchestrator.Effect.{Action, returned, ◌>>=◌, pure}
use gateway_orchestrator.Domain.Provider.{PaymentRequest}
use gateway_orchestrator.Providers.{Web, send, text_of}
use gateway_orchestrator.Providers.Peach.Forms.{Params, signed_form_body}
use gateway_orchestrator.Providers.Peach.Operations.{PeachEnv}

pub record PeachCheckoutResult : Type 0 where
  pub checkout_id : String
  pub redirect_url : String
  pub merchant_transaction_id : String

-- `paymentId.replace(/-/g, '').substring(0, 16)`
unfoldable pub generate_merchant_transaction_id : String → String
generate_merchant_transaction_id payment_id = slice_to 16 (without_char "-" payment_id)

-- A string that is not blank.
unfoldable pub filled : Value → Option String
filled (str s) = if is_empty (trim s) then none else some s
filled _ = none

abbrev put_optional : Params → String → Option String → Params
put_optional params key none = params
put_optional params key (some s) = put params key s

unfoldable pub set_if_string : Params → String → Value → Params
unfolding filled
set_if_string params key value = put_optional params key (filled value)

unfoldable pub string_or_default : Value → String → String
unfolding filled
string_or_default value default_value = coalesce (filled value) default_value

-- The parameters of `PAYSHAP`, `MOBICRED` and `RCSSTORECARDS`.
unfoldable pub apply_brand_specific_params : Params → String → Fields → Params
unfolding set_if_string string_or_default
apply_brand_specific_params params payment_brand metadata =
    if payment_brand == "PAYSHAP"
    then (let with_bank =
          set_if_string params "virtualAccount.bank" (property metadata "virtualAccount.bank") in
        let with_type =
          put with_bank "virtualAccount.type"
            (string_or_default (property metadata "virtualAccount.type") "CELLPHONE") in
        set_if_string with_type "virtualAccount.accountId"
          (property metadata "virtualAccount.accountId"))
    else if payment_brand == "MOBICRED"
    then (let with_account =
          set_if_string params "virtualAccount.accountId"
            (property metadata "virtualAccount.accountId") in
        set_if_string with_account "virtualAccount.password"
          (property metadata "virtualAccount.password"))
    else if payment_brand == "RCSSTORECARDS"
    then set_if_string params "card.number" (property metadata "card.number")
    else params

-- The entry's parameter, if it is a custom one.
unfoldable pub custom_parameter : String → Value → Option String
custom_parameter key value = if starts_with key "customParameters[" then as_string value else none

unfoldable pub apply_custom_parameters : Params → Fields → Params
unfolding custom_parameter
apply_custom_parameters params end = params
apply_custom_parameters params (field key value rest) =
    apply_custom_parameters (put_optional params key (custom_parameter key value)) rest

-- `if (request.metadata) { … }`
abbrev apply_metadata : Params → String → Value → Params
apply_metadata params payment_brand (obj metadata) =
    apply_custom_parameters (apply_brand_specific_params params payment_brand metadata) metadata
apply_metadata params payment_brand _ = params

-- `if (paymentBrand) { params.paymentBrand = paymentBrand }`
abbrev apply_brand : Params → String → Params
apply_brand params brand = if is_empty brand then params else put params "paymentBrand" brand

module _ (env : PeachEnv) where
  -- The brand is the empty text where there is none.
  unfoldable pub build_checkout_params : PaymentRequest → String → String → String → String → Params
  unfolding apply_brand_specific_params apply_custom_parameters
  build_checkout_params request payment_type merchant_transaction_id payment_brand nonce =
      let params =
        ("authentication.entityId", env.entity_id)
        ∷ ("amount", to_fixed request.amount)
        ∷ ("currency", request.currency)
        ∷ ("paymentType", payment_type)
        ∷ ("merchantTransactionId", merchant_transaction_id)
        ∷ ("nonce", nonce)
        ∷ (
          "shopperResultUrl",
          coalesce (get_field request.redirect_context (λ r. r.return_url))
              env.default_shopper_result_url,
        )
        ∷ (
          "notificationUrl",
          coalesce (get_field request.redirect_context (λ r. r.notification_url))
              env.default_notification_url,
        )
        ∷ [] in
      apply_metadata (apply_brand params payment_brand) payment_brand request.metadata

module _ {W : Type 0} (web : Web W) (env : PeachEnv) where
  -- `randomBytes(16).toString('hex')`
  unfoldable pub generate_nonce : Action W String
  generate_nonce w = let r = web.random_bytes w in (returned (r.0), r.1)

  unfoldable pub create_peach_checkout :
      PaymentRequest → String → Option String → Action W PeachCheckoutResult
  create_peach_checkout request payment_type payment_brand = do
    let merchant_transaction_id = generate_merchant_transaction_id request.payment_id
    nonce ← generate_nonce
    let params =
        build_checkout_params env request payment_type merchant_transaction_id
          (coalesce payment_brand "") nonce
    response ← send web (record {
      method = "POST";
      url = template (env.checkout_base_url ∷ "/checkout" ∷ []);
      headers = ("Content-Type", "application/x-www-form-urlencoded") ∷ [];
      request_data =
          str (signed_form_body web.encode_uri_component web.node.hmac params env.secret_token);
      response_type = none;
    })
    let checkout_id = coalesce (text_of response "id") merchant_transaction_id
    pure (record {
      checkout_id = checkout_id;
      redirect_url = template (
          env.checkout_base_url
          ∷ "/checkout?checkoutId="
          ∷ web.encode_uri_component checkout_id
          ∷ []);
      merchant_transaction_id = merchant_transaction_id;
    })
