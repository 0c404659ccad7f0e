-- ===== src/Providers/Peach/Operations.antt =====
-- src/providers/peach/peach.card-management.ts, peach.refund.ts, and the query of peach.status.ts.
use gateway_orchestrator.Prelude.{ℕ, String, none, some, [], ◌∷◌, coalesce, or_else}
use gateway_orchestrator.Prelude.Text.{template, to_fixed}
use gateway_orchestrator.Value.{Value, Items, no_items, item, arr, str, undefined}
use gateway_orchestrator.Effect.{Action, ◌>>=◌, pure}
use gateway_orchestrator.Domain.Enums.{PaymentStatus}
use gateway_orchestrator.Domain.Provider.{LookupTransactionResult}
use gateway_orchestrator.Providers.{Web, send, property_of, text_of}
use gateway_orchestrator.Providers.Peach.{map_peach_status_with_type}
use gateway_orchestrator.Providers.Peach.Forms.{generate_peach_signature}

-- `env.peach`
pub record PeachEnv : Type 0 where
  pub checkout_base_url : String
  pub entity_id : String
  pub secret_token : String
  pub webhook_secret : String
  pub card_api_base_url : String
  pub card_api_bearer_token : String
  pub card_api_entity_id : String
  pub payments_api_base_url : String
  pub payments_api_user_id : String
  pub payments_api_password : String
  pub payments_api_entity_id : String
  pub default_shopper_result_url : String
  pub default_notification_url : String

pub record PeachCardOperationInput : Type 0 where
  pub unique_transaction_id : String
  pub amount : ℕ
  pub currency : String

pub record PeachCardOperationResult : Type 0 where
  pub provider_reference : String
  pub status : PaymentStatus
  pub raw_response : Value

-- `response.result?.code ?? ''`
abbrev pub result_code_of : Value → String
result_code_of response = coalesce (text_of (property_of response "result") "code") ""

-- What both answers of an operation are read as.
unfoldable pub operation_result : String → String → Value → PeachCardOperationResult
operation_result unique_transaction_id payment_type response = record {
  provider_reference = coalesce (text_of response "id") unique_transaction_id;
  status = map_peach_status_with_type (result_code_of response) payment_type;
  raw_response = response;
}

-- `payments?.[payments.length - 1]`
abbrev last_item : Items → Value
last_item no_items = undefined
last_item (item v no_items) = v
last_item (item v (item w rest)) = last_item (item w rest)

abbrev last_of : Value → Value
last_of (arr items) = last_item items
last_of _ = undefined

module _ {W : Type 0} (web : Web W) (env : PeachEnv) where
  abbrev form_type : String × String
  form_type = ("Content-Type", "application/x-www-form-urlencoded")

  unfoldable pub execute_card_operation :
      PeachCardOperationInput → String → Action W PeachCardOperationResult
  unfolding operation_result
  execute_card_operation input payment_type = do
    response ← send web (record {
      method = "POST";
      url = template (
          env.card_api_base_url
          ∷ "/v1/payments/"
          ∷ web.encode_uri_component input.unique_transaction_id
          ∷ []);
      headers =
          form_type ∷ ("Authorization", template ("Bearer " ∷ env.card_api_bearer_token ∷ [])) ∷ [];
      request_data = str (
          web.url_search_params (
            ("paymentType", payment_type)
            ∷ ("amount", to_fixed input.amount)
            ∷ ("currency", input.currency)
            ∷ []));
      response_type = none;
    })
    pure (operation_result input.unique_transaction_id payment_type response)

  unfoldable pub capture_peach_payment : PeachCardOperationInput → Action W PeachCardOperationResult
  unfolding execute_card_operation
  capture_peach_payment input = execute_card_operation input "CP"

  unfoldable pub reverse_peach_payment : PeachCardOperationInput → Action W PeachCardOperationResult
  unfolding execute_card_operation
  reverse_peach_payment input = execute_card_operation input "RV"

  unfoldable pub process_peach_refund : PeachCardOperationInput → Action W PeachCardOperationResult
  unfolding operation_result
  process_peach_refund input = do
    response ← send web (record {
      method = "POST";
      url = template (
          env.payments_api_base_url
          ∷ "/payments/"
          ∷ web.encode_uri_component input.unique_transaction_id
          ∷ []);
      headers = form_type ∷ [];
      request_data = str (
          web.url_search_params (
            ("authentication.userId", env.payments_api_user_id)
            ∷ ("authentication.password", env.payments_api_password)
            ∷ ("authentication.entityId", env.payments_api_entity_id)
            ∷ ("paymentType", "RF")
            ∷ ("amount", to_fixed input.amount)
            ∷ ("currency", input.currency)
            ∷ []));
      response_type = none;
    })
    pure (operation_result input.unique_transaction_id "RF" response)

  -- What the answer to a query of the status is read as; a part of the last payment goes before its own.
  unfoldable pub status_result : String → Value → LookupTransactionResult
  status_result merchant_transaction_id response =
      let last_payment = last_of (property_of response "payments") in
      let last_result = property_of last_payment "result" in
      let result = property_of response "result" in
      let result_code =
        coalesce (or_else (text_of last_result "code") (text_of result "code")) "" in
      let payment_type =
        coalesce (or_else (text_of last_payment "paymentType") (text_of response "paymentType"))
          "DB" in
      record {
        payu_reference = none;
        provider_reference =
            some (coalesce (or_else (text_of last_payment "id") (text_of response "id")) "");
        merchant_reference = merchant_transaction_id;
        transaction_state = result_code;
        transaction_type = payment_type;
        status = map_peach_status_with_type result_code payment_type;
        amount_in_cents =
            web.cents
              (coalesce (or_else (text_of last_payment "amount") (text_of response "amount")) "0");
        currency =
            coalesce (or_else (text_of last_payment "currency") (text_of response "currency"))
              "ZAR";
        result_code = result_code;
        result_message =
            coalesce (or_else (text_of last_result "description") (text_of result "description"))
              "";
        raw_response = response;
      }

  unfoldable pub query_peach_transaction_status : String → Action W LookupTransactionResult
  unfolding status_result
  query_peach_transaction_status merchant_transaction_id = do
    let params =
        ("authentication.entityId", env.entity_id)
        ∷ ("merchantTransactionId", merchant_transaction_id)
        ∷ []
    let signature = generate_peach_signature web.node.hmac params env.secret_token
    let query_string = web.url_search_params (
        ("authentication.entityId", env.entity_id)
        ∷ ("merchantTransactionId", merchant_transaction_id)
        ∷ ("signature", signature)
        ∷ [])
    response ← send web (record {
      method = "GET";
      url = template (env.checkout_base_url ∷ "/status?" ∷ query_string ∷ []);
      headers = [];
      request_data = undefined;
      response_type = none;
    })
    pure (status_result merchant_transaction_id response)
