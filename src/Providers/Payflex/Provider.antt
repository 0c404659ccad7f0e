-- ===== src/Providers/Payflex/Provider.antt =====
-- src/providers/payflex/payflex.provider.ts: the operations. The registry makes a new instance for each call and
-- gives it no credential, so the configuration is that of the environment; `is_test` is
-- `env.nodeEnv === 'test'`.
use gateway_orchestrator.Prelude.{
  String, Bool, true, Option, none, some, [], ◌∷◌, coalesce, if◌then◌else◌,
}
use gateway_orchestrator.Prelude.Text.{template, is_empty}
use gateway_orchestrator.Value.{
  Value, obj, field, end, str, num, bool, undefined, as_string, as_number, spread_over, optional,
  optional_number,
}
use gateway_orchestrator.Effect.{Action, returned, ◌>>=◌, ◌>>◌, pure, raise, plain_error}
use gateway_orchestrator.Domain.Enums.{PaymentProviderName, PaymentStatus}
use gateway_orchestrator.Domain.Records.{WebhookEvent, ProviderCredential}
use gateway_orchestrator.Domain.Provider.{
  PaymentProvider, PaymentRequest, PaymentResponse, OperationRequest, LookupTransactionRequest,
  LookupTransactionResult,
}
use gateway_orchestrator.Providers.{
  Web, send, verify_signature, normalize_response, property_of, text_of, fields_of,
}
use gateway_orchestrator.Providers.Config.{PayFlexRuntimeConfig}
use gateway_orchestrator.Providers.Payflex.{
  PayFlexOrderResponse, to_payflex_lookup_result, to_payflex_webhook_event,
}
use gateway_orchestrator.Providers.Payflex.Auth.{WithTokens, in_world, get_payflex_access_token}
use gateway_orchestrator.Providers.Payflex.Metadata.{
  PayFlexEnv, assert_required_metadata_fields, create_order_payload, sanitize_empty_objects,
}

abbrev test_redirect_url : String
test_redirect_url = "https://checkout.payflex.co.za/checkout?token=test-token"

-- An answer of the gateway, as an order.
unfoldable pub order_of : Value → PayFlexOrderResponse
order_of value = record {
  order_id = coalesce (text_of value "orderId") "";
  order_status = text_of value "orderStatus";
  amount = as_number (property_of value "amount");
  merchant_reference = text_of value "merchantReference";
  redirect_url = text_of value "redirectUrl";
  raw = value;
}

-- The order that a webhook's payload, once parsed, tells of, if it has both references.
unfoldable pub order_of_webhook : Value → Option PayFlexOrderResponse
order_of_webhook parsed = elim (text_of parsed "orderId") [
  | none ↦ none
  | some order_id ↦ elim (text_of parsed "merchantReference") [
    | none ↦ none
    | some merchant_reference ↦ some (record {
      order_id = order_id;
      order_status = text_of parsed "orderStatus";
      amount = as_number (property_of parsed "amount");
      merchant_reference = some merchant_reference;
      redirect_url = none;
      raw = obj (
          spread_over (fields_of parsed) (
            field "orderStatus" (optional (text_of parsed "orderStatus"))
              (field "amount" (optional_number (as_number (property_of parsed "amount"))) end)));
    })
  ]
]

module _ {W : Type 0} (web : Web W) (config : PayFlexRuntimeConfig) (env : PayFlexEnv)
    (is_test : Bool) where
  abbrev answer : PaymentRequest → String → Value → Option String → PaymentResponse
  answer request reference raw redirect_url =
      record (normalize_response PaymentProviderName.payflex reference request.amount
        request.currency PaymentStatus.pending raw) { redirect_url = redirect_url }

  -- `randomUUID()`
  unfoldable pub random_uuid : Action (WithTokens W) String
  unfolding in_world
  random_uuid = in_world (λ w. let r = web.node.random_uuid w in (returned (r.0), r.1))

  abbrev authorized_headers : String → String × String
  authorized_headers access_token = ("Authorization", template ("Bearer " ∷ access_token ∷ []))

  -- The answer under test.
  unfoldable pub simulated_order : PaymentRequest → Action (WithTokens W) PaymentResponse
  unfolding normalize_response
  simulated_order request = do
    reference ← random_uuid
    pure (
        answer request reference
          (obj (field "simulated" (bool true) (field "redirectUrl" (str test_redirect_url) end)))
          (some test_redirect_url))

  unfoldable pub send_order : PaymentRequest → Action (WithTokens W) PaymentResponse
  unfolding normalize_response in_world
  send_order request = do
    access_token ← get_payflex_access_token web config
    response ← in_world (
        send web (record {
          method = "POST";
          url = template (config.base_url ∷ "/order" ∷ []);
          headers =
              ("Accept", "application/json")
              ∷ authorized_headers access_token
              ∷ ("Content-Type", "application/json")
              ∷ [];
          request_data = obj (sanitize_empty_objects (create_order_payload env request));
          response_type = some "json";
        }))
    let order = order_of response
    pure (answer request order.order_id order.raw order.redirect_url)

  -- `payment`, and `authorize`, which calls it.
  unfoldable pub payflex_payment : PaymentRequest → Action (WithTokens W) PaymentResponse
  unfolding simulated_order send_order
  payflex_payment request = do
    assert_required_metadata_fields request.metadata
    if is_test then simulated_order request else send_order request

  -- `request.providerReference ?? request.payuReference ?? ''`
  abbrev order_id_of : LookupTransactionRequest → String
  order_id_of request = coalesce request.provider_reference request.payu_reference

  unfoldable pub lookup_payflex_transaction :
      LookupTransactionRequest → Action (WithTokens W) LookupTransactionResult
  lookup_payflex_transaction request =
      let order_id = order_id_of request in
      let reference = coalesce request.merchant_reference order_id in
      if is_test
      then pure (
          to_payflex_lookup_result web.to_upper_case
            (record {
              order_id = order_id;
              order_status = some "Approved";
              amount = some 0;
              merchant_reference = some reference;
              redirect_url = none;
              raw = obj (
                  field "orderId" (str order_id) (
                    field "orderStatus" (str "Approved")
                      (field "amount" (num 0) (field "merchantReference" (str reference) end))));
            })
            reference "ZAR")
      else (do
        access_token ← get_payflex_access_token web config
        response ← in_world (
            send web (record {
              method = "GET";
              url = template (config.base_url ∷ "/order/" ∷ order_id ∷ []);
              headers = ("Accept", "application/json") ∷ authorized_headers access_token ∷ [];
              request_data = undefined;
              response_type = some "json";
            }))
        pure (to_payflex_lookup_result web.to_upper_case (order_of response) reference "ZAR"))

  -- `capture` and `void`
  unfoldable pub unsupported : String → OperationRequest → Action (WithTokens W) PaymentResponse
  unsupported operation request = raise (
      plain_error (
        template ("PAYFLEX " ∷ operation ∷ " is not supported by the documented integration" ∷ [])))

  abbrev refund_answer : OperationRequest → Value → PaymentResponse
  refund_answer request raw =
      normalize_response PaymentProviderName.payflex request.transaction_id request.amount
        request.currency PaymentStatus.refunded raw

  unfoldable pub refund_payflex : OperationRequest → Action (WithTokens W) PaymentResponse
  unfolding normalize_response
  refund_payflex request =
      let merchant_reference = coalesce request.merchant_reference request.transaction_id in
      if is_test
      then pure (
          refund_answer request (
            obj (
              field "simulated" (bool true) (
                field "refundId" (str (template ("refund_" ∷ request.transaction_id ∷ [])))
                  (field "merchantReference" (str merchant_reference) end)))))
      else (do
        access_token ← get_payflex_access_token web config
        request_id ← random_uuid
        refund ← in_world (
            send web (record {
              method = "POST";
              url =
                  template (config.base_url ∷ "/order/" ∷ request.transaction_id ∷ "/refund" ∷ []);
              headers =
                  ("Accept", "application/json")
                  ∷ authorized_headers access_token
                  ∷ ("Content-Type", "application/json")
                  ∷ [];
              request_data = obj (
                  field "amount" (num request.amount) (
                    field "currency" (str request.currency) (
                      field "merchantReference" (str merchant_reference) (
                        field "requestId" (str request_id)
                          (field "webhookUrl" (str env.default_refund_webhook_url) end)))));
              response_type = some "json";
            }))
        pure (refund_answer request refund))

  -- A delivery without a signature is let through.
  unfoldable pub verify_payflex_webhook : String → String → Bool
  unfolding verify_signature is_empty
  verify_payflex_webhook payload signature =
      if is_empty signature
      then true
      else verify_signature web.node.hmac config.webhook_secret payload signature

  -- `JSON.parse` may throw; a payload that is no text tells nothing.
  unfoldable pub handle_payflex_webhook : Value → Action (WithTokens W) (Option WebhookEvent)
  handle_payflex_webhook payload = elim (as_string payload) [
    | none ↦ pure none
    | some text ↦ elim (web.parse_json text) [
      | none ↦ raise (plain_error "Unexpected token in JSON")
      | some parsed ↦ elim (order_of_webhook parsed) [
        | none ↦ pure none
        | some order ↦ pure (to_payflex_webhook_event web.to_upper_case order)
      ]
    ]
  ]

  -- What the registry resolves `PAYFLEX` to.
  unfoldable pub payflex_factory : Option ProviderCredential → PaymentProvider (WithTokens W)
  unfolding payflex_payment lookup_payflex_transaction refund_payflex
  payflex_factory credential = record {
    payment = payflex_payment;
    authorize = payflex_payment;
    capture = unsupported "capture";
    refund = refund_payflex;
    void = unsupported "void";
    verify_webhook_signature = verify_payflex_webhook;
    handle_webhook = handle_payflex_webhook;
    lookup_transaction = some lookup_payflex_transaction;
  }
