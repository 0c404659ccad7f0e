-- ===== src/Providers/Peach/Provider.antt =====
-- src/providers/peach/peach.provider.ts. An instance keeps a map from the identifiers that Peach is
-- sent to those of the payments, so its methods act on that map and the world. The registry makes a
-- new instance whenever a provider is resolved, and gives it no credential.
use gateway_orchestrator.Prelude.{
  String, Bool, false, ◌&&◌, ltb, Option, none, some, [], Map, put, coalesce, if◌then◌else◌,
}
use gateway_orchestrator.Prelude.Text.{truthy, is_empty, text_length}
use gateway_orchestrator.Value.{Value, end, field, spread_over, obj, str}
use gateway_orchestrator.Effect.{Action, ◌>>=◌, ◌>>◌, pure, modify}
use gateway_orchestrator.Domain.Enums.{PaymentProviderName, PaymentStatus, status_text, status_eq}
use gateway_orchestrator.Domain.Records.{WebhookEvent, ProviderCredential}
use gateway_orchestrator.Domain.Provider.{
  PaymentProvider, PaymentRequest, PaymentResponse, OperationRequest, LookupTransactionRequest,
  LookupTransactionResult,
}
use gateway_orchestrator.Providers.{
  Web, verify_signature, normalize_response, property_of, text_of, fields_of,
}
use gateway_orchestrator.Providers.Peach.Forms.{verify_peach_checkout_signature}
use gateway_orchestrator.Providers.Peach.Webhook.{parse_peach_webhook}
use gateway_orchestrator.Providers.Peach.Operations.{
  PeachEnv, PeachCardOperationInput, PeachCardOperationResult, capture_peach_payment,
  reverse_peach_payment, process_peach_refund, query_peach_transaction_status,
}
use gateway_orchestrator.Providers.Peach.Checkout.{
  create_peach_checkout, generate_merchant_transaction_id,
}
use gateway_orchestrator.Providers.Peach.Card.{
  PeachS2SPaymentResult, execute_peach_s2s_card_payment, get_peach_s2s_payment_status,
}
use gateway_orchestrator.Providers.Peach.CardInput.{
  has_s2s_card_details, is_card_brand, build_s2s_input,
}

-- The instance's map, and the world.
abbrev pub Instance : Type 0 → Type 0
Instance W = Map String × W

-- A call of something that acts on the world only.
unfoldable pub outside_instance : {W A : Type 0} → Action W A → Action (Instance W) A
outside_instance m (ids, w) = let r = m w in (r.0, (ids, r.1))

-- A method of a new instance, which is dropped after the call.
unfoldable pub on_new_instance : {W A : Type 0} → Action (Instance W) A → Action W A
on_new_instance m w = let r = m ([], w) in (r.0, r.1.1)

module _ {W : Type 0} (web : Web W) (env : PeachEnv) where
  -- `this.merchantTransactionIdMap.set(…)`
  unfoldable pub remember : String → String → Action (Instance W) (Unit {0})
  remember merchant_transaction_id payment_id =
      modify (λ i. (put (i.0) merchant_transaction_id payment_id, i.1))

  unfoldable pub execute_s2s_card_flow :
      PaymentRequest → String → String → Action (Instance W) PaymentResponse
  execute_s2s_card_flow request payment_type payment_brand = do
    let merchant_transaction_id = generate_merchant_transaction_id request.payment_id
    remember merchant_transaction_id request.payment_id
    result ← outside_instance (
        execute_peach_s2s_card_payment web env
          (build_s2s_input env request payment_type payment_brand merchant_transaction_id))
    let response =
        normalize_response PaymentProviderName.peach result.provider_reference request.amount
          request.currency result.status
          (obj (
            spread_over (fields_of result.raw_response) (
              field "merchantTransactionId" (str merchant_transaction_id) (
                field "paymentType" (str payment_type) (
                  field "flowType" (str "SERVER_TO_SERVER")
                    (field "endpoint" (str env.card_api_base_url) end))))))
    pure (
        if status_eq result.status PaymentStatus.pending_3ds && truthy result.redirect_url
        then record response { redirect_url = result.redirect_url }
        else response)

  -- The flow by a checkout page.
  unfoldable pub checkout_flow :
      PaymentRequest → String → Option String → Action (Instance W) PaymentResponse
  checkout_flow request payment_type payment_brand = do
    result ← outside_instance (create_peach_checkout web env request payment_type payment_brand)
    remember result.merchant_transaction_id request.payment_id
    let response =
        normalize_response PaymentProviderName.peach result.checkout_id request.amount
          request.currency PaymentStatus.pending
          (obj (
            field "checkoutId" (str result.checkout_id) (
              field "merchantTransactionId" (str result.merchant_transaction_id) (
                field "redirectUrl" (str result.redirect_url) (
                  field "paymentType" (str payment_type)
                    (field "endpoint" (str env.checkout_base_url) end))))))
    pure (record response { redirect_url = some result.redirect_url })

  -- `payment` with the type `DB`, and `authorize` with the type of its brand.
  unfoldable pub new_peach_payment : String → PaymentRequest → Action (Instance W) PaymentResponse
  new_peach_payment payment_type request =
      if is_card_brand request.payment_method && has_s2s_card_details request.metadata
      then execute_s2s_card_flow request payment_type (coalesce request.payment_method "")
      else checkout_flow request payment_type request.payment_method

  unfoldable pub authorize_peach_payment : PaymentRequest → Action (Instance W) PaymentResponse
  authorize_peach_payment request =
      new_peach_payment (if is_card_brand request.payment_method then "PA" else "DB") request

  -- `capture`, `refund` and `void`
  unfoldable pub peach_operation :
      (PeachCardOperationInput → Action W PeachCardOperationResult)
      → OperationRequest
      → Action (Instance W) PaymentResponse
  peach_operation call request = do
    result ← outside_instance (
        call (record {
          unique_transaction_id = request.transaction_id;
          amount = request.amount;
          currency = request.currency;
        }))
    pure (
        normalize_response PaymentProviderName.peach result.provider_reference request.amount
          request.currency result.status result.raw_response)

  -- A card payment's status, as a result of the query.
  unfoldable pub card_lookup_result :
      LookupTransactionRequest → PeachS2SPaymentResult → LookupTransactionResult
  card_lookup_result request s2s_result =
      let raw = s2s_result.raw_response in
      record {
        payu_reference = none;
        provider_reference = some s2s_result.provider_reference;
        merchant_reference =
            coalesce (text_of raw "merchantTransactionId") (coalesce request.merchant_reference "");
        transaction_state = status_text s2s_result.status;
        transaction_type = coalesce (text_of raw "paymentType") "";
        status = s2s_result.status;
        amount_in_cents = web.cents (coalesce (text_of raw "amount") "0");
        currency = coalesce (text_of raw "currency") "";
        result_code = coalesce (text_of (property_of raw "result") "code") "";
        result_message = coalesce (text_of (property_of raw "result") "description") "";
        raw_response = raw;
      }

  unfoldable pub lookup_peach_transaction :
      LookupTransactionRequest → Action (Instance W) LookupTransactionResult
  lookup_peach_transaction request =
      let reference = coalesce request.provider_reference "" in
      if ltb 16 (text_length reference)
      then (do
        s2s_result ← outside_instance (get_peach_s2s_payment_status web env reference)
        pure (card_lookup_result request s2s_result))
      else outside_instance (
          query_peach_transaction_status web env (
            if truthy request.merchant_reference
            then generate_merchant_transaction_id (coalesce request.merchant_reference "")
            else reference))

  -- A signature that throws is taken not to verify: the interface has no place for the error.
  unfoldable pub verify_peach_webhook : String → String → Bool
  verify_peach_webhook payload signature =
      if is_empty signature
      then coalesce
          (verify_peach_checkout_signature web.decode_uri_component web.node.hmac payload
            env.secret_token)
          false
      else verify_signature web.node.hmac env.webhook_secret payload signature

  unfoldable pub handle_peach_webhook : Value → Action (Instance W) (Option WebhookEvent)
  handle_peach_webhook payload i =
      (parse_peach_webhook web.decode_uri_component web.parse_json payload (i.0), i)

  -- What the registry resolves `PEACH` to.
  unfoldable pub peach_factory : Option ProviderCredential → PaymentProvider W
  peach_factory credential = record {
    payment = λ request. on_new_instance (new_peach_payment "DB" request);
    authorize = λ request. on_new_instance (authorize_peach_payment request);
    capture = λ request. on_new_instance (peach_operation (capture_peach_payment web env) request);
    refund = λ request. on_new_instance (peach_operation (process_peach_refund web env) request);
    void = λ request. on_new_instance (peach_operation (reverse_peach_payment web env) request);
    verify_webhook_signature = verify_peach_webhook;
    handle_webhook = λ payload. on_new_instance (handle_peach_webhook payload);
    lookup_transaction = some (λ request. on_new_instance (lookup_peach_transaction request));
  }
