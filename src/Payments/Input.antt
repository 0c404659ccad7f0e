-- ===== src/Payments/Input.antt =====
-- The inputs of `PaymentService`, what is hashed of them, and the values that are logged.
use gateway_orchestrator.Prelude.{ℕ, String, Option, none, some}
use gateway_orchestrator.Value.{
  Value, undefined, num, str, obj, Fields, end, field, optional, or_null,
}
use gateway_orchestrator.Domain.Enums.{
  PaymentProviderName, provider_text, PaymentStatus, status_text,
}
use gateway_orchestrator.Domain.Provider.{
  RedirectContext, PaymentRequest, PaymentResponse, LookupTransactionResult,
}
use gateway_orchestrator.Domain.Payment.{Payment}
use gateway_orchestrator.Domain.Records.{WebhookEvent}
use gateway_orchestrator.Runtime.{Env}

pub record CreatePaymentInput : Type 0 where
  pub provider : Option PaymentProviderName
  pub merchant_identifier : Option String
  pub amount : ℕ
  pub currency : String
  pub idempotency_key : String
  pub customer_reference : Option String
  pub payment_method : Option String
  pub transaction_type : Option String
  pub redirect_context : Option RedirectContext
  pub metadata : Value

pub record RefundPaymentInput : Type 0 where
  pub payment_id : String
  pub amount : ℕ
  pub currency : String

-- `'payment' | 'authorize'`
pub data Flow : Type 0 where
  payment authorize : Flow

unfoldable pub flow_text : Flow → String
flow_text Flow.payment = "payment"
flow_text Flow.authorize = "authorize"

-- `flow.toUpperCase()`
unfoldable pub flow_upper : Flow → String
flow_upper Flow.payment = "PAYMENT"
flow_upper Flow.authorize = "AUTHORIZE"

abbrev pub provider_value : Option PaymentProviderName → Value
provider_value none = undefined
provider_value (some p) = str (provider_text p)

abbrev pub redirect_value : Option RedirectContext → Value
redirect_value none = undefined
redirect_value (some r) = obj (
    field "returnUrl" (optional r.return_url) (
      field "cancelUrl" (optional r.cancel_url) (
        field "notificationUrl" (optional r.notification_url)
          (field "redirectChannel" (optional r.redirect_channel) end))))

-- `createHash('sha256').update(JSON.stringify(payload)).digest('hex')`
unfoldable pub hash_request : {W : Type 0} → Env W → Fields → String
hash_request env payload = env.sha256 (env.stringify (obj payload))

unfoldable pub hash_text : {W : Type 0} → Env W → String → String
hash_text env value = env.sha256 value

unfoldable pub hash_initial_request : {W : Type 0} → Env W → Flow → CreatePaymentInput → String
hash_initial_request env flow input = hash_request env (
    field "flow" (str (flow_text flow)) (
      field "merchantIdentifier" (or_null (optional input.merchant_identifier)) (
        field "provider" (or_null (provider_value input.provider)) (
          field "amount" (num input.amount) (
            field "currency" (str input.currency) (
              field "customerReference" (or_null (optional input.customer_reference)) (
                field "paymentMethod" (or_null (optional input.payment_method)) (
                  field "transactionType" (or_null (optional input.transaction_type)) (
                    field "redirectContext" (or_null (redirect_value input.redirect_context))
                      (field "metadata" (or_null input.metadata) end))))))))))

unfoldable pub request_payload : Payment → CreatePaymentInput → PaymentRequest
request_payload entity input = record {
  payment_id = entity.id;
  amount = input.amount;
  currency = input.currency;
  customer_reference = input.customer_reference;
  payment_method = input.payment_method;
  transaction_type = input.transaction_type;
  redirect_context = input.redirect_context;
  metadata = input.metadata;
}

-- `...input`
abbrev pub input_fields : CreatePaymentInput → Fields
input_fields input = field "provider" (provider_value input.provider) (
    field "merchantIdentifier" (optional input.merchant_identifier) (
      field "amount" (num input.amount) (
        field "currency" (str input.currency) (
          field "idempotencyKey" (str input.idempotency_key) (
            field "customerReference" (optional input.customer_reference) (
              field "paymentMethod" (optional input.payment_method) (
                field "transactionType" (optional input.transaction_type) (
                  field "redirectContext" (redirect_value input.redirect_context)
                    (field "metadata" input.metadata end)))))))))

-- A `PaymentResponse` as it is logged.
abbrev pub response_value : PaymentResponse → Value
response_value r = obj (
    field "provider" (str (provider_text r.provider)) (
      field "providerReference" (str r.provider_reference) (
        field "amount" (num r.amount) (
          field "currency" (str r.currency) (
            field "status" (str (status_text r.status)) (
              field "rawResponse" r.raw_response
                (field "redirectUrl" (optional r.redirect_url) end)))))))

-- A `LookupTransactionResult` as it is logged.
abbrev pub lookup_value : LookupTransactionResult → Value
lookup_value r = obj (
    field "providerReference" (optional r.provider_reference) (
      field "payuReference" (optional r.payu_reference) (
        field "merchantReference" (str r.merchant_reference) (
          field "transactionState" (str r.transaction_state) (
            field "transactionType" (str r.transaction_type) (
              field "status" (str (status_text r.status)) (
                field "amountInCents" (num r.amount_in_cents) (
                  field "currency" (str r.currency) (
                    field "resultCode" (str r.result_code) (
                      field "resultMessage" (str r.result_message)
                        (field "rawResponse" r.raw_response end)))))))))))

abbrev pub status_value : Option PaymentStatus → Value
status_value none = undefined
status_value (some s) = str (status_text s)

-- A `WebhookEvent` as it is logged.
abbrev pub event_value : WebhookEvent → Value
event_value e = obj (
    field "merchantReference" (optional e.merchant_reference) (
      field "providerReference" (optional e.provider_reference) (
        field "status" (status_value e.status) (
          field "responseHash" (optional e.response_hash) (field "rawPayload" e.raw_payload end)))))
