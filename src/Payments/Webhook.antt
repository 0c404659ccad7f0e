-- ===== src/Payments/Webhook.antt =====
-- `handleWebhook` and `startWebhookRecord`.
pub mod Frame
pub mod Terms
pub mod Deliveries
pub mod Reconciled
use gateway_orchestrator.Prelude.{
  ℕ, String, Bool, true, false, Option, none, some, [], ◌∷◌, if◌then◌else◌, coalesce,
}
use gateway_orchestrator.Prelude.Text.{template, truthy}
use gateway_orchestrator.Value.{Value, undefined, str, obj, field, end, optional}
use gateway_orchestrator.Effect.{
  Action, ◌>>=◌, ◌>>◌, pure, raise, gets, handling, plain_error, message_or,
}
use gateway_orchestrator.Domain.Enums.{
  PaymentProviderName, provider_text, status_text, WebhookEventState,
}
use gateway_orchestrator.Domain.Payment.{Payment}
use gateway_orchestrator.Domain.Provider.{PaymentProvider}
use gateway_orchestrator.Domain.Records.{WebhookEvent, WebhookEventRecord, HeaderValue}
use gateway_orchestrator.Repositories.Payments
use gateway_orchestrator.Repositories.WebhookEvents
use gateway_orchestrator.Runtime.{
  Env, State, new_id, now, outside, update_payment, create_webhook_event, update_webhook_event,
}
use gateway_orchestrator.Payments.Input.{hash_text, event_value}
use gateway_orchestrator.Payments.Support.{resolve_provider, write_log, create_webhook_dedupe_key}

-- A delivery: the arguments of `handleWebhook`.
pub record Delivery : Type 0 where
  pub provider_name : PaymentProviderName
  pub raw_payload : String
  pub signature : String
  pub parsed_payload : Value

-- `event?.field`
abbrev pub of_event : {A : Type 0} → (WebhookEvent → Option A) → Option WebhookEvent → Option A
of_event f none = none
of_event f (some event) = f event

-- The record that `startWebhookRecord` creates.
unfoldable pub new_webhook_record :
    Delivery → String → String → Option WebhookEvent → String → ℕ → ℕ → WebhookEventRecord
new_webhook_record delivery dedupe_key payload_hash event id created_at updated_at = record {
  id = id;
  provider = delivery.provider_name;
  payment_id = none;
  merchant_reference = of_event (λ e. e.merchant_reference) event;
  provider_reference = of_event (λ e. e.provider_reference) event;
  response_hash = of_event (λ e. e.response_hash) event;
  payload_hash = payload_hash;
  dedupe_key = dedupe_key;
  signature = some delivery.signature;
  raw_payload = delivery.raw_payload;
  event = event;
  resulting_payment_status = none;
  state = WebhookEventState.started;
  error_message = none;
  created_at = created_at;
  updated_at = updated_at;
}

-- `{ ...existingRecord, … }`, for another try after a failure.
unfoldable pub restarted_record :
    Delivery → String → Option WebhookEvent → WebhookEventRecord → ℕ → WebhookEventRecord
restarted_record delivery payload_hash event existing time = record existing {
  merchant_reference = of_event (λ e. e.merchant_reference) event;
  provider_reference = of_event (λ e. e.provider_reference) event;
  response_hash = of_event (λ e. e.response_hash) event;
  payload_hash = payload_hash;
  signature = some delivery.signature;
  raw_payload = delivery.raw_payload;
  event = event;
  state = WebhookEventState.started;
  error_message = none;
  updated_at = time;
}

-- `typeof parsedPayload === 'undefined' ? rawPayload : parsedPayload`
abbrev pub provider_payload : Delivery → Value
provider_payload delivery = elim delivery.parsed_payload [
  | undefined ↦ str delivery.raw_payload
  | v ↦ v
]

-- The payment after the event: its reference, and its status, which is assigned also where
-- `ensureTransition` throws, since the inner `catch` assigns it too.
unfoldable pub apply_event : Payment → WebhookEvent → Payment
apply_event payment event =
    let referenced =
      if truthy event.provider_reference
      then record payment { provider_reference = event.provider_reference }
      else payment in
    elim event.status [ none ↦ referenced | some status ↦ record referenced { status = status } ]

-- `existingRecord.state === 'SUCCEEDED' || … === 'IGNORED' || … === 'STARTED'`
unfoldable pub is_settled : WebhookEventState → Bool
is_settled WebhookEventState.succeeded = true
is_settled WebhookEventState.ignored = true
is_settled WebhookEventState.started = true
is_settled WebhookEventState.failed = false

module _ {W : Type 0} (env : Env W) where
  unfoldable pub start_webhook_record :
      Delivery → String → String → Option WebhookEvent → Action (State W) WebhookEventRecord
  start_webhook_record delivery dedupe_key payload_hash event = do
    id ← new_id env
    created_at ← now env
    updated_at ← now env
    let r = new_webhook_record delivery dedupe_key payload_hash event id created_at updated_at
    create_webhook_event r
    pure r

  -- `webhookRecord.state = 'FAILED'; webhookRecord.errorMessage = …; …; update(webhookRecord)`
  unfoldable pub fail_record : WebhookEventRecord → String → Action (State W) (Unit {0})
  fail_record r message = do
    time ← now env
    update_webhook_event (record r {
      state = WebhookEventState.failed;
      error_message = some message;
      updated_at = time;
    })

  -- The branch for a signature that does not verify: the record is failed, the error thrown, and
  -- the outer `catch` fails the record once more before it throws the error on.
  unfoldable pub reject_delivery : Delivery → String → String → Action (State W) (Unit {0})
  reject_delivery delivery dedupe_key payload_hash = do
    r ← start_webhook_record delivery dedupe_key payload_hash none
    let message =
        template ("Invalid " ∷ provider_text delivery.provider_name ∷ " webhook signature" ∷ [])
    fail_record r message
    handling (raise (plain_error message))
        (λ error. fail_record r (message_or error "Webhook processing failed") >> raise error)

  -- From `paymentRepository.update(payment)` to the record's success.
  unfoldable pub reconcile :
      Delivery
      → String
      → ℕ
      → WebhookEventRecord
      → WebhookEvent
      → Payment
      → Action (State W) (Unit {0})
  reconcile delivery dedupe_key started_at r event payment = do
    updated_at ← now env
    let updated = record (apply_event payment event) { updated_at = updated_at }
    update_payment updated
    write_log env updated.id updated.provider
        (obj (
          field "paymentId" (str updated.id) (
            field "operation" (str "webhook") (
              field "dedupeKey" (str dedupe_key) (
                field "responseHash" (optional event.response_hash) (
                  field "merchantReference" (optional event.merchant_reference) (
                    field "providerReference" (optional event.provider_reference)
                      (field "rawPayload" (str delivery.raw_payload) end))))))))
        (obj (
          field "event" (event_value event) (
            field "previousStatus" (str (status_text payment.status)) (
              field "updatedStatus" (str (status_text updated.status)) (
                field "previousProviderReference" (optional payment.provider_reference)
                  (field "updatedProviderReference" (optional updated.provider_reference) end))))))
        (("x-signature", HeaderValue.one delivery.signature) ∷ []) started_at
    time ← now env
    update_webhook_event (record r {
      payment_id = some updated.id;
      resulting_payment_status = some updated.status;
      state = WebhookEventState.succeeded;
      updated_at = time;
    })

  unfoldable pub reconcile_or_fail :
      Delivery
      → String
      → ℕ
      → WebhookEventRecord
      → WebhookEvent
      → Option Payment
      → Action (State W) (Unit {0})
  reconcile_or_fail delivery dedupe_key started_at r event none =
      fail_record (record r { merchant_reference = event.merchant_reference })
        (template ("Payment not found: " ∷ coalesce event.merchant_reference "" ∷ []))
  reconcile_or_fail delivery dedupe_key started_at r event (some payment) =
      reconcile delivery dedupe_key started_at r event payment

  unfoldable pub find_and_reconcile :
      Delivery → String → ℕ → WebhookEventRecord → WebhookEvent → Action (State W) (Unit {0})
  find_and_reconcile delivery dedupe_key started_at r event = do
    payment ← gets (λ s. Payments.find_by_id s.payments (coalesce event.merchant_reference ""))
    reconcile_or_fail delivery dedupe_key started_at r event payment

  -- What follows once the record has been started.
  unfoldable pub process_event :
      Delivery → String → ℕ → WebhookEventRecord → Option WebhookEvent → Action (State W) (Unit {0})
  process_event delivery dedupe_key started_at r none = do
    time ← now env
    update_webhook_event (record r { state = WebhookEventState.ignored; updated_at = time })
  process_event delivery dedupe_key started_at r (some event) =
      if truthy event.merchant_reference
      then find_and_reconcile delivery dedupe_key started_at r event
      else fail_record r "Webhook missing merchant reference"

  unfoldable pub restart_and_process :
      Delivery
      → String
      → String
      → ℕ
      → Option WebhookEvent
      → WebhookEventRecord
      → Action (State W) (Unit {0})
  restart_and_process delivery dedupe_key payload_hash started_at event existing = do
    time ← now env
    let r = restarted_record delivery payload_hash event existing time
    update_webhook_event r
    process_event delivery dedupe_key started_at r event

  unfoldable pub dedupe_and_process :
      Delivery
      → String
      → String
      → ℕ
      → Option WebhookEvent
      → Option WebhookEventRecord
      → Action (State W) (Unit {0})
  dedupe_and_process delivery dedupe_key payload_hash started_at event none = do
    r ← start_webhook_record delivery dedupe_key payload_hash event
    process_event delivery dedupe_key started_at r event
  dedupe_and_process delivery dedupe_key payload_hash started_at event (some existing) =
      if is_settled existing.state
      then pure tt
      else restart_and_process delivery dedupe_key payload_hash started_at event existing

  -- The part behind the signature check. An error of the provider's own `handleWebhook` finds no
  -- record yet, and is thrown on.
  unfoldable pub accept_delivery :
      Delivery → String → ℕ → PaymentProvider W → Action (State W) (Unit {0})
  accept_delivery delivery payload_hash started_at provider = do
    event ← outside (provider.handle_webhook (provider_payload delivery))
    let dedupe_key = create_webhook_dedupe_key delivery.provider_name event payload_hash
    existing ← gets (λ s. WebhookEvents.find_by_dedupe_key s.webhook_events dedupe_key)
    dedupe_and_process delivery dedupe_key payload_hash started_at event existing

  unfoldable pub verify_and_accept :
      Delivery → String → ℕ → PaymentProvider W → Action (State W) (Unit {0})
  verify_and_accept delivery payload_hash started_at provider =
      if provider.verify_webhook_signature delivery.raw_payload delivery.signature
      then accept_delivery delivery payload_hash started_at provider
      else reject_delivery delivery
          (create_webhook_dedupe_key delivery.provider_name none payload_hash) payload_hash

  unfoldable pub handle_webhook : Delivery → Action (State W) (Unit {0})
  handle_webhook delivery = do
    started_at ← now env
    let payload_hash = hash_text env delivery.raw_payload
    provider ← resolve_provider env delivery.provider_name none
    verify_and_accept delivery payload_hash started_at provider
