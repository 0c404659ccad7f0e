-- ===== src/Payments/Lookup.antt =====
-- `getPayment`, `listTransactions`, `listTransactionLogs`, `listWebhookEvents` and
-- `lookupProviderStatus`.
use gateway_orchestrator.Prelude.{
  ℕ, String, Option, none, some, List, [], ◌∷◌, if◌then◌else◌, coalesce,
}
use gateway_orchestrator.Prelude.Text.{template, truthy}
use gateway_orchestrator.Value.{str, obj, field, end, optional}
use gateway_orchestrator.Effect.{Action, ◌>>=◌, ◌>>◌, pure, raise, gets, plain_error, unless}
use gateway_orchestrator.Domain.Enums.{PaymentProviderName, provider_text, status_eq}
use gateway_orchestrator.Domain.Payment.{Payment, ensure_transition}
use gateway_orchestrator.Domain.Provider.{LookupTransactionRequest, LookupTransactionResult}
use gateway_orchestrator.Domain.Records.{Headers, PaymentLog, WebhookEventRecord}
use gateway_orchestrator.Repositories.Payments
use gateway_orchestrator.Repositories.Logs
use gateway_orchestrator.Repositories.WebhookEvents
use gateway_orchestrator.Runtime.{Env, State, now, outside, update_payment, assign}
use gateway_orchestrator.Payments.Input.{lookup_value}
use gateway_orchestrator.Payments.Support.{
  get_existing_payment, resolve_provider, get_credential_for_payment, write_log,
}

module _ {W : Type 0} where
  unfoldable pub get_payment : String → Action (State W) (Option Payment)
  get_payment payment_id = gets (λ s. Payments.find_by_id s.payments payment_id)

  unfoldable pub list_transactions : Action (State W) (List Payment)
  list_transactions = gets (λ s. Payments.list_all s.payments)

  unfoldable pub list_transaction_logs : String → Action (State W) (List PaymentLog)
  list_transaction_logs payment_id = do
    payment ← get_existing_payment payment_id
    gets (λ s. Logs.list_by_payment_id s.logs payment_id)

  unfoldable pub list_webhook_events : String → Action (State W) (List WebhookEventRecord)
  list_webhook_events payment_id = do
    payment ← get_existing_payment payment_id
    gets (λ s. WebhookEvents.list_by_payment_id s.webhook_events payment_id)

-- `if (result.payuReference && payment.providerReference !== result.payuReference) { … }`; where the
-- two are equal the write changes nothing.
unfoldable pub take_payu_reference : Payment → LookupTransactionResult → Payment
take_payu_reference payment result =
    if truthy result.payu_reference
    then record payment { provider_reference = result.payu_reference }
    else payment

module _ {W : Type 0} (env : Env W) where
  -- `if (!provider.lookupTransaction) { throw … }`
  unfoldable pub require_lookup :
      PaymentProviderName
      → Option (LookupTransactionRequest → Action W LookupTransactionResult)
      → Action (State W) (LookupTransactionRequest → Action W LookupTransactionResult)
  require_lookup name none = raise (
      plain_error
        (template ("Provider " ∷ provider_text name ∷ " does not support transaction lookup" ∷ [])))
  require_lookup name (some lookup) = pure lookup

  -- `if (payment.status !== result.status) { ensureTransition(…) }`
  unfoldable pub check_status : Payment → LookupTransactionResult → Action (State W) (Unit {0})
  check_status payment result =
      if status_eq payment.status result.status
      then pure tt
      else ensure_transition payment.status result.status

  -- What follows the provider's answer.
  unfoldable pub apply_lookup :
      Payment → Headers → ℕ → LookupTransactionResult → Action (State W) LookupTransactionResult
  apply_lookup payment headers started_at result = do
    let referenced = take_payu_reference payment result
    assign env payment.id referenced
    check_status referenced result
    time ← now env
    let updated = record referenced { status = result.status; updated_at = time }
    update_payment updated
    write_log env updated.id updated.provider
        (obj (
          field "paymentId" (str updated.id) (
            field "operation" (str "provider-status-lookup")
              (field "providerReference" (optional updated.provider_reference) end))))
        (lookup_value result) headers started_at
    pure result

  unfoldable pub lookup_provider_status :
      String → Headers → Action (State W) LookupTransactionResult
  lookup_provider_status payment_id headers = do
    payment ← get_existing_payment payment_id
    unless (truthy payment.provider_reference)
        (plain_error (template ("No provider reference for payment: " ∷ payment_id ∷ [])))
    credential ← get_credential_for_payment env payment
    provider ← resolve_provider env payment.provider credential
    lookup ← require_lookup payment.provider provider.lookup_transaction
    started_at ← now env
    result ← outside (
        lookup (record {
          payu_reference = coalesce payment.provider_reference "";
          provider_reference = none;
          merchant_reference = some payment.id;
        }))
    apply_lookup payment headers started_at result
