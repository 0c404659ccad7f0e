-- ===== src/Payments/Support.antt =====
-- The private helpers of `PaymentService`.
pub mod Frame
use gateway_orchestrator.Prelude.{
  ℕ, ◌-◌, String, Bool, true, false, not, Option, none, some, List, [], ◌∷◌, ◌==◌, if◌then◌else◌,
  coalesce, or_else,
}
use gateway_orchestrator.Prelude.Text.{template, truthy, is_empty, trim}
use gateway_orchestrator.Value.{
  Value, undefined, bool, str, obj, Fields, end, field, property, as_string, optional,
  optional_number,
}
use gateway_orchestrator.Effect.{
  Error, HttpRequestError, ProviderOperationError, http_request_error, provider_operation_error,
  plain_error, not_an_error, Action, pure, raise, gets, ◌>>=◌, ◌>>◌, new_provider_operation_error,
}
use gateway_orchestrator.Domain.Enums.{
  PaymentProviderName, provider_text, PaymentStatus, status_text, status_eq, PaymentOperationType,
  operation_text, operation_name,
}
use gateway_orchestrator.Domain.Payment.{Payment, ensure_transition}
use gateway_orchestrator.Domain.Provider.{PaymentProvider, PaymentResponse, ProviderEntry}
use gateway_orchestrator.Domain.Records.{
  Headers, HeaderValue, ProviderCredential, WebhookEvent, PaymentLog,
}
use gateway_orchestrator.Repositories.Payments
use gateway_orchestrator.Repositories.Configs
use gateway_orchestrator.Runtime.{Env, State, new_id, now, create_log, update_payment, assign}

module _ {W : Type 0} where
  unfoldable pub require_payment : String → Option Payment → Action (State W) Payment
  require_payment payment_id none =
      raise (plain_error (template ("Payment not found: " ∷ payment_id ∷ [])))
  require_payment payment_id (some payment) = pure payment

  unfoldable pub get_existing_payment : String → Action (State W) Payment
  unfolding require_payment
  get_existing_payment payment_id = do
    payment ← gets (λ s. Payments.find_by_id s.payments payment_id)
    require_payment payment_id payment

module _ {W : Type 0} (env : Env W) where
  unfoldable pub mark_payment_failed : Payment → Action (State W) (Unit {0})
  mark_payment_failed payment = do
    ensure_transition payment.status PaymentStatus.failed
    time ← now env
    update_payment (record payment { status = PaymentStatus.failed; updated_at = time })

  -- `entry(credential)` for a factory, the instance itself otherwise.
  unfoldable pub provider_of_entry :
      PaymentProviderName
      → Option (ProviderEntry W)
      → Option ProviderCredential
      → Action (State W) (PaymentProvider W)
  provider_of_entry name none credential =
      raise
        (plain_error (template ("Provider not configured in runtime: " ∷ provider_text name ∷ [])))
  provider_of_entry name (some (ProviderEntry.factory make)) credential = pure (make credential)
  provider_of_entry name (some (ProviderEntry.instance_of provider)) credential = pure provider

  unfoldable pub resolve_provider :
      PaymentProviderName → Option ProviderCredential → Action (State W) (PaymentProvider W)
  unfolding provider_of_entry
  resolve_provider name credential = provider_of_entry name (env.providers name) credential

  unfoldable pub get_default_mongo_merchant_identifier : Option String
  get_default_mongo_merchant_identifier =
      if env.mongo_enabled then some env.default_merchant_identifier else none

  -- `if (!merchantIdentifier) return null`, and the repository's `getCredential`.
  unfoldable pub credential_or_null :
      Option String → PaymentProviderName → Action (State W) (Option ProviderCredential)
  credential_or_null merchant_identifier provider =
      if truthy merchant_identifier
      then gets
          (λ s. Configs.get_credential s.credentials (coalesce merchant_identifier "") provider)
      else pure none

  unfoldable pub get_credential_for_payment : Payment → Action (State W) (Option ProviderCredential)
  unfolding credential_or_null get_default_mongo_merchant_identifier
  get_credential_for_payment payment =
      credential_or_null (or_else payment.merchant_identifier get_default_mongo_merchant_identifier)
        payment.provider

  unfoldable pub get_default_credential :
      PaymentProviderName → Action (State W) (Option ProviderCredential)
  unfolding credential_or_null get_default_mongo_merchant_identifier
  get_default_credential provider =
      credential_or_null get_default_mongo_merchant_identifier provider

  -- `paymentLogRepository.create({ id: randomUUID(), …, responseTimeMs: Date.now() - startedAt, … })`
  unfoldable pub write_log :
      String → PaymentProviderName → Value → Value → Headers → ℕ → Action (State W) (Unit {0})
  write_log payment_id provider request response headers started_at = do
    id ← new_id env
    finished_at ← now env
    time ← now env
    create_log (record {
      id = id;
      payment_id = payment_id;
      provider = provider_text provider;
      request = request;
      response = response;
      headers = headers;
      response_time_ms = finished_at - started_at;
      created_at = time;
    })

unfoldable pub is_retryable_provider_error : Error → Bool
is_retryable_provider_error (http_request_error e) = e.retryable
is_retryable_provider_error _ = false

abbrev details_value : Option Fields → Value
details_value none = undefined
details_value (some d) = obj d

unfoldable pub serialize_error : Error → Value
serialize_error (http_request_error e) = obj (
    field "name" (str "HttpRequestError") (
      field "message" (str e.message) (
        field "retryable" (bool e.retryable) (
          field "statusCode" (optional_number e.status_code)
            (field "responsePreview" (optional e.response_preview) end)))))
serialize_error (provider_operation_error e) = obj (
    field "name" (str "ProviderOperationError") (
      field "message" (str e.message)
        (field "code" (optional e.code) (field "details" (details_value e.details) end))))
serialize_error (plain_error message) =
    obj (field "name" (str "Error") (field "message" (str message) end))
serialize_error not_an_error = obj (field "message" (str "Unknown error") end)

pub record ProviderFailureMetadata : Type 0 where
  pub result_code : Option String
  pub result_message : Option String
  pub display_message : Option String
  pub point_of_failure : Option String

abbrev no_metadata : ProviderFailureMetadata
no_metadata = record {
  result_code = none;
  result_message = none;
  display_message = none;
  point_of_failure = none;
}

-- The part below `result`, where that is an object. An array has none of the named properties.
unfoldable pub metadata_of_result : Value → ProviderFailureMetadata
metadata_of_result (obj details) = record {
  result_code = as_string (property details "resultCode");
  result_message = as_string (property details "resultMessage");
  display_message = as_string (property details "displayMessage");
  point_of_failure = as_string (property details "pointOfFailure");
}
metadata_of_result _ = no_metadata

unfoldable pub extract_provider_failure_metadata : Value → ProviderFailureMetadata
unfolding metadata_of_result
extract_provider_failure_metadata (obj raw) = metadata_of_result (property raw "result")
extract_provider_failure_metadata _ = no_metadata

-- `a || b` on optional strings.
abbrev pub or_text : Option String → String → String
or_text a b = if truthy a then coalesce a b else b

unfoldable pub failure_message :
    PaymentProviderName → PaymentOperationType → ProviderFailureMetadata → String
failure_message provider operation failure = template (
    provider_text provider
    ∷ " "
    ∷ operation_name operation
    ∷ " failed: "
    ∷ or_text failure.result_message (or_text failure.display_message "Provider operation failed")
    ∷ (if truthy failure.result_code
        then template (" (resultCode=" ∷ coalesce failure.result_code "" ∷ ")" ∷ [])
        else "")
    ∷ [])

-- The error of `applyOperationResult` for a response with status `FAILED`.
unfoldable pub operation_failure :
    Payment → PaymentResponse → PaymentOperationType → ProviderOperationError
unfolding failure_message extract_provider_failure_metadata
operation_failure payment response operation =
    let failure = extract_provider_failure_metadata response.raw_response in
    new_provider_operation_error (failure_message payment.provider operation failure) none
      failure.result_code
      (field "provider" (str (provider_text payment.provider)) (
        field "operation" (str (operation_name operation)) (
          field "providerReference" (optional payment.provider_reference) (
            field "currentStatus" (str (status_text payment.status)) (
              field "resultMessage" (optional failure.result_message) (
                field "displayMessage" (optional failure.display_message)
                  (field "pointOfFailure" (optional failure.point_of_failure) end)))))))

-- A string header with something but white space in it, trimmed.
abbrev non_blank : String → Option String
non_blank s = let t = trim s in if is_empty t then none else some t

unfoldable pub first_non_blank : List String → Option String
first_non_blank [] = none
first_non_blank (s ∷ rest) = or_else (non_blank s) (first_non_blank rest)

-- `headers[key]`
unfoldable pub header : Headers → String → HeaderValue
header [] key = HeaderValue.missing
header ((k, v) ∷ rest) key = if k == key then v else header rest key

-- `getHeaderValue(headers, key)` for a key in lower case, which its callers pass.
unfoldable pub get_header_value : Headers → String → Option String
unfolding header first_non_blank
get_header_value headers key = elim (header headers key) [
  | HeaderValue.missing ↦ none
  | HeaderValue.one s ↦ non_blank s
  | HeaderValue.many values ↦ first_non_blank values
]

unfoldable pub create_webhook_dedupe_key :
    PaymentProviderName → Option WebhookEvent → String → String
create_webhook_dedupe_key name none payload_hash =
    template (provider_text name ∷ ":payloadHash:" ∷ payload_hash ∷ [])
create_webhook_dedupe_key name (some event) payload_hash =
    if truthy event.response_hash
    then template (provider_text name ∷ ":responseHash:" ∷ coalesce event.response_hash "" ∷ [])
    else if truthy event.provider_reference
    then template
        (provider_text name ∷ ":providerReference:" ∷ coalesce event.provider_reference "" ∷ [])
    else template (provider_text name ∷ ":payloadHash:" ∷ payload_hash ∷ [])
