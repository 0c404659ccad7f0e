-- ===== src/Payments/Stored.antt =====
-- `executeStoredOperation` and `applyOperationResult`, behind `capturePayment`, `refundPayment` and
-- `voidPayment`.
pub mod Later
pub mod Steps
pub mod Retry
pub mod Success
pub mod Status
pub mod Failure
use gateway_orchestrator.Prelude.{
  ℕ, String, Bool, true, false, ◌&&◌, not, Option, none, some, List, [], ◌∷◌, ◌==◌, if◌then◌else◌,
  coalesce,
}
use gateway_orchestrator.Prelude.Text.{template, truthy}
use gateway_orchestrator.Value.{
  Value, str, num, obj, Fields, field, end, spread, property, as_string, as_number,
}
use gateway_orchestrator.Effect.{
  Error, Outcome, Action, ◌>>=◌, ◌>>◌, pure, raise, gets, handling, plain_error, not_an_error,
  http_request_error, provider_operation_error, ProviderOperationError,
  new_provider_operation_error, message_or, unless,
}
use gateway_orchestrator.Domain.Enums.{
  PaymentProviderName, PaymentStatus, status_eq, PaymentOperationType, operation_text,
  operation_name, PaymentOperationState,
}
use gateway_orchestrator.Domain.Payment.{Payment, ensure_transition}
use gateway_orchestrator.Domain.Provider.{PaymentProvider, PaymentResponse, OperationRequest}
use gateway_orchestrator.Domain.Records.{Headers, PaymentOperation}
use gateway_orchestrator.Repositories.Operations
use gateway_orchestrator.Runtime.{
  Env, State, new_id, now, outside, update_payment, assign, create_operation, update_operation,
}
use gateway_orchestrator.Payments.Input.{RefundPaymentInput, hash_request, response_value}
use gateway_orchestrator.Payments.Support.{
  get_existing_payment, resolve_provider, get_credential_for_payment, write_log, serialize_error,
  operation_failure, get_header_value,
}

-- The argument of `executeStoredOperation`. `invokeProvider` calls the method named by `type` in all
-- three of its uses.
pub record StoredInput : Type 0 where
  pub payment_id : String
  pub type : PaymentOperationType
  pub headers : Headers
  pub request_payload : Fields
  pub build_provider_request : Payment → OperationRequest
  pub log_request : Payment → Value

unfoldable pub stored_hash : {W : Type 0} → Env W → StoredInput → String
stored_hash env input = hash_request env (
    field "paymentId" (str input.payment_id)
      (field "type" (str (operation_text input.type)) input.request_payload))

-- `explicitIdempotencyKey ?? requestHash`
unfoldable pub effective_key : {W : Type 0} → Env W → StoredInput → String
effective_key env input =
    coalesce (get_header_value input.headers "idempotency-key") (stored_hash env input)

unfoldable pub operation_details : Payment → PaymentOperationType → String → Fields
operation_details payment type key =
    field "paymentId" (str payment.id)
      (field "operation" (str (operation_text type)) (field "idempotencyKey" (str key) end))

unfoldable pub key_conflict : Payment → PaymentOperationType → String → Error
key_conflict payment type key = provider_operation_error (
    new_provider_operation_error
      (template (operation_text type ∷ " idempotency key was reused for a different request" ∷ []))
      (some 409) (some "IDEMPOTENCY_KEY_CONFLICT") (operation_details payment type key))

unfoldable pub previous_failure : Payment → PaymentOperationType → String → PaymentOperation → Error
previous_failure payment type key existing = provider_operation_error (
    new_provider_operation_error
      (coalesce existing.error_message (template (operation_text type ∷ " previously failed" ∷ [])))
      none existing.error_code (operation_details payment type key))

unfoldable pub in_progress : Payment → PaymentOperationType → String → Error
in_progress payment type key = provider_operation_error (
    new_provider_operation_error
      (template (operation_text type ∷ " is already in progress for payment " ∷ payment.id ∷ []))
      (some 409) (some "OPERATION_IN_PROGRESS") (operation_details payment type key))

unfoldable pub new_operation :
    Payment → StoredInput → String → String → String → ℕ → ℕ → PaymentOperation
new_operation payment input hash key id created_at updated_at = record {
  id = id;
  payment_id = payment.id;
  merchant_identifier = payment.merchant_identifier;
  provider = payment.provider;
  type = input.type;
  idempotency_key = key;
  request_hash = hash;
  amount = as_number (property input.request_payload "amount");
  currency = as_string (property input.request_payload "currency");
  state = PaymentOperationState.started;
  resulting_payment_status = none;
  provider_reference = payment.provider_reference;
  error_code = none;
  error_message = none;
  created_at = created_at;
  updated_at = updated_at;
}

-- `if (response.providerReference) { payment.providerReference = … }`
unfoldable pub take_reference : Payment → PaymentResponse → Payment
take_reference payment response =
    if truthy (some response.provider_reference)
    then record payment { provider_reference = some response.provider_reference }
    else payment

-- `error instanceof ProviderOperationError ? error.code : undefined`
abbrev pub code_of : Error → Option String
code_of (provider_operation_error e) = e.code
code_of (plain_error m) = none
code_of (http_request_error e) = none
code_of not_an_error = none

-- The operation after the `try` block has recorded a failure, and after the `catch` block has.
unfoldable pub failed_operation :
    PaymentOperation → Payment → ProviderOperationError → ℕ → PaymentOperation
failed_operation operation payment failure time = record operation {
  state = PaymentOperationState.failed;
  resulting_payment_status = some payment.status;
  provider_reference = payment.provider_reference;
  error_code = failure.code;
  error_message = some failure.message;
  updated_at = time;
}

unfoldable pub succeeded_operation : PaymentOperation → Payment → ℕ → PaymentOperation
succeeded_operation operation payment time = record operation {
  state = PaymentOperationState.succeeded;
  resulting_payment_status = some payment.status;
  provider_reference = payment.provider_reference;
  error_code = none;
  error_message = none;
  updated_at = time;
}

unfoldable pub errored_operation : PaymentOperation → Error → ℕ → PaymentOperation
errored_operation operation error time = record operation {
  state = PaymentOperationState.failed;
  error_code = code_of error;
  error_message =
      some (message_or error (template (operation_text operation.type ∷ " failed" ∷ [])));
  updated_at = time;
}

module _ {W : Type 0} (env : Env W) where
  unfoldable pub invoke_provider :
      PaymentOperationType → PaymentProvider W → OperationRequest → Action (State W) PaymentResponse
  invoke_provider PaymentOperationType.capture provider request = outside (provider.capture request)
  invoke_provider PaymentOperationType.refund provider request = outside (provider.refund request)
  invoke_provider PaymentOperationType.void provider request = outside (provider.void request)

  -- The log of the attempt.
  unfoldable pub log_attempt :
      StoredInput → Payment → Value → Value → ℕ → Action (State W) (Unit {0})
  log_attempt input payment request response started_at =
      write_log env payment.id payment.provider request response input.headers started_at

  -- The `catch` block, for an error that left the operation `STARTED`.
  unfoldable pub operation_errored :
      {A : Type 0}
      → StoredInput
      → PaymentOperation
      → Payment
      → Value
      → ℕ
      → Error
      → Action (State W) A
  operation_errored input operation payment request started_at error = do
    log_attempt input payment request (serialize_error error) started_at
    time ← now env
    update_operation (errored_operation operation error time)
    raise error

  -- The part of the `try` block behind `applyOperationResult` where that returned an error; the
  -- `catch` block neither logs nor stores such an error again.
  unfoldable pub operation_failed :
      StoredInput
      → PaymentOperation
      → Payment
      → Value
      → PaymentResponse
      → ℕ
      → Action (State W) Payment
  operation_failed input operation payment request response started_at = do
    let failure = operation_failure payment response input.type
    updated_at ← now env
    let stored = record payment { updated_at = updated_at }
    update_payment stored
    log_attempt input stored request (response_value response) started_at
    time ← now env
    update_operation (failed_operation operation stored failure time)
    raise (provider_operation_error failure)

  -- The same part where it returned `undefined`.
  unfoldable pub operation_succeeded :
      StoredInput
      → PaymentOperation
      → Payment
      → Value
      → PaymentResponse
      → ℕ
      → Action (State W) Payment
  operation_succeeded input operation payment request response started_at = do
    updated_at ← now env
    let stored = record payment { status = response.status; updated_at = updated_at }
    update_payment stored
    log_attempt input stored request (response_value response) started_at
    time ← now env
    update_operation (succeeded_operation operation stored time)
    pure stored

  -- `ensureTransition(payment.status, response.status)` and what follows it, with the `catch` block.
  unfoldable pub transition_or_error :
      StoredInput
      → PaymentOperation
      → Payment
      → Value
      → PaymentResponse
      → ℕ
      → Action (State W) Payment
  transition_or_error input operation payment request response started_at = do
    handling (ensure_transition payment.status response.status)
        (operation_errored input operation payment request started_at)
    operation_succeeded input operation payment request response started_at

  -- `applyOperationResult` and the rest of the `try` block, with the `catch` block.
  unfoldable pub apply_operation_result :
      StoredInput
      → PaymentOperation
      → Payment
      → Value
      → PaymentResponse
      → ℕ
      → Action (State W) Payment
  apply_operation_result input operation payment request response started_at = do
    let referenced = take_reference payment response
    assign env payment.id referenced
    if status_eq response.status PaymentStatus.failed
        then operation_failed input operation referenced request response started_at
        else transition_or_error input operation referenced request response started_at

  unfoldable pub run_operation :
      StoredInput → PaymentOperation → Payment → PaymentProvider W → Action (State W) Payment
  run_operation input operation payment provider = do
    started_at ← now env
    let request = input.log_request payment
    response ←
        handling (invoke_provider input.type provider (input.build_provider_request payment))
          (operation_errored input operation payment request started_at)
    apply_operation_result input operation payment request response started_at

  -- `if (existingOperation) { … }`
  unfoldable pub replay_operation :
      StoredInput → Payment → String → String → PaymentOperation → Action (State W) Payment
  replay_operation input payment hash key existing =
      if not (existing.request_hash == hash)
      then raise (key_conflict payment input.type key)
      else elim existing.state [
        | PaymentOperationState.failed ↦ raise (previous_failure payment input.type key existing)
        | PaymentOperationState.started ↦ raise (in_progress payment input.type key)
        | PaymentOperationState.succeeded ↦ pure payment
      ]

  -- From the lookup of the provider on; what is thrown before the `try` block is not caught.
  unfoldable pub perform_operation :
      StoredInput → PaymentOperation → Payment → Action (State W) Payment
  perform_operation input operation payment = do
    credential ← get_credential_for_payment env payment
    provider ← resolve_provider env payment.provider credential
    run_operation input operation payment provider

  unfoldable pub start_operation :
      StoredInput → Payment → String → String → Action (State W) Payment
  start_operation input payment hash key = do
    id ← new_id env
    created_at ← now env
    updated_at ← now env
    let operation = new_operation payment input hash key id created_at updated_at
    create_operation operation
    perform_operation input operation payment

  unfoldable pub replay_or_start_operation :
      StoredInput → Payment → Option PaymentOperation → Action (State W) Payment
  replay_or_start_operation input payment (some existing) =
      replay_operation input payment (stored_hash env input) (effective_key env input) existing
  replay_or_start_operation input payment none =
      start_operation input payment (stored_hash env input) (effective_key env input)

  -- `if (!payment.providerReference) { throw … }`
  unfoldable pub require_reference : PaymentOperationType → Payment → Action (State W) (Unit {0})
  require_reference type payment =
      unless (truthy payment.provider_reference)
        (plain_error (template ("Missing provider reference for " ∷ operation_name type ∷ [])))

  unfoldable pub execute_stored_operation : StoredInput → Action (State W) Payment
  execute_stored_operation input = do
    payment ← get_existing_payment input.payment_id
    require_reference input.type payment
    existing ← gets (λ s.
        Operations.find_by_idempotency_key s.operations payment.id input.type
          (effective_key env input))
    replay_or_start_operation input payment existing

-- `payment.providerReference!`
abbrev pub reference : Payment → String
reference payment = coalesce payment.provider_reference ""

unfoldable pub capture_input : String → Headers → StoredInput
capture_input payment_id headers = record {
  payment_id = payment_id;
  type = PaymentOperationType.capture;
  headers = headers;
  request_payload = end;
  build_provider_request = λ payment. record {
    transaction_id = reference payment;
    amount = payment.amount;
    currency = payment.currency;
    merchant_reference = some payment.id;
  };
  log_request =
      λ payment. obj (field "paymentId" (str payment.id) (field "operation" (str "capture") end));
}

unfoldable pub refund_input : RefundPaymentInput → Headers → StoredInput
refund_input input headers = record {
  payment_id = input.payment_id;
  type = PaymentOperationType.refund;
  headers = headers;
  request_payload = field "amount" (num input.amount) (field "currency" (str input.currency) end);
  build_provider_request = λ payment. record {
    transaction_id = reference payment;
    amount = input.amount;
    currency = input.currency;
    merchant_reference = some payment.id;
  };
  log_request = λ payment. obj (
      field "paymentId" (str payment.id) (
        field "operation" (str "refund")
          (field "amount" (num input.amount) (field "currency" (str input.currency) end))));
}

unfoldable pub void_input : String → Headers → StoredInput
void_input payment_id headers = record {
  payment_id = payment_id;
  type = PaymentOperationType.void;
  headers = headers;
  request_payload = end;
  build_provider_request = λ payment. record {
    transaction_id = reference payment;
    amount = payment.amount;
    currency = payment.currency;
    merchant_reference = some payment.id;
  };
  log_request =
      λ payment. obj (field "paymentId" (str payment.id) (field "operation" (str "void") end));
}

module _ {W : Type 0} (env : Env W) where
  unfoldable pub capture_payment : String → Headers → Action (State W) Payment
  capture_payment payment_id headers =
      execute_stored_operation env (capture_input payment_id headers)

  unfoldable pub refund_payment : RefundPaymentInput → Headers → Action (State W) Payment
  refund_payment input headers = execute_stored_operation env (refund_input input headers)

  unfoldable pub void_payment : String → Headers → Action (State W) Payment
  void_payment payment_id headers = execute_stored_operation env (void_input payment_id headers)
