-- ===== src/Payments/Initial.antt =====
-- `executeInitialFlow`, behind `payment`, `authorizePayment` and `createPayment`: replay by
-- idempotency key, routing, and the loop over the candidates with failover.

pub mod Steps
pub mod Retry
pub mod Success
pub mod Refused
use gateway_orchestrator.Prelude.{
  ℕ, String, Bool, true, false, ◌&&◌, not, Option, none, some, List, [], ◌∷◌, ◌==◌, if◌then◌else◌,
  coalesce,
}
use gateway_orchestrator.Prelude.Text.{template, truthy}
use gateway_orchestrator.Value.{Value, str, obj, field, end, spread, optional, undefined}
use gateway_orchestrator.Effect.{
  Error, Outcome, Action, ◌>>=◌, ◌>>◌, pure, raise, gets, handling, plain_error, not_an_error,
  http_request_error, provider_operation_error, new_provider_operation_error,
}
use gateway_orchestrator.Domain.Enums.{PaymentProviderName, provider_text, PaymentStatus}
use gateway_orchestrator.Domain.Payment.{Payment, ensure_transition}
use gateway_orchestrator.Domain.Provider.{PaymentProvider, PaymentRequest, PaymentResponse}
use gateway_orchestrator.Domain.Records.{Headers, ProviderCredential}
use gateway_orchestrator.Repositories.Payments
use gateway_orchestrator.Routing.{ProviderCandidate, resolve_candidates}
use gateway_orchestrator.Runtime.{
  Env, State, new_id, now, outside, create_payment, update_payment, assign,
}
use gateway_orchestrator.Payments.Input.{
  CreatePaymentInput, Flow, flow_text, flow_upper, hash_initial_request, request_payload,
  input_fields, provider_value, response_value,
}
use gateway_orchestrator.Payments.Support.{
  mark_payment_failed, resolve_provider, get_default_credential, write_log,
  is_retryable_provider_error, serialize_error,
}

-- `throw new ProviderOperationError(…)` for a key that was used for another request.
unfoldable pub initial_conflict : Flow → CreatePaymentInput → Error
initial_conflict flow input = provider_operation_error (
    new_provider_operation_error
      (template (flow_upper flow ∷ " idempotency key was reused for a different request" ∷ []))
      (some 409) (some "IDEMPOTENCY_KEY_CONFLICT")
      (field "merchantIdentifier" (optional input.merchant_identifier) (
        field "provider" (provider_value input.provider) (
          field "flow" (str (flow_text flow))
            (field "idempotencyKey" (str input.idempotency_key) end)))))

-- `existing.initialRequestHash && existing.initialRequestHash !== initialRequestHash`
unfoldable pub is_other_request : Payment → String → Bool
is_other_request existing hash =
    truthy existing.initial_request_hash && not (coalesce existing.initial_request_hash "" == hash)

unfoldable pub new_payment : CreatePaymentInput → ProviderCandidate → String → String → Payment
new_payment input candidate hash id = record {
  id = id;
  merchant_identifier = input.merchant_identifier;
  provider = candidate.provider;
  amount = input.amount;
  currency = input.currency;
  status = PaymentStatus.created;
  provider_reference = none;
  checkout_url = none;
  idempotency_key = input.idempotency_key;
  initial_request_hash = some hash;
  created_at = 0;
  updated_at = 0;
}

-- `credential?.provider`
abbrev credential_provider : Option ProviderCredential → Value
credential_provider none = undefined
credential_provider (some c) = str (provider_text c.provider)

-- What is logged of an attempt.
unfoldable pub attempt_request :
    Flow → CreatePaymentInput → ProviderCandidate → Option ProviderCredential → Value
attempt_request flow input candidate credential = obj (
    spread (input_fields input) (
      field "flow" (str (flow_text flow)) (
        field "resolvedProvider" (str (provider_text candidate.provider)) (
          field "routingRuleId" (optional candidate.rule_id)
            (field "merchantCredentialProvider" (credential_provider credential) end)))))

-- The fields that a response sets, `updatedAt` apart.
unfoldable pub apply_response : Payment → PaymentResponse → Payment
apply_response payment response = record payment {
  status = response.status;
  provider_reference = some response.provider_reference;
  checkout_url = response.redirect_url;
}

-- `if (lastError instanceof Error) throw lastError; throw new Error(message)`
abbrev error_or : Error → String → Error
error_or not_an_error message = plain_error message
error_or (plain_error m) message = plain_error m
error_or (http_request_error e) message = http_request_error e
error_or (provider_operation_error e) message = provider_operation_error e

-- `index < candidates.length - 1`, of the candidates behind the one at `index`.
abbrev pub is_cons : List ProviderCandidate → Bool
is_cons [] = false
is_cons (x ∷ xs) = true

module _ {W : Type 0} (env : Env W) where
  -- `flow === 'payment' ? provider.payment(…) : provider.authorize(…)`
  unfoldable pub call_initial :
      Flow → PaymentProvider W → PaymentRequest → Action (State W) PaymentResponse
  call_initial Flow.payment provider request = outside (provider.payment request)
  call_initial Flow.authorize provider request = outside (provider.authorize request)

  -- The rest of the `try` block, after the provider's answer.
  unfoldable pub accept_response :
      Flow
      → CreatePaymentInput
      → Headers
      → ProviderCandidate
      → Option ProviderCredential
      → ℕ
      → Payment
      → PaymentResponse
      → Action (State W) Payment
  accept_response flow input headers candidate credential started_at payment response = do
    ensure_transition payment.status response.status
    time ← now env
    let updated = record (apply_response payment response) { updated_at = time }
    update_payment updated
    write_log env updated.id updated.provider (attempt_request flow input candidate credential)
        (response_value response) headers started_at
    pure updated

  -- `candidate.credential ?? (await this.getDefaultCredential(candidate.provider))`
  unfoldable pub candidate_credential :
      ProviderCandidate → Action (State W) (Option ProviderCredential)
  candidate_credential candidate = elim candidate.credential [
    | some c ↦ pure (some c)
    | none ↦ get_default_credential env candidate.provider
  ]

  -- The `catch` block, where `next` goes on with the candidates that are left.
  unfoldable pub attempt_failed :
      Flow
      → CreatePaymentInput
      → Headers
      → ProviderCandidate
      → Option ProviderCredential
      → ℕ
      → Payment
      → Bool
      → Action (State W) Payment
      → Error
      → Action (State W) Payment
  attempt_failed flow input headers candidate credential started_at payment has_next next error = do
    write_log env payment.id candidate.provider (attempt_request flow input candidate credential)
        (serialize_error error) headers started_at
    if has_next && is_retryable_provider_error error
        then next
        else do mark_payment_failed env payment; raise error

  -- The loop. `last_error` is the error of the attempt before; the throws behind the loop are
  -- reached with no candidate at all, which the caller excludes.
  unfoldable pub run_candidates :
      Flow
      → CreatePaymentInput
      → Headers
      → Error
      → Payment
      → List ProviderCandidate
      → Action (State W) Payment
  run_candidates flow input headers last_error payment [] = do
    mark_payment_failed env payment
    raise (error_or last_error (template ("Unable to " ∷ flow_text flow ∷ " payment" ∷ [])))
  run_candidates flow input headers last_error payment (candidate ∷ candidates) = do
    credential ← candidate_credential candidate
    provider ← resolve_provider env candidate.provider credential
    started_at ← now env
    let attempted = record payment { provider = candidate.provider }
    assign env payment.id attempted
    handling
        (do
          response ← call_initial flow provider (request_payload payment input)
          accept_response flow input headers candidate credential started_at attempted response)
        (λ error.
          attempt_failed flow input headers candidate credential started_at attempted
            (is_cons candidates) (run_candidates flow input headers error attempted candidates)
            error)

  -- `candidates[0].provider` on an empty list is a `TypeError`.
  unfoldable pub start_payment :
      Flow
      → CreatePaymentInput
      → Headers
      → String
      → List ProviderCandidate
      → Action (State W) Payment
  start_payment flow input headers hash [] =
      raise (plain_error "Cannot read properties of undefined (reading 'provider')")
  start_payment flow input headers hash (candidate ∷ candidates) = do
    id ← new_id env
    created_at ← now env
    updated_at ← now env
    let payment = record (new_payment input candidate hash id) {
      created_at = created_at;
      updated_at = updated_at;
    }
    create_payment payment
    run_candidates flow input headers not_an_error payment (candidate ∷ candidates)

  -- `if (existing) { … }`, and what follows.
  unfoldable pub replay_or_start :
      Flow → CreatePaymentInput → Headers → String → Option Payment → Action (State W) Payment
  replay_or_start flow input headers hash (some existing) =
      if is_other_request existing hash then raise (initial_conflict flow input) else pure existing
  replay_or_start flow input headers hash none = do
    candidates ← resolve_candidates (record {
      merchant_identifier = input.merchant_identifier;
      explicit_provider = input.provider;
      payment_method = input.payment_method;
      currency = input.currency;
    })
    start_payment flow input headers hash candidates

  unfoldable pub execute_initial_flow :
      Flow → CreatePaymentInput → Headers → Action (State W) Payment
  execute_initial_flow flow input headers = do
    let hash = hash_initial_request env flow input
    existing ← gets (λ s.
        Payments.find_by_idempotency_key s.payments input.idempotency_key input.merchant_identifier)
    replay_or_start flow input headers hash existing

  unfoldable pub payment : CreatePaymentInput → Headers → Action (State W) Payment
  payment input headers = execute_initial_flow Flow.payment input headers

  unfoldable pub authorize_payment : CreatePaymentInput → Headers → Action (State W) Payment
  authorize_payment input headers = execute_initial_flow Flow.authorize input headers

  unfoldable pub create_new_payment : CreatePaymentInput → Headers → Action (State W) Payment
  unfolding authorize_payment
  create_new_payment input headers = authorize_payment input headers
