-- ===== src/Examples/Changing.antt =====
-- Captures, refunds and voids of the authorized payment.
use gateway_orchestrator.Prelude.{◌≡◌, refl, some, none, [], get, put}
use gateway_orchestrator.Prelude.Text.{truthy, trim, is_empty}
use gateway_orchestrator.Domain.Enums.{
  PaymentStatus, PaymentOperationType, status_eq, operation_text,
}
use gateway_orchestrator.Domain.Payment.{
  Payment, allowed, state_transitions, includes, ensure_transition,
}
use gateway_orchestrator.Effect.{
  Error, returned, threw, ◌>>=◌, follow, pure, raise, gets, recover, handling, modify, unless,
}
use gateway_orchestrator.Repositories.Payments
use gateway_orchestrator.Repositories.Operations
use gateway_orchestrator.Runtime.{
  new_id, now, outside, assign, create_operation, create_log, update_operation, update_payment,
}
use gateway_orchestrator.Runtime.Keyed.{Keyed, put-IsKeyedStore}
use gateway_orchestrator.Runtime.Frame.{PaymentAt}
use gateway_orchestrator.Payments.Input.{hash_request}
use gateway_orchestrator.Payments.Support.{
  get_existing_payment, require_payment, write_log, get_credential_for_payment, credential_or_null,
  get_default_mongo_merchant_identifier, resolve_provider, provider_of_entry, get_header_value,
  header,
}
use gateway_orchestrator.Payments.Stored.{
  execute_stored_operation, require_reference, replay_or_start_operation, start_operation,
  perform_operation, run_operation, apply_operation_result, operation_failed, stored_hash,
  effective_key, new_operation, invoke_provider, take_reference, log_attempt, succeeded_operation,
  transition_or_error, operation_succeeded,
}
use gateway_orchestrator.Payments.Stored.Retry.{retry-same}
use gateway_orchestrator.Payments.Stored.Success.{retry-returns}
use gateway_orchestrator.Payments.Stored.Status.{throw-status}
use gateway_orchestrator.Payments.Stored.Failure.{retry-throws}
use gateway_orchestrator.Examples.{env, authorized_payment, authorized, stored_request}

retry-same_example :
    (execute_stored_operation env
      (stored_request PaymentOperationType.capture)
      (execute_stored_operation env (stored_request PaymentOperationType.capture) authorized).1).1
    ≡ (execute_stored_operation env (stored_request PaymentOperationType.capture) authorized).1
retry-same_example = retry-same env (stored_request PaymentOperationType.capture) authorized

authorized-Keyed : Keyed authorized
unfolding put get
authorized-Keyed = put-IsKeyedStore [] authorized_payment λ k p found. absurd (nothing found)
  where
    nothing : {p : Payment} → none ≡ some p → ⊥
    nothing h = cc

retry-throws_example :
    (e' : Error) × (execute_stored_operation env
        (stored_request PaymentOperationType.void)
        (execute_stored_operation env (stored_request PaymentOperationType.void) authorized).1
      ≡ (
        threw e',
        (execute_stored_operation env (stored_request PaymentOperationType.void) authorized).1,
      ))
unfolding execute_stored_operation get_existing_payment require_payment require_reference
    replay_or_start_operation start_operation perform_operation run_operation apply_operation_result
    operation_failed stored_hash effective_key new_operation invoke_provider take_reference
    log_attempt write_log get_credential_for_payment credential_or_null
    get_default_mongo_merchant_identifier resolve_provider provider_of_entry get_header_value header
    hash_request ◌>>=◌ follow pure raise gets recover handling modify unless new_id now outside
    assign create_operation create_log update_operation update_payment get put truthy is_empty trim
    status_eq operation_text Payments.find_by_id Payments.update Operations.find_by_idempotency_key
    Operations.operation_key Operations.create Operations.update
retry-throws_example = retry-throws env (stored_request PaymentOperationType.void) authorized _ refl

throw-status_example :
    PaymentAt "pay-0"
      (λ q. q.status ≡ authorized_payment.status)
      (execute_stored_operation env (stored_request PaymentOperationType.void) authorized).1
unfolding execute_stored_operation get_existing_payment require_payment require_reference
    replay_or_start_operation start_operation perform_operation run_operation apply_operation_result
    operation_failed stored_hash effective_key new_operation invoke_provider take_reference
    log_attempt write_log get_credential_for_payment credential_or_null
    get_default_mongo_merchant_identifier resolve_provider provider_of_entry get_header_value header
    hash_request ◌>>=◌ follow pure raise gets recover handling modify unless new_id now outside
    assign create_operation create_log update_operation update_payment get put truthy is_empty trim
    status_eq operation_text Payments.find_by_id Payments.update Operations.find_by_idempotency_key
    Operations.operation_key Operations.create Operations.update
throw-status_example =
    throw-status env (stored_request PaymentOperationType.void) authorized
      (λ p. authorized-Keyed "pay-0" p) _ refl "pay-0" authorized_payment refl

retry-returns_example :
    execute_stored_operation env
      (stored_request PaymentOperationType.capture)
      (execute_stored_operation env (stored_request PaymentOperationType.capture) authorized).1
    ≡ (
      returned (record authorized_payment { status = PaymentStatus.captured; updated_at = 3 }),
      (execute_stored_operation env (stored_request PaymentOperationType.capture) authorized).1,
    )
unfolding execute_stored_operation get_existing_payment require_payment require_reference
    replay_or_start_operation start_operation perform_operation run_operation apply_operation_result
    transition_or_error operation_succeeded stored_hash effective_key new_operation
    succeeded_operation allowed state_transitions includes ensure_transition invoke_provider
    take_reference log_attempt write_log get_credential_for_payment credential_or_null
    get_default_mongo_merchant_identifier resolve_provider provider_of_entry get_header_value header
    hash_request ◌>>=◌ follow pure raise gets recover handling modify unless new_id now outside
    assign create_operation create_log update_operation update_payment get put truthy is_empty trim
    status_eq operation_text Payments.find_by_id Payments.update Operations.find_by_idempotency_key
    Operations.operation_key Operations.create Operations.update
retry-returns_example =
    retry-returns env (stored_request PaymentOperationType.capture) authorized _
      (λ p. authorized-Keyed "pay-0" p) refl
