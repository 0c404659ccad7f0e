-- ===== src/Examples/Creating.antt =====
-- Payments that are created with the gateway.
use gateway_orchestrator.Prelude.{◌≡◌, refl, some, none, [], ◌∷◌, get, put, find_value}
use gateway_orchestrator.Prelude.Text.{truthy, is_empty}
use gateway_orchestrator.Effect.{
  not_an_error, returned, ◌>>=◌, follow, pure, raise, gets, recover, handling, modify, unless,
}
use gateway_orchestrator.Domain.Provider.{ProviderEntry}
use gateway_orchestrator.Domain.Enums.{PaymentStatus, PaymentProviderName, PaymentOperationType}
use gateway_orchestrator.Domain.Payment.{
  Payment, allowed, state_transitions, includes, ensure_transition, invalid_transition,
}
use gateway_orchestrator.Repositories.Payments
use gateway_orchestrator.Routing.{ProviderCandidate, resolve_candidates, without_merchant}
use gateway_orchestrator.Runtime.{
  new_id, now, outside, assign, create_payment, create_log, update_payment,
}
use gateway_orchestrator.Runtime.Frame.{PaymentAt}
use gateway_orchestrator.Payments.Input.{Flow, hash_request, hash_initial_request, request_payload}
use gateway_orchestrator.Payments.Support.{
  write_log, get_default_credential, credential_or_null, get_default_mongo_merchant_identifier,
  resolve_provider, provider_of_entry,
}
use gateway_orchestrator.Payments.Initial.{
  authorize_payment, execute_initial_flow, replay_or_start, start_payment, new_payment,
  run_candidates, candidate_credential, call_initial, accept_response, apply_response,
}
use gateway_orchestrator.Payments.Initial.Retry.{replay-same}
use gateway_orchestrator.Payments.Initial.Success.{Accepted, created-Accepted, replay-returns}
use gateway_orchestrator.Payments.Initial.Refused.{GivenUp, refused-GivenUp}
use gateway_orchestrator.Payments.Stored.{execute_stored_operation}
use gateway_orchestrator.Payments.Stored.Later.{Later}
use gateway_orchestrator.Payments.Webhook.{handle_webhook}
use gateway_orchestrator.Payments.Webhook.Terms.{SameTerms}
use gateway_orchestrator.Payments.Reachable.{Call, Reaches, reached-Later, reached-SameTerms}
use gateway_orchestrator.Http.{
  answer_create, create_like_flow, require_idempotency_key, payment_body, to_payment_response,
}
use gateway_orchestrator.Http.Replies.{answer_create-again}
use gateway_orchestrator.Examples.{
  gateway, env, payu_credential, empty, request, stored_request, delivery, authorized_payment,
}

replay-same_example :
    (execute_initial_flow env Flow.authorize request []
      (execute_initial_flow env Flow.authorize request [] empty).1).1
    ≡ (execute_initial_flow env Flow.authorize request [] empty).1
replay-same_example = replay-same env Flow.authorize request [] empty

-- The payment that the first request leaves.
abbrev first_payment : Payment
first_payment = record authorized_payment { updated_at = 3; created_at = 0 }

created-Accepted_example :
    Accepted "pay-0" first_payment (execute_initial_flow env Flow.authorize request [] empty).1
unfolding execute_initial_flow replay_or_start start_payment new_payment run_candidates
    candidate_credential call_initial accept_response apply_response resolve_candidates
    without_merchant hash_request hash_initial_request request_payload write_log
    get_default_credential credential_or_null get_default_mongo_merchant_identifier resolve_provider
    provider_of_entry ◌>>=◌ follow pure raise gets recover handling modify unless new_id now outside
    assign create_payment create_log update_payment get put find_value truthy is_empty allowed
    state_transitions includes ensure_transition Payments.create Payments.update
    Payments.find_by_idempotency_key Payments.has_key Payments.optional_eq
created-Accepted_example = created-Accepted env Flow.authorize request [] empty _ refl refl

replay-returns_example :
    execute_initial_flow env Flow.authorize request []
      (execute_initial_flow env Flow.authorize request [] empty).1
    ≡ (returned first_payment, (execute_initial_flow env Flow.authorize request [] empty).1)
unfolding execute_initial_flow replay_or_start start_payment new_payment run_candidates
    candidate_credential call_initial accept_response apply_response resolve_candidates
    without_merchant hash_request hash_initial_request request_payload write_log
    get_default_credential credential_or_null get_default_mongo_merchant_identifier resolve_provider
    provider_of_entry ◌>>=◌ follow pure raise gets recover handling modify unless new_id now outside
    assign create_payment create_log update_payment get put find_value truthy is_empty allowed
    state_transitions includes ensure_transition Payments.create Payments.update
    Payments.find_by_idempotency_key Payments.has_key Payments.optional_eq
replay-returns_example = replay-returns env Flow.authorize request [] empty _ refl

-- The state after the first request is reached from the empty one.
first_reached : Reaches env empty (execute_initial_flow env Flow.authorize request [] empty).1
first_reached = Reaches.call Reaches.here (Call.initial Flow.authorize request [])

reached-Later_example :
    PaymentAt "pay-0"
      (Later first_payment)
      (execute_stored_operation env
        (stored_request PaymentOperationType.capture)
        (execute_initial_flow env Flow.authorize request [] empty).1).1
unfolding execute_initial_flow replay_or_start start_payment new_payment run_candidates
    candidate_credential call_initial accept_response apply_response resolve_candidates
    without_merchant hash_request hash_initial_request request_payload write_log
    get_default_credential credential_or_null get_default_mongo_merchant_identifier resolve_provider
    provider_of_entry ◌>>=◌ follow pure raise gets recover handling modify unless new_id now outside
    assign create_payment create_log update_payment get put find_value truthy is_empty allowed
    state_transitions includes ensure_transition Payments.create Payments.update
    Payments.find_by_idempotency_key Payments.has_key Payments.optional_eq
reached-Later_example =
    reached-Later env refl first_reached (stored_request PaymentOperationType.capture) "pay-0"
      first_payment refl

reached-SameTerms_example :
    PaymentAt "pay-0"
      (SameTerms first_payment)
      (handle_webhook env
        (delivery "good")
        (execute_initial_flow env Flow.authorize request [] empty).1).1
unfolding execute_initial_flow replay_or_start start_payment new_payment run_candidates
    candidate_credential call_initial accept_response apply_response resolve_candidates
    without_merchant hash_request hash_initial_request request_payload write_log
    get_default_credential credential_or_null get_default_mongo_merchant_identifier resolve_provider
    provider_of_entry ◌>>=◌ follow pure raise gets recover handling modify unless new_id now outside
    assign create_payment create_log update_payment get put find_value truthy is_empty allowed
    state_transitions includes ensure_transition Payments.create Payments.update
    Payments.find_by_idempotency_key Payments.has_key Payments.optional_eq
reached-SameTerms_example =
    reached-SameTerms env refl first_reached (delivery "good") "pay-0" first_payment refl

-- A candidate of the routing, with its credential.
abbrev candidate : ProviderCandidate
candidate = record {
  provider = PaymentProviderName.payu;
  credential = some payu_credential;
  rule_id = none;
  priority = 0;
}

abbrev created_payment : Payment
created_payment = record authorized_payment {
  status = PaymentStatus.created;
  provider_reference = none;
}

refused-GivenUp_example :
    GivenUp env Flow.payment request [] "pay-0"
      (invalid_transition PaymentStatus.created PaymentStatus.captured)
      1
      (run_candidates env Flow.payment request [] not_an_error created_payment
        (candidate ∷ [])
        empty)
unfolding allowed state_transitions includes request_payload candidate_credential pure
refused-GivenUp_example =
    refused-GivenUp env Flow.payment request [] not_an_error created_payment candidate [] empty
      (some payu_credential) (ProviderEntry.factory (λ credential. gateway)) _ _ refl refl refl refl
      refl

answer_create-again_example :
    answer_create env Flow.authorize request
      (some "key-1")
      []
      (answer_create env Flow.authorize request (some "key-1") [] empty).1
    ≡ (
      returned (record { status = 201; body = payment_body (to_payment_response first_payment) }),
      (answer_create env Flow.authorize request (some "key-1") [] empty).1,
    )
unfolding answer_create create_like_flow require_idempotency_key authorize_payment
    execute_initial_flow replay_or_start start_payment new_payment run_candidates
    candidate_credential call_initial accept_response apply_response resolve_candidates
    without_merchant hash_request hash_initial_request request_payload write_log
    get_default_credential credential_or_null get_default_mongo_merchant_identifier resolve_provider
    provider_of_entry ◌>>=◌ follow pure raise gets recover handling modify unless new_id now outside
    assign create_payment create_log update_payment get put find_value truthy is_empty allowed
    state_transitions includes ensure_transition Payments.create Payments.update
    Payments.find_by_idempotency_key Payments.has_key Payments.optional_eq
answer_create-again_example =
    answer_create-again env request (some "key-1") [] Flow.authorize empty _ refl
