-- ===== src/Examples/Deliveries.antt =====
-- Deliveries of the gateway's event, for the authorized payment.
use gateway_orchestrator.Prelude.{ℕ, ◌≡◌, refl, some, none, [], ◌∷◌, get, put}
use gateway_orchestrator.Prelude.Text.{truthy, is_empty}
use gateway_orchestrator.Effect.{returned, ◌>>=◌, follow, pure, raise, gets, modify}
use gateway_orchestrator.Domain.Enums.{provider_text, WebhookEventState}
use gateway_orchestrator.Domain.Records.{WebhookEventRecord}
use gateway_orchestrator.Repositories.Payments
use gateway_orchestrator.Repositories.WebhookEvents
use gateway_orchestrator.Runtime.{
  State, new_id, now, outside, create_webhook_event, update_webhook_event, create_log,
  update_payment,
}
use gateway_orchestrator.Runtime.Frame.{SameStores}
use gateway_orchestrator.Payments.Input.{hash_text}
use gateway_orchestrator.Payments.Support.{
  write_log, resolve_provider, provider_of_entry, create_webhook_dedupe_key,
}
use gateway_orchestrator.Payments.Webhook.{
  handle_webhook, verify_and_accept, accept_delivery, dedupe_and_process, process_event,
  find_and_reconcile, reconcile_or_fail, reconcile, apply_event, start_webhook_record,
  new_webhook_record,
}
use gateway_orchestrator.Payments.Webhook.Deliveries.{Rejected, unverified-Rejected, duplicate-same}
use gateway_orchestrator.Payments.Webhook.Reconciled.{
  Settled, delivered-Settled, redelivered-same, retried-Settled,
}
use gateway_orchestrator.Examples.{
  entry, env, authorized, authorized_payment, captured_event, delivery,
}

delivered-Settled_example :
    Settled env
      (delivery "good")
      captured_event
      authorized_payment
      (handle_webhook env (delivery "good") authorized)
unfolding get truthy is_empty
delivered-Settled_example =
    delivered-Settled env (delivery "good") entry authorized refl refl captured_event _
      authorized_payment refl refl refl refl

unverified-Rejected_example :
    Rejected env
      (delivery "bad")
      entry
      authorized
      refl
      (handle_webhook env (delivery "bad") authorized)
unverified-Rejected_example = unverified-Rejected env (delivery "bad") entry authorized refl refl

redelivered-same_example :
    ((handle_webhook env (delivery "good") (handle_webhook env (delivery "good") authorized).1).0
      ≡ returned tt)
    × SameStores
        (handle_webhook env (delivery "good") authorized).1
        (handle_webhook env (delivery "good") (handle_webhook env (delivery "good") authorized).1).1
unfolding handle_webhook verify_and_accept accept_delivery dedupe_and_process process_event
    find_and_reconcile reconcile_or_fail reconcile apply_event start_webhook_record
    new_webhook_record write_log resolve_provider provider_of_entry create_webhook_dedupe_key
    hash_text ◌>>=◌ follow pure raise gets modify new_id now outside create_webhook_event
    update_webhook_event create_log update_payment get put truthy is_empty provider_text
    Payments.find_by_id Payments.update WebhookEvents.find_by_dedupe_key WebhookEvents.create
    WebhookEvents.update
redelivered-same_example =
    redelivered-same env (delivery "good") entry authorized refl refl captured_event _ _
      authorized_payment refl refl refl refl refl

-- The authorized payment, and the event on record as in progress.
abbrev in_progress_record : WebhookEventRecord
in_progress_record =
    record (new_webhook_record (delivery "good") "PAYU:responseHash:hash-1" "payload"
      (some captured_event) "id-1" 0 0) { payment_id = none }

abbrev noticed : State ℕ
noticed = record authorized {
  webhook_events = ("PAYU:responseHash:hash-1", in_progress_record) ∷ [];
}

duplicate-same_example :
    handle_webhook env (delivery "good") noticed
    ≡ (returned tt, record noticed { ticks = 1; remote = 1 })
unfolding new_webhook_record get create_webhook_dedupe_key hash_text truthy is_empty provider_text
duplicate-same_example =
    duplicate-same env (delivery "good") entry noticed refl (some captured_event) _ _ refl refl refl
      (λ e. cc)

-- The event on record as failed, since its payment was not stored when it came first.
abbrev failed_before : State ℕ
failed_before = record authorized {
  webhook_events =
      ("PAYU:responseHash:hash-1", record in_progress_record { state = WebhookEventState.failed })
      ∷ [];
}

retried-Settled_example :
    Settled env
      (delivery "good")
      captured_event
      authorized_payment
      (handle_webhook env (delivery "good") failed_before)
unfolding new_webhook_record get create_webhook_dedupe_key hash_text truthy is_empty provider_text
retried-Settled_example =
    retried-Settled env (delivery "good") entry failed_before refl refl captured_event _
      authorized_payment _ refl refl refl refl refl refl
