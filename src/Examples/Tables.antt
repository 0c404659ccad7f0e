-- ===== src/Examples/Tables.antt =====
-- Tables of the MySQL repositories with one row.
use gateway_orchestrator.Prelude.{
  ◌≡◌, ◌≢◌, refl, String, true, false, Option, none, some, List, [], ◌∷◌, ◌==◌, eq_refl, get,
}
use mathlib.Core.Option.{map}
use gateway_orchestrator.Prelude.Text.{is_empty}
use gateway_orchestrator.Domain.Enums.{
  PaymentProviderName, PaymentStatus, PaymentOperationType, PaymentOperationState,
  WebhookEventState, operation_text,
}
use gateway_orchestrator.Domain.Payment.{Payment}
use gateway_orchestrator.Domain.Records.{PaymentOperation, WebhookEvent, WebhookEventRecord}
use gateway_orchestrator.Repositories.Payments as MemoryPayments
use gateway_orchestrator.Repositories.WebhookEvents as MemoryEvents
use gateway_orchestrator.Sql.{
  Json, has_row, select_first, to_stored_merchant_identifier, from_stored_merchant_identifier,
}
use gateway_orchestrator.Sql.Tables
use gateway_orchestrator.Sql.Payments as Payments
use gateway_orchestrator.Sql.Payments.{PaymentRow, payment_row, map_payment_row, update_clashes}
use gateway_orchestrator.Sql.Payments.Refines.{
  view, create_refines, update_refines, find_by_idempotency_key_refines,
}
use gateway_orchestrator.Sql.Operations as Operations
use gateway_orchestrator.Sql.Operations.{operation_row}
use gateway_orchestrator.Sql.Operations.Stored.{operation_kept}
use gateway_orchestrator.Sql.WebhookEvents as Events
use gateway_orchestrator.Sql.WebhookEvents.{WebhookEventRow, webhook_event_row}
use gateway_orchestrator.Sql.WebhookEvents.Refines as EventRefines
use gateway_orchestrator.Sql.WebhookEvents.Refines.{
  event, update_event_refines, second_event_refused,
}
use gateway_orchestrator.Examples.{authorized_payment, captured_event}

none_is_not_some : {A : Type 0} (a : A) → none ≢ some a
none_is_not_some a e = absurd cc

-- The table that holds the authorized payment.
abbrev one_payment : List PaymentRow
unfolding payment_row
one_payment = payment_row authorized_payment ∷ []

abbrev shop_payment : Payment
shop_payment = record authorized_payment { id = "pay-1"; merchant_identifier = some "shop" }

abbrev captured_payment : Payment
captured_payment = record authorized_payment { status = PaymentStatus.captured; updated_at = 1 }

shop_is_not_empty : ◌≢◌ {A = Option String} (some "shop") (some "")
shop_is_not_empty e = absurd cc

create_refines_example :
    map view (Payments.create ◌==◌ shop_payment one_payment)
    ≡ some (MemoryPayments.create (view one_payment) shop_payment)
unfolding has_row Payments.clashes payment_row to_stored_merchant_identifier
    MemoryPayments.find_by_id Tables.view get
create_refines_example = create_refines ◌==◌ shop_payment one_payment shop_is_not_empty refl refl

update_refines_example :
    map view (Payments.update ◌==◌ captured_payment one_payment)
    ≡ some (MemoryPayments.update (view one_payment) captured_payment)
unfolding has_row update_clashes payment_row map_payment_row to_stored_merchant_identifier
    from_stored_merchant_identifier MemoryPayments.find_by_id Tables.view get is_empty
update_refines_example =
    update_refines ◌==◌ captured_payment authorized_payment one_payment (none_is_not_some "")
      (refl, tt) (refl, tt) refl refl refl

find_by_idempotency_key_refines_example :
    Payments.find_by_idempotency_key ◌==◌ "key-1" (some "shop") one_payment
    ≡ MemoryPayments.find_by_idempotency_key (view one_payment) "key-1" (some "shop")
unfolding one_payment
find_by_idempotency_key_refines_example =
    find_by_idempotency_key_refines ◌==◌ "key-1" (some "shop") one_payment shop_is_not_empty
      ((refl, refl), tt)

abbrev capture_started : PaymentOperation
capture_started = record {
  id = "op-1";
  payment_id = "pay-0";
  merchant_identifier = none;
  provider = PaymentProviderName.payu;
  type = PaymentOperationType.capture;
  idempotency_key = "key-2";
  request_hash = "value";
  amount = none;
  currency = none;
  state = PaymentOperationState.started;
  resulting_payment_status = none;
  provider_reference = some "ref-1";
  error_code = none;
  error_message = none;
  created_at = 1;
  updated_at = 1;
}

abbrev capture_succeeded : PaymentOperation
capture_succeeded = record capture_started {
  state = PaymentOperationState.succeeded;
  resulting_payment_status = some PaymentStatus.captured;
  updated_at = 2;
}

abbrev refund_before : PaymentOperation
refund_before = record capture_started { id = "op-0"; type = PaymentOperationType.refund }

operation_kept_example :
    map
      (λ stored.
        Operations.find_by_idempotency_key ◌==◌ "pay-0" PaymentOperationType.capture "key-2"
          (Operations.update ◌==◌ capture_succeeded stored))
      (Operations.create ◌==◌ capture_started (operation_row refund_before ∷ []))
    ≡ some (some capture_succeeded)
unfolding has_row Operations.clashes operation_row to_stored_merchant_identifier operation_text
operation_kept_example =
    operation_kept ◌==◌ eq_refl capture_started capture_succeeded (operation_row refund_before ∷ [])
      (none_is_not_some "") refl refl refl refl refl refl

-- A JSON column that keeps events as they are.
abbrev json : Json (Option WebhookEvent) WebhookEvent
json = record {
  to_json = λ e. e;
  from_json = λ column. elim column [ none ↦ captured_event | some e ↦ e ];
  is_set = λ column. elim column [ none ↦ false | some e ↦ true ];
}

abbrev started_event : WebhookEventRecord
started_event = record {
  id = "event-1";
  provider = PaymentProviderName.payu;
  payment_id = some "pay-0";
  merchant_reference = some "pay-0";
  provider_reference = some "ref-1";
  response_hash = some "hash-1";
  payload_hash = "value";
  dedupe_key = "PAYU:value";
  signature = some "good";
  raw_payload = "{}";
  event = some captured_event;
  resulting_payment_status = none;
  state = WebhookEventState.started;
  error_message = none;
  created_at = 0;
  updated_at = 0;
}

abbrev succeeded_event : WebhookEventRecord
succeeded_event = record started_event { state = WebhookEventState.succeeded; updated_at = 1 }

abbrev one_event : List (WebhookEventRow (Option WebhookEvent))
unfolding webhook_event_row
one_event = webhook_event_row json started_event ∷ []

update_event_refines_example :
    EventRefines.view json (Events.update json ◌==◌ succeeded_event one_event)
    ≡ MemoryEvents.update (EventRefines.view json one_event) succeeded_event
unfolding webhook_event_row Events.map_webhook_event_row MemoryEvents.find_by_dedupe_key Tables.view
    get
update_event_refines_example =
    update_event_refines json ◌==◌ succeeded_event started_event one_event (event refl refl)
      (refl, tt) (refl, tt) refl refl refl

second_event_refused_example : Events.create json ◌==◌ succeeded_event one_event ≡ none
unfolding webhook_event_row Events.find_by_dedupe_key select_first
second_event_refused_example =
    second_event_refused json ◌==◌ succeeded_event one_event (λ e. absurd cc)
