-- ===== src/Providers/Payflex.antt =====
-- src/providers/payflex/payflex.mapper.ts. An order is the JSON value that it comes as, and `amount` is a natural
-- number.
pub mod Auth
pub mod Metadata
pub mod Provider
use gateway_orchestrator.Prelude.{
  ℕ, ◌*◌, String, Bool, true, false, ◌&&◌, ◌||◌, ◌==◌, Option, none, some, coalesce, if◌then◌else◌,
}
use gateway_orchestrator.Prelude.Text.{trim, truthy}
use gateway_orchestrator.Value.{Value, as_number}
use gateway_orchestrator.Domain.Enums.{PaymentStatus}
use gateway_orchestrator.Domain.Records.{WebhookEvent}
use gateway_orchestrator.Domain.Provider.{LookupTransactionResult}

-- The properties that are read of an order, and the order.
pub record PayFlexOrderResponse : Type 0 where
  pub order_id : String
  pub order_status : Option String
  pub amount : Option ℕ
  pub merchant_reference : Option String
  pub redirect_url : Option String
  pub raw : Value

module _ (to_upper_case : String → String) where
  -- The `switch`, on the normalized status.
  unfoldable pub order_status_of : String → PaymentStatus
  order_status_of normalized =
      if normalized == "CREATED" || normalized == "INITIATED"
      then PaymentStatus.pending
      else if normalized == "APPROVED"
      then PaymentStatus.captured
      else if normalized == "DECLINED" || normalized == "ABANDONED"
      then PaymentStatus.failed
      else PaymentStatus.unknown

  unfoldable pub map_payflex_order_status : Option String → PaymentStatus
  unfolding order_status_of
  map_payflex_order_status order_status =
      order_status_of (to_upper_case (trim (coalesce order_status "")))

  unfoldable pub to_payflex_lookup_result :
      PayFlexOrderResponse → String → String → LookupTransactionResult
  unfolding map_payflex_order_status
  to_payflex_lookup_result order merchant_reference_fallback currency_fallback = record {
    provider_reference = some order.order_id;
    payu_reference = some order.order_id;
    merchant_reference = coalesce order.merchant_reference merchant_reference_fallback;
    transaction_state = coalesce order.order_status "UNKNOWN";
    transaction_type = "ORDER";
    status = map_payflex_order_status order.order_status;
    amount_in_cents = coalesce order.amount 0 * 100;
    currency = currency_fallback;
    result_code = "200";
    result_message = coalesce order.order_status "OK";
    raw_response = order.raw;
  }

  unfoldable pub to_payflex_webhook_event : PayFlexOrderResponse → Option WebhookEvent
  unfolding map_payflex_order_status
  to_payflex_webhook_event payload =
      if truthy (some payload.order_id) && truthy payload.merchant_reference
      then some (record {
        merchant_reference = payload.merchant_reference;
        provider_reference = some payload.order_id;
        status = some (map_payflex_order_status payload.order_status);
        response_hash = none;
        raw_payload = payload.raw;
      })
      else none
