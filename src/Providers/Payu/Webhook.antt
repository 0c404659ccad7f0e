-- ===== src/Providers/Payu/Webhook.antt =====
-- src/providers/payu/payu.webhook.ts. `JSON.stringify`, `toUpperCase` and `toLowerCase` are parameters.
pub mod Captured
use gateway_orchestrator.Prelude.{
  String, Bool, not, ◌||◌, ◌&&◌, ◌==◌, Option, none, some, coalesce, if◌then◌else◌,
}
use gateway_orchestrator.Prelude.Text.{is_empty, truthy, trim}
use gateway_orchestrator.Value.{Value, str}
use gateway_orchestrator.Domain.Enums.{PaymentStatus}
use gateway_orchestrator.Domain.Records.{WebhookEvent}
use gateway_orchestrator.Providers.Payu.Xml.{read_tag}

-- `isSuccess`, from the texts in one case.
unfoldable pub is_success : String → String → String → Bool
unfolding is_empty
is_success state result_code successful =
    if not (is_empty result_code) || not (is_empty successful)
    then result_code == "00" || successful == "true"
    else state == "SUCCESSFUL"

-- The status of a successful transaction of a type.
unfoldable pub ipn_settled : String → PaymentStatus
ipn_settled type =
    if type == "CREDIT"
    then PaymentStatus.refunded
    else if type == "FINALIZE" || type == "PAYMENT"
    then PaymentStatus.captured
    else if type == "RESERVE_CANCEL"
    then PaymentStatus.voided
    else PaymentStatus.authorized

unfoldable pub is_pending_state : String → Bool
is_pending_state state =
    state == "AWAITING_PAYMENT"
    || state == "PROCESSING"
    || state == "NEW"
    || state == "PENDING"
    || state == "PENDING_REVIEW"
    || state == "PARTIAL_PAYMENT"
    || state == "OVER_PAYMENT"

unfoldable pub is_failed_state : String → Bool
is_failed_state state =
    state == "EXPIRED" || state == "CANCELLED" || state == "FAILED" || state == "TIMEOUT"

-- Every state but SUCCESSFUL.
unfoldable pub ipn_unsettled : String → Bool → PaymentStatus
unfolding is_pending_state is_failed_state
ipn_unsettled state success =
    if is_pending_state state
    then PaymentStatus.pending
    else if state == "CREDIT" || state == "REFUNDED"
    then PaymentStatus.refunded
    else if is_failed_state state
    then PaymentStatus.failed
    else if not success
    then PaymentStatus.failed
    else PaymentStatus.pending

-- The status of texts in one case.
unfoldable pub ipn_status : String → String → Bool → PaymentStatus
unfolding ipn_settled ipn_unsettled
ipn_status state type success =
    if state == "SUCCESSFUL"
    then (if not success then PaymentStatus.failed else ipn_settled type)
    else ipn_unsettled state success

-- A property whose name begins in either case.
unfoldable pub read_either : String → String → String → Option String
unfolding read_tag
read_either raw upper lower = elim (read_tag raw upper) [
  | some value ↦ some value
  | none ↦ read_tag raw lower
]

unfoldable pub has_payu_response_hash : String → Bool
unfolding read_tag truthy
has_payu_response_hash payload =
    truthy (read_tag payload "ResponseHash") || truthy (read_tag payload "responseHash")

module _ (to_upper_case to_lower_case : String → String) where
  unfoldable pub map_ipn_status : String → String → Option String → Option String → PaymentStatus
  unfolding ipn_status is_success
  map_ipn_status transaction_state transaction_type result_code successful =
      let state = to_upper_case (trim transaction_state) in
      ipn_status state (to_upper_case (trim transaction_type)) (
        is_success state (to_upper_case (trim (coalesce result_code "")))
          (to_lower_case (trim (coalesce successful ""))))

module _ (stringify : Value → String) (to_upper_case to_lower_case : String → String) where
  -- `raw`
  unfoldable pub raw_of : Value → String
  raw_of (str s) = s
  raw_of payload = stringify payload

  -- The event that a text of XML tells, of the payload that it is from.
  unfoldable pub event_of_raw : Value → String → Option WebhookEvent
  unfolding read_either map_ipn_status truthy
  event_of_raw payload raw =
      let merchant_reference = read_either raw "MerchantReference" "merchantReference" in
      let payu_reference = read_either raw "PayUReference" "payUReference" in
      let transaction_state = read_either raw "TransactionState" "transactionState" in
      if not (truthy merchant_reference)
        || not (truthy payu_reference)
        || not (truthy transaction_state)
      then none
      else some (record {
        merchant_reference = merchant_reference;
        provider_reference = payu_reference;
        status = some (
            map_ipn_status to_upper_case to_lower_case (coalesce transaction_state "")
              (coalesce (read_either raw "TransactionType" "transactionType") "PAYMENT")
              (read_either raw "ResultCode" "resultCode")
              (read_either raw "Successful" "successful"));
        response_hash = read_either raw "ResponseHash" "responseHash";
        raw_payload = payload;
      })

  unfoldable pub parse_payu_webhook : Value → Option WebhookEvent
  unfolding event_of_raw raw_of
  parse_payu_webhook payload = event_of_raw payload (raw_of payload)
