-- ===== src/Providers/Payu.antt =====
-- src/providers/payu/payu.get-transaction.ts, `mapTransactionState`, and the status of an answer in
-- payu.do-transaction.ts; the webhooks and the XML of src/providers/payu below. `toUpperCase` is a parameter.
pub mod Xml
pub mod Webhook
pub mod GetTransaction
pub mod CallbackUrls
pub mod SetTransaction
pub mod PaymentFlow
use gateway_orchestrator.Prelude.{
  String, Bool, not, ◌||◌, ◌&&◌, ◌==◌, Option, none, some, if◌then◌else◌,
}
use gateway_orchestrator.Prelude.Text.{is_empty, trim}
use gateway_orchestrator.Domain.Enums.{PaymentStatus}

-- The status of a successful transaction of a type.
unfoldable pub settled_status : String → PaymentStatus
settled_status type =
    if type == "RESERVE"
    then PaymentStatus.authorized
    else if type == "FINALIZE" || type == "PAYMENT"
    then PaymentStatus.captured
    else if type == "CREDIT"
    then PaymentStatus.refunded
    else if type == "RESERVE_CANCEL"
    then PaymentStatus.voided
    else PaymentStatus.captured

-- The `switch` on a state and a type in upper case.
unfoldable pub status_of_state : String → String → PaymentStatus
unfolding settled_status
status_of_state state type =
    if state == "SUCCESSFUL"
    then settled_status type
    else if state == "NEW" || state == "PROCESSING" || state == "AWAITING_PAYMENT"
    then PaymentStatus.pending
    else if state == "3DS_PENDING"
    then PaymentStatus.pending_3ds
    else if state == "FAILED" || state == "TIMEOUT" || state == "EXPIRED"
    then PaymentStatus.failed
    else PaymentStatus.unknown

module _ (to_upper_case : String → String) where
  unfoldable pub map_transaction_state : String → String → PaymentStatus
  unfolding status_of_state
  map_transaction_state transaction_state transaction_type =
      status_of_state (to_upper_case (trim transaction_state))
        (to_upper_case (trim transaction_type))

  -- Where the answer tells no state.
  unfoldable pub status_without_state : Bool → String → PaymentStatus → PaymentStatus
  status_without_state successful normalized_result_code fallback_status =
      if successful && normalized_result_code == "00" then fallback_status else PaymentStatus.failed

  -- Where it tells one.
  unfoldable pub status_with_state : String → String → Bool → String → PaymentStatus
  unfolding map_transaction_state
  status_with_state transaction_state response_transaction_type successful normalized_result_code =
      if not successful && not (normalized_result_code == "00")
      then PaymentStatus.failed
      else map_transaction_state transaction_state response_transaction_type

  unfoldable pub resolve_do_transaction_status :
      Option String → String → Bool → String → PaymentStatus → Bool → PaymentStatus
  unfolding status_with_state status_without_state
  resolve_do_transaction_status state type successful result_code fallback_status is_3ds_pending =
      let code = to_upper_case (trim result_code) in
      if is_3ds_pending then PaymentStatus.pending_3ds else elim state [
        | none ↦ status_without_state successful code fallback_status
        | some s ↦
            (if is_empty (trim s)
              then status_without_state successful code fallback_status
              else status_with_state (trim s) type successful code)
      ]
