-- ===== src/Providers/Payu/Webhook/Captured.antt =====
-- What a webhook of src/providers/payu/payu.webhook.ts has to say for a payment to be captured.
use gateway_orchestrator.Prelude.{
  ◌≡◌, ◌≢◌, refl, ap, sym, ◌∙◌, String, Bool, true, false, Option, ◌==◌, ◌||◌, not, if◌then◌else◌,
  arith, eq_iff, Bool-cases, inl, inr,
}
use gateway_orchestrator.Prelude.Text.{trim}
use gateway_orchestrator.Domain.Enums.{PaymentStatus}
use gateway_orchestrator.Providers.Payu.{map_transaction_state, status_of_state, settled_status}
use gateway_orchestrator.Providers.Payu.Webhook.{
  map_ipn_status, ipn_status, ipn_settled, ipn_unsettled, is_pending_state, is_failed_state,
}

choice-not_captured :
    (is_pending is_refunded is_failed success : Bool)
    → (if is_pending
        then PaymentStatus.pending
        else if is_refunded
        then PaymentStatus.refunded
        else if is_failed
        then PaymentStatus.failed
        else if not success
        then PaymentStatus.failed
        else PaymentStatus.pending)
      ≢ PaymentStatus.captured
choice-not_captured is_pending is_refunded is_failed success h = ground arith

unsettled-not_captured :
    (state : String) (success : Bool) → ipn_unsettled state success ≢ PaymentStatus.captured
unfolding ipn_unsettled
unsettled-not_captured state success =
    choice-not_captured (is_pending_state state) (state == "CREDIT" || state == "REFUNDED")
      (is_failed_state state) success

choice-captured :
    (is_credit is_payment is_cancel : Bool)
    → (if is_credit
        then PaymentStatus.refunded
        else if is_payment
        then PaymentStatus.captured
        else if is_cancel
        then PaymentStatus.voided
        else PaymentStatus.authorized)
      ≡ PaymentStatus.captured
    → is_payment ≡ true
choice-captured is_credit is_payment is_cancel h = ground arith

settled-captured :
    (type : String)
    → ipn_settled type ≡ PaymentStatus.captured
    → (type == "FINALIZE" || type == "PAYMENT") ≡ true
unfolding ipn_settled
settled-captured type =
    choice-captured (type == "CREDIT") (type == "FINALIZE" || type == "PAYMENT")
      (type == "RESERVE_CANCEL")

choice-settled :
    (is_settled success : Bool) (settled unsettled : PaymentStatus)
    → unsettled ≢ PaymentStatus.captured
    → (if is_settled then (if not success then PaymentStatus.failed else settled) else unsettled)
      ≡ PaymentStatus.captured
    → (is_settled ≡ true) × (settled ≡ PaymentStatus.captured)
choice-settled is_settled success settled unsettled n h = (ground arith, ground arith)

-- By the texts in one case.
status-captured :
    (state type : String) (success : Bool)
    → ipn_status state type success ≡ PaymentStatus.captured
    → ((state == "SUCCESSFUL") ≡ true) × ((type == "FINALIZE" || type == "PAYMENT") ≡ true)
unfolding ipn_status
status-captured state type success h =
    let (is_settled, settled) =
      choice-settled (state == "SUCCESSFUL") success (ipn_settled type)
        (ipn_unsettled state success) (unsettled-not_captured state success) h in
    (is_settled, settled-captured type settled)

payment_type :
    (type : String) → (type == "FINALIZE" || type == "PAYMENT") ≡ true → (type == "RESERVE") ≡ false
payment_type type h = elim (Bool-cases (type == "RESERVE")) [
  | inr e ↦ e
  | inl e ↦
      (let reserve = ap (λ t. t == "FINALIZE" || t == "PAYMENT") ((eq_iff type "RESERVE").0 e) in
        let same : true ≡ false = sym h ∙ reserve in absurd cc)
]

-- A notification is captured only where a lookup that tells the same state and type is captured.
pub map_ipn_status-captured :
    (to_upper_case to_lower_case : String → String) (transaction_state transaction_type : String)
    (result_code successful : Option String)
    → map_ipn_status to_upper_case to_lower_case transaction_state transaction_type result_code
        successful
      ≡ PaymentStatus.captured
    → map_transaction_state to_upper_case transaction_state transaction_type
      ≡ PaymentStatus.captured
unfolding map_ipn_status map_transaction_state status_of_state settled_status
map_ipn_status-captured to_upper_case to_lower_case state type result_code successful h =
    let (is_settled, is_payment) =
      status-captured (to_upper_case (trim state)) (to_upper_case (trim type)) _ h in
    rw
      (
        map_transaction_state,
        status_of_state,
        is_settled,
        settled_status,
        payment_type (to_upper_case (trim type)) is_payment,
        is_payment,
      )
      refl
