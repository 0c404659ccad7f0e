-- ===== src/Providers/Peach.antt =====
-- src/providers/peach/peach.status.ts, `mapPeachStatusWithType`; the other modules of src/providers/peach below.
pub mod Forms
pub mod Webhook
pub mod Operations
pub mod Checkout
pub mod Card
pub mod CardInput
pub mod Provider
use gateway_orchestrator.Prelude.{String, ◌||◌, ◌==◌, if◌then◌else◌}
use gateway_orchestrator.Prelude.Text.{is_empty, starts_with}
use gateway_orchestrator.Domain.Enums.{PaymentStatus}

-- The status of a successful payment of a type.
unfoldable pub success_status : String → PaymentStatus
success_status payment_type =
    if payment_type == "PA"
    then PaymentStatus.authorized
    else if payment_type == "DB"
    then PaymentStatus.captured
    else if payment_type == "RF"
    then PaymentStatus.refunded
    else if payment_type == "CP"
    then PaymentStatus.captured
    else if payment_type == "RV"
    then PaymentStatus.voided
    else PaymentStatus.captured

unfoldable pub map_peach_status_with_type : String → String → PaymentStatus
unfolding is_empty starts_with success_status
map_peach_status_with_type result_code payment_type =
    if is_empty result_code
    then PaymentStatus.unknown
    else if starts_with result_code "000.2"
    then PaymentStatus.pending
    else if starts_with result_code "000.0" || starts_with result_code "000.1"
    then success_status payment_type
    else PaymentStatus.failed
