-- ===== src/Repositories/Logs.antt =====
-- `InMemoryPaymentLogRepository`.
use gateway_orchestrator.Prelude.{String, List, [], ◌∷◌, ◌++◌, Map, get, put, coalesce}
use gateway_orchestrator.Domain.Records.{PaymentLog}

unfoldable pub create : Map (List PaymentLog) → PaymentLog → Map (List PaymentLog)
create logs log =
    let existing = coalesce (get logs log.payment_id) [] in
    put logs log.payment_id (existing ++ log ∷ [])

unfoldable pub list_by_payment_id : Map (List PaymentLog) → String → List PaymentLog
list_by_payment_id logs payment_id = coalesce (get logs payment_id) []
