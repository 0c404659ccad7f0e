-- ===== src/Repositories/Operations.antt =====
-- `InMemoryPaymentOperationRepository`.
use gateway_orchestrator.Prelude.{
  String, Option, List, [], ◌∷◌, leb, ◌==◌, Map, get, put, values, filter, sort,
}
use gateway_orchestrator.Prelude.Text.{template}
use gateway_orchestrator.Domain.Enums.{PaymentOperationType, operation_text}
use gateway_orchestrator.Domain.Records.{PaymentOperation}

unfoldable pub operation_key : String → PaymentOperationType → String → String
operation_key payment_id type idempotency_key =
    template (payment_id ∷ ":" ∷ operation_text type ∷ ":" ∷ idempotency_key ∷ [])

-- The key under which an operation is stored.
abbrev pub key_of : PaymentOperation → String
key_of operation = operation_key operation.payment_id operation.type operation.idempotency_key

unfoldable pub create : Map PaymentOperation → PaymentOperation → Map PaymentOperation
create operations operation = put operations (key_of operation) operation

unfoldable pub find_by_idempotency_key :
    Map PaymentOperation → String → PaymentOperationType → String → Option PaymentOperation
find_by_idempotency_key operations payment_id type idempotency_key =
    get operations (operation_key payment_id type idempotency_key)

unfoldable pub list_by_payment_id : Map PaymentOperation → String → List PaymentOperation
list_by_payment_id operations payment_id =
    sort (λ a b. leb b.created_at a.created_at)
      (filter (λ operation. operation.payment_id == payment_id) (values operations))

unfoldable pub update : Map PaymentOperation → PaymentOperation → Map PaymentOperation
update operations operation = put operations (key_of operation) operation
