-- ===== src/Repositories/Payments.antt =====
-- `InMemoryPaymentRepository`.
pub mod Search
use gateway_orchestrator.Prelude.{
  String, Bool, false, ◌&&◌, Option, none, some, List, leb, ◌==◌, Map, get, put, values, find_value,
  sort,
}
use gateway_orchestrator.Domain.Payment.{Payment}

unfoldable pub create : Map Payment → Payment → Map Payment
create store payment = put store payment.id payment

unfoldable pub find_by_id : Map Payment → String → Option Payment
find_by_id store id = get store id

-- `===` on optional strings.
unfoldable pub optional_eq : Option String → Option String → Bool
optional_eq none none = Bool.true
optional_eq none (some b) = false
optional_eq (some a) none = false
optional_eq (some a) (some b) = a == b

-- The test of `findByIdempotencyKey`.
unfoldable pub has_key : String → Option String → Payment → Bool
unfolding optional_eq
has_key idempotency_key merchant_identifier payment =
    payment.idempotency_key == idempotency_key
    && optional_eq payment.merchant_identifier merchant_identifier

unfoldable pub find_by_idempotency_key : Map Payment → String → Option String → Option Payment
unfolding has_key
find_by_idempotency_key store idempotency_key merchant_identifier =
    find_value (has_key idempotency_key merchant_identifier) store

unfoldable pub list_all : Map Payment → List Payment
list_all store = sort (λ a b. leb b.created_at a.created_at) (values store)

unfoldable pub update : Map Payment → Payment → Map Payment
update store payment = put store payment.id payment
