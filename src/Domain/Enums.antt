-- ===== src/Domain/Enums.antt =====
-- src/domain/enums.ts, and the states of payment-operation.entity.ts and webhook-event.entity.ts.
-- `PaymentStatus.RESERVE_CANCEL` has the value of `VOIDED`, so it is the same status.
use gateway_orchestrator.Prelude.{ℕ, String, Bool, true, ◌≡◌, arith, nat_eq}

pub data PaymentProviderName : Type 0 where
  payu payfast payflex stitch peach : PaymentProviderName

unfoldable pub provider_text : PaymentProviderName → String
provider_text PaymentProviderName.payu = "PAYU"
provider_text PaymentProviderName.payfast = "PAYFAST"
provider_text PaymentProviderName.payflex = "PAYFLEX"
provider_text PaymentProviderName.stitch = "STITCH"
provider_text PaymentProviderName.peach = "PEACH"

-- The place of a provider in the enumeration.
abbrev provider_index : PaymentProviderName → ℕ
provider_index PaymentProviderName.payu = 0
provider_index PaymentProviderName.payfast = 1
provider_index PaymentProviderName.payflex = 2
provider_index PaymentProviderName.stitch = 3
provider_index PaymentProviderName.peach = 4

-- `a === b` on providers.
abbrev pub provider_eq : PaymentProviderName → PaymentProviderName → Bool
provider_eq a b = nat_eq (provider_index a) (provider_index b)

pub data PaymentStatus : Type 0 where
  created authorized captured failed refunded declined pending pending_3ds unknown voided payment :
      PaymentStatus

unfoldable pub status_text : PaymentStatus → String
status_text PaymentStatus.created = "CREATED"
status_text PaymentStatus.authorized = "AUTHORIZED"
status_text PaymentStatus.captured = "CAPTURED"
status_text PaymentStatus.failed = "FAILED"
status_text PaymentStatus.refunded = "REFUNDED"
status_text PaymentStatus.declined = "DECLINED"
status_text PaymentStatus.pending = "PENDING"
status_text PaymentStatus.pending_3ds = "PENDING_3DS"
status_text PaymentStatus.unknown = "UNKNOWN"
status_text PaymentStatus.voided = "VOIDED"
status_text PaymentStatus.payment = "PAID"

-- The place of a status in the enumeration.
abbrev index : PaymentStatus → ℕ
index PaymentStatus.created = 0
index PaymentStatus.authorized = 1
index PaymentStatus.captured = 2
index PaymentStatus.failed = 3
index PaymentStatus.refunded = 4
index PaymentStatus.declined = 5
index PaymentStatus.pending = 6
index PaymentStatus.pending_3ds = 7
index PaymentStatus.unknown = 8
index PaymentStatus.voided = 9
index PaymentStatus.payment = 10

-- `a === b` on statuses.
unfoldable pub status_eq : PaymentStatus → PaymentStatus → Bool
status_eq a b = nat_eq (index a) (index b)

pub status_eq_refl : (a : PaymentStatus) → status_eq a a ≡ true
unfolding status_eq
status_eq_refl a = ground arith

-- Two statuses pass the test only if they are one.
pub status_eq→eq : (a b : PaymentStatus) → status_eq a b ≡ true → a ≡ b
unfolding status_eq
status_eq→eq a b h = ground arith

pub data PaymentOperationType : Type 0 where
  capture refund void : PaymentOperationType

unfoldable pub operation_text : PaymentOperationType → String
operation_text PaymentOperationType.capture = "CAPTURE"
operation_text PaymentOperationType.refund = "REFUND"
operation_text PaymentOperationType.void = "VOID"

-- `input.type.toLowerCase()`
unfoldable pub operation_name : PaymentOperationType → String
operation_name PaymentOperationType.capture = "capture"
operation_name PaymentOperationType.refund = "refund"
operation_name PaymentOperationType.void = "void"

pub data PaymentOperationState : Type 0 where
  started succeeded failed : PaymentOperationState

pub data WebhookEventState : Type 0 where
  started succeeded failed ignored : WebhookEventState
