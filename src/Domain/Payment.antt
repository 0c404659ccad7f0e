-- ===== src/Domain/Payment.antt =====
-- src/domain/payment.entity.ts: payments, and which status may follow which.
use gateway_orchestrator.Prelude.{
  ℕ, String, Bool, true, false, Option, List, [], ◌∷◌, if◌then◌else◌,
}
use gateway_orchestrator.Prelude.Text.{template}
use gateway_orchestrator.Domain.Enums.{PaymentProviderName, PaymentStatus, status_text, status_eq}
use gateway_orchestrator.Effect.{Error, plain_error, Action, unless}

pub record Payment : Type 0 where
  pub id : String
  pub merchant_identifier : Option String
  pub provider : PaymentProviderName
  pub amount : ℕ
  pub currency : String
  pub status : PaymentStatus
  pub provider_reference : Option String
  pub checkout_url : Option String
  pub idempotency_key : String
  pub initial_request_hash : Option String
  pub created_at : ℕ
  pub updated_at : ℕ

unfoldable pub state_transitions : PaymentStatus → List PaymentStatus
state_transitions PaymentStatus.created =
    PaymentStatus.authorized ∷ PaymentStatus.pending ∷ PaymentStatus.pending_3ds
    ∷ PaymentStatus.failed ∷ PaymentStatus.declined ∷ []
state_transitions PaymentStatus.pending =
    PaymentStatus.authorized ∷ PaymentStatus.captured ∷ PaymentStatus.pending_3ds
    ∷ PaymentStatus.failed ∷ PaymentStatus.declined ∷ PaymentStatus.voided ∷ PaymentStatus.payment
    ∷ []
state_transitions PaymentStatus.pending_3ds =
    PaymentStatus.authorized ∷ PaymentStatus.captured ∷ PaymentStatus.failed
    ∷ PaymentStatus.declined ∷ PaymentStatus.voided ∷ PaymentStatus.payment ∷ []
state_transitions PaymentStatus.authorized =
    PaymentStatus.captured ∷ PaymentStatus.refunded ∷ PaymentStatus.failed ∷ PaymentStatus.voided
    ∷ PaymentStatus.payment ∷ []
state_transitions PaymentStatus.captured = PaymentStatus.refunded ∷ PaymentStatus.payment ∷ []
state_transitions PaymentStatus.refunded = []
state_transitions PaymentStatus.failed = []
state_transitions PaymentStatus.declined = []
state_transitions PaymentStatus.unknown =
    PaymentStatus.pending ∷ PaymentStatus.pending_3ds ∷ PaymentStatus.authorized
    ∷ PaymentStatus.captured ∷ PaymentStatus.failed ∷ PaymentStatus.declined
    ∷ PaymentStatus.refunded ∷ PaymentStatus.voided ∷ PaymentStatus.payment ∷ []
state_transitions PaymentStatus.voided = []
state_transitions PaymentStatus.payment = []

-- `statuses.includes(status)`
unfoldable pub includes : List PaymentStatus → PaymentStatus → Bool
includes [] status = false
includes (x ∷ xs) status = if status_eq x status then true else includes xs status

-- The test of `ensureTransition`.
unfoldable pub allowed : PaymentStatus → PaymentStatus → Bool
unfolding state_transitions includes status_eq
allowed from to = includes (state_transitions from) to

-- The error that `ensureTransition` throws.
unfoldable pub invalid_transition : PaymentStatus → PaymentStatus → Error
invalid_transition from to = plain_error (
    template
      ("Invalid payment status transition: " ∷ status_text from ∷ " -> " ∷ status_text to ∷ []))

unfoldable pub ensure_transition :
    {S : Type 0} → PaymentStatus → PaymentStatus → Action S (Unit {0})
ensure_transition from to = unless (allowed from to) (invalid_transition from to)
