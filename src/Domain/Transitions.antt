-- ===== src/Domain/Transitions.antt =====
-- What the transition table of src/domain/payment.entity.ts means for the life of a payment.
use gateway_orchestrator.Prelude.{ℕ, ◌+◌, ◌≤◌, ◌<◌, ◌≡◌, refl, Bool, true, false, arith}
use gateway_orchestrator.Domain.Enums.{PaymentStatus}
use gateway_orchestrator.Domain.Payment.{allowed, ensure_transition, invalid_transition}
use gateway_orchestrator.Effect.{returned, threw, unless}

-- A history of accepted transitions.
pub data Evolves (a : PaymentStatus) : PaymentStatus → Type 0 where
  still : Evolves a a
  then_to : {b c : PaymentStatus} → Evolves a b → allowed b c ≡ true → Evolves a c

pub step : {a b : PaymentStatus} → allowed a b ≡ true → Evolves a b
step h = then_to still h

-- How many transitions a status can still be followed by.
abbrev pub rank : PaymentStatus → ℕ
rank PaymentStatus.created = 5
rank PaymentStatus.unknown = 5
rank PaymentStatus.pending = 4
rank PaymentStatus.pending_3ds = 3
rank PaymentStatus.authorized = 2
rank PaymentStatus.captured = 1
rank _ = 0

pub allowed-rank : (a b : PaymentStatus) → allowed a b ≡ true → rank b < rank a
unfolding allowed
allowed-rank PaymentStatus.created b h = ground arith
allowed-rank _ b h = ground arith

abbrev pub length : {a b : PaymentStatus} → Evolves a b → ℕ
length still = 0
length (then_to h e) = length h + 1

-- A history from one status to another takes at most the difference of their ranks, so no payment
-- ever passes through more than five accepted transitions.
pub length-le-rank : {a b : PaymentStatus} (h : Evolves a b) → length h + rank b ≤ rank a
length-le-rank still = omega arith
length-le-rank (then_to {b = b} {c = c} h e) = omega (arith, length-le-rank h, allowed-rank b c e)

-- A payment that leaves a status by accepted transitions never comes back to it.
pub Evolves-antisym : {a b : PaymentStatus} → Evolves a b → Evolves b a → a ≡ b
Evolves-antisym still k = refl
Evolves-antisym {a} (then_to {b = b} {c = c} h e) k =
    absurd (omega (arith, length-le-rank h, allowed-rank b c e, length-le-rank k))

-- The statuses that the program treats as the end of a payment.
abbrev pub is_final : PaymentStatus → Bool
is_final PaymentStatus.refunded = true
is_final PaymentStatus.failed = true
is_final PaymentStatus.declined = true
is_final PaymentStatus.voided = true
is_final PaymentStatus.payment = true
is_final _ = false

final-not-allowed : (a b : PaymentStatus) → is_final a ≡ true → allowed a b ≡ false
unfolding allowed
final-not-allowed PaymentStatus.created b h = ground arith
final-not-allowed _ b h = ground arith

-- Once a payment is refunded, failed, declined, voided or paid, no accepted transition changes it.
pub Evolves-final : {a b : PaymentStatus} → is_final a ≡ true → Evolves a b → a ≡ b
Evolves-final h still = refl
Evolves-final {a} h (then_to {b = b} {c = c} k e) =
    ground (arith, Evolves-final h k, final-not-allowed a c h)

module _ {S : Type 0} (s : S) where
  pub ensure_transition-allowed :
      (a b : PaymentStatus) → allowed a b ≡ true → ensure_transition a b s ≡ (returned tt, s)
  unfolding ensure_transition unless
  ensure_transition-allowed a b h = rw h

  pub ensure_transition-refused :
      (a b : PaymentStatus)
      → allowed a b ≡ false
      → ensure_transition a b s ≡ (threw (invalid_transition a b), s)
  unfolding ensure_transition unless
  ensure_transition-refused a b h = rw h
