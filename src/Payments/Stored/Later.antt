-- ===== src/Payments/Stored/Later.antt =====
-- How one run of a stored operation may change the payment and the operation that it works on.
use gateway_orchestrator.Prelude.{◌≡◌, refl, String, true, Option, some, ℕ, Bool-cases, inl, inr}
use gateway_orchestrator.Prelude.Text.{truthy}
use gateway_orchestrator.Effect.{Error, ProviderOperationError}
use gateway_orchestrator.Domain.Enums.{PaymentStatus}
use gateway_orchestrator.Domain.Payment.{Payment, allowed}
use gateway_orchestrator.Domain.Provider.{PaymentResponse}
use gateway_orchestrator.Domain.Records.{PaymentOperation}
use gateway_orchestrator.Domain.Transitions.{Evolves, still, then_to}
use gateway_orchestrator.Repositories.Operations
use gateway_orchestrator.Payments.Stored.{
  take_reference, errored_operation, failed_operation, succeeded_operation,
}

-- `q` is `p` or what a stored operation may make of it: the status has moved along accepted
-- transitions, a reference is not lost, and only these and the time of the update have changed.
pub record Later (p q : Payment) : Type 0 where
  pub id : q.id ≡ p.id
  pub status : Evolves p.status q.status
  pub referenced : truthy p.provider_reference ≡ true → truthy q.provider_reference ≡ true
  pub amount : q.amount ≡ p.amount
  pub currency : q.currency ≡ p.currency
  pub merchant_identifier : q.merchant_identifier ≡ p.merchant_identifier
  pub idempotency_key : q.idempotency_key ≡ p.idempotency_key
  pub initial_request_hash : q.initial_request_hash ≡ p.initial_request_hash
  pub created_at : q.created_at ≡ p.created_at

pub Later-refl : (p : Payment) → Later p p
Later-refl p = record {
  id = refl;
  status = still;
  referenced = λ h. h;
  amount = refl;
  currency = refl;
  merchant_identifier = refl;
  idempotency_key = refl;
  initial_request_hash = refl;
  created_at = refl;
}

pub Later-stamp : (p q : Payment) (time : ℕ) → Later p q → Later p (record q { updated_at = time })
Later-stamp p q time l = record {
  id = l.id;
  status = l.status;
  referenced = l.referenced;
  amount = l.amount;
  currency = l.currency;
  merchant_identifier = l.merchant_identifier;
  idempotency_key = l.idempotency_key;
  initial_request_hash = l.initial_request_hash;
  created_at = l.created_at;
}

pub Later-status :
    (p q : Payment) (b : PaymentStatus)
    → allowed q.status b ≡ true
    → Later p q
    → Later p (record q { status = b })
Later-status p q b e l = record {
  id = l.id;
  status = then_to l.status e;
  referenced = l.referenced;
  amount = l.amount;
  currency = l.currency;
  merchant_identifier = l.merchant_identifier;
  idempotency_key = l.idempotency_key;
  initial_request_hash = l.initial_request_hash;
  created_at = l.created_at;
}

Later-reference :
    {p q : Payment} (r : Option String)
    → truthy r ≡ true
    → Later p q
    → Later p (record q { provider_reference = r })
Later-reference r e l = record {
  id = l.id;
  status = l.status;
  referenced = λ _. e;
  amount = l.amount;
  currency = l.currency;
  merchant_identifier = l.merchant_identifier;
  idempotency_key = l.idempotency_key;
  initial_request_hash = l.initial_request_hash;
  created_at = l.created_at;
}

pub Later-take_reference :
    (p q : Payment) (response : PaymentResponse) → Later p q → Later p (take_reference q response)
unfolding take_reference
Later-take_reference p q response l =
    elim (Bool-cases (truthy (some response.provider_reference))) [
      | inl e ↦ rw e (Later-reference _ e l)
      | inr e ↦ rw e l
    ]

pub status-take_reference :
    (q : Payment) (response : PaymentResponse) → (take_reference q response).status ≡ q.status
unfolding take_reference
status-take_reference q response = elim (Bool-cases (truthy (some response.provider_reference))) [
  | inl e ↦ rw e refl
  | inr e ↦ rw e refl
]

-- The operation is the same request: its key and its hash are unchanged.
pub record SameRequest (o o' : PaymentOperation) : Type 0 where
  pub key : Operations.key_of o' ≡ Operations.key_of o
  pub hash : o'.request_hash ≡ o.request_hash

module _ (o : PaymentOperation) where
  pub SameRequest-errored : (e : Error) (time : ℕ) → SameRequest o (errored_operation o e time)
  unfolding errored_operation
  SameRequest-errored e time = record { key = refl; hash = refl }

  pub SameRequest-failed :
      (p : Payment) (f : ProviderOperationError) (time : ℕ)
      → SameRequest o (failed_operation o p f time)
  unfolding failed_operation
  SameRequest-failed p f time = record { key = refl; hash = refl }

  pub SameRequest-succeeded :
      (p : Payment) (time : ℕ) → SameRequest o (succeeded_operation o p time)
  unfolding succeeded_operation
  SameRequest-succeeded p time = record { key = refl; hash = refl }
