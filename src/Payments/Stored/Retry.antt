-- ===== src/Payments/Stored/Retry.antt =====
-- Retrying `executeStoredOperation`: requests whose operation is on record.
use gateway_orchestrator.Prelude.{
  ◌≡◌, refl, ap, ◌∙◌, String, true, false, none, some, Bool-cases, Option-cases, inl, inr, arith,
  get, get-put_self,
}
use gateway_orchestrator.Prelude.Text.{truthy}
use gateway_orchestrator.Effect.{◌>>=◌, pure, raise, unless, gets, modify}
use gateway_orchestrator.Effect.Rules.{Moves}
use gateway_orchestrator.Domain.Payment.{Payment}
use gateway_orchestrator.Domain.Provider.{PaymentProvider}
use gateway_orchestrator.Domain.Records.{PaymentOperation}
use gateway_orchestrator.Repositories.Payments
use gateway_orchestrator.Repositories.Operations
use gateway_orchestrator.Runtime.{Env, State, new_id, now, create_operation}
use gateway_orchestrator.Runtime.Frame.{
  Kept, PaymentAt, OperationAt, OnStores-PaymentAt, OnStores-OperationAt, PaymentAt-update,
  PaymentAt-assign, PaymentAt-update_operation, OperationAt-update, OperationAt-update_payment,
  OperationAt-assign, OnStores,
}
use gateway_orchestrator.Payments.Support.{get_existing_payment}
use gateway_orchestrator.Runtime.Frame.{Kept-bind}
use gateway_orchestrator.Payments.Support.Frame.{
  Kept-resolve_provider, Kept-get_credential_for_payment,
}
use gateway_orchestrator.Payments.Stored.{
  StoredInput, stored_hash, effective_key, new_operation, replay_operation, run_operation,
  perform_operation, start_operation, replay_or_start_operation, require_reference,
  execute_stored_operation,
}
use gateway_orchestrator.Payments.Stored.Steps.{Kept-run_operation}
use gateway_orchestrator.Payments.Stored.Later.{
  Later, Later-refl, Later-stamp, Later-status, Later-take_reference, SameRequest,
  SameRequest-errored, SameRequest-failed, SameRequest-succeeded,
}

module _ {W : Type 0} (env : Env W) (input : StoredInput) where
  pub replay_operation-same :
      (p : Payment) (hash key : String) (o : PaymentOperation) (s : State W)
      → (replay_operation env input p hash key o s).1 ≡ s
  unfolding replay_operation raise pure
  replay_operation-same p hash key o s = ground arith

  -- The key of the request's operation, for a payment with this identifier.
  abbrev pub request_key : String → String
  request_key id = Operations.operation_key id input.type (effective_key env input)

  pub execute_found :
      (p : Payment) (s : State W)
      → get s.payments input.payment_id ≡ some p
      → truthy p.provider_reference ≡ true
      → execute_stored_operation env input s
        ≡ replay_or_start_operation env input p (get s.operations (request_key p.id)) s
  unfolding execute_stored_operation ◌>>=◌ gets get_existing_payment require_reference unless pure
      Payments.find_by_id Operations.find_by_idempotency_key
  execute_found p s found e = rw (found, e) refl

  -- A request whose operation is on record changes nothing at all, the world outside included.
  pub recorded-same :
      (p : Payment) (o : PaymentOperation) (s : State W)
      → get s.payments input.payment_id ≡ some p
      → truthy p.provider_reference ≡ true
      → get s.operations (request_key p.id) ≡ some o
      → (execute_stored_operation env input s).1 ≡ s
  unfolding replay_or_start_operation
  recorded-same p o s found e recorded =
      rw (execute_found p s found e) (rw recorded (replay_operation-same p _ _ o s))

  module _ (p : Payment) where
    -- What a run leaves behind: a later version of the payment, and the operation on record.
    abbrev pub HasPayment : State W → Type 0
    HasPayment = PaymentAt input.payment_id (Later p)

    abbrev pub HasOperation : State W → Type 0
    HasOperation = OperationAt (request_key p.id) (λ o. o.request_hash ≡ stored_hash env input)

    pub Kept-perform :
        (P : State W → Type 0) (on : OnStores P) (o : PaymentOperation)
        → ((provider : PaymentProvider W) → Moves (Kept P) (run_operation env input o p provider))
        → Moves (Kept P) (perform_operation env input o p)
    unfolding perform_operation
    Kept-perform P on o run =
        Kept-bind P _ _ (Kept-get_credential_for_payment P env p)
          λ c. Kept-bind P _ _ (Kept-resolve_provider P env p.provider c) run

    perform-HasPayment :
        (o : PaymentOperation) → Moves (Kept HasPayment) (perform_operation env input o p)
    perform-HasPayment o = Kept-perform HasPayment (OnStores-PaymentAt _ _) o λ provider.
        Kept-run_operation env input HasPayment (OnStores-PaymentAt _ _) o (Later p) (Later-stamp p)
          (Later-take_reference p) (λ q l. PaymentAt-update _ _ q (λ _. l))
          (λ q l. PaymentAt-assign _ _ q (λ _. l) env) (SameRequest o) (SameRequest-errored o)
          (SameRequest-failed o) (λ o' _. PaymentAt-update_operation _ _ o') (Later-status p)
          (SameRequest-succeeded o) p provider (Later-refl p)

    perform-HasOperation :
        (o : PaymentOperation)
        → Operations.key_of o ≡ request_key p.id
        → o.request_hash ≡ stored_hash env input
        → Moves (Kept HasOperation) (perform_operation env input o p)
    perform-HasOperation o k h = Kept-perform HasOperation (OnStores-OperationAt _ _) o λ provider.
        Kept-run_operation env input HasOperation (OnStores-OperationAt _ _) o (Later p)
          (Later-stamp p) (Later-take_reference p) (λ q l. OperationAt-update_payment _ _ q)
          (λ q l. OperationAt-assign _ _ env q) (SameRequest o) (SameRequest-errored o)
          (SameRequest-failed o) (λ o' r. OperationAt-update _ _ o' (r.key ∙ k) (r.hash ∙ h))
          (Later-status p) (SameRequest-succeeded o) p provider (Later-refl p)

    module _ (s : State W) where
      pub start-HasPayment :
          get s.payments input.payment_id ≡ some p
          → HasPayment
              (start_operation env input p (stored_hash env input) (effective_key env input) s).1
      unfolding start_operation new_operation ◌>>=◌ new_id now create_operation modify
      start-HasPayment found = (perform-HasPayment _).along _ (p, found, Later-refl p)

      pub start-HasOperation :
          HasOperation
            (start_operation env input p (stored_hash env input) (effective_key env input) s).1
      unfolding start_operation new_operation ◌>>=◌ new_id now create_operation modify
          Operations.create
      start-HasOperation =
          (perform-HasOperation _ refl refl).along _ (_, get-put_self s.operations _ _, refl)

module _ {W : Type 0} (env : Env W) (input : StoredInput) (s : State W) where
  retry_of_start :
      (p : Payment)
      → get s.payments input.payment_id ≡ some p
      → truthy p.provider_reference ≡ true
      → (t : State W) → HasPayment env input p t
      → HasOperation env input p t
      → (execute_stored_operation env input t).1 ≡ t
  retry_of_start p found e t (q, found', later) (o, recorded, _) =
      recorded-same env input q o t found' (later.referenced e) (rw later.id recorded)

  pub execute_missing :
      get s.payments input.payment_id ≡ none → (execute_stored_operation env input s).1 ≡ s
  unfolding execute_stored_operation ◌>>=◌ gets get_existing_payment raise Payments.find_by_id
  execute_missing e = rw e refl

  pub execute_unreferenced :
      (p : Payment)
      → get s.payments input.payment_id ≡ some p
      → truthy p.provider_reference ≡ false
      → (execute_stored_operation env input s).1 ≡ s
  unfolding execute_stored_operation ◌>>=◌ gets get_existing_payment require_reference unless pure
      Payments.find_by_id
  execute_unreferenced p found e = rw (found, e) refl

  pub execute_starts :
      (p : Payment)
      → get s.payments input.payment_id ≡ some p
      → truthy p.provider_reference ≡ true
      → get s.operations (request_key env input p.id) ≡ none
      → execute_stored_operation env input s
        ≡ start_operation env input p (stored_hash env input) (effective_key env input) s
  unfolding replay_or_start_operation
  execute_starts p found e new = rw (execute_found env input p s found e) (rw new refl)

  retry_of_same :
      (execute_stored_operation env input s).1 ≡ s
      → (execute_stored_operation env input (execute_stored_operation env input s).1).1
        ≡ (execute_stored_operation env input s).1
  retry_of_same e = ap (λ (t : State W). (execute_stored_operation env input t).1) e

  retry_of_found :
      (p : Payment)
      → get s.payments input.payment_id ≡ some p
      → truthy p.provider_reference ≡ true
      → (execute_stored_operation env input (execute_stored_operation env input s).1).1
        ≡ (execute_stored_operation env input s).1
  retry_of_found p found e = elim (Option-cases (get s.operations (request_key env input p.id))) [
    | inl new ↦ rw (execute_starts p found e new) (
        retry_of_start p found e _ (start-HasPayment env input p s found)
          (start-HasOperation env input p s))
    | inr (o, recorded) ↦ retry_of_same (recorded-same env input p o s found e recorded)
  ]

  -- Running a capture, a refund or a void a second time, with the same request and headers, changes
  -- nothing more, whatever the first run did: no store, no log, and not the world outside, so the
  -- provider is not called again.
  pub retry-same :
      (execute_stored_operation env input (execute_stored_operation env input s).1).1
      ≡ (execute_stored_operation env input s).1
  retry-same = elim (Option-cases (get s.payments input.payment_id)) [
    | inl missing ↦ retry_of_same (execute_missing missing)
    | inr (p, found) ↦ elim (Bool-cases (truthy p.provider_reference)) [
      | inl e ↦ retry_of_found p found e
      | inr e ↦ retry_of_same (execute_unreferenced p found e)
    ]
  ]
