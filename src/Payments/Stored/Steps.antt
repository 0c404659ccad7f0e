-- ===== src/Payments/Stored/Steps.antt =====
-- What one run of `executeStoredOperation` may write: rules for predicates on the stores.
use gateway_orchestrator.Prelude.{◌≡◌, refl, true, false, some, ℕ, Bool-cases, inl, inr, subst}
use gateway_orchestrator.Prelude.Text.{truthy}
use gateway_orchestrator.Value.{Value}
use gateway_orchestrator.Effect.{
  ProviderOperationError, ◌>>=◌, handling, pure, raise, Error, threw, modify,
}
use gateway_orchestrator.Effect.Rules.{Moves, Moves-handling, Moves-if}
use gateway_orchestrator.Effect.Throws.{KeepsOnThrow, OnThrow-kept, OnThrow-if, OnThrow-bind}
use gateway_orchestrator.Domain.Enums.{PaymentStatus, PaymentOperationType, status_eq}
use gateway_orchestrator.Domain.Payment.{Payment, invalid_transition, allowed}
use gateway_orchestrator.Domain.Provider.{PaymentProvider, PaymentResponse, OperationRequest}
use gateway_orchestrator.Domain.Records.{PaymentOperation}
use gateway_orchestrator.Domain.Transitions.{ensure_transition-allowed, ensure_transition-refused}
use gateway_orchestrator.Runtime.{
  Env, State, new_id, now, create_log, update_payment, assign, update_operation,
}
use gateway_orchestrator.Runtime.Frame.{Kept, Kept-Preorder, OnStores, Kept-now, Kept-outside}
use gateway_orchestrator.Payments.Support.{write_log}
use gateway_orchestrator.Runtime.Frame.{Kept-pure, Kept-raise, Kept-bind}
use gateway_orchestrator.Payments.Support.Frame.{Kept-write_log}
use gateway_orchestrator.Payments.Stored.{
  StoredInput, take_reference, operation_errored, log_attempt, operation_failed,
  operation_succeeded, transition_or_error, apply_operation_result, run_operation, invoke_provider,
  errored_operation, failed_operation, succeeded_operation,
}

id-take_reference :
    (p : Payment) (response : PaymentResponse) → (take_reference p response).id ≡ p.id
unfolding take_reference
id-take_reference p response = elim (Bool-cases (truthy (some response.provider_reference))) [
  | inl e ↦ rw e refl
  | inr e ↦ rw e refl
]

module _ {W : Type 0} (env : Env W) (input : StoredInput) where
  -- The `catch` block throws the error on.
  pub operation_errored_throws :
      {A : Type 0} (o : PaymentOperation) (p : Payment) (request : Value) (t : ℕ) (e : Error)
      (s : State W)
      → (operation_errored env {A = A} input o p request t e s).0 ≡ threw e
  unfolding operation_errored log_attempt write_log ◌>>=◌ new_id now create_log update_operation
      modify raise
  operation_errored_throws o p request t e s = refl

  module _ (o : PaymentOperation) (p : Payment) (request : Value) (response : PaymentResponse)
      (t : ℕ) (s : State W) where
    pub transition_or_error-allowed :
        allowed p.status response.status ≡ true
        → transition_or_error env input o p request response t s
          ≡ operation_succeeded env input o p request response t s
    unfolding transition_or_error ◌>>=◌ handling
    transition_or_error-allowed e = rw (ensure_transition-allowed s p.status response.status e) refl

    -- A refused transition takes the `catch` block.
    pub transition_or_error-refused :
        allowed p.status response.status ≡ false
        → transition_or_error env input o p request response t s ≡ (
          threw (invalid_transition p.status response.status),
          (operation_errored env {A = Payment} input o p request t
              (invalid_transition p.status response.status)
              s).1,
        )
    unfolding transition_or_error ◌>>=◌ handling operation_errored log_attempt write_log new_id now
        create_log update_operation modify raise
    transition_or_error-refused e = rw (ensure_transition-refused s p.status response.status e) refl

    -- After an accepted transition nothing throws.
    pub succeeded_never_throws :
        (error : Error)
        → (operation_succeeded env input o p request response t s).0 ≡ threw error
        → ⊥
    unfolding operation_succeeded ◌>>=◌ log_attempt write_log new_id now create_log update_payment
        update_operation modify pure
    succeeded_never_throws error h = cc

module _ {W : Type 0} (env : Env W) (input : StoredInput) (P : State W → Type 0) (on : OnStores P)
    (o₀ : PaymentOperation) (V : Payment → Type 0)
    (stamps : (q : Payment) (time : ℕ) → V q → V (record q { updated_at = time }))
    (refers : (q : Payment) (response : PaymentResponse) → V q → V (take_reference q response))
    (updates : (q : Payment) → V q → Moves (Kept P) (update_payment q))
    (assigns : (q : Payment) → V q → Moves (Kept P) (assign env q.id q))
    (U : PaymentOperation → Type 0)
    (errs : (e : Error) (time : ℕ) → U (errored_operation o₀ e time))
    (fails : (p : Payment) (f : ProviderOperationError) (time : ℕ)
      → U (failed_operation o₀ p f time))
    (records : (o : PaymentOperation) → U o → Moves (Kept P) (update_operation o)) where
  -- An answer's reference, written to the payment that the repository may share.
  Kept-assign_reference :
      (p : Payment) (response : PaymentResponse)
      → V p
      → Moves (Kept P) (assign env p.id (take_reference p response))
  Kept-assign_reference p response l =
      subst (λ id. Moves (Kept P) (assign env id (take_reference p response)))
        (id-take_reference p response) (assigns _ (refers p response l))

  Kept-log_attempt :
      (p : Payment) (request response : Value) (t : ℕ)
      → Moves (Kept P) (log_attempt env input p request response t)
  unfolding log_attempt
  Kept-log_attempt p request response t = Kept-write_log P on env _ _ _ _ _ _

  Kept-operation_errored :
      {A : Type 0} (p : Payment) (request : Value) (t : ℕ) (e : Error)
      → Moves (Kept P) (operation_errored env {A = A} input o₀ p request t e)
  unfolding operation_errored
  Kept-operation_errored p request t e = Kept-bind P _ _ (Kept-log_attempt p request _ t) λ _.
      Kept-bind P _ _ (Kept-now P on env)
        λ _. Kept-bind P _ _ (records _ (errs e _)) λ _. Kept-raise P e

  Kept-operation_failed :
      (p : Payment) (request : Value) (response : PaymentResponse) (t : ℕ)
      → V p
      → Moves (Kept P) (operation_failed env input o₀ p request response t)
  unfolding operation_failed
  Kept-operation_failed p request response t l = Kept-bind P _ _ (Kept-now P on env) λ time.
      Kept-bind P _ _ (updates _ (stamps _ time l)) λ _.
        Kept-bind P _ _ (Kept-log_attempt _ request _ t) λ _.
          Kept-bind P _ _ (Kept-now P on env)
            λ _. Kept-bind P _ _ (records _ (fails _ _ _)) λ _. Kept-raise P _

  Kept-invoke_provider :
      (type : PaymentOperationType) (provider : PaymentProvider W) (request : OperationRequest)
      → Moves (Kept P) (invoke_provider env type provider request)
  unfolding invoke_provider
  Kept-invoke_provider PaymentOperationType.capture provider request = Kept-outside P on _
  Kept-invoke_provider _ provider request = Kept-outside P on _

  Kept-refused :
      (p : Payment) (request : Value) (response : PaymentResponse) (t : ℕ) (s : State W)
      → allowed p.status response.status ≡ false
      → P s
      → P (transition_or_error env input o₀ p request response t s).1
  Kept-refused p request response t s e h =
      rw (transition_or_error-refused env input o₀ p request response t s e) (
        (Kept-operation_errored p request t (invalid_transition p.status response.status)).along s
          h)

  module _
      (moves : (q : Payment) (b : PaymentStatus)
        → allowed q.status b ≡ true
        → V q
        → V (record q { status = b }))
      (succs : (p : Payment) (time : ℕ) → U (succeeded_operation o₀ p time)) where
    Kept-operation_succeeded :
        (p : Payment) (request : Value) (response : PaymentResponse) (t : ℕ)
        → V p
        → allowed p.status response.status ≡ true
        → Moves (Kept P) (operation_succeeded env input o₀ p request response t)
    unfolding operation_succeeded
    Kept-operation_succeeded p request response t l e = Kept-bind P _ _ (Kept-now P on env) λ time.
        Kept-bind P _ _ (updates _ (stamps _ time (moves p response.status e l))) λ _.
          Kept-bind P _ _ (Kept-log_attempt _ request _ t) λ _.
            Kept-bind P _ _ (Kept-now P on env)
              λ _. Kept-bind P _ _ (records _ (succs _ _)) λ _. Kept-pure P _

    Kept-transition_or_error :
        (p : Payment) (request : Value) (response : PaymentResponse) (t : ℕ)
        → V p
        → Moves (Kept P) (transition_or_error env input o₀ p request response t)
    Kept-transition_or_error p request response t l =
        elim (Bool-cases (allowed p.status response.status)) [
          | inl e ↦ record {
            along = λ s.
                rw (transition_or_error-allowed env input o₀ p request response t s e)
                  ((Kept-operation_succeeded p request response t l e).along s);
          }
          | inr e ↦ record { along = λ s. Kept-refused p request response t s e }
        ]

    Kept-apply_operation_result :
        (p : Payment) (request : Value) (response : PaymentResponse) (t : ℕ)
        → V p
        → Moves (Kept P) (apply_operation_result env input o₀ p request response t)
    unfolding apply_operation_result
    Kept-apply_operation_result p request response t l =
        Kept-bind P _ _ (Kept-assign_reference p response l) λ _.
          Moves-if _ (Kept-Preorder P) (status_eq response.status PaymentStatus.failed) _ _
            (Kept-operation_failed _ request response t (refers p response l))
            (Kept-transition_or_error _ request response t (refers p response l))

    pub Kept-run_operation :
        (p : Payment) (provider : PaymentProvider W)
        → V p
        → Moves (Kept P) (run_operation env input o₀ p provider)
    unfolding run_operation
    Kept-run_operation p provider l = Kept-bind P _ _ (Kept-now P on env) λ t.
        Kept-bind P _ _
          (Moves-handling _ (Kept-Preorder P) _ _ (Kept-invoke_provider input.type provider _)
            λ e. Kept-operation_errored p _ t e)
          λ response. Kept-apply_operation_result p _ response t l

  -- A run that throws writes no new status.
  OnThrow-transition_or_error :
      (p : Payment) (request : Value) (response : PaymentResponse) (t : ℕ)
      → KeepsOnThrow P (transition_or_error env input o₀ p request response t)
  OnThrow-transition_or_error p request response t =
      elim (Bool-cases (allowed p.status response.status)) [
        | inl e ↦ record {
          at_throw = λ s error h q. absurd (
              succeeded_never_throws env input o₀ p request response t s error
                (rw (transition_or_error-allowed env input o₀ p request response t s e) at q));
        }
        | inr e ↦ record { at_throw = λ s error h q. Kept-refused p request response t s e h }
      ]

  pub OnThrow-run_operation :
      (p : Payment) (provider : PaymentProvider W)
      → V p
      → KeepsOnThrow P (run_operation env input o₀ p provider)
  unfolding run_operation apply_operation_result
  OnThrow-run_operation p provider l = OnThrow-bind P _ _ (Kept-now P on env) λ t.
      OnThrow-bind P _ _
        (Moves-handling _ (Kept-Preorder P) _ _ (Kept-invoke_provider input.type provider _)
          λ e. Kept-operation_errored p _ t e)
        λ response. OnThrow-bind P _ _ (Kept-assign_reference p response l) λ _.
          OnThrow-if P (status_eq response.status PaymentStatus.failed) _ _
            (OnThrow-kept P _ (Kept-operation_failed _ _ response t (refers p response l)))
            (OnThrow-transition_or_error _ _ response t)
