-- ===== src/Payments/Keyed.antt =====
-- The form of the payment store under the methods of src/services/payment.service.ts.
use gateway_orchestrator.Prelude.{
  ◌≡◌, refl, String, Option, none, some, List, [], ◌∷◌, ℕ, Bool-cases, inl, inr, subst,
}
use gateway_orchestrator.Prelude.Text.{truthy}
use gateway_orchestrator.Effect.Rules.{Moves, Moves-if}
use gateway_orchestrator.Domain.Payment.{Payment}
use gateway_orchestrator.Domain.Provider.{LookupTransactionRequest, LookupTransactionResult}
use gateway_orchestrator.Domain.Enums.{PaymentProviderName}
use gateway_orchestrator.Domain.Records.{Headers, PaymentOperation}
use gateway_orchestrator.Effect.{Action, modify}
use gateway_orchestrator.Routing.{ProviderCandidate}
use gateway_orchestrator.Routing.Reads.{Kept-resolve_candidates}
use gateway_orchestrator.Runtime.{Env, assign, create_operation, update_operation}
use gateway_orchestrator.Runtime.Frame.{
  Kept, Kept-Preorder, Kept-pure, Kept-raise, Kept-gets, Kept-bind, Kept-unless, Kept-new_id,
  Kept-now, Kept-outside,
}
use gateway_orchestrator.Runtime.Keyed.{
  Keyed, OnStores-Keyed, Keyed-create, Keyed-update, Keyed-assign,
}
use gateway_orchestrator.Payments.Input.{CreatePaymentInput, Flow}
use gateway_orchestrator.Payments.Support.Frame.{
  Kept-ensure_transition, Kept-resolve_provider, Kept-get_credential_for_payment,
  Kept-get_existing_payment, Kept-write_log,
}
use gateway_orchestrator.Payments.Initial.{execute_initial_flow, replay_or_start, start_payment}
use gateway_orchestrator.Payments.Initial.Steps.{Kept-run_candidates}
use gateway_orchestrator.Payments.Stored.{
  StoredInput, execute_stored_operation, replay_or_start_operation, require_reference,
  start_operation,
}
use gateway_orchestrator.Payments.Stored.Steps.{Kept-run_operation}
use gateway_orchestrator.Payments.Stored.Retry.{replay_operation-same, Kept-perform}
use gateway_orchestrator.Payments.Lookup.{
  lookup_provider_status, apply_lookup, check_status, require_lookup, take_payu_reference,
}

id-take_payu_reference :
    (p : Payment) (result : LookupTransactionResult) → (take_payu_reference p result).id ≡ p.id
unfolding take_payu_reference
id-take_payu_reference p result = elim (Bool-cases (truthy result.payu_reference)) [
  | inl e ↦ rw e refl
  | inr e ↦ rw e refl
]

module _ {W : Type 0} (env : Env W) where
  module _ (flow : Flow) (input : CreatePaymentInput) (headers : Headers) where
    Keyed-start :
        (hash : String) (cs : List ProviderCandidate)
        → Moves (Kept (Keyed {W = W})) (start_payment env flow input headers hash cs)
    unfolding start_payment
    Keyed-start hash [] = Kept-raise Keyed _
    Keyed-start hash (c ∷ cs) = Kept-bind Keyed _ _ (Kept-new_id Keyed OnStores-Keyed env) λ _.
        Kept-bind Keyed _ _ (Kept-now Keyed OnStores-Keyed env) λ _.
          Kept-bind Keyed _ _ (Kept-now Keyed OnStores-Keyed env) λ _.
            Kept-bind Keyed _ _ (Keyed-create _) λ _.
              Kept-run_candidates env flow input headers Keyed OnStores-Keyed (λ _. Unit)
                (λ _ _ _. tt) (λ _ _ _ _ _. tt) (λ _ _ _ _. tt) (λ q _. Keyed-update q)
                (λ q _. Keyed-assign env q) (c ∷ cs) _ _ tt

    Keyed-replay_or_start :
        (hash : String) (existing : Option Payment)
        → Moves (Kept (Keyed {W = W})) (replay_or_start env flow input headers hash existing)
    unfolding replay_or_start
    Keyed-replay_or_start hash none =
        Kept-bind Keyed _ _ (Kept-resolve_candidates Keyed _) λ cs. Keyed-start hash cs
    Keyed-replay_or_start hash (some p) =
        Moves-if _ (Kept-Preorder Keyed) _ _ _ (Kept-raise Keyed _) (Kept-pure Keyed p)

    -- Creating a payment, whatever becomes of it, leaves each payment of the store under its own
    -- identifier.
    pub execute_initial_flow-Keyed :
        Moves (Kept (Keyed {W = W})) (execute_initial_flow env flow input headers)
    unfolding execute_initial_flow
    execute_initial_flow-Keyed =
        Kept-bind Keyed _ _ (Kept-gets Keyed _) λ existing. Keyed-replay_or_start _ existing

  module _ (input : StoredInput) where
    Keyed-start_operation :
        (p : Payment) (hash key : String)
        → Moves (Kept (Keyed {W = W})) (start_operation env input p hash key)
    unfolding start_operation create_operation update_operation modify
    Keyed-start_operation p hash key =
        Kept-bind Keyed _ _ (Kept-new_id Keyed OnStores-Keyed env) λ _.
          Kept-bind Keyed _ _ (Kept-now Keyed OnStores-Keyed env) λ _.
            Kept-bind Keyed _ _ (Kept-now Keyed OnStores-Keyed env) λ _.
              Kept-bind Keyed _ _ (record { along = λ s h. h })
                λ _. Kept-perform env input p Keyed OnStores-Keyed _ λ provider.
                  Kept-run_operation env input Keyed OnStores-Keyed _ (λ _. Unit) (λ _ _ _. tt)
                    (λ _ _ _. tt) (λ q _. Keyed-update q) (λ q _. Keyed-assign env q) (λ _. Unit)
                    (λ _ _. tt) (λ _ _ _. tt) (λ o _. record { along = λ s h. h }) (λ _ _ _ _. tt)
                    (λ _ _. tt) p provider tt

    Keyed-replay :
        (p : Payment) (existing : Option PaymentOperation)
        → Moves (Kept (Keyed {W = W})) (replay_or_start_operation env input p existing)
    unfolding replay_or_start_operation
    Keyed-replay p none = Keyed-start_operation p _ _
    Keyed-replay p (some o) = record {
      along = λ s h. rw (replay_operation-same env input p _ _ o s) h;
    }

    -- A capture, refund or void, whatever becomes of it, leaves each payment of the store under its
    -- own identifier.
    pub execute_stored_operation-Keyed :
        Moves (Kept (Keyed {W = W})) (execute_stored_operation env input)
    unfolding execute_stored_operation require_reference
    execute_stored_operation-Keyed = Kept-bind Keyed _ _ (Kept-get_existing_payment Keyed _) λ p.
        Kept-bind Keyed _ _ (Kept-unless Keyed _ _)
          λ _. Kept-bind Keyed _ _ (Kept-gets Keyed _) λ existing. Keyed-replay p existing

  Keyed-require_lookup :
      (name : PaymentProviderName)
      (l : Option (LookupTransactionRequest → Action W LookupTransactionResult))
      → Moves (Kept (Keyed {W = W})) (require_lookup env name l)
  unfolding require_lookup
  Keyed-require_lookup name none = Kept-raise Keyed _
  Keyed-require_lookup name (some l) = Kept-pure Keyed l

  Keyed-assign_reference :
      (p : Payment) (result : LookupTransactionResult)
      → Moves (Kept (Keyed {W = W})) (assign env p.id (take_payu_reference p result))
  Keyed-assign_reference p result =
      subst (λ id. Moves (Kept (Keyed {W = W})) (assign env id (take_payu_reference p result)))
        (id-take_payu_reference p result) (Keyed-assign env (take_payu_reference p result))

  Keyed-apply_lookup :
      (p : Payment) (headers : Headers) (at : ℕ) (result : LookupTransactionResult)
      → Moves (Kept (Keyed {W = W})) (apply_lookup env p headers at result)
  unfolding apply_lookup check_status
  Keyed-apply_lookup p headers at result =
      Kept-bind Keyed _ _ (Keyed-assign_reference p result) λ _.
        Kept-bind Keyed _ _
          (Moves-if _ (Kept-Preorder Keyed) _ _ _ (Kept-pure Keyed tt)
            (Kept-ensure_transition Keyed _ _))
          λ _. Kept-bind Keyed _ _ (Kept-now Keyed OnStores-Keyed env) λ _.
            Kept-bind Keyed _ _ (Keyed-update _) λ _.
              Kept-bind Keyed _ _ (Kept-write_log Keyed OnStores-Keyed env _ _ _ _ _ _)
                λ _. Kept-pure Keyed result

  -- A status lookup, whatever becomes of it, leaves each payment of the store under its own
  -- identifier.
  pub lookup_provider_status-Keyed :
      (id : String) (headers : Headers)
      → Moves (Kept (Keyed {W = W})) (lookup_provider_status env id headers)
  unfolding lookup_provider_status
  lookup_provider_status-Keyed id headers =
      Kept-bind Keyed _ _ (Kept-get_existing_payment Keyed id) λ p.
        Kept-bind Keyed _ _ (Kept-unless Keyed _ _) λ _.
          Kept-bind Keyed _ _ (Kept-get_credential_for_payment Keyed env p) λ c.
            Kept-bind Keyed _ _ (Kept-resolve_provider Keyed env _ c) λ provider.
              Kept-bind Keyed _ _ (Keyed-require_lookup _ _) λ l.
                Kept-bind Keyed _ _ (Kept-now Keyed OnStores-Keyed env) λ at.
                  Kept-bind Keyed _ _ (Kept-outside Keyed OnStores-Keyed _)
                    λ result. Keyed-apply_lookup p headers at result
