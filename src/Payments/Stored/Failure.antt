-- ===== src/Payments/Stored/Failure.antt =====
-- The runs of `executeStoredOperation` that throw, and what a retry finds of them.
use gateway_orchestrator.Prelude.{
  ◌≡◌, refl, sym, ap, ◌∙◌, subst, ◌≢◌, String, true, some, Option-cases, Bool-cases, inl, inr, get,
  get-put_self, eq_refl, ℕ,
}
use gateway_orchestrator.Prelude.Text.{truthy}
use gateway_orchestrator.Effect.{◌>>=◌, Error, ProviderOperationError, threw, modify, raise}
use gateway_orchestrator.Effect.Throws.{KeepsOnThrow}
use gateway_orchestrator.Domain.Enums.{PaymentOperationState}
use gateway_orchestrator.Domain.Payment.{Payment}
use gateway_orchestrator.Domain.Records.{PaymentOperation}
use gateway_orchestrator.Repositories.Operations
use gateway_orchestrator.Runtime.{Env, State, new_id, now, create_operation}
use gateway_orchestrator.Runtime.Frame.{
  OperationAt, OnStores-OperationAt, OperationAt-update, OperationAt-update_payment,
  OperationAt-assign,
}
use gateway_orchestrator.Payments.Stored.{
  StoredInput, stored_hash, effective_key, perform_operation, start_operation, replay_operation,
  replay_or_start_operation, execute_stored_operation, new_operation, errored_operation,
  failed_operation, in_progress, previous_failure,
}
use gateway_orchestrator.Payments.Stored.Later.{
  Later, Later-refl, Later-stamp, Later-take_reference,
}
use gateway_orchestrator.Payments.Stored.Steps.{OnThrow-run_operation}
use gateway_orchestrator.Payments.Stored.Retry.{
  request_key, recorded-same, execute_found, execute_missing, execute_unreferenced, execute_starts,
  start-HasPayment, HasPayment,
}
use gateway_orchestrator.Payments.Stored.Status.{OnThrow-perform}

module _ {W : Type 0} (env : Env W) (input : StoredInput) where
  -- An operation of this request, which has not succeeded.
  record Unfinished (key : String) (o : PaymentOperation) : Type 0 where
    at_key : Operations.key_of o ≡ key
    hash : o.request_hash ≡ stored_hash env input
    state : o.state ≢ PaymentOperationState.succeeded

  Unfinished-errored :
      (key : String) (o : PaymentOperation)
      → Unfinished key o
      → (e : Error) (time : ℕ) → Unfinished key (errored_operation o e time)
  unfolding errored_operation
  Unfinished-errored key o u e time = record { at_key = u.at_key; hash = u.hash; state = λ h. cc }

  Unfinished-failed :
      (key : String) (o : PaymentOperation)
      → Unfinished key o
      → (p : Payment) (f : ProviderOperationError) (time : ℕ)
      → Unfinished key (failed_operation o p f time)
  unfolding failed_operation
  Unfinished-failed key o u p f time = record { at_key = u.at_key; hash = u.hash; state = λ h. cc }

  module _ (p : Payment) where
    abbrev IsUnfinished : State W → Type 0
    IsUnfinished =
        OperationAt (request_key env input p.id) (Unfinished (request_key env input p.id))

    OnThrow-perform-Unfinished :
        (o : PaymentOperation)
        → Unfinished (request_key env input p.id) o
        → KeepsOnThrow IsUnfinished (perform_operation env input o p)
    OnThrow-perform-Unfinished o u =
        OnThrow-perform env input p IsUnfinished (OnStores-OperationAt _ _) o λ provider.
          OnThrow-run_operation env input IsUnfinished (OnStores-OperationAt _ _) o (Later p)
            (Later-stamp p) (Later-take_reference p) (λ q _. OperationAt-update_payment _ _ q)
            (λ q _. OperationAt-assign _ _ env q) (Unfinished (request_key env input p.id))
            (Unfinished-errored _ o u) (Unfinished-failed _ o u)
            (λ o' u'. OperationAt-update _ _ o' u'.at_key u') p provider (Later-refl p)

    start-IsUnfinished :
        (s : State W) (e : Error)
        → (start_operation env input p (stored_hash env input) (effective_key env input) s).0
          ≡ threw e
        → IsUnfinished
            (start_operation env input p (stored_hash env input) (effective_key env input) s).1
    unfolding start_operation new_operation ◌>>=◌ new_id now create_operation modify
        Operations.create
    start-IsUnfinished s e h =
        (OnThrow-perform-Unfinished _ (fresh _ _ _)).at_throw _ e
          (_, get-put_self s.operations _ _, fresh _ _ _) h
      where
        fresh :
            (id : String) (created_at updated_at : ℕ)
            → Unfinished (request_key env input p.id) (
                new_operation p input
                  (stored_hash env input)
                  (effective_key env input)
                  id
                  created_at
                  updated_at)
        fresh id created_at updated_at = record { at_key = refl; hash = refl; state = λ h. cc }

  replay_throws :
      (p : Payment) (key : String) (o : PaymentOperation) (t : State W)
      (state : PaymentOperationState)
      → o.state ≡ state
      → state ≢ PaymentOperationState.succeeded
      → o.request_hash ≡ stored_hash env input
      → (e : Error) × (replay_operation env input p (stored_hash env input) key o t ≡ (threw e, t))
  unfolding replay_operation raise
  replay_throws p key o t PaymentOperationState.started e u hash =
      (in_progress p input.type key, simp (hash, eq_refl, e))
  replay_throws p key o t PaymentOperationState.failed e u hash =
      (previous_failure p input.type key o, simp (hash, eq_refl, e))
  replay_throws p key o t PaymentOperationState.succeeded e u hash = absurd (u refl)

  -- What a retry answers.
  abbrev pub ThrowsAgain : State W → Type 0
  ThrowsAgain t = (e : Error) × (execute_stored_operation env input t ≡ (threw e, t))

  again_of_start :
      (p : Payment) (t : State W)
      → truthy p.provider_reference ≡ true
      → HasPayment env input p t
      → IsUnfinished p t
      → ThrowsAgain t
  unfolding replay_or_start_operation
  again_of_start p t e (q, found, later) (o, recorded, u) =
      let (error, throws) =
        replay_throws q (effective_key env input) o t o.state refl u.state u.hash in
      (
        error,
        rw (execute_found env input q t found (later.referenced e)) (
            rw
              (subst (λ id. get t.operations (request_key env input id) ≡ some o) (sym later.id)
                recorded)
              throws),
      )

  again_of_same :
      (s : State W) (e : Error)
      → (execute_stored_operation env input s).1 ≡ s
      → (execute_stored_operation env input s).0 ≡ threw e
      → ThrowsAgain (execute_stored_operation env input s).1
  again_of_same s e same h = (
    e,
    ap (execute_stored_operation env input) same ∙ λ i.
        (h i, (execute_stored_operation env input s).1),
  )

  again_of_found :
      (s : State W) (e : Error) (p : Payment)
      → get s.payments input.payment_id ≡ some p
      → truthy p.provider_reference ≡ true
      → (execute_stored_operation env input s).0 ≡ threw e
      → ThrowsAgain (execute_stored_operation env input s).1
  again_of_found s e p found r h =
      elim (Option-cases (get s.operations (request_key env input p.id))) [
        | inl new ↦
            let starts = execute_starts env input s p found r new in
            rw starts (
              again_of_start p _ r (start-HasPayment env input p s found)
                (start-IsUnfinished p s e (rw starts at h)))
        | inr (o, recorded) ↦ again_of_same s e (recorded-same env input p o s found r recorded) h
      ]

  -- A capture, refund or void that threw throws again when it is run again with the same request and
  -- headers, and the second run changes nothing: neither a failure nor an operation that was left
  -- in progress is ever carried out by a retry.
  pub retry-throws :
      (s : State W) (e : Error)
      → (execute_stored_operation env input s).0 ≡ threw e
      → (e' : Error) × (execute_stored_operation env input (execute_stored_operation env input s).1
          ≡ (threw e', (execute_stored_operation env input s).1))
  retry-throws s e h = elim (Option-cases (get s.payments input.payment_id)) [
    | inl missing ↦ again_of_same s e (execute_missing env input s missing) h
    | inr (p, found) ↦ elim (Bool-cases (truthy p.provider_reference)) [
      | inl r ↦ again_of_found s e p found r h
      | inr r ↦ again_of_same s e (execute_unreferenced env input s p found r) h
    ]
  ]
