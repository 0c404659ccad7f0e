-- ===== src/Payments/Stored/Success.antt =====
-- The runs of `executeStoredOperation` that return a payment.
use gateway_orchestrator.Prelude.{
  ◌≡◌, refl, ap, ◌∙◌, subst, String, true, some, ℕ, Bool-cases, Option-cases, inl, inr, get,
  get-put_self, eq_refl,
}
use gateway_orchestrator.Prelude.Text.{truthy}
use gateway_orchestrator.Value.{Value}
use gateway_orchestrator.Effect.{◌>>=◌, pure, returned, modify}
use gateway_orchestrator.Effect.Post.{
  Ensures, Ensures-raise, Ensures-if, Ensures-bind, Ensures-value,
}
use gateway_orchestrator.Domain.Enums.{PaymentStatus, PaymentOperationState, status_eq}
use gateway_orchestrator.Domain.Payment.{Payment}
use gateway_orchestrator.Domain.Provider.{PaymentProvider, PaymentResponse}
use gateway_orchestrator.Domain.Records.{PaymentOperation}
use gateway_orchestrator.Repositories.Payments
use gateway_orchestrator.Repositories.Operations
use gateway_orchestrator.Runtime.{
  Env, State, new_id, now, create_log, update_payment, update_operation, create_operation,
}
use gateway_orchestrator.Runtime.Frame.{OperationAt}
use gateway_orchestrator.Payments.Support.{write_log}
use gateway_orchestrator.Payments.Stored.{
  StoredInput, stored_hash, effective_key, log_attempt, operation_failed, operation_succeeded,
  transition_or_error, apply_operation_result, run_operation, perform_operation, start_operation,
  succeeded_operation, replay_operation, execute_stored_operation, replay_or_start_operation,
  new_operation,
}
use gateway_orchestrator.Payments.Stored.Retry.{
  request_key, execute_found, execute_starts, execute_missing, execute_unreferenced, recorded-same,
}
use gateway_orchestrator.Payments.Stored.Later.{Later-take_reference, Later-refl, Later}

-- The payment `q` is stored under its identifier, which is that of `p`, and an operation with this
-- key and hash is on record as succeeded.
pub record Done {W : Type 0} (p : Payment) (key hash : String) (q : Payment) (t : State W)
    : Type 0 where
  pub id : q.id ≡ p.id
  pub referenced : truthy p.provider_reference ≡ true → truthy q.provider_reference ≡ true
  pub stored : get t.payments q.id ≡ some q
  pub recorded :
      OperationAt key (λ o. (o.request_hash ≡ hash) × (o.state ≡ PaymentOperationState.succeeded)) t

module _ {W : Type 0} (env : Env W) (input : StoredInput) (o : PaymentOperation) (p : Payment) where
  succeeded-Done :
      (p' : Payment) (request : Value) (response : PaymentResponse) (t : ℕ)
      → Later p p'
      → Ensures
          (Done {W = W} p (Operations.key_of o) o.request_hash)
          (operation_succeeded env input o p' request response t)
  unfolding operation_succeeded succeeded_operation log_attempt write_log ◌>>=◌ new_id now
      create_log update_payment update_operation modify pure Payments.update Operations.update
  succeeded-Done p' request response t l =
      Ensures-value _ _
        (λ s. record p' { status = response.status; updated_at = env.clock s.ticks }) (λ s. refl)
        λ s. record {
          id = l.id;
          referenced = l.referenced;
          stored = get-put_self s.payments _ _;
          recorded = (_, get-put_self s.operations _ _, (refl, refl));
        }

  run-Done :
      (provider : PaymentProvider W)
      → Ensures
          (Done {W = W} p (Operations.key_of o) o.request_hash)
          (run_operation env input o p provider)
  unfolding run_operation apply_operation_result operation_failed transition_or_error
  run-Done provider = Ensures-bind _ _ _ λ t. Ensures-bind _ _ _ λ response. Ensures-bind _ _ _ λ _.
      Ensures-if _ (status_eq response.status PaymentStatus.failed) _ _
        (Ensures-bind _ _ _ λ _. Ensures-bind _ _ _ λ _.
          Ensures-bind _ _ _ λ _. Ensures-bind _ _ _ λ _. Ensures-bind _ _ _ λ _. Ensures-raise _ _)
        (Ensures-bind _ _ _
          λ _. succeeded-Done _ _ response t (Later-take_reference p p response (Later-refl p)))

  perform-Done :
      Ensures
        (Done {W = W} p (Operations.key_of o) o.request_hash)
        (perform_operation env input o p)
  unfolding perform_operation
  perform-Done = Ensures-bind _ _ _ λ _. Ensures-bind _ _ _ run-Done

module _ {W : Type 0} (env : Env W) (input : StoredInput) (s : State W) where
  start-Done :
      (p q : Payment)
      → (start_operation env input p (stored_hash env input) (effective_key env input) s).0
        ≡ returned q
      → Done p
          (request_key env input p.id)
          (stored_hash env input)
          q
          (start_operation env input p (stored_hash env input) (effective_key env input) s).1
  unfolding start_operation new_operation ◌>>=◌ new_id now create_operation modify
  start-Done p q h = (perform-Done env input _ p).at_return _ q h

  replay_Done :
      (p q : Payment) (t : State W)
      → p.id ≡ input.payment_id
      → truthy p.provider_reference ≡ true
      → Done p (request_key env input p.id) (stored_hash env input) q t
      → execute_stored_operation env input t ≡ (returned q, t)
  unfolding replay_or_start_operation replay_operation pure
  replay_Done p q t keyed e d =
      let (o, recorded, (hash, succeeded)) = d.recorded in
      rw
        (execute_found env input q t
          (subst (λ id. get t.payments id ≡ some q) (d.id ∙ keyed) d.stored) (d.referenced e))
        (rw d.id (rw recorded (rw hash (rw (eq_refl (stored_hash env input)) (rw succeeded refl)))))

  retry_of_same :
      (q : Payment)
      → (execute_stored_operation env input s).1 ≡ s
      → (execute_stored_operation env input s).0 ≡ returned q
      → execute_stored_operation env input (execute_stored_operation env input s).1
        ≡ (returned q, (execute_stored_operation env input s).1)
  retry_of_same q e h = ap (execute_stored_operation env input) e ∙ λ i.
      (h i, (execute_stored_operation env input s).1)

  retry_of_found :
      (p q : Payment)
      → get s.payments input.payment_id ≡ some p
      → p.id ≡ input.payment_id
      → truthy p.provider_reference ≡ true
      → (execute_stored_operation env input s).0 ≡ returned q
      → execute_stored_operation env input (execute_stored_operation env input s).1
        ≡ (returned q, (execute_stored_operation env input s).1)
  retry_of_found p q found keyed e h =
      elim (Option-cases (get s.operations (request_key env input p.id))) [
        | inl new ↦
            let starts = execute_starts env input s p found e new in
            rw starts (replay_Done p q _ keyed e (start-Done p q (rw starts at h)))
        | inr (o, recorded) ↦ retry_of_same q (recorded-same env input p o s found e recorded) h
      ]

  -- A capture, refund or void that returned a payment returns the same payment when it is run again
  -- with the same request and headers, and changes nothing, if the payment repository holds each
  -- payment under its own identifier.
  pub retry-returns :
      (q : Payment)
      → ((p : Payment) → get s.payments input.payment_id ≡ some p → p.id ≡ input.payment_id)
      → (execute_stored_operation env input s).0 ≡ returned q
      → execute_stored_operation env input (execute_stored_operation env input s).1
        ≡ (returned q, (execute_stored_operation env input s).1)
  retry-returns q keyed h = elim (Option-cases (get s.payments input.payment_id)) [
    | inl missing ↦ retry_of_same q (execute_missing env input s missing) h
    | inr (p, found) ↦ elim (Bool-cases (truthy p.provider_reference)) [
      | inl e ↦ retry_of_found p q found (keyed p found) e h
      | inr e ↦ retry_of_same q (execute_unreferenced env input s p found e) h
    ]
  ]
