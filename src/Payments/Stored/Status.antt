-- ===== src/Payments/Stored/Status.antt =====
-- The status of a payment under `executeStoredOperation`.
use gateway_orchestrator.Prelude.{
  ◌≡◌, refl, sym, ap, ◌∙◌, subst, String, Option, some, Bool-cases, Option-cases, inl, inr, get,
}
use gateway_orchestrator.Prelude.Text.{truthy}
use gateway_orchestrator.Effect.{◌>>=◌, Error, Outcome, threw, modify}
use gateway_orchestrator.Effect.Throws.{KeepsOnThrow, OnThrow-bind}
use gateway_orchestrator.Domain.Payment.{Payment}
use gateway_orchestrator.Domain.Provider.{PaymentProvider, PaymentResponse}
use gateway_orchestrator.Domain.Records.{PaymentOperation}
use gateway_orchestrator.Runtime.{Env, State, new_id, now, create_operation}
use gateway_orchestrator.Runtime.Frame.{
  PaymentAt, OnStores, OnStores-PaymentAt, PaymentAt-update, PaymentAt-assign,
  PaymentAt-update_operation,
}
use gateway_orchestrator.Payments.Support.Frame.{
  Kept-resolve_provider, Kept-get_credential_for_payment,
}
use gateway_orchestrator.Payments.Stored.{
  StoredInput, stored_hash, effective_key, take_reference, run_operation, perform_operation,
  start_operation, execute_stored_operation,
}
use gateway_orchestrator.Payments.Stored.Later.{
  Later, Later-refl, Later-stamp, Later-status, Later-take_reference, SameRequest,
  SameRequest-errored, SameRequest-failed, SameRequest-succeeded,
}
use gateway_orchestrator.Payments.Stored.Steps.{Kept-run_operation, OnThrow-run_operation}
use gateway_orchestrator.Payments.Stored.Retry.{
  request_key, recorded-same, execute_missing, execute_unreferenced, execute_starts, Kept-perform,
}

-- Two payments found under one identifier are one.
found_same : {o : Option Payment} {p q : Payment} → o ≡ some p → o ≡ some q → p ≡ q
found_same h k = cc

module _ {W : Type 0} (env : Env W) (input : StoredInput) (p : Payment) where
  pub OnThrow-perform :
      (P : State W → Type 0) (on : OnStores P) (o : PaymentOperation)
      → ((provider : PaymentProvider W) → KeepsOnThrow P (run_operation env input o p provider))
      → KeepsOnThrow P (perform_operation env input o p)
  unfolding perform_operation
  OnThrow-perform P on o run =
      OnThrow-bind P _ _ (Kept-get_credential_for_payment P env p)
        λ c. OnThrow-bind P _ _ (Kept-resolve_provider P env p.provider c) run

  module _ (id : String) (p₀ : Payment) (same : p.id ≡ id → p ≡ p₀) where
    moved_on : (q : Payment) → Later p q → q.id ≡ id → Later p₀ q
    moved_on q l e = subst (λ x. Later x q) (same (sym l.id ∙ e)) l

    start-Later :
        (s : State W)
        → get s.payments id ≡ some p₀
        → PaymentAt id
            (Later p₀)
            (start_operation env input p (stored_hash env input) (effective_key env input) s).1
    unfolding start_operation ◌>>=◌ new_id now create_operation modify
    start-Later s found =
        (Kept-perform env input p (PaymentAt id (Later p₀)) (OnStores-PaymentAt _ _) _ λ provider.
            Kept-run_operation env input (PaymentAt id (Later p₀)) (OnStores-PaymentAt _ _) _
              (Later p) (Later-stamp p) (Later-take_reference p)
              (λ q l. PaymentAt-update _ _ q (moved_on q l))
              (λ q l. PaymentAt-assign _ _ q (moved_on q l) env) (SameRequest _)
              (SameRequest-errored _) (SameRequest-failed _)
              (λ o' _. PaymentAt-update_operation _ _ o') (Later-status p) (SameRequest-succeeded _)
              p provider (Later-refl p)).along
          _ (p₀, found, Later-refl p₀)

    -- A version of `p` with the status of `p`.
    abbrev Unmoved : Payment → Type 0
    Unmoved q = (q.id ≡ p.id) × (q.status ≡ p.status)

    status_kept : (q : Payment) → Unmoved q → q.id ≡ id → q.status ≡ p₀.status
    status_kept q u e = u.1 ∙ ap (λ (x : Payment). x.status) (same (sym u.0 ∙ e))

    Unmoved-take_reference :
        (q : Payment) (response : PaymentResponse) → Unmoved q → Unmoved (take_reference q response)
    unfolding take_reference
    Unmoved-take_reference q response u =
        elim (Bool-cases (truthy (some response.provider_reference))) [
          | inl e ↦ rw e u
          | inr e ↦ rw e u
        ]

    start-status :
        (s : State W) (e : Error)
        → get s.payments id ≡ some p₀
        → (start_operation env input p (stored_hash env input) (effective_key env input) s).0
          ≡ threw e
        → PaymentAt id
            (λ q. q.status ≡ p₀.status)
            (start_operation env input p (stored_hash env input) (effective_key env input) s).1
    unfolding start_operation ◌>>=◌ new_id now create_operation modify
    start-status s e found h =
        (OnThrow-perform (PaymentAt id (λ q. q.status ≡ p₀.status)) (OnStores-PaymentAt _ _) _
            λ provider.
              OnThrow-run_operation env input (PaymentAt id (λ q. q.status ≡ p₀.status))
                (OnStores-PaymentAt _ _) _ Unmoved (λ q time u. u) Unmoved-take_reference
                (λ q u. PaymentAt-update _ _ q (status_kept q u))
                (λ q u. PaymentAt-assign _ _ q (status_kept q u) env) (SameRequest _)
                (SameRequest-errored _) (SameRequest-failed _)
                (λ o' _. PaymentAt-update_operation _ _ o') p provider (refl, refl)).at_throw
          _ e (p₀, found, refl) h

module _ {W : Type 0} (env : Env W) (input : StoredInput) (s : State W) where
  -- The payment repository holds the request's payment under its own identifier.
  abbrev pub IsKeyed : Type 0
  IsKeyed = (p : Payment) → get s.payments input.payment_id ≡ some p → p.id ≡ input.payment_id

  found_under :
      (p p₀ : Payment) (id : String)
      → IsKeyed
      → get s.payments input.payment_id ≡ some p
      → get s.payments id ≡ some p₀
      → p.id ≡ id
      → p ≡ p₀
  found_under p p₀ id keyed found found₀ e =
      found_same (subst (λ x. get s.payments x ≡ some p) (sym (keyed p found) ∙ e) found) found₀

  -- What holds of a state that a run leaves as it was, and of one that it started an operation in.
  after_run :
      (Q : Outcome Payment × State W → Type 0)
      → ((r : Outcome Payment × State W) → r.1 ≡ s → Q r)
      → ((p : Payment)
          → get s.payments input.payment_id ≡ some p
          → Q (start_operation env input p (stored_hash env input) (effective_key env input) s))
      → Q (execute_stored_operation env input s)
  after_run Q unchanged started = elim (Option-cases (get s.payments input.payment_id)) [
    | inl missing ↦ unchanged _ (execute_missing env input s missing)
    | inr (p, found) ↦ elim (Bool-cases (truthy p.provider_reference)) [
      | inl e ↦ elim (Option-cases (get s.operations (request_key env input p.id))) [
        | inl new ↦ rw (execute_starts env input s p found e new) (started p found)
        | inr (o, recorded) ↦ unchanged _ (recorded-same env input p o s found e recorded)
      ]
      | inr e ↦ unchanged _ (execute_unreferenced env input s p found e)
    ]
  ]

  -- Whatever a capture, refund or void does, each payment that was stored is still stored: with a
  -- status that accepted transitions lead to, and with the amount, currency, merchant, keys and
  -- creation time that it had. The repository is assumed to hold the request's payment under its
  -- own identifier.
  pub execute-Later :
      IsKeyed
      → (id : String) (p₀ : Payment) → get s.payments id ≡ some p₀
      → PaymentAt id (Later p₀) (execute_stored_operation env input s).1
  execute-Later keyed id p₀ found₀ =
      after_run (λ r. PaymentAt id (Later p₀) r.1)
        (λ r e. (p₀, ap (λ (t : State W). get t.payments id) e ∙ found₀, Later-refl p₀))
        λ p found. start-Later env input p id p₀ (found_under p p₀ id keyed found found₀) s found₀

  -- A capture, refund or void that throws leaves every payment with the status that it had, also
  -- where the repository shares its objects. The repository is assumed to hold the request's
  -- payment under its own identifier.
  pub throw-status :
      IsKeyed
      → (e : Error) → (execute_stored_operation env input s).0 ≡ threw e
      → (id : String) (p₀ : Payment) → get s.payments id ≡ some p₀
      → PaymentAt id (λ q. q.status ≡ p₀.status) (execute_stored_operation env input s).1
  throw-status keyed e h id p₀ found₀ =
      after_run (λ r. r.0 ≡ threw e → PaymentAt id (λ q. q.status ≡ p₀.status) r.1)
        (λ r same _. (p₀, ap (λ (t : State W). get t.payments id) same ∙ found₀, refl))
        (λ p found.
          start-status env input p id p₀ (found_under p p₀ id keyed found found₀) s e found₀)
        h
