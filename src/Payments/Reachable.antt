-- ===== src/Payments/Reachable.antt =====
-- The states that the methods of the payment service lead to, in any order and with any arguments.
use gateway_orchestrator.Prelude.{◌≡◌, String, some, none, [], get}
use gateway_orchestrator.Domain.Payment.{Payment}
use gateway_orchestrator.Domain.Records.{Headers}
use gateway_orchestrator.Runtime.{Env, State}
use gateway_orchestrator.Runtime.Frame.{PaymentAt}
use gateway_orchestrator.Runtime.Keyed.{Keyed}
use gateway_orchestrator.Payments.Input.{CreatePaymentInput, Flow}
use gateway_orchestrator.Payments.Initial.{execute_initial_flow}
use gateway_orchestrator.Payments.Stored.{StoredInput, execute_stored_operation}
use gateway_orchestrator.Payments.Stored.Later.{Later}
use gateway_orchestrator.Payments.Stored.Status.{execute-Later}
use gateway_orchestrator.Payments.Lookup.{lookup_provider_status}
use gateway_orchestrator.Payments.Webhook.{Delivery, handle_webhook}
use gateway_orchestrator.Payments.Webhook.Terms.{
  handle_webhook-Keyed, handle_webhook-SameTerms, SameTerms,
}
use gateway_orchestrator.Payments.Keyed.{
  execute_initial_flow-Keyed, execute_stored_operation-Keyed, lookup_provider_status-Keyed,
}

-- One call of a method that writes.
pub data Call {W : Type 0} (env : Env W) (s : State W) : State W → Type 0 where
  initial :
      (flow : Flow) (input : CreatePaymentInput) (headers : Headers)
      → Call env s (execute_initial_flow env flow input headers s).1
  stored : (input : StoredInput) → Call env s (execute_stored_operation env input s).1
  webhook : (delivery : Delivery) → Call env s (handle_webhook env delivery s).1
  lookup :
      (id : String) (headers : Headers) → Call env s (lookup_provider_status env id headers s).1

-- Some calls, one after another.
pub data Reaches {W : Type 0} (env : Env W) (s : State W) : State W → Type 0 where
  here : Reaches env s s
  call : {t u : State W} → Reaches env s t → Call env t u → Reaches env s u

module _ {W : Type 0} (env : Env W) where
  Call-Keyed : {s t : State W} → Call env s t → Keyed s → Keyed t
  Call-Keyed {s} (Call.initial flow input headers) h =
      (execute_initial_flow-Keyed env flow input headers).along s h
  Call-Keyed {s} (Call.stored input) h = (execute_stored_operation-Keyed env input).along s h
  Call-Keyed {s} (Call.webhook delivery) h = (handle_webhook-Keyed env delivery).along s h
  Call-Keyed {s} (Call.lookup id headers) h =
      (lookup_provider_status-Keyed env id headers).along s h

  -- Calls of the service, however many and in whatever order, keep each payment of the store under
  -- its own identifier, if they start from a store where it is, such as an empty one.
  Reaches-Keyed : {s t : State W} → Keyed s → Reaches env s t → Keyed t
  Reaches-Keyed h here = h
  Reaches-Keyed h (call r c) = Call-Keyed c (Reaches-Keyed h r)

  nothing_stored : {p : Payment} → none ≡ some p → ⊥
  nothing_stored h = cc

  empty-Keyed : (s : State W) → s.payments ≡ [] → Keyed s
  unfolding get
  empty-Keyed s e k p found = absurd (nothing_stored (rw e at found))

  -- In every state that calls of the service lead to from an empty store, a capture, refund or void
  -- keeps each payment: its status moves along accepted transitions only, and its amount, currency,
  -- merchant, keys and creation time are what they were.
  pub reached-Later :
      {s t : State W}
      → s.payments ≡ []
      → Reaches env s t
      → (input : StoredInput) (id : String) (p : Payment) → get t.payments id ≡ some p
      → PaymentAt id (Later p) (execute_stored_operation env input t).1
  reached-Later {s} {t} e r input id p found =
      execute-Later env input t (Reaches-Keyed (empty-Keyed s e) r input.payment_id) id p found

  -- In every such state, a delivery of a webhook removes no payment and changes none of its terms:
  -- provider, amount, currency, merchant, keys, checkout address and creation time.
  pub reached-SameTerms :
      {s t : State W}
      → s.payments ≡ []
      → Reaches env s t
      → (delivery : Delivery) (id : String) (p : Payment) → get t.payments id ≡ some p
      → PaymentAt id (SameTerms p) (handle_webhook env delivery t).1
  reached-SameTerms {s} {t} e r delivery id p found =
      handle_webhook-SameTerms env delivery id p t (Reaches-Keyed (empty-Keyed s e) r) found
