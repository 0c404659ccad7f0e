-- ===== src/Payments/Webhook/Terms.antt =====
-- The terms of a payment, and the operations, under `handleWebhook`.
use gateway_orchestrator.Prelude.{
  coalesce, Bool, true, false, if◌then◌else◌, ◌≡◌, refl, sym, ◌∙◌, String, Option, none, some, ℕ,
  get, subst,
}
use gateway_orchestrator.Prelude.Text.{truthy}
use gateway_orchestrator.Effect.{modify}
use gateway_orchestrator.Effect.Rules.{Moves}
use gateway_orchestrator.Domain.Enums.{PaymentStatus}
use gateway_orchestrator.Domain.Payment.{Payment}
use gateway_orchestrator.Domain.Records.{WebhookEvent}
use gateway_orchestrator.Runtime.{
  Env, State, update_payment, create_webhook_event, update_webhook_event,
}
use gateway_orchestrator.Runtime.Frame.{
  Kept, OnStores, PaymentAt, OnStores-PaymentAt, PaymentAt-update,
}
use gateway_orchestrator.Runtime.Keyed.{Keyed, OnStores-Keyed, Keyed-update}
use gateway_orchestrator.Payments.Webhook.{Delivery, apply_event, handle_webhook}
use gateway_orchestrator.Payments.Webhook.Frame.{Kept-handle_webhook}

-- What was agreed on when the payment was created.
pub record SameTerms (p q : Payment) : Type 0 where
  pub provider : q.provider ≡ p.provider
  pub amount : q.amount ≡ p.amount
  pub currency : q.currency ≡ p.currency
  pub merchant_identifier : q.merchant_identifier ≡ p.merchant_identifier
  pub idempotency_key : q.idempotency_key ≡ p.idempotency_key
  pub initial_request_hash : q.initial_request_hash ≡ p.initial_request_hash
  pub checkout_url : q.checkout_url ≡ p.checkout_url
  pub created_at : q.created_at ≡ p.created_at

same_terms : (p : Payment) → SameTerms p p
same_terms p = record {
  provider = refl;
  amount = refl;
  currency = refl;
  merchant_identifier = refl;
  idempotency_key = refl;
  initial_request_hash = refl;
  checkout_url = refl;
  created_at = refl;
}

module _ (p q : Payment) (terms : SameTerms p q) where
  SameTerms-reference : (r : Option String) → SameTerms p (record q { provider_reference = r })
  SameTerms-reference r = record {
    provider = terms.provider;
    amount = terms.amount;
    currency = terms.currency;
    merchant_identifier = terms.merchant_identifier;
    idempotency_key = terms.idempotency_key;
    initial_request_hash = terms.initial_request_hash;
    checkout_url = terms.checkout_url;
    created_at = terms.created_at;
  }

  SameTerms-stamp :
      (status : PaymentStatus) (time : ℕ)
      → SameTerms p (record q { status = status; updated_at = time })
  SameTerms-stamp status time = record {
    provider = terms.provider;
    amount = terms.amount;
    currency = terms.currency;
    merchant_identifier = terms.merchant_identifier;
    idempotency_key = terms.idempotency_key;
    initial_request_hash = terms.initial_request_hash;
    checkout_url = terms.checkout_url;
    created_at = terms.created_at;
  }

-- `apply_event` on the event's parts.
abbrev with_event : Payment → Bool → Option String → Option PaymentStatus → Payment
with_event q b reference status =
    let referenced = if b then record q { provider_reference = reference } else q in
    elim status [ none ↦ referenced | some x ↦ record referenced { status = x } ]

module _ (p : Payment) where
  SameTerms-with_event :
      (q : Payment) (b : Bool) (reference : Option String) (status : Option PaymentStatus)
      (time : ℕ)
      → SameTerms p q
      → SameTerms p (record (with_event q b reference status) { updated_at = time })
  SameTerms-with_event q true r none time terms =
      SameTerms-stamp p _ (SameTerms-reference p q terms r) q.status time
  SameTerms-with_event q true r (some x) time terms =
      SameTerms-stamp p _ (SameTerms-reference p q terms r) x time
  SameTerms-with_event q false r none time terms = SameTerms-stamp p q terms q.status time
  SameTerms-with_event q false r (some x) time terms = SameTerms-stamp p q terms x time

  SameTerms-apply_event :
      (q : Payment) (event : WebhookEvent) (time : ℕ)
      → SameTerms p q
      → SameTerms p (record (apply_event q event) { updated_at = time })
  unfolding apply_event
  SameTerms-apply_event q event time terms =
      SameTerms-with_event q (truthy event.provider_reference) event.provider_reference event.status
        time terms

id-with_event :
    (q : Payment) (b : Bool) (reference : Option String) (status : Option PaymentStatus)
    → (with_event q b reference status).id ≡ q.id
id-with_event q true r none = refl
id-with_event q true r (some x) = refl
id-with_event q false r none = refl
id-with_event q false r (some x) = refl

pub id-apply_event : (q : Payment) (event : WebhookEvent) → (apply_event q event).id ≡ q.id
unfolding apply_event
id-apply_event q event =
    id-with_event q (truthy event.provider_reference) event.provider_reference event.status

status-with_event :
    (q : Payment) (b : Bool) (reference : Option String) (status : Option PaymentStatus)
    → (with_event q b reference status).status ≡ coalesce status q.status
status-with_event q true r none = refl
status-with_event q true r (some x) = refl
status-with_event q false r none = refl
status-with_event q false r (some x) = refl

pub status-apply_event :
    (q : Payment) (event : WebhookEvent)
    → (apply_event q event).status ≡ coalesce event.status q.status
unfolding apply_event
status-apply_event q event =
    status-with_event q (truthy event.provider_reference) event.provider_reference event.status

module _ {W : Type 0} (env : Env W) (delivery : Delivery) where
  -- A delivery, whatever becomes of it, leaves each payment of the store under its own identifier.
  pub handle_webhook-Keyed : Moves (Kept Keyed) (handle_webhook env delivery)
  unfolding create_webhook_event update_webhook_event modify
  handle_webhook-Keyed =
      Kept-handle_webhook env delivery Keyed OnStores-Keyed (λ _. Unit) (λ _ _ _ _ _. tt)
        (λ _ _ _ _. Keyed-update _) (λ r. record { along = λ s h. h })
        (λ r. record { along = λ s h. h })

  -- A delivery never writes an operation.
  handle_webhook-operations :
      (s : State W) → (handle_webhook env delivery s).1.operations ≡ s.operations
  unfolding create_webhook_event update_webhook_event update_payment modify
  handle_webhook-operations s =
      (Kept-handle_webhook env delivery (λ t. t.operations ≡ s.operations)
          (record { same = λ t u e h. sym e.operations ∙ h }) (λ _. Unit) (λ _ _ _ _ _. tt)
          (λ _ _ _ _. record { along = λ t h. h }) (λ r. record { along = λ t h. h })
          (λ r. record { along = λ t h. h })).along
        s refl

  module _ (id : String) (p₀ : Payment) where
    -- The store is keyed, and holds `p₀` as it is or as deliveries have changed it.
    Stays : State W → Type 0
    Stays s = Keyed s × PaymentAt id (SameTerms p₀) s

    OnStores-Stays : OnStores Stays
    unfolding Stays
    OnStores-Stays = record {
      same = λ s t e h.
          (OnStores-Keyed.same s t e h.0, (OnStores-PaymentAt id (SameTerms p₀)).same s t e h.1);
    }

    found_same : {a b : Payment} → some a ≡ some b → a ≡ b
    found_same h = cc

    finds_terms :
        (s : State W) (ref : String) (p : Payment)
        → Stays s
        → get s.payments ref ≡ some p
        → p.id ≡ id
        → SameTerms p₀ p
    unfolding Stays
    finds_terms s ref p (keyed, (q, found, terms)) found' e =
        subst (SameTerms p₀)
          (found_same (
            sym found
            ∙ subst (λ k. get s.payments k ≡ some p) (sym (keyed ref p found') ∙ e) found'))
          terms

    writes_terms :
        (p : Payment) (event : WebhookEvent) (time : ℕ)
        → (p.id ≡ id → SameTerms p₀ p)
        → Moves (Kept Stays) (update_payment (record (apply_event p event) { updated_at = time }))
    unfolding Stays
    writes_terms p event time v = record {
      along = λ s h. (
        (Keyed-update _).along s h.0,
        (PaymentAt-update id (SameTerms p₀) _ (λ e.
              SameTerms-apply_event p₀ p event time (v (sym (id-apply_event p event) ∙ e)))).along
            s h.1,
      );
    }

    -- A delivery, whatever becomes of it, removes no payment, and leaves each with the provider,
    -- amount, currency, merchant, keys, checkout address and creation time that it had, in a store
    -- that holds the payments under their own identifiers.
    pub handle_webhook-SameTerms :
        (s : State W)
        → Keyed s
        → get s.payments id ≡ some p₀
        → PaymentAt id (SameTerms p₀) (handle_webhook env delivery s).1
    unfolding Stays create_webhook_event update_webhook_event modify
    handle_webhook-SameTerms s keyed found =
        ((Kept-handle_webhook env delivery Stays OnStores-Stays (λ p. p.id ≡ id → SameTerms p₀ p)
            finds_terms writes_terms (λ r. record { along = λ t h. h })
            (λ r. record { along = λ t h. h })).along
          s (keyed, (p₀, found, same_terms p₀))).1
