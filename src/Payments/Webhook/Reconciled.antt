-- ===== src/Payments/Webhook/Reconciled.antt =====
-- The branch of `handleWebhook` for an event that is new and names a stored payment, redelivery,
-- and another try after a failure.
use gateway_orchestrator.Prelude.{
  ◌≡◌, ◌≢◌, refl, ap, sym, ◌∙◌, String, true, Option, none, some, ℕ, get, get-put_at, ◌+◌, coalesce,
}
use gateway_orchestrator.Prelude.Text.{truthy}
use gateway_orchestrator.Effect.{◌>>=◌, follow, Outcome, returned, pure, gets, modify}
use gateway_orchestrator.Domain.Enums.{WebhookEventState}
use gateway_orchestrator.Domain.Payment.{Payment}
use gateway_orchestrator.Domain.Provider.{ProviderEntry}
use gateway_orchestrator.Domain.Records.{WebhookEvent, WebhookEventRecord}
use gateway_orchestrator.Repositories.Payments
use gateway_orchestrator.Repositories.WebhookEvents
use gateway_orchestrator.Runtime.{
  Env, State, new_id, now, outside, update_payment, create_log, create_webhook_event,
  update_webhook_event,
}
use gateway_orchestrator.Runtime.Frame.{SameStores}
use gateway_orchestrator.Payments.Input.{hash_text}
use gateway_orchestrator.Payments.Support.{create_webhook_dedupe_key, write_log}
use gateway_orchestrator.Payments.Webhook.{
  Delivery, new_webhook_record, provider_payload, apply_event, is_settled, restarted_record,
  restart_and_process, start_webhook_record, reconcile, reconcile_or_fail, find_and_reconcile,
  process_event, dedupe_and_process, accept_delivery, verify_and_accept, handle_webhook,
}
use gateway_orchestrator.Payments.Webhook.Terms.{id-apply_event, status-apply_event}
use gateway_orchestrator.Payments.Webhook.Deliveries.{provider_in, verified, duplicate-same}

succeeded_not_failed : WebhookEventState.succeeded ≢ WebhookEventState.failed
succeeded_not_failed e = cc

module _ {W : Type 0} (env : Env W) (delivery : Delivery) where
  -- The key of an event of this delivery.
  abbrev pub key_of_event : Option WebhookEvent → String
  key_of_event event =
      create_webhook_dedupe_key delivery.provider_name event (hash_text env delivery.raw_payload)

  -- What a delivery leaves that has told of the payment `p`.
  pub record Settled (event : WebhookEvent) (p : Payment) (x : Outcome (Unit {0}) × State W)
      : Type 0 where
    pub returns : x.0 ≡ returned tt
    pub stored : Payment
    pub at_id : get x.1.payments p.id ≡ some stored
    pub status : stored.status ≡ coalesce event.status p.status
    pub recorded : WebhookEventRecord
    pub at_key : get x.1.webhook_events (key_of_event (some event)) ≡ some recorded
    pub succeeded : recorded.state ≡ WebhookEventState.succeeded
    pub payment_id : recorded.payment_id ≡ some p.id

  module _ (event : WebhookEvent) (p : Payment) (r : WebhookEventRecord) (at : ℕ)
      (t : State W) where
    reconcile-Settled :
        r.dedupe_key ≡ key_of_event (some event)
        → Settled event p (reconcile env delivery (key_of_event (some event)) at r event p t)
    unfolding reconcile ◌>>=◌ follow now update_payment write_log new_id create_log
        update_webhook_event modify Payments.update WebhookEvents.update
    reconcile-Settled keyed = record {
      returns = refl;
      stored = record (apply_event p event) { updated_at = env.clock t.ticks };
      at_id = get-put_at _ _ _ _ (id-apply_event p event);
      status = status-apply_event p event;
      recorded = record r {
        payment_id = some (apply_event p event).id;
        resulting_payment_status = some (apply_event p event).status;
        state = WebhookEventState.succeeded;
        updated_at = env.clock (t.ticks + 1 + 1 + 1);
      };
      at_key = get-put_at _ _ _ _ keyed;
      succeeded = refl;
      payment_id = ap some (id-apply_event p event);
    }

  module _ (entry : ProviderEntry W) (s : State W)
      (provided : env.providers delivery.provider_name ≡ some entry)
      (signed : (provider_in entry).verify_webhook_signature delivery.raw_payload delivery.signature
        ≡ true)
      (event : WebhookEvent) where
    -- A delivery that is verified and new, of an event that names a stored payment, returns: the
    -- payment has the status that the event tells, whether or not the transition table allows it,
    -- or its own if the event tells none, and the record of the event has succeeded for that
    -- payment.
    pub delivered-Settled :
        (w : W) (p : Payment)
        → (provider_in entry).handle_webhook (provider_payload delivery) s.remote
          ≡ (returned (some event), w)
        → get s.webhook_events (key_of_event (some event)) ≡ none
        → truthy event.merchant_reference ≡ true
        → get s.payments (coalesce event.merchant_reference "") ≡ some p
        → Settled event p (handle_webhook env delivery s)
    unfolding verify_and_accept accept_delivery ◌>>=◌ outside gets follow dedupe_and_process
        start_webhook_record new_webhook_record new_id now create_webhook_event modify pure
        process_event find_and_reconcile WebhookEvents.find_by_dedupe_key Payments.find_by_id
        reconcile_or_fail
    delivered-Settled w p answered new named found =
        rw (verified env delivery entry s provided, signed, answered, new, named, found)
          (reconcile-Settled event p _ (env.clock s.ticks) _ refl)

    -- Such a delivery, delivered again, changes no payment, no operation and no record, if the
    -- provider reads the same event from the same payload.
    pub redelivered-same :
        (w w' : W) (p : Payment)
        → (provider_in entry).handle_webhook (provider_payload delivery) s.remote
          ≡ (returned (some event), w)
        → get s.webhook_events (key_of_event (some event)) ≡ none
        → truthy event.merchant_reference ≡ true
        → get s.payments (coalesce event.merchant_reference "") ≡ some p
        → (provider_in entry).handle_webhook
            (provider_payload delivery)
            (handle_webhook env delivery s).1.remote
          ≡ (returned (some event), w')
        → ((handle_webhook env delivery (handle_webhook env delivery s).1).0 ≡ returned tt)
          × SameStores
              (handle_webhook env delivery s).1
              (handle_webhook env delivery (handle_webhook env delivery s).1).1
    redelivered-same w w' p answered new named found again =
        let settled = delivered-Settled w p answered new named found in
        let same =
          duplicate-same env delivery entry (handle_webhook env delivery s).1 provided (some event)
            w' settled.recorded signed again settled.at_key
            (λ e. succeeded_not_failed (sym settled.succeeded ∙ e)) in
        rw same (refl, record { payments = refl; operations = refl; webhook_events = refl })

    -- A delivery that the provider in the registry verifies, of an event that names a stored
    -- payment and whose record, under its own key, has failed, is processed again: it returns, the
    -- payment has the status that the event tells, or its own if it tells none, and the record has
    -- succeeded for that payment.
    pub retried-Settled :
        (w : W) (p : Payment) (r : WebhookEventRecord)
        → (provider_in entry).handle_webhook (provider_payload delivery) s.remote
          ≡ (returned (some event), w)
        → get s.webhook_events (key_of_event (some event)) ≡ some r
        → r.dedupe_key ≡ key_of_event (some event)
        → r.state ≡ WebhookEventState.failed
        → truthy event.merchant_reference ≡ true
        → get s.payments (coalesce event.merchant_reference "") ≡ some p
        → Settled event p (handle_webhook env delivery s)
    unfolding verify_and_accept accept_delivery ◌>>=◌ outside gets follow dedupe_and_process
        is_settled restart_and_process restarted_record now update_webhook_event modify
        process_event find_and_reconcile WebhookEvents.find_by_dedupe_key Payments.find_by_id
        reconcile_or_fail
    retried-Settled w p r answered recorded keyed failed named found =
        rw
          (verified env delivery entry s provided, signed, answered, recorded, failed, named, found)
          (reconcile-Settled event p (restarted_record delivery _ (some event) r _)
            (env.clock s.ticks) _ keyed)
