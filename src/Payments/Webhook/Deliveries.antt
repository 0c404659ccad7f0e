-- ===== src/Payments/Webhook/Deliveries.antt =====
-- The branches of `handleWebhook` that write no payment.
use gateway_orchestrator.Prelude.{
  ◌≡◌, ◌≢◌, refl, true, false, Option, none, some, get, get-put_self, [], ◌∷◌, ◌+◌,
}
use gateway_orchestrator.Prelude.Text.{template}
use gateway_orchestrator.Effect.{
  ◌>>=◌, follow, recover, Outcome, returned, threw, pure, raise, gets, handling, modify,
  plain_error, message_or,
}
use gateway_orchestrator.Domain.Enums.{provider_text, WebhookEventState}
use gateway_orchestrator.Domain.Provider.{PaymentProvider, ProviderEntry}
use gateway_orchestrator.Domain.Records.{WebhookEvent, WebhookEventRecord}
use gateway_orchestrator.Repositories.WebhookEvents
use gateway_orchestrator.Runtime.{
  Env, State, new_id, now, outside, create_webhook_event, update_webhook_event,
}
use gateway_orchestrator.Payments.Input.{hash_text}
use gateway_orchestrator.Payments.Support.{
  provider_of_entry, resolve_provider, create_webhook_dedupe_key,
}
use gateway_orchestrator.Payments.Webhook.{
  Delivery, new_webhook_record, provider_payload, is_settled, start_webhook_record, fail_record,
  reject_delivery, dedupe_and_process, accept_delivery, verify_and_accept, handle_webhook,
}

-- The provider of an entry, without credentials.
abbrev pub provider_in : {W : Type 0} → ProviderEntry W → PaymentProvider W
provider_in (ProviderEntry.instance_of provider) = provider
provider_in (ProviderEntry.factory make) = make none

-- A record that has not failed is in progress, succeeded or ignored, in which the code leaves it alone.
unfailed-is_settled :
    (state : WebhookEventState) → state ≢ WebhookEventState.failed → is_settled state ≡ true
unfolding is_settled
unfailed-is_settled WebhookEventState.started ne = refl
unfailed-is_settled WebhookEventState.succeeded ne = refl
unfailed-is_settled WebhookEventState.ignored ne = refl
unfailed-is_settled WebhookEventState.failed ne = absurd (ne refl)

module _ {W : Type 0} (env : Env W) (delivery : Delivery) where
  resolved :
      (entry : ProviderEntry W) (s : State W)
      → provider_of_entry env delivery.provider_name (some entry) none s
        ≡ (returned (provider_in entry), s)
  unfolding pure provider_of_entry
  resolved (ProviderEntry.instance_of provider) s = refl
  resolved (ProviderEntry.factory make) s = refl

  -- The state once the start of the delivery has been noted.
  abbrev pub noted : State W → State W
  noted s = record s { ticks = s.ticks + 1 }

  pub verified :
      (entry : ProviderEntry W) (s : State W)
      → env.providers delivery.provider_name ≡ some entry
      → handle_webhook env delivery s
        ≡ verify_and_accept env delivery
            (hash_text env delivery.raw_payload)
            (env.clock s.ticks)
            (provider_in entry)
            (noted s)
  unfolding handle_webhook ◌>>=◌ follow now resolve_provider
  verified entry s provided = rw provided (rw (resolved entry _) refl)

  module _ (entry : ProviderEntry W) (s : State W)
      (provided : env.providers delivery.provider_name ≡ some entry) where
    -- A delivery that the provider in the registry verifies and whose event has a record in any
    -- state but FAILED returns, and all that it changes of the state is what the provider did in
    -- reading the payload, and one reading of the clock.
    pub duplicate-same :
        (event : Option WebhookEvent) (w : W) (r : WebhookEventRecord)
        → (provider_in entry).verify_webhook_signature delivery.raw_payload delivery.signature
          ≡ true
        → (provider_in entry).handle_webhook (provider_payload delivery) s.remote
          ≡ (returned event, w)
        → get s.webhook_events (
            create_webhook_dedupe_key delivery.provider_name event
              (hash_text env delivery.raw_payload))
          ≡ some r
        → r.state ≢ WebhookEventState.failed
        → handle_webhook env delivery s ≡ (returned tt, record (noted s) { remote = w })
    unfolding verify_and_accept accept_delivery ◌>>=◌ outside gets follow dedupe_and_process pure
        WebhookEvents.find_by_dedupe_key
    duplicate-same event w r signed answered recorded settled =
        rw
          (
            verified entry s provided,
            signed,
            answered,
            recorded,
            unfailed-is_settled r.state settled,
          )
          refl

    -- What is left of a delivery whose signature does not verify.
    pub record Rejected (x : Outcome (Unit {0}) × State W) : Type 0 where
      pub error :
          x.0
          ≡ threw (
              plain_error (
                template
                  ("Invalid " ∷ provider_text delivery.provider_name ∷ " webhook signature" ∷ [])))
      pub payments : x.1.payments ≡ s.payments
      pub operations : x.1.operations ≡ s.operations
      pub remote : x.1.remote ≡ s.remote
      pub recorded : WebhookEventRecord
      pub at_key :
          get x.1.webhook_events (
            create_webhook_dedupe_key delivery.provider_name none
              (hash_text env delivery.raw_payload))
          ≡ some recorded
      pub failed : recorded.state ≡ WebhookEventState.failed

    -- A delivery whose signature does not verify throws, changes no payment and no operation, asks
    -- nothing of the provider, and is on record as failed under the hash of its payload.
    pub unverified-Rejected :
        (provider_in entry).verify_webhook_signature delivery.raw_payload delivery.signature ≡ false
        → Rejected (handle_webhook env delivery s)
    unfolding verify_and_accept reject_delivery ◌>>=◌ follow start_webhook_record new_webhook_record
        fail_record new_id now create_webhook_event update_webhook_event modify pure raise handling
        recover message_or WebhookEvents.update WebhookEvents.create
    unverified-Rejected unsigned =
        rw (verified entry s provided, unsigned)
          (record {
            error = refl;
            payments = refl;
            operations = refl;
            remote = refl;
            recorded =
                record (new_webhook_record delivery
                  (create_webhook_dedupe_key delivery.provider_name none
                    (hash_text env delivery.raw_payload))
                  (hash_text env delivery.raw_payload) none (env.random_uuid s.ids)
                  (env.clock (s.ticks + 1)) (env.clock (s.ticks + 1 + 1))) {
                    state = WebhookEventState.failed;
                    error_message = some (
                        template (
                          "Invalid "
                          ∷ provider_text delivery.provider_name
                          ∷ " webhook signature"
                          ∷ []));
                    updated_at = env.clock (s.ticks + 1 + 1 + 1 + 1);
                  };
            at_key = get-put_self _ _ _;
            failed = refl;
          })
