-- ===== src/Providers/Simulated.antt =====
-- src/providers/payfast/payfast.provider.ts and src/providers/stitch/stitch.provider.ts, which answer without
-- asking anyone, and their entries in the registry of src/infrastructure/provider-registry.ts.
pub mod Refused
use gateway_orchestrator.Prelude.{String, true, Option, none, some, [], ◌∷◌}
use gateway_orchestrator.Prelude.Text.{template}
use gateway_orchestrator.Value.{Value, obj, field, end, bool, str}
use gateway_orchestrator.Effect.{Action, returned, pure}
use gateway_orchestrator.Domain.Enums.{PaymentProviderName, PaymentStatus}
use gateway_orchestrator.Domain.Records.{ProviderCredential}
use gateway_orchestrator.Domain.Provider.{
  PaymentProvider, PaymentRequest, PaymentResponse, OperationRequest, ProviderEntry,
}
use gateway_orchestrator.Providers.{Node, verify_signature, normalize_response}
use gateway_orchestrator.Providers.Config.{
  ApiKeyProviderRuntimeConfig, ApiKeyProviderName, ProviderEnv, resolve_api_key_provider_config,
}

-- `{ simulated: true, endpoint: `${this.baseUrl}/…` }`
abbrev simulated : ApiKeyProviderRuntimeConfig → String → Value
simulated config operation = obj (
    field "simulated" (bool true)
      (field "endpoint" (str (template (config.base_url ∷ "/" ∷ operation ∷ []))) end))

module _ {W : Type 0} (node : Node W) (config : ApiKeyProviderRuntimeConfig) where
  -- A new payment: `payment` and `authorize`.
  unfoldable pub simulate_payment :
      PaymentProviderName
      → String
      → String
      → PaymentStatus
      → PaymentRequest
      → Action W PaymentResponse
  unfolding normalize_response
  simulate_payment name prefix operation status request w =
      let r = node.random_uuid w in
      (
        returned (
            normalize_response name (template (prefix ∷ r.0 ∷ [])) request.amount request.currency
              status (simulated config operation)),
        r.1,
      )

  -- `capture`, whose answer names no amount.
  unfoldable pub simulate_capture :
      PaymentProviderName → OperationRequest → Action W PaymentResponse
  unfolding normalize_response
  simulate_capture name request = pure (
      normalize_response name request.transaction_id 0 "ZAR" PaymentStatus.captured
        (simulated config "capture"))

  -- `refund` and `void`
  unfoldable pub simulate_operation :
      PaymentProviderName → String → PaymentStatus → OperationRequest → Action W PaymentResponse
  unfolding normalize_response
  simulate_operation name operation status request = pure (
      normalize_response name request.transaction_id request.amount request.currency status
        (simulated config operation))

  unfoldable pub payfast_provider : PaymentProvider W
  unfolding simulate_payment simulate_capture simulate_operation verify_signature
  payfast_provider = record {
    payment =
        simulate_payment PaymentProviderName.payfast "payfast_" "payment" PaymentStatus.captured;
    authorize =
        simulate_payment PaymentProviderName.payfast "payfast_" "authorize"
          PaymentStatus.authorized;
    capture = simulate_capture PaymentProviderName.payfast;
    refund = simulate_operation PaymentProviderName.payfast "refund" PaymentStatus.refunded;
    void = simulate_operation PaymentProviderName.payfast "void" PaymentStatus.voided;
    verify_webhook_signature = verify_signature node.hmac config.webhook_secret;
    handle_webhook = λ payload. pure none;
    lookup_transaction = none;
  }

  unfoldable pub stitch_provider : PaymentProvider W
  unfolding simulate_payment simulate_capture simulate_operation verify_signature
  stitch_provider = record {
    payment =
        simulate_payment PaymentProviderName.stitch "stitch_" "payment" PaymentStatus.captured;
    authorize =
        simulate_payment PaymentProviderName.stitch "stitch_" "authorize" PaymentStatus.pending;
    capture = simulate_capture PaymentProviderName.stitch;
    refund = simulate_operation PaymentProviderName.stitch "refund" PaymentStatus.refunded;
    void = simulate_operation PaymentProviderName.stitch "void" PaymentStatus.voided;
    verify_webhook_signature = verify_signature node.hmac config.webhook_secret;
    handle_webhook = λ payload. pure none;
    lookup_transaction = none;
  }

module _ {W : Type 0} (node : Node W) (env : ProviderEnv) where
  unfoldable pub payfast_factory : Option ProviderCredential → PaymentProvider W
  unfolding payfast_provider resolve_api_key_provider_config
  payfast_factory credential =
      payfast_provider node
        (resolve_api_key_provider_config env credential ApiKeyProviderName.payfast)

  unfoldable pub stitch_factory : Option ProviderCredential → PaymentProvider W
  unfolding stitch_provider resolve_api_key_provider_config
  stitch_factory credential =
      stitch_provider node
        (resolve_api_key_provider_config env credential ApiKeyProviderName.stitch)
