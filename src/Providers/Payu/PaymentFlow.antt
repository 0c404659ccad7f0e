-- ===== src/Providers/Payu/PaymentFlow.antt =====
-- src/providers/payu/payu.payment-flow.ts.
use gateway_orchestrator.Prelude.{String, Bool, [], ◌∷◌}
use gateway_orchestrator.Prelude.Text.{template}
use gateway_orchestrator.Effect.{Action, ◌>>=◌, pure}
use gateway_orchestrator.Domain.Provider.{PaymentRequest}
use gateway_orchestrator.Providers.{Web}
use gateway_orchestrator.Providers.Config.{PayURuntimeConfig}
use gateway_orchestrator.Providers.Payu.CallbackUrls.{Urls}
use gateway_orchestrator.Providers.Payu.SetTransaction.{
  create_payment_set_transaction, create_reserve_set_transaction,
}

pub record PayuRedirectFlowResult : Type 0 where
  pub provider_reference : String
  pub redirect_url : String
  pub supported_payment_method : String
  pub transaction_type : String

module _ {W : Type 0} (web : Web W) (urls : Urls) (public_base_url : String) (is_test : Bool)
    (config : PayURuntimeConfig) where
  abbrev redirected : String → String → String → PayuRedirectFlowResult
  redirected method transaction_type provider_reference = record {
    provider_reference = provider_reference;
    redirect_url = template (
        config.rpp_redirect_base_url
        ∷ "?PayUReference="
        ∷ web.encode_uri_component provider_reference
        ∷ []);
    supported_payment_method = method;
    transaction_type = transaction_type;
  }

  unfoldable pub run_payu_payment_flow : PaymentRequest → String → Action W PayuRedirectFlowResult
  unfolding create_payment_set_transaction
  run_payu_payment_flow request method = do
    provider_reference ←
        create_payment_set_transaction web urls public_base_url is_test config request method
    pure (redirected method "PAYMENT" provider_reference)

  unfoldable pub run_payu_reserve_flow :
      PaymentRequest → String → String → Action W PayuRedirectFlowResult
  unfolding create_reserve_set_transaction
  run_payu_reserve_flow request method transaction_type = do
    provider_reference ←
        create_reserve_set_transaction web urls public_base_url is_test config request method
          transaction_type
    pure (redirected method transaction_type provider_reference)
