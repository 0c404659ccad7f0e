-- ===== src/Onboarding.antt =====
-- src/services/onboarding.service.ts, `OnboardingService`: merchants, provider credentials and
-- routing rules, in the in-memory repositories.
pub mod Registered
use gateway_orchestrator.Prelude.{
  ℕ, String, Bool, true, Option, none, some, List, [], ◌∷◌, coalesce, put,
}
use gateway_orchestrator.Prelude.Text.{template}
use gateway_orchestrator.Value.{Value}
use gateway_orchestrator.Effect.{Action, ◌>>=◌, ◌>>◌, pure, raise, gets, modify, plain_error}
use gateway_orchestrator.Domain.Enums.{PaymentProviderName}
use gateway_orchestrator.Domain.Records.{
  Merchant, ProviderCredential, RoutingRule, PayUCredentials, PayFlexCredentials, ApiKeyCredentials,
}
use gateway_orchestrator.Repositories.Configs
use gateway_orchestrator.Repositories.Merchants
use gateway_orchestrator.Runtime.{Env, State, new_id, now}

pub record RegisterProviderInput : Type 0 where
  pub provider : PaymentProviderName
  pub merchant_identifier : String
  pub merchant_name : String
  pub payu_credentials : Option PayUCredentials
  pub payflex_credentials : Option PayFlexCredentials
  pub payfast_credentials : Option ApiKeyCredentials
  pub stitch_credentials : Option ApiKeyCredentials
  pub peach_credentials : Option ApiKeyCredentials
  pub metadata : Value

pub record CreateMerchantInput : Type 0 where
  pub merchant_identifier : String
  pub merchant_name : String
  pub metadata : Value

pub record UpsertRoutingRuleInput : Type 0 where
  pub id : Option String
  pub merchant_identifier : String
  pub route_to_provider : PaymentProviderName
  pub priority : ℕ
  pub payment_method : Option String
  pub currency : Option String
  pub country : Option String
  pub enabled : Option Bool
  pub weight : Option ℕ
  pub metadata : Value

pub record Registration : Type 0 where
  pub registered : Bool
  pub provider : PaymentProviderName

-- The credential that `registerProvider` hands to the repository.
unfoldable pub credential_of : RegisterProviderInput → ℕ → ProviderCredential
credential_of input time = record {
  provider = input.provider;
  merchant_identifier = input.merchant_identifier;
  merchant_name = input.merchant_name;
  payu_credentials = input.payu_credentials;
  payflex_credentials = input.payflex_credentials;
  payfast_credentials = input.payfast_credentials;
  stitch_credentials = input.stitch_credentials;
  peach_credentials = input.peach_credentials;
  base_url = none;
  redirect_base_url = none;
  api_key = none;
  safekey = none;
  soap_username = none;
  soap_password = none;
  webhook_secret = none;
  metadata = input.metadata;
  updated_at = time;
}

unfoldable pub new_merchant : CreateMerchantInput → String → ℕ → ℕ → Merchant
new_merchant input id created_at updated_at = record {
  id = id;
  merchant_identifier = input.merchant_identifier;
  merchant_name = input.merchant_name;
  metadata = input.metadata;
  created_at = created_at;
  updated_at = updated_at;
}

unfoldable pub new_rule : UpsertRoutingRuleInput → String → ℕ → RoutingRule
new_rule input id time = record {
  id = id;
  merchant_identifier = input.merchant_identifier;
  route_to_provider = input.route_to_provider;
  priority = input.priority;
  payment_method = input.payment_method;
  currency = input.currency;
  country = input.country;
  enabled = coalesce input.enabled true;
  weight = input.weight;
  metadata = input.metadata;
  updated_at = time;
}

module _ {W : Type 0} where
  -- `if (!credentials) { throw new Error(message) }`
  unfoldable pub require_credentials :
      {C : Type 0} → Option C → String → Action (State W) (Unit {0})
  require_credentials none message = raise (plain_error message)
  require_credentials (some c) message = pure tt

  unfoldable pub assert_provider_credentials : RegisterProviderInput → Action (State W) (Unit {0})
  unfolding require_credentials
  assert_provider_credentials input = elim input.provider [
    | PaymentProviderName.payu ↦
        require_credentials input.payu_credentials
          "PAYU credentials are required for provider registration"
    | PaymentProviderName.payflex ↦
        require_credentials input.payflex_credentials
          "PAYFLEX credentials are required for provider registration"
    | PaymentProviderName.payfast ↦
        require_credentials input.payfast_credentials
          "PAYFAST credentials are required for provider registration"
    | PaymentProviderName.stitch ↦
        require_credentials input.stitch_credentials
          "STITCH credentials are required for provider registration"
    | PaymentProviderName.peach ↦
        require_credentials input.peach_credentials
          "PEACH credentials are required for provider registration"
  ]

  unfoldable pub list_routing_rules : Option String → Action (State W) (List RoutingRule)
  list_routing_rules merchant_identifier =
      gets (λ s. Configs.list_routing_rules s.routing_rules merchant_identifier)

module _ {W : Type 0} (env : Env W) where
  -- The repository stamps the credential with a time of its own.
  unfoldable pub upsert_credential : ProviderCredential → Action (State W) (Unit {0})
  upsert_credential credential = do
    time ← now env
    modify λ s. record s { credentials = Configs.upsert_credential s.credentials credential time }

  unfoldable pub upsert_rule : RoutingRule → Action (State W) (Unit {0})
  upsert_rule rule = do
    time ← now env
    modify λ s. record s { routing_rules = Configs.upsert_routing_rule s.routing_rules rule time }

  unfoldable pub register_provider : RegisterProviderInput → Action (State W) Registration
  register_provider input = do
    assert_provider_credentials input
    time ← now env
    upsert_credential (credential_of input time)
    pure (record { registered = true; provider = input.provider })

  -- What follows the search for the merchant.
  unfoldable pub existing_or_new : CreateMerchantInput → Option Merchant → Action (State W) Merchant
  existing_or_new input (some existing) = pure existing
  existing_or_new input none = do
    id ← new_id env
    created_at ← now env
    updated_at ← now env
    let merchant = new_merchant input id created_at updated_at
    modify λ s. record s { merchants = Merchants.create s.merchants merchant }
    pure merchant

  unfoldable pub create_merchant : CreateMerchantInput → Action (State W) Merchant
  create_merchant input = do
    existing ←
        gets (λ s. Merchants.find_by_merchant_identifier s.merchants input.merchant_identifier)
    existing_or_new input existing

  -- `input.id ?? randomUUID()`
  unfoldable pub id_or_new : Option String → Action (State W) String
  id_or_new none = new_id env
  id_or_new (some id) = pure id

  unfoldable pub rule_for : UpsertRoutingRuleInput → Option Merchant → Action (State W) RoutingRule
  rule_for input none =
      raise (plain_error (template ("Merchant not found: " ∷ input.merchant_identifier ∷ [])))
  rule_for input (some merchant) = do
    id ← id_or_new input.id
    time ← now env
    let rule = new_rule input id time
    upsert_rule rule
    pure rule

  unfoldable pub upsert_routing_rule : UpsertRoutingRuleInput → Action (State W) RoutingRule
  upsert_routing_rule input = do
    merchant ←
        gets (λ s. Merchants.find_by_merchant_identifier s.merchants input.merchant_identifier)
    rule_for input merchant
