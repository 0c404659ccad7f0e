-- ===== src/Providers/Config.antt =====
-- src/providers/provider-runtime-config.ts, and how src/infrastructure/provider-registry.ts takes a provider's
-- configuration from a merchant's credential, an older credential without a scope, and the environment.
use gateway_orchestrator.Prelude.{String, Option, some, coalesce, or_else, get_field}
use gateway_orchestrator.Domain.Records.{ProviderCredential, ApiKeyCredentials}

pub record PayURuntimeConfig : Type 0 where
  pub base_url : String
  pub webhook_secret : String
  pub soap_username : String
  pub soap_password : String
  pub safekey : String
  pub rpp_redirect_base_url : String
  pub default_return_url : String
  pub default_cancel_url : String
  pub default_notification_url : String

pub record PayFlexRuntimeConfig : Type 0 where
  pub base_url : String
  pub api_key : String
  pub webhook_secret : String
  pub auth_url : String
  pub audience : String
  pub client_id : String
  pub client_secret : String

pub record ApiKeyProviderRuntimeConfig : Type 0 where
  pub base_url : String
  pub api_key : String
  pub webhook_secret : String

-- `PaymentProviderName.PAYFAST | PaymentProviderName.STITCH | PaymentProviderName.PEACH`
pub data ApiKeyProviderName : Type 0 where
  payfast stitch peach : ApiKeyProviderName

-- What `env` holds for the providers.
pub record ProviderEnv : Type 0 where
  pub payu : PayURuntimeConfig
  pub payflex : PayFlexRuntimeConfig
  pub payfast : ApiKeyProviderRuntimeConfig
  pub stitch : ApiKeyProviderRuntimeConfig
  pub peach : ApiKeyProviderRuntimeConfig

module _ (env : ProviderEnv) (credential : Option ProviderCredential) where
  -- `scoped ?? credential?.field ?? fallback`
  abbrev from_credential : Option String → (ProviderCredential → Option String) → String → String
  from_credential scoped field fallback =
      coalesce (or_else scoped (get_field credential field)) fallback

  unfoldable pub resolve_payu_config : PayURuntimeConfig
  resolve_payu_config =
      let payu = get_field credential (λ c. c.payu_credentials) in
      record {
        base_url =
            from_credential (get_field payu (λ c. c.base_url)) (λ c. c.base_url) env.payu.base_url;
        webhook_secret =
            from_credential (get_field payu (λ c. c.webhook_secret)) (λ c. c.webhook_secret)
              env.payu.webhook_secret;
        soap_username =
            from_credential (get_field payu (λ c. some c.username)) (λ c. c.soap_username)
              env.payu.soap_username;
        soap_password =
            from_credential (get_field payu (λ c. some c.password)) (λ c. c.soap_password)
              env.payu.soap_password;
        safekey =
            from_credential (get_field payu (λ c. some c.safekey)) (λ c. c.safekey)
              env.payu.safekey;
        rpp_redirect_base_url =
            from_credential (get_field payu (λ c. c.redirect_base_url)) (λ c. c.redirect_base_url)
              env.payu.rpp_redirect_base_url;
        default_return_url =
            coalesce (get_field payu (λ c. c.default_return_url)) env.payu.default_return_url;
        default_cancel_url =
            coalesce (get_field payu (λ c. c.default_cancel_url)) env.payu.default_cancel_url;
        default_notification_url =
            coalesce (get_field payu (λ c. c.default_notification_url))
              env.payu.default_notification_url;
      }

  unfoldable pub resolve_payflex_config : PayFlexRuntimeConfig
  resolve_payflex_config =
      let payflex = get_field credential (λ c. c.payflex_credentials) in
      record {
        base_url =
            from_credential (get_field payflex (λ c. c.base_url)) (λ c. c.base_url)
              env.payflex.base_url;
        api_key =
            from_credential (get_field payflex (λ c. c.api_key)) (λ c. c.api_key)
              env.payflex.api_key;
        webhook_secret =
            from_credential (get_field payflex (λ c. c.webhook_secret)) (λ c. c.webhook_secret)
              env.payflex.webhook_secret;
        auth_url = coalesce (get_field payflex (λ c. c.auth_url)) env.payflex.auth_url;
        audience = coalesce (get_field payflex (λ c. c.audience)) env.payflex.audience;
        client_id = coalesce (get_field payflex (λ c. some c.client_id)) env.payflex.client_id;
        client_secret =
            coalesce (get_field payflex (λ c. some c.client_secret)) env.payflex.client_secret;
      }

  abbrev scoped_credentials : ApiKeyProviderName → Option ApiKeyCredentials
  scoped_credentials ApiKeyProviderName.payfast = get_field credential (λ c. c.payfast_credentials)
  scoped_credentials ApiKeyProviderName.stitch = get_field credential (λ c. c.stitch_credentials)
  scoped_credentials ApiKeyProviderName.peach = get_field credential (λ c. c.peach_credentials)

  abbrev env_config : ApiKeyProviderName → ApiKeyProviderRuntimeConfig
  env_config ApiKeyProviderName.payfast = env.payfast
  env_config ApiKeyProviderName.stitch = env.stitch
  env_config ApiKeyProviderName.peach = env.peach

  unfoldable pub resolve_api_key_provider_config : ApiKeyProviderName → ApiKeyProviderRuntimeConfig
  resolve_api_key_provider_config provider =
      let scoped = scoped_credentials provider in
      let config = env_config provider in
      record {
        base_url =
            from_credential (get_field scoped (λ c. c.base_url)) (λ c. c.base_url) config.base_url;
        api_key =
            from_credential (get_field scoped (λ c. some c.api_key)) (λ c. c.api_key)
              config.api_key;
        webhook_secret =
            from_credential (get_field scoped (λ c. c.webhook_secret)) (λ c. c.webhook_secret)
              config.webhook_secret;
      }
