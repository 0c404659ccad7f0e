-- ===== src/Repositories/Configs.antt =====
-- `InMemoryProviderConfigRepository`: credentials, and routing rules.
use gateway_orchestrator.Prelude.{
  ℕ, String, Bool, true, Option, List, [], ◌∷◌, leb, ◌==◌, if◌then◌else◌, Map, get, put, values,
  filter, sort, coalesce,
}
use gateway_orchestrator.Prelude.Text.{template, truthy}
use gateway_orchestrator.Domain.Enums.{PaymentProviderName, provider_text}
use gateway_orchestrator.Domain.Records.{ProviderCredential, RoutingRule}

unfoldable pub credential_key : String → PaymentProviderName → String
credential_key merchant_identifier provider =
    template (merchant_identifier ∷ ":" ∷ provider_text provider ∷ [])

-- The time is that of `new Date()`.
unfoldable pub upsert_credential :
    Map ProviderCredential → ProviderCredential → ℕ → Map ProviderCredential
upsert_credential credentials credential time =
    put credentials (credential_key credential.merchant_identifier credential.provider)
      (record credential { updated_at = time })

unfoldable pub get_credential :
    Map ProviderCredential → String → PaymentProviderName → Option ProviderCredential
get_credential credentials merchant_identifier provider =
    get credentials (credential_key merchant_identifier provider)

unfoldable pub list_credentials_by_merchant :
    Map ProviderCredential → String → List ProviderCredential
list_credentials_by_merchant credentials merchant_identifier =
    filter (λ credential. credential.merchant_identifier == merchant_identifier)
      (values credentials)

unfoldable pub upsert_routing_rule : Map RoutingRule → RoutingRule → ℕ → Map RoutingRule
upsert_routing_rule rules rule time = put rules rule.id (record rule { updated_at = time })

-- `merchantIdentifier ? rule.merchantIdentifier === merchantIdentifier : true`
unfoldable pub of_merchant : Option String → RoutingRule → Bool
of_merchant merchant_identifier rule =
    if truthy merchant_identifier
    then rule.merchant_identifier == coalesce merchant_identifier ""
    else true

abbrev pub by_priority : RoutingRule → RoutingRule → Bool
by_priority a b = leb a.priority b.priority

unfoldable pub list_routing_rules : Map RoutingRule → Option String → List RoutingRule
unfolding of_merchant
list_routing_rules rules merchant_identifier =
    sort by_priority
      (filter (λ rule. rule.enabled) (filter (of_merchant merchant_identifier) (values rules)))
