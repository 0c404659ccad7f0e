-- ===== src/Routing.antt =====
-- src/services/routing.service.ts: which providers a payment is tried with, in which order.
pub mod Reads
pub mod Candidates
use gateway_orchestrator.Prelude.{
  ℕ, String, Bool, true, false, ◌&&◌, not, Option, none, some, List, [], ◌∷◌, ◌==◌, if◌then◌else◌,
  filter, coalesce,
}
use gateway_orchestrator.Prelude.Text.{template, truthy}
use gateway_orchestrator.Effect.{Action, pure, raise, gets, ◌>>=◌, plain_error}
use gateway_orchestrator.Domain.Enums.{PaymentProviderName, provider_text}
use gateway_orchestrator.Domain.Records.{ProviderCredential, RoutingRule, Merchant}
use gateway_orchestrator.Repositories.Payments.{optional_eq}
use gateway_orchestrator.Repositories.Configs
use gateway_orchestrator.Repositories.Merchants
use gateway_orchestrator.Runtime.{State}

pub record ResolveProviderCandidatesInput : Type 0 where
  pub merchant_identifier : Option String
  pub explicit_provider : Option PaymentProviderName
  pub payment_method : Option String
  pub currency : String

pub record ProviderCandidate : Type 0 where
  pub provider : PaymentProviderName
  pub credential : Option ProviderCredential
  pub rule_id : Option String
  pub priority : ℕ

-- The test of `rules.filter(…)`: a rule that names a currency or a method wants that one.
unfoldable pub rule_matches : ResolveProviderCandidatesInput → RoutingRule → Bool
rule_matches input rule =
    if truthy rule.currency && not (optional_eq rule.currency (some input.currency))
    then false
    else if truthy rule.payment_method && not (optional_eq rule.payment_method input.payment_method)
    then false
    else true

unfoldable pub candidate_of : RoutingRule → ProviderCredential → ProviderCandidate
candidate_of rule credential = record {
  provider = rule.route_to_provider;
  credential = some credential;
  rule_id = some rule.id;
  priority = rule.priority;
}

-- The loop over the filtered rules, with the repository's `getCredential`: a rule without a
-- registered credential is passed over.
unfoldable pub routed_candidates :
    (PaymentProviderName → Option ProviderCredential) → List RoutingRule → List ProviderCandidate
routed_candidates credential_for [] = []
routed_candidates credential_for (rule ∷ rules) =
    let rest = routed_candidates credential_for rules in
    elim (credential_for rule.route_to_provider) [
      | none ↦ rest
      | some credential ↦ candidate_of rule credential ∷ rest
    ]

abbrev pub explicit_candidate : PaymentProviderName → Option ProviderCredential → ProviderCandidate
explicit_candidate provider credential = record {
  provider = provider;
  credential = credential;
  rule_id = none;
  priority = 0;
}

module _ {W : Type 0} where
  unfoldable pub or_no_candidates :
      String → List ProviderCandidate → Action (State W) (List ProviderCandidate)
  or_no_candidates merchant_identifier [] = raise (
      plain_error (
        template
          ("No registered providers available for merchant routing: " ∷ merchant_identifier ∷ [])))
  or_no_candidates merchant_identifier (c ∷ cs) = pure (c ∷ cs)

  -- `if (input.explicitProvider) { … }` and the throw behind it.
  unfoldable pub explicit_or_throw :
      String → Option PaymentProviderName → Action (State W) (List ProviderCandidate)
  explicit_or_throw merchant_identifier none = raise (
      plain_error
        (template ("No routing rules configured for merchant " ∷ merchant_identifier ∷ [])))
  explicit_or_throw merchant_identifier (some provider) = do
    credential ← gets (λ s. Configs.get_credential s.credentials merchant_identifier provider)
    elim credential [
      | none ↦ raise (
          plain_error (
            template (
              "Provider "
              ∷ provider_text provider
              ∷ " is not registered for merchant "
              ∷ merchant_identifier
              ∷ [])))
      | some c ↦ pure (explicit_candidate provider (some c) ∷ [])
    ]

  -- What follows the filtering: routed candidates where a rule is left, else the named provider.
  unfoldable pub route_by_rules :
      String
      → Option PaymentProviderName
      → List RoutingRule
      → Action (State W) (List ProviderCandidate)
  unfolding explicit_or_throw or_no_candidates routed_candidates candidate_of
  route_by_rules merchant_identifier explicit_provider [] =
      explicit_or_throw merchant_identifier explicit_provider
  route_by_rules merchant_identifier explicit_provider (rule ∷ rules) = do
    candidates ← gets (λ s.
        routed_candidates (Configs.get_credential s.credentials merchant_identifier) (rule ∷ rules))
    or_no_candidates merchant_identifier candidates

  unfoldable pub route_for_merchant :
      ResolveProviderCandidatesInput
      → String
      → Option Merchant
      → Action (State W) (List ProviderCandidate)
  unfolding route_by_rules rule_matches
  route_for_merchant input merchant_identifier none =
      raise (plain_error (template ("Merchant not found: " ∷ merchant_identifier ∷ [])))
  route_for_merchant input merchant_identifier (some merchant) = do
    rules ← gets (λ s. Configs.list_routing_rules s.routing_rules (some merchant_identifier))
    route_by_rules merchant_identifier input.explicit_provider (filter (rule_matches input) rules)

  unfoldable pub without_merchant :
      Option PaymentProviderName → Action (State W) (List ProviderCandidate)
  without_merchant none =
      raise (plain_error "provider is required unless merchantIdentifier routing is configured")
  without_merchant (some provider) = pure (explicit_candidate provider none ∷ [])

  -- The part under `if (input.merchantIdentifier)`.
  unfoldable pub with_merchant :
      ResolveProviderCandidatesInput → String → Action (State W) (List ProviderCandidate)
  unfolding route_for_merchant
  with_merchant input merchant_identifier = do
    merchant ← gets (λ s. Merchants.find_by_merchant_identifier s.merchants merchant_identifier)
    route_for_merchant input merchant_identifier merchant

  unfoldable pub resolve_candidates :
      ResolveProviderCandidatesInput → Action (State W) (List ProviderCandidate)
  unfolding with_merchant without_merchant
  resolve_candidates input =
      if truthy input.merchant_identifier
      then with_merchant input (coalesce input.merchant_identifier "")
      else without_merchant input.explicit_provider
