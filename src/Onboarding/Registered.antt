-- ===== src/Onboarding/Registered.antt =====
-- Merchants and credentials of src/services/onboarding.service.ts, and the routing that reads them.
use gateway_orchestrator.Prelude.{
  ◌+◌, ◌⊎◌, ◌≡◌, ◌≢◌, refl, ap, String, true, List, Map, ◌==◌, eq_iff, Bool-cases, Option, none,
  some, [], ◌∷◌, Option-cases, inl, inr, get, put, get-put_self, filter, sort, values,
}
use gateway_orchestrator.Prelude.Text.{truthy}
use gateway_orchestrator.Effect.{
  ◌>>=◌, follow, Outcome, returned, Error, threw, pure, raise, gets, modify, plain_error,
}
use gateway_orchestrator.Effect.Post.{threw_not_returned}
use gateway_orchestrator.Domain.Enums.{PaymentProviderName}
use gateway_orchestrator.Domain.Records.{Merchant, ProviderCredential, RoutingRule}
use gateway_orchestrator.Repositories.Configs
use gateway_orchestrator.Repositories.Merchants
use gateway_orchestrator.Routing.{
  ResolveProviderCandidatesInput, explicit_candidate, resolve_candidates, with_merchant,
  route_for_merchant, route_by_rules, explicit_or_throw,
}
use gateway_orchestrator.Runtime.{Env, State, new_id, now}
use gateway_orchestrator.Onboarding.{
  RegisterProviderInput, Registration, CreateMerchantInput, credential_of, new_merchant,
  require_credentials, assert_provider_credentials, upsert_credential, register_provider,
  existing_or_new, create_merchant,
}

-- No rule of the list that is enabled is of the merchant.
abbrev pub NoRuleOf : String → List RoutingRule → Type 0
NoRuleOf merchant_identifier [] = Unit
NoRuleOf merchant_identifier (rule ∷ rules) =
    (rule.enabled ≡ true → rule.merchant_identifier ≢ merchant_identifier)
    × NoRuleOf merchant_identifier rules

none_enabled :
    (merchant_identifier : String) (rules : List RoutingRule)
    → truthy (some merchant_identifier) ≡ true
    → NoRuleOf merchant_identifier rules
    → filter (λ rule. rule.enabled) (filter (Configs.of_merchant (some merchant_identifier)) rules)
      ≡ []
unfolding filter Configs.of_merchant
none_enabled id [] named h = refl
none_enabled id (rule ∷ rules) named (other, rest) =
    let nothing = none_enabled id rules named rest in
    elim (Bool-cases (rule.merchant_identifier == id)) [
      | inr f ↦ rw (named, f) nothing
      | inl t ↦ elim (Bool-cases rule.enabled) [
        | inr off ↦ rw (named, t, off) nothing
        | inl on ↦ absurd (other on ((eq_iff rule.merchant_identifier id).0 t))
      ]
    ]

no_rules_listed :
    (merchant_identifier : String) (rules : Map RoutingRule)
    → truthy (some merchant_identifier) ≡ true
    → NoRuleOf merchant_identifier (values rules)
    → Configs.list_routing_rules rules (some merchant_identifier) ≡ []
unfolding Configs.list_routing_rules sort
no_rules_listed id rules named h = rw (none_enabled id (values rules) named h) refl

module _ {W : Type 0} (env : Env W) (input : CreateMerchantInput) where
  create_existing :
      (m : Merchant) (s : State W)
      → get s.merchants input.merchant_identifier ≡ some m
      → create_merchant env input s ≡ (returned m, s)
  unfolding create_merchant ◌>>=◌ follow gets existing_or_new pure
      Merchants.find_by_merchant_identifier
  create_existing m s found = rw found refl

  merchant_of : State W → Merchant
  merchant_of s =
      new_merchant input (env.random_uuid s.ids) (env.clock s.ticks) (env.clock (s.ticks + 1))

  created :
      (s : State W)
      → get s.merchants input.merchant_identifier ≡ none
      → create_merchant env input s ≡ (
        returned (merchant_of s),
        record s {
          merchants = put s.merchants input.merchant_identifier (merchant_of s);
          ids = s.ids + 1;
          ticks = s.ticks + 1 + 1;
        },
      )
  unfolding create_merchant ◌>>=◌ follow gets existing_or_new new_id now modify pure merchant_of
      new_merchant Merchants.find_by_merchant_identifier Merchants.create
  created s new = rw new refl

  create_new :
      (s : State W)
      → get s.merchants input.merchant_identifier ≡ none
      → create_merchant env input (create_merchant env input s).1 ≡ create_merchant env input s
  create_new s new = rw (created s new) (
      create_existing (merchant_of s) _
        (get-put_self s.merchants input.merchant_identifier (merchant_of s)))

  -- Creating a merchant a second time returns the merchant of the first time, and changes nothing.
  pub create_merchant-idempotent :
      (s : State W)
      → create_merchant env input (create_merchant env input s).1 ≡ create_merchant env input s
  create_merchant-idempotent s = elim (Option-cases (get s.merchants input.merchant_identifier)) [
    | inl new ↦ create_new s new
    | inr (m, found) ↦
        ap (create_merchant env input)
          (ap (λ (r : Outcome Merchant × State W). r.1) (create_existing m s found))
  ]

module _ {W : Type 0} (env : Env W) (input : RegisterProviderInput) where
  require-cases :
      {C : Type 0} (c : Option C) (message : String) (s : State W)
      → (require_credentials c message s ≡ (returned tt, s))
        ⊎ ((e : Error) × (require_credentials c message s ≡ (threw e, s)))
  unfolding require_credentials pure raise
  require-cases none message s = inr (plain_error message, refl)
  require-cases (some c) message s = inl refl

  assert-cases :
      (name : PaymentProviderName) (s : State W)
      → (assert_provider_credentials (record input { provider = name }) s ≡ (returned tt, s))
        ⊎ ((e : Error) × (assert_provider_credentials (record input { provider = name }) s
              ≡ (threw e, s)))
  unfolding assert_provider_credentials
  assert-cases PaymentProviderName.payu s = require-cases _ _ s
  assert-cases PaymentProviderName.payflex s = require-cases _ _ s
  assert-cases PaymentProviderName.payfast s = require-cases _ _ s
  assert-cases PaymentProviderName.stitch s = require-cases _ _ s
  assert-cases PaymentProviderName.peach s = require-cases _ _ s

  -- The credential as the repository holds it, after a registration in the state `s`.
  abbrev pub registered_credential : State W → ProviderCredential
  registered_credential s = record (credential_of input (env.clock s.ticks)) {
    updated_at = env.clock (s.ticks + 1);
  }

  registered :
      (s : State W)
      → assert_provider_credentials input s ≡ (returned tt, s)
      → register_provider env input s ≡ (
        returned (record { registered = true; provider = input.provider }),
        record s {
          credentials =
              put s.credentials
                (Configs.credential_key input.merchant_identifier input.provider)
                (registered_credential s);
          ticks = s.ticks + 1 + 1;
        },
      )
  unfolding register_provider ◌>>=◌ follow now upsert_credential modify pure
      Configs.upsert_credential credential_of
  registered s h = rw h refl

  unregistered :
      (s : State W) (e : Error)
      → assert_provider_credentials input s ≡ (threw e, s)
      → register_provider env input s ≡ (threw e, s)
  unfolding register_provider ◌>>=◌ follow
  unregistered s e h = rw h refl

  -- A registration that returns is one that routing by an explicit provider finds, for a known
  -- merchant, of a name that is not empty, without an enabled routing rule of its own, whatever
  -- rules other merchants have: the provider is the one candidate, with the credential that was
  -- registered.
  pub registered-resolved :
      (s : State W) (r : Registration) (m : Merchant) (query : ResolveProviderCandidatesInput)
      → (register_provider env input s).0 ≡ returned r
      → get s.merchants input.merchant_identifier ≡ some m
      → NoRuleOf input.merchant_identifier (values s.routing_rules)
      → truthy (some input.merchant_identifier) ≡ true
      → query.merchant_identifier ≡ some input.merchant_identifier
      → query.explicit_provider ≡ some input.provider
      → (resolve_candidates query (register_provider env input s).1).0
        ≡ returned (explicit_candidate input.provider (some (registered_credential s)) ∷ [])
  unfolding resolve_candidates with_merchant route_for_merchant route_by_rules explicit_or_throw
      ◌>>=◌ follow gets pure filter credential_of Merchants.find_by_merchant_identifier
      Configs.get_credential
  registered-resolved s r m query h known no_rules named for explicit =
      elim (assert-cases input.provider s) [
        | inl ok ↦
            rw
              (
                registered s ok,
                for,
                named,
                known,
                no_rules_listed input.merchant_identifier s.routing_rules named no_rules,
                explicit,
              )
              (rw (get-put_self s.credentials _ _) refl)
        | inr (e, bad) ↦ absurd (threw_not_returned (rw (unregistered s e bad) at h))
      ]
