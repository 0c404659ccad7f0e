-- ===== src/Routing/Candidates.antt =====
-- The candidates that `resolveCandidates` of src/services/routing.service.ts returns for a merchant.
use gateway_orchestrator.Prelude.{
  ◌≡◌, refl, Option, none, some, String, List, [], ◌∷◌, true, Option-cases, inl, inr, Map,
}
use gateway_orchestrator.Prelude.Text.{truthy}
use gateway_orchestrator.Effect.{returned, ◌>>=◌, follow, gets, pure, raise}
use gateway_orchestrator.Effect.Post.{threw_not_returned}
use gateway_orchestrator.Domain.Enums.{PaymentProviderName}
use gateway_orchestrator.Domain.Records.{ProviderCredential, RoutingRule}
use gateway_orchestrator.Repositories.Configs
use gateway_orchestrator.Repositories.Merchants
use gateway_orchestrator.Runtime.{State}
use gateway_orchestrator.Routing.{
  ResolveProviderCandidatesInput, ProviderCandidate, candidate_of, routed_candidates,
  or_no_candidates, explicit_or_throw, route_by_rules, route_for_merchant, with_merchant,
  resolve_candidates,
}

-- Each candidate carries the credential that the merchant has registered for its provider.
pub data Registered (credentials : Map ProviderCredential) (merchant : String)
    : List ProviderCandidate → Type 0 where
  nobody : Registered credentials merchant []
  and_also :
      {c : ProviderCandidate} {cs : List ProviderCandidate} (k : ProviderCredential)
      → c.credential ≡ some k
      → Configs.get_credential credentials merchant c.provider ≡ some k
      → Registered credentials merchant cs
      → Registered credentials merchant (c ∷ cs)

-- There is a first candidate, and all are registered.
pub record Usable (credentials : Map ProviderCredential) (merchant : String)
    (cs : List ProviderCandidate) : Type 0 where
  pub first : ProviderCandidate
  pub others : List ProviderCandidate
  pub all : cs ≡ first ∷ others
  pub registered : Registered credentials merchant cs

routed-Registered :
    (credentials : Map ProviderCredential) (merchant : String) (rules : List RoutingRule)
    → Registered credentials merchant
        (routed_candidates (Configs.get_credential credentials merchant) rules)
unfolding routed_candidates candidate_of
routed-Registered credentials merchant [] = nobody
routed-Registered credentials merchant (rule ∷ rules) =
    let rest = routed-Registered credentials merchant rules in
    elim (Option-cases (Configs.get_credential credentials merchant rule.route_to_provider)) [
      | inl e ↦ rw (e, routed_candidates) rest
      | inr (k, e) ↦ rw (e, routed_candidates) (and_also k refl e rest)
    ]

same_list : {a b : List ProviderCandidate} → returned a ≡ returned b → a ≡ b
same_list h = cc

module _ {W : Type 0} (s : State W) (merchant : String) where
  or_no-Usable :
      (found cs : List ProviderCandidate)
      → Registered s.credentials merchant found
      → (or_no_candidates {W = W} merchant found s).0 ≡ returned cs
      → Usable s.credentials merchant cs
  unfolding or_no_candidates pure raise
  or_no-Usable [] cs r h = absurd (threw_not_returned h)
  or_no-Usable (c ∷ found) cs r h =
      rw (← same_list h) (record { first = c; others = found; all = refl; registered = r })

  explicit-Usable :
      (name : Option PaymentProviderName) (cs : List ProviderCandidate)
      → (explicit_or_throw {W = W} merchant name s).0 ≡ returned cs
      → Usable s.credentials merchant cs
  unfolding explicit_or_throw ◌>>=◌ follow gets pure raise
  explicit-Usable none cs h = absurd (threw_not_returned h)
  explicit-Usable (some name) cs h =
      elim (Option-cases (Configs.get_credential s.credentials merchant name)) [
        | inl e ↦ absurd (threw_not_returned (rw e at h))
        | inr (k, e) ↦
            rw (← same_list (rw e at h))
              (record { first = _; others = []; all = refl; registered = and_also k refl e nobody })
      ]

  rules-Usable :
      (name : Option PaymentProviderName) (rules : List RoutingRule) (cs : List ProviderCandidate)
      → (route_by_rules {W = W} merchant name rules s).0 ≡ returned cs
      → Usable s.credentials merchant cs
  unfolding route_by_rules ◌>>=◌ follow gets
  rules-Usable name [] cs h = explicit-Usable name cs h
  rules-Usable name (rule ∷ rules) cs h =
      or_no-Usable _ cs (routed-Registered s.credentials merchant (rule ∷ rules)) h

  -- Where routing for a merchant returns, there is a candidate, and each candidate carries the
  -- credential that the merchant has registered for its provider.
  pub resolve-Usable :
      (input : ResolveProviderCandidatesInput) (cs : List ProviderCandidate)
      → input.merchant_identifier ≡ some merchant
      → truthy (some merchant) ≡ true
      → (resolve_candidates input s).0 ≡ returned cs
      → Usable s.credentials merchant cs
  unfolding resolve_candidates with_merchant route_for_merchant ◌>>=◌ follow gets raise
      Merchants.find_by_merchant_identifier
  resolve-Usable input cs named nonempty h =
      elim (Option-cases (Merchants.find_by_merchant_identifier s.merchants merchant)) [
        | inl e ↦ absurd (threw_not_returned (rw (named, nonempty, e) at h))
        | inr (m, e) ↦ rules-Usable input.explicit_provider _ cs (rw (named, nonempty, e) at h)
      ]
