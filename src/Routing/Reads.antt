-- ===== src/Routing/Reads.antt =====
-- The state under `resolveCandidates` of src/services/routing.service.ts, which only reads.
use gateway_orchestrator.Prelude.{◌≡◌, refl, Option, none, some, String, List, [], ◌∷◌}
use gateway_orchestrator.Prelude.Text.{truthy}
use gateway_orchestrator.Effect.Rules.{Moves, Moves-if}
use gateway_orchestrator.Domain.Enums.{PaymentProviderName}
use gateway_orchestrator.Domain.Records.{RoutingRule, Merchant}
use gateway_orchestrator.Runtime.{State}
use gateway_orchestrator.Runtime.Frame.{
  Kept, Kept-Preorder, Kept-pure, Kept-raise, Kept-gets, Kept-bind,
}
use gateway_orchestrator.Routing.{
  ResolveProviderCandidatesInput, ProviderCandidate, or_no_candidates, explicit_or_throw,
  route_by_rules, route_for_merchant, without_merchant, with_merchant, resolve_candidates,
}

module _ {W : Type 0} (P : State W → Type 0) where
  Kept-or_no_candidates :
      (m : String) (cs : List ProviderCandidate) → Moves (Kept P) (or_no_candidates m cs)
  unfolding or_no_candidates
  Kept-or_no_candidates m [] = Kept-raise P _
  Kept-or_no_candidates m (c ∷ cs) = Kept-pure P _

  Kept-explicit_or_throw :
      (m : String) (name : Option PaymentProviderName) → Moves (Kept P) (explicit_or_throw m name)
  unfolding explicit_or_throw
  Kept-explicit_or_throw m none = Kept-raise P _
  Kept-explicit_or_throw m (some name) =
      Kept-bind P _ _ (Kept-gets P _) elim [ none ↦ Kept-raise P _ | some c ↦ Kept-pure P _ ]

  Kept-route_by_rules :
      (m : String) (name : Option PaymentProviderName) (rules : List RoutingRule)
      → Moves (Kept P) (route_by_rules m name rules)
  unfolding route_by_rules
  Kept-route_by_rules m name [] = Kept-explicit_or_throw m name
  Kept-route_by_rules m name (rule ∷ rules) =
      Kept-bind P _ _ (Kept-gets P _) λ cs. Kept-or_no_candidates m cs

  Kept-route_for_merchant :
      (input : ResolveProviderCandidatesInput) (m : String) (merchant : Option Merchant)
      → Moves (Kept P) (route_for_merchant input m merchant)
  unfolding route_for_merchant
  Kept-route_for_merchant input m none = Kept-raise P _
  Kept-route_for_merchant input m (some merchant) =
      Kept-bind P _ _ (Kept-gets P _) λ rules. Kept-route_by_rules m input.explicit_provider _

  Kept-without_merchant :
      (name : Option PaymentProviderName) → Moves (Kept P) (without_merchant name)
  unfolding without_merchant
  Kept-without_merchant none = Kept-raise P _
  Kept-without_merchant (some name) = Kept-pure P _

  pub Kept-resolve_candidates :
      (input : ResolveProviderCandidatesInput) → Moves (Kept P) (resolve_candidates input)
  unfolding resolve_candidates with_merchant
  Kept-resolve_candidates input =
      Moves-if _ (Kept-Preorder P) (truthy input.merchant_identifier) _ _
        (Kept-bind P _ _ (Kept-gets P _) λ merchant. Kept-route_for_merchant input _ merchant)
        (Kept-without_merchant input.explicit_provider)

pub resolve-same :
    {W : Type 0} (input : ResolveProviderCandidatesInput) (s : State W)
    → (resolve_candidates input s).1 ≡ s
resolve-same input s = (Kept-resolve_candidates (λ t. t ≡ s) input).along s refl
