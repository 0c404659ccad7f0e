-- ===== src/Providers/Simulated/Refused.antt =====
-- What the simulated providers make of a new payment.
use gateway_orchestrator.Prelude.{◌≡◌, ap, ◌∙◌, subst, refl, false, some, List, ◌∷◌, Option}
use gateway_orchestrator.Effect.{Error}
use gateway_orchestrator.Domain.Enums.{PaymentProviderName, PaymentStatus}
use gateway_orchestrator.Domain.Payment.{
  Payment, allowed, state_transitions, includes, invalid_transition,
}
use gateway_orchestrator.Domain.Enums.{status_eq}
use gateway_orchestrator.Domain.Provider.{ProviderEntry, PaymentProvider}
use gateway_orchestrator.Domain.Records.{Headers, ProviderCredential}
use gateway_orchestrator.Routing.{ProviderCandidate}
use gateway_orchestrator.Runtime.{Env, State}
use gateway_orchestrator.Payments.Input.{CreatePaymentInput, Flow}
use gateway_orchestrator.Payments.Initial.{run_candidates}
use gateway_orchestrator.Payments.Initial.Refused.{
  GivenUp, refused-GivenUp, candidate_credential-returns,
}
use gateway_orchestrator.Providers.{Node, normalize_response}
use gateway_orchestrator.Providers.Config.{ProviderEnv}
use gateway_orchestrator.Providers.Simulated.{
  payfast_factory, stitch_factory, payfast_provider, stitch_provider, simulate_payment,
}

-- The names of the two providers, and their entries in the registry.
pub data Simulator : Type 0 where
  payfast stitch : Simulator

abbrev pub name_of : Simulator → PaymentProviderName
name_of Simulator.payfast = PaymentProviderName.payfast
name_of Simulator.stitch = PaymentProviderName.stitch

not_allowed :
    {from : PaymentStatus}
    → from ≡ PaymentStatus.created
    → allowed from PaymentStatus.captured ≡ false
unfolding allowed state_transitions includes status_eq
not_allowed e = rw e refl

module _ {W : Type 0} (node : Node W) (settings : ProviderEnv) where
  abbrev pub factory_of : Simulator → Option ProviderCredential → PaymentProvider W
  factory_of Simulator.payfast = payfast_factory node settings
  factory_of Simulator.stitch = stitch_factory node settings

  module _ (env : Env W) (input : CreatePaymentInput) (headers : Headers) where
    module _ (last : Error) (p : Payment) (c : ProviderCandidate) (cs : List ProviderCandidate)
        (s : State W) where
      -- The flow gives up on an answer that says `CAPTURED`, with the error for a status before it.
      abbrev GivesUpFrom : PaymentStatus → Type 0
      GivesUpFrom from =
          GivenUp env Flow.payment input headers p.id
            (invalid_transition from PaymentStatus.captured) (node.random_uuid s.remote).1
            (run_candidates env Flow.payment input headers last p (c ∷ cs) s)

    -- A new payment whose first candidate is PayFast or Stitch, with their entries in the registry, is always
    -- given up by the flow `payment`, whether or not the candidate carries a credential: the flow throws that
    -- `CREATED` may not become `CAPTURED`, asks no other candidate, whichever are left, and the
    -- payment is stored as `FAILED`.
    pub simulated_payment-GivenUp :
        (simulator : Simulator) (last : Error) (p : Payment) (c : ProviderCandidate)
        (cs : List ProviderCandidate) (s : State W)
        → p.status ≡ PaymentStatus.created
        → c.provider ≡ name_of simulator
        → env.providers (name_of simulator) ≡ some (ProviderEntry.factory (factory_of simulator))
        → GivenUp env Flow.payment input headers p.id
            (invalid_transition PaymentStatus.created PaymentStatus.captured)
            (node.random_uuid s.remote).1
            (run_candidates env Flow.payment input headers last p (c ∷ cs) s)
    unfolding payfast_factory stitch_factory payfast_provider stitch_provider simulate_payment
        normalize_response
    simulated_payment-GivenUp Simulator.payfast last p c cs s created name provided =
        let (k, credential) = candidate_credential-returns env Flow.payment input headers c s in
        subst (GivesUpFrom last p c cs s) created (
          refused-GivenUp env Flow.payment input headers last p c cs s k
            (ProviderEntry.factory (factory_of Simulator.payfast)) _ _ created (not_allowed created)
            credential (ap env.providers name ∙ provided) refl)
    simulated_payment-GivenUp Simulator.stitch last p c cs s created name provided =
        let (k, credential) = candidate_credential-returns env Flow.payment input headers c s in
        subst (GivesUpFrom last p c cs s) created (
          refused-GivenUp env Flow.payment input headers last p c cs s k
            (ProviderEntry.factory (factory_of Simulator.stitch)) _ _ created (not_allowed created)
            credential (ap env.providers name ∙ provided) refl)
