-- ===== src/Examples/Others.antt =====
-- Histories of statuses, onboarding and polling.
use gateway_orchestrator.Prelude.{
  ℕ, ◌+◌, ◌≤◌, ◌≡◌, refl, true, none, some, [], ◌∷◌, arith, get, values, false,
}
use gateway_orchestrator.Prelude.Text.{truthy, is_empty}
use gateway_orchestrator.Value.{undefined}
use gateway_orchestrator.Effect.{returned, ◌>>=◌, follow, pure, gets, modify}
use gateway_orchestrator.Domain.Enums.{PaymentProviderName, PaymentStatus, status_eq}
use gateway_orchestrator.Domain.Payment.{allowed, state_transitions, includes}
use gateway_orchestrator.Domain.Records.{Merchant}
use gateway_orchestrator.Domain.Transitions.{
  Evolves, still, then_to, rank, length, length-le-rank, Evolves-antisym, Evolves-final,
}
use gateway_orchestrator.Routing.{
  ResolveProviderCandidatesInput, explicit_candidate, resolve_candidates,
}
use gateway_orchestrator.Runtime.{State, now}
use gateway_orchestrator.Onboarding.{
  CreateMerchantInput, RegisterProviderInput, create_merchant, register_provider,
  assert_provider_credentials, require_credentials, upsert_credential,
}
use gateway_orchestrator.Onboarding.Registered.{
  create_merchant-idempotent, registered-resolved, registered_credential,
}
use gateway_orchestrator.Polling.{
  PaymentPollingState, default_payment_polling_config, get_next_payment_polling_delay,
  get_payment_polling_decision,
}
use gateway_orchestrator.Polling.Decisions.{stopped-stays, delay-monotone}
use gateway_orchestrator.Repositories.Merchants
use gateway_orchestrator.Repositories.Payments
use gateway_orchestrator.Domain.Records.{RoutingRule}
use gateway_orchestrator.Domain.Enums.{provider_text}
use gateway_orchestrator.Repositories.Configs
use gateway_orchestrator.Routing.{
  with_merchant, route_for_merchant, route_by_rules, or_no_candidates, routed_candidates,
  candidate_of, rule_matches,
}
use gateway_orchestrator.Routing.Candidates.{Usable, resolve-Usable}
use gateway_orchestrator.Prelude.{put, values, filter, sort, insert_sorted}
use gateway_orchestrator.Examples.{payu_credential, env, empty}

-- A payment that is authorized, captured and refunded.
abbrev refund_history : Evolves PaymentStatus.created PaymentStatus.refunded
unfolding allowed state_transitions includes status_eq
refund_history =
    then_to {b = PaymentStatus.captured}
      (then_to {b = PaymentStatus.authorized} (then_to {b = PaymentStatus.created} still refl) refl)
      refl

length-le-rank_example :
    length refund_history + rank PaymentStatus.refunded ≤ rank PaymentStatus.created
length-le-rank_example = length-le-rank refund_history

Evolves-antisym_example : PaymentStatus.pending ≡ PaymentStatus.pending
Evolves-antisym_example = Evolves-antisym {a = PaymentStatus.pending} still still

Evolves-final_example : PaymentStatus.refunded ≡ PaymentStatus.refunded
Evolves-final_example = Evolves-final {a = PaymentStatus.refunded} refl still

abbrev shop : CreateMerchantInput
shop = record { merchant_identifier = "shop"; merchant_name = "Shop"; metadata = undefined }

create_merchant-idempotent_example :
    create_merchant env shop (create_merchant env shop empty).1 ≡ create_merchant env shop empty
create_merchant-idempotent_example = create_merchant-idempotent env shop empty

abbrev shop_merchant : Merchant
shop_merchant = record {
  id = "m-1";
  merchant_identifier = "shop";
  merchant_name = "Shop";
  metadata = undefined;
  created_at = 0;
  updated_at = 0;
}

abbrev payu_rule : RoutingRule
payu_rule = record {
  id = "rule-1";
  merchant_identifier = "shop";
  route_to_provider = PaymentProviderName.payu;
  priority = 1;
  payment_method = none;
  currency = some "ZAR";
  country = none;
  enabled = true;
  weight = none;
  metadata = undefined;
  updated_at = 0;
}

abbrev with_shop : State ℕ
with_shop = record empty {
  merchants = ("shop", shop_merchant) ∷ [];
  routing_rules = ("rule-2", record payu_rule { merchant_identifier = "other" }) ∷ [];
}

abbrev registration : RegisterProviderInput
registration = record {
  provider = PaymentProviderName.stitch;
  merchant_identifier = "shop";
  merchant_name = "Shop";
  payu_credentials = none;
  payflex_credentials = none;
  payfast_credentials = none;
  stitch_credentials = some (record { api_key = "key"; base_url = none; webhook_secret = none });
  peach_credentials = none;
  metadata = undefined;
}

abbrev query : ResolveProviderCandidatesInput
query = record {
  merchant_identifier = some "shop";
  explicit_provider = some PaymentProviderName.stitch;
  payment_method = none;
  currency = "ZAR";
}

registered-resolved_example :
    (resolve_candidates query (register_provider env registration with_shop).1).0
    ≡ returned (
        explicit_candidate PaymentProviderName.stitch
          (some (registered_credential env registration with_shop))
        ∷ [])
unfolding register_provider assert_provider_credentials require_credentials upsert_credential ◌>>=◌
    follow pure now modify get truthy is_empty values
registered-resolved_example =
    registered-resolved env registration with_shop _ shop_merchant query refl refl
      (λ enabled e. cc, tt) refl refl refl

abbrev fresh : PaymentPollingState
fresh = record { attempt = 0; started_at = 0; now = some 1000 }

abbrev later_on : PaymentPollingState
later_on = record { attempt = 9; started_at = 0; now = some 61000 }

abbrev used_up : PaymentPollingState
used_up = record { attempt = 30; started_at = 0; now = some 90000 }

abbrev much_later : PaymentPollingState
much_later = record { attempt = 31; started_at = 0; now = some 100000 }

stopped-stays_example :
    let decision =
      get_payment_polling_decision 0 PaymentStatus.pending much_later
        default_payment_polling_config in
    (decision.should_poll ≡ false) × (decision.next_delay_ms ≡ none)
unfolding get_payment_polling_decision
stopped-stays_example =
    stopped-stays 0 PaymentStatus.pending used_up much_later default_payment_polling_config refl
      (omega arith) (omega arith) refl

delay-monotone_example :
    get_next_payment_polling_delay 0 fresh default_payment_polling_config
    ≤ get_next_payment_polling_delay 0 later_on default_payment_polling_config
delay-monotone_example =
    delay-monotone 0 fresh later_on default_payment_polling_config (omega arith) (omega arith) refl
      (omega arith) (omega arith)

-- A shop with a rule, and the credential that the rule needs.
abbrev routed : State ℕ
routed = record with_shop {
  credentials = ("shop:PAYU", payu_credential) ∷ [];
  routing_rules = ("rule-1", payu_rule) ∷ [];
}

resolve-Usable_example :
    Usable routed.credentials "shop" (candidate_of payu_rule payu_credential ∷ [])
unfolding resolve_candidates with_merchant route_for_merchant route_by_rules or_no_candidates
    routed_candidates candidate_of rule_matches ◌>>=◌ follow pure gets get put values filter sort
    insert_sorted truthy is_empty provider_text Merchants.find_by_merchant_identifier
    Configs.list_routing_rules Configs.of_merchant Configs.get_credential Configs.credential_key
    Payments.optional_eq
resolve-Usable_example = resolve-Usable routed "shop" query _ refl refl refl
