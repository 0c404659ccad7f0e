-- ===== src/Examples/Providers.antt =====
-- A checkout of Peach, and a payment that is sent to Stitch.
use Prim.Native.Char.{Char}
use Prim.Native.String.{[], ◌∷◌}
use mathlib.Core.Option.{map}
use text.Mathlib.TextEquality.{Char-path}
use gateway_orchestrator.Prelude.{
  ℕ, ◌+◌, ◌≡◌, refl, ap, String, true, false, Option, none, some, List, arith, Bool-cases, inl, inr,
  get, if◌then◌else◌,
}
use gateway_orchestrator.Prelude.Text.{is_empty, has_char, char_eq}
use gateway_orchestrator.Effect.{not_an_error}
use gateway_orchestrator.Domain.Enums.{PaymentProviderName, PaymentStatus}
use gateway_orchestrator.Domain.Payment.{Payment, invalid_transition}
use gateway_orchestrator.Domain.Provider.{ProviderEntry}
use gateway_orchestrator.Runtime.{Env}
use gateway_orchestrator.Routing.{ProviderCandidate}
use gateway_orchestrator.Payments.Input.{Flow}
use gateway_orchestrator.Payments.Initial.{run_candidates}
use gateway_orchestrator.Payments.Initial.Refused.{GivenUp}
use gateway_orchestrator.Providers.{Node}
use gateway_orchestrator.Providers.Config.{ApiKeyProviderRuntimeConfig, ProviderEnv}
use gateway_orchestrator.Providers.Simulated.{stitch_factory}
use gateway_orchestrator.Providers.Simulated.Refused.{Simulator, simulated_payment-GivenUp}
use gateway_orchestrator.Providers.Peach.Forms.{
  Params, verify_peach_checkout_signature, signed_form_body,
}
use gateway_orchestrator.Providers.Peach.Forms.Verifies.{signed-verifies}
use gateway_orchestrator.Examples.{authorized_payment, request, env, empty}

-- The identifiers are the numbers of the calls.
abbrev node : Node ℕ
node = record { random_uuid = λ calls. ("uuid", calls + 1); hmac = λ secret payload. "digest" }

abbrev api_key_config : ApiKeyProviderRuntimeConfig
api_key_config = record {
  base_url = "https://example.test";
  api_key = "key";
  webhook_secret = "secret";
}

abbrev settings : ProviderEnv
settings = record {
  payu = record {
    base_url = "";
    webhook_secret = "";
    soap_username = "";
    soap_password = "";
    safekey = "";
    rpp_redirect_base_url = "";
    default_return_url = "";
    default_cancel_url = "";
    default_notification_url = "";
  };
  payflex = record {
    base_url = "";
    api_key = "";
    webhook_secret = "";
    auth_url = "";
    audience = "";
    client_id = "";
    client_secret = "";
  };
  payfast = api_key_config;
  stitch = api_key_config;
  peach = api_key_config;
}

abbrev stitch_env : Env ℕ
stitch_env = record env {
  providers = λ name. some (ProviderEntry.factory (stitch_factory node settings));
}

abbrev stitch_candidate : ProviderCandidate
stitch_candidate = record {
  provider = PaymentProviderName.stitch;
  credential = none;
  rule_id = none;
  priority = 0;
}

abbrev new_payment : Payment
new_payment = record authorized_payment {
  status = PaymentStatus.created;
  provider_reference = none;
}

simulated_payment-GivenUp_example :
    GivenUp stitch_env Flow.payment request List.[] "pay-0"
      (invalid_transition PaymentStatus.created PaymentStatus.captured)
      1
      (run_candidates stitch_env Flow.payment request List.[] not_an_error new_payment
        (List.◌∷◌ stitch_candidate List.[])
        empty)
simulated_payment-GivenUp_example =
    simulated_payment-GivenUp node settings stitch_env request List.[] Simulator.stitch not_an_error
      new_payment stitch_candidate List.[] empty refl refl refl

-- An encoding that writes each character as two.
encode : String → String
encode [] = []
encode (c ∷ s) =
    let rest = encode s in
    if char_eq c "&"
    then "a" ∷ "x" ∷ rest
    else if char_eq c "="
    then "e" ∷ "x" ∷ rest
    else "c" ∷ c ∷ rest

abbrev decoded : Char → Char → Char
decoded t d = if char_eq t "a" then "&" else if char_eq t "e" then "=" else d

decode : String → Option String
decode [] = some []
decode (t ∷ []) = none
decode (t ∷ d ∷ s) = map (λ rest. decoded t d ∷ rest) (decode s)

same_char : (c d : Char) → char_eq c d ≡ true → d ≡ c
same_char c d h = Char-path d c (ground arith)

inverse : (s : String) → decode (encode s) ≡ some s
unfolding encode decode
inverse [] = refl
inverse (c ∷ s) = elim (Bool-cases (char_eq c "&")) [
  | inl t ↦ rw (t, inverse s) (ap (λ d. some (d ∷ s)) (same_char c "&" t))
  | inr f ↦ elim (Bool-cases (char_eq c "=")) [
    | inl t ↦ rw (f, t, inverse s) (ap (λ d. some (d ∷ s)) (same_char c "=" t))
    | inr g ↦ rw (f, g, inverse s) refl
  ]
]

no_ampersand : (s : String) → has_char "&" (encode s) ≡ false
unfolding encode has_char
no_ampersand [] = refl
no_ampersand (c ∷ s) = ground (arith, no_ampersand s)

no_equals : (s : String) → has_char "=" (encode s) ≡ false
unfolding encode has_char
no_equals [] = refl
no_equals (c ∷ s) = ground (arith, no_equals s)

abbrev checkout_params : Params
checkout_params = List.◌∷◌ ("amount", "10.00") (List.◌∷◌ ("currency", "ZAR") List.[])

signed-verifies_example :
    verify_peach_checkout_signature decode node.hmac
      (signed_form_body encode node.hmac checkout_params "secret")
      "secret"
    ≡ some true
unfolding get is_empty
signed-verifies_example =
    signed-verifies encode decode
      (record { inverse = inverse; no_ampersand = no_ampersand; no_equals = no_equals }) node.hmac
      checkout_params "secret" (refl, (refl, tt)) refl (λ s t. refl)
