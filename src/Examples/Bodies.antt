-- ===== src/Examples/Bodies.antt =====
-- Bodies that the schemas accept, and a token of PayFlex.
use gateway_orchestrator.Prelude.{ℕ, ◌+◌, ◌≡◌, ◌↔◌, refl, none, some, [], filter, map_list}
use gateway_orchestrator.Prelude.Text.{is_empty, trim, truthy}
use gateway_orchestrator.Value.{Value, obj, field, end, str, num, undefined, property}
use gateway_orchestrator.Effect.{returned}
use gateway_orchestrator.Domain.Enums.{PaymentProviderName}
use gateway_orchestrator.Payments.Input.{CreatePaymentInput}
use gateway_orchestrator.Onboarding.{RegisterProviderInput, assert_provider_credentials}
use gateway_orchestrator.Repositories.Payments.{optional_eq}
use gateway_orchestrator.HttpClient.{answered}
use gateway_orchestrator.Providers.{Web}
use gateway_orchestrator.Providers.Config.{PayFlexRuntimeConfig}
use gateway_orchestrator.Providers.Payflex.Auth.{WithTokens, date_now}
use gateway_orchestrator.Providers.Payflex.Metadata.{assert_required_metadata_fields}
use gateway_orchestrator.Validation.{
  register_provider_issues, create_payment_issues, payflex_issues, peach_issues, s2s_issues,
  redirect_issues, requires_merchant_redirect_urls, is_payu_s2s_do_transaction_flow,
  get_missing_payflex_fields, get_missing_redirect_fields, is_given, is_filled, any,
}
use gateway_orchestrator.Validation.Accepted.{register_accepted_iff, payflex_accepted}
use gateway_orchestrator.Examples.{request, empty}

abbrev registration : RegisterProviderInput
registration = record {
  provider = PaymentProviderName.stitch;
  merchant_identifier = "shop";
  merchant_name = "Shop";
  payu_credentials = none;
  payflex_credentials = none;
  payfast_credentials = none;
  stitch_credentials = none;
  peach_credentials = none;
  metadata = undefined;
}

register_accepted_iff_example :
    (register_provider_issues registration ≡ [])
    ↔ (assert_provider_credentials registration empty ≡ (returned tt, empty))
register_accepted_iff_example = register_accepted_iff empty registration

abbrev payflex_body : CreatePaymentInput
payflex_body = record request {
  payment_method = some "PAYFLEX";
  redirect_context = some (record {
    return_url = some "https://shop.test/return";
    cancel_url = some "https://shop.test/cancel";
    notification_url = none;
    redirect_channel = none;
  });
  metadata = obj (
      field "firstName" (str "A") (
        field "surname" (str "B")
          (field "phoneNumber" (str "1") (field "email" (str "a@b.test") end))));
}

payflex_accepted_example :
    assert_required_metadata_fields payflex_body.metadata empty ≡ (returned tt, empty)
unfolding create_payment_issues payflex_issues peach_issues s2s_issues redirect_issues
    requires_merchant_redirect_urls is_payu_s2s_do_transaction_flow get_missing_payflex_fields
    get_missing_redirect_fields is_given is_filled any filter map_list property trim is_empty
    optional_eq truthy
payflex_accepted_example = payflex_accepted (λ s. s) (λ s. s) payflex_body empty refl refl

-- A gateway that gives a token for an hour; the world is the time.
abbrev token_answer : Value
token_answer = obj (field "access_token" (str "token-1") (field "expires_in" (num 3600) end))

abbrev web : Web ℕ
web = record {
  node = record { random_uuid = λ w. ("uuid", w); hmac = λ secret payload. "digest" };
  client = record {
    request = λ config w. ((1, answered token_answer), w + 1);
    sleep = λ ms w. w + ms;
    stringify = λ value. "value";
    max_retry_attempts = 3;
    request_timeout_ms = 1000;
  };
  random_bytes = λ w. ("00", w);
  date_now = λ w. (w, w);
  to_upper_case = λ s. s;
  to_lower_case = λ s. s;
  encode_uri_component = λ s. s;
  decode_uri_component = λ s. some s;
  url_search_params = λ params. "";
  parse_json = λ text. none;
  cents = λ text. 0;
}

abbrev config : PayFlexRuntimeConfig
config = record {
  base_url = "https://api.test";
  api_key = "key";
  webhook_secret = "secret";
  auth_url = "https://auth.test";
  audience = "https://api.test";
  client_id = "id";
  client_secret = "secret";
}

abbrev no_tokens : WithTokens ℕ
no_tokens = ([], 0)
