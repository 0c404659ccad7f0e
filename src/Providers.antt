-- ===== src/Providers.antt =====
-- The payment providers of src/providers. A provider acts on a world `W`; Node's `randomUUID` and the hex digest of
-- its SHA-256 HMAC are parameters. The observation of latencies is left out.
pub mod Config
pub mod Simulated
pub mod Peach
pub mod Payflex
pub mod Payu
use gateway_orchestrator.Prelude.{ℕ, String, Bool, Option, none, some, List, ◌==◌}
use gateway_orchestrator.Value.{Value, obj, undefined, property, as_string, Fields, end}
use gateway_orchestrator.Effect.{Action}
use gateway_orchestrator.HttpClient.{Client, request_with_retry}
use gateway_orchestrator.Domain.Enums.{PaymentProviderName, PaymentStatus}
use gateway_orchestrator.Domain.Provider.{PaymentResponse}

pub record Node (W : Type 0) : Type 0 where
  pub random_uuid : W → String × W
  -- `createHmac('sha256', secret).update(payload).digest('hex')`
  pub hmac : String → String → String

-- `BaseProvider.verifyWebhookSignature`
unfoldable pub verify_signature : (String → String → String) → String → String → String → Bool
verify_signature hmac webhook_secret payload signature = hmac webhook_secret payload == signature

unfoldable pub normalize_response :
    PaymentProviderName → String → ℕ → String → PaymentStatus → Value → PaymentResponse
normalize_response provider_name provider_reference amount currency status raw_response = record {
  provider = provider_name;
  status = status;
  provider_reference = provider_reference;
  amount = amount;
  currency = currency;
  redirect_url = none;
  raw_response = raw_response;
}

-- The configuration of a request, as the adapters write it.
pub record HttpRequest : Type 0 where
  pub method : String
  pub url : String
  pub headers : List (String × String)
  pub request_data : Value
  pub response_type : Option String

-- What the adapters of the gateways call besides: the HTTP client, and functions of the platform.
-- `parse_json` gives none where it throws; `cents` is `Math.round(parseFloat(text) * 100)`.
pub record Web (W : Type 0) : Type 0 where
  pub node : Node W
  pub client : Client W HttpRequest
  pub random_bytes : W → String × W
  pub date_now : W → ℕ × W
  pub to_upper_case : String → String
  pub to_lower_case : String → String
  pub encode_uri_component : String → String
  pub decode_uri_component : String → Option String
  pub url_search_params : List (String × String) → String
  pub parse_json : String → Option Value
  pub cents : String → ℕ

unfoldable pub send : {W : Type 0} → Web W → HttpRequest → Action W Value
send web request = request_with_retry web.client request

-- `value?.key`, where a value that is no object has none of the properties that are read.
abbrev pub property_of : Value → String → Value
property_of (obj fields) key = property fields key
property_of _ key = undefined

-- A property of a gateway's answer that is declared a string, as which it is taken to come, or absent.
abbrev pub text_of : Value → String → Option String
text_of value key = as_string (property_of value key)

-- `...value`, of an object.
abbrev pub fields_of : Value → Fields
fields_of (obj fields) = fields
fields_of _ = end
