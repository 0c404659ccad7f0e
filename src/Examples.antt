-- ===== src/Examples.antt =====
-- A gateway, an environment, states and requests on which the methods of the services are run.
mod Creating
mod Changing
mod Deliveries
mod Others
mod Tables
mod Requests
mod Providers
mod Bodies
mod Payu
use gateway_orchestrator.Prelude.{
  ℕ, ◌+◌, String, Bool, true, false, Option, none, some, List, [], ◌∷◌, ◌==◌, nat_eq, if◌then◌else◌,
}
use gateway_orchestrator.Value.{Value, undefined, end}
use gateway_orchestrator.Effect.{Action, Outcome, returned}
use gateway_orchestrator.Domain.Enums.{PaymentProviderName, PaymentStatus, PaymentOperationType}
use gateway_orchestrator.Domain.Payment.{Payment}
use gateway_orchestrator.Domain.Provider.{
  PaymentProvider, PaymentResponse, ProviderEntry, OperationRequest,
}
use gateway_orchestrator.Domain.Records.{ProviderCredential, WebhookEvent}
use gateway_orchestrator.Runtime.{Env, State}
use gateway_orchestrator.Payments.Input.{CreatePaymentInput}
use gateway_orchestrator.Payments.Stored.{StoredInput}
use gateway_orchestrator.Payments.Webhook.{Delivery}

-- What the gateway answers; its world is the number of its calls.
abbrev pub answer : PaymentStatus → ℕ → Outcome PaymentResponse × ℕ
answer status calls = (
  returned (record {
    provider = PaymentProviderName.payu;
    status = status;
    provider_reference = "ref-1";
    amount = 1000;
    currency = "ZAR";
    redirect_url = none;
    raw_response = undefined;
  }),
  calls + 1,
)

-- The event that the gateway reads from every payload.
abbrev pub captured_event : WebhookEvent
captured_event = record {
  merchant_reference = some "pay-0";
  provider_reference = some "ref-1";
  status = some PaymentStatus.captured;
  response_hash = some "hash-1";
  raw_payload = undefined;
}

abbrev pub gateway : PaymentProvider ℕ
gateway = record {
  payment = λ request. answer PaymentStatus.captured;
  authorize = λ request. answer PaymentStatus.authorized;
  capture = λ request. answer PaymentStatus.captured;
  refund = λ request. answer PaymentStatus.refunded;
  void = λ request. answer PaymentStatus.failed;
  verify_webhook_signature = λ payload signature. signature == "good";
  handle_webhook = λ payload calls. (returned (some captured_event), calls + 1);
  lookup_transaction = none;
}

abbrev pub entry : ProviderEntry ℕ
entry = ProviderEntry.factory (λ credential. gateway)

abbrev pub env : Env ℕ
env = record {
  providers = λ name. some entry;
  mongo_enabled = false;
  default_merchant_identifier = "default";
  sharing = true;
  random_uuid = λ n. if nat_eq n 0 then "pay-0" else if nat_eq n 1 then "id-1" else "id-2";
  clock = λ n. n;
  sha256 = λ text. text;
  stringify = λ value. "value";
}

abbrev pub empty : State ℕ
empty = record {
  payments = [];
  logs = [];
  operations = [];
  webhook_events = [];
  credentials = [];
  routing_rules = [];
  merchants = [];
  ids = 0;
  ticks = 0;
  remote = 0;
}

abbrev pub request : CreatePaymentInput
request = record {
  provider = some PaymentProviderName.payu;
  merchant_identifier = none;
  amount = 1000;
  currency = "ZAR";
  idempotency_key = "key-1";
  customer_reference = none;
  payment_method = none;
  transaction_type = none;
  redirect_context = none;
  metadata = undefined;
}

-- A payment of the gateway that was authorized before.
abbrev pub authorized_payment : Payment
authorized_payment = record {
  id = "pay-0";
  merchant_identifier = none;
  provider = PaymentProviderName.payu;
  amount = 1000;
  currency = "ZAR";
  status = PaymentStatus.authorized;
  provider_reference = some "ref-1";
  checkout_url = none;
  idempotency_key = "key-1";
  initial_request_hash = some "value";
  created_at = 0;
  updated_at = 0;
}

abbrev pub authorized : State ℕ
authorized = record empty { payments = ("pay-0", authorized_payment) ∷ [] }

abbrev pub payu_credential : ProviderCredential
payu_credential = record {
  provider = PaymentProviderName.payu;
  merchant_identifier = "shop";
  merchant_name = "Shop";
  payu_credentials = none;
  payflex_credentials = none;
  payfast_credentials = none;
  stitch_credentials = none;
  peach_credentials = none;
  base_url = none;
  redirect_base_url = none;
  api_key = none;
  safekey = none;
  soap_username = none;
  soap_password = none;
  webhook_secret = none;
  metadata = undefined;
  updated_at = 0;
}

abbrev pub stored_request : PaymentOperationType → StoredInput
stored_request type = record {
  payment_id = "pay-0";
  type = type;
  headers = [];
  request_payload = end;
  build_provider_request = λ payment. record {
    transaction_id = "ref-1";
    amount = payment.amount;
    currency = payment.currency;
    merchant_reference = some payment.id;
  };
  log_request = λ payment. undefined;
}

abbrev pub delivery : String → Delivery
delivery signature = record {
  provider_name = PaymentProviderName.payu;
  raw_payload = "payload";
  signature = signature;
  parsed_payload = undefined;
}
