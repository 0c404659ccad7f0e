-- ===== src/Domain/Records.antt =====
-- The other stored entities: payment-operation.entity.ts, webhook-event.entity.ts,
-- merchant.entity.ts, and the logs, credentials and routing rules of
-- src/infrastructure/repositories.
use gateway_orchestrator.Prelude.{ℕ, String, Bool, Option, List}
use gateway_orchestrator.Value.{Value}
use gateway_orchestrator.Domain.Enums.{
  PaymentProviderName, PaymentStatus, PaymentOperationType, PaymentOperationState,
  WebhookEventState,
}

pub record PaymentOperation : Type 0 where
  pub id : String
  pub payment_id : String
  pub merchant_identifier : Option String
  pub provider : PaymentProviderName
  pub type : PaymentOperationType
  pub idempotency_key : String
  pub request_hash : String
  pub amount : Option ℕ
  pub currency : Option String
  pub state : PaymentOperationState
  pub resulting_payment_status : Option PaymentStatus
  pub provider_reference : Option String
  pub error_code : Option String
  pub error_message : Option String
  pub created_at : ℕ
  pub updated_at : ℕ

pub record WebhookEvent : Type 0 where
  pub merchant_reference : Option String
  pub provider_reference : Option String
  pub status : Option PaymentStatus
  pub response_hash : Option String
  pub raw_payload : Value

pub record WebhookEventRecord : Type 0 where
  pub id : String
  pub provider : PaymentProviderName
  pub payment_id : Option String
  pub merchant_reference : Option String
  pub provider_reference : Option String
  pub response_hash : Option String
  pub payload_hash : String
  pub dedupe_key : String
  pub signature : Option String
  pub raw_payload : String
  pub event : Option WebhookEvent
  pub resulting_payment_status : Option PaymentStatus
  pub state : WebhookEventState
  pub error_message : Option String
  pub created_at : ℕ
  pub updated_at : ℕ

pub record Merchant : Type 0 where
  pub id : String
  pub merchant_identifier : String
  pub merchant_name : String
  pub metadata : Value
  pub created_at : ℕ
  pub updated_at : ℕ

-- A header's value: `string | string[] | undefined`.
pub data HeaderValue : Type 0 where
  missing : HeaderValue
  one : String → HeaderValue
  many : List String → HeaderValue

abbrev pub Headers : Type 0
Headers = List (String × HeaderValue)

pub record PaymentLog : Type 0 where
  pub id : String
  pub payment_id : String
  pub provider : String
  pub request : Value
  pub response : Value
  pub headers : Headers
  pub response_time_ms : ℕ
  pub created_at : ℕ

pub record PayUCredentials : Type 0 where
  pub username : String
  pub password : String
  pub safekey : String
  pub base_url : Option String
  pub redirect_base_url : Option String
  pub default_return_url : Option String
  pub default_cancel_url : Option String
  pub default_notification_url : Option String
  pub webhook_secret : Option String

pub record PayFlexCredentials : Type 0 where
  pub client_id : String
  pub client_secret : String
  pub auth_url : Option String
  pub audience : Option String
  pub base_url : Option String
  pub api_key : Option String
  pub webhook_secret : Option String

pub record ApiKeyCredentials : Type 0 where
  pub api_key : String
  pub base_url : Option String
  pub webhook_secret : Option String

pub record ProviderCredential : Type 0 where
  pub provider : PaymentProviderName
  pub merchant_identifier : String
  pub merchant_name : String
  pub payu_credentials : Option PayUCredentials
  pub payflex_credentials : Option PayFlexCredentials
  pub payfast_credentials : Option ApiKeyCredentials
  pub stitch_credentials : Option ApiKeyCredentials
  pub peach_credentials : Option ApiKeyCredentials
  pub base_url : Option String
  pub redirect_base_url : Option String
  pub api_key : Option String
  pub safekey : Option String
  pub soap_username : Option String
  pub soap_password : Option String
  pub webhook_secret : Option String
  pub metadata : Value
  pub updated_at : ℕ

pub record RoutingRule : Type 0 where
  pub id : String
  pub merchant_identifier : String
  pub route_to_provider : PaymentProviderName
  pub priority : ℕ
  pub payment_method : Option String
  pub currency : Option String
  pub country : Option String
  pub enabled : Bool
  pub weight : Option ℕ
  pub metadata : Value
  pub updated_at : ℕ
