-- ===== src/Domain/Provider.antt =====
-- src/domain/provider.interface.ts: what the service asks of a payment provider. A provider acts on
-- the world outside the service, of type `W`: the gateway's servers and the provider's own state.
use gateway_orchestrator.Prelude.{ℕ, String, Bool, Option}
use gateway_orchestrator.Value.{Value}
use gateway_orchestrator.Effect.{Action}
use gateway_orchestrator.Domain.Enums.{PaymentProviderName, PaymentStatus}
use gateway_orchestrator.Domain.Records.{WebhookEvent, ProviderCredential}

pub record RedirectContext : Type 0 where
  pub return_url : Option String
  pub cancel_url : Option String
  pub notification_url : Option String
  pub redirect_channel : Option String

-- `PaymentRequest` and `AuthorizeRequest`, which have the same fields.
pub record PaymentRequest : Type 0 where
  pub payment_id : String
  pub amount : ℕ
  pub currency : String
  pub customer_reference : Option String
  pub payment_method : Option String
  pub transaction_type : Option String
  pub redirect_context : Option RedirectContext
  pub metadata : Value

pub record PaymentResponse : Type 0 where
  pub provider : PaymentProviderName
  pub status : PaymentStatus
  pub provider_reference : String
  pub amount : ℕ
  pub currency : String
  pub redirect_url : Option String
  pub raw_response : Value

-- `CaptureRequest`, `RefundRequest` and `VoidRequest`, which have the same fields.
pub record OperationRequest : Type 0 where
  pub transaction_id : String
  pub amount : ℕ
  pub currency : String
  pub merchant_reference : Option String

pub record LookupTransactionRequest : Type 0 where
  pub payu_reference : String
  pub provider_reference : Option String
  pub merchant_reference : Option String

-- `payuReference` is declared a string; the Peach adapter leaves it out.
pub record LookupTransactionResult : Type 0 where
  pub payu_reference : Option String
  pub provider_reference : Option String
  pub merchant_reference : String
  pub transaction_state : String
  pub transaction_type : String
  pub status : PaymentStatus
  pub amount_in_cents : ℕ
  pub currency : String
  pub result_code : String
  pub result_message : String
  pub raw_response : Value

pub record PaymentProvider (W : Type 0) : Type 0 where
  pub payment : PaymentRequest → Action W PaymentResponse
  pub authorize : PaymentRequest → Action W PaymentResponse
  pub capture : OperationRequest → Action W PaymentResponse
  pub refund : OperationRequest → Action W PaymentResponse
  pub void : OperationRequest → Action W PaymentResponse
  pub verify_webhook_signature : String → String → Bool
  pub handle_webhook : Value → Action W (Option WebhookEvent)
  pub lookup_transaction : Option (LookupTransactionRequest → Action W LookupTransactionResult)

-- `PaymentProvider | PaymentProviderFactory`
pub data ProviderEntry (W : Type 0) : Type 0 where
  instance_of : PaymentProvider W → ProviderEntry W
  factory : (Option ProviderCredential → PaymentProvider W) → ProviderEntry W
