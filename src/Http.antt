-- ===== src/Http.antt =====
-- src/controllers/payment.controller.ts and src/middleware/error.middleware.ts: what a request is
-- answered. What Express and the schemas of src/utils/validators.ts take from a request is given.
pub mod Replies
use gateway_orchestrator.Prelude.{
  ℕ, String, Bool, Option, none, some, List, [], ◌∷◌, if◌then◌else◌, coalesce,
}
use gateway_orchestrator.Prelude.Text.{template, truthy, is_empty}
use gateway_orchestrator.Value.{Fields}
use gateway_orchestrator.Effect.{
  Error, http_request_error, provider_operation_error, plain_error, not_an_error, Action, ◌>>=◌,
  pure, raise, handling,
}
use gateway_orchestrator.Domain.Payment.{Payment}
use gateway_orchestrator.Domain.Enums.{PaymentProviderName, PaymentStatus}
use gateway_orchestrator.Domain.Provider.{LookupTransactionResult}
use gateway_orchestrator.Domain.Records.{Headers, HeaderValue, PaymentLog, WebhookEventRecord}
use gateway_orchestrator.Runtime.{Env, State}
use gateway_orchestrator.Payments.Input.{CreatePaymentInput, RefundPaymentInput, Flow}
use gateway_orchestrator.Payments.Initial.{payment, authorize_payment}
use gateway_orchestrator.Payments.Stored.{capture_payment, refund_payment, void_payment}
use gateway_orchestrator.Payments.Lookup.{
  get_payment, list_transactions, list_transaction_logs, list_webhook_events,
  lookup_provider_status,
}

-- Its `mode` and `method` are always `IFRAME` and `GET`.
pub record InlineRedirect : Type 0 where
  pub url : String
  pub fallback_url : String

-- A payment without the hash of its request.
pub record PaymentResponsePayload : Type 0 where
  pub id : String
  pub merchant_identifier : Option String
  pub provider : PaymentProviderName
  pub amount : ℕ
  pub currency : String
  pub status : PaymentStatus
  pub provider_reference : Option String
  pub checkout_url : Option String
  pub idempotency_key : String
  pub created_at : ℕ
  pub updated_at : ℕ
  pub redirect_link : Option String
  pub redirect_url : Option String
  pub inline_redirect : Option InlineRedirect

unfoldable pub to_inline_redirect : Payment → Option InlineRedirect
to_inline_redirect p =
    if truthy p.checkout_url
    then some
        (record { url = coalesce p.checkout_url ""; fallback_url = coalesce p.checkout_url "" })
    else none

unfoldable pub to_payment_response : Payment → PaymentResponsePayload
to_payment_response p = record {
  id = p.id;
  merchant_identifier = p.merchant_identifier;
  provider = p.provider;
  amount = p.amount;
  currency = p.currency;
  status = p.status;
  provider_reference = p.provider_reference;
  checkout_url = p.checkout_url;
  idempotency_key = p.idempotency_key;
  created_at = p.created_at;
  updated_at = p.updated_at;
  redirect_link = p.checkout_url;
  redirect_url = p.checkout_url;
  inline_redirect = to_inline_redirect p;
}

pub data Body : Type 0 where
  payment_body : PaymentResponsePayload → Body
  payment_list : List PaymentResponsePayload → Body
  log_list : List PaymentLog → Body
  event_list : List WebhookEventRecord → Body
  lookup_body : LookupTransactionResult → Body
  error_body : (error : Option String) (code : Option String) (details : Option Fields) → Body

-- `res.status(status).json(body)`
pub record Reply : Type 0 where
  pub status : ℕ
  pub body : Body

unfoldable pub error_handler : Error → Reply
error_handler (provider_operation_error e) = record {
  status = e.status_code;
  body = error_body (some e.message) e.code e.details;
}
error_handler (http_request_error e) = record {
  status = 400;
  body = error_body (some e.message) none none;
}
error_handler (plain_error message) = record {
  status = 400;
  body = error_body (some message) none none;
}
error_handler not_an_error = record { status = 400; body = error_body none none none }

unfoldable pub payment_responses : List Payment → List PaymentResponsePayload
payment_responses [] = []
payment_responses (p ∷ ps) = to_payment_response p ∷ payment_responses ps

module _ {W : Type 0} where
  abbrev missing_param : String → Action (State W) String
  missing_param key = raise (plain_error (template ("Missing or invalid path param: " ∷ key ∷ [])))

  unfoldable pub require_string_param : HeaderValue → String → Action (State W) String
  require_string_param (HeaderValue.one value) key =
      if is_empty value then missing_param key else pure value
  require_string_param (HeaderValue.many (value ∷ values)) key = pure value
  require_string_param (HeaderValue.many []) key = missing_param key
  require_string_param HeaderValue.missing key = missing_param key

  -- The argument is `req.header('idempotency-key')`.
  unfoldable pub require_idempotency_key : Option String → Action (State W) String
  require_idempotency_key header =
      if truthy header
      then pure (coalesce header "")
      else raise (plain_error "Missing idempotency-key header")

  abbrev pub reply : ℕ → Body → Action (State W) Reply
  reply status body = pure (record { status = status; body = body })

  unfoldable pub payment_or_404 : Option Payment → Action (State W) Reply
  payment_or_404 none = reply 404 (error_body (some "Payment not found") none none)
  payment_or_404 (some p) = reply 200 (payment_body (to_payment_response p))

  unfoldable pub answer_get_by_id : HeaderValue → Action (State W) Reply
  answer_get_by_id id = do
    payment_id ← require_string_param id "id"
    found ← get_payment payment_id
    payment_or_404 found

  unfoldable pub answer_list_transactions : Action (State W) Reply
  answer_list_transactions = do
    payments ← list_transactions
    reply 200 (payment_list (payment_responses payments))

  unfoldable pub answer_list_transaction_logs : HeaderValue → Action (State W) Reply
  answer_list_transaction_logs id = do
    payment_id ← require_string_param id "id"
    logs ← list_transaction_logs payment_id
    reply 200 (log_list logs)

  unfoldable pub answer_list_webhook_events : HeaderValue → Action (State W) Reply
  answer_list_webhook_events id = do
    payment_id ← require_string_param id "id"
    events ← list_webhook_events payment_id
    reply 200 (event_list events)

module _ {W : Type 0} (env : Env W) where
  -- `payload` is the parsed body; its idempotency key is replaced by the header.
  unfoldable pub create_like_flow :
      Flow → CreatePaymentInput → Option String → Headers → Action (State W) Payment
  create_like_flow Flow.payment payload header headers = do
    key ← require_idempotency_key header
    payment env (record payload { idempotency_key = key }) headers
  create_like_flow Flow.authorize payload header headers = do
    key ← require_idempotency_key header
    authorize_payment env (record payload { idempotency_key = key }) headers

  -- `payment`, and with the other mode `authorize` and `create`.
  unfoldable pub answer_create :
      Flow → CreatePaymentInput → Option String → Headers → Action (State W) Reply
  answer_create mode payload header headers = do
    p ← create_like_flow mode payload header headers
    reply 201 (payment_body (to_payment_response p))

  unfoldable pub answer_lookup : HeaderValue → Headers → Action (State W) Reply
  answer_lookup id headers = do
    payment_id ← require_string_param id "id"
    result ← lookup_provider_status env payment_id headers
    reply 200 (lookup_body result)

  unfoldable pub answer_capture : HeaderValue → Headers → Action (State W) Reply
  answer_capture id headers = do
    payment_id ← require_string_param id "id"
    p ← capture_payment env payment_id headers
    reply 200 (payment_body (to_payment_response p))

  unfoldable pub answer_refund : HeaderValue → ℕ → String → Headers → Action (State W) Reply
  answer_refund id amount currency headers = do
    payment_id ← require_string_param id "id"
    p ←
        refund_payment env
          (record { payment_id = payment_id; amount = amount; currency = currency }) headers
    reply 200 (payment_body (to_payment_response p))

  unfoldable pub answer_void : HeaderValue → Headers → Action (State W) Reply
  answer_void id headers = do
    payment_id ← require_string_param id "id"
    p ← void_payment env payment_id headers
    reply 200 (payment_body (to_payment_response p))

-- The middleware: what a handler throws is answered by the error handler.
unfoldable pub answered : {W : Type 0} → Action (State W) Reply → Action (State W) Reply
answered handler = handling handler λ error. pure (error_handler error)
