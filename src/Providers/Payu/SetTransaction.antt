-- ===== src/Providers/Payu/SetTransaction.antt =====
-- src/providers/payu/payu.set-transaction.ts. `is_test` is `env.nodeEnv === 'test'`, and
-- amounts are natural numbers. The answer is taken to be a text, as it is asked for.
use gateway_orchestrator.Prelude.{
  ◌*◌, String, Bool, false, not, ◌||◌, ◌&&◌, ◌==◌, Option, none, some, [], ◌∷◌, coalesce,
  if◌then◌else◌,
}
use gateway_orchestrator.Prelude.Text.{template, is_empty, truthy, decimal}
use gateway_orchestrator.Value.{Value, str, bool, as_string}
use gateway_orchestrator.Effect.{Outcome, returned, threw, plain_error, Action, ◌>>=◌}
use gateway_orchestrator.Domain.Provider.{PaymentRequest, RedirectContext}
use gateway_orchestrator.Providers.{Web, send, property_of, text_of}
use gateway_orchestrator.Providers.Config.{PayURuntimeConfig}
use gateway_orchestrator.Providers.Payu.CallbackUrls.{
  Urls, require_merchant_redirect_url, resolve_external_callback_url, assert_public_callback_urls,
}
use gateway_orchestrator.Providers.Payu.Xml.{escape_xml, read_tag}

pub record SetTransactionInput : Type 0 where
  pub config : PayURuntimeConfig
  pub request : PaymentRequest
  pub payment_method : String
  pub transaction_type : String

-- `input.request.redirectContext?.field`
abbrev context_text : PaymentRequest → (RedirectContext → Option String) → Option String
context_text request of_context = elim request.redirect_context [
  | none ↦ none
  | some context ↦ of_context context
]

-- What a synchronous call answers, as an action.
abbrev settle : {W A : Type 0} → Outcome A → Action W A
settle outcome world = (outcome, world)

unfoldable pub customer_field : Value → String → String
unfolding escape_xml
customer_field metadata name =
    let value = text_of metadata name in
    if truthy value
    then template
        ("\n        <" ∷ name ∷ ">" ∷ escape_xml (coalesce value "") ∷ "</" ∷ name ∷ ">" ∷ [])
    else ""

unfoldable pub customer_fields : Value → String
unfolding customer_field
customer_fields metadata = template (
    customer_field metadata "firstName"
    ∷ customer_field metadata "lastName"
    ∷ customer_field metadata "mobile"
    ∷ customer_field metadata "email"
    ∷ [])

unfoldable pub is_secure3d : (String → String) → Value → Bool
is_secure3d to_lower_case (bool b) = b
is_secure3d to_lower_case (str s) = to_lower_case s == "true"
is_secure3d to_lower_case _ = false

unfoldable pub set_transaction_payload :
    SetTransactionInput → String → String → String → String → Bool → String
unfolding escape_xml customer_fields
set_transaction_payload input redirect_channel notification_url return_url cancel_url
      secure3d_requested =
    template (
      "<?xml version=\"1.0\" encoding=\"UTF-8\"?>\n"
      ∷ "<SOAP-ENV:Envelope xmlns:SOAP-ENV=\"http://schemas.xmlsoap.org/soap/envelope/\" xmlns:ns1=\"http://soap.api.controller.web.payjar.com/\" xmlns:wsse=\"http://docs.oasis-open.org/wss/2004/01/oasis-200401-wss-wssecurity-secext-1.0.xsd\">\n"
      ∷ "  <SOAP-ENV:Header>\n"
      ∷ "    <wsse:Security SOAP-ENV:mustUnderstand=\"1\" xmlns:wsse=\"http://docs.oasis-open.org/wss/2004/01/oasis-200401-wss-wssecurity-secext-1.0.xsd\">\n"
      ∷ "      <wsse:UsernameToken wsu:Id=\"UsernameToken-9\" xmlns:wsu=\"http://docs.oasis-open.org/wss/2004/01/oasis-200401-wss-wssecurity-utility-1.0.xsd\">\n"
      ∷ "        <wsse:Username>"
      ∷ (escape_xml input.config.soap_username)
      ∷ "</wsse:Username>\n"
      ∷ "        <wsse:Password Type=\"http://docs.oasis-open.org/wss/2004/01/oasis-200401-wss-username-token-profile-1.0#PasswordText\">"
      ∷ (escape_xml input.config.soap_password)
      ∷ "</wsse:Password>\n"
      ∷ "      </wsse:UsernameToken>\n"
      ∷ "    </wsse:Security>\n"
      ∷ "  </SOAP-ENV:Header>\n"
      ∷ "  <SOAP-ENV:Body>\n"
      ∷ "    <ns1:setTransaction>\n"
      ∷ "      <Api>ONE_ZERO</Api>\n"
      ∷ "      <Safekey>"
      ∷ (escape_xml input.config.safekey)
      ∷ "</Safekey>\n"
      ∷ "      <TransactionType>"
      ∷ (escape_xml input.transaction_type)
      ∷ "</TransactionType>\n"
      ∷ "      <AdditionalInformation>\n"
      ∷ "        <merchantReference>"
      ∷ (escape_xml input.request.payment_id)
      ∷ "</merchantReference>\n"
      ∷ "        <supportedPaymentMethods>"
      ∷ (escape_xml input.payment_method)
      ∷ "</supportedPaymentMethods>\n"
      ∷ "        <redirectChannel>"
      ∷ (escape_xml redirect_channel)
      ∷ "</redirectChannel>\n"
      ∷ "        <notificationUrl>"
      ∷ (escape_xml notification_url)
      ∷ "</notificationUrl>\n"
      ∷ "        <returnUrl>"
      ∷ (escape_xml return_url)
      ∷ "</returnUrl>\n"
      ∷ "        <cancelUrl>"
      ∷ (escape_xml cancel_url)
      ∷ "</cancelUrl>\n"
      ∷ "        "
      ∷ (if secure3d_requested then "<secure3d>true</secure3d>" else "")
      ∷ "\n"
      ∷ "      </AdditionalInformation>\n"
      ∷ "      <Customer>\n"
      ∷ "        <merchantUserId>"
      ∷ (escape_xml (coalesce input.request.customer_reference input.request.payment_id))
      ∷ "</merchantUserId>\n"
      ∷ "        "
      ∷ (customer_fields input.request.metadata)
      ∷ "\n"
      ∷ "      </Customer>\n"
      ∷ "      <Basket>\n"
      ∷ "        <amountInCents>"
      ∷ (decimal (input.request.amount * 100))
      ∷ "</amountInCents>\n"
      ∷ "        <currencyCode>"
      ∷ (escape_xml input.request.currency)
      ∷ "</currencyCode>\n"
      ∷ "        <description>"
      ∷ (escape_xml (template ("Payment " ∷ input.request.payment_id ∷ [])))
      ∷ "</description>\n"
      ∷ "      </Basket>\n"
      ∷ "    </ns1:setTransaction>\n"
      ∷ "  </SOAP-ENV:Body>\n"
      ∷ "</SOAP-ENV:Envelope>"
      ∷ [])

-- The error of an answer without a reference.
unfoldable pub set_transaction_error : String → String
unfolding read_tag
set_transaction_error soap_response = template (
    "PayU setTransaction failed for redirect payment (resultCode="
    ∷ coalesce (read_tag soap_response "resultCode") "UNKNOWN"
    ∷ ", resultMessage="
    ∷ coalesce (read_tag soap_response "resultMessage") "No resultMessage returned by PayU"
    ∷ ")"
    ∷ [])

unfoldable pub answer_reference : String → Option String
unfolding read_tag
answer_reference soap_response = elim (read_tag soap_response "payUReference") [
  | some text ↦ some text
  | none ↦ read_tag soap_response "payureference"
]

-- The reference that an answer tells, or the error that is thrown without one.
unfoldable pub reference_of_answer : (String → String) → String → Outcome String
unfolding read_tag set_transaction_error answer_reference
reference_of_answer to_lower_case soap_response =
    let successful = to_lower_case (coalesce (read_tag soap_response "successful") "") == "true" in
    let reference = answer_reference soap_response in
    if not successful || not (truthy reference)
    then threw (plain_error (set_transaction_error soap_response))
    else returned (coalesce reference "")

module _ {W : Type 0} (web : Web W) (urls : Urls) (public_base_url : String) (is_test : Bool) where
  -- `payu_${randomUUID()}`
  unfoldable pub simulated_reference : Action W String
  simulated_reference world =
      let drawn = web.node.random_uuid world in
      (returned (template ("payu_" ∷ drawn.0 ∷ [])), drawn.1)

  unfoldable pub send_set_transaction : SetTransactionInput → String → Action W String
  unfolding reference_of_answer
  send_set_transaction input payload = do
    soap_response ← send web (record {
      method = "POST";
      url = input.config.base_url;
      headers = ("Content-Type", "text/xml; charset=utf-8") ∷ ("SOAPAction", "setTransaction") ∷ [];
      request_data = str payload;
      response_type = some "text";
    })
    settle (reference_of_answer web.to_lower_case (coalesce (as_string soap_response) ""))

  -- What follows the checks of the URLs.
  unfoldable pub submit : SetTransactionInput → String → String → String → Action W String
  unfolding simulated_reference send_set_transaction set_transaction_payload is_secure3d
  submit input return_url cancel_url notification_url =
      if is_test
        || is_empty input.config.soap_username
        || is_empty input.config.soap_password
        || is_empty input.config.safekey
      then simulated_reference
      else send_set_transaction input (
          set_transaction_payload input
            (coalesce (context_text input.request (λ c. c.redirect_channel)) "responsive")
            notification_url return_url cancel_url
            (input.payment_method == "CREDITCARD"
              && is_secure3d web.to_lower_case (property_of input.request.metadata "secure3d")))

  unfoldable pub create_set_transaction : SetTransactionInput → Action W String
  unfolding submit
  create_set_transaction input = do
    return_url ← settle (
        require_merchant_redirect_url urls public_base_url
          (context_text input.request (λ c. c.return_url)) "returnUrl" "redirect payments")
    cancel_url ← settle (
        require_merchant_redirect_url urls public_base_url
          (context_text input.request (λ c. c.cancel_url)) "cancelUrl" "redirect payments")
    let notification_url = resolve_external_callback_url urls public_base_url (
        coalesce (context_text input.request (λ c. c.notification_url))
          input.config.default_notification_url)
    checked ← settle (
        assert_public_callback_urls urls
          (some return_url ∷ some cancel_url ∷ some notification_url ∷ []))
    submit input return_url cancel_url notification_url

  unfoldable pub create_payment_set_transaction :
      PayURuntimeConfig → PaymentRequest → String → Action W String
  unfolding create_set_transaction
  create_payment_set_transaction config request payment_method = create_set_transaction (record {
    config = config;
    request = request;
    payment_method = payment_method;
    transaction_type = "PAYMENT";
  })

  unfoldable pub create_reserve_set_transaction :
      PayURuntimeConfig → PaymentRequest → String → String → Action W String
  unfolding create_set_transaction
  create_reserve_set_transaction config request payment_method transaction_type =
      create_set_transaction (record {
        config = config;
        request = request;
        payment_method = payment_method;
        transaction_type = transaction_type;
      })
