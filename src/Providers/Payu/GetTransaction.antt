-- ===== src/Providers/Payu/GetTransaction.antt =====
-- src/providers/payu/payu.get-transaction.ts, `getTransaction`. `is_test` is `env.nodeEnv ===
-- 'test'`, and `parseInt`, of the digits of an amount, is a parameter. The answer is taken to be a
-- text, as it is asked for.
use gateway_orchestrator.Prelude.{
  ℕ, String, Bool, true, ◌||◌, none, some, [], ◌∷◌, coalesce, if◌then◌else◌,
}
use gateway_orchestrator.Prelude.Text.{template, is_empty}
use gateway_orchestrator.Value.{obj, field, end, str, bool, undefined, as_string}
use gateway_orchestrator.Effect.{Action, ◌>>=◌, pure}
use gateway_orchestrator.Domain.Enums.{PaymentStatus}
use gateway_orchestrator.Domain.Provider.{LookupTransactionRequest, LookupTransactionResult}
use gateway_orchestrator.Providers.{Web, send}
use gateway_orchestrator.Providers.Config.{PayURuntimeConfig}
use gateway_orchestrator.Providers.Payu.{map_transaction_state}
use gateway_orchestrator.Providers.Payu.Xml.{escape_xml, read_tag}

-- `a || b` on texts.
abbrev pub text_or : String → String → String
text_or a b = if is_empty a then b else a

unfoldable pub lookup_payload : PayURuntimeConfig → LookupTransactionRequest → String
unfolding escape_xml
lookup_payload config request = template (
    "<?xml version=\"1.0\" encoding=\"UTF-8\"?>\n"
    ∷ "<SOAP-ENV:Envelope xmlns:SOAP-ENV=\"http://schemas.xmlsoap.org/soap/envelope/\" xmlns:ns1=\"http://soap.api.controller.web.payjar.com/\" xmlns:wsse=\"http://docs.oasis-open.org/wss/2004/01/oasis-200401-wss-wssecurity-secext-1.0.xsd\">\n"
    ∷ "  <SOAP-ENV:Header>\n"
    ∷ "    <wsse:Security SOAP-ENV:mustUnderstand=\"1\" xmlns:wsse=\"http://docs.oasis-open.org/wss/2004/01/oasis-200401-wss-wssecurity-secext-1.0.xsd\">\n"
    ∷ "      <wsse:UsernameToken wsu:Id=\"UsernameToken-9\" xmlns:wsu=\"http://docs.oasis-open.org/wss/2004/01/oasis-200401-wss-wssecurity-utility-1.0.xsd\">\n"
    ∷ "        <wsse:Username>"
    ∷ (escape_xml config.soap_username)
    ∷ "</wsse:Username>\n"
    ∷ "        <wsse:Password Type=\"http://docs.oasis-open.org/wss/2004/01/oasis-200401-wss-username-token-profile-1.0#PasswordText\">"
    ∷ (escape_xml config.soap_password)
    ∷ "</wsse:Password>\n"
    ∷ "      </wsse:UsernameToken>\n"
    ∷ "    </wsse:Security>\n"
    ∷ "  </SOAP-ENV:Header>\n"
    ∷ "  <SOAP-ENV:Body>\n"
    ∷ "    <ns1:getTransaction>\n"
    ∷ "      <Api>ONE_ZERO</Api>\n"
    ∷ "      <Safekey>"
    ∷ (escape_xml config.safekey)
    ∷ "</Safekey>\n"
    ∷ "      <AdditionalInformation>\n"
    ∷ "        <payUReference>"
    ∷ (escape_xml request.payu_reference)
    ∷ "</payUReference>\n"
    ∷ "      </AdditionalInformation>\n"
    ∷ "    </ns1:getTransaction>\n"
    ∷ "  </SOAP-ENV:Body>\n"
    ∷ "</SOAP-ENV:Envelope>"
    ∷ [])

-- The result of a lookup that is not sent.
unfoldable pub simulated_lookup :
    PayURuntimeConfig → LookupTransactionRequest → LookupTransactionResult
simulated_lookup config request = record {
  provider_reference = some request.payu_reference;
  payu_reference = some request.payu_reference;
  merchant_reference = coalesce request.merchant_reference request.payu_reference;
  transaction_state = "SUCCESSFUL";
  transaction_type = "RESERVE";
  status = PaymentStatus.authorized;
  amount_in_cents = 0;
  currency = "ZAR";
  result_code = "00";
  result_message = "Simulated lookup";
  raw_response = obj (
      field "simulated" (bool true)
        (field "endpoint" (str (template (config.base_url ∷ "/getTransaction" ∷ []))) end));
}

module _ (to_upper_case : String → String) (parse_int : String → ℕ) where
  abbrev tag_or : String → String → String → String
  tag_or soap_response tag_name default_text =
      coalesce (read_tag soap_response tag_name) default_text

  -- The result that an answer tells.
  unfoldable pub lookup_result :
      PayURuntimeConfig → LookupTransactionRequest → String → LookupTransactionResult
  unfolding read_tag map_transaction_state
  lookup_result config request soap_response =
      let transaction_state = tag_or soap_response "transactionState" "FAILED" in
      let transaction_type = tag_or soap_response "transactionType" "" in
      let current = tag_or soap_response "currentPayUReference" "" in
      let reference = text_or current (
        text_or (tag_or soap_response "payUReference" "")
          (text_or request.payu_reference (coalesce request.provider_reference ""))) in
      record {
        provider_reference = none;
        payu_reference = some reference;
        merchant_reference =
            tag_or soap_response "merchantReference"
              (coalesce request.merchant_reference request.payu_reference);
        transaction_state = transaction_state;
        transaction_type = transaction_type;
        status = map_transaction_state to_upper_case transaction_state transaction_type;
        amount_in_cents = parse_int (tag_or soap_response "amountInCents" "0");
        currency = tag_or soap_response "currencyCode" "ZAR";
        result_code = tag_or soap_response "resultCode" "";
        result_message = tag_or soap_response "resultMessage" "";
        raw_response = obj (
            field "soapResponse" (str soap_response) (
              field "endpoint" (str (template (config.base_url ∷ "/getTransaction" ∷ []))) (
                field "requestTrace" (str (tag_or soap_response "requestTrace" "")) (
                  field "currentPayUReference" (if is_empty current then undefined else str current)
                    end))));
      }

module _ {W : Type 0} (web : Web W) (is_test : Bool) (parse_int : String → ℕ)
    (config : PayURuntimeConfig) where
  unfoldable pub get_transaction : LookupTransactionRequest → Action W LookupTransactionResult
  unfolding simulated_lookup lookup_payload lookup_result
  get_transaction request =
      if is_test
        || is_empty config.soap_username
        || is_empty config.soap_password
        || is_empty config.safekey
      then pure (simulated_lookup config request)
      else (do
        soap_response ← send web (record {
          method = "POST";
          url = config.base_url;
          headers =
              ("Content-Type", "text/xml; charset=utf-8") ∷ ("SOAPAction", "getTransaction") ∷ [];
          request_data = str (lookup_payload config request);
          response_type = some "text";
        })
        pure (
            lookup_result web.to_upper_case parse_int config request
              (coalesce (as_string soap_response) "")))
