-- ===== src/Providers/Peach/Webhook.antt =====
-- src/providers/peach/peach.webhook.ts. `JSON.parse` is a parameter, none where it throws.
use gateway_orchestrator.Prelude.{
  String, ◌&&◌, not, Option, none, some, Map, get, coalesce, if◌then◌else◌,
}
use gateway_orchestrator.Prelude.Text.{is_empty, truthy, has_char, starts_with}
use gateway_orchestrator.Value.{Value, obj, arr, str, bool, num, null, undefined}
use gateway_orchestrator.Effect.{Outcome, returned, threw, plain_error}
use gateway_orchestrator.Domain.Records.{WebhookEvent}
use gateway_orchestrator.Providers.{property_of}
use gateway_orchestrator.Providers.Peach.{map_peach_status_with_type}
use gateway_orchestrator.Providers.Peach.Forms.{Params, parse_form_body}

pub record ParsedWebhookFields : Type 0 where
  pub merchant_transaction_id : Option String
  pub id : Option String
  pub payment_type : Option String
  pub result_code : Option String

-- `asString`
unfoldable pub nonempty_string : Value → Option String
unfolding is_empty
nonempty_string (str s) = if is_empty s then none else some s
nonempty_string _ = none

unfoldable pub extract_from_json : Value → ParsedWebhookFields
unfolding nonempty_string
extract_from_json json = record {
  merchant_transaction_id = nonempty_string (property_of json "merchantTransactionId");
  id = nonempty_string (property_of json "id");
  payment_type = nonempty_string (property_of json "paymentType");
  result_code = nonempty_string (property_of (property_of json "result") "code");
}

abbrev no_fields : ParsedWebhookFields
no_fields = record {
  merchant_transaction_id = none;
  id = none;
  payment_type = none;
  result_code = none;
}

abbrev fields_of_params : Params → ParsedWebhookFields
fields_of_params params = record {
  merchant_transaction_id = get params "merchantTransactionId";
  id = get params "id";
  payment_type = get params "paymentType";
  result_code = get params "result.code";
}

module _ (decode : String → Option String) (parse_json : String → Option Value) where
  -- none where `decodeURIComponent` throws.
  unfoldable pub extract_webhook_fields : Value → Option ParsedWebhookFields
  unfolding extract_from_json
  extract_webhook_fields (str payload) =
      if has_char "=" payload && not (starts_with payload "{")
      then elim (parse_form_body decode payload) [
        | none ↦ none
        | some params ↦ some (fields_of_params params)
      ]
      else elim (parse_json payload) [
        | none ↦ some no_fields
        | some json ↦ some (extract_from_json json)
      ]
  extract_webhook_fields (obj fields) = some (extract_from_json (obj fields))
  extract_webhook_fields (arr items) = some (extract_from_json (arr items))
  extract_webhook_fields (bool b) = some no_fields
  extract_webhook_fields (num n) = some no_fields
  extract_webhook_fields null = some no_fields
  extract_webhook_fields undefined = some no_fields

  -- The event that the fields tell, by the payment identifiers that the instance remembers.
  unfoldable pub event_of_fields : Value → Map String → ParsedWebhookFields → Option WebhookEvent
  event_of_fields payload merchant_transaction_id_map fields =
      if truthy fields.merchant_transaction_id
      then (let reference = coalesce fields.merchant_transaction_id "" in
          some (record {
            merchant_reference =
                some (coalesce (get merchant_transaction_id_map reference) reference);
            provider_reference = fields.id;
            status = some (
                map_peach_status_with_type (coalesce fields.result_code "")
                  (coalesce fields.payment_type "DB"));
            response_hash = none;
            raw_payload = payload;
          }))
      else none

  unfoldable pub parse_peach_webhook : Value → Map String → Outcome (Option WebhookEvent)
  unfolding extract_webhook_fields event_of_fields
  parse_peach_webhook payload merchant_transaction_id_map = elim (extract_webhook_fields payload) [
    | none ↦ threw (plain_error "URI malformed")
    | some fields ↦ returned (event_of_fields payload merchant_transaction_id_map fields)
  ]
