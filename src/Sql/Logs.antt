-- ===== src/Sql/Logs.antt =====
-- `MySqlPaymentLogRepository`.
use gateway_orchestrator.Prelude.{
  ◌≡◌, refl, ℕ, String, Bool, Option, some, List, leb, sort, filter, map_list,
}
use gateway_orchestrator.Value.{Value}
use gateway_orchestrator.Domain.Records.{Headers, PaymentLog}
use gateway_orchestrator.Sql.{Json, insert_row}

pub record PaymentLogRow (C : Type 0) : Type 0 where
  pub id : String
  pub payment_id : String
  pub provider : String
  pub request : C
  pub response : C
  pub headers : C
  pub response_time_ms : ℕ
  pub created_at : ℕ

module _ {C : Type 0} (json : Json C Value) (header_json : Json C Headers) where
  unfoldable pub map_payment_log_row : PaymentLogRow C → PaymentLog
  map_payment_log_row row = record {
    id = row.id;
    payment_id = row.payment_id;
    provider = row.provider;
    request = json.from_json row.request;
    response = json.from_json row.response;
    headers = header_json.from_json row.headers;
    response_time_ms = row.response_time_ms;
    created_at = row.created_at;
  }

  -- The values that `create` inserts.
  unfoldable pub log_row : PaymentLog → PaymentLogRow C
  log_row log = record {
    id = log.id;
    payment_id = log.payment_id;
    provider = log.provider;
    request = json.to_json (some log.request);
    response = json.to_json (some log.response);
    headers = header_json.to_json (some log.headers);
    response_time_ms = log.response_time_ms;
    created_at = log.created_at;
  }

  module _ (same : String → String → Bool) where
    -- No rows come back where the database refuses the row, whose identifier is the primary key.
    unfoldable pub create : PaymentLog → List (PaymentLogRow C) → Option (List (PaymentLogRow C))
    unfolding log_row
    create log rows = insert_row (λ row. same row.id log.id) (log_row log) rows

    -- `WHERE payment_id = ? ORDER BY created_at DESC`
    unfoldable pub list_by_payment_id : String → List (PaymentLogRow C) → List PaymentLog
    list_by_payment_id payment_id rows = map_list map_payment_log_row (
        sort (λ a b. leb b.created_at a.created_at)
          (filter (λ row. same row.payment_id payment_id) rows))

  -- A log comes back as it was stored, if the JSON columns return what they were given.
  pub log_round_trip :
      (log : PaymentLog)
      → json.from_json (json.to_json (some log.request)) ≡ log.request
      → json.from_json (json.to_json (some log.response)) ≡ log.response
      → header_json.from_json (header_json.to_json (some log.headers)) ≡ log.headers
      → map_payment_log_row (log_row log) ≡ log
  unfolding map_payment_log_row log_row
  log_round_trip log q r h = rw (q, r, h) refl
