-- ===== src/Sql/WebhookEvents.antt =====
-- `MySqlWebhookEventRepository`.
pub mod Refines
use gateway_orchestrator.Prelude.{
  ℕ, String, Bool, ◌||◌, Option, none, some, List, leb, sort, filter, map_list, if◌then◌else◌,
}
use mathlib.Core.Option.{map}
use gateway_orchestrator.Domain.Enums.{PaymentProviderName, PaymentStatus, WebhookEventState}
use gateway_orchestrator.Domain.Records.{WebhookEvent, WebhookEventRecord}
use gateway_orchestrator.Sql.{Json, select_first, update_rows, insert_row}

pub record WebhookEventRow (C : Type 0) : Type 0 where
  pub id : String
  pub provider : PaymentProviderName
  pub payment_id : Option String
  pub merchant_reference : Option String
  pub provider_reference : Option String
  pub response_hash : Option String
  pub payload_hash : String
  pub dedupe_key : String
  pub signature : Option String
  pub raw_payload : String
  pub event : C
  pub resulting_payment_status : Option PaymentStatus
  pub state : WebhookEventState
  pub error_message : Option String
  pub created_at : ℕ
  pub updated_at : ℕ

module _ {C : Type 0} (json : Json C WebhookEvent) where
  unfoldable pub map_webhook_event_row : WebhookEventRow C → WebhookEventRecord
  map_webhook_event_row row = record {
    id = row.id;
    provider = row.provider;
    payment_id = row.payment_id;
    merchant_reference = row.merchant_reference;
    provider_reference = row.provider_reference;
    response_hash = row.response_hash;
    payload_hash = row.payload_hash;
    dedupe_key = row.dedupe_key;
    signature = row.signature;
    raw_payload = row.raw_payload;
    event = if json.is_set row.event then some (json.from_json row.event) else none;
    resulting_payment_status = row.resulting_payment_status;
    state = row.state;
    error_message = row.error_message;
    created_at = row.created_at;
    updated_at = row.updated_at;
  }

  -- The values that `create` inserts.
  unfoldable pub webhook_event_row : WebhookEventRecord → WebhookEventRow C
  webhook_event_row r = record {
    id = r.id;
    provider = r.provider;
    payment_id = r.payment_id;
    merchant_reference = r.merchant_reference;
    provider_reference = r.provider_reference;
    response_hash = r.response_hash;
    payload_hash = r.payload_hash;
    dedupe_key = r.dedupe_key;
    signature = r.signature;
    raw_payload = r.raw_payload;
    event = json.to_json r.event;
    resulting_payment_status = r.resulting_payment_status;
    state = r.state;
    error_message = r.error_message;
    created_at = r.created_at;
    updated_at = r.updated_at;
  }

  -- The `SET` of `update`.
  unfoldable pub set_webhook_event : WebhookEventRecord → WebhookEventRow C → WebhookEventRow C
  unfolding webhook_event_row
  set_webhook_event r row = record (webhook_event_row r) {
    id = row.id;
    dedupe_key = row.dedupe_key;
    created_at = row.created_at;
  }

  module _ (same : String → String → Bool) where
    -- `WHERE dedupe_key = ?`
    abbrev pub has_dedupe_key : String → WebhookEventRow C → Bool
    has_dedupe_key dedupe_key row = same row.dedupe_key dedupe_key

    -- The primary key, and `uq_webhook_events_dedupe_key`.
    unfoldable pub clashes : WebhookEventRow C → WebhookEventRow C → Bool
    clashes new row = same row.id new.id || has_dedupe_key new.dedupe_key row

    -- No rows come back where the database refuses the row.
    unfoldable pub create :
        WebhookEventRecord → List (WebhookEventRow C) → Option (List (WebhookEventRow C))
    unfolding clashes webhook_event_row
    create r rows = insert_row (clashes (webhook_event_row r)) (webhook_event_row r) rows

    unfoldable pub find_by_dedupe_key :
        String → List (WebhookEventRow C) → Option WebhookEventRecord
    find_by_dedupe_key dedupe_key rows =
        map map_webhook_event_row (select_first (has_dedupe_key dedupe_key) rows)

    -- `payment_id = ?` is not true of a row whose payment is NULL.
    unfoldable pub has_payment : String → WebhookEventRow C → Bool
    has_payment payment_id row = elim row.payment_id [
      | none ↦ Bool.false
      | some stored ↦ same stored payment_id
    ]

    -- `WHERE payment_id = ? ORDER BY created_at DESC`
    unfoldable pub list_by_payment_id : String → List (WebhookEventRow C) → List WebhookEventRecord
    unfolding has_payment
    list_by_payment_id payment_id rows =
        map_list map_webhook_event_row
          (sort (λ a b. leb b.created_at a.created_at) (filter (has_payment payment_id) rows))

    -- No row is given another key, so none is refused.
    unfoldable pub update : WebhookEventRecord → List (WebhookEventRow C) → List (WebhookEventRow C)
    update r rows = update_rows (has_dedupe_key r.dedupe_key) (set_webhook_event r) rows
