-- ===== src/Sql/Operations.antt =====
-- `MySqlPaymentOperationRepository`.
pub mod Stored
use gateway_orchestrator.Prelude.{
  ℕ, String, Bool, ◌&&◌, ◌||◌, not, Option, List, leb, sort, filter, map_list,
}
use mathlib.Core.Option.{map}
use gateway_orchestrator.Domain.Enums.{
  PaymentProviderName, PaymentStatus, PaymentOperationType, PaymentOperationState, operation_text,
}
use gateway_orchestrator.Domain.Records.{PaymentOperation}
use gateway_orchestrator.Sql.{
  to_stored_merchant_identifier, from_stored_merchant_identifier, select_first, update_rows,
  insert_row,
}

pub record PaymentOperationRow : Type 0 where
  pub id : String
  pub payment_id : String
  pub merchant_identifier : String
  pub provider : PaymentProviderName
  pub type : PaymentOperationType
  pub idempotency_key : String
  pub request_hash : String
  pub amount : Option ℕ
  pub currency : Option String
  pub state : PaymentOperationState
  pub resulting_payment_status : Option PaymentStatus
  pub provider_reference : Option String
  pub error_code : Option String
  pub error_message : Option String
  pub created_at : ℕ
  pub updated_at : ℕ

unfoldable pub map_payment_operation_row : PaymentOperationRow → PaymentOperation
unfolding from_stored_merchant_identifier
map_payment_operation_row row = record {
  id = row.id;
  payment_id = row.payment_id;
  merchant_identifier = from_stored_merchant_identifier row.merchant_identifier;
  provider = row.provider;
  type = row.type;
  idempotency_key = row.idempotency_key;
  request_hash = row.request_hash;
  amount = row.amount;
  currency = row.currency;
  state = row.state;
  resulting_payment_status = row.resulting_payment_status;
  provider_reference = row.provider_reference;
  error_code = row.error_code;
  error_message = row.error_message;
  created_at = row.created_at;
  updated_at = row.updated_at;
}

-- The values that `create` inserts.
unfoldable pub operation_row : PaymentOperation → PaymentOperationRow
unfolding to_stored_merchant_identifier
operation_row operation = record {
  id = operation.id;
  payment_id = operation.payment_id;
  merchant_identifier = to_stored_merchant_identifier operation.merchant_identifier;
  provider = operation.provider;
  type = operation.type;
  idempotency_key = operation.idempotency_key;
  request_hash = operation.request_hash;
  amount = operation.amount;
  currency = operation.currency;
  state = operation.state;
  resulting_payment_status = operation.resulting_payment_status;
  provider_reference = operation.provider_reference;
  error_code = operation.error_code;
  error_message = operation.error_message;
  created_at = operation.created_at;
  updated_at = operation.updated_at;
}

-- The `SET` of `update`.
unfoldable pub set_operation : PaymentOperation → PaymentOperationRow → PaymentOperationRow
unfolding operation_row
set_operation operation row = record (operation_row operation) {
  id = row.id;
  payment_id = row.payment_id;
  type = row.type;
  idempotency_key = row.idempotency_key;
  created_at = row.created_at;
}

module _ (same : String → String → Bool) where
  -- `WHERE payment_id = ? AND type = ? AND idempotency_key = ?`
  abbrev pub has_operation_key : String → PaymentOperationType → String → PaymentOperationRow → Bool
  has_operation_key payment_id type idempotency_key row =
      same row.payment_id payment_id
      && same (operation_text row.type) (operation_text type)
      && same row.idempotency_key idempotency_key

  -- The primary key, and `uq_payment_operations_idempotency`.
  unfoldable pub clashes : PaymentOperationRow → PaymentOperationRow → Bool
  clashes new row =
      same row.id new.id || has_operation_key new.payment_id new.type new.idempotency_key row

  -- No rows come back where the database refuses the row.
  unfoldable pub create :
      PaymentOperation → List PaymentOperationRow → Option (List PaymentOperationRow)
  unfolding clashes operation_row
  create operation rows =
      insert_row (clashes (operation_row operation)) (operation_row operation) rows

  unfoldable pub find_by_idempotency_key :
      String → PaymentOperationType → String → List PaymentOperationRow → Option PaymentOperation
  find_by_idempotency_key payment_id type idempotency_key rows =
      map map_payment_operation_row
        (select_first (has_operation_key payment_id type idempotency_key) rows)

  -- `WHERE payment_id = ? ORDER BY created_at DESC`
  unfoldable pub list_by_payment_id : String → List PaymentOperationRow → List PaymentOperation
  list_by_payment_id payment_id rows = map_list map_payment_operation_row (
      sort (λ a b. leb b.created_at a.created_at)
        (filter (λ row. same row.payment_id payment_id) rows))

  -- No row is given another key, so none is refused.
  unfoldable pub update : PaymentOperation → List PaymentOperationRow → List PaymentOperationRow
  update operation rows =
      update_rows (has_operation_key operation.payment_id operation.type operation.idempotency_key)
        (set_operation operation) rows
