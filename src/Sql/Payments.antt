-- ===== src/Sql/Payments.antt =====
-- `MySqlPaymentRepository`.
pub mod Refines
use gateway_orchestrator.Prelude.{
  ℕ, String, Bool, ◌&&◌, not, ◌||◌, Option, none, some, List, [], ◌∷◌, leb, sort, filter, map_list,
}
use mathlib.Core.Option.{map}
use gateway_orchestrator.Domain.Enums.{PaymentProviderName, PaymentStatus}
use gateway_orchestrator.Domain.Payment.{Payment}
use gateway_orchestrator.Sql.{
  to_stored_merchant_identifier, from_stored_merchant_identifier, select_first, has_row,
  update_unless, insert_row,
}

pub record PaymentRow : Type 0 where
  pub id : String
  pub merchant_identifier : String
  pub provider : PaymentProviderName
  pub amount : ℕ
  pub currency : String
  pub status : PaymentStatus
  pub provider_reference : Option String
  pub checkout_url : Option String
  pub idempotency_key : String
  pub initial_request_hash : Option String
  pub created_at : ℕ
  pub updated_at : ℕ

unfoldable pub map_payment_row : PaymentRow → Payment
unfolding from_stored_merchant_identifier
map_payment_row row = record {
  id = row.id;
  merchant_identifier = from_stored_merchant_identifier row.merchant_identifier;
  provider = row.provider;
  amount = row.amount;
  currency = row.currency;
  status = row.status;
  provider_reference = row.provider_reference;
  checkout_url = row.checkout_url;
  idempotency_key = row.idempotency_key;
  initial_request_hash = row.initial_request_hash;
  created_at = row.created_at;
  updated_at = row.updated_at;
}

-- The values that `create` inserts.
unfoldable pub payment_row : Payment → PaymentRow
unfolding to_stored_merchant_identifier
payment_row payment = record {
  id = payment.id;
  merchant_identifier = to_stored_merchant_identifier payment.merchant_identifier;
  provider = payment.provider;
  amount = payment.amount;
  currency = payment.currency;
  status = payment.status;
  provider_reference = payment.provider_reference;
  checkout_url = payment.checkout_url;
  idempotency_key = payment.idempotency_key;
  initial_request_hash = payment.initial_request_hash;
  created_at = payment.created_at;
  updated_at = payment.updated_at;
}

-- The `SET` of `update`: all but the identifier and the time of creation.
unfoldable pub set_payment : Payment → PaymentRow → PaymentRow
unfolding payment_row
set_payment payment row = record (payment_row payment) { id = row.id; created_at = row.created_at }

module _ (same : String → String → Bool) where
  -- `WHERE id = ?`
  abbrev pub has_id : String → PaymentRow → Bool
  has_id id row = same row.id id

  -- `WHERE idempotency_key = ? AND merchant_identifier = ?`
  abbrev pub has_scope_and_key : String → String → PaymentRow → Bool
  has_scope_and_key idempotency_key scope row =
      same row.idempotency_key idempotency_key && same row.merchant_identifier scope

  -- The primary key, and `uq_payments_scope_idempotency`.
  unfoldable pub clashes : PaymentRow → PaymentRow → Bool
  clashes new row =
      has_id new.id row || has_scope_and_key new.idempotency_key new.merchant_identifier row

  -- No rows come back where the database refuses the row.
  unfoldable pub create : Payment → List PaymentRow → Option (List PaymentRow)
  unfolding clashes payment_row
  create payment rows = insert_row (clashes (payment_row payment)) (payment_row payment) rows

  unfoldable pub find_by_id : String → List PaymentRow → Option Payment
  find_by_id id rows = map map_payment_row (select_first (has_id id) rows)

  unfoldable pub find_by_idempotency_key : String → Option String → List PaymentRow → Option Payment
  unfolding to_stored_merchant_identifier
  find_by_idempotency_key idempotency_key merchant_identifier rows =
      let scope = to_stored_merchant_identifier merchant_identifier in
      map map_payment_row (select_first (has_scope_and_key idempotency_key scope) rows)

  -- Whether the update gives its row the unique key of another one.
  unfoldable pub update_clashes : Payment → List PaymentRow → Bool
  unfolding payment_row
  update_clashes payment rows =
      let new = payment_row payment in
      has_row (has_id new.id) rows
      && has_row
          (λ row.
            not (has_id new.id row)
            && has_scope_and_key new.idempotency_key new.merchant_identifier row)
          rows

  unfoldable pub update : Payment → List PaymentRow → Option (List PaymentRow)
  unfolding update_clashes
  update payment rows =
      update_unless (update_clashes payment rows) (has_id payment.id) (set_payment payment) rows

-- `ORDER BY created_at DESC`
unfoldable pub list_all : List PaymentRow → List Payment
list_all rows = map_list map_payment_row (sort (λ a b. leb b.created_at a.created_at) rows)
