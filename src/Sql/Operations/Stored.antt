-- ===== src/Sql/Operations/Stored.antt =====
-- What the table of operations returns of what was stored in it.
use gateway_orchestrator.Prelude.{◌≡◌, ◌≢◌, refl, ap, String, Bool, true, false, some, List, arith}
use mathlib.Core.Option.{map}
use gateway_orchestrator.Domain.Records.{PaymentOperation}
use gateway_orchestrator.Sql.{has_row, insert_row}
use gateway_orchestrator.Sql.Tables
use gateway_orchestrator.Sql.Payments.Refines.{from-to}
use gateway_orchestrator.Sql.Operations.{
  PaymentOperationRow, map_payment_operation_row, operation_row, set_operation, has_operation_key,
  clashes, create, find_by_idempotency_key, update,
}

-- An operation comes back as it was stored, if its merchant is not the empty text.
pub operation_round_trip :
    (operation : PaymentOperation)
    → operation.merchant_identifier ≢ some ""
    → map_payment_operation_row (operation_row operation) ≡ operation
unfolding map_payment_operation_row operation_row
operation_round_trip operation ne = rw (from-to operation.merchant_identifier ne) refl

module _ (same : String → String → Bool) (reflexive : (a : String) → same a a ≡ true) where
  -- The test of the queries by the operation's key, on its own row,
  has_its_key :
      (operation : PaymentOperation)
      → has_operation_key same operation.payment_id operation.type operation.idempotency_key
          (operation_row operation)
        ≡ true
  unfolding operation_row
  has_its_key operation = simp reflexive

  module _ (operation later : PaymentOperation) (p : later.payment_id ≡ operation.payment_id)
      (t : later.type ≡ operation.type)
      (k : later.idempotency_key ≡ operation.idempotency_key) where
    -- on the row of an operation with the same key,
    has_same_key :
        has_operation_key same later.payment_id later.type later.idempotency_key
          (operation_row operation)
        ≡ true
    unfolding operation_row
    has_same_key = rw (p, t, k) (has_its_key operation)

    -- and on the rows that clash with one of the same key.
    clashes-of_key :
        (row : PaymentOperationRow)
        → has_operation_key same later.payment_id later.type later.idempotency_key row ≡ true
        → clashes same (operation_row operation) row ≡ true
    unfolding clashes operation_row
    clashes-of_key row h = let h' = rw (p, t, k) at h in ground arith

  -- An update that keeps the row's key, identifier and time of creation stores the operation.
  set-operation_row :
      (operation later : PaymentOperation)
      → later.id ≡ operation.id
      → later.payment_id ≡ operation.payment_id
      → later.type ≡ operation.type
      → later.idempotency_key ≡ operation.idempotency_key
      → later.created_at ≡ operation.created_at
      → set_operation later (operation_row operation) ≡ operation_row later
  unfolding set_operation operation_row
  set-operation_row operation later i p t k c = rw (i, p, t, k, c) refl

  -- An operation that was created where no row has its unique keys, and then updated, is what the query by
  -- its key finds, as the update left it: if the merchant that is stored is not the empty text, a column finds a
  -- text equal to itself, and the update keeps the identifier, the payment, the type, the
  -- idempotency key and the time of creation.
  pub operation_kept :
      (operation later : PaymentOperation) (rows : List PaymentOperationRow)
      → later.merchant_identifier ≢ some ""
      → has_row (clashes same (operation_row operation)) rows ≡ false
      → later.id ≡ operation.id
      → later.payment_id ≡ operation.payment_id
      → later.type ≡ operation.type
      → later.idempotency_key ≡ operation.idempotency_key
      → later.created_at ≡ operation.created_at
      → map
          (λ stored.
            find_by_idempotency_key same later.payment_id later.type later.idempotency_key
              (update same later stored))
          (create same operation rows)
        ≡ some (some later)
  unfolding create insert_row find_by_idempotency_key update
  operation_kept operation later rows ne free i p t k c =
      let test = has_operation_key same later.payment_id later.type later.idempotency_key in
      let row_of = set-operation_row operation later i p t k c in
      let none_before =
        Tables.has_row-narrower test _ rows (clashes-of_key operation later p t k) free in
      let changed =
        Tables.update_rows-append test (set_operation later) (operation_row operation) rows
          none_before (has_same_key operation later p t k) in
      let found =
        Tables.select_first-append test (operation_row later) rows none_before
          (has_its_key later) in
      rw (free, changed, row_of, found) (ap some (ap some (operation_round_trip later ne)))
