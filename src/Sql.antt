-- ===== src/Sql.antt =====
-- The SQL that src/infrastructure/repositories/mysql.repositories.ts sends: tables as lists of rows in
-- the order of their insertion, with the unique keys of the migrations in src/db. How text columns
-- compare is a parameter, the collation of the table. The connection is taken to answer.
pub mod Tables
pub mod Payments
pub mod Operations
pub mod WebhookEvents
pub mod Logs
use gateway_orchestrator.Prelude.{
  String, Bool, true, false, Option, none, some, List, [], ◌∷◌, ◌++◌, if◌then◌else◌, coalesce, ◌||◌,
}
use gateway_orchestrator.Prelude.Text.{is_empty}

-- `merchantIdentifier ?? GLOBAL_MERCHANT_SCOPE`
unfoldable pub to_stored_merchant_identifier : Option String → String
to_stored_merchant_identifier merchant_identifier = coalesce merchant_identifier ""

unfoldable pub from_stored_merchant_identifier : String → Option String
from_stored_merchant_identifier merchant_identifier =
    if is_empty merchant_identifier then none else some merchant_identifier

-- `toJson` and `fromJson` for one type of value, and the truth value of the column between them, of type
-- `C`: what the driver returns for the JSON text that was sent.
pub record Json (C : Type 0) (A : Type 0) : Type 0 where
  pub to_json : Option A → C
  pub from_json : C → A
  pub is_set : C → Bool

module _ {R : Type 0} where
  -- `rows[0]` of `SELECT * FROM … WHERE … LIMIT 1`
  unfoldable pub select_first : (R → Bool) → List R → Option R
  select_first test [] = none
  select_first test (r ∷ rows) = if test r then some r else select_first test rows

  -- Whether some row passes the test.
  unfoldable pub has_row : (R → Bool) → List R → Bool
  has_row test [] = false
  has_row test (r ∷ rows) = test r || has_row test rows

  -- `UPDATE … SET … WHERE …`
  unfoldable pub update_rows : (R → Bool) → (R → R) → List R → List R
  update_rows test set [] = []
  update_rows test set (r ∷ rows) =
      let rest = update_rows test set rows in if test r then set r ∷ rest else r ∷ rest

  -- `UPDATE … SET … WHERE …`, refused if it gives a row the unique keys of another.
  unfoldable pub update_unless : Bool → (R → Bool) → (R → R) → List R → Option (List R)
  update_unless clashes test set rows = if clashes then none else some (update_rows test set rows)

  -- `INSERT INTO …`, refused if a row has one of the new row's unique keys.
  unfoldable pub insert_row : (R → Bool) → R → List R → Option (List R)
  insert_row clashes row rows = if has_row clashes rows then none else some (rows ++ (row ∷ []))
