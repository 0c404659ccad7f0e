-- ===== src/Sql/Payments/Refines.antt =====
-- The table of payments and the map of the in-memory repository that it stands for.
use gateway_orchestrator.Prelude.{
  ◌≡◌, ◌≢◌, refl, sym, ◌∙◌, ap, String, Bool, false, Option, none, some, List, ◌==◌, eq_iff, arith,
  Map, put,
}
use Prim.Native.String.{[], ◌∷◌}
use mathlib.Core.Option.{map}
use gateway_orchestrator.Prelude.Text.{is_empty}
use gateway_orchestrator.Domain.Payment.{Payment}
use gateway_orchestrator.Repositories.Payments as Memory
use gateway_orchestrator.Repositories.Payments.{optional_eq, has_key}
use gateway_orchestrator.Sql.{
  to_stored_merchant_identifier, from_stored_merchant_identifier, has_row, insert_row,
  update_unless,
}
use gateway_orchestrator.Sql.Tables
use gateway_orchestrator.Sql.Tables.{Each, Distinct}
use gateway_orchestrator.Sql.Payments.{
  PaymentRow, map_payment_row, payment_row, set_payment, has_id, has_scope_and_key, clashes, create,
  find_by_id, find_by_idempotency_key, update, update_clashes,
}

-- The in-memory store that a table stands for.
abbrev pub view : List PaymentRow → Map Payment
view rows = Tables.view (λ row. row.id) map_payment_row rows

pub from-to :
    (m : Option String)
    → m ≢ some ""
    → from_stored_merchant_identifier (to_stored_merchant_identifier m) ≡ m
unfolding from_stored_merchant_identifier to_stored_merchant_identifier is_empty
from-to none ne = refl
from-to (some []) ne = absurd (ne refl)
from-to (some (c ∷ s)) ne = refl

eq_false : (a b : String) → a ≢ b → (a == b) ≡ false
eq_false a b ne = ground (arith, eq_iff a b)

-- A scope is that of a stored row exactly if it is the row's as it is read back.
scope-eq :
    (stored : String) (m : Option String)
    → m ≢ some ""
    → optional_eq (from_stored_merchant_identifier stored) m
      ≡ (stored == to_stored_merchant_identifier m)
unfolding optional_eq from_stored_merchant_identifier to_stored_merchant_identifier is_empty
scope-eq [] none ne = refl
scope-eq [] (some []) ne = absurd (ne refl)
scope-eq [] (some (c ∷ s)) ne = sym (eq_false [] (c ∷ s) (λ e. cc))
scope-eq (c ∷ s) none ne = sym (eq_false (c ∷ s) [] (λ e. cc))
scope-eq (c ∷ s) (some t) ne = refl

-- A payment comes back as it was stored, if its merchant is not the empty text.
pub payment_round_trip :
    (payment : Payment)
    → payment.merchant_identifier ≢ some ""
    → map_payment_row (payment_row payment) ≡ payment
unfolding map_payment_row payment_row
payment_round_trip payment ne = rw (from-to payment.merchant_identifier ne) refl

-- The update of a row with the payment's identifier and time of creation.
set-row :
    (payment : Payment) (row : PaymentRow)
    → row.id ≡ payment.id
    → row.created_at ≡ payment.created_at
    → set_payment payment row ≡ payment_row payment
unfolding set_payment payment_row
set-row payment row e c = rw (e, c) refl

module _ (same : String → String → Bool) where
  -- The query by identifier returns what the in-memory repository has under it, where the column compares
  -- the stored identifiers with that one exactly.
  pub find_by_id_refines :
      (id : String) (rows : List PaymentRow)
      → Each (λ row. same row.id id ≡ (row.id == id)) rows
      → find_by_id same id rows ≡ Memory.find_by_id (view rows) id
  unfolding find_by_id Memory.find_by_id
  find_by_id_refines id rows h =
      Tables.select_first-view (λ row. row.id) map_payment_row (has_id same id) id rows h

  -- The query by idempotency key and scope returns the payment that the in-memory repository finds, for
  -- any merchant but the empty text, where the columns compare the stored keys and scopes exactly.
  pub find_by_idempotency_key_refines :
      (idempotency_key : String) (m : Option String) (rows : List PaymentRow)
      → m ≢ some ""
      → Each
          (λ row.
            (same row.idempotency_key idempotency_key ≡ (row.idempotency_key == idempotency_key))
            × (same row.merchant_identifier (to_stored_merchant_identifier m)
                ≡ (row.merchant_identifier == to_stored_merchant_identifier m)))
          rows
      → find_by_idempotency_key same idempotency_key m rows
        ≡ Memory.find_by_idempotency_key (view rows) idempotency_key m
  unfolding find_by_idempotency_key Memory.find_by_idempotency_key map_payment_row
  find_by_idempotency_key_refines idempotency_key m rows ne h =
      Tables.select_first-find_value (λ row. row.id) map_payment_row
        (has_scope_and_key same idempotency_key (to_stored_merchant_identifier m))
        (has_key idempotency_key m) rows
        (Tables.Each-map (λ row e. rw (e.0, e.1, scope-eq row.merchant_identifier m ne) refl) rows
          h)

  -- Where the payment's merchant is not the empty text, no row has its unique keys and none stands
  -- under its identifier, `create` succeeds, and the table then stands for the map in which the
  -- in-memory repository has created the payment.
  pub create_refines :
      (payment : Payment) (rows : List PaymentRow)
      → payment.merchant_identifier ≢ some ""
      → has_row (clashes same (payment_row payment)) rows ≡ false
      → Memory.find_by_id (view rows) payment.id ≡ none
      → map view (create same payment rows) ≡ some (Memory.create (view rows) payment)
  unfolding create insert_row Memory.create Memory.find_by_id
  create_refines payment rows ne c n = rw c (
      ap some (
        Tables.view-insert (λ row. row.id) map_payment_row (payment_row payment) rows n
        ∙ ap (put (view rows) payment.id) (payment_round_trip payment ne)))

  -- Where the payment's merchant is not the empty text, the identifiers are distinct and compare
  -- exactly, the payment is stored with the time of creation that it has, and no other row has its
  -- key and scope, `update` succeeds, and the table then stands for the map that the in-memory
  -- repository has after its own `update`.
  pub update_refines :
      (payment old : Payment) (rows : List PaymentRow)
      → payment.merchant_identifier ≢ some ""
      → Distinct (λ row. row.id) map_payment_row rows
      → Each (λ row. same row.id payment.id ≡ (row.id == payment.id)) rows
      → update_clashes same payment rows ≡ false
      → Memory.find_by_id (view rows) payment.id ≡ some old
      → old.created_at ≡ payment.created_at
      → map view (update same payment rows) ≡ some (Memory.update (view rows) payment)
  unfolding update update_unless Memory.update Memory.find_by_id set_payment map_payment_row
  update_refines payment old rows ne d e c f t = rw c (
      ap some (
        Tables.view-update (λ row. row.id) map_payment_row (has_id same payment.id)
          (set_payment payment) payment.id payment rows e
          (Tables.Each-map
            (λ row k at_id. (
              at_id,
              ap map_payment_row (set-row payment row at_id (ap (λ p. p.created_at) (k at_id) ∙ t))
                  ∙ payment_round_trip payment ne,
            ))
            rows (Tables.Each-of_get (λ row. row.id) map_payment_row payment.id old rows d f))
          d (Tables.found f)))
