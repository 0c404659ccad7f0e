-- ===== src/Runtime/Keyed.antt =====
-- The form of the payment store, and the writes of src/infrastructure/repositories.
use gateway_orchestrator.Prelude.{
  ◌≡◌, ◌∙◌, inl, inr, String, ◌==◌, eq_iff, some, Bool-cases, Map, get, put, get-put,
}
use gateway_orchestrator.Effect.{modify}
use gateway_orchestrator.Effect.Rules.{Moves}
use gateway_orchestrator.Domain.Payment.{Payment}
use gateway_orchestrator.Repositories.Payments
use gateway_orchestrator.Runtime.{Env, State, create_payment, update_payment, assign}
use gateway_orchestrator.Runtime.Frame.{Kept, Kept-assign, OnStores}

-- Each payment stands under its own identifier.
abbrev pub IsKeyedStore : Map Payment → Type 0
IsKeyedStore store = (k : String) (p : Payment) → get store k ≡ some p → p.id ≡ k

abbrev pub Keyed : {W : Type 0} → State W → Type 0
Keyed s = IsKeyedStore s.payments

the_written : {p q : Payment} → some q ≡ some p → p.id ≡ q.id
the_written h = cc

pub put-IsKeyedStore :
    (store : Map Payment) (q : Payment) → IsKeyedStore store → IsKeyedStore (put store q.id q)
put-IsKeyedStore store q h k p found = elim (Bool-cases (q.id == k)) [
  | inl e ↦ the_written (rw (get-put, e) at found) ∙ (eq_iff q.id k).0 e
  | inr e ↦ h k p (rw (get-put, e) at found)
]

module _ {W : Type 0} where
  pub OnStores-Keyed : OnStores (Keyed {W = W})
  OnStores-Keyed = record { same = λ s t e h k p found. h k p (rw e.payments found) }

  pub Keyed-create : (q : Payment) → Moves (Kept (Keyed {W = W})) (create_payment q)
  unfolding create_payment modify Payments.create
  Keyed-create q = record { along = λ s. put-IsKeyedStore s.payments q }

  pub Keyed-update : (q : Payment) → Moves (Kept (Keyed {W = W})) (update_payment q)
  unfolding update_payment modify Payments.update
  Keyed-update q = record { along = λ s. put-IsKeyedStore s.payments q }

  pub Keyed-assign : (env : Env W) (q : Payment) → Moves (Kept (Keyed {W = W})) (assign env q.id q)
  Keyed-assign env q = Kept-assign env _ q λ s. put-IsKeyedStore s.payments q
