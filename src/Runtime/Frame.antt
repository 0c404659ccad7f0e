-- ===== src/Runtime/Frame.antt =====
-- Which parts of the state the basic actions leave alone, and how a fact about the payment stored
-- under one identifier survives a write.
use gateway_orchestrator.Prelude.{
  ◌≡◌, refl, String, Bool, true, false, some, get, put, get-put, get-put_self, eq_iff, ◌==◌,
  Bool-cases, inl, inr, if◌then◌else◌,
}
use gateway_orchestrator.Effect.{Action, Error, ◌>>=◌, pure, raise, gets, unless, modify}
use gateway_orchestrator.Effect.Rules.{
  Preorder, Moves, Moves-pure, Moves-raise, Moves-gets, Moves-bind,
}
use gateway_orchestrator.Domain.Payment.{Payment}
use gateway_orchestrator.Domain.Records.{PaymentLog, PaymentOperation}
use gateway_orchestrator.Repositories.Payments
use gateway_orchestrator.Repositories.Operations
use gateway_orchestrator.Runtime.{
  Env, State, new_id, now, outside, create_payment, update_payment, assign, create_log,
  create_operation, update_operation,
}

-- The three stores of the payment service hold the same.
pub record SameStores {W : Type 0} (s t : State W) : Type 0 where
  pub payments : s.payments ≡ t.payments
  pub operations : s.operations ≡ t.operations
  pub webhook_events : s.webhook_events ≡ t.webhook_events

-- `P` is kept: it holds after, if it held before.
abbrev pub Kept : {W : Type 0} → (State W → Type 0) → State W → State W → Type 0
Kept P s t = P s → P t

pub Kept-Preorder : {W : Type 0} (P : State W → Type 0) → Preorder (Kept P)
Kept-Preorder P = record { reflexive = λ s h. h; transitive = λ s t u f g h. g (f h) }

module _ {W : Type 0} (P : State W → Type 0) where
  pub Kept-pure : {A : Type 0} (a : A) → Moves (Kept P) (pure a)
  Kept-pure a = Moves-pure _ (Kept-Preorder P) a

  pub Kept-raise : {A : Type 0} (e : Error) → Moves (Kept P) (raise {A = A} e)
  Kept-raise e = Moves-raise _ (Kept-Preorder P) e

  pub Kept-gets : {A : Type 0} (f : State W → A) → Moves (Kept P) (gets f)
  Kept-gets f = Moves-gets _ (Kept-Preorder P) f

  pub Kept-bind :
      {A B : Type 0} (m : Action (State W) A) (f : A → Action (State W) B)
      → Moves (Kept P) m
      → ((a : A) → Moves (Kept P) (f a))
      → Moves (Kept P) (m >>= f)
  Kept-bind m f hm hf = Moves-bind _ (Kept-Preorder P) m f hm hf

  pub Kept-unless : (b : Bool) (e : Error) → Moves (Kept P) (unless b e)
  unfolding unless
  Kept-unless true e = record { along = λ s h. h }
  Kept-unless false e = record { along = λ s h. h }

module _ {W : Type 0} (env : Env W) (P : State W → Type 0) (q : Payment) where
  assign_either :
      (b : Bool) (s : State W)
      → P (record s { payments = put s.payments q.id q })
      → P s
      → P (record s { payments = if b then put s.payments q.id q else s.payments })
  assign_either true s h k = h
  assign_either false s h k = k

  -- An assignment is a write to the repository, or nothing.
  pub Kept-assign :
      ((s : State W) → P s → P (record s { payments = put s.payments q.id q }))
      → Moves (Kept P) (assign env q.id q)
  unfolding assign modify
  Kept-assign h = record { along = λ s k. assign_either env.sharing s (h s k) k }

-- The identifier has a payment, of which `Φ` holds.
abbrev pub PaymentAt : {W : Type 0} → String → (Payment → Type 0) → State W → Type 0
PaymentAt id Φ s = (q : Payment) × (get s.payments id ≡ some q) × Φ q

abbrev pub OperationAt : {W : Type 0} → String → (PaymentOperation → Type 0) → State W → Type 0
OperationAt key Ψ s = (o : PaymentOperation) × (get s.operations key ≡ some o) × Ψ o

-- A predicate on the three stores.
pub record OnStores {W : Type 0} (P : State W → Type 0) : Type 0 where
  pub same : (s t : State W) → SameStores s t → P s → P t

module _ {W : Type 0} (P : State W → Type 0) (on : OnStores P) where
  pub Kept-new_id : (env : Env W) → Moves (Kept P) (new_id env)
  unfolding new_id
  Kept-new_id env = record {
    along = λ s. on.same s _ (record { payments = refl; operations = refl; webhook_events = refl });
  }

  pub Kept-now : (env : Env W) → Moves (Kept P) (now env)
  unfolding now
  Kept-now env = record {
    along = λ s. on.same s _ (record { payments = refl; operations = refl; webhook_events = refl });
  }

  pub Kept-outside : {A : Type 0} (m : Action W A) → Moves (Kept P) (outside m)
  unfolding outside
  Kept-outside m = record {
    along = λ s. on.same s _ (record { payments = refl; operations = refl; webhook_events = refl });
  }

  pub Kept-create_log : (log : PaymentLog) → Moves (Kept P) (create_log log)
  unfolding create_log modify
  Kept-create_log log = record {
    along = λ s. on.same s _ (record { payments = refl; operations = refl; webhook_events = refl });
  }

module _ {W : Type 0} (id : String) (Φ : Payment → Type 0) where
  pub OnStores-PaymentAt : OnStores (PaymentAt {W = W} id Φ)
  OnStores-PaymentAt = record { same = λ s t e h. (h.0, rw (← e.payments) h.1, h.2) }

  -- A write of `q` keeps it, if `Φ` holds of `q` in case that it is written under the identifier.
  module _ (q : Payment) (good : q.id ≡ id → Φ q) where
    put-PaymentAt :
        (s : State W)
        → PaymentAt id Φ s
        → (p : Payment) × (get (put s.payments q.id q) id ≡ some p) × Φ p
    put-PaymentAt s (p, found, h) = elim (Bool-cases (q.id == id)) [
      | inl e ↦ (q, rw get-put (rw e refl), good ((eq_iff q.id id).0 e))
      | inr e ↦ (p, rw get-put (rw e found), h)
    ]

    pub PaymentAt-update : Moves (Kept (PaymentAt {W = W} id Φ)) (update_payment q)
    unfolding update_payment modify Payments.update
    PaymentAt-update = record { along = put-PaymentAt }

    pub PaymentAt-create : Moves (Kept (PaymentAt {W = W} id Φ)) (create_payment q)
    unfolding create_payment modify Payments.create
    PaymentAt-create = record { along = put-PaymentAt }

    pub PaymentAt-assign : (env : Env W) → Moves (Kept (PaymentAt {W = W} id Φ)) (assign env q.id q)
    unfolding assign modify
    PaymentAt-assign env = record {
      along = λ s h. elim (Bool-cases env.sharing) [
        | inl e ↦ rw e (put-PaymentAt s h)
        | inr e ↦ rw e h
      ];
    }

  pub PaymentAt-create_operation :
      (o : PaymentOperation) → Moves (Kept (PaymentAt {W = W} id Φ)) (create_operation o)
  unfolding create_operation modify
  PaymentAt-create_operation o = record { along = λ s h. h }

  pub PaymentAt-update_operation :
      (o : PaymentOperation) → Moves (Kept (PaymentAt {W = W} id Φ)) (update_operation o)
  unfolding update_operation modify
  PaymentAt-update_operation o = record { along = λ s h. h }

module _ {W : Type 0} (key : String) (Ψ : PaymentOperation → Type 0) where
  pub OnStores-OperationAt : OnStores (OperationAt {W = W} key Ψ)
  OnStores-OperationAt = record { same = λ s t e h. (h.0, rw (← e.operations) h.1, h.2) }

  pub OperationAt-update :
      (o : PaymentOperation)
      → Operations.key_of o ≡ key
      → Ψ o
      → Moves (Kept (OperationAt {W = W} key Ψ)) (update_operation o)
  unfolding update_operation modify Operations.update
  OperationAt-update o e h = record {
    along = λ s _. (o, rw e (get-put_self s.operations key o), h);
  }

  pub OperationAt-update_payment :
      (q : Payment) → Moves (Kept (OperationAt {W = W} key Ψ)) (update_payment q)
  unfolding update_payment modify
  OperationAt-update_payment q = record { along = λ s h. h }

  pub OperationAt-assign :
      (env : Env W) (q : Payment) → Moves (Kept (OperationAt {W = W} key Ψ)) (assign env q.id q)
  unfolding assign modify
  OperationAt-assign env q = record { along = λ s h. h }
