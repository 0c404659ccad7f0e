-- ===== src/Effect/Rules.antt =====
-- How the state before an action relates to the state after it, whether it returned or threw: one
-- rule for each way to build an action, for every reflexive and transitive relation.
use gateway_orchestrator.Prelude.{Bool, true, false, if◌then◌else◌}
use gateway_orchestrator.Effect.{
  Error, Outcome, returned, threw, Action, ◌>>=◌, follow, pure, raise, gets, recover, handling,
}

pub record Preorder {ℓ} {S : Type ℓ} (R : S → S → Type ℓ) : Type ℓ where
  pub reflexive : (s : S) → R s s
  pub transitive : (s t u : S) → R s t → R t u → R s u

-- `m` moves the state along `R`.
pub record Moves {ℓ} {S A : Type ℓ} (R : S → S → Type ℓ) (m : Action S A) : Type ℓ where
  pub along : (s : S) → R s (m s).1

module _ {ℓ} {S : Type ℓ} (R : S → S → Type ℓ) (order : Preorder R) where
  module _ {A : Type ℓ} where
    pub Moves-pure : (a : A) → Moves R (pure a)
    unfolding pure
    Moves-pure a = record { along = order.reflexive }

    pub Moves-raise : (e : Error) → Moves R (raise {A = A} e)
    unfolding raise
    Moves-raise e = record { along = order.reflexive }

    pub Moves-gets : (f : S → A) → Moves R (gets f)
    unfolding gets
    Moves-gets f = record { along = order.reflexive }

    pub Moves-if :
        (b : Bool) (m n : Action S A) → Moves R m → Moves R n → Moves R (if b then m else n)
    Moves-if true m n hm hn = hm
    Moves-if false m n hm hn = hn

    pub Moves-handling :
        (m : Action S A) (h : Error → Action S A)
        → Moves R m
        → ((e : Error) → Moves R (h e))
        → Moves R (handling m h)
    unfolding handling
    Moves-handling m h hm hh = record { along = λ s. go s (m s) (hm.along s) }
      where
        go : (s : S) (r : Outcome A × S) → R s r.1 → R s (recover r h).1
        go s (returned a, t) q = q
        go s (threw e, t) q = order.transitive s t _ q ((hh e).along t)

  module _ {A B : Type ℓ} where
    pub Moves-bind :
        (m : Action S A) (f : A → Action S B)
        → Moves R m
        → ((a : A) → Moves R (f a))
        → Moves R (m >>= f)
    unfolding ◌>>=◌
    Moves-bind m f hm hf = record { along = λ s. go s (m s) (hm.along s) }
      where
        go : (s : S) (r : Outcome A × S) → R s r.1 → R s (follow r f).1
        go s (returned a, t) q = order.transitive s t _ q ((hf a).along t)
        go s (threw e, t) q = q
