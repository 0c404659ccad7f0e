-- ===== src/Effect/Post.antt =====
-- What holds where an action has returned: one rule for each way to build an action. An action that
-- always throws ensures anything.
use gateway_orchestrator.Prelude.{◌≡◌, sym, ◌∙◌, subst, Bool, true, false, if◌then◌else◌}
use gateway_orchestrator.Effect.{
  Error, Outcome, returned, threw, Action, ◌>>=◌, follow, raise, recover, handling,
}

-- `Q` holds of the result and the state wherever `m` returns.
pub record Ensures {ℓ} {S A : Type ℓ} (Q : A → S → Type ℓ) (m : Action S A) : Type ℓ where
  pub at_return : (s : S) (a : A) → (m s).0 ≡ returned a → Q a (m s).1

pub threw_not_returned {ℓ} : {A : Type ℓ} {e : Error} {a : A} → threw e ≡ returned a → ⊥
threw_not_returned h = cc

module _ {ℓ} {S A : Type ℓ} (Q : A → S → Type ℓ) where
  pub Ensures-raise : (e : Error) → Ensures Q (raise e)
  unfolding raise
  Ensures-raise e = record { at_return = λ s a h. cc }

  pub Ensures-if :
      (b : Bool) (m n : Action S A) → Ensures Q m → Ensures Q n → Ensures Q (if b then m else n)
  Ensures-if true m n hm hn = hm
  Ensures-if false m n hm hn = hn

  module _ {B : Type ℓ} where
    pub Ensures-bind :
        (m : Action S B) (f : B → Action S A) → ((b : B) → Ensures Q (f b)) → Ensures Q (m >>= f)
    unfolding ◌>>=◌
    Ensures-bind m f hf = record { at_return = λ s a. go (m s) a }
      where
        go : (r : Outcome B × S) (a : A) → (follow r f).0 ≡ returned a → Q a (follow r f).1
        go (returned b, t) a h = (hf b).at_return t a h
        go (threw e, t) a h = cc

  returned-injective : {a b : A} → returned a ≡ returned b → a ≡ b
  returned-injective h = cc

  -- An action that returns `value s` from each state `s`.
  pub Ensures-value :
      (m : Action S A) (value : S → A)
      → ((s : S) → (m s).0 ≡ returned (value s))
      → ((s : S) → Q (value s) (m s).1)
      → Ensures Q m
  Ensures-value m value e q = record {
    at_return = λ s a h. subst (λ x. Q x (m s).1) (returned-injective (sym (e s) ∙ h)) (q s);
  }

  pub Ensures-handling :
      (m : Action S A) (h : Error → Action S A)
      → Ensures Q m
      → ((e : Error) → Ensures Q (h e))
      → Ensures Q (handling m h)
  unfolding handling
  Ensures-handling m h hm hh = record { at_return = λ s a. go s (m s) a (hm.at_return s) }
    where
      go :
          (s : S) (r : Outcome A × S) (a : A)
          → ((b : A) → r.0 ≡ returned b → Q b r.1)
          → (recover r h).0 ≡ returned a
          → Q a (recover r h).1
      go s (returned b, t) a q e = q a e
      go s (threw x, t) a q e = (hh x).at_return t a e
