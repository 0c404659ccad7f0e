-- ===== src/Effect/Throws.antt =====
-- What is kept where an action throws: one rule for each way to build an action. An action that
-- never throws keeps anything in this sense.
use gateway_orchestrator.Prelude.{◌≡◌, Bool, true, false, if◌then◌else◌}
use gateway_orchestrator.Effect.{Error, Outcome, returned, threw, Action, ◌>>=◌, follow}
use gateway_orchestrator.Effect.Rules.{Moves}

-- Wherever `m` throws, `P` holds after it if it held before.
pub record KeepsOnThrow {ℓ} {S A : Type ℓ} (P : S → Type ℓ) (m : Action S A) : Type ℓ where
  pub at_throw : (s : S) (e : Error) → P s → (m s).0 ≡ threw e → P (m s).1

module _ {ℓ} {S A : Type ℓ} (P : S → Type ℓ) where
  pub OnThrow-kept : (m : Action S A) → Moves (λ s t. P s → P t) m → KeepsOnThrow P m
  OnThrow-kept m k = record { at_throw = λ s e h _. k.along s h }

  pub OnThrow-if :
      (b : Bool) (m n : Action S A)
      → KeepsOnThrow P m
      → KeepsOnThrow P n
      → KeepsOnThrow P (if b then m else n)
  OnThrow-if true m n hm hn = hm
  OnThrow-if false m n hm hn = hn

  pub OnThrow-value :
      (m : Action S A) (value : S → A) → ((s : S) → (m s).0 ≡ returned (value s)) → KeepsOnThrow P m
  OnThrow-value m value r = record { at_throw = λ s e h t. cc (r s) }

  module _ {B : Type ℓ} where
    pub OnThrow-bind :
        (m : Action S B) (f : B → Action S A)
        → Moves (λ s t. P s → P t) m
        → ((b : B) → KeepsOnThrow P (f b))
        → KeepsOnThrow P (m >>= f)
    unfolding ◌>>=◌
    OnThrow-bind m f k hf = record { at_throw = λ s e h. go (m s) (k.along s h) e }
      where
        go : (r : Outcome B × S) → P r.1 → (e : Error) → (follow r f).0 ≡ threw e → P (follow r f).1
        go (returned b, t) h e q = (hf b).at_throw t e h q
        go (threw e', t) h e q = h
