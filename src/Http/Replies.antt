-- ===== src/Http/Replies.antt =====
-- Requests to src/controllers/payment.controller.ts that are sent again.
use gateway_orchestrator.Prelude.{
  ◌≡◌, refl, ap, ◌∙◌, String, Option, Bool-cases, inl, inr, true, false, subst, coalesce,
}
use gateway_orchestrator.Prelude.Text.{truthy}
use gateway_orchestrator.Effect.{
  Error, Outcome, returned, threw, Action, ◌>>=◌, follow, pure, raise,
}
use gateway_orchestrator.Effect.Post.{threw_not_returned}
use gateway_orchestrator.Domain.Records.{Headers}
use gateway_orchestrator.Runtime.{Env, State}
use gateway_orchestrator.Payments.Input.{CreatePaymentInput, Flow}
use gateway_orchestrator.Payments.Initial.{execute_initial_flow, payment, authorize_payment}
use gateway_orchestrator.Payments.Initial.Success.{replay-returns}
use gateway_orchestrator.Http.{Reply, require_idempotency_key, create_like_flow, answer_create}

-- The action returns the same again from the state that it left, and changes nothing.
pub record Repeats {S A : Type 0} (m : Action S A) (s : S) : Type 0 where
  pub again : (a : A) → (m s).0 ≡ returned a → m (m s).1 ≡ (returned a, (m s).1)

module _ {S A B : Type 0} (m : Action S A) (f : A → B) where
  Repeats-pure : (s : S) → Repeats m s → Repeats (m >>= λ a. pure (f a)) s
  unfolding ◌>>=◌ follow pure
  Repeats-pure s h = record { again = λ b. go (m s) refl b }
    where
      go :
          (x : Outcome A × S)
          → m s ≡ x
          → (b : B) → (follow x (λ a. pure (f a))).0 ≡ returned b
          → follow (m (follow x (λ a. pure (f a))).1) (λ a. pure (f a))
            ≡ (returned b, (follow x (λ a. pure (f a))).1)
      go (returned a, t) e b k =
          rw
            (subst (λ u. m u ≡ (returned a, u)) (ap (λ (x : Outcome A × S). x.1) e)
              (h.again a (ap (λ (x : Outcome A × S). x.0) e)))
            (ap (λ o. (o, t)) k)
      go (threw x, t) e b k = absurd (threw_not_returned k)

module _ {W : Type 0} (env : Env W) (payload : CreatePaymentInput) (header : Option String)
    (headers : Headers) where
  -- The input that the service is given.
  abbrev keyed_input : CreatePaymentInput
  keyed_input = record payload { idempotency_key = coalesce header "" }

  create_named :
      (mode : Flow) (s : State W)
      → truthy header ≡ true
      → create_like_flow env mode payload header headers s
        ≡ execute_initial_flow env mode keyed_input headers s
  unfolding create_like_flow require_idempotency_key ◌>>=◌ follow pure payment authorize_payment
  create_named Flow.payment s h = rw h refl
  create_named Flow.authorize s h = rw h refl

  create_unnamed :
      (mode : Flow) (s : State W)
      → truthy header ≡ false
      → (e : Error) × (create_like_flow env mode payload header headers s ≡ (threw e, s))
  unfolding create_like_flow require_idempotency_key ◌>>=◌ follow raise
  create_unnamed Flow.payment s h = rw h (_, refl)
  create_unnamed Flow.authorize s h = rw h (_, refl)

  Repeats-create :
      (mode : Flow) (s : State W) → Repeats (create_like_flow env mode payload header headers) s
  Repeats-create mode s = elim (Bool-cases (truthy header)) [
    | inl h ↦ record {
      again = λ p k.
          create_named mode _ h
          ∙ rw (create_named mode s h)
              (replay-returns env mode keyed_input headers s p (rw (create_named mode s h) at k));
    }
    | inr h ↦ record {
      again = λ p k. absurd (threw_not_returned (rw (create_unnamed mode s h).1 at k));
    }
  ]

  -- A request that creates a payment and is answered with a reply, not with an error, is answered with the same reply
  -- when it is sent again, and the second request changes nothing.
  pub answer_create-again :
      (mode : Flow) (s : State W) (reply : Reply)
      → (answer_create env mode payload header headers s).0 ≡ returned reply
      → answer_create env mode payload header headers
          (answer_create env mode payload header headers s).1
        ≡ (returned reply, (answer_create env mode payload header headers s).1)
  unfolding answer_create
  answer_create-again mode s reply h =
      (Repeats-pure (create_like_flow env mode payload header headers) _ s
          (Repeats-create mode s)).again
        reply h
