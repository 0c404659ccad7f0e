-- ===== src/Payments/Initial/Steps.antt =====
-- What the loop of `executeInitialFlow` may write: rules for predicates on the stores.
use gateway_orchestrator.Prelude.{
  ◌≡◌, refl, Bool, true, false, Option, some, List, [], ◌∷◌, ℕ, Bool-cases, Option-cases, inl, inr,
}
use gateway_orchestrator.Effect.{◌>>=◌, Action, Error, threw}
use gateway_orchestrator.Effect.Rules.{Moves, Moves-handling, Moves-if}
use gateway_orchestrator.Domain.Enums.{PaymentProviderName, PaymentStatus}
use gateway_orchestrator.Domain.Payment.{Payment, allowed, invalid_transition}
use gateway_orchestrator.Domain.Provider.{PaymentProvider, PaymentRequest, PaymentResponse}
use gateway_orchestrator.Domain.Records.{Headers, ProviderCredential}
use gateway_orchestrator.Domain.Transitions.{ensure_transition-allowed, ensure_transition-refused}
use gateway_orchestrator.Routing.{ProviderCandidate}
use gateway_orchestrator.Runtime.{Env, State, update_payment, assign}
use gateway_orchestrator.Runtime.Frame.{Kept, Kept-Preorder, OnStores, Kept-now, Kept-outside}
use gateway_orchestrator.Payments.Input.{CreatePaymentInput, Flow}
use gateway_orchestrator.Payments.Support.{mark_payment_failed}
use gateway_orchestrator.Runtime.Frame.{Kept-pure, Kept-raise, Kept-bind}
use gateway_orchestrator.Payments.Support.Frame.{
  Kept-write_log, Kept-resolve_provider, Kept-get_default_credential,
}
use gateway_orchestrator.Payments.Initial.{
  call_initial, accept_response, apply_response, candidate_credential, attempt_failed,
  run_candidates,
}

module _ {W : Type 0} (env : Env W) (s : State W) where
  pub mark_failed_refused :
      (p : Payment)
      → allowed p.status PaymentStatus.failed ≡ false
      → mark_payment_failed env p s ≡ (threw (invalid_transition p.status PaymentStatus.failed), s)
  unfolding mark_payment_failed ◌>>=◌
  mark_failed_refused p e = rw (ensure_transition-refused s p.status PaymentStatus.failed e) refl

  pub accept_refused :
      (flow : Flow) (input : CreatePaymentInput) (headers : Headers) (c : ProviderCandidate)
      (k : Option ProviderCredential) (t : ℕ) (p : Payment) (r : PaymentResponse)
      → allowed p.status r.status ≡ false
      → accept_response env flow input headers c k t p r s
        ≡ (threw (invalid_transition p.status r.status), s)
  unfolding accept_response ◌>>=◌
  accept_refused flow input headers c k t p r e =
      rw (ensure_transition-refused s p.status r.status e) refl

module _ {W : Type 0} (env : Env W) (flow : Flow) (input : CreatePaymentInput) (headers : Headers)
    (P : State W → Type 0) (on : OnStores P) (V : Payment → Type 0)
    (provides : (q : Payment) (name : PaymentProviderName) → V q → V (record q { provider = name }))
    (accepts : (q : Payment) (r : PaymentResponse) (time : ℕ)
      → allowed q.status r.status ≡ true
      → V q
      → V (record (apply_response q r) { updated_at = time }))
    (fails : (q : Payment) (time : ℕ)
      → allowed q.status PaymentStatus.failed ≡ true
      → V q
      → V (record q { status = PaymentStatus.failed; updated_at = time }))
    (updates : (q : Payment) → V q → Moves (Kept P) (update_payment q))
    (assigns : (q : Payment) → V q → Moves (Kept P) (assign env q.id q)) where
  Kept-mark_allowed :
      (p : Payment) (s : State W)
      → V p
      → allowed p.status PaymentStatus.failed ≡ true
      → P s
      → P (mark_payment_failed env p s).1
  unfolding mark_payment_failed ◌>>=◌
  Kept-mark_allowed p s v e h =
      rw (ensure_transition-allowed s p.status PaymentStatus.failed e)
        ((Kept-bind P _ _ (Kept-now P on env) λ time. updates _ (fails p time e v)).along s h)

  pub Kept-mark_payment_failed : (p : Payment) → V p → Moves (Kept P) (mark_payment_failed env p)
  Kept-mark_payment_failed p v = elim (Bool-cases (allowed p.status PaymentStatus.failed)) [
    | inl e ↦ record { along = λ s h. Kept-mark_allowed p s v e h }
    | inr e ↦ record { along = λ s h. rw (mark_failed_refused env s p e) h }
  ]

  Kept-accept_allowed :
      (c : ProviderCandidate) (k : Option ProviderCredential) (t : ℕ) (p : Payment)
      (r : PaymentResponse) (s : State W)
      → V p
      → allowed p.status r.status ≡ true
      → P s
      → P (accept_response env flow input headers c k t p r s).1
  unfolding accept_response ◌>>=◌
  Kept-accept_allowed c k t p r s v e h = rw (ensure_transition-allowed s p.status r.status e) (
      (Kept-bind P _ _ (Kept-now P on env) λ time.
          Kept-bind P _ _ (updates _ (accepts p r time e v))
            λ _. Kept-bind P _ _ (Kept-write_log P on env _ _ _ _ _ _) λ _. Kept-pure P _).along
        s h)

  Kept-accept_response :
      (c : ProviderCandidate) (k : Option ProviderCredential) (t : ℕ) (p : Payment)
      (r : PaymentResponse)
      → V p
      → Moves (Kept P) (accept_response env flow input headers c k t p r)
  Kept-accept_response c k t p r v = elim (Bool-cases (allowed p.status r.status)) [
    | inl e ↦ record { along = λ s h. Kept-accept_allowed c k t p r s v e h }
    | inr e ↦ record { along = λ s h. rw (accept_refused env s flow input headers c k t p r e) h }
  ]

  Kept-call_initial :
      (f : Flow) (provider : PaymentProvider W) (r : PaymentRequest)
      → Moves (Kept P) (call_initial env f provider r)
  unfolding call_initial
  Kept-call_initial Flow.payment provider r = Kept-outside P on _
  Kept-call_initial _ provider r = Kept-outside P on _

  Kept-candidate_credential : (c : ProviderCandidate) → Moves (Kept P) (candidate_credential env c)
  unfolding candidate_credential
  Kept-candidate_credential c = elim (Option-cases c.credential) [
    | inl e ↦ rw e (Kept-get_default_credential P env c.provider)
    | inr (k, e) ↦ rw e (Kept-pure P (some k))
  ]

  Kept-attempt_failed :
      (c : ProviderCandidate) (k : Option ProviderCredential) (t : ℕ) (p : Payment) (b : Bool)
      (next : Action (State W) Payment) (e : Error)
      → V p
      → Moves (Kept P) next
      → Moves (Kept P) (attempt_failed env flow input headers c k t p b next e)
  unfolding attempt_failed
  Kept-attempt_failed c k t p b next e v hn =
      Kept-bind P _ _ (Kept-write_log P on env _ _ _ _ _ _) λ _.
        Moves-if _ (Kept-Preorder P) _ _ _ hn
          (Kept-bind P _ _ (Kept-mark_payment_failed p v) λ _. Kept-raise P e)

  pub Kept-run_candidates :
      (cs : List ProviderCandidate) (e : Error) (p : Payment)
      → V p
      → Moves (Kept P) (run_candidates env flow input headers e p cs)
  unfolding run_candidates
  Kept-run_candidates [] e p v = Kept-bind P _ _ (Kept-mark_payment_failed p v) λ _. Kept-raise P _
  Kept-run_candidates (c ∷ cs) e p v =
      let v' = provides p c.provider v in
      Kept-bind P _ _ (Kept-candidate_credential c) λ k.
        Kept-bind P _ _ (Kept-resolve_provider P env c.provider k) λ provider.
          Kept-bind P _ _ (Kept-now P on env) λ t. Kept-bind P _ _ (assigns _ v') λ _.
            Moves-handling _ (Kept-Preorder P) _ _
              (Kept-bind P _ _ (Kept-call_initial flow provider _)
                λ r. Kept-accept_response c k t _ r v')
              λ e'. Kept-attempt_failed c k t _ _ _ e' v' (Kept-run_candidates cs e' _ v')
