-- ===== src/Payments/Initial/Refused.antt =====
-- The runs of `executeInitialFlow` in which a provider answers with a status that may not follow
-- `CREATED`.
use gateway_orchestrator.Prelude.{
  ◌≡◌, refl, String, Bool, true, false, Option, some, List, ◌∷◌, ℕ, get, get-put_self, sym, subst,
  ◌&&◌, if◌then◌else◌, none, Option-cases, Bool-cases, inl, inr,
}
use gateway_orchestrator.Prelude.Text.{truthy}
use gateway_orchestrator.Effect.{
  ◌>>=◌, follow, Action, Error, Outcome, returned, threw, pure, raise, gets, modify, handling,
}
use gateway_orchestrator.Domain.Enums.{PaymentStatus}
use gateway_orchestrator.Domain.Payment.{Payment, allowed, invalid_transition}
use gateway_orchestrator.Domain.Provider.{
  PaymentProvider, ProviderEntry, PaymentRequest, PaymentResponse,
}
use gateway_orchestrator.Domain.Records.{Headers, ProviderCredential}
use gateway_orchestrator.Domain.Transitions.{ensure_transition-allowed}
use gateway_orchestrator.Repositories.Payments
use gateway_orchestrator.Routing.{ProviderCandidate}
use gateway_orchestrator.Runtime.{
  Env, State, new_id, now, outside, update_payment, assign, create_log,
}
use gateway_orchestrator.Payments.Input.{CreatePaymentInput, Flow, request_payload}
use gateway_orchestrator.Payments.Support.{
  write_log, mark_payment_failed, resolve_provider, provider_of_entry, is_retryable_provider_error,
  get_default_credential, credential_or_null, get_default_mongo_merchant_identifier,
}
use gateway_orchestrator.Payments.Initial.Steps.{accept_refused}
use gateway_orchestrator.Payments.Initial.{
  call_initial, candidate_credential, accept_response, attempt_failed, run_candidates,
}

-- The method that a flow calls.
abbrev pub initial_method :
    {W : Type 0} → Flow → PaymentProvider W → PaymentRequest → Action W PaymentResponse
initial_method Flow.payment provider = provider.payment
initial_method Flow.authorize provider = provider.authorize

-- The provider of an entry for a credential, or for none.
abbrev pub provider_with :
    {W : Type 0} → ProviderEntry W → Option ProviderCredential → PaymentProvider W
provider_with (ProviderEntry.instance_of provider) credential = provider
provider_with (ProviderEntry.factory make) credential = make credential

module _ {ℓ} {S A B : Type ℓ} where
  bind_step :
      (m : Action S A) (f : A → Action S B) (a : A) (s t : S)
      → m s ≡ (returned a, t)
      → (m >>= f) s ≡ f a t
  unfolding ◌>>=◌
  bind_step m f a s t h = rw h refl

called :
    {W : Type 0} (env : Env W) (flow : Flow) (provider : PaymentProvider W) (q : PaymentRequest)
    (s : State W) (r : PaymentResponse) (w : W)
    → initial_method flow provider q s.remote ≡ (returned r, w)
    → call_initial env flow provider q s ≡ (returned r, record s { remote = w })
unfolding call_initial outside
called env Flow.payment provider q s r w h = rw h refl
called env Flow.authorize provider q s r w h = rw h refl

module _ {W : Type 0} (env : Env W) (flow : Flow) (input : CreatePaymentInput)
    (headers : Headers) where
  -- An answer that is refused reaches the `catch` block.
  attempt_refused :
      (c : ProviderCandidate) (k : Option ProviderCredential) (at : ℕ) (p : Payment)
      (r : PaymentResponse) (call : Action (State W) PaymentResponse)
      (fail : Error → Action (State W) Payment) (s t : State W)
      → call s ≡ (returned r, t)
      → allowed p.status r.status ≡ false
      → handling
          (do response ← call; accept_response env flow input headers c k at p response)
          fail
          s
        ≡ fail (invalid_transition p.status r.status) t
  unfolding handling ◌>>=◌
  attempt_refused c k at p r call fail s t answered illegal =
      rw (answered, accept_refused env t flow input headers c k at p r illegal) refl

  -- What is left of a payment that was given up with an error, the world outside being as the last call of
  -- a provider left it.
  pub record GivenUp (id : String) (e : Error) (w : W) (x : Outcome Payment × State W)
      : Type 0 where
    pub error : x.0 ≡ threw e
    pub remote : x.1.remote ≡ w
    pub stored : Payment
    pub at_id : get x.1.payments id ≡ some stored
    pub failed : stored.status ≡ PaymentStatus.failed

  may_fail :
      (p : Payment)
      → p.status ≡ PaymentStatus.created
      → allowed p.status PaymentStatus.failed ≡ true
  unfolding allowed
  may_fail p created = rw created refl

  fail_and_raise :
      (p : Payment) (e : Error) (s : State W)
      → p.status ≡ PaymentStatus.created
      → GivenUp p.id e s.remote ((mark_payment_failed env p >>= λ _. raise e) s)
  unfolding ◌>>=◌ mark_payment_failed now update_payment modify raise Payments.update
  fail_and_raise p e s created =
      rw (ensure_transition-allowed s p.status PaymentStatus.failed (may_fail p created)) (record {
        error = refl;
        remote = refl;
        stored = record p { status = PaymentStatus.failed; updated_at = env.clock s.ticks };
        at_id = get-put_self s.payments _ _;
        failed = refl;
      })

  not_retried :
      (b : Bool) (next last : Action (State W) Payment) (from to : PaymentStatus)
      → (if b && is_retryable_provider_error (invalid_transition from to) then next else last)
        ≡ last
  unfolding is_retryable_provider_error invalid_transition
  not_retried true next last from to = refl
  not_retried false next last from to = refl

  refused_failed :
      (c : ProviderCandidate) (k : Option ProviderCredential) (at : ℕ) (p : Payment) (b : Bool)
      (next : Action (State W) Payment) (to : PaymentStatus) (s : State W)
      → p.status ≡ PaymentStatus.created
      → GivenUp p.id
          (invalid_transition p.status to)
          s.remote
          (attempt_failed env flow input headers c k at p b next (invalid_transition p.status to) s)
  unfolding attempt_failed ◌>>=◌ write_log new_id now create_log modify
  refused_failed c k at p b next to s created =
      rw (not_retried b next _ p.status to) (fail_and_raise p _ _ created)

  -- The credential of a candidate, or the default one, is read without a write.
  pub candidate_credential-returns :
      (c : ProviderCandidate) (s : State W)
      → (k : Option ProviderCredential) × (candidate_credential env c s ≡ (returned k, s))
  unfolding candidate_credential get_default_credential credential_or_null
      get_default_mongo_merchant_identifier gets pure
  candidate_credential-returns c s = elim (Option-cases c.credential) [
    | inr (k, carried) ↦ (some k, rw carried refl)
    | inl bare ↦
        elim (Bool-cases
          (truthy (if env.mongo_enabled then some env.default_merchant_identifier else none))) [
            | inl named ↦ rw (bare, named) (_, refl)
            | inr unnamed ↦ rw (bare, unnamed) (_, refl)
          ]
  ]

  provider_given :
      (c : ProviderCandidate) (k : Option ProviderCredential) (entry : ProviderEntry W)
      (s : State W)
      → env.providers c.provider ≡ some entry
      → resolve_provider env c.provider k s ≡ (returned (provider_with entry k), s)
  unfolding resolve_provider provider_of_entry pure
  provider_given c k (ProviderEntry.instance_of provider) s h = rw h refl
  provider_given c k (ProviderEntry.factory make) s h = rw h refl

  -- A new payment whose candidate has a provider in the registry that answers, for the credential that the
  -- candidate carries or the default one, with a status that may not follow `CREATED`: the flow
  -- throws the error of the transition, the world outside is as this answer left it, so that no
  -- other candidate is tried, and the payment is stored as `FAILED`.
  pub refused-GivenUp :
      (last : Error) (p : Payment) (c : ProviderCandidate) (cs : List ProviderCandidate)
      (s : State W) (k : Option ProviderCredential) (entry : ProviderEntry W) (r : PaymentResponse)
      (w : W)
      → p.status ≡ PaymentStatus.created
      → allowed p.status r.status ≡ false
      → candidate_credential env c s ≡ (returned k, s)
      → env.providers c.provider ≡ some entry
      → initial_method flow (provider_with entry k) (request_payload p input) s.remote
        ≡ (returned r, w)
      → GivenUp p.id
          (invalid_transition p.status r.status)
          w
          (run_candidates env flow input headers last p (c ∷ cs) s)
  unfolding run_candidates ◌>>=◌ follow now assign modify
  refused-GivenUp last p c cs s k entry r w created illegal credential provided answered =
      let attempted = record p { provider = c.provider } in
      rw (credential, provider_given c k entry s provided)
        (subst (GivenUp p.id (invalid_transition p.status r.status) w)
          (sym (
            attempt_refused c k (env.clock s.ticks) attempted r _ _ _ _
              (called env flow (provider_with entry k) _ _ r w answered) illegal))
          (refused_failed c k _ attempted _ _ r.status _ created))
