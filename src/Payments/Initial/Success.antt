-- ===== src/Payments/Initial/Success.antt =====
-- The runs of `executeInitialFlow` that return a payment.
use gateway_orchestrator.Prelude.{
  ◌≡◌, refl, sym, ap, ◌∙◌, inl, inr, String, true, Option, none, some, List, [], ◌∷◌, ℕ,
  Option-cases, Bool-cases, get, get-put_self, find_value, subst,
}
use gateway_orchestrator.Effect.{
  ◌>>=◌, follow, Error, Outcome, returned, threw, pure, raise, modify,
}
use gateway_orchestrator.Effect.Post.{
  threw_not_returned, Ensures, Ensures-raise, Ensures-if, Ensures-bind, Ensures-value,
  Ensures-handling,
}
use gateway_orchestrator.Domain.Enums.{PaymentStatus}
use gateway_orchestrator.Domain.Payment.{Payment, allowed}
use gateway_orchestrator.Domain.Provider.{PaymentResponse}
use gateway_orchestrator.Domain.Records.{Headers, ProviderCredential}
use gateway_orchestrator.Domain.Transitions.{ensure_transition-allowed}
use gateway_orchestrator.Repositories.Payments
use gateway_orchestrator.Routing.{ProviderCandidate, resolve_candidates}
use gateway_orchestrator.Routing.Reads.{resolve-same}
use gateway_orchestrator.Runtime.{
  Env, State, new_id, now, create_payment, update_payment, create_log,
}
use gateway_orchestrator.Payments.Input.{CreatePaymentInput, Flow}
use gateway_orchestrator.Payments.Support.{write_log}
use gateway_orchestrator.Payments.Initial.{
  apply_response, accept_response, attempt_failed, run_candidates, start_payment,
  execute_initial_flow, new_payment,
}
use gateway_orchestrator.Payments.Initial.Steps.{accept_refused}
use gateway_orchestrator.Payments.Initial.Retry.{
  Created, replay-Created, replay_lem, execute_new, start-Created, is_ours, request_hash,
  routing_input,
}

found_one : {p q : Payment} → some p ≡ some q → p ≡ q
found_one h = cc

-- `q` is stored under the identifier, with a status that may follow `CREATED`.
pub record Accepted {W : Type 0} (id : String) (q : Payment) (t : State W) : Type 0 where
  pub at : q.id ≡ id
  pub stored : get t.payments q.id ≡ some q
  pub legal : allowed PaymentStatus.created q.status ≡ true

module _ {W : Type 0} (env : Env W) (flow : Flow) (input : CreatePaymentInput)
    (headers : Headers) where
  module _ (c : ProviderCandidate) (k : Option ProviderCredential) (t : ℕ) (p : Payment)
      (r : PaymentResponse) (created : p.status ≡ PaymentStatus.created) where
    accept-Accepted_legal :
        allowed p.status r.status ≡ true
        → Ensures (Accepted {W = W} p.id) (accept_response env flow input headers c k t p r)
    unfolding accept_response apply_response ◌>>=◌ write_log new_id now create_log update_payment
        modify pure Payments.update
    accept-Accepted_legal e =
        Ensures-value _ _ (λ s. record (apply_response p r) { updated_at = env.clock s.ticks })
          (λ s. rw (ensure_transition-allowed s p.status r.status e) refl)
          λ s. rw (ensure_transition-allowed s p.status r.status e) (record {
            at = refl;
            stored = get-put_self s.payments _ _;
            legal = subst (λ x. allowed x r.status ≡ true) created e;
          })

    accept-Accepted :
        Ensures (Accepted {W = W} p.id) (accept_response env flow input headers c k t p r)
    accept-Accepted = elim (Bool-cases (allowed p.status r.status)) [
      | inl e ↦ accept-Accepted_legal e
      | inr e ↦ record {
        at_return = λ s a h.
            absurd
              (threw_not_returned (rw (accept_refused env s flow input headers c k t p r e) at h));
      }
    ]

  run-Accepted :
      (cs : List ProviderCandidate) (e : Error) (p : Payment)
      → p.status ≡ PaymentStatus.created
      → Ensures (Accepted {W = W} p.id) (run_candidates env flow input headers e p cs)
  unfolding run_candidates attempt_failed
  run-Accepted [] e p created = Ensures-bind _ _ _ λ _. Ensures-raise _ _
  run-Accepted (c ∷ cs) e p created = Ensures-bind _ _ _ λ k. Ensures-bind _ _ _ λ provider.
      Ensures-bind _ _ _ λ t. Ensures-bind _ _ _ λ _.
        Ensures-handling _ _ _ (Ensures-bind _ _ _ λ r. accept-Accepted c k t _ r created) λ e'.
          Ensures-bind _ _ _ λ _.
            Ensures-if _ _ _ _ (run-Accepted cs e' _ created)
              (Ensures-bind _ _ _ λ _. Ensures-raise _ _)

  start-Accepted :
      (c : ProviderCandidate) (cs : List ProviderCandidate) (s : State W) (q : Payment)
      → (start_payment env flow input headers (request_hash env flow input headers) (c ∷ cs) s).0
        ≡ returned q
      → Accepted
          (env.random_uuid s.ids)
          q
          (start_payment env flow input headers (request_hash env flow input headers) (c ∷ cs) s).1
  unfolding start_payment new_payment ◌>>=◌ new_id now create_payment modify
  start-Accepted c cs s q h = (run-Accepted (c ∷ cs) _ _ refl).at_return _ q h

  follow_returned :
      (x : Outcome (List ProviderCandidate) × State W) (s : State W) (q : Payment)
      → x.1 ≡ s
      → find_value (is_ours env flow input headers) s.payments ≡ none
      → (follow x (start_payment env flow input headers (request_hash env flow input headers))).0
        ≡ returned q
      → Accepted
          (env.random_uuid s.ids)
          q
          (follow x (start_payment env flow input headers (request_hash env flow input headers))).1
        × Created env flow input headers
            (env.random_uuid s.ids)
            (follow x
              (start_payment env flow input headers (request_hash env flow input headers))).1
  unfolding follow start_payment raise
  follow_returned (threw e, t) s q same new h = absurd (threw_not_returned h)
  follow_returned ((returned []), t) s q same new h = absurd (threw_not_returned h)
  follow_returned ((returned (c ∷ cs)), t) s q same new h =
      let u =
        (start_payment env flow input headers (request_hash env flow input headers) (c ∷ cs) t).1 in
      (
        subst (λ i. Accepted {W = W} (env.random_uuid i) q u) (ap (λ (v : State W). v.ids) same)
            (start-Accepted c cs t q h),
        subst (λ i. Created env flow input headers (env.random_uuid i) u)
            (ap (λ (v : State W). v.ids) same)
            (start-Created env flow input headers c cs t (
              ap (λ (v : State W). find_value (is_ours env flow input headers) v.payments) same
              ∙ new)),
      )

  -- A payment that is created, for a key that was not in use, is stored as it is returned, under a
  -- new identifier, and its status is one that may follow `CREATED`.
  pub created-Accepted :
      (s : State W) (q : Payment)
      → find_value (is_ours env flow input headers) s.payments ≡ none
      → (execute_initial_flow env flow input headers s).0 ≡ returned q
      → Accepted (env.random_uuid s.ids) q (execute_initial_flow env flow input headers s).1
  created-Accepted s q new h =
      rw (execute_new env flow input headers s new)
        (follow_returned (resolve_candidates (routing_input env flow input headers) s) s q
          (resolve-same (routing_input env flow input headers) s) new
          (rw (execute_new env flow input headers s new) at h)).0

  same_stored :
      (id : String) (t : State W) (q : Payment) (h : Created env flow input headers id t)
      → Accepted id q t
      → h.here.0 ≡ q
  same_stored id t q h a =
      found_one (sym h.here.1 ∙ subst (λ k. get t.payments k ≡ some q) a.at a.stored)

  retry_of_new :
      (s : State W) (q : Payment)
      → find_value (is_ours env flow input headers) s.payments ≡ none
      → (execute_initial_flow env flow input headers s).0 ≡ returned q
      → execute_initial_flow env flow input headers
          (execute_initial_flow env flow input headers s).1
        ≡ (returned q, (execute_initial_flow env flow input headers s).1)
  retry_of_new s q new h =
      let (a, c) =
        follow_returned (resolve_candidates (routing_input env flow input headers) s) s q
          (resolve-same (routing_input env flow input headers) s) new
          (rw (execute_new env flow input headers s new) at h) in
      rw (execute_new env flow input headers s new) (
        replay-Created env flow input headers _ _ c
        ∙ ap
            (λ x. (
              returned x,
              (follow (resolve_candidates (routing_input env flow input headers) s)
                  (start_payment env flow input headers (request_hash env flow input headers))).1,
            ))
            (same_stored _ _ q c a))

  -- A payment that was returned, newly created or not, is returned again when the same flow is run
  -- with the same input, and nothing changes.
  pub replay-returns :
      (s : State W) (q : Payment)
      → (execute_initial_flow env flow input headers s).0 ≡ returned q
      → execute_initial_flow env flow input headers
          (execute_initial_flow env flow input headers s).1
        ≡ (returned q, (execute_initial_flow env flow input headers s).1)
  replay-returns s q h =
      elim (Option-cases (find_value (is_ours env flow input headers) s.payments)) [
        | inl new ↦ retry_of_new s q new h
        | inr (x, found) ↦
            ap (execute_initial_flow env flow input headers) (
              ap (λ (r : Outcome Payment × State W). r.1)
                (replay_lem env flow input headers x s found))
            ∙ λ i. (h i, (execute_initial_flow env flow input headers s).1)
      ]
