-- ===== src/Payments/Initial/Retry.antt =====
-- Retrying `executeInitialFlow` of src/services/payment.service.ts: the search by idempotency key, and
-- the payment that a first run leaves for it.
use gateway_orchestrator.Prelude.{
  ◌≡◌, refl, sym, ap, ◌∙◌, ◌⊎◌, inl, inr, String, Bool, true, false, none, some, List, [], ◌∷◌,
  Option-cases, Bool-cases, get, put, get-put_self, find_value, eq_refl, arith, if◌then◌else◌,
  subst,
}
use gateway_orchestrator.Effect.{
  ◌>>=◌, follow, Error, Outcome, returned, threw, gets, pure, raise, modify,
}
use gateway_orchestrator.Effect.Rules.{Moves}
use gateway_orchestrator.Domain.Payment.{Payment}
use gateway_orchestrator.Domain.Records.{Headers}
use gateway_orchestrator.Repositories.Payments
use gateway_orchestrator.Repositories.Payments.{has_key}
use gateway_orchestrator.Repositories.Payments.Search.{
  OnlyAt, OnlyAt-of_none, OnlyAt-put, find_value_at, has_key_self,
}
use gateway_orchestrator.Routing.{
  ProviderCandidate, resolve_candidates, ResolveProviderCandidatesInput,
}
use gateway_orchestrator.Routing.Reads.{resolve-same}
use gateway_orchestrator.Runtime.{Env, State, new_id, now, create_payment, update_payment, assign}
use gateway_orchestrator.Runtime.Frame.{Kept, Kept-assign, OnStores, PaymentAt}
use gateway_orchestrator.Payments.Input.{CreatePaymentInput, Flow, hash_initial_request}
use gateway_orchestrator.Payments.Initial.{
  is_other_request, initial_conflict, new_payment, apply_response, run_candidates, start_payment,
  replay_or_start, execute_initial_flow,
}
use gateway_orchestrator.Payments.Initial.Steps.{Kept-run_candidates}

module _ {W : Type 0} (env : Env W) (flow : Flow) (input : CreatePaymentInput)
    (headers : Headers) where
  abbrev pub request_hash : String
  request_hash = hash_initial_request env flow input

  abbrev pub is_ours : Payment → Bool
  is_ours = has_key input.idempotency_key input.merchant_identifier

  -- A payment of this request.
  pub record Ours (id : String) (q : Payment) : Type 0 where
    pub at : q.id ≡ id
    pub key : q.idempotency_key ≡ input.idempotency_key
    pub merchant : q.merchant_identifier ≡ input.merchant_identifier
    pub hash : q.initial_request_hash ≡ some request_hash

  -- The request's payment is stored under the identifier, and no other has its key.
  pub record Created (id : String) (s : State W) : Type 0 where
    pub alone : OnlyAt is_ours id s.payments
    pub here : PaymentAt id (Ours id) s

  Created-OnStores : (id : String) → OnStores (Created id)
  Created-OnStores id = record {
    same = λ s t e h. record {
      alone = rw (← e.payments) h.alone;
      here = (h.here.0, rw (← e.payments) h.here.1, h.here.2);
    };
  }

  Created-put :
      (id : String) (q : Payment) (s : State W)
      → Ours id q
      → OnlyAt is_ours id s.payments
      → Created id (record s { payments = put s.payments q.id q })
  Created-put id q s o h = record {
    alone =
        subst (λ k. OnlyAt is_ours id (put s.payments k q)) (sym o.at)
          (OnlyAt-put is_ours id s.payments q h);
    here = (
      q,
      subst (λ k. get (put s.payments k q) id ≡ some q) (sym o.at) (get-put_self s.payments id q),
      o,
    );
  }

  Created-update :
      (id : String) (q : Payment) → Ours id q → Moves (Kept (Created id)) (update_payment q)
  unfolding update_payment modify Payments.update
  Created-update id q o = record { along = λ s h. Created-put id q s o h.alone }

  Created-assign :
      (id : String) (q : Payment) → Ours id q → Moves (Kept (Created id)) (assign env q.id q)
  Created-assign id q o = Kept-assign env (Created id) q (λ s h. Created-put id q s o h.alone)

  run-Created :
      (id : String) (cs : List ProviderCandidate) (e : Error) (p : Payment)
      → Ours id p
      → Moves (Kept (Created id)) (run_candidates env flow input headers e p cs)
  unfolding apply_response
  run-Created id cs e p o =
      Kept-run_candidates env flow input headers (Created id) (Created-OnStores id) (Ours id)
        (λ q name v. record { at = v.at; key = v.key; merchant = v.merchant; hash = v.hash })
        (λ q r time _ v. record { at = v.at; key = v.key; merchant = v.merchant; hash = v.hash })
        (λ q time _ v. record { at = v.at; key = v.key; merchant = v.merchant; hash = v.hash })
        (Created-update id) (Created-assign id) cs e p o

  pub start-Created :
      (c : ProviderCandidate) (cs : List ProviderCandidate) (s : State W)
      → find_value is_ours s.payments ≡ none
      → Created
          (env.random_uuid s.ids)
          (start_payment env flow input headers request_hash (c ∷ cs) s).1
  unfolding start_payment ◌>>=◌ new_id now create_payment modify Payments.create new_payment
  start-Created c cs s new =
      (run-Created _ (c ∷ cs) _ _
          (record { at = refl; key = refl; merchant = refl; hash = refl })).along
        _
        (Created-put _ _ _ (record { at = refl; key = refl; merchant = refl; hash = refl })
          (OnlyAt-of_none is_ours _ s.payments new))

  -- A request whose key is known: the payment of that key is returned if it was stored for the same
  -- request, or without a hash; else the conflict is thrown. Either way nothing changes, and no
  -- provider is asked.
  pub replay_lem :
      (existing : Payment) (s : State W)
      → find_value is_ours s.payments ≡ some existing
      → execute_initial_flow env flow input headers s ≡ (
        (if is_other_request existing request_hash
            then threw (initial_conflict flow input)
            else returned existing),
        s,
      )
  unfolding execute_initial_flow ◌>>=◌ gets replay_or_start raise pure
      Payments.find_by_idempotency_key
  replay_lem existing s found = elim (Bool-cases (is_other_request existing request_hash)) [
    | inl e ↦ rw (found, e) refl
    | inr e ↦ rw (found, e) refl
  ]

  same_request :
      (q : Payment)
      → q.initial_request_hash ≡ some request_hash
      → is_other_request q request_hash ≡ false
  unfolding is_other_request
  same_request q e = ground (arith, eq_refl request_hash)

  is_ours_of : (id : String) (q : Payment) → Ours id q → is_ours q ≡ true
  is_ours_of id q o =
      subst (λ k. has_key k input.merchant_identifier q ≡ true) o.key
        (subst (λ m. has_key q.idempotency_key m q ≡ true) o.merchant (has_key_self q))

  -- A state that the request has created its payment in answers it with that payment.
  pub replay-Created :
      (id : String) (t : State W) (h : Created id t)
      → execute_initial_flow env flow input headers t ≡ (returned h.here.0, t)
  replay-Created id t h =
      let (q, found, o) = h.here in
      replay_lem q t (find_value_at is_ours id t.payments q h.alone found (is_ours_of id q o))
      ∙ rw (same_request q o.hash) refl

  abbrev pub routing_input : ResolveProviderCandidatesInput
  routing_input = record {
    merchant_identifier = input.merchant_identifier;
    explicit_provider = input.provider;
    payment_method = input.payment_method;
    currency = input.currency;
  }

  pub execute_new :
      (s : State W)
      → find_value is_ours s.payments ≡ none
      → execute_initial_flow env flow input headers s
        ≡ follow
            (resolve_candidates routing_input s)
            (start_payment env flow input headers request_hash)
  unfolding execute_initial_flow ◌>>=◌ gets replay_or_start Payments.find_by_idempotency_key
  execute_new s new = rw new refl

  -- What a first run comes to: it changes nothing, or it creates the request's payment.
  follow_start :
      (r : Outcome (List ProviderCandidate) × State W) (s : State W)
      → r.1 ≡ s
      → find_value is_ours s.payments ≡ none
      → ((follow r (start_payment env flow input headers request_hash)).1 ≡ s)
        ⊎ Created
            (env.random_uuid s.ids)
            (follow r (start_payment env flow input headers request_hash)).1
  unfolding follow start_payment raise
  follow_start (threw e, t) s same new = inl same
  follow_start (returned [], t) s same new = inl same
  follow_start (returned (c ∷ cs), t) s same new = inr (
      subst
        (λ u.
          Created (env.random_uuid s.ids)
            (start_payment env flow input headers request_hash (c ∷ cs) u).1)
        (sym same) (start-Created c cs s new))

  pub first_run :
      (s : State W)
      → ((execute_initial_flow env flow input headers s).1 ≡ s)
        ⊎ Created (env.random_uuid s.ids) (execute_initial_flow env flow input headers s).1
  first_run s = elim (Option-cases (find_value is_ours s.payments)) [
    | inl new ↦
        rw (execute_new s new)
          (follow_start (resolve_candidates routing_input s) s (resolve-same routing_input s) new)
    | inr (q, found) ↦ inl (ap (λ (r : Outcome Payment × State W). r.1) (replay_lem q s found))
  ]

  -- Creating a payment a second time, with the same flow and the same input, changes nothing more,
  -- whatever the first run did: the providers are not asked again.
  pub replay-same :
      (s : State W)
      → (execute_initial_flow env flow input headers
          (execute_initial_flow env flow input headers s).1).1
        ≡ (execute_initial_flow env flow input headers s).1
  replay-same s = elim (first_run s) [
    | inl same ↦ ap (λ (t : State W). (execute_initial_flow env flow input headers t).1) same
    | inr h ↦ ap (λ (r : Outcome Payment × State W). r.1) (replay-Created _ _ h)
  ]
