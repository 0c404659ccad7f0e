-- ===== src/Payments/Webhook/Frame.antt =====
-- What `handleWebhook` may write: rules for predicates on the stores.
use gateway_orchestrator.Prelude.{
  ◌≡◌, inl, inr, String, Option, none, some, ℕ, Option-cases, get, coalesce,
}
use gateway_orchestrator.Effect.{◌>>=◌, follow, gets}
use gateway_orchestrator.Effect.Rules.{Moves, Moves-if, Moves-handling}
use gateway_orchestrator.Domain.Payment.{Payment}
use gateway_orchestrator.Domain.Provider.{PaymentProvider}
use gateway_orchestrator.Domain.Records.{WebhookEvent, WebhookEventRecord}
use gateway_orchestrator.Repositories.Payments
use gateway_orchestrator.Runtime.{
  Env, State, update_payment, create_webhook_event, update_webhook_event,
}
use gateway_orchestrator.Runtime.Frame.{
  Kept, Kept-Preorder, Kept-pure, Kept-raise, Kept-gets, Kept-bind, OnStores, Kept-new_id, Kept-now,
  Kept-outside,
}
use gateway_orchestrator.Payments.Support.Frame.{Kept-write_log, Kept-resolve_provider}
use gateway_orchestrator.Payments.Webhook.{
  Delivery, apply_event, start_webhook_record, fail_record, reject_delivery, reconcile,
  reconcile_or_fail, find_and_reconcile, process_event, restart_and_process, dedupe_and_process,
  accept_delivery, verify_and_accept, handle_webhook,
}

module _ {W : Type 0} (env : Env W) (delivery : Delivery) (P : State W → Type 0) (on : OnStores P)
    (V : Payment → Type 0)
    (finds : (s : State W) (id : String) (p : Payment) → P s → get s.payments id ≡ some p → V p)
    (writes : (p : Payment) (event : WebhookEvent) (time : ℕ)
      → V p
      → Moves (Kept P) (update_payment (record (apply_event p event) { updated_at = time })))
    (creates : (r : WebhookEventRecord) → Moves (Kept P) (create_webhook_event r))
    (updates : (r : WebhookEventRecord) → Moves (Kept P) (update_webhook_event r)) where
  Kept-start_webhook_record :
      (key hash : String) (event : Option WebhookEvent)
      → Moves (Kept P) (start_webhook_record env delivery key hash event)
  unfolding start_webhook_record
  Kept-start_webhook_record key hash event = Kept-bind P _ _ (Kept-new_id P on env) λ _.
      Kept-bind P _ _ (Kept-now P on env)
        λ _. Kept-bind P _ _ (Kept-now P on env) λ _. Kept-bind P _ _ (creates _) λ _. Kept-pure P _

  Kept-fail_record :
      (r : WebhookEventRecord) (message : String) → Moves (Kept P) (fail_record env r message)
  unfolding fail_record
  Kept-fail_record r message = Kept-bind P _ _ (Kept-now P on env) λ _. updates _

  Kept-reject_delivery :
      (key hash : String) → Moves (Kept P) (reject_delivery env delivery key hash)
  unfolding reject_delivery
  Kept-reject_delivery key hash = Kept-bind P _ _ (Kept-start_webhook_record key hash none) λ r.
      Kept-bind P _ _ (Kept-fail_record r _) λ _.
        Moves-handling _ (Kept-Preorder P) _ _ (Kept-raise P _)
          λ e. Kept-bind P _ _ (Kept-fail_record r _) λ _. Kept-raise P e

  Kept-reconcile :
      (key : String) (at : ℕ) (r : WebhookEventRecord) (event : WebhookEvent) (p : Payment)
      → V p
      → Moves (Kept P) (reconcile env delivery key at r event p)
  unfolding reconcile
  Kept-reconcile key at r event p v = Kept-bind P _ _ (Kept-now P on env) λ time.
      Kept-bind P _ _ (writes p event time v) λ _.
        Kept-bind P _ _ (Kept-write_log P on env _ _ _ _ _ _)
          λ _. Kept-bind P _ _ (Kept-now P on env) λ _. updates _

  Kept-find_and_reconcile :
      (key : String) (at : ℕ) (r : WebhookEventRecord) (event : WebhookEvent)
      → Moves (Kept P) (find_and_reconcile env delivery key at r event)
  unfolding find_and_reconcile reconcile_or_fail ◌>>=◌ follow gets Payments.find_by_id
  Kept-find_and_reconcile key at r event = record {
    along = λ s h. elim (Option-cases (get s.payments (coalesce event.merchant_reference ""))) [
      | inl missing ↦ rw missing ((Kept-fail_record _ _).along s h)
      | inr (p, found) ↦
          rw found ((Kept-reconcile key at r event p (finds s _ p h found)).along s h)
    ];
  }

  Kept-process_event :
      (key : String) (at : ℕ) (r : WebhookEventRecord) (event : Option WebhookEvent)
      → Moves (Kept P) (process_event env delivery key at r event)
  unfolding process_event
  Kept-process_event key at r none = Kept-bind P _ _ (Kept-now P on env) λ _. updates _
  Kept-process_event key at r (some event) =
      Moves-if _ (Kept-Preorder P) _ _ _ (Kept-find_and_reconcile key at r event)
        (Kept-fail_record r _)

  Kept-dedupe_and_process :
      (key hash : String) (at : ℕ) (event : Option WebhookEvent)
      (existing : Option WebhookEventRecord)
      → Moves (Kept P) (dedupe_and_process env delivery key hash at event existing)
  unfolding dedupe_and_process restart_and_process
  Kept-dedupe_and_process key hash at event none =
      Kept-bind P _ _ (Kept-start_webhook_record key hash event)
        λ r. Kept-process_event key at r event
  Kept-dedupe_and_process key hash at event (some r) =
      Moves-if _ (Kept-Preorder P) _ _ _ (Kept-pure P _) (
        Kept-bind P _ _ (Kept-now P on env)
          λ _. Kept-bind P _ _ (updates _) λ _. Kept-process_event key at _ event)

  Kept-verify_and_accept :
      (hash : String) (at : ℕ) (provider : PaymentProvider W)
      → Moves (Kept P) (verify_and_accept env delivery hash at provider)
  unfolding verify_and_accept accept_delivery
  Kept-verify_and_accept hash at provider =
      Moves-if _ (Kept-Preorder P) _ _ _
        (Kept-bind P _ _ (Kept-outside P on _) λ event.
          Kept-bind P _ _ (Kept-gets P _)
            λ existing. Kept-dedupe_and_process _ hash at event existing)
        (Kept-reject_delivery _ hash)

  pub Kept-handle_webhook : Moves (Kept P) (handle_webhook env delivery)
  unfolding handle_webhook
  Kept-handle_webhook = Kept-bind P _ _ (Kept-now P on env) λ at.
      Kept-bind P _ _ (Kept-resolve_provider P env _ _)
        λ provider. Kept-verify_and_accept _ at provider
