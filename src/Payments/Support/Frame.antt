-- ===== src/Payments/Support/Frame.antt =====
-- The helpers of the payment service and the three stores: rules for predicates on the stores.
use gateway_orchestrator.Prelude.{String, Option, none, some, ℕ}
use gateway_orchestrator.Prelude.Text.{truthy}
use gateway_orchestrator.Value.{Value}
use gateway_orchestrator.Effect.Rules.{Moves, Moves-if}
use gateway_orchestrator.Domain.Enums.{PaymentProviderName, PaymentStatus}
use gateway_orchestrator.Domain.Payment.{Payment, ensure_transition}
use gateway_orchestrator.Domain.Provider.{ProviderEntry}
use gateway_orchestrator.Domain.Records.{ProviderCredential, Headers}
use gateway_orchestrator.Runtime.{Env, State}
use gateway_orchestrator.Runtime.Frame.{
  Kept-pure, Kept-raise, Kept-gets, Kept-bind, Kept-unless, Kept, Kept-Preorder, OnStores,
  Kept-new_id, Kept-now, Kept-create_log,
}
use gateway_orchestrator.Payments.Support.{
  write_log, provider_of_entry, resolve_provider, credential_or_null, get_credential_for_payment,
  get_default_credential, get_existing_payment, require_payment,
}

module _ {W : Type 0} (P : State W → Type 0) where
  pub Kept-ensure_transition : (a b : PaymentStatus) → Moves (Kept P) (ensure_transition a b)
  unfolding ensure_transition
  Kept-ensure_transition a b = Kept-unless P _ _

  pub Kept-resolve_provider :
      (env : Env W) (name : PaymentProviderName) (c : Option ProviderCredential)
      → Moves (Kept P) (resolve_provider env name c)
  unfolding resolve_provider
  Kept-resolve_provider env name c = go (env.providers name)
    where
      go : (entry : Option (ProviderEntry W)) → Moves (Kept P) (provider_of_entry env name entry c)
      go none = Kept-raise P _
      go (some (ProviderEntry.factory make)) = Kept-pure P _
      go (some (ProviderEntry.instance_of provider)) = Kept-pure P _

  Kept-credential_or_null :
      (env : Env W) (m : Option String) (name : PaymentProviderName)
      → Moves (Kept P) (credential_or_null env m name)
  unfolding credential_or_null
  Kept-credential_or_null env m name =
      Moves-if _ (Kept-Preorder P) (truthy m) _ _ (Kept-gets P _) (Kept-pure P _)

  pub Kept-get_credential_for_payment :
      (env : Env W) (p : Payment) → Moves (Kept P) (get_credential_for_payment env p)
  unfolding get_credential_for_payment
  Kept-get_credential_for_payment env p = Kept-credential_or_null env _ _

  pub Kept-get_default_credential :
      (env : Env W) (name : PaymentProviderName) → Moves (Kept P) (get_default_credential env name)
  unfolding get_default_credential
  Kept-get_default_credential env name = Kept-credential_or_null env _ _

  pub Kept-get_existing_payment : (id : String) → Moves (Kept P) (get_existing_payment id)
  unfolding get_existing_payment
  Kept-get_existing_payment id = Kept-bind P _ _ (Kept-gets P _) go
    where
      go : (o : Option Payment) → Moves (Kept P) (require_payment id o)
      go none = Kept-raise P _
      go (some p) = Kept-pure P _

  module _ (on : OnStores P) where
    pub Kept-write_log :
        (env : Env W) (id : String) (name : PaymentProviderName) (request response : Value)
        (headers : Headers) (started_at : ℕ)
        → Moves (Kept P) (write_log env id name request response headers started_at)
    unfolding write_log
    Kept-write_log env id name request response headers started_at =
        Kept-bind P _ _ (Kept-new_id P on env) λ _.
          Kept-bind P _ _ (Kept-now P on env)
            λ _. Kept-bind P _ _ (Kept-now P on env) λ _. Kept-create_log P on _
