-- ===== src/Runtime.antt =====
-- What the services run on. `Env` is what the process is started with: the providers, the settings
-- of config/env.ts that the services read, and Node's randomness, clock and hash. `State` is what
-- the repositories hold, how many identifiers and clock readings have been taken, and the world
-- outside, which the providers act on.
-- `sharing` says whether the payment repository hands out the very objects that it holds, as the
-- in-memory one does, so that a write to a payment is seen before `update`; the SQL and Mongo ones
-- copy.
pub mod Frame
pub mod Keyed
use gateway_orchestrator.Prelude.{ℕ, ◌+◌, String, Bool, Option, List, if◌then◌else◌, Map, put}
use gateway_orchestrator.Value.{Value}
use gateway_orchestrator.Effect.{Outcome, Action, modify}
use gateway_orchestrator.Domain.Enums.{PaymentProviderName}
use gateway_orchestrator.Domain.Payment.{Payment}
use gateway_orchestrator.Domain.Provider.{ProviderEntry}
use gateway_orchestrator.Domain.Records.{
  PaymentOperation, WebhookEventRecord, Merchant, PaymentLog, ProviderCredential, RoutingRule,
}
use gateway_orchestrator.Repositories.Payments
use gateway_orchestrator.Repositories.Logs
use gateway_orchestrator.Repositories.Operations
use gateway_orchestrator.Repositories.WebhookEvents

pub record Env (W : Type 0) : Type 0 where
  pub providers : PaymentProviderName → Option (ProviderEntry W)
  pub mongo_enabled : Bool
  pub default_merchant_identifier : String
  pub sharing : Bool
  pub random_uuid : ℕ → String
  pub clock : ℕ → ℕ
  pub sha256 : String → String
  pub stringify : Value → String

pub record State (W : Type 0) : Type 0 where
  pub payments : Map Payment
  pub logs : Map (List PaymentLog)
  pub operations : Map PaymentOperation
  pub webhook_events : Map WebhookEventRecord
  pub credentials : Map ProviderCredential
  pub routing_rules : Map RoutingRule
  pub merchants : Map Merchant
  pub ids : ℕ
  pub ticks : ℕ
  pub remote : W

module _ {W : Type 0} where
  -- `randomUUID()`
  unfoldable pub new_id : Env W → Action (State W) String
  new_id env s = (Outcome.returned (env.random_uuid s.ids), record s { ids = s.ids + 1 })

  -- `new Date()` and `Date.now()`
  unfoldable pub now : Env W → Action (State W) ℕ
  now env s = (Outcome.returned (env.clock s.ticks), record s { ticks = s.ticks + 1 })

  -- A call of a provider.
  unfoldable pub outside : {A : Type 0} → Action W A → Action (State W) A
  outside m s = let r = m s.remote in (r.0, record s { remote = r.1 })

  unfoldable pub create_payment : Payment → Action (State W) (Unit {0})
  create_payment payment = modify λ s. record s { payments = Payments.create s.payments payment }

  unfoldable pub update_payment : Payment → Action (State W) (Unit {0})
  update_payment payment = modify λ s. record s { payments = Payments.update s.payments payment }

  -- The fields of the payment object that the repository holds under a key have been assigned, whichever they are: if
  -- the object is shared, it stands under that key, with the fields that it has now.
  unfoldable pub assign : Env W → String → Payment → Action (State W) (Unit {0})
  assign env key payment =
      modify
        λ s. record s { payments = if env.sharing then put s.payments key payment else s.payments }

  unfoldable pub create_log : PaymentLog → Action (State W) (Unit {0})
  create_log log = modify λ s. record s { logs = Logs.create s.logs log }

  unfoldable pub create_operation : PaymentOperation → Action (State W) (Unit {0})
  create_operation operation =
      modify λ s. record s { operations = Operations.create s.operations operation }

  unfoldable pub update_operation : PaymentOperation → Action (State W) (Unit {0})
  update_operation operation =
      modify λ s. record s { operations = Operations.update s.operations operation }

  unfoldable pub create_webhook_event : WebhookEventRecord → Action (State W) (Unit {0})
  create_webhook_event r =
      modify λ s. record s { webhook_events = WebhookEvents.create s.webhook_events r }

  unfoldable pub update_webhook_event : WebhookEventRecord → Action (State W) (Unit {0})
  update_webhook_event r =
      modify λ s. record s { webhook_events = WebhookEvents.update s.webhook_events r }
