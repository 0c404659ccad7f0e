-- ===== src/Polling.antt =====
-- src/utils/payment-polling.ts: whether a client asks for a payment's status again, and when. Times
-- are milliseconds; a difference of two times is compared by moving the start to the other side,
-- since it may be negative there.
pub mod Decisions
use gateway_orchestrator.Prelude.{
  ℕ, ◌+◌, Bool, true, false, Option, none, some, ltb, leb, if◌then◌else◌, coalesce,
}
use gateway_orchestrator.Domain.Enums.{PaymentStatus}

pub data PaymentPollingStopReason : Type 0 where
  terminal_status attempt_limit timeout : PaymentPollingStopReason

pub record PaymentPollingConfig : Type 0 where
  pub fast_interval_ms : ℕ
  pub steady_interval_ms : ℕ
  pub slow_interval_ms : ℕ
  pub fast_attempts : ℕ
  pub slow_after_ms : ℕ
  pub max_duration_ms : ℕ
  pub max_attempts : ℕ

pub record PaymentPollingState : Type 0 where
  pub attempt : ℕ
  pub started_at : ℕ
  pub now : Option ℕ

pub record PaymentPollingDecision : Type 0 where
  pub should_poll : Bool
  pub next_delay_ms : Option ℕ
  pub stop_reason : Option PaymentPollingStopReason

abbrev pub default_payment_polling_config : PaymentPollingConfig
default_payment_polling_config = record {
  fast_interval_ms = 2000;
  steady_interval_ms = 5000;
  slow_interval_ms = 10000;
  fast_attempts = 5;
  slow_after_ms = 60000;
  max_duration_ms = 180000;
  max_attempts = 30;
}

-- `ACTIVE_POLLING_STATUSES.has(status)`
unfoldable pub should_continue_payment_polling : PaymentStatus → Bool
should_continue_payment_polling PaymentStatus.created = true
should_continue_payment_polling PaymentStatus.pending = true
should_continue_payment_polling PaymentStatus.pending_3ds = true
should_continue_payment_polling PaymentStatus.unknown = true
should_continue_payment_polling _ = false

-- `clock` is what `Date.now()` gives.
unfoldable pub get_next_payment_polling_delay : ℕ → PaymentPollingState → PaymentPollingConfig → ℕ
get_next_payment_polling_delay clock state config =
    if ltb state.attempt config.fast_attempts
    then config.fast_interval_ms
    else if ltb (coalesce state.now clock) (config.slow_after_ms + state.started_at)
    then config.steady_interval_ms
    else config.slow_interval_ms

abbrev pub stop : PaymentPollingStopReason → PaymentPollingDecision
stop reason = record { should_poll = false; next_delay_ms = none; stop_reason = some reason }

unfoldable pub get_payment_polling_decision :
    ℕ → PaymentStatus → PaymentPollingState → PaymentPollingConfig → PaymentPollingDecision
unfolding get_next_payment_polling_delay should_continue_payment_polling
get_payment_polling_decision clock status state config =
    let now = coalesce state.now clock in
    if should_continue_payment_polling status
    then if leb config.max_attempts state.attempt
      then stop PaymentPollingStopReason.attempt_limit
      else if leb (config.max_duration_ms + state.started_at) now
      then stop PaymentPollingStopReason.timeout
      else record {
        should_poll = true;
        next_delay_ms =
            some (get_next_payment_polling_delay clock (record state { now = some now }) config);
        stop_reason = none;
      }
    else stop PaymentPollingStopReason.terminal_status
