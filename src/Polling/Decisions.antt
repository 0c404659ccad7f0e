-- ===== src/Polling/Decisions.antt =====
-- What the decisions of src/utils/payment-polling.ts amount to.
use gateway_orchestrator.Prelude.{ℕ, ◌≤◌, ◌≡◌, true, false, none, arith, coalesce}
use gateway_orchestrator.Domain.Enums.{PaymentStatus}
use gateway_orchestrator.Domain.Transitions.{is_final}
use gateway_orchestrator.Polling.{
  PaymentPollingConfig, PaymentPollingState, should_continue_payment_polling,
  get_next_payment_polling_delay, get_payment_polling_decision,
}

-- A client that has been told to stop is told so at every later attempt and time of the same start, for a
-- payment with the same status and in the same configuration, and is given no wait.
pub stopped-stays :
    (clock : ℕ) (status : PaymentStatus) (a b : PaymentPollingState) (config : PaymentPollingConfig)
    → a.started_at ≡ b.started_at
    → a.attempt ≤ b.attempt
    → coalesce a.now clock ≤ coalesce b.now clock
    → (get_payment_polling_decision clock status a config).should_poll ≡ false
    → ((get_payment_polling_decision clock status b config).should_poll ≡ false)
      × ((get_payment_polling_decision clock status b config).next_delay_ms ≡ none)
unfolding get_payment_polling_decision
stopped-stays clock status a b config started attempts times stopped = (ground arith, ground arith)

-- The wait before the next question does not get shorter as attempts and time go on, in a
-- configuration whose fast interval is at most the steady one, and that at most the slow one.
pub delay-monotone :
    (clock : ℕ) (a b : PaymentPollingState) (config : PaymentPollingConfig)
    → config.fast_interval_ms ≤ config.steady_interval_ms
    → config.steady_interval_ms ≤ config.slow_interval_ms
    → a.started_at ≡ b.started_at
    → a.attempt ≤ b.attempt
    → coalesce a.now clock ≤ coalesce b.now clock
    → get_next_payment_polling_delay clock a config ≤ get_next_payment_polling_delay clock b config
unfolding get_next_payment_polling_delay
delay-monotone clock a b config fast steady started attempts times = ground arith

-- A status that is final is one for which the client has stopped asking, and one for which it asks
-- may still be followed by another.
final-not_polled :
    (status : PaymentStatus)
    → should_continue_payment_polling status ≡ true
    → is_final status ≡ false
unfolding should_continue_payment_polling
final-not_polled status h = ground arith
