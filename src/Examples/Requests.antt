-- ===== src/Examples/Requests.antt =====
-- Requests to a server that is away for its first two requests, and to one that stays away.
use gateway_orchestrator.Prelude.{
  ℕ, ◌+◌, ◌≤◌, ◌≡◌, refl, String, Bool, false, some, ltb, if◌then◌else◌, arith,
}
use gateway_orchestrator.Value.{str, undefined}
use gateway_orchestrator.Effect.{returned}
use gateway_orchestrator.HttpClient.{
  Client, answered, failed, Caught, axios_error, request_with_retry, attempts, after_reply,
  with_timeout, is_retryable_axios_error, throw_last, thrown_for, axios_request_error,
}
use gateway_orchestrator.HttpClient.Retries.{
  request_with_retry-bound, request_with_retry-all, request_with_retry-Retried, again, at_once,
}

abbrev unavailable : Caught
unavailable =
    axios_error "Request failed" (
      some
        (record { status = 503; status_text = "Service Unavailable"; response_data = undefined }))

-- The world is the number of requests.
abbrev client : (ℕ → Bool) → Client ℕ String
client up = record {
  request =
      λ url made. ((1, if up made then answered (str "ok") else failed unavailable), made + 1);
  sleep = λ ms made. made;
  stringify = λ value. "value";
  max_retry_attempts = 3;
  request_timeout_ms = 1000;
}

abbrev late : Client ℕ String
late = client (λ made. ltb 1 made)

abbrev away : Client ℕ String
away = client (λ made. false)

request_with_retry-bound_example : (request_with_retry late "/order" 0).1 ≤ 0 + 3
request_with_retry-bound_example =
    request_with_retry-bound late "/order" (λ made. made)
      (record { request_counts = λ w. refl; sleep_counts = λ ms w. refl }) 0

request_with_retry-all_example : (request_with_retry away "/order" 0).1 ≡ 3
unfolding request_with_retry attempts after_reply with_timeout is_retryable_axios_error throw_last
    thrown_for axios_request_error
request_with_retry-all_example =
    request_with_retry-all away "/order" (λ made. made)
      (record { request_counts = λ w. refl; sleep_counts = λ ms w. refl }) 0 (_, refl, refl)

request_with_retry-Retried_example : request_with_retry late "/order" 0 ≡ (returned (str "ok"), 3)
unfolding with_timeout is_retryable_axios_error
request_with_retry-Retried_example =
    request_with_retry-Retried late "/order" 2 0 2 (str "ok")
      (again unavailable refl refl (again unavailable refl refl at_once)) (omega arith) refl
