-- ===== src/HttpClient/Retries.antt =====
-- How often `requestWithRetry` of src/infrastructure/http.client.ts asks.
use gateway_orchestrator.Prelude.{
  ℕ, zero, suc, ◌+◌, ◌≤◌, ◌<◌, ◌≡◌, refl, ◌∙◌, ap, Bool, true, false, ◌*◌, ◌^◌, arith, Bool-cases,
  inl, inr, none, some,
}
use gateway_orchestrator.Value.{Value}
use gateway_orchestrator.Effect.{HttpRequestError, http_request_error, Outcome, returned, threw}
use gateway_orchestrator.HttpClient.{
  Client, Reply, answered, failed, Caught, axios_error, request_error, other_error, other_value,
  with_timeout, is_retryable_axios_error, after_reply, attempts, throw_last, thrown_for, is_zero,
  request_with_retry, axios_request_error,
}

module _ {W RequestConfig : Type 0} (client : Client W RequestConfig)
    (request_config : RequestConfig) where
  -- The reply to a request in a world, and the world after it.
  abbrev pub reply : W → Reply
  reply w = with_timeout client.request_timeout_ms (client.request request_config w).0

  abbrev pub asked : W → W
  asked w = (client.request request_config w).1

  -- A world in which `made` counts the requests: one more with each, none with a pause.
  pub record Counts (made : W → ℕ) : Type 0 where
    pub request_counts : (w : W) → made (asked w) ≡ made w + 1
    pub sleep_counts : (ms : ℕ) (w : W) → made (client.sleep ms w) ≡ made w

  -- The thrown error is marked as retryable exactly if what was caught is.
  thrown-retryable :
      (e : Caught) → (thrown_for client.stringify e).retryable ≡ is_retryable_axios_error e
  unfolding thrown_for axios_request_error is_retryable_axios_error
  thrown-retryable (axios_error message none) = refl
  thrown-retryable (axios_error message (some response)) = refl
  thrown-retryable (request_error e) = refl
  thrown-retryable (other_error message) = refl
  thrown-retryable other_value = refl

  abbrev loop : ℕ → ℕ → Caught → W → Outcome Value × W
  loop = attempts client request_config client.request_timeout_ms

  abbrev next : Bool → ℕ → (Caught → W → Outcome Value × W) → Reply → W → Outcome Value × W
  next = after_reply client request_config client.request_timeout_ms

  -- An error that may be tried again is thrown.
  abbrev RetryableThrown : Outcome Value × W → Type 0
  RetryableThrown r =
      (e : HttpRequestError) × (r.0 ≡ threw (http_request_error e)) × (e.retryable ≡ true)

  zero_last : (left : ℕ) → is_zero left ≡ true → left ≡ 0
  zero_last zero h = refl
  zero_last (suc n) h = absurd cc

  same_error :
      {a b : HttpRequestError}
      → Path (Outcome Value) (threw (http_request_error a)) (threw (http_request_error b))
      → a ≡ b
  same_error h = cc

  -- What is thrown for an error that is not retryable is not retryable.
  not_both :
      (c : Caught) (w : W)
      → RetryableThrown (threw (http_request_error (thrown_for client.stringify c)), w)
      → is_retryable_axios_error c ≡ false
      → ⊥
  not_both c w (e, t, b) n = absurd (cc (ap (λ x. x.retryable) (same_error t), thrown-retryable c))

  module _ (made : W → ℕ) (counts : Counts made) where
    after_reply-bound :
        (last : Bool) (attempt left : ℕ) (rest : Caught → W → Outcome Value × W) (r : Reply) (w : W)
        → ((e : Caught) (v : W) → made (rest e v).1 ≤ made v + left)
        → made (next last attempt rest r w).1 ≤ made w + left
    unfolding after_reply throw_last
    after_reply-bound last attempt left rest (answered v) w h = omega arith
    after_reply-bound last attempt left rest (failed e) w h =
        ground (
          arith,
          h e (client.sleep (100 * 2 ^ attempt) w),
          counts.sleep_counts (100 * 2 ^ attempt) w,
        )

    attempts-bound :
        (left attempt : ℕ) (e : Caught) (w : W) → made (loop left attempt e w).1 ≤ made w + left
    unfolding attempts throw_last
    attempts-bound zero attempt e w = omega arith
    attempts-bound (suc left) attempt e w = omega (
      arith,
      counts.request_counts w,
      after_reply-bound (is_zero left) (attempt + 1) left (loop left (attempt + 1)) (reply w)
          (asked w) (attempts-bound left (attempt + 1)),
    )

    after_reply-all :
        (last : Bool) (attempt left : ℕ) (rest : Caught → W → Outcome Value × W) (r : Reply) (w : W)
        → (last ≡ true → left ≡ 0)
        → ((e : Caught) (v : W) → RetryableThrown (rest e v) → made (rest e v).1 ≡ made v + left)
        → RetryableThrown (next last attempt rest r w)
        → made (next last attempt rest r w).1 ≡ made w + left
    unfolding after_reply throw_last
    after_reply-all last attempt left rest (answered v) w z h (e, t, b) = absurd cc
    after_reply-all last attempt left rest (failed c) w z h t =
        elim (Bool-cases (is_retryable_axios_error c)) [
          | inl retryable ↦ elim (Bool-cases last) [
            | inl is_last ↦ rw (retryable, is_last) (omega (arith, z is_last))
            | inr is_not ↦
                let t' = rw (retryable, is_not) at t in
                rw (retryable, is_not)
                  (h c (client.sleep (100 * 2 ^ attempt) w) t'
                    ∙ ap (λ n. n + left) (counts.sleep_counts (100 * 2 ^ attempt) w))
          ]
          | inr not_retryable ↦ absurd (not_both c w (rw not_retryable at t) not_retryable)
        ]

    attempts-all :
        (left attempt : ℕ) (e : Caught) (w : W)
        → RetryableThrown (loop left attempt e w)
        → made (loop left attempt e w).1 ≡ made w + left
    unfolding attempts throw_last
    attempts-all zero attempt e w t = omega arith
    attempts-all (suc left) attempt e w t =
        after_reply-all (is_zero left) (attempt + 1) left (loop left (attempt + 1)) (reply w)
          (asked w) (zero_last left) (attempts-all left (attempt + 1)) t
        ∙ omega (arith, counts.request_counts w)

    -- A request is sent at most `maxRetryAttempts` times, where `made` counts the requests.
    pub request_with_retry-bound :
        (w : W)
        → made (request_with_retry client request_config w).1 ≤ made w + client.max_retry_attempts
    unfolding request_with_retry
    request_with_retry-bound w = attempts-bound client.max_retry_attempts 0 other_value w

    -- An error that may be tried again is thrown only after `maxRetryAttempts` requests.
    pub request_with_retry-all :
        (w : W)
        → RetryableThrown (request_with_retry client request_config w)
        → made (request_with_retry client request_config w).1 ≡ made w + client.max_retry_attempts
    unfolding request_with_retry
    request_with_retry-all w t = attempts-all client.max_retry_attempts 0 other_value w t

  -- The world after a number of replies that may be tried again, each followed by a pause, of which the first
  -- follows the attempt after the given one.
  pub data Retried : ℕ → ℕ → W → W → Type 0 where
    at_once : {attempt : ℕ} {w : W} → Retried attempt 0 w w
    again :
        {attempt n : ℕ} {w v : W} (e : Caught)
        → reply w ≡ failed e
        → is_retryable_axios_error e ≡ true
        → Retried (attempt + 1) n (client.sleep (100 * 2 ^ (attempt + 1)) (asked w)) v
        → Retried attempt (suc n) w v

  attempts-Retried :
      (left : ℕ) {attempt n : ℕ} (last_error : Caught) {w v : W} (value : Value)
      → Retried attempt n w v
      → n < left
      → reply v ≡ answered value
      → loop left attempt last_error w ≡ (returned value, asked v)
  unfolding attempts after_reply
  attempts-Retried zero last_error value run h r = absurd (omega arith)
  attempts-Retried (suc left) last_error value at_once h r = rw r refl
  attempts-Retried (suc zero) last_error value (again e f t run) h r = absurd (omega arith)
  attempts-Retried (suc (suc left)) last_error value (again e f t run) h r =
      rw (f, t) (attempts-Retried (suc left) e value run (omega arith) r)

  -- Where each of a number of requests, fewer than `maxRetryAttempts`, is answered by an error that may be
  -- tried again, and the next one, after the pauses, by a value, that value is returned and no more
  -- requests are sent.
  pub request_with_retry-Retried :
      (n : ℕ) (w v : W) (value : Value)
      → Retried 0 n w v
      → n < client.max_retry_attempts
      → reply v ≡ answered value
      → request_with_retry client request_config w ≡ (returned value, asked v)
  unfolding request_with_retry
  request_with_retry-Retried n w v value run h r =
      attempts-Retried client.max_retry_attempts other_value value run h r
