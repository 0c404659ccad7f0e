-- ===== src/HttpClient.antt =====
-- src/infrastructure/http.client.ts: a request that is tried again. `axios` is a parameter: what it answers
-- to a request, after how many milliseconds, and what the world is then. The timer of `withTimeout` is taken
-- to fire first where both are due at once.
pub mod Retries
use gateway_orchestrator.Prelude.{
  ℕ, zero, suc, ◌+◌, ◌*◌, ◌^◌, String, Bool, true, false, not, ◌||◌, Option, none, some, List, [],
  ◌∷◌, ◌++◌, if◌then◌else◌, ltb, leb, nat_eq,
}
use gateway_orchestrator.Prelude.Text.{
  template, trim, is_empty, truthy, text_length, slice_to, join, decimal,
}
use gateway_orchestrator.Value.{Value, undefined, null, bool, num, str, arr, obj}
use gateway_orchestrator.Effect.{
  HttpRequestError, Error, http_request_error, Outcome, returned, threw, Action,
}

-- `error.response`
pub record ErrorResponse : Type 0 where
  pub status : ℕ
  pub status_text : String
  pub response_data : Value

-- What is caught: an `AxiosError`, an `HttpRequestError`, another `Error`, or another value.
pub data Caught : Type 0 where
  axios_error : String → Option ErrorResponse → Caught
  request_error : HttpRequestError → Caught
  other_error : String → Caught
  other_value : Caught

pub data Reply : Type 0 where
  answered : Value → Reply
  failed : Caught → Reply

-- `RequestConfig` is the type of a request's configuration.
pub record Client (W RequestConfig : Type 0) : Type 0 where
  pub request : RequestConfig → W → (ℕ × Reply) × W
  pub sleep : ℕ → W → W
  pub stringify : Value → String
  pub max_retry_attempts : ℕ
  pub request_timeout_ms : ℕ

unfoldable pub timed_out : ℕ → Caught
timed_out timeout_ms = request_error (record {
  message = template ("Request timed out after " ∷ decimal timeout_ms ∷ "ms" ∷ []);
  retryable = true;
  status_code = none;
  response_preview = none;
})

-- The reply to `withTimeout(promise, timeoutMs)`, where the promise settles after some time.
unfoldable pub with_timeout : ℕ → ℕ × Reply → Reply
with_timeout timeout_ms (duration, reply) =
    if ltb duration timeout_ms then reply else failed (timed_out timeout_ms)

unfoldable pub is_retryable_axios_error : Caught → Bool
is_retryable_axios_error (axios_error message none) = true
is_retryable_axios_error (axios_error message (some response)) =
    nat_eq response.status 408 || nat_eq response.status 429 || leb 500 response.status
is_retryable_axios_error (request_error e) = e.retryable
is_retryable_axios_error (other_error message) = false
is_retryable_axios_error other_value = false

module _ (stringify : Value → String) where
  -- The preview of the response's data, which is not circular, before it is cut.
  unfoldable pub full_preview : Value → String
  unfolding is_empty
  full_preview undefined = ""
  full_preview null = stringify null
  full_preview (bool b) = stringify (bool b)
  full_preview (num n) = stringify (num n)
  full_preview (str s) = if is_empty (trim s) then stringify (str s) else trim s
  full_preview (arr items) = stringify (arr items)
  full_preview (obj fields) = stringify (obj fields)

  unfoldable pub response_preview : Value → String
  unfolding full_preview
  response_preview response_data =
      let preview = full_preview response_data in
      if ltb 500 (text_length preview)
      then template (slice_to 500 preview ∷ "..." ∷ [])
      else preview

  -- `if (status) { parts.push(…) }`
  unfoldable pub status_part : ErrorResponse → List String
  status_part response =
      if nat_eq response.status 0
      then []
      else template (
          "status="
          ∷ decimal response.status
          ∷ (if is_empty response.status_text
              then ""
              else template (" " ∷ response.status_text ∷ []))
          ∷ [])
        ∷ []

  abbrev preview_part : String → List String
  preview_part preview = if is_empty preview then [] else template ("response=" ∷ preview ∷ []) ∷ []

  unfoldable pub axios_request_error : String → Option ErrorResponse → HttpRequestError
  unfolding status_part response_preview
  axios_request_error message none = record {
    message = message;
    retryable = is_retryable_axios_error (axios_error message none);
    status_code = none;
    response_preview = none;
  }
  axios_request_error message (some response) =
      let preview = response_preview response.response_data in
      record {
        message = join " | " (message ∷ status_part response ++ preview_part preview);
        retryable = is_retryable_axios_error (axios_error message (some response));
        status_code = some response.status;
        response_preview = if is_empty preview then none else some preview;
      }

  -- What is thrown behind the loop, given `lastError`.
  unfoldable pub thrown_for : Caught → HttpRequestError
  unfolding axios_request_error
  thrown_for (axios_error message response) = axios_request_error message response
  thrown_for (request_error e) = e
  thrown_for (other_error message) = record {
    message = message;
    retryable = false;
    status_code = none;
    response_preview = none;
  }
  thrown_for other_value = record {
    message = "Request failed";
    retryable = false;
    status_code = none;
    response_preview = none;
  }

abbrev pub is_zero : ℕ → Bool
is_zero zero = true
is_zero (suc n) = false

module _ {W RequestConfig : Type 0} (client : Client W RequestConfig)
    (request_config : RequestConfig) (timeout_ms : ℕ) where
  unfoldable pub throw_last : Caught → Action W Value
  throw_last last_error w = (threw (http_request_error (thrown_for client.stringify last_error)), w)

  -- What follows the reply to an attempt, the `attempt`-th: `last` says whether there may be no other one,
  -- and `rest` is the other one.
  unfoldable pub after_reply : Bool → ℕ → (Caught → Action W Value) → Reply → Action W Value
  after_reply last attempt rest (answered value) w = (returned value, w)
  after_reply last attempt rest (failed error) w =
      if not (is_retryable_axios_error error) || last
      then throw_last error w
      else rest error (client.sleep (100 * 2 ^ attempt) w)

  -- The loop, with the number of attempts that are left, and of those that were made.
  unfoldable pub attempts : ℕ → ℕ → Caught → Action W Value
  attempts zero attempt last_error w = throw_last last_error w
  attempts (suc left) attempt last_error w =
      let r = client.request request_config w in
      after_reply (is_zero left) (attempt + 1) (attempts left (attempt + 1))
        (with_timeout timeout_ms r.0) r.1

unfoldable pub request_with_retry :
    {W RequestConfig : Type 0} → Client W RequestConfig → RequestConfig → Action W Value
unfolding attempts
request_with_retry client request_config =
    attempts client request_config client.request_timeout_ms client.max_retry_attempts 0 other_value
