-- ===== src/Effect.antt =====
-- Methods that change shared state and may throw. What was written before a throw stays written,
-- so the state comes back beside the error too. The errors are those of the program
-- (errors/*.ts), a plain `Error`, and any other thrown value.
pub mod Rules
pub mod Post
pub mod Throws
use gateway_orchestrator.Prelude.{
  ℕ, Bool, true, false, String, Option, none, some, ◌≡◌, refl, coalesce,
}
use gateway_orchestrator.Value.{Fields}

pub record HttpRequestError : Type 0 where
  pub message : String
  pub retryable : Bool
  pub status_code : Option ℕ
  pub response_preview : Option String

pub record ProviderOperationError : Type 0 where
  pub message : String
  pub status_code : ℕ
  pub code : Option String
  pub details : Option Fields

pub data Error : Type 0 where
  http_request_error : HttpRequestError → Error
  provider_operation_error : ProviderOperationError → Error
  plain_error : String → Error
  not_an_error : Error

-- `new ProviderOperationError(message, { statusCode, code, details })`
abbrev pub new_provider_operation_error :
    String → Option ℕ → Option String → Fields → ProviderOperationError
new_provider_operation_error message status_code code details = record {
  message = message;
  status_code = coalesce status_code 409;
  code = code;
  details = some details;
}

-- `error instanceof Error ? error.message : other`
unfoldable pub message_or : Error → String → String
message_or (http_request_error e) other = e.message
message_or (provider_operation_error e) other = e.message
message_or (plain_error message) other = message
message_or not_an_error other = other

pub data Outcome {ℓ} (A : Type ℓ) : Type ℓ where
  returned : A → Outcome A
  threw : Error → Outcome A

abbrev pub Action {ℓ} : Type ℓ → Type ℓ → Type ℓ
Action S A = S → Outcome A × S

module _ {ℓ} {S A B : Type ℓ} where
  unfoldable pub follow : Outcome A × S → (A → Action S B) → Outcome B × S
  follow (returned a, s) f = f a s
  follow (threw e, s) f = (threw e, s)

  infixl 10 ◌>>=◌ ◌>>◌
  unfoldable pub ◌>>=◌ : Action S A → (A → Action S B) → Action S B
  unfolding follow
  ◌>>=◌ m f s = follow (m s) f

  abbrev pub ◌>>◌ : Action S A → Action S B → Action S B
  m >> n = m >>= λ _. n

module _ {ℓ} {S A : Type ℓ} where
  unfoldable pub pure : A → Action S A
  pure a s = (returned a, s)

  -- `throw error`
  unfoldable pub raise : Error → Action S A
  raise e s = (threw e, s)

  unfoldable pub gets : (S → A) → Action S A
  gets f s = (returned (f s), s)

  unfoldable pub recover : Outcome A × S → (Error → Action S A) → Outcome A × S
  recover (returned a, s) h = (returned a, s)
  recover (threw e, s) h = h e s

  -- `try { m } catch (error) { h(error) }`
  unfoldable pub handling : Action S A → (Error → Action S A) → Action S A
  unfolding recover
  handling m h s = recover (m s) h

unfoldable pub modify {ℓ} : {S : Type ℓ} → (S → S) → Action S (Unit {ℓ})
modify f s = (returned tt, f s)

unfoldable pub unless {ℓ} : {S : Type ℓ} → Bool → Error → Action S (Unit {ℓ})
unless true e s = (returned tt, s)
unless false e s = (threw e, s)
