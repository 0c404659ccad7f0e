-- ===== src/Providers/Payflex/Auth.antt =====
-- src/providers/payflex/payflex.auth.ts. The cache of tokens is the process's, so the actions are
-- on the cache and the world.
pub mod Cached
use gateway_orchestrator.Prelude.{
  ℕ, ◌+◌, ◌*◌, String, Bool, ◌||◌, Option, none, some, List, [], ◌∷◌, ◌++◌, Map, get, put, ltb,
  coalesce, if◌then◌else◌,
}
use gateway_orchestrator.Prelude.Text.{template, is_empty, starts_with, has_part, join}
use gateway_orchestrator.Value.{Value, obj, field, end, str, as_number}
use gateway_orchestrator.Effect.{
  Error, Action, Outcome, returned, ◌>>=◌, ◌>>◌, pure, raise, gets, modify, plain_error,
}
use gateway_orchestrator.Providers.{Web, send, property_of, text_of}
use gateway_orchestrator.Providers.Config.{PayFlexRuntimeConfig}

pub record CachedToken : Type 0 where
  pub access_token : String
  pub expires_at : ℕ

-- The cache, and the world.
abbrev pub WithTokens : Type 0 → Type 0
WithTokens W = Map CachedToken × W

unfoldable pub is_placeholder : String → Bool
is_placeholder value = starts_with value "payflex_" || has_part value "sandbox.payflex.example"

unfoldable pub get_cache_key : PayFlexRuntimeConfig → String
get_cache_key config =
    template (config.auth_url ∷ "|" ∷ config.audience ∷ "|" ∷ config.client_id ∷ [])

-- The name of a setting, if that is missing.
abbrev missing_setting : String → String → List String
missing_setting value name = if is_empty value || is_placeholder value then name ∷ [] else []

unfoldable pub missing_settings : PayFlexRuntimeConfig → List String
unfolding is_placeholder
missing_settings config =
    missing_setting config.auth_url "PAYFLEX_AUTH_URL"
    ++ missing_setting config.audience "PAYFLEX_AUDIENCE"
    ++ missing_setting config.client_id "PAYFLEX_CLIENT_ID"
    ++ missing_setting config.client_secret "PAYFLEX_CLIENT_SECRET"

unfoldable pub not_configured : List String → Error
not_configured missing = plain_error (
    template (
      "Payflex authentication is not fully configured. Set real values for: "
      ∷ join ", " missing
      ∷ ". According to the Payflex docs, client ID and client secret are provided by the Payflex Integrations Team."
      ∷ []))

unfoldable pub assert_payflex_auth_config :
    {S : Type 0} → PayFlexRuntimeConfig → Action S (Unit {0})
assert_payflex_auth_config config = elim (missing_settings config) [
  | [] ↦ pure tt
  | name ∷ names ↦ raise (not_configured (name ∷ names))
]

-- A call of something that acts on the world only.
unfoldable pub in_world : {W A : Type 0} → Action W A → Action (WithTokens W) A
in_world m (tokens, w) = let r = m w in (r.0, (tokens, r.1))

-- What the answer is stored as; the lifetime is told in seconds.
abbrev pub new_token : Value → ℕ → CachedToken
new_token response time = record {
  access_token = coalesce (text_of response "access_token") "";
  expires_at = time + coalesce (as_number (property_of response "expires_in")) 0 * 1000;
}

module _ {W : Type 0} (web : Web W) where
  -- `Date.now()`
  unfoldable pub date_now : Action (WithTokens W) ℕ
  unfolding in_world
  date_now = in_world (λ w. let r = web.date_now w in (returned (r.0), r.1))

  unfoldable pub clear_payflex_token_cache : Action (WithTokens W) (Unit {0})
  clear_payflex_token_cache = modify (λ s. ([], s.1))

  unfoldable pub store_token : PayFlexRuntimeConfig → Value → Action (WithTokens W) String
  unfolding date_now
  store_token config response = do
    time ← date_now
    modify (λ s. (put (s.0) (get_cache_key config) (new_token response time), s.1))
    pure (coalesce (text_of response "access_token") "")

  unfoldable pub ask_for_token : PayFlexRuntimeConfig → Action (WithTokens W) Value
  unfolding in_world
  ask_for_token config = in_world (
      send web (record {
        method = "POST";
        url = config.auth_url;
        headers = ("Content-Type", "application/json") ∷ [];
        request_data = obj (
            field "client_id" (str config.client_id) (
              field "client_secret" (str config.client_secret) (
                field "audience" (str config.audience)
                  (field "grant_type" (str "client_credentials") end))));
        response_type = some "json";
      }))

  unfoldable pub request_token : PayFlexRuntimeConfig → Action (WithTokens W) String
  request_token config = ask_for_token config >>= store_token config

  -- What follows the look into the cache; the clock is read only where there is a token.
  unfoldable pub cached_or_requested :
      PayFlexRuntimeConfig → Option CachedToken → Action (WithTokens W) String
  unfolding date_now
  cached_or_requested config none = request_token config
  cached_or_requested config (some cached) = do
    time ← date_now
    if ltb (time + 60000) cached.expires_at then pure cached.access_token else request_token config

  unfoldable pub get_payflex_access_token : PayFlexRuntimeConfig → Action (WithTokens W) String
  get_payflex_access_token config = do
    assert_payflex_auth_config config
    cached ← gets (λ s. get (s.0) (get_cache_key config))
    cached_or_requested config cached
