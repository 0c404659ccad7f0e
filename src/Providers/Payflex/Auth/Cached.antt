-- ===== src/Providers/Payflex/Auth/Cached.antt =====
-- The cache of tokens of src/providers/payflex/payflex.auth.ts.
use gateway_orchestrator.Prelude.{◌≡◌, ◌+◌, String, true, some, get, ltb}
use gateway_orchestrator.Value.{Value}
use gateway_orchestrator.Effect.{returned}
use gateway_orchestrator.Providers.{Web}
use gateway_orchestrator.Providers.Config.{PayFlexRuntimeConfig}
use gateway_orchestrator.Providers.Payflex.Auth.{
  CachedToken, WithTokens, get_cache_key, date_now, get_payflex_access_token,
}

module _ {W : Type 0} (web : Web W) (config : PayFlexRuntimeConfig) where
  -- The token is in the cache, and as long as the clock is more than a minute before its expiry, it is given again
  -- without a request: only the clock is read.
  pub record Reusable (token : String) (s : WithTokens W) : Type 0 where
    pub cached : CachedToken
    pub at_key : get (s.0) (get_cache_key config) ≡ some cached
    pub same : cached.access_token ≡ token
    pub given_again :
        ltb ((web.date_now (s.1)).0 + 60000) cached.expires_at ≡ true
        → get_payflex_access_token web config s ≡ (returned token, (s.0, (web.date_now (s.1)).1))
