-- ===== src/Providers/Payu/CallbackUrls.antt =====
-- src/providers/payu/payu.callback-urls.ts. The class `URL` of the platform is a parameter.
use gateway_orchestrator.Prelude.{
  String, Bool, false, ◌||◌, ◌==◌, Option, none, some, List, [], ◌∷◌, coalesce, if◌then◌else◌,
}
use gateway_orchestrator.Prelude.Text.{template, is_empty, truthy, trim}
use gateway_orchestrator.Effect.{Outcome, returned, threw, plain_error}

pub record Urls : Type 0 where
  -- `new URL(urlValue).hostname`, none where it throws.
  pub hostname : String → Option String
  -- `new URL(base)` with the path, the search and the hash of a URL, as a text, none where a constructor throws.
  pub moved_to : String → String → Option String

module _ (urls : Urls) where
  abbrev is_local_host : String → Bool
  is_local_host hostname = hostname == "localhost" || hostname == "127.0.0.1"

  unfoldable pub is_local_callback_url : String → Bool
  is_local_callback_url url_value = elim (urls.hostname url_value) [
    | none ↦ false
    | some hostname ↦ is_local_host hostname
  ]

  -- By `env.publicBaseUrl`.
  unfoldable pub resolve_external_callback_url : String → String → String
  unfolding is_local_callback_url
  resolve_external_callback_url public_base_url url_value =
      if is_empty public_base_url
      then url_value
      else if is_local_callback_url url_value
      then coalesce (urls.moved_to public_base_url url_value) url_value
      else url_value

  unfoldable pub resolve_optional_merchant_redirect_url : String → Option String → Option String
  unfolding resolve_external_callback_url
  resolve_optional_merchant_redirect_url public_base_url none = none
  resolve_optional_merchant_redirect_url public_base_url (some url_value) =
      if is_empty url_value || is_empty (trim url_value)
      then none
      else some (resolve_external_callback_url public_base_url url_value)

  unfoldable pub require_merchant_redirect_url :
      String → Option String → String → String → Outcome String
  unfolding resolve_optional_merchant_redirect_url
  require_merchant_redirect_url public_base_url url_value field_name flow_name =
      let resolved_url = resolve_optional_merchant_redirect_url public_base_url url_value in
      if truthy resolved_url
      then returned (coalesce resolved_url "")
      else threw (
          plain_error (
            template (
              "PayU " ∷ flow_name ∷ " requires redirectContext." ∷ field_name
              ∷ " so the merchant controls the browser redirect destination." ∷ [])))

  -- Whether a URL that is given is local.
  unfoldable pub has_local_url : List (Option String) → Bool
  unfolding is_local_callback_url
  has_local_url [] = false
  has_local_url (none ∷ url_values) = has_local_url url_values
  has_local_url (some url_value ∷ url_values) =
      is_local_callback_url url_value || has_local_url url_values

  unfoldable pub assert_public_callback_urls : List (Option String) → Outcome (Unit {0})
  unfolding has_local_url
  assert_public_callback_urls url_values =
      if has_local_url url_values
      then threw (
          plain_error
            "PayU callback URLs cannot use localhost. Set PUBLIC_BASE_URL or pass public merchant redirectContext URLs.")
      else returned tt
