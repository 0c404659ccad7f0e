-- ===== src/Providers/Peach/Card.antt =====
-- src/providers/peach/peach.s2s-payment.ts. A field of the card's form that is the empty text is
-- left out as one that is not there, as the source does.
use gateway_orchestrator.Prelude.{
  ℕ, String, Bool, Option, none, some, List, [], ◌∷◌, ◌++◌, Map, coalesce, if◌then◌else◌, map_list,
  get_field,
}
use gateway_orchestrator.Prelude.Text.{template, to_fixed, is_empty, truthy}
use gateway_orchestrator.Value.{Value, undefined, str}
use gateway_orchestrator.Effect.{Action, ◌>>=◌, pure}
use gateway_orchestrator.Domain.Enums.{PaymentStatus}
use gateway_orchestrator.Providers.{Web, send, property_of, text_of}
use gateway_orchestrator.Providers.Peach.{map_peach_status_with_type}
use gateway_orchestrator.Providers.Peach.Operations.{PeachEnv, result_code_of}

pub record PeachCard : Type 0 where
  pub number : String
  pub holder : String
  pub expiry_month : String
  pub expiry_year : String
  pub cvv : String

pub record PeachBrowser : Type 0 where
  pub accept_header : Option String
  pub language : Option String
  pub screen_height : Option String
  pub screen_width : Option String
  pub timezone : Option String
  pub user_agent : Option String
  pub java_enabled : Option String
  pub javascript_enabled : Option String
  pub screen_color_depth : Option String
  pub challenge_window : Option String

pub record PeachThreeDSecure : Type 0 where
  pub challenge_indicator : Option String
  pub exemption_flag : Option String

pub record PeachS2SCardInput : Type 0 where
  pub payment_brand : String
  pub payment_type : String
  pub amount : ℕ
  pub currency : String
  pub shopper_result_url : String
  pub card : PeachCard
  pub merchant_transaction_id : Option String
  pub three_d_secure : Option PeachThreeDSecure
  pub browser : Option PeachBrowser
  pub customer_ip : Option String
  pub custom_parameters : Map String

-- The redirect's method and parameters, which nothing reads, are left out.
pub record PeachS2SPaymentResult : Type 0 where
  pub provider_reference : String
  pub status : PaymentStatus
  pub redirect_url : Option String
  pub raw_response : Value

-- `if (value) { params.append(key, value) }`
abbrev append_if : String → Option String → List (String × String)
append_if key value = if truthy value then (key, coalesce value "") ∷ [] else []

-- `first || second`
abbrev or_text : String → String → String
or_text first second = if is_empty first then second else first

unfoldable pub browser_params : PeachBrowser → List (String × String)
browser_params b =
    append_if "customer.browser.acceptHeader" b.accept_header
    ++ append_if "customer.browser.language" b.language
    ++ append_if "customer.browser.screenHeight" b.screen_height
    ++ append_if "customer.browser.screenWidth" b.screen_width
    ++ append_if "customer.browser.timezone" b.timezone
    ++ append_if "customer.browser.userAgent" b.user_agent
    ++ append_if "customer.browser.javaEnabled" b.java_enabled
    ++ append_if "customer.browser.javascriptEnabled" b.javascript_enabled
    ++ append_if "customer.browser.screenColorDepth" b.screen_color_depth
    ++ append_if "customer.browser.challengeWindow" b.challenge_window

abbrev optional_browser : Option PeachBrowser → List (String × String)
optional_browser none = []
optional_browser (some b) = browser_params b

module _ (env : PeachEnv) where
  abbrev card_entity_id : String
  card_entity_id = or_text env.card_api_entity_id env.entity_id

  unfoldable pub build_form_params : PeachS2SCardInput → List (String × String)
  unfolding browser_params
  build_form_params input =
      ("entityId", card_entity_id)
        ∷ ("amount", to_fixed input.amount)
        ∷ ("currency", input.currency)
        ∷ ("paymentBrand", input.payment_brand)
        ∷ ("paymentType", input.payment_type)
        ∷ ("card.number", input.card.number)
        ∷ ("card.holder", input.card.holder)
        ∷ ("card.expiryMonth", input.card.expiry_month)
        ∷ ("card.expiryYear", input.card.expiry_year)
        ∷ ("card.cvv", input.card.cvv)
        ∷ ("shopperResultUrl", input.shopper_result_url)
        ∷ append_if "merchantTransactionId" input.merchant_transaction_id
      ++ append_if "threeDSecure.challengeIndicator"
          (get_field input.three_d_secure (λ t. t.challenge_indicator))
      ++ append_if "threeDSecure.exemptionFlag"
          (get_field input.three_d_secure (λ t. t.exemption_flag))
      ++ optional_browser input.browser
      ++ append_if "customer.ip" input.customer_ip
      ++ map_list (λ p. (template ("customParameters[" ∷ p.0 ∷ "]" ∷ []), p.1))
          input.custom_parameters

-- `isPending3DS`
unfoldable pub is_pending_3ds : Value → Bool
is_pending_3ds response = truthy (text_of (property_of response "redirect") "url")

unfoldable pub card_payment_result : String → Value → PeachS2SPaymentResult
unfolding is_pending_3ds
card_payment_result payment_type response =
    let provider_reference = coalesce (text_of response "id") "" in
    if is_pending_3ds response
    then record {
      provider_reference = provider_reference;
      status = PaymentStatus.pending_3ds;
      redirect_url = text_of (property_of response "redirect") "url";
      raw_response = response;
    }
    else record {
      provider_reference = provider_reference;
      status = map_peach_status_with_type (result_code_of response) payment_type;
      redirect_url = none;
      raw_response = response;
    }

module _ {W : Type 0} (web : Web W) (env : PeachEnv) where
  abbrev authorization : String × String
  authorization = ("Authorization", template ("Bearer " ∷ env.card_api_bearer_token ∷ []))

  unfoldable pub execute_peach_s2s_card_payment : PeachS2SCardInput → Action W PeachS2SPaymentResult
  execute_peach_s2s_card_payment input = do
    response ← send web (record {
      method = "POST";
      url = template (env.card_api_base_url ∷ "/v1/payments" ∷ []);
      headers = ("Content-Type", "application/x-www-form-urlencoded") ∷ authorization ∷ [];
      request_data = str (web.url_search_params (build_form_params env input));
      response_type = none;
    })
    pure (card_payment_result input.payment_type response)

  unfoldable pub get_peach_s2s_payment_status : String → Action W PeachS2SPaymentResult
  get_peach_s2s_payment_status payment_id = do
    response ← send web (record {
      method = "GET";
      url = template (
          env.card_api_base_url
          ∷ "/v1/payments/"
          ∷ web.encode_uri_component payment_id
          ∷ "?entityId="
          ∷ web.encode_uri_component (or_text env.card_api_entity_id env.entity_id)
          ∷ []);
      headers = authorization ∷ [];
      request_data = undefined;
      response_type = none;
    })
    pure (record {
      provider_reference = coalesce (text_of response "id") payment_id;
      status =
          map_peach_status_with_type (result_code_of response)
            (coalesce (text_of response "paymentType") "DB");
      redirect_url = none;
      raw_response = response;
    })
