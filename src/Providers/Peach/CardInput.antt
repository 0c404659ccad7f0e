-- ===== src/Providers/Peach/CardInput.antt =====
-- src/providers/peach/peach.provider.ts: what a card payment is made of, from the request and its metadata.
use gateway_orchestrator.Prelude.{
  String, Bool, false, ◌&&◌, ◌||◌, ◌==◌, Option, none, some, [], Map, put, coalesce, if◌then◌else◌,
  get_field,
}
use gateway_orchestrator.Prelude.Text.{truthy, starts_with, without_prefix, without_last}
use gateway_orchestrator.Value.{Value, Fields, end, field, obj, str}
use gateway_orchestrator.Domain.Provider.{PaymentRequest}
use gateway_orchestrator.Providers.{property_of}
use gateway_orchestrator.Providers.Peach.Operations.{PeachEnv}
use gateway_orchestrator.Providers.Peach.Checkout.{filled}
use gateway_orchestrator.Providers.Peach.Card.{PeachS2SCardInput, PeachBrowser, PeachThreeDSecure}

-- `readMetadataString`
unfoldable pub read_metadata_string : Value → String → Option String
read_metadata_string metadata key = filled (property_of metadata key)

unfoldable pub has_s2s_card_details : Value → Bool
has_s2s_card_details metadata =
    truthy (read_metadata_string metadata "card.number")
    && truthy (read_metadata_string metadata "card.expiryMonth")
    && truthy (read_metadata_string metadata "card.expiryYear")
    && truthy (read_metadata_string metadata "card.cvv")

-- `PEACH_CARD_BRANDS.includes(paymentBrand)`
unfoldable pub is_card_brand : Option String → Bool
is_card_brand none = false
is_card_brand (some brand) =
    brand == "VISA" || brand == "MASTER" || brand == "AMEX" || brand == "DINERS"

-- `key.replace(/^customParameters\[/, '').replace(/]$/, '')`
abbrev param_name : String → String
param_name key = without_last "]" (without_prefix key "customParameters[")

abbrev put_custom : Map String → String → Value → Map String
put_custom params key (str s) =
    if starts_with key "customParameters[" then put params (param_name key) s else params
put_custom params key _ = params

-- The loop over the metadata.
unfoldable pub custom_params : Map String → Fields → Map String
custom_params params end = params
custom_params params (field key value rest) = custom_params (put_custom params key value) rest

abbrev custom_params_of : Value → Map String
custom_params_of (obj metadata) = custom_params [] metadata
custom_params_of _ = []

unfoldable pub browser_of : Value → Option PeachBrowser
browser_of metadata = elim (read_metadata_string metadata "customer.browser.acceptHeader") [
  | none ↦ none
  | some accept_header ↦ some (record {
    accept_header = some accept_header;
    language = read_metadata_string metadata "customer.browser.language";
    screen_height = read_metadata_string metadata "customer.browser.screenHeight";
    screen_width = read_metadata_string metadata "customer.browser.screenWidth";
    timezone = read_metadata_string metadata "customer.browser.timezone";
    user_agent = read_metadata_string metadata "customer.browser.userAgent";
    java_enabled = read_metadata_string metadata "customer.browser.javaEnabled";
    javascript_enabled = read_metadata_string metadata "customer.browser.javascriptEnabled";
    screen_color_depth = read_metadata_string metadata "customer.browser.screenColorDepth";
    challenge_window = read_metadata_string metadata "customer.browser.challengeWindow";
  })
]

unfoldable pub three_d_secure_of : Value → Option PeachThreeDSecure
three_d_secure_of metadata =
    let challenge_indicator = read_metadata_string metadata "threeDSecure.challengeIndicator" in
    let exemption_flag = read_metadata_string metadata "threeDSecure.exemptionFlag" in
    if truthy challenge_indicator || truthy exemption_flag
    then some
        (record { challenge_indicator = challenge_indicator; exemption_flag = exemption_flag })
    else none

-- The card's fields are there, since `has_s2s_card_details` was tested.
unfoldable pub build_s2s_input :
    PeachEnv → PaymentRequest → String → String → String → PeachS2SCardInput
unfolding custom_params browser_of three_d_secure_of
build_s2s_input env request payment_type payment_brand merchant_transaction_id =
    let metadata = request.metadata in
    record {
      payment_brand = payment_brand;
      payment_type = payment_type;
      amount = request.amount;
      currency = request.currency;
      shopper_result_url =
          coalesce (get_field request.redirect_context (λ r. r.return_url))
            env.default_shopper_result_url;
      card = record {
        number = coalesce (read_metadata_string metadata "card.number") "";
        holder = coalesce (read_metadata_string metadata "card.holder") "";
        expiry_month = coalesce (read_metadata_string metadata "card.expiryMonth") "";
        expiry_year = coalesce (read_metadata_string metadata "card.expiryYear") "";
        cvv = coalesce (read_metadata_string metadata "card.cvv") "";
      };
      merchant_transaction_id = some merchant_transaction_id;
      three_d_secure = three_d_secure_of metadata;
      browser = browser_of metadata;
      customer_ip = read_metadata_string metadata "customer.ip";
      custom_parameters = custom_params_of metadata;
    }
