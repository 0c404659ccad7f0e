-- ===== src/Validation.antt =====
-- src/utils/validators.ts: the checks across fields of `createPaymentSchema` and `registerProviderSchema`, on bodies
-- whose fields have passed the schemas of zod. `toUpperCase` and `toLowerCase` are parameters.
pub mod Accepted
use gateway_orchestrator.Prelude.{
  String, Bool, true, false, ◌&&◌, ◌||◌, not, ◌==◌, Option, none, some, List, [], ◌∷◌, ◌++◌,
  if◌then◌else◌, filter, map_list, get_field,
}
use gateway_orchestrator.Prelude.Text.{template, trim, is_empty, join, truthy}
use gateway_orchestrator.Value.{Value, obj, str, bool, property}
use gateway_orchestrator.Repositories.Payments.{optional_eq}
use gateway_orchestrator.Domain.Enums.{PaymentProviderName, provider_eq}
use gateway_orchestrator.Domain.Provider.{RedirectContext}
use gateway_orchestrator.Payments.Input.{CreatePaymentInput}
use gateway_orchestrator.Onboarding.{RegisterProviderInput}
use gateway_orchestrator.Providers.{property_of}

-- What `context.addIssue` is given: the path, and the message.
abbrev pub Issue : Type 0
Issue = List String × String

-- `typeof value === 'string' && value.trim().length > 0`
unfoldable pub is_filled : Value → Bool
unfolding is_empty
is_filled (str s) = not (is_empty (trim s))
is_filled _ = false

-- `list.some(test)`
unfoldable pub any : {A : Type 0} → (A → Bool) → List A → Bool
any test [] = false
any test (x ∷ xs) = test x || any test xs

-- `list.length > 0`
abbrev pub is_cons : {A : Type 0} → List A → Bool
is_cons [] = false
is_cons (x ∷ xs) = true

-- An issue, if there is a reason for it.
abbrev pub issue_if : Bool → List String → String → List Issue
issue_if true path message = (path, message) ∷ []
issue_if false path message = []

abbrev pub Alias : Type 0
Alias = String × List String

abbrev pub payflex_required_field_aliases : List Alias
payflex_required_field_aliases =
    ("firstName", "firstName" ∷ "givenNames" ∷ [])
    ∷ ("lastName", "lastName" ∷ "surname" ∷ [])
    ∷ ("mobile", "mobile" ∷ "phoneNumber" ∷ [])
    ∷ ("email", "email" ∷ [])
    ∷ []

-- Whether one of the alias's keys is filled.
unfoldable pub is_given : Value → Alias → Bool
unfolding any is_filled
is_given metadata alias = any (λ key. is_filled (property_of metadata key)) (alias.1)

unfoldable pub get_missing_payflex_fields : Value → List String
unfolding is_given
get_missing_payflex_fields metadata =
    map_list (λ alias. alias.0)
      (filter (λ alias. not (is_given metadata alias)) payflex_required_field_aliases)

unfoldable pub get_missing_s2s_card_fields : Value → List String
unfolding is_filled
get_missing_s2s_card_fields metadata =
    filter (λ key. not (is_filled (property_of metadata key)))
      ("cardNumber" ∷ "cardExpiry" ∷ "cvv" ∷ "nameOnCard" ∷ "firstName" ∷ "lastName" ∷ "mobile"
        ∷ "email" ∷ [])

-- Whether an optional text is filled.
abbrev is_filled_text : Option String → Bool
is_filled_text none = false
is_filled_text (some s) = is_filled (str s)

unfoldable pub get_missing_redirect_fields : Option RedirectContext → List String
get_missing_redirect_fields context =
    (if is_filled_text (get_field context (λ c. c.return_url)) then [] else "returnUrl" ∷ [])
    ++ (if is_filled_text (get_field context (λ c. c.cancel_url)) then [] else "cancelUrl" ∷ [])

-- `value.provider === provider`
abbrev pub is_provider : Option PaymentProviderName → PaymentProviderName → Bool
is_provider none name = false
is_provider (some provider) name = provider_eq provider name

-- `value.field === text`
abbrev pub is_text : Option String → String → Bool
is_text value text = optional_eq value (some text)

-- `if (value.paymentMethod === … && value.metadata)`
abbrev has_metadata : Value → Bool
has_metadata (obj fields) = true
has_metadata _ = false

-- The check of one metadata field of a payment method.
abbrev field_issue : Value → String → String → List Issue
field_issue metadata method key =
    issue_if (not (is_filled (property_of metadata key))) ("metadata" ∷ [])
      (template (method ∷ " requires metadata field: " ∷ key ∷ []))

unfoldable pub peach_issues : CreatePaymentInput → List Issue
unfolding is_filled
peach_issues value =
    let metadata = value.metadata in
    if is_provider value.provider PaymentProviderName.peach && has_metadata metadata
    then (if is_text value.payment_method "PAYSHAP"
        then field_issue metadata "PAYSHAP" "virtualAccount.bank"
          ++ field_issue metadata "PAYSHAP" "virtualAccount.accountId"
        else if is_text value.payment_method "MOBICRED"
        then field_issue metadata "MOBICRED" "virtualAccount.accountId"
          ++ field_issue metadata "MOBICRED" "virtualAccount.password"
        else if is_text value.payment_method "RCSSTORECARDS"
        then field_issue metadata "RCSSTORECARDS" "card.number"
        else [])
    else []

unfoldable pub payflex_issues : CreatePaymentInput → List Issue
unfolding get_missing_payflex_fields
payflex_issues value =
    let missing_fields = get_missing_payflex_fields value.metadata in
    issue_if (is_text value.payment_method "PAYFLEX" && is_cons missing_fields) ("metadata" ∷ [])
      (template ("PAYFLEX requires metadata fields: " ∷ join ", " missing_fields ∷ []))

module _ (to_upper_case to_lower_case : String → String) where
  unfoldable pub read_metadata_boolean : Value → String → Bool
  read_metadata_boolean metadata key = elim (property_of metadata key) [
    | bool b ↦ b
    | str s ↦ to_lower_case (trim s) == "true"
    | _ ↦ false
  ]

  -- `typeof metadata?.payuAuthorizeFlow === 'string' ? ….toUpperCase() : ''`
  abbrev flow_selector : Value → String
  flow_selector (str s) = to_upper_case s
  flow_selector _ = ""

  unfoldable pub is_payu_s2s_do_transaction_flow : CreatePaymentInput → Bool
  is_payu_s2s_do_transaction_flow value =
      is_text value.payment_method "CREDITCARD"
      && is_text value.transaction_type "RESERVE"
      && flow_selector (property_of value.metadata "payuAuthorizeFlow") == "DO_TRANSACTION"

  unfoldable pub requires_merchant_redirect_urls : CreatePaymentInput → Bool
  unfolding is_payu_s2s_do_transaction_flow read_metadata_boolean
  requires_merchant_redirect_urls value =
      if is_payu_s2s_do_transaction_flow value
      then read_metadata_boolean value.metadata "secure3d"
      else is_provider value.provider PaymentProviderName.payu
        || not (optional_eq value.payment_method none)

  unfoldable pub s2s_issues : CreatePaymentInput → List Issue
  unfolding is_payu_s2s_do_transaction_flow get_missing_s2s_card_fields
  s2s_issues value =
      let missing = get_missing_s2s_card_fields value.metadata in
      issue_if (is_payu_s2s_do_transaction_flow value && is_cons missing) ("metadata" ∷ [])
        (template ("DO_TRANSACTION requires metadata fields: " ∷ join ", " missing ∷ []))

  unfoldable pub redirect_issues : CreatePaymentInput → List Issue
  unfolding requires_merchant_redirect_urls get_missing_redirect_fields
  redirect_issues value =
      let missing = get_missing_redirect_fields value.redirect_context in
      issue_if (requires_merchant_redirect_urls value && is_cons missing) ("redirectContext" ∷ []) (
        template (
          (if is_payu_s2s_do_transaction_flow value
            then "DO_TRANSACTION secure3d requires redirectContext fields: "
            else "PAYU redirect flows require redirectContext fields: ")
          ∷ join ", " missing
          ∷ []))

  -- The issues of a body, which is refused if there are any.
  unfoldable pub create_payment_issues : CreatePaymentInput → List Issue
  unfolding payflex_issues peach_issues s2s_issues redirect_issues
  create_payment_issues value =
      issue_if (optional_is_empty value) ("provider" ∷ [])
        "provider is required unless merchantIdentifier is provided for routed payments"
      ++ payflex_issues value
      ++ peach_issues value
      ++ s2s_issues value
      ++ redirect_issues value
    where
      -- `!value.provider && !value.merchantIdentifier`
      optional_is_empty : CreatePaymentInput → Bool
      optional_is_empty v = elim v.provider [
        | none ↦ not (truthy v.merchant_identifier)
        | some name ↦ false
      ]

-- `!value.credentials`
abbrev is_missing : {A : Type 0} → Option A → Bool
is_missing none = true
is_missing (some a) = false

abbrev required_message : String → String → String
required_message credentials name =
    template (credentials ∷ " is required for " ∷ name ∷ " provider" ∷ [])

unfoldable pub register_provider_issues : RegisterProviderInput → List Issue
register_provider_issues value =
    issue_if
      (is_provider (some value.provider) PaymentProviderName.payu
        && is_missing value.payu_credentials)
      [] (required_message "payuCredentials" "PAYU")
    ++ issue_if
        (is_provider (some value.provider) PaymentProviderName.payflex
          && is_missing value.payflex_credentials)
        [] (required_message "payflexCredentials" "PAYFLEX")
    ++ issue_if
        (is_provider (some value.provider) PaymentProviderName.payfast
          && is_missing value.payfast_credentials)
        [] (required_message "payfastCredentials" "PAYFAST")
    ++ issue_if
        (is_provider (some value.provider) PaymentProviderName.stitch
          && is_missing value.stitch_credentials)
        [] (required_message "stitchCredentials" "STITCH")
    ++ issue_if
        (is_provider (some value.provider) PaymentProviderName.peach
          && is_missing value.peach_credentials)
        [] (required_message "peachCredentials" "PEACH")
