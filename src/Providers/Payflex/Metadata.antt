-- ===== src/Providers/Payflex/Metadata.antt =====
-- src/providers/payflex/payflex.provider.ts: what is read from the metadata, and the order that is sent.
use gateway_orchestrator.Prelude.{
  ℕ, String, Bool, true, false, ◌&&◌, Option, none, some, List, [], ◌∷◌, coalesce, if◌then◌else◌,
  filter, map_list, get_field, or_else,
}
use gateway_orchestrator.Prelude.Text.{template, trim, is_empty, join}
use gateway_orchestrator.Value.{
  Value, Items, no_items, item, Fields, end, field, obj, arr, str, num, undefined, optional,
}
use gateway_orchestrator.Effect.{Action, raise, pure, plain_error}
use gateway_orchestrator.Domain.Provider.{PaymentRequest}
use gateway_orchestrator.Providers.{property_of}

abbrev pub RequiredField : Type 0
RequiredField = String × List String

abbrev pub payflex_required_metadata_fields : List RequiredField
payflex_required_metadata_fields =
    ("mobile", "mobile" ∷ "phoneNumber" ∷ [])
    ∷ ("firstName", "firstName" ∷ "givenNames" ∷ [])
    ∷ ("lastName", "lastName" ∷ "surname" ∷ [])
    ∷ ("email", "email" ∷ [])
    ∷ []

-- A string that is not blank, trimmed.
unfoldable pub trimmed : Value → Option String
trimmed (str s) = let t = trim s in if is_empty t then none else some t
trimmed _ = none

unfoldable pub read_string : Value → List String → Option String
unfolding trimmed
read_string metadata [] = none
read_string metadata (key ∷ keys) =
    let rest = read_string metadata keys in or_else (trimmed (property_of metadata key)) rest

unfoldable pub read_number : Value → String → ℕ → ℕ
read_number metadata key fallback = elim (property_of metadata key) [ num n ↦ n | _ ↦ fallback ]

-- The object, or `undefined`.
unfoldable pub read_object : Value → String → Value
read_object metadata key = elim (property_of metadata key) [
  | obj fields ↦ obj fields
  | _ ↦ undefined
]

abbrev is_object : Value → Bool
is_object (obj fields) = true
is_object (arr items) = true
is_object _ = false

unfoldable pub filter_objects : Items → Items
filter_objects no_items = no_items
filter_objects (item v rest) =
    let others = filter_objects rest in if is_object v then item v others else others

unfoldable pub read_items : Value → Value
unfolding filter_objects
read_items metadata = elim (property_of metadata "items") [
  | arr items ↦ arr (filter_objects items)
  | _ ↦ undefined
]

abbrev pub is_none : {A : Type 0} → Option A → Bool
is_none none = true
is_none (some a) = false

unfoldable pub get_missing_required_metadata_fields : Value → List String
unfolding read_string
get_missing_required_metadata_fields metadata =
    map_list (λ f. f.0)
      (filter (λ f. is_none (read_string metadata (f.1))) payflex_required_metadata_fields)

unfoldable pub assert_required_metadata_fields : {S : Type 0} → Value → Action S (Unit {0})
unfolding get_missing_required_metadata_fields
assert_required_metadata_fields metadata = elim (get_missing_required_metadata_fields metadata) [
  | [] ↦ pure tt
  | name ∷ names ↦ raise (
      plain_error (template ("PAYFLEX requires metadata fields: " ∷ join ", " (name ∷ names) ∷ [])))
]

-- `env.payflex`, apart from the configuration of the requests.
pub record PayFlexEnv : Type 0 where
  pub default_redirect_confirm_url : String
  pub default_redirect_cancel_url : String
  pub default_status_callback_url : String
  pub default_refund_webhook_url : String

unfoldable pub create_order_payload : PayFlexEnv → PaymentRequest → Fields
unfolding read_string read_object read_items read_number
create_order_payload env request =
    let metadata = request.metadata in
    field "amount" (num request.amount) (
      field "consumer"
        (obj (
          field "phoneNumber" (optional (read_string metadata ("phoneNumber" ∷ "mobile" ∷ []))) (
            field "givenNames" (optional (read_string metadata ("givenNames" ∷ "firstName" ∷ []))) (
              field "surname" (optional (read_string metadata ("surname" ∷ "lastName" ∷ [])))
                (field "email" (optional (read_string metadata ("email" ∷ []))) end)))))
        (field "billing" (read_object metadata "billing") (
          field "shipping" (read_object metadata "shipping") (
            field "description"
              (str (
                coalesce (read_string metadata ("description" ∷ []))
                  (template ("Payment " ∷ request.payment_id ∷ []))))
              (field "items" (read_items metadata) (
                field "merchant"
                  (obj (
                    field "redirectConfirmUrl"
                      (str (
                        coalesce (get_field request.redirect_context (λ r. r.return_url))
                          env.default_redirect_confirm_url))
                      (field "redirectCancelUrl"
                        (str (
                          coalesce (get_field request.redirect_context (λ r. r.cancel_url))
                            env.default_redirect_cancel_url))
                        (field "statusCallbackUrl"
                          (str (
                            coalesce (get_field request.redirect_context (λ r. r.notification_url))
                              env.default_status_callback_url))
                          end))))
                  (field "merchantReference" (str request.payment_id) (
                    field "taxAmount" (num (read_number metadata "taxAmount" 0)) (
                      field "shippingAmount" (num (read_number metadata "shippingAmount" 0))
                        end)))))))))

abbrev is_undefined : Value → Bool
is_undefined undefined = true
is_undefined _ = false

-- `Object.values(value).every((entry) => entry === undefined)`
abbrev all_undefined : Fields → Bool
all_undefined end = true
all_undefined (field key value rest) = is_undefined value && all_undefined rest

-- Whether the entry is deleted.
unfoldable pub is_empty_object : Value → Bool
is_empty_object (obj fields) = all_undefined fields
is_empty_object (arr no_items) = true
is_empty_object (arr (item v rest)) = false
is_empty_object _ = false

unfoldable pub sanitize_empty_objects : Fields → Fields
unfolding is_empty_object
sanitize_empty_objects end = end
sanitize_empty_objects (field key value rest) =
    let others = sanitize_empty_objects rest in
    if is_empty_object value then others else field key value others
