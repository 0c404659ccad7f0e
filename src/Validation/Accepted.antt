-- ===== src/Validation/Accepted.antt =====
-- What the services may rely on in a body that src/utils/validators.ts accepts.
use gateway_orchestrator.Prelude.{
  ◌≡◌, ◌↔◌, refl, ◌∙◌, String, Bool, false, some, List, [], ◌∷◌, ◌++◌, arith, not, filter, map_list,
}
use gateway_orchestrator.Effect.{returned, raise, pure}
use gateway_orchestrator.Onboarding.{
  RegisterProviderInput, assert_provider_credentials, require_credentials,
}
use gateway_orchestrator.Runtime.{State}
use gateway_orchestrator.Repositories.Payments.{optional_eq}
use gateway_orchestrator.Value.{Value}
use gateway_orchestrator.Payments.Input.{CreatePaymentInput}
use gateway_orchestrator.Providers.{property_of}
use gateway_orchestrator.Providers.Payflex.Metadata.{
  read_string, trimmed, is_none, get_missing_required_metadata_fields,
  assert_required_metadata_fields,
}
use gateway_orchestrator.Validation.{
  register_provider_issues, Alias, issue_if, is_cons, any, is_filled, is_given,
  get_missing_payflex_fields, payflex_issues, peach_issues, s2s_issues, create_payment_issues,
}

module _ {W : Type 0} (s : State W) where
  -- A registration is accepted exactly if the service finds the credentials that it asks for.
  pub register_accepted_iff :
      (input : RegisterProviderInput)
      → (register_provider_issues input ≡ [])
        ↔ (assert_provider_credentials input s ≡ (returned tt, s))
  unfolding register_provider_issues assert_provider_credentials require_credentials raise pure
  register_accepted_iff input = (λ h. ground arith, λ h. ground arith)

-- A check whose issues are none among those of several finds none.
none_before : {A : Type 0} (xs ys : List A) → xs ++ ys ≡ [] → (xs ≡ []) × (ys ≡ [])
none_before [] ys h = (refl, h)
none_before (x ∷ xs) ys h = absurd cc

module _ {A : Type 0} (name : A → String) (keep : A → Bool) where
  -- A list of names is empty where none is kept, first and others.
  kept_none :
      (x : A) (xs : List A)
      → map_list name (filter keep (x ∷ xs)) ≡ []
      → (keep x ≡ false) × (map_list name (filter keep xs) ≡ [])
  unfolding map_list filter
  kept_none x xs h = (ground arith, ground arith)

  none_kept :
      (x : A) (xs : List A)
      → keep x ≡ false
      → map_list name (filter keep xs) ≡ []
      → map_list name (filter keep (x ∷ xs)) ≡ []
  unfolding map_list filter
  none_kept x xs f h = rw f h

trimmed-filled : (v : Value) → is_none (trimmed v) ≡ not (is_filled v)
unfolding trimmed is_filled
trimmed-filled v = ground arith

-- A key is read exactly if it is filled.
read-filled :
    (metadata : Value) (keys : List String)
    → is_none (read_string metadata keys)
      ≡ not (any (λ key. is_filled (property_of metadata key)) keys)
unfolding read_string any
read-filled metadata [] = refl
read-filled metadata (key ∷ keys) =
    ground (arith, trimmed-filled (property_of metadata key), read-filled metadata keys)

no_issue :
    (missing path : List String) (message : String)
    → issue_if (is_cons missing) path message ≡ []
    → missing ≡ []
no_issue [] path message h = refl
no_issue (x ∷ xs) path message h = absurd cc

abbrev first_name : Alias
first_name = ("firstName", "firstName" ∷ "givenNames" ∷ [])

abbrev last_name : Alias
last_name = ("lastName", "lastName" ∷ "surname" ∷ [])

abbrev mobile : Alias
mobile = ("mobile", "mobile" ∷ "phoneNumber" ∷ [])

abbrev email : Alias
email = ("email", "email" ∷ [])

-- Where the schema misses no field, neither does the adapter.
fields_given :
    (metadata : Value)
    → get_missing_payflex_fields metadata ≡ []
    → get_missing_required_metadata_fields metadata ≡ []
unfolding get_missing_payflex_fields get_missing_required_metadata_fields is_given map_list filter
fields_given metadata h =
    let keep = λ (f : Alias). not (is_given metadata f) in
    let read = λ (f : Alias). is_none (read_string metadata (f.1)) in
    let same = λ (f : Alias) (e : keep f ≡ false). read-filled metadata (f.1) ∙ e in
    let (first, h1) = kept_none (λ f. f.0) keep first_name (last_name ∷ mobile ∷ email ∷ []) h in
    let (last, h2) = kept_none (λ f. f.0) keep last_name (mobile ∷ email ∷ []) h1 in
    let (phone, h3) = kept_none (λ f. f.0) keep mobile (email ∷ []) h2 in
    let (mail, _) = kept_none (λ f. f.0) keep email [] h3 in
    none_kept (λ f. f.0) read mobile (first_name ∷ last_name ∷ email ∷ []) (same mobile phone)
      (none_kept (λ f. f.0) read first_name (last_name ∷ email ∷ []) (same first_name first)
        (none_kept (λ f. f.0) read last_name (email ∷ []) (same last_name last)
          (none_kept (λ f. f.0) read email [] (same email mail) refl)))

none_missing :
    (input : CreatePaymentInput)
    → input.payment_method ≡ some "PAYFLEX"
    → payflex_issues input ≡ []
    → get_missing_payflex_fields input.metadata ≡ []
unfolding payflex_issues optional_eq
none_missing input method h =
    no_issue (get_missing_payflex_fields input.metadata) _ _ (rw method at h)

-- A body with the payment method `PAYFLEX` that is accepted has the metadata that the PayFlex adapter asks for.
pub payflex_accepted :
    {S : Type 0} (to_upper_case to_lower_case : String → String) (input : CreatePaymentInput)
    (s : S)
    → create_payment_issues to_upper_case to_lower_case input ≡ []
    → input.payment_method ≡ some "PAYFLEX"
    → assert_required_metadata_fields input.metadata s ≡ (returned tt, s)
unfolding create_payment_issues assert_required_metadata_fields pure
payflex_accepted to_upper_case to_lower_case input s h method =
    let (until_s2s, _) = none_before (_ ++ s2s_issues to_upper_case to_lower_case input) _ h in
    let (until_peach, _) = none_before (_ ++ peach_issues input) _ until_s2s in
    let (until_payflex, _) = none_before (_ ++ payflex_issues input) _ until_peach in
    let (_, none_of_payflex) = none_before _ (payflex_issues input) until_payflex in
    rw
      (
        assert_required_metadata_fields,
        fields_given input.metadata (none_missing input method none_of_payflex),
      )
      refl
