-- ===== src/Providers/Peach/Forms.antt =====
-- src/providers/peach/peach.signature.ts, and the form body of src/providers/peach/peach.checkout.ts. An object of
-- strings is its list of properties, which no key that is a number or `__proto__` disturbs.
-- `encodeURIComponent`, `decodeURIComponent`, which throws a `URIError` (none), and the hex digest of the HMAC are
-- parameters. Keys are sorted by their characters.
pub mod Verifies
use Prim.Native.String.{◌++◌, compare}
use Prim.Native.Nat.{Ordering}
use gateway_orchestrator.Prelude.{
  String, Bool, true, false, not, Option, none, some, List, [], ◌∷◌, Map, get, put, filter,
  map_list, sort, ◌==◌, if◌then◌else◌, coalesce,
}
use gateway_orchestrator.Prelude.Text.{split, cut, join, is_empty, template}

abbrev pub Params : Type 0
Params = Map String

-- The property that a part of the body sets, if it has an `=`.
unfoldable pub decode_pair : (String → Option String) → String × String → Option (String × String)
decode_pair decode (key, value) = elim (decode key) [
  | none ↦ none
  | some k ↦ elim (decode value) [ none ↦ none | some v ↦ some (k, v) ]
]

-- The loop over the parts; none where `decodeURIComponent` throws.
unfoldable pub parse_pairs : (String → Option String) → List String → Params → Option Params
parse_pairs decode [] result = some result
parse_pairs decode (pair ∷ pairs) result = elim (cut "=" pair) [
  | none ↦ parse_pairs decode pairs result
  | some parts ↦ elim (decode_pair decode parts) [
    | none ↦ none
    | some property ↦ parse_pairs decode pairs (put result (property.0) (property.1))
  ]
]

unfoldable pub parse_form_body : (String → Option String) → String → Option Params
parse_form_body decode body = parse_pairs decode (split "&" body) []

-- `a <= b` on keys.
abbrev key_leb : String → String → Bool
key_leb a b = elim (compare a b) [ Ordering.gt ↦ false | _ ↦ true ]

-- `Object.keys(params)`
abbrev keys : Params → List String
keys params = map_list (λ p. p.0) params

unfoldable pub generate_peach_signature : (String → String → String) → Params → String → String
generate_peach_signature hmac params secret_token =
    let sorted_keys = sort key_leb (keys params) in
    let data_to_sign =
      template (map_list (λ key. key ++ coalesce (get params key) "") sorted_keys) in
    hmac secret_token data_to_sign

unfoldable pub without_signature : Params → Params
without_signature params = filter (λ p. not (p.0 == "signature")) params

-- What is verified of the properties that were read.
unfoldable pub verify_params : (String → String → String) → Params → String → Bool
unfolding is_empty
verify_params hmac params secret_token = elim (get params "signature") [
  | none ↦ false
  | some received ↦
      if is_empty received
      then false
      else generate_peach_signature hmac (without_signature params) secret_token == received
]

unfoldable pub verify_peach_checkout_signature :
    (String → Option String) → (String → String → String) → String → String → Option Bool
verify_peach_checkout_signature decode hmac form_body secret_token =
    elim (parse_form_body decode form_body) [
      | none ↦ none
      | some params ↦ some (verify_params hmac params secret_token)
    ]

-- `Object.entries(params).map(([key, value]) => `${encodeURIComponent(key)}=${encodeURIComponent(value)}`).join('&')`
unfoldable pub form_body : (String → String) → Params → String
form_body encode params = join "&" (map_list (λ p. encode (p.0) ++ ("=" ++ encode (p.1))) params)

-- The body that `createPeachCheckout` sends: with the signature of the parameters.
unfoldable pub signed_form_body :
    (String → String) → (String → String → String) → Params → String → String
unfolding form_body
signed_form_body encode hmac params secret_token =
    form_body encode (put params "signature" (generate_peach_signature hmac params secret_token))
