-- ===== src/Providers/Peach/Forms/Verifies.antt =====
-- The form body of a checkout of src/providers/peach, read back.
use Prim.Native.String.{◌++◌ as text_append}
use mathlib.Core.List.{◌++◌, append_assoc, append-nil}
use gateway_orchestrator.Prelude.{
  ◌≡◌, ◌≢◌, refl, sym, ap, ◌∙◌, String, true, false, Option, none, some, [], ◌∷◌, get-put_self, get,
  put, get-put, filter, map_list, ◌==◌, eq_iff, eq_refl, arith,
}
use gateway_orchestrator.Prelude.Text.{is_empty, has_char}
use gateway_orchestrator.Prelude.Text.Split.{AllLack, split-join, cut-append, has_char-append}
use gateway_orchestrator.Providers.Peach.Forms.{
  Params, decode_pair, parse_pairs, parse_form_body, generate_peach_signature, without_signature,
  verify_params, verify_peach_checkout_signature, form_body, signed_form_body,
}

-- What the documentation of `encodeURIComponent` says: `decodeURIComponent` inverts it, and it leaves neither `&` nor
-- `=` in its result.
pub record Encodes (encode : String → String) (decode : String → Option String) : Type 0 where
  pub inverse : (s : String) → decode (encode s) ≡ some s
  pub no_ampersand : (s : String) → has_char "&" (encode s) ≡ false
  pub no_equals : (s : String) → has_char "=" (encode s) ≡ false

-- No two properties have one key.
abbrev pub Distinct : Params → Type 0
Distinct [] = Unit
Distinct ((k, v) ∷ params) = (get params k ≡ none) × Distinct params

-- The properties set one after the other.
abbrev put_all : Params → Params → Params
put_all result [] = result
put_all result ((k, v) ∷ params) = put_all (put result k v) params

-- No property has a key of the others.
abbrev Fresh : Params → Params → Type 0
Fresh result [] = Unit
Fresh result ((k, v) ∷ params) = (get result k ≡ none) × Fresh result params

put_not_empty : (m : Params) (k v : String) → put m k v ≢ []
unfolding put
put_not_empty [] k v e = absurd cc
put_not_empty ((l, w) ∷ m) k v e = ground arith

-- A new key goes to the end.
put_new : (m : Params) (k v : String) → get m k ≡ none → put m k v ≡ m ++ ((k, v) ∷ [])
unfolding get put
put_new [] k v h = refl
put_new ((l, w) ∷ m) k v h = ground (arith, put_new m k v)

-- A key that is not there is none of those that are.
absent_tail :
    (l w k : String) (m : Params)
    → get ((l, w) ∷ m) k ≡ none
    → ((l == k) ≡ false) × (get m k ≡ none)
unfolding get
absent_tail l w k m h = (ground arith, ground arith)

Distinct-put : (m : Params) (k v : String) → Distinct m → get m k ≡ none → Distinct (put m k v)
unfolding put get
Distinct-put [] k v d h = (refl, tt)
Distinct-put ((l, w) ∷ m) k v (n, d) h =
    let (other, rest) = absent_tail l w k m h in
    rw other (ground (arith, get-put m k v l, eq_iff k l, eq_iff l k), Distinct-put m k v d rest)

Fresh-put :
    (result : Params) (k v : String) (params : Params)
    → get params k ≡ none
    → Fresh result params
    → Fresh (put result k v) params
Fresh-put result k v [] n f = tt
Fresh-put result k v ((l, w) ∷ params) n (a, f) =
    let (other, rest) = absent_tail l w k params n in
    (
      ground (arith, get-put result k v l, eq_iff k l, eq_iff l k),
      Fresh-put result k v params rest f,
    )

put_all-Fresh :
    (params result : Params)
    → Fresh result params
    → Distinct params
    → put_all result params ≡ result ++ params
put_all-Fresh [] result f d = sym (append-nil result)
put_all-Fresh ((k, v) ∷ params) result (a, f) (n, d) =
    put_all-Fresh params (put result k v) (Fresh-put result k v params n f) d
    ∙ ap (λ x. x ++ params) (put_new result k v a)
    ∙ append_assoc result ((k, v) ∷ []) params

Fresh-empty : (params : Params) → Fresh [] params
unfolding get
Fresh-empty [] = tt
Fresh-empty ((k, v) ∷ params) = (refl, Fresh-empty params)

put_all-Distinct : (params : Params) → Distinct params → put_all [] params ≡ params
put_all-Distinct params d = put_all-Fresh params [] (Fresh-empty params) d

without-put :
    (m : Params) (v : String)
    → get m "signature" ≡ none
    → without_signature (put m "signature" v) ≡ m
unfolding without_signature filter put
without-put [] v h = refl
without-put ((l, w) ∷ m) v h =
    let (other, rest) = absent_tail l w "signature" m h in ground (arith, without-put m v rest)

digest_of :
    (hmac : String → String → String) (m : Params) (secret_token : String)
    → ((t : String) → is_empty (hmac secret_token t) ≡ false)
    → is_empty (generate_peach_signature hmac m secret_token) ≡ false
unfolding generate_peach_signature
digest_of hmac m secret_token digest = digest _

verify-put :
    (hmac : String → String → String) (m : Params) (secret_token : String)
    → get m "signature" ≡ none
    → ((t : String) → is_empty (hmac secret_token t) ≡ false)
    → verify_params hmac
        (put m "signature" (generate_peach_signature hmac m secret_token))
        secret_token
      ≡ true
unfolding verify_params
verify-put hmac m secret_token n digest =
    rw
      (
        verify_params,
        get-put_self m "signature" (generate_peach_signature hmac m secret_token),
        digest_of hmac m secret_token digest,
        without-put m (generate_peach_signature hmac m secret_token) n,
      )
      (eq_refl (generate_peach_signature hmac m secret_token))

module _ (encode : String → String) (decode : String → Option String)
    (encodes : Encodes encode decode) where
  abbrev part : String × String → String
  part p = text_append (encode (p.0)) (text_append "=" (encode (p.1)))

  parts-AllLack : (params : Params) → AllLack "&" (map_list part params)
  unfolding map_list has_char
  parts-AllLack [] = tt
  parts-AllLack ((k, v) ∷ params) = (
    has_char-append "&" (encode k) (text_append "=" (encode v)) (encodes.no_ampersand k)
        (has_char-append "&" "=" (encode v) refl (encodes.no_ampersand v)),
    parts-AllLack params,
  )

  parse-parts :
      (params result : Params)
      → parse_pairs decode (map_list part params) result ≡ some (put_all result params)
  unfolding parse_pairs map_list decode_pair
  parse-parts [] result = refl
  parse-parts ((k, v) ∷ params) result =
      rw
        (
          parse_pairs,
          cut-append "=" (encode k) (encode v) (encodes.no_equals k),
          decode_pair,
          encodes.inverse k,
          encodes.inverse v,
        )
        (parse-parts params (put result k v))

  -- A body is read as the properties that it was made of, set one after the other.
  parse-form_body :
      (params : Params)
      → params ≢ []
      → parse_form_body decode (form_body encode params) ≡ some (put_all [] params)
  unfolding parse_form_body form_body map_list
  parse-form_body [] ne = absurd (ne refl)
  parse-form_body (p ∷ params) ne =
      rw (split-join "&" (part p) (map_list part params) (parts-AllLack (p ∷ params)))
        (parse-parts (p ∷ params) [])

  -- The body of a checkout verifies with the secret that it was signed with, where no two parameters have one
  -- key, none is called `signature`, and a digest is never empty.
  pub signed-verifies :
      (hmac : String → String → String) (params : Params) (secret_token : String)
      → Distinct params
      → get params "signature" ≡ none
      → ((s t : String) → is_empty (hmac s t) ≡ false)
      → verify_peach_checkout_signature decode hmac
          (signed_form_body encode hmac params secret_token)
          secret_token
        ≡ some true
  unfolding verify_peach_checkout_signature signed_form_body
  signed-verifies hmac params secret_token d n digest =
      let signature = generate_peach_signature hmac params secret_token in
      rw
        (
          verify_peach_checkout_signature,
          parse-form_body (put params "signature" signature)
              (put_not_empty params "signature" signature),
          put_all-Distinct (put params "signature" signature)
              (Distinct-put params "signature" signature d n),
        )
        (ap some (verify-put hmac params secret_token n (λ t. digest secret_token t)))
