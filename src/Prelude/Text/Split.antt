-- ===== src/Prelude/Text/Split.antt =====
-- Splitting a text that was joined.
use Prim.Native.Char.{Char}
use Prim.Native.String.{String, [], ◌∷◌, ◌++◌}
use Prim.Native.String.append.{nil, cons}
use mathlib.Core.Path.{◌≡◌, refl, ap, ◌∙◌}
use mathlib.Core.Bool.{true, false}
use mathlib.Core.Option.{some}
use mathlib.Core.List.{List}
use native.Mathlib.Omega.{arith}
use gateway_orchestrator.Prelude.Text.{has_char, char_eq, split, cut, join}

-- The separator as a text.
abbrev pub text_of : Char → String
text_of sep = sep ∷ []

-- No part has the separator.
abbrev pub AllLack : Char → List String → Type 0
AllLack sep List.[] = Unit
AllLack sep (List.◌∷◌ p parts) = (has_char sep p ≡ false) × AllLack sep parts

char_eq_refl : (c : Char) → char_eq c c ≡ true
char_eq_refl c = ground arith

module _ (sep : Char) where
  first_lacks :
      (c : Char) (s : String)
      → has_char sep (c ∷ s) ≡ false
      → (char_eq c sep ≡ false) × (has_char sep s ≡ false)
  unfolding has_char
  first_lacks c s h = (ground arith, ground arith)

  pub cut-append :
      (key value : String)
      → has_char sep key ≡ false
      → cut sep (key ++ (text_of sep ++ value)) ≡ some (key, value)
  unfolding cut has_char
  cut-append [] value h =
      rw (nil (text_of sep ++ value), cons sep [] value, cut, char_eq_refl sep, nil value) refl
  cut-append (c ∷ key) value h =
      let (other, rest) = first_lacks c key h in
      rw (cons c key (text_of sep ++ value), cut, other, cut-append key value rest) refl

  pub has_char-append :
      (s t : String)
      → has_char sep s ≡ false
      → has_char sep t ≡ false
      → has_char sep (s ++ t) ≡ false
  unfolding has_char
  has_char-append [] t h g = rw (nil t) g
  has_char-append (c ∷ s) t h g =
      let (other, rest) = first_lacks c s h in
      rw (cons c s t, has_char, other) (has_char-append s t rest g)

  -- A text without the separator is one part,
  split-one : (s : String) → has_char sep s ≡ false → split sep s ≡ List.◌∷◌ s List.[]
  unfolding split has_char
  split-one [] h = refl
  split-one (c ∷ s) h = let (other, rest) = first_lacks c s h in rw (other, split-one s rest) refl

  -- and the first part before a separator.
  split-first :
      (s t : String)
      → has_char sep s ≡ false
      → split sep (s ++ (text_of sep ++ t)) ≡ List.◌∷◌ s (split sep t)
  unfolding split has_char
  split-first [] t h =
      rw (nil (text_of sep ++ t), cons sep [] t, split, char_eq_refl sep, nil t) refl
  split-first (c ∷ s) t h =
      let (other, rest) = first_lacks c s h in
      rw (cons c s (text_of sep ++ t), split, other, split-first s t rest) refl

  -- Parts that were joined by the separator are what the text is split into.
  pub split-join :
      (p : String) (parts : List String)
      → AllLack sep (List.◌∷◌ p parts)
      → split sep (join (text_of sep) (List.◌∷◌ p parts)) ≡ List.◌∷◌ p parts
  unfolding join
  split-join p List.[] (h, hs) = split-one p h
  split-join p (List.◌∷◌ q parts) (h, hs) =
      split-first p (join (text_of sep) (List.◌∷◌ q parts)) h
      ∙ ap (List.◌∷◌ p) (split-join q parts hs)
