-- ===== src/Providers/Payu/Xml/Reads.antt =====
-- Text that `escapeXml` of src/providers/payu/payu.xml.ts writes into an element, read back by `readTag`.
use Prim.Native.Char.{Char}
use Prim.Native.String.{String, [], ◌∷◌, ◌++◌}
use Prim.Native.String.append.{nil, cons}
use mathlib.Core.Bool.{Bool, true, false, ◌||◌}
use mathlib.Core.Option.{some}
use gateway_orchestrator.Prelude.{◌≡◌, refl, arith, Bool-cases, inl, inr}
use gateway_orchestrator.Prelude.Text.{char_eq}
use gateway_orchestrator.Providers.Payu.Xml.{
  replace_char, escape_xml, same_letter, is_line_end, behind, read_to, read_from, open_tag,
  close_tag, read_tag,
}

-- Whether a character of a text passes a test.
unfoldable pub has_where : (Char → Bool) → String → Bool
has_where p [] = false
has_where p (c ∷ s) = p c || has_where p s

-- What a text that is read back does not have.
abbrev pub breaks : Char → Bool
breaks c = char_eq c "<" || is_line_end c

module _ (p : Char → Bool) where
  first_passes_not :
      (c : Char) (s : String)
      → has_where p (c ∷ s) ≡ false
      → (p c ≡ false) × (has_where p s ≡ false)
  unfolding has_where
  first_passes_not c s h = (ground arith, ground arith)

  has_where-append :
      (s t : String) → has_where p s ≡ false → has_where p t ≡ false → has_where p (s ++ t) ≡ false
  unfolding has_where
  has_where-append [] t h g = rw (nil t) g
  has_where-append (c ∷ s) t h g =
      let (other, rest) = first_passes_not c s h in
      rw (cons c s t, has_where, other) (has_where-append s t rest g)

  has_where-replace_char :
      (sep : Char) (text s : String)
      → has_where p text ≡ false
      → has_where p s ≡ false
      → has_where p (replace_char sep text s) ≡ false
  unfolding has_where replace_char
  has_where-replace_char sep text [] h g = refl
  has_where-replace_char sep text (c ∷ s) h g =
      let (other, rest) = first_passes_not c s g in
      let replaced = has_where-replace_char sep text s h rest in
      elim (Bool-cases (char_eq c sep)) [
        | inl e ↦ rw (replace_char, e) (has_where-append text (replace_char sep text s) h replaced)
        | inr e ↦ rw (replace_char, e, has_where, other) replaced
      ]

without_angle :
    (text s : String)
    → has_where breaks text ≡ false
    → has_where is_line_end s ≡ false
    → has_where breaks (replace_char "<" text s) ≡ false
unfolding has_where replace_char
without_angle text [] h g = refl
without_angle text (c ∷ s) h g =
    let (other, rest) = first_passes_not is_line_end c s g in
    let replaced = without_angle text s h rest in
    elim (Bool-cases (char_eq c "<")) [
      | inl e ↦
          rw (replace_char, e) (has_where-append breaks text (replace_char "<" text s) h replaced)
      | inr e ↦ rw (replace_char, e, has_where, e, other) replaced
    ]

escaped : (v : String) → has_where is_line_end v ≡ false → has_where breaks (escape_xml v) ≡ false
unfolding escape_xml has_where
escaped v h =
    let amp = replace_char "&" "&amp;" v in
    let angle = replace_char "<" "&lt;" amp in
    let both = replace_char ">" "&gt;" angle in
    let quotes = replace_char "\"" "&quot;" both in
    has_where-replace_char breaks "'" "&apos;" quotes refl (
      has_where-replace_char breaks "\"" "&quot;" both refl (
        has_where-replace_char breaks ">" "&gt;" angle refl (
          without_angle "&lt;" amp refl (has_where-replace_char is_line_end "&" "&amp;" v refl h))))

same_letter_refl : (c : Char) → same_letter c c ≡ true
same_letter_refl c = ground arith

behind-append : (p s : String) → behind p (p ++ s) ≡ some s
unfolding behind
behind-append [] s = rw (nil s) refl
behind-append (c ∷ p) s = rw (cons c p s, behind, same_letter_refl c) (behind-append p s)

-- A character that is read is not the first of a tag, and not the end of a line.
read_char :
    (c : Char)
    → breaks c ≡ false
    → (same_letter "<" c ≡ false) × (same_letter c "<" ≡ false) × (is_line_end c ≡ false)
read_char c h = (ground arith, ground arith, ground arith)

read_to-append :
    (p v rest : String)
    → has_where breaks v ≡ false
    → read_to ("<" ∷ p) (v ++ (("<" ∷ p) ++ rest)) ≡ some v
unfolding read_to has_where behind
read_to-append p [] rest h =
    rw (nil (("<" ∷ p) ++ rest), cons "<" p rest, read_to, behind, behind-append p rest) refl
read_to-append p (c ∷ v) rest h =
    let (other, after) = first_passes_not breaks c v h in
    let (before, behind_it, same_line) = read_char c other in
    rw
      (
        cons c v (("<" ∷ p) ++ rest),
        read_to,
        behind,
        behind_it,
        same_line,
        read_to-append p v rest after,
      )
      refl

-- The first element of a text is read where it closes on its line.
read_from-append :
    (start p v rest : String)
    → has_where breaks v ≡ false
    → read_from ("<" ∷ start) ("<" ∷ p) (("<" ∷ start) ++ (v ++ (("<" ∷ p) ++ rest))) ≡ some v
unfolding read_from behind
read_from-append start p v rest h =
    let inside = v ++ (("<" ∷ p) ++ rest) in
    rw
      (
        cons "<" start inside,
        read_from,
        behind,
        behind-append start inside,
        read_to-append p v rest h,
      )
      refl

-- A value of one line that is written escaped into an element is read back as it was escaped, whatever text stands
-- behind the element.
pub read_tag-escape_xml :
    (tag_name value rest : String)
    → has_where is_line_end value ≡ false
    → read_tag (open_tag tag_name ++ (escape_xml value ++ (close_tag tag_name ++ rest))) tag_name
      ≡ some (escape_xml value)
unfolding read_tag
read_tag-escape_xml tag_name value rest h =
    read_from-append (tag_name ++ ">") ("/" ∷ (tag_name ++ ">")) (escape_xml value) rest
      (escaped value h)
