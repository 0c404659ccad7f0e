-- ===== src/Providers/Payu/Xml.antt =====
-- src/providers/payu/payu.xml.ts. The expression of `readTag` is read as its match, of tags that are ASCII words.
pub mod Reads
use Prim.Native.Char.{Char, code}
use Prim.Native.String
use Prim.Native.String.{String, [], ◌∷◌}
use mathlib.Core.Bool.{Bool, ◌||◌, ◌&&◌}
use mathlib.Core.Option.{Option, none, some, map}
use gateway_orchestrator.Prelude.{ℕ, ◌+◌, ◌≡◌, refl, if◌then◌else◌, leb, nat_eq}
use gateway_orchestrator.Prelude.Text.{char_eq}

-- `value.replace(/c/g, text)`, of one character.
unfoldable pub replace_char : Char → String → String → String
replace_char sep text [] = []
replace_char sep text (c ∷ s) =
    let rest = replace_char sep text s in if char_eq c sep then String.◌++◌ text rest else c ∷ rest

unfoldable pub escape_xml : String → String
unfolding replace_char
escape_xml value = replace_char "'" "&apos;" (
    replace_char "\"" "&quot;"
      (replace_char ">" "&gt;" (replace_char "<" "&lt;" (replace_char "&" "&amp;" value))))

-- A letter without its case, which the flag `i` does not look at.
abbrev pub fold_case : ℕ → ℕ
fold_case n = if leb 65 n && leb n 90 then n + 32 else n

abbrev pub same_letter : Char → Char → Bool
same_letter c d = nat_eq (fold_case (code c)) (fold_case (code d))

-- The line terminators, which `.` does not match.
abbrev pub is_line_end : Char → Bool
is_line_end c =
    nat_eq (code c) 10 || nat_eq (code c) 13 || nat_eq (code c) 0x2028 || nat_eq (code c) 0x2029

-- The text behind a prefix in any case.
unfoldable pub behind : String → String → Option String
behind [] s = some s
behind (d ∷ p) [] = none
behind (d ∷ p) (c ∷ s) = let rest = behind p s in if same_letter c d then rest else none

-- `(.*?)` and the text behind it: the shortest text before `close`, on one line.
unfoldable pub read_to : String → String → Option String
unfolding behind
read_to close [] = none
read_to close (c ∷ s) =
    let rest = read_to close s in
    elim (behind close (c ∷ s)) [
      | some after ↦ some []
      | none ↦ (if is_line_end c then none else map (λ t. c ∷ t) rest)
    ]

-- The first place where the expression matches.
unfoldable pub read_from : String → String → String → Option String
unfolding behind read_to
read_from start close [] = none
read_from start close (c ∷ s) =
    let later = read_from start close s in
    elim (behind start (c ∷ s)) [
      | none ↦ later
      | some inside ↦ elim (read_to close inside) [ none ↦ later | some value ↦ some value ]
    ]

abbrev pub open_tag : String → String
open_tag tag_name = "<" ∷ String.◌++◌ tag_name ">"

abbrev pub close_tag : String → String
close_tag tag_name = "<" ∷ ("/" ∷ String.◌++◌ tag_name ">")

unfoldable pub read_tag : String → String → Option String
unfolding read_from
read_tag xml tag_name = read_from (open_tag tag_name) (close_tag tag_name) xml

reads : read_tag "<a><Ref>x<y</REF></a></ref>" "ref" ≡ some "x<y"
unfolding read_tag
reads = refl

escapes : escape_xml "a<'&'" ≡ "a&lt;&apos;&amp;&apos;"
unfolding escape_xml
escapes = refl
