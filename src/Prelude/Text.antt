-- ===== src/Prelude/Text.antt =====
-- JavaScript's string methods: `trim`, over the white space and line terminators of the language,
-- and the truth value of an optional string.
pub mod Split
use Prim.Native.Nat.{ℕ, zero, suc, ◌+◌, ◌-◌, ◌/◌, ◌%◌}
use Prim.Native.Char.{Char, code}
use Prim.Native.String
use Prim.Native.String.{String, [], ◌∷◌}
use mathlib.Core.Path.{◌≡◌, refl}
use mathlib.Core.Bool.{Bool, true, false, ◌||◌, ◌&&◌}
use mathlib.Core.Option.{Option, none, some, map}
use mathlib.Core.List.{List}
use gateway_orchestrator.Prelude.Tests.{leb, nat_eq, coalesce, if◌then◌else◌}

-- A template literal, from its parts.
abbrev pub template : List String → String
template List.[] = []
template (List.◌∷◌ s parts) = String.◌++◌ s (template parts)

-- `s.length === 0`
unfoldable pub is_empty : String → Bool
is_empty [] = true
is_empty (c ∷ s) = false

-- `if (s)` on an optional string: `undefined` and `''` are false.
unfoldable pub truthy : Option String → Bool
unfolding is_empty
truthy none = false
truthy (some []) = false
truthy (some (c ∷ s)) = true

abbrev is_between : ℕ → ℕ → ℕ → Bool
is_between lo hi n = leb lo n && leb n hi

is_space : ℕ → Bool
is_space n =
    is_between 9 13 n
    || nat_eq n 32
    || nat_eq n 160
    || nat_eq n 0x1680
    || is_between 0x2000 0x200a n
    || is_between 0x2028 0x2029 n
    || nat_eq n 0x202f
    || nat_eq n 0x205f
    || nat_eq n 0x3000
    || nat_eq n 0xfeff

trim_start : String → String
trim_start [] = []
trim_start (c ∷ s) = let rest = trim_start s in if is_space (code c) then rest else c ∷ s

trim_end : String → String
trim_end [] = []
trim_end (c ∷ s) =
    let rest = trim_end s in if is_empty rest && is_space (code c) then [] else c ∷ rest

unfoldable pub trim : String → String
unfolding trim_start trim_end is_space is_empty
trim s = trim_end (trim_start s)

trims : trim "\t key 1 " ≡ "key 1"
unfolding trim
trims = refl

-- Whether two characters are the same.
abbrev pub char_eq : Char → Char → Bool
char_eq c d = nat_eq (code c) (code d)

-- `s.startsWith(prefix)`
unfoldable pub starts_with : String → String → Bool
starts_with s [] = true
starts_with [] (d ∷ p) = false
starts_with (c ∷ s) (d ∷ p) = char_eq c d && starts_with s p

-- `s.includes(part)`
unfoldable pub has_part : String → String → Bool
unfolding starts_with
has_part [] part = starts_with [] part
has_part (c ∷ s) part = starts_with (c ∷ s) part || has_part s part

-- `s.includes(c)`, of one character.
unfoldable pub has_char : Char → String → Bool
has_char sep [] = false
has_char sep (c ∷ s) = char_eq c sep || has_char sep s

abbrev prepend : Char → List String → List String
prepend c List.[] = List.◌∷◌ (c ∷ []) List.[]
prepend c (List.◌∷◌ p parts) = List.◌∷◌ (c ∷ p) parts

-- `s.split(c)`, of one character.
unfoldable pub split : Char → String → List String
split sep [] = List.◌∷◌ [] List.[]
split sep (c ∷ s) =
    let rest = split sep s in if char_eq c sep then List.◌∷◌ [] rest else prepend c rest

-- The texts before and behind the first `c`.
unfoldable pub cut : Char → String → Option (String × String)
cut sep [] = none
cut sep (c ∷ s) =
    if char_eq c sep then some ([], s) else map (λ parts. (c ∷ parts.0, parts.1)) (cut sep s)

-- The code units of UTF-16, which `length` and `slice` count, of a character.
abbrev units : ℕ → ℕ
units n = if leb 0x10000 n then 2 else 1

-- `s.length`
unfoldable pub text_length : String → ℕ
text_length [] = 0
text_length (c ∷ s) = units (code c) + text_length s

-- `s.slice(0, n)`. A surrogate pair that the end would split is left out.
unfoldable pub slice_to : ℕ → String → String
slice_to n [] = []
slice_to n (c ∷ s) =
    let rest = slice_to (n - units (code c)) s in if leb (units (code c)) n then c ∷ rest else []

-- `parts.join(separator)`
unfoldable pub join : String → List String → String
join separator List.[] = ""
join separator (List.◌∷◌ s List.[]) = s
join separator (List.◌∷◌ s (List.◌∷◌ t parts)) =
    String.◌++◌ s (String.◌++◌ separator (join separator (List.◌∷◌ t parts)))

digit : ℕ → String
digit n =
    if nat_eq n 0
    then "0"
    else if nat_eq n 1
    then "1"
    else if nat_eq n 2
    then "2"
    else if nat_eq n 3
    then "3"
    else if nat_eq n 4
    then "4"
    else if nat_eq n 5
    then "5"
    else if nat_eq n 6
    then "6"
    else if nat_eq n 7
    then "7"
    else if nat_eq n 8
    then "8"
    else "9"

-- The digits of a number that has no more than `fuel` behind the first.
decimal_on : ℕ → ℕ → String
decimal_on zero n = digit (n % 10)
decimal_on (suc fuel) n =
    let before = decimal_on fuel (n / 10) in
    if leb 10 n then String.◌++◌ before (digit (n % 10)) else digit n

-- `${n}`, of a natural number, which has at most 21 digits where it is not written with an exponent.
unfoldable pub decimal : ℕ → String
unfolding decimal_on digit
decimal n = decimal_on 20 n

-- `amount.toFixed(2)`, of a natural number.
unfoldable pub to_fixed : ℕ → String
unfolding decimal
to_fixed n = String.◌++◌ (decimal n) ".00"

-- `s.replace(/c/g, '')`, of one character.
unfoldable pub without_char : Char → String → String
without_char sep [] = []
without_char sep (c ∷ s) = let rest = without_char sep s in if char_eq c sep then rest else c ∷ rest

-- `s.replace(/c$/, '')`, of one character.
unfoldable pub without_last : Char → String → String
without_last sep [] = []
without_last sep (c ∷ s) =
    let rest = without_last sep s in if is_empty s && char_eq c sep then [] else c ∷ rest

-- The text behind a prefix, and the text itself if it does not begin with that.
unfoldable pub without_prefix : String → String → String
without_prefix s p = coalesce (go s p) s
  where
    go : String → String → Option String
    go s [] = some s
    go [] (d ∷ p) = none
    go (c ∷ s) (d ∷ p) = let rest = go s p in if char_eq c d then rest else none

joins : join ", " (List.◌∷◌ (decimal 503) (List.◌∷◌ (slice_to 2 "abc") List.[])) ≡ "503, ab"
unfolding join decimal slice_to
joins = refl
