-- ===== src/Json/Convert.antt =====
-- Python's `str` and `int` on a JSON value.
use openlinker_python.Prelude.{
  ℕ, zero, suc, ◌+◌, ◌*◌, ◌-◌, Bool, true, false, ◌&&◌, [], ◌∷◌, leb, ◌==◌, nat_eq, if◌then◌else◌,
  Text, text, Option, none, some, ℤ, pos, negsuc,
}
use openlinker_python.Text.{strip, nat_text, digits_of}
use openlinker_python.Json.{Json, null, bool, int, str, arr, obj}
use openlinker_python.Platform.{Platform}

unfoldable pub int_text : ℤ → Text
unfolding nat_text digits_of
int_text (pos n) = nat_text n
int_text (negsuc n) = b'-' ∷ nat_text (n + 1)

-- `str(value)`
unfoldable pub str_of : ⦃p : Platform⦄ → Json → Text
unfolding int_text
str_of null = text "None"
str_of (bool b) = if b then text "True" else text "False"
str_of (int n) = int_text n
str_of (str s) = s
str_of ⦃p⦄ (arr xs) = p.repr (arr xs)
str_of ⦃p⦄ (obj fs) = p.repr (obj fs)

abbrev is_digit : ℕ → Bool
is_digit c = leb b'0' c && leb c b'9'

-- Decimal digits, with single underscores between them; `fresh` after an underscore or at the start.
read_digits : Bool → ℕ → Text → Option ℕ
read_digits fresh n [] = if fresh then none else some n
read_digits true n (c ∷ t) = elim (is_digit c) [
  | true ↦ read_digits false (n * 10 + (c - b'0')) t
  | false ↦ none
]
read_digits false n (c ∷ t) = elim (is_digit c) [
  | true ↦ read_digits false (n * 10 + (c - b'0')) t
  | false ↦ elim (c == b'_') [ true ↦ read_digits true n t | false ↦ none ]
]

negate : ℕ → ℤ
negate zero = pos zero
negate (suc n) = negsuc n

signed : Text → Option ℤ
unfolding read_digits negate
signed [] = none
signed (c ∷ t) =
    if c == b'-'
    then elim (read_digits true 0 t) [ none ↦ none | some n ↦ some (negate n) ]
    else if c == b'+'
    then elim (read_digits true 0 t) [ none ↦ none | some n ↦ some (pos n) ]
    else elim (read_digits true 0 (c ∷ t)) [ none ↦ none | some n ↦ some (pos n) ]

-- `int(value)`; `none` stands for a TypeError or a ValueError. The digits are ASCII.
unfoldable pub int_of : Json → Option ℤ
unfolding signed
int_of (bool b) = some (if b then pos 1 else pos 0)
int_of (int n) = some n
int_of (str s) = signed (strip s)
int_of _ = none
