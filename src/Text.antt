-- ===== src/Text.antt =====
-- Operations of Python's `str` on code points.
use openlinker_python.Prelude.{
  ℕ, zero, suc, ◌+◌, ◌-◌, ◌/◌, ◌%◌, Bool, true, false, ◌&&◌, ◌||◌, List, [], ◌∷◌, ◌++◌, leb, ltb,
  ◌==◌, nat_eq, if◌then◌else◌, Text, length,
}

-- `c.isspace()`
unfoldable pub is_space : ℕ → Bool
is_space c =
    (leb 9 c && leb c 13)
    || (leb 28 c && leb c 32)
    || c == 0x85
    || c == 0xA0
    || c == 0x1680
    || (leb 0x2000 c && leb c 0x200A)
    || c == 0x2028
    || c == 0x2029
    || c == 0x202F
    || c == 0x205F
    || c == 0x3000

unfoldable pub strip_left : Text → Text
strip_left [] = []
strip_left (c ∷ t) = elim (is_space c) [ true ↦ strip_left t | false ↦ c ∷ t ]

-- What is left without the spaces at the end.
unfoldable pub strip_right : Text → Text
strip_right [] = []
strip_right (c ∷ t) = elim (strip_right t) [
  | [] ↦ if is_space c then [] else c ∷ []
  | d ∷ u ↦ c ∷ d ∷ u
]

-- `s.strip()`
unfoldable pub strip : Text → Text
strip t = strip_right (strip_left t)

-- `not s`
abbrev pub is_empty {ℓ} : {A : Type ℓ} → List A → Bool
is_empty [] = true
is_empty (x ∷ xs) = false

-- `s.startswith(prefix)`
unfoldable pub starts_with : Text → Text → Bool
starts_with s [] = true
starts_with [] (c ∷ q) = false
starts_with (a ∷ s) (c ∷ q) = a == c && starts_with s q

-- `str(n)` of a natural number; the fuel is at least the number of digits
unfoldable pub digits_of : ℕ → ℕ → Text
digits_of zero n = []
digits_of (suc fuel) n =
    let more = digits_of fuel (n / 10) ++ (n % 10 + 48) ∷ [] in
    if ltb n 10 then (n + 48) ∷ [] else more

unfoldable pub nat_text : ℕ → Text
nat_text n = digits_of (suc n) n

-- `s.replace(old, new)` for an old text that is not empty, with the characters to skip
unfoldable pub replace_from : Text → Text → ℕ → Text → Text
replace_from old new skip [] = []
replace_from old new (suc skip) (c ∷ t) = replace_from old new skip t
replace_from old new zero (c ∷ t) = elim (starts_with (c ∷ t) old) [
  | true ↦ new ++ replace_from old new (length old - 1) t
  | false ↦ c ∷ replace_from old new zero t
]

unfoldable pub replace : Text → Text → Text → Text
unfolding replace_from starts_with
replace s old new = replace_from old new 0 s

-- `s.split(c)`
unfoldable pub split_at : ℕ → Text → List Text
split_at c [] = [] ∷ []
split_at c (d ∷ t) = elim (d == c) [
  | true ↦ [] ∷ split_at c t
  | false ↦ elim (split_at c t) [ [] ↦ [] | p ∷ ps ↦ (d ∷ p) ∷ ps ]
]

-- `s.lower()`, on ASCII letters
unfoldable pub lower : Text → Text
lower [] = []
lower (c ∷ t) = (if leb b'A' c && leb c b'Z' then c + 32 else c) ∷ lower t
