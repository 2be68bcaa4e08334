-- ===== src/Types/Time.antt =====
-- `parse_datetime` and `format_datetime` of src/openlinker/runtime/types.py. An aware `datetime` is the
-- number of microseconds of its time at UTC.
use openlinker_python.Prelude.{
  ℕ, ◌≡◌, refl, false, ◌||◌, [], ◌∷◌, ◌++◌, none, some, Text, text, All, arith, ◌==◌, nat_eq,
}
use openlinker_python.Json.{Json, str}
use openlinker_python.Text.{replace}
use openlinker_python.Platform.{Platform}
use openlinker_python.Errors.{Result, ok, err, bad_timestamp}

module _ ⦃p : Platform⦄ where
  abbrev read_iso : Text → Result ℕ
  read_iso [] = err bad_timestamp
  read_iso (c ∷ t) = elim (p.fromisoformat (replace (c ∷ t) (text "Z") (text "+00:00"))) [
    | none ↦ err bad_timestamp
    | some none ↦ err bad_timestamp
    | some (some time) ↦ ok time
  ]

  unfoldable pub parse_datetime : Json → Result ℕ
  unfolding replace
  parse_datetime (str t) = read_iso t
  parse_datetime _ = err bad_timestamp

  unfoldable pub format_datetime : ℕ → Text
  unfolding replace
  format_datetime t = replace (p.stamp t ++ text "+00:00") (text "+00:00") (text "Z")

-- Without a `+` there is nothing to replace before the offset.
replace-offset :
    (s : Text)
    → All (λ c. (c == b'+' || c == b'Z') ≡ false) s
    → replace (s ++ text "+00:00") (text "+00:00") (text "Z") ≡ s ++ text "Z"
unfolding replace
replace-offset [] h = refl
replace-offset (c ∷ s) h = ground (arith, replace-offset s h.1)

replace-zulu :
    (s : Text)
    → All (λ c. (c == b'+' || c == b'Z') ≡ false) s
    → replace (s ++ text "Z") (text "Z") (text "+00:00") ≡ s ++ text "+00:00"
unfolding replace
replace-zulu [] h = refl
replace-zulu (c ∷ s) h = ground (arith, replace-zulu s h.1)

module _ ⦃p : Platform⦄ where
  read_iso-zulu :
      (s : Text) (t : ℕ)
      → All (λ c. (c == b'+' || c == b'Z') ≡ false) s
      → p.fromisoformat (s ++ text "+00:00") ≡ some (some t)
      → read_iso (s ++ text "Z") ≡ ok t
  unfolding replace
  read_iso-zulu [] t h e = rw e
  read_iso-zulu (c ∷ s) t h e = rw (replace-zulu (c ∷ s) h, e) refl

  -- A formatted time is parsed as the same time.
  pub parse_datetime-format_datetime : (t : ℕ) → parse_datetime (str (format_datetime t)) ≡ ok t
  unfolding parse_datetime format_datetime
  parse_datetime-format_datetime t =
      rw (replace-offset (p.stamp t) (p.stamp_plain t))
        (read_iso-zulu (p.stamp t) t (p.stamp_plain t) (p.fromisoformat-stamp t))
