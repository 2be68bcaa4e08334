-- ===== src/Types/Features.antt =====
-- The features of a runtime in src/openlinker/runtime/types.py: `RUNTIME_REQUIRED_FEATURES` and
-- `normalize_runtime_optional_features`.
pub mod Normal
use openlinker_python.Prelude.{
  ℕ, Bool, true, false, not, ◌&&◌, ◌||◌, List, [], ◌∷◌, Text, text, text_eq, nat_eq, ◌==◌, ltb, leb,
  if◌then◌else◌, contains, all_of, length,
}
use openlinker_python.Json.{Json, str}
use openlinker_python.Errors.{Result, ok, err, invalid_value}

unfoldable pub required_features : List Text
required_features =
    text "lease_fence"
    ∷ text "assignment_confirm"
    ∷ text "renew"
    ∷ text "resume"
    ∷ text "event_ack"
    ∷ text "result_ack"
    ∷ text "cancel"
    ∷ text "persistent_spool"
    ∷ text "session_drain"
    ∷ []

abbrev pub is_lower : ℕ → Bool
is_lower c = leb b'a' c && leb c b'z'

abbrev pub is_lower_or_digit : ℕ → Bool
is_lower_or_digit c = is_lower c || (leb b'0' c && leb c b'9')

abbrev is_name_char : ℕ → Bool
is_name_char c = is_lower_or_digit c || c == b'_' || c == b'.' || c == b'-'

-- `re.fullmatch(r"[a-z0-9][a-z0-9_.-]{0,99}", feature)`
unfoldable pub is_feature : Text → Bool
is_feature [] = false
is_feature (c ∷ t) = is_lower_or_digit c && all_of is_name_char t && leb (length t) 99

-- the order of `str`, by code points
unfoldable pub text_leb : Text → Text → Bool
text_leb [] t = true
text_leb (a ∷ s) [] = false
text_leb (a ∷ s) (b ∷ t) = ltb a b || (a == b && text_leb s t)

unfoldable pub insert_text : Text → List Text → List Text
insert_text t [] = t ∷ []
insert_text t (u ∷ us) =
    let rest = insert_text t us in if text_leb t u then t ∷ u ∷ us else u ∷ rest

-- `sorted(texts)`
unfoldable pub sort_texts : List Text → List Text
unfolding insert_text
sort_texts [] = []
sort_texts (t ∷ ts) = insert_text t (sort_texts ts)

-- the loop, with the features seen
unfoldable pub check_features : List Text → List Json → Result (List Text)
check_features seen [] = ok []
check_features seen (str f ∷ vs) =
    let rest = check_features (f ∷ seen) vs in
    if is_feature f
    then (if contains seen f
        then err invalid_value
        else elim rest [ err e ↦ err e | ok fs ↦ ok (f ∷ fs) ])
    else err invalid_value
check_features seen (_ ∷ vs) = err invalid_value

-- `normalize_runtime_optional_features` of a list
unfoldable pub normalize_runtime_optional_features : List Json → Result (List Text)
normalize_runtime_optional_features features = elim (check_features required_features features) [
  | err e ↦ err e
  | ok fs ↦ ok (sort_texts fs)
]
