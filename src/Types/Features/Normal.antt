-- ===== src/Types/Features/Normal.antt =====
-- What `normalize_runtime_optional_features` of src/openlinker/runtime/types.py returns.
use openlinker_python.Prelude.{
  ◌≡◌, refl, sym, ap, ◌∙◌, true, false, ◌||◌, List, [], ◌∷◌, map, Text, text_eq, nat_eq, ◌==◌,
  contains, All, arith, inl, inr, Bool-cases,
}
use openlinker_python.Json.{Json, str}
use openlinker_python.Errors.{ok, Result-cases}
use openlinker_python.Types.Features.{
  required_features, is_feature, text_leb, insert_text, sort_texts, check_features,
  normalize_runtime_optional_features,
}

-- Ascending, each text less than those behind it.
abbrev pub IsAscending : List Text → Type 0
IsAscending [] = Unit
IsAscending (t ∷ ts) = All (λ u. text_leb u t ≡ false) ts × IsAscending ts

pub text_leb_refl : (t : Text) → text_leb t t ≡ true
unfolding text_leb
text_leb_refl [] = refl
text_leb_refl (c ∷ t) = ground (arith, text_leb_refl t)

text_leb_antisym : (s t : Text) → text_leb s t ≡ true → text_leb t s ≡ true → s ≡ t
unfolding text_leb
text_leb_antisym [] [] h k = refl
text_leb_antisym [] (b ∷ t) h k = cc
text_leb_antisym (a ∷ s) [] h k = cc
text_leb_antisym (a ∷ s) (b ∷ t) h k = ground (arith, text_leb_antisym s t)

text_leb_total : (s t : Text) → text_leb s t ≡ false → text_leb t s ≡ true
unfolding text_leb
text_leb_total [] t h = cc
text_leb_total (a ∷ s) [] h = refl
text_leb_total (a ∷ s) (b ∷ t) h = ground (arith, text_leb_total s t)

text_leb_trans : (s t u : Text) → text_leb s t ≡ true → text_leb t u ≡ true → text_leb s u ≡ true
unfolding text_leb
text_leb_trans [] t u h k = refl
text_leb_trans (a ∷ s) [] u h k = cc
text_leb_trans (a ∷ s) (b ∷ t) [] h k = cc
text_leb_trans (a ∷ s) (b ∷ t) (c ∷ u) h k = ground (arith, text_leb_trans s t u)

contains-insert_text :
    (t u : Text) (ts : List Text) → contains (insert_text t ts) u ≡ (u == t || contains ts u)
unfolding contains insert_text
contains-insert_text t u [] = refl
contains-insert_text t u (x ∷ ts) = ground (arith, contains-insert_text t u ts)

contains-sort_texts : (u : Text) (ts : List Text) → contains (sort_texts ts) u ≡ contains ts u
unfolding contains sort_texts
contains-sort_texts u [] = refl
contains-sort_texts u (t ∷ ts) =
    ground (arith, contains-insert_text t u (sort_texts ts), contains-sort_texts u ts)

All-insert_text :
    (P : Text → Type 0) (t : Text) (ts : List Text) → P t → All P ts → All P (insert_text t ts)
unfolding insert_text
All-insert_text P t [] h k = (h, tt)
All-insert_text P t (u ∷ us) h k = elim (Bool-cases (text_leb t u)) [
  | inl e ↦ rw (e, insert_text) (h, k)
  | inr e ↦ rw (e, insert_text) (k.0, All-insert_text P t us h k.1)
]

above_trans :
    (t u : Text) (us : List Text)
    → text_leb t u ≡ true
    → All (λ v. text_leb v u ≡ false) us
    → All (λ v. text_leb v t ≡ false) us
above_trans t u [] h k = tt
above_trans t u (v ∷ us) h k = (ground (arith, text_leb_trans v t u), above_trans t u us h k.1)

insert_text-IsAscending :
    (t : Text) (ts : List Text)
    → contains ts t ≡ false
    → IsAscending ts
    → IsAscending (insert_text t ts)
unfolding insert_text contains
insert_text-IsAscending t [] new a = (tt, tt)
insert_text-IsAscending t (u ∷ us) new a = elim (Bool-cases (text_leb t u)) [
  | inl e ↦
      let first : text_leb u t ≡ false =
        ground (arith, text_leb_antisym t u, text_eq.same_iff t u) in
      rw (e, insert_text) ((first, above_trans t u us e a.0), a)
  | inr e ↦
      rw (e, insert_text)
        (
          All-insert_text (λ v. text_leb v u ≡ false) t us e a.0,
          insert_text-IsAscending t us (ground arith) a.1,
        )
]

abbrev Distinct : List Text → Type 0
Distinct [] = Unit
Distinct (t ∷ ts) = (contains ts t ≡ false) × Distinct ts

sort_texts-IsAscending : (ts : List Text) → Distinct ts → IsAscending (sort_texts ts)
unfolding sort_texts
sort_texts-IsAscending [] d = tt
sort_texts-IsAscending (t ∷ ts) d =
    insert_text-IsAscending t (sort_texts ts) (contains-sort_texts t ts ∙ d.0)
      (sort_texts-IsAscending ts d.1)

-- the texts that the loop accepts: features, none of them seen, none of them twice
record Accepted (seen : List Text) (vs : List Json) (fs : List Text) : Type 0 where
  same : vs ≡ map str fs
  features : (f : Text) → contains fs f ≡ true → is_feature f ≡ true
  unseen : (f : Text) → contains fs f ≡ true → contains seen f ≡ false
  distinct : Distinct fs

check_features-Accepted :
    (seen : List Text) (vs : List Json) (fs : List Text)
    → check_features seen vs ≡ ok fs
    → Accepted seen vs fs
unfolding check_features contains
check_features-Accepted seen [] fs h =
    let none_left : [] ≡ fs = ground arith in
    rw (← none_left)
      (record { same = refl; features = λ f m. cc; unseen = λ f m. cc; distinct = tt })
check_features-Accepted seen (str g ∷ vs) fs h =
    elim (Result-cases (check_features (g ∷ seen) vs)) [
      | inr (e, q) ↦ absurd (ground arith)
      | inl (gs, q) ↦
          let good : is_feature g ≡ true = ground arith in
          let new : contains seen g ≡ false = ground arith in
          let split : g ∷ gs ≡ fs = ground arith in
          let rest = check_features-Accepted (g ∷ seen) vs gs q in
          rw (← split) (record {
            same = ap (◌∷◌ (str g)) rest.same;
            features = λ f m. ground (arith, rest.features f, text_eq.same_iff f g);
            unseen = λ f m. ground (arith, rest.unseen f, text_eq.same_iff f g);
            distinct = (ground (arith, rest.unseen g, text_eq.same_iff g g), rest.distinct);
          })
    ]
check_features-Accepted seen (_ ∷ vs) fs h = absurd (ground arith)

-- The optional features that are returned are those given, sorted, without a double; each has the form
-- of a feature and none is a required one.
pub normalize_runtime_optional_features-IsAscending :
    (features : List Json) (out : List Text)
    → normalize_runtime_optional_features features ≡ ok out
    → IsAscending out
      × ((f : Text)
          → contains out f ≡ true
          → (is_feature f ≡ true) × (contains required_features f ≡ false))
      × (given : List Text) × (features ≡ map str given)
      × ((f : Text) → contains out f ≡ contains given f)
unfolding normalize_runtime_optional_features
normalize_runtime_optional_features-IsAscending features out h =
    elim (Result-cases (check_features required_features features)) [
      | inr (e, q) ↦ absurd (ground arith)
      | inl (fs, q) ↦
          let a = check_features-Accepted required_features features fs q in
          let sorted : sort_texts fs ≡ out = ground arith in
          rw (← sorted) (
            sort_texts-IsAscending fs a.distinct,
            λ f m.
                let there : contains fs f ≡ true = sym (contains-sort_texts f fs) ∙ m in
                (a.features f there, a.unseen f there),
            fs,
            a.same,
            λ f. contains-sort_texts f fs,
          )
    ]
