-- ===== src/Types/Messages/Echo.antt =====
-- The hello of src/openlinker/runtime/types.py against the ready response: what a worker announces has
-- the form that `RuntimeReady.from_dict` asks of the answer.
use openlinker_python.Prelude.{
  ◌≡◌, refl, true, false, ◌&&◌, ◌||◌, List, [], ◌∷◌, ◌++◌, Text, text_eq, nat_eq, contains, all_of,
  arith, All, inl, inr, text_beq, leb, length,
}
use openlinker_python.Json.{Json, str}
use openlinker_python.Errors.{ok, Result-cases}
use openlinker_python.Types.Checks.{require_uuid}
use openlinker_python.Types.Features.{
  required_features, text_leb, normalize_runtime_optional_features,
}
use openlinker_python.Types.Features.Normal.{
  IsAscending, text_leb_refl, normalize_runtime_optional_features-IsAscending,
}
use openlinker_python.Types.Messages.{all_distinct, hello_features, RuntimeReady, check_ready}

contains-append :
    (u : Text) (ss ts : List Text) → contains (ss ++ ts) u ≡ (contains ss u || contains ts u)
unfolding contains
contains-append u [] ts = refl
contains-append u (s ∷ ss) ts = ground (arith, contains-append u ss ts)

not_above : (t : Text) (ts : List Text) → All (λ u. text_leb u t ≡ false) ts → contains ts t ≡ false
unfolding contains
not_above t [] h = refl
not_above t (u ∷ ts) h = ground (arith, not_above t ts h.1, text_leb_refl t, text_eq.same_iff t u)

all_distinct-ascending : (ts : List Text) → IsAscending ts → all_distinct ts ≡ true
unfolding all_distinct
all_distinct-ascending [] a = refl
all_distinct-ascending (t ∷ ts) a =
    ground (arith, not_above t ts a.0, all_distinct-ascending ts a.1)

-- Lists without a common text that are distinct each are distinct together.
all_distinct-append :
    (ss ts : List Text)
    → all_distinct ss ≡ true
    → all_distinct ts ≡ true
    → ((u : Text) → contains ts u ≡ true → contains ss u ≡ false)
    → all_distinct (ss ++ ts) ≡ true
unfolding all_distinct contains
all_distinct-append [] ts d e h = e
all_distinct-append (s ∷ ss) ts d e h = ground (
  arith,
  contains-append s ss ts,
  h s,
  text_eq.same_iff s s,
  all_distinct-append ss ts (ground arith) e (λ u m. ground (arith, h u m)),
)

all_of-append :
    (ts : List Text) (ss us : List Text)
    → all_of (λ f. contains us f) ss ≡ true
    → all_of (λ f. contains (us ++ ts) f) ss ≡ true
unfolding all_of
all_of-append ts [] us h = refl
all_of-append ts (s ∷ ss) us h =
    ground (arith, contains-append s us ts, all_of-append ts ss us (ground arith))

required_distinct : all_distinct required_features ≡ true
unfolding all_distinct required_features contains text_beq
required_distinct = refl

required_there : all_of (λ f. contains required_features f) required_features ≡ true
unfolding all_of required_features contains text_beq
required_there = refl

-- When a Core answers a hello with the features that the hello announced, whatever optional ones a
-- worker adds, the ready response passes its checks, if its other fields do.
pub check_ready-hello_features :
    (optional : List Json) (features : List Text) (r : RuntimeReady)
    → hello_features optional ≡ ok features
    → r.features ≡ features
    → (leb 1 (length r.core_instance_id) && leb (length r.core_instance_id) 200) ≡ true
    → require_uuid (str r.attachment_id) ≡ ok tt
    → (leb 1 r.offer_ttl_seconds && leb 1 r.lease_ttl_seconds) ≡ true
    → check_ready r ≡ ok tt
unfolding check_ready hello_features
check_ready-hello_features optional features r h same core uuid ttl =
    elim (Result-cases (normalize_runtime_optional_features optional)) [
      | inr (e, q) ↦ absurd (ground arith)
      | inl (more, q) ↦
          let n = normalize_runtime_optional_features-IsAscending optional more q in
          let both : required_features ++ more ≡ features = ground arith in
          let apart : all_distinct required_features ≡ true = required_distinct in
          let distinct : all_distinct (required_features ++ more) ≡ true =
            all_distinct-append required_features more apart (all_distinct-ascending more n.0)
              (λ u m. (n.1 u m).1) in
          rw
            (
              same,
              ← both,
              core,
              uuid,
              ttl,
              distinct,
              all_of-append more required_features required_features required_there,
            )
            refl
    ]
