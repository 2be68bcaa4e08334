-- ===== src/Worker/Outcomes/Form.antt =====
-- The form of the Results that a worker (src/openlinker/runtime/worker.py) keeps for its handlers.
use openlinker_python.Prelude.{
  ℕ, zero, suc, ◌≤◌, ◌≡◌, refl, false, List, [], ◌∷◌, Text, text, text_eq, text_beq, text_beq_sound,
  Option, none, some, ◌==◌, take, length, ℤ, pos, negsuc, arith, inl, inr, ◌⊎◌, Bool-cases,
}
use openlinker_python.Json.{Json, bool, int, str, obj, Fields, end, field, get_field}
use openlinker_python.Errors.{ok}
use openlinker_python.Types.Identity.{RuntimeAttemptIdentity}
use openlinker_python.Worker.Outcomes.{
  Returned, RuntimeResult, RuntimeHandlerError, as_result, normalize_result, check_success,
  check_failed, invalid_result, failed, bounded, clamp, result_body, result_payload,
}

-- An error as it is sent.
abbrev error_fields : Text → Text → Fields
error_fields code message =
    field (text "error_code") (str code)
      (field (text "message") (str message) (field (text "retryable_hint") (bool false) end))

-- A success has an output and no error, a failure an error of bounded length and no output.
pub record IsSuccess (fs : Fields) : Type 0 where
  pub output : Fields
  pub status : get_field fs (text "status") ≡ some (str (text "success"))
  pub has_output : get_field fs (text "output") ≡ some (obj output)
  pub no_error : get_field fs (text "error") ≡ none

pub record IsFailure (fs : Fields) : Type 0 where
  pub code : Text
  pub message : Text
  pub status : get_field fs (text "status") ≡ some (str (text "failed"))
  pub no_output : get_field fs (text "output") ≡ none
  pub has_error : get_field fs (text "error") ≡ some (obj (error_fields code message))
  pub code_bound : length code ≤ 120
  pub message_bound : length message ≤ 500

pub record HasDuration (fs : Fields) : Type 0 where
  pub duration : ℕ
  pub has_duration : get_field fs (text "duration_ms") ≡ some (int (pos duration))
  pub bound : duration ≤ 2147483647

-- A success or a failure of that form, whose duration fits 31 bits.
abbrev pub HasForm : Fields → Type 0
HasForm fs = (IsSuccess fs ⊎ IsFailure fs) × HasDuration fs

length-take : {A : Type 0} (n : ℕ) (xs : List A) → length (take n xs) ≤ n
length-take zero xs = omega arith
length-take (suc n) [] = omega arith
length-take (suc n) (x ∷ xs) = omega (arith, length-take n xs)

clamp_bound : (d : ℤ) → clamp d ≤ 2147483647
unfolding clamp
clamp_bound (pos n) = ground arith
clamp_bound (negsuc n) = omega arith

-- A success with an output, or a failure with an error.
abbrev pub Normal : RuntimeResult → Type 0
Normal r =
    ((o : Fields) × (r.status ≡ text "success") × (r.output ≡ some (obj o)) × (r.error ≡ none))
    ⊎ ((e : RuntimeHandlerError) × (r.status ≡ text "failed")
        × (r.output ≡ none)
        × (r.error ≡ some e))

invalid-Normal : (message : Text) → Normal (invalid_result message)
unfolding invalid_result failed
invalid-Normal message =
    inr (record { code = text "RESULT_INVALID"; message = message }, refl, refl, refl)

check_success-Normal :
    (s r : RuntimeResult) (o : Option Json) (e : Option RuntimeHandlerError)
    → s.status ≡ text "success"
    → s.output ≡ o
    → s.error ≡ e
    → check_success s o e ≡ ok r
    → Normal r
unfolding check_success
check_success-Normal s r (some (obj fs)) none status out none_is h =
    let same : s ≡ r = ground arith in rw (← same) (inl (fs, status, out, none_is))
check_success-Normal s r none e status out err_is h =
    let same : invalid_result (text "successful Runtime result requires output only") ≡ r =
      ground arith in
    rw (← same) (invalid-Normal _)
check_success-Normal s r (some v) none status out err_is h = absurd (ground arith)
check_success-Normal s r (some v) (some e) status out err_is h =
    let same : invalid_result (text "successful Runtime result requires output only") ≡ r =
      ground arith in
    rw (← same) (invalid-Normal _)

check_failed-Normal :
    (s : RuntimeResult) (o : Option Json) (e : Option RuntimeHandlerError)
    → s.status ≡ text "failed"
    → s.output ≡ o
    → s.error ≡ e
    → Normal (check_failed s o e)
unfolding check_failed
check_failed-Normal s none (some e) status out err_is = inr (e, status, out, err_is)
check_failed-Normal s none none status out err_is = invalid-Normal _
check_failed-Normal s (some v) e status out err_is = invalid-Normal _

-- what passes the normalization
pub normalize_result-Normal :
    (v : Returned) (r : RuntimeResult) → normalize_result v ≡ ok r → Normal r
unfolding normalize_result
normalize_result-Normal v r h =
    let s = as_result v in
    elim (Bool-cases (s.status == text "success")) [
      | inl good ↦
          check_success-Normal s r s.output s.error (text_beq_sound _ _ good) refl refl
            (ground arith)
      | inr not_good ↦ elim (Bool-cases (s.status == text "failed")) [
        | inl bad ↦
            let same : check_failed s s.output s.error ≡ r = ground arith in
            rw (← same) (check_failed-Normal s s.output s.error (text_beq_sound _ _ bad) refl refl)
        | inr not_bad ↦
            let same : invalid_result (text "Runtime result status is invalid") ≡ r =
              ground arith in
            rw (← same) (invalid-Normal _)
      ]
    ]

-- what a worker makes of a Result of that form
pub result_payload-HasForm :
    (r : RuntimeResult)
    → Normal r
    → (i : RuntimeAttemptIdentity) (d : ℤ) → HasForm (result_payload i r d)
unfolding result_payload result_body bounded get_field text_beq
result_payload-HasForm r h i d = elim h [
  | inl (o, status, out, clean) ↦ (
    inl (record {
      output = o;
      status = rw status refl;
      has_output = rw (status, out) refl;
      no_error = rw status refl;
    }),
    record { duration = clamp d; has_duration = refl; bound = clamp_bound d },
  )
  | inr (e, status, empty, found) ↦ (
    inr (record {
      code = bounded e.code 120 (text "HANDLER_ERROR");
      message = bounded e.message 500 (text "handler failed");
      status = rw status refl;
      no_output = rw status refl;
      has_error = rw (status, found) refl;
      code_bound = length-take 120 _;
      message_bound = length-take 500 _;
    }),
    record { duration = clamp d; has_duration = refl; bound = clamp_bound d },
  )
]
