-- ===== src/Types/Runs/States.antt =====
-- What an accepted run of src/openlinker/runtime/types.py says.
use openlinker_python.Prelude.{
  ◌≡◌, ◌≢◌, refl, ap, ◌∙◌, not, true, false, ◌||◌, Text, text, text_eq, nat_eq, ◌==◌, contains,
  some, none, arith, inl, inr, text_beq, text_beq_sound, text_beq_complete, Option-cases,
}
use openlinker_python.Json.{Json, str, obj, Fields, field, end, get_field, json_beq}
use openlinker_python.Errors.{ok, Result-cases}
use openlinker_python.Types.Uuid.{is_uuid}
use openlinker_python.Types.Checks.{require_uuid}
use openlinker_python.Types.Runs.{
  allowed_states, is_consistent, validate_runtime_run_summary, validate_delegated_run,
}

-- The run has a status and a dispatch state, and it is running just when its dispatch state is none of
-- the final ones.
pub record IsSettled (fs : Fields) : Type 0 where
  pub run_id : Text
  pub status : Text
  pub dispatch : Text
  pub has_id : get_field fs (text "run_id") ≡ some (str run_id)
  pub has_status : get_field fs (text "status") ≡ some (str status)
  pub has_dispatch : get_field fs (text "dispatch_state") ≡ some (str dispatch)
  pub id_form : is_uuid run_id ≡ true
  pub running_iff :
      (status == text "running")
      ≡ not (dispatch == text "terminal" || dispatch == text "dead_letter")
  pub dead_letter : dispatch ≡ text "dead_letter" → status ≡ text "failed"

-- A text is not equal to two texts that differ.
apart : (d a b : Text) → text_beq a b ≡ false → text_beq d a ≡ true → text_beq d b ≡ false
apart d a b h k = rw (text_beq_sound d a k, h) refl

states-running :
    (status dispatch : Text)
    → contains (allowed_states status) dispatch ≡ true
    → (status == text "running")
      ≡ not (dispatch == text "terminal" || dispatch == text "dead_letter")
unfolding allowed_states contains text_beq
states-running status dispatch h = ground (
  arith,
  apart dispatch (text "pending") (text "terminal") refl,
  apart dispatch (text "pending") (text "dead_letter") refl,
  apart dispatch (text "offered") (text "terminal") refl,
  apart dispatch (text "offered") (text "dead_letter") refl,
  apart dispatch (text "executing") (text "terminal") refl,
  apart dispatch (text "executing") (text "dead_letter") refl,
  apart dispatch (text "retry_wait") (text "terminal") refl,
  apart dispatch (text "retry_wait") (text "dead_letter") refl,
)

states-dead_letter :
    (status dispatch : Text)
    → contains (allowed_states status) dispatch ≡ true
    → dispatch ≡ text "dead_letter"
    → status ≡ text "failed"
unfolding allowed_states contains text_beq
states-dead_letter status dispatch h d =
    let same : text_beq dispatch (text "dead_letter") ≡ true =
      text_beq_complete dispatch (text "dead_letter") d in
    ground (
      arith,
      text_beq_sound status (text "failed"),
      apart dispatch (text "pending") (text "dead_letter") refl,
      apart dispatch (text "offered") (text "dead_letter") refl,
      apart dispatch (text "executing") (text "dead_letter") refl,
      apart dispatch (text "retry_wait") (text "dead_letter") refl,
      apart dispatch (text "terminal") (text "dead_letter") refl,
    )

is_consistent-texts :
    (v w : Json)
    → is_consistent v w ≡ true
    → (s t : Text) × (v ≡ str s) × (w ≡ str t) × (contains (allowed_states s) t ≡ true)
unfolding is_consistent
is_consistent-texts (str s) (str t) h = (s, t, refl, refl, h)
is_consistent-texts (str s) _ h = absurd (ground arith)
is_consistent-texts _ w h = absurd (ground arith)

require_uuid-text :
    (v : Json) → require_uuid v ≡ ok tt → (t : Text) × (v ≡ str t) × (is_uuid t ≡ true)
unfolding require_uuid
require_uuid-text (str t) h = (t, refl, ground arith)
require_uuid-text _ h = absurd (ground arith)

there : (fs : Fields) (k : Text) → get_field fs k ≢ none → (v : Json) × (get_field fs k ≡ some v)
there fs k h = elim (Option-cases (get_field fs k)) [ inl q ↦ absurd (h q) | inr found ↦ found ]

-- An accepted summary is returned as it is.
validate_runtime_run_summary-same :
    (gs fs : Fields) → validate_runtime_run_summary (obj gs) ≡ ok fs → fs ≡ gs
unfolding validate_runtime_run_summary
validate_runtime_run_summary-same gs fs h = ground arith

IsSettled-of :
    (fs : Fields) (i s d : Json)
    → get_field fs (text "run_id") ≡ some i
    → get_field fs (text "status") ≡ some s
    → get_field fs (text "dispatch_state") ≡ some d
    → require_uuid i ≡ ok tt
    → is_consistent s d ≡ true
    → IsSettled fs
IsSettled-of fs i s d hi hs hd form consistent =
    let (t, it, t_form) = require_uuid-text i form in
    let (st, dt, s_is, d_is, allowed) = is_consistent-texts s d consistent in
    record {
      run_id = t;
      status = st;
      dispatch = dt;
      has_id = hi ∙ ap some it;
      has_status = hs ∙ ap some s_is;
      has_dispatch = hd ∙ ap some d_is;
      id_form = t_form;
      running_iff = states-running st dt allowed;
      dead_letter = states-dead_letter st dt allowed;
    }

-- A summary of a run that is accepted has the identifier of a run, and it is running just when its
-- dispatch state is neither `terminal` nor `dead_letter`; only a run that failed is a dead letter.
pub validate_runtime_run_summary-IsSettled :
    (v : Json) (fs : Fields) → validate_runtime_run_summary v ≡ ok fs → IsSettled fs
unfolding validate_runtime_run_summary
validate_runtime_run_summary-IsSettled (obj gs) fs h =
    let (i, id) = there gs (text "run_id") (λ q. ground arith) in
    let (s, status) = there gs (text "status") (λ q. ground arith) in
    let (d, dispatch) = there gs (text "dispatch_state") (λ q. ground arith) in
    let same : gs ≡ fs = ground arith in
    rw (← same) (IsSettled-of gs i s d id status dispatch (ground arith) (ground arith))
validate_runtime_run_summary-IsSettled _ fs h = absurd (ground arith)

-- the three fields of a summary
abbrev summary_of : Json → Json → Json → Fields
summary_of i s d =
    field (text "run_id") i (field (text "status") s (field (text "dispatch_state") d end))

IsSettled-from_summary :
    (gs : Fields) (i s d : Json)
    → get_field gs (text "run_id") ≡ some i
    → get_field gs (text "status") ≡ some s
    → get_field gs (text "dispatch_state") ≡ some d
    → IsSettled (summary_of i s d)
    → IsSettled gs
unfolding get_field text_beq
IsSettled-from_summary gs i s d hi hs hd x = record {
  run_id = x.run_id;
  status = x.status;
  dispatch = x.dispatch;
  has_id = hi ∙ x.has_id;
  has_status = hs ∙ x.has_status;
  has_dispatch = hd ∙ x.has_dispatch;
  id_form = x.id_form;
  running_iff = x.running_iff;
  dead_letter = x.dead_letter;
}

beq_text : (v : Json) (t : Text) → json_beq v (str t) ≡ true → v ≡ str t
unfolding json_beq
beq_text (str s) t h = ap str (text_beq_sound s t h)
beq_text _ t h = absurd (ground arith)

-- A delegated run that is accepted is the run that was asked for, and its status and dispatch state
-- agree as those of a summary do.
pub validate_delegated_run-IsSettled :
    (v : Json) (run_id : Text) (fs : Fields)
    → validate_delegated_run v run_id ≡ ok fs
    → IsSettled fs × (get_field fs (text "run_id") ≡ some (str run_id))
unfolding validate_delegated_run
validate_delegated_run-IsSettled (obj gs) run_id fs h =
    let (i, id) = there gs (text "run_id") (λ q. ground arith) in
    let (s, status) = there gs (text "status") (λ q. ground arith) in
    let (d, dispatch) = there gs (text "dispatch_state") (λ q. ground arith) in
    elim (Result-cases (validate_runtime_run_summary (obj (summary_of i s d)))) [
      | inr (e, q) ↦ absurd (ground arith)
      | inl (small, q) ↦
          let x = validate_runtime_run_summary-IsSettled (obj (summary_of i s d)) small q in
          let mine : json_beq i (str run_id) ≡ true = ground arith in
          let same : gs ≡ fs = ground arith in
          let kept = validate_runtime_run_summary-same (summary_of i s d) small q in
          rw (← same) (
            IsSettled-from_summary gs i s d id status dispatch (rw (← kept) x),
            id ∙ ap some (beq_text i run_id mine),
          )
    ]
validate_delegated_run-IsSettled _ run_id fs h = absurd (ground arith)
