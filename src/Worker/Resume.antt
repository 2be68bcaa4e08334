-- ===== src/Worker/Resume.antt =====
-- `_resume_durable_state` of src/openlinker/runtime/worker.py: what a worker tells the platform of the
-- assignments that it holds, and what it does for each decision. The answer is an argument.
use openlinker_python.Prelude.{
  ℕ, Bool, true, false, not, ◌&&◌, ◌||◌, List, [], ◌∷◌, Text, text, text_eq, nat_eq, Option, none,
  some, ◌==◌, if◌then◌else◌, contains, all_of, is_some, length, ℤ,
}
use openlinker_python.Text.{is_empty}
use openlinker_python.Dict.{Dict, get, set_item}
use openlinker_python.Json.{Json, null, str, arr, obj, Fields, field_or, items}
use openlinker_python.Platform.{Platform}
use openlinker_python.Errors.{
  Result, ok, err, bad_value, identity_mismatch, invalid_value, missing_decision, unsafe_reconnect,
  unsafe_resume, resume_not_executable, require, ◌>>◌ as then_ok, ◌>>=◌ as and_then,
}
use openlinker_python.Exec.{Exec, pure, raise, read, checked}
use openlinker_python.Worker.Run.{◌>>=◌}
use openlinker_python.Types.Identity.{RuntimeAttemptIdentity, attempt_from_dict, item}
use openlinker_python.Types.Features.{text_leb}
use openlinker_python.Types.Messages.{all_distinct}
use openlinker_python.Store.State.{ack_sent, confirmed, started, finished, state_eq}
use openlinker_python.Store.Records.{AssignmentRecord, attempt_id_of, message_id_of}
use openlinker_python.Store.Memory.{MemoryStore, memory_ready}
use openlinker_python.Store.Methods as store
use openlinker_python.Worker.Ranges.{event_ranges}
use openlinker_python.Worker.Flush.{require_response_keys}
use openlinker_python.Worker.Answers.{protocol_object, optional_time, is_identity}
use openlinker_python.Worker.Attempts.{
  Worker, on_store, change, allow_spool, set_lease, start_confirmed_attempt, clear_from_resume,
  await, Meanwhile, for_answer,
}

unfoldable pub insert_record : AssignmentRecord → List AssignmentRecord → List AssignmentRecord
insert_record r [] = r ∷ []
insert_record r (x ∷ xs) =
    let rest = insert_record r xs in
    if text_leb (attempt_id_of r) (attempt_id_of x) then r ∷ x ∷ xs else x ∷ rest

-- `sorted(..., key=lambda item: item.identity.attempt.attempt_id)`
unfoldable pub sort_records : List AssignmentRecord → List AssignmentRecord
unfolding insert_record
sort_records [] = []
sort_records (r ∷ rs) = insert_record r (sort_records rs)

-- one item of `attempts` in the request
pub record ResumeItem : Type 0 where
  pub attempt_identity : RuntimeAttemptIdentity
  pub last_acked_client_event_seq : ℕ
  pub pending_client_event_ranges : List (ℕ × ℕ)
  pub pending_result : Option (Text × ℤ)

abbrev pub resume_actions : List Text
resume_actions =
    text "continue_execution"
    ∷ text "upload_events"
    ∷ text "upload_result"
    ∷ text "stop_execution"
    ∷ text "clear_spool"
    ∷ []

-- texts, or none where an item is no text
unfoldable pub texts_of : List Json → Option (List Text)
texts_of [] = some []
texts_of (str t ∷ vs) = elim (texts_of vs) [ none ↦ none | some ts ↦ some (t ∷ ts) ]
texts_of (_ ∷ vs) = none

-- the check on `allowed_actions`
unfoldable pub check_actions : Json → Result (List Text)
check_actions (arr vs) = elim (texts_of (items vs)) [
  | none ↦ err bad_value
  | some ts ↦
      if all_distinct ts && all_of (λ t. contains resume_actions t) ts then ok ts else err bad_value
]
check_actions _ = err bad_value

module _ ⦃p : Platform⦄ where
  unfoldable pub resume_item : AssignmentRecord → MemoryStore → Result ResumeItem
  resume_item r s = and_then (store.pending_events memory_ready (attempt_id_of r) s) (λ pending.
      and_then (store.pending_result memory_ready (attempt_id_of r) s) (λ result. ok (record {
        attempt_identity = r.identity.attempt;
        last_acked_client_event_seq = r.acked_client_event_seq;
        pending_client_event_ranges = event_ranges pending;
        pending_result = elim result [
          | none ↦ none
          | some x ↦ some (x.result_id, x.final_client_event_seq)
        ];
      })))

  -- the loop that makes the request
  unfoldable pub resume_items : List AssignmentRecord → MemoryStore → Result (List ResumeItem)
  resume_items [] s = ok []
  resume_items (r ∷ rs) s =
      and_then (resume_item r s) (λ i. and_then (resume_items rs s) (λ is. ok (i ∷ is)))

  -- the checks on one decision, which hand on its Attempt
  unfoldable pub check_decision : Json → Result (Text × Fields)
  check_decision v =
      and_then
        (require_response_keys v
          (text "attempt_identity" ∷ text "decision" ∷ text "allowed_actions" ∷ [])
          (text "lease_expires_at" ∷ []))
        (λ fs. and_then (protocol_object (field_or fs (text "attempt_identity") null)) (λ raw.
          and_then (attempt_from_dict (obj raw)) (λ identity.
            and_then (item fs (text "allowed_actions")) (λ raw_actions.
              and_then (check_actions raw_actions) (λ actions.
                and_then (optional_time (field_or fs (text "lease_expires_at") null))
                  (λ lease. ok (identity.attempt_id, fs)))))))

  -- the loop on the decisions
  unfoldable pub collect_decisions : Dict Text Fields → List Json → Result (Dict Text Fields)
  collect_decisions seen [] = ok seen
  collect_decisions seen (v ∷ vs) = and_then (check_decision v) (λ d.
      let (attempt_id, fs) = d in
      then_ok (require (not (is_some (get seen attempt_id))) bad_value)
        (collect_decisions (set_item seen attempt_id fs) vs))

  -- the lease of a decision
  unfoldable pub decision_lease : Fields → Result (Option ℕ)
  decision_lease fs = optional_time (field_or fs (text "lease_expires_at") null)

  -- `continue_execution`
  unfoldable pub continue_execution : Bool → AssignmentRecord → Fields → ℕ → Exec Worker (Unit {0})
  continue_execution reconnect r decision now =
      let a = attempt_id_of r in
      let was_started = r.state == started || r.state == finished in
      if reconnect && was_started
      then (do
        owned ← read (λ w. ok (is_some (get w.active a)))
        checked owned unsafe_reconnect do
          expires ← read (λ w. decision_lease decision)
          _ ← elim expires [ none ↦ pure tt | some t ↦ change (set_lease a (some t)) ]
          change (allow_spool a))
      else if was_started
      then raise unsafe_resume
      else (do
        r' ←
            if r.state == ack_sent
            then on_store (store.advance_assignment memory_ready (message_id_of r) confirmed now)
            else pure r
        checked (r'.state == confirmed) resume_not_executable do
          _ ← change (allow_spool a)
          expires ← read (λ w. decision_lease decision)
          start_confirmed_attempt r' expires now)

  -- the actions on one record, by the text of the decision
  unfoldable pub apply_action :
      Meanwhile → Bool → AssignmentRecord → Fields → Text → ℕ → Exec Worker (Unit {0})
  apply_action meanwhile reconnect r decision action now =
      let a = attempt_id_of r in
      if action == text "continue_execution"
      then continue_execution reconnect r decision now
      else if action == text "upload_spool_only"
      then (do
        allowed ← read (λ w. check_actions (field_or decision (text "allowed_actions") null))
        change (λ w. record w {
          spool_permissions =
              set_item w.spool_permissions a
                (contains allowed (text "upload_events"), contains allowed (text "upload_result"));
        }))
      else if action == text "result_already_acked"
      then clear_from_resume meanwhile r false now
      else if action == text "lease_revoked"
      then clear_from_resume meanwhile r true now
      else raise bad_value

  -- one turn of the last loop
  unfoldable pub apply_decision :
      Meanwhile → Bool → Dict Text Fields → AssignmentRecord → ℕ → Exec Worker (Unit {0})
  apply_decision meanwhile reconnect decisions r now = elim (get decisions (attempt_id_of r)) [
    | none ↦ raise missing_decision
    | some decision ↦
        checked (is_identity (field_or decision (text "attempt_identity") null) r.identity.attempt)
          identity_mismatch
          (elim (field_or decision (text "decision") null) [
            | str action ↦ apply_action meanwhile reconnect r decision action now
            | arr vs ↦ raise invalid_value
            | obj fs ↦ raise invalid_value
            | _ ↦ raise bad_value
          ])
  ]

  unfoldable pub apply_decisions :
      Meanwhile → Bool → Dict Text Fields → List AssignmentRecord → ℕ → Exec Worker (Unit {0})
  apply_decisions meanwhile reconnect decisions [] now = pure tt
  apply_decisions meanwhile reconnect decisions (r ∷ rs) now = do
    _ ← apply_decision meanwhile reconnect decisions r now
    apply_decisions meanwhile reconnect decisions rs now

  -- `_resume_durable_state`. The platform sees the items of the request.
  unfoldable pub resume_durable_state :
      Bool → Meanwhile → (List ResumeItem → Result (List Json)) → ℕ → Exec Worker (Unit {0})
  resume_durable_state reconnect meanwhile resume now = do
    held ← read (λ w. store.all_assignments memory_ready w.store)
    let records = sort_records held
    if is_empty records then pure tt else do
      attempts ← read (λ w. resume_items records w.store)
      decisions ← await (meanwhile for_answer) (resume attempts)
      _ ← read (λ w. require (length decisions == length records) bad_value)
      by_attempt ← read (λ w. collect_decisions [] decisions)
      apply_decisions meanwhile reconnect by_attempt records now
