-- ===== src/Worker/Outcomes/Kept.antt =====
-- The Result that a worker (src/openlinker/runtime/worker.py) keeps at the end of a handler, however it
-- ends.
use openlinker_python.Prelude.{
  ℕ, ◌+◌, ◌≡◌, refl, sym, ap, ◌∙◌, false, List, [], ◌∷◌, Text, text, text_eq, text_beq, some, ℤ,
  pos, arith, inl, inr, ◌⊎◌, Bool-cases, Option-cases, ◌==◌, if◌then◌else◌, ◌||◌, int_eq,
}
use openlinker_python.Dict.{Dict, get, get-set_item}
use openlinker_python.Json.{
  Json, null, bool, int, str, arr, obj, Fields, get_field, set_field, get_field-set_field,
}
use openlinker_python.Platform.{Platform}
use openlinker_python.Errors.{ok, Result-cases, invalid_value}
use openlinker_python.Exec.{Exec, pure, raise}
use openlinker_python.Worker.Run.{◌>>=◌}
use openlinker_python.Store.Records.{AssignmentRecord, ResultRecord, attempt_id_of, object_beq}
use openlinker_python.Store.Memory.{MemoryStore, memory_ready, full_payload}
use openlinker_python.Store.State.{started, finished, state_eq}
use openlinker_python.Store.Methods as store
use openlinker_python.Worker.Attempts.{Meanwhile, for_lock, Worker, on_store}
use openlinker_python.Worker.Outcomes.{
  RuntimeEvent, RuntimeResult, Outcome, returned, raised, cancelled, authority_invalid, Draws,
  failed, persist_event, persist_events, catching_failure, handler_error, outcome_result,
  keep_result, finish_attempt, is_cancelled, result_payload, normalize_result,
}
use openlinker_python.Worker.Outcomes.Form.{
  HasForm, Normal, result_payload-HasForm, normalize_result-Normal,
}
use openlinker_python.Worker.Keeps.{Keeps, kept, pure-Keeps, raise-Keeps, read-Keeps, bind-Keeps}

-- The two fields that `store_result` adds are none of those of the form.
get_field-full_payload :
    (fs : Fields) (id : Text) (final : ℤ) (key : Text)
    → (text "result_id" == key) ≡ false
    → (text "final_client_event_seq" == key) ≡ false
    → get_field (full_payload fs id final) key ≡ get_field fs key
unfolding full_payload
get_field-full_payload fs id final key other last =
    get_field-set_field (set_field fs (text "result_id") (str id)) (text "final_client_event_seq")
      key (int final)
    ∙ rw last (get_field-set_field fs (text "result_id") key (str id) ∙ rw other refl)

full_payload-HasForm :
    (fs : Fields) (id : Text) (final : ℤ) → HasForm fs → HasForm (full_payload fs id final)
unfolding text_beq
full_payload-HasForm fs id final (kind, d) =
    let status = get_field-full_payload fs id final (text "status") refl refl in
    let output = get_field-full_payload fs id final (text "output") refl refl in
    let error = get_field-full_payload fs id final (text "error") refl refl in
    let duration = get_field-full_payload fs id final (text "duration_ms") refl refl in
    (
      elim kind [
        | inl k ↦ inl (record {
          output = k.output;
          status = status ∙ k.status;
          has_output = output ∙ k.has_output;
          no_error = error ∙ k.no_error;
        })
        | inr k ↦ inr (record {
          code = k.code;
          message = k.message;
          status = status ∙ k.status;
          no_output = output ∙ k.no_output;
          has_error = error ∙ k.has_error;
          code_bound = k.code_bound;
          message_bound = k.message_bound;
        })
      ],
      record { duration = d.duration; has_duration = duration ∙ d.has_duration; bound = d.bound },
    )

-- The Results of a worker.
abbrev KeepsResults : {A : Type 0} → Dict Text ResultRecord → Exec Worker A → Type 0
KeepsResults d m = Keeps (λ w. w.store.results ≡ d) m

module _ ⦃p : Platform⦄ (d : Dict Text ResultRecord) where
  abbrev Same : Worker → Type 0
  Same w = w.store.results ≡ d

  append_event-results :
      (a kind : Text) (fs : Fields) (id : Text) (t u : ℕ) (s : MemoryStore)
      → (store.append_event memory_ready a kind fs id t u s).1.results ≡ s.results
  unfolding store.append_event
  append_event-results a kind fs id t u s = ground arith

  append-Keeps :
      (a kind : Text) (fs : Fields) (id : Text) (t u : ℕ)
      → Keeps Same (on_store (store.append_event memory_ready a kind fs id t u))
  unfolding Keeps
  append-Keeps a kind fs id t u w x = append_event-results a kind fs id t u w.store ∙ x

  payload-Keeps :
      (a kind : Text) (payload : Json) (id : Text) (now : ℕ)
      → Keeps {A = Unit {0}} Same (elim payload [
        | obj fs ↦ (do _ ← on_store (store.append_event memory_ready a kind fs id now now); pure tt)
        | _ ↦ raise invalid_value
      ])
  payload-Keeps a kind (obj fs) id now =
      bind-Keeps Same _ _ (append-Keeps a kind fs id now now) λ _. pure-Keeps Same _
  payload-Keeps a kind (arr vs) id now = raise-Keeps Same _ _
  payload-Keeps a kind (str t) id now = raise-Keeps Same _ _
  payload-Keeps a kind null id now = raise-Keeps Same _ _
  payload-Keeps a kind (bool b) id now = raise-Keeps Same _ _
  payload-Keeps a kind (int n) id now = raise-Keeps Same _ _

  module _ (draws : Draws) where
    persist_events-Keeps :
        (a : Text) (es : List RuntimeEvent) (n now : ℕ)
        → Keeps Same (persist_events draws a es n now)
    unfolding persist_events persist_event
    persist_events-Keeps a [] n now = pure-Keeps Same _
    persist_events-Keeps a (e ∷ es) n now =
        bind-Keeps Same _ _
          (bind-Keeps Same _ _ (read-Keeps Same _)
            λ _. payload-Keeps a e.event_type e.payload (draws.event_id n) now)
          λ _. persist_events-Keeps a es (n + 1) now

    catching-Keeps :
        (m : Exec Worker RuntimeResult) → Keeps Same m → Keeps Same (catching_failure draws m)
    unfolding Keeps catching_failure
    catching-Keeps m h w x = h w x

    outcome_result-Keeps :
        (a : Text) (outcome : Outcome) (now : ℕ) → Keeps Same (outcome_result draws a outcome now)
    unfolding outcome_result
    outcome_result-Keeps a (returned v) now = catching-Keeps _ (
        bind-Keeps Same _ _ (read-Keeps Same _)
          λ r. bind-Keeps Same _ _ (persist_events-Keeps a r.events 0 now) λ _. pure-Keeps Same _)
    outcome_result-Keeps a (raised message) now = pure-Keeps Same _
    outcome_result-Keeps a cancelled now = pure-Keeps Same _
    outcome_result-Keeps a authority_invalid now = pure-Keeps Same _

module _ ⦃p : Platform⦄ (draws : Draws) where
  handler_error-Normal : (message : Text) → Normal (handler_error draws message)
  unfolding handler_error failed
  handler_error-Normal message = inr (_, refl, refl, refl)

  failed-Normal : (code message : Text) → Normal (failed code message)
  unfolding failed
  failed-Normal code message = inr (_, refl, refl, refl)

  -- what comes of a handler, in any way, is a success or a failure
  outcome_result-Normal :
      (a : Text) (outcome : Outcome) (now : ℕ) (w : Worker) (r : RuntimeResult)
      → (outcome_result draws a outcome now w).0 ≡ ok r
      → Normal r
  unfolding ◌>>=◌ outcome_result catching_failure
  outcome_result-Normal a (returned v) now w r h = elim (Result-cases (normalize_result v)) [
    | inr (e, q) ↦
        let same : handler_error draws (draws.message e) ≡ r = ground arith in
        rw (← same) (handler_error-Normal (draws.message e))
    | inl (s, q) ↦ elim (Result-cases (persist_events draws a s.events 0 now w).0) [
      | inr (e, k) ↦
          let same : handler_error draws (draws.message e) ≡ r = ground arith in
          rw (← same) (handler_error-Normal (draws.message e))
      | inl (u, k) ↦ let same : s ≡ r = ground arith in rw (← same) (normalize_result-Normal v s q)
    ]
  ]
  outcome_result-Normal a (raised message) now w r h =
      let same : handler_error draws message ≡ r = ground arith in
      rw (← same) (handler_error-Normal message)
  outcome_result-Normal a cancelled now w r h =
      let same : failed (text "HANDLER_CANCELLED")
            (text "handler stopped without a Runtime cancellation")
          ≡ r =
        ground arith in
      rw (← same) (failed-Normal _ _)
  outcome_result-Normal a authority_invalid now w r h =
      let same : failed (text "ASSIGNMENT_AUTHORITY_INVALID")
            (text "assignment Runtime authority is invalid")
          ≡ r =
        ground arith in
      rw (← same) (failed-Normal _ _)

module _ ⦃p : Platform⦄ where
  -- A Result that is there after `store_result` was there before, or has its payload.
  store_result-results :
      (a : Text) (payload : Fields) (fresh : Text) (t u : ℕ) (s : MemoryStore) (x : ResultRecord)
      → get (store.store_result memory_ready a payload fresh t u s).1.results a ≡ some x
      → (get s.results a ≡ some x)
        ⊎ ((id : Text) × (final : ℤ) × (x.payload ≡ full_payload payload id final))
  unfolding store.store_result
  store_result-results a payload fresh t u s x h =
      elim (Result-cases (store.assignment_for_attempt memory_ready a s)) [
        | inr (e, k) ↦ inl (ground arith)
        | inl (r, k) ↦ elim (Bool-cases (r.state == started || r.state == finished)) [
          | inr f ↦ inl (ground arith)
          | inl y ↦ elim (Option-cases (get s.results a)) [
            | inr (old, g) ↦ elim (Bool-cases (object_beq old.payload payload)) [
              | inl q ↦ inl (ground arith)
              | inr q ↦ inl (ground arith)
            ]
            | inl g ↦ elim (Result-cases (store.final_seq_for payload r.last_client_event_seq)) [
              | inr (e, q) ↦ inl (ground arith)
              | inl (final, q) ↦
                  let id = store.result_id_for payload fresh in
                  let made = store.new_result r payload id final t in
                  let here : made ≡ x =
                    ground (arith, get-set_item s.results a a made, text_eq.same_iff a a) in
                  inr
                    (id, final, ap (λ y. y.payload) (sym here) ∙ (unfold store.new_result in refl))
            ]
          ]
        ]
      ]

  keep_result-HasForm :
      (draws : Draws) (r : AssignmentRecord) (y : RuntimeResult) (now : ℕ) (w : Worker)
      (x : ResultRecord)
      → Normal y
      → get (keep_result draws r y now w).1.store.results (attempt_id_of r) ≡ some x
      → (get w.store.results (attempt_id_of r) ≡ some x) ⊎ HasForm x.payload
  unfolding ◌>>=◌ keep_result
  keep_result-HasForm draws r y now w x normal h =
      let a = attempt_id_of r in
      elim (Bool-cases (is_cancelled a w || draws.force_cancel)) [
        | inl s ↦ inl (ground arith)
        | inr n ↦
            let duration = if y.duration_ms == pos 0 then pos draws.elapsed_ms else y.duration_ms in
            let payload = result_payload r.identity.attempt y duration in
            let write = store.store_result memory_ready a payload draws.result_id now now w.store in
            let there : get write.1.results a ≡ some x = elim (Result-cases write.0) [
              | inr (e, k) ↦ ground arith
              | inl (u, k) ↦ ground arith
            ] in
            elim (store_result-results a payload draws.result_id now now w.store x there) [
              | inl before ↦ inl before
              | inr (id, final, made) ↦ inr (
                  rw made (
                    full_payload-HasForm payload id final
                      (result_payload-HasForm y normal r.identity.attempt duration)))
            ]
      ]

  -- However the call of a handler ends, also where it raises, is cancelled or was not authorized: a
  -- Result of its Attempt that is kept after the end of the Attempt was kept before, or by another
  -- task while this one waited for the lock of the Attempt, or is a success with an output and no
  -- error, or a failure with an error of bounded length and no output, and its duration fits 31 bits.
  pub finish_attempt-HasForm :
      (draws : Draws) (meanwhile : Meanwhile) (r : AssignmentRecord) (outcome : Outcome) (now : ℕ)
      (w : Worker) (x : ResultRecord)
      → get (finish_attempt draws meanwhile r outcome now w).1.store.results (attempt_id_of r)
        ≡ some x
      → (get w.store.results (attempt_id_of r) ≡ some x)
        ⊎ (get
              (meanwhile
                (for_lock (attempt_id_of r))
                (outcome_result draws (attempt_id_of r) outcome now w).1).store.results
              (attempt_id_of r)
            ≡ some x)
        ⊎ HasForm x.payload
  unfolding ◌>>=◌ finish_attempt
  finish_attempt-HasForm draws meanwhile r outcome now w x h =
      let a = attempt_id_of r in
      let end = outcome_result draws a outcome now w in
      let same : end.1.store.results ≡ w.store.results =
        kept _ _ (outcome_result-Keeps w.store.results draws a outcome now) w refl in
      elim (Result-cases end.0) [
        | inr (e, q) ↦ inl (ground arith)
        | inl (y, q) ↦ elim (Bool-cases (is_cancelled a end.1 || draws.force_cancel)) [
          | inl s ↦ inl (ground arith)
          | inr n ↦
              let after = meanwhile (for_lock a) end.1 in
              let there : get (keep_result draws r y now after).1.store.results a ≡ some x =
                ground arith in
              let normal = outcome_result-Normal draws a outcome now w y q in
              inr (keep_result-HasForm draws r y now after x normal there)
        ]
      ]
