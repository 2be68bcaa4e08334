-- ===== src/Worker/Retry/Ends.antt =====
-- When `_retry_call` of src/openlinker/runtime/worker.py returns, what it returns, and how long it waits.
use openlinker_python.Prelude.{
  ℕ, zero, suc, ◌≤◌, ◌<◌, ◌≡◌, refl, true, false, ◌⊎◌, inl, inr, List, [], ◌∷◌, none, some, arith,
  length, ◌∙◌, Option-cases, Bool-cases, ◌||◌, Bool, if◌then◌else◌,
}
use openlinker_python.Worker.Retry.{
  Ending, value, cancelled, failed, Turn, RetryOptions, Step, ends, wait, take_turn, retry_turns,
  retry_call, after_failure, switches, is_stopped, retry_delay, is_due, is_assignment_terminal,
  not_initialized,
}
use openlinker_python.Worker.Policy.{
  Failure, policy_recovery, protocol_or_store, remote, connection_closed, other,
  is_runtime_policy_recovery_signal, fatal_error,
}

below_suc :
    (P : ℕ → Type 0) (n : ℕ) → P 0 → ((k : ℕ) → k < n → P (suc k)) → (k : ℕ) → k < suc n → P k
below_suc P n first later zero h = first
below_suc P n first later (suc k) h = later k (omega arith)

pub Ending-cases :
    {A : Type 0} (e : Ending A)
    → (((a : A) × (e ≡ value a)) ⊎ (e ≡ cancelled)) ⊎ ((f : Failure) × (e ≡ failed f))
Ending-cases (value a) = inl (inl (a, refl))
Ending-cases cancelled = inl (inr refl)
Ending-cases (failed f) = inr (f, refl)

pub Step-cases :
    {A : Type 0} (s : Step A)
    → ((e : Ending A) × (s ≡ ends e)) ⊎ ((d : ℕ) × (n : ℕ) × (s ≡ wait d n))
Step-cases (ends e) = inl (e, refl)
Step-cases (wait d n) = inr (d, n, refl)

signal-fatal : (f : Failure) → is_runtime_policy_recovery_signal f ≡ true → fatal_error f ≡ true
unfolding fatal_error is_runtime_policy_recovery_signal
signal-fatal policy_recovery h = refl
signal-fatal (protocol_or_store e) h = refl
signal-fatal (remote status code message) h = ground arith
signal-fatal (connection_closed received itself) h = ground arith
signal-fatal (other t) h = ground arith

module _ {A : Type 0} where
  -- no transport switch is seen after the call of a turn
  pub record IsSteady (t : Turn A) : Type 0 where
    pub not_transitioning : t.transitioning ≡ false
    pub same_transport : t.transport_then ≡ t.transport

  -- the end of the handler of a failure
  give_up-ends :
      (f : Failure) (final due : Bool) (delay next : ℕ) (e : Ending A)
      → (if final then ends (failed f) else if due then ends (failed f) else wait delay next)
        ≡ ends e
      → (e ≡ failed f) × ((final || due) ≡ true)
  give_up-ends f final due delay next e h = ground arith

  module _ (o : RetryOptions) where
    -- what a failure may get out of the loop for
    pub IsFinal : Turn A → Failure → Type 0
    IsFinal t f =
        (fatal_error f ≡ true)
        ⊎ (is_assignment_terminal f ≡ true)
        ⊎ (is_due o.deadline t.now ≡ true)

    -- Why a run may end at a turn, and with what.
    pub IsReason : Turn A → Ending A → Type 0
    IsReason t (value a) = (is_stopped o t ≡ false) × (t.answer ≡ value a)
    IsReason t cancelled = (is_stopped o t ≡ true) ⊎ (t.answer ≡ cancelled)
    IsReason t (failed f) =
        (is_stopped o t ≡ false)
        × ((f ≡ not_initialized) × ((t.transport ≡ none) ⊎ (t.transport_then ≡ none))
            ⊎ (t.answer ≡ failed f) × IsFinal t f)

    -- The call of a turn failed, with no policy signal.
    pub IsTransient : Turn A → Type 0
    IsTransient t =
        (f : Failure) × (t.answer ≡ failed f) × (is_runtime_policy_recovery_signal f ≡ false)

    switches-steady :
        (t : Turn A) (before : ℕ)
        → IsSteady t
        → t.transport ≡ some before
        → switches o t before ≡ some false
    unfolding switches
    switches-steady t before steady e =
        let f = steady.not_transitioning in
        let g : t.transport_then ≡ some before = steady.same_transport ∙ e in ground arith

    take_turn-due :
        (t : Turn A) (attempt delay next : ℕ)
        → IsSteady t
        → is_due o.deadline t.now ≡ true
        → take_turn o t attempt ≡ wait delay next
        → ⊥
    unfolding take_turn after_failure
    take_turn-due t attempt delay next steady due h = elim (Option-cases t.transport) [
      | inl e ↦ ground arith
      | inr (before, e) ↦ let no_switch = switches-steady t before steady e in ground arith
    ]

    retry_turns-due :
        (n : ℕ) (turns : ℕ → Turn A) (fuel attempt : ℕ)
        → n < fuel
        → IsSteady (turns n)
        → is_due o.deadline (turns n).now ≡ true
        → (e : Ending A) × (delays : List ℕ) × (retry_turns o fuel turns attempt ≡ some (e, delays))
          × (length delays ≤ n)
    unfolding retry_turns
    retry_turns-due n turns zero attempt h steady due = absurd (omega arith)
    retry_turns-due zero turns (suc fuel) attempt h steady due =
        elim (Step-cases (take_turn o (turns 0) attempt)) [
          | inl (e, q) ↦ (e, [], ground arith, omega arith)
          | inr (delay, next, q) ↦ absurd (take_turn-due _ attempt delay next steady due q)
        ]
    retry_turns-due (suc n) turns (suc fuel) attempt h steady due =
        elim (Step-cases (take_turn o (turns 0) attempt)) [
          | inl (e, q) ↦ (e, [], ground arith, omega arith)
          | inr (delay, next, q) ↦
              let (e, delays, r, l) =
                retry_turns-due n (λ k. turns (suc k)) fuel next (omega arith) steady due in
              (e, delay ∷ delays, ground arith, omega arith)
        ]

    -- A call that got a deadline returns: where some turn finds it past and no switch of the transport,
    -- there are at most as many delays as turns before it.
    pub retry_call-due :
        (n : ℕ) (turns : ℕ → Turn A) (fuel : ℕ)
        → n < fuel
        → IsSteady (turns n)
        → is_due o.deadline (turns n).now ≡ true
        → (e : Ending A) × (delays : List ℕ) × (retry_call o fuel turns ≡ some (e, delays))
          × (length delays ≤ n)
    unfolding retry_call
    retry_call-due n turns fuel = retry_turns-due n turns fuel 0

    switches-none : (t : Turn A) (before : ℕ) → switches o t before ≡ none → t.transport_then ≡ none
    unfolding switches
    switches-none t before h = ground arith

    IsFinal-intro :
        (t : Turn A) (f : Failure)
        → (fatal_error f || is_assignment_terminal f || is_due o.deadline t.now) ≡ true
        → IsFinal t f
    unfolding IsFinal
    IsFinal-intro t f h = ground arith

    after_failure-ends :
        (t : Turn A) (before : ℕ) (f : Failure) (attempt : ℕ) (e : Ending A)
        → after_failure o t before f attempt ≡ ends e
        → (t.transport_then ≡ none) × (e ≡ failed not_initialized) ⊎ (e ≡ failed f) × IsFinal t f
    unfolding after_failure
    after_failure-ends t before f attempt e h =
        elim (Bool-cases (is_runtime_policy_recovery_signal f)) [
          | inl s ↦ inr (ground arith, IsFinal-intro t f (ground (arith, signal-fatal f s)))
          | inr n ↦ elim (Option-cases (switches o t before)) [
            | inl q ↦ inl (switches-none t before q, ground arith)
            | inr (true, q) ↦ absurd (ground arith)
            | inr (false, q) ↦
                let (same, final) =
                  give_up-ends f (fatal_error f || is_assignment_terminal f)
                    (is_due o.deadline t.now)
                    (retry_delay t.retry_minimum t.retry_maximum t.uniform attempt) (suc attempt) e
                    (ground arith) in
                inr (same, IsFinal-intro t f (ground arith))
          ]
        ]

    after_failure-wait :
        (t : Turn A) (before : ℕ) (f : Failure) (attempt delay next : ℕ)
        → after_failure o t before f attempt ≡ wait delay next
        → is_runtime_policy_recovery_signal f ≡ false
    unfolding after_failure
    after_failure-wait t before f attempt delay next h = ground arith

    take_turn-IsReason :
        (t : Turn A) (attempt : ℕ) (e : Ending A) → take_turn o t attempt ≡ ends e → IsReason t e
    unfolding take_turn
    take_turn-IsReason t attempt e h = elim (Bool-cases (is_stopped o t)) [
      | inl s ↦ let q : cancelled ≡ e = ground arith in rw (← q) (unfold IsReason in inl s)
      | inr n ↦ elim (Option-cases t.transport) [
        | inl q ↦
            let r : failed not_initialized ≡ e = ground arith in
            rw (← r) (unfold IsReason in (n, inl (refl, inl q)))
        | inr (before, q) ↦ elim (Ending-cases t.answer) [
          | inl (inl (a, r)) ↦
              let u : value a ≡ e = ground arith in rw (← u) (unfold IsReason in (n, r))
          | inl (inr r) ↦
              let u : cancelled ≡ e = ground arith in rw (← u) (unfold IsReason in inr r)
          | inr (f, r) ↦ elim (after_failure-ends t before f attempt e (ground arith)) [
            | inl (q', u) ↦ rw u (unfold IsReason in (n, inl (refl, inr q')))
            | inr (u, final) ↦ rw u (unfold IsReason in (n, inr (r, final)))
          ]
        ]
      ]
    ]

    take_turn-IsTransient :
        (t : Turn A) (attempt delay next : ℕ)
        → take_turn o t attempt ≡ wait delay next
        → IsTransient t
    unfolding take_turn IsTransient
    take_turn-IsTransient t attempt delay next h = elim (Ending-cases t.answer) [
      | inl q ↦ absurd (ground arith)
      | inr (f, q) ↦ elim (Option-cases t.transport) [
        | inl e ↦ absurd (ground arith)
        | inr (b, e) ↦ (f, q, after_failure-wait t b f attempt delay next (ground arith))
      ]
    ]

    retry_turns-ends :
        (fuel : ℕ) (turns : ℕ → Turn A) (attempt : ℕ) (e : Ending A) (delays : List ℕ)
        → retry_turns o fuel turns attempt ≡ some (e, delays)
        → IsReason (turns (length delays)) e × ((k : ℕ) → k < length delays → IsTransient (turns k))
    unfolding retry_turns
    retry_turns-ends zero turns attempt e delays h = absurd (ground arith)
    retry_turns-ends (suc fuel) turns attempt e delays h =
        elim (Step-cases (take_turn o (turns 0) attempt)) [
          | inl (e', q) ↦
              let same : e' ≡ e = ground arith in
              let none_yet : [] ≡ delays = ground arith in
              rw (← none_yet, ← same)
                (take_turn-IsReason (turns 0) attempt e' q, λ k l. absurd (omega arith))
          | inr (delay, next, q) ↦
              elim (Option-cases (retry_turns o fuel (λ k. turns (suc k)) next)) [
                | inl r ↦ absurd (ground arith)
                | inr ((e', rest), r) ↦
                    let same : e' ≡ e = ground arith in
                    let longer : delay ∷ rest ≡ delays = ground arith in
                    let (reason, before) =
                      retry_turns-ends fuel (λ k. turns (suc k)) next e' rest r in
                    rw (← longer, ← same)
                      (
                        reason,
                        below_suc (λ k. IsTransient (turns k)) (length rest)
                            (take_turn-IsTransient (turns 0) attempt delay next q) before,
                      )
              ]
        ]

    -- A run that returns made one delay for each turn whose call failed with no policy signal, and ends
    -- with the value of a call, with a cancellation, because the worker has no transport, or with an
    -- exception that is fatal, ends the assignment or comes at its deadline.
    pub retry_call-ends :
        (fuel : ℕ) (turns : ℕ → Turn A) (e : Ending A) (delays : List ℕ)
        → retry_call o fuel turns ≡ some (e, delays)
        → IsReason (turns (length delays)) e × ((k : ℕ) → k < length delays → IsTransient (turns k))
    unfolding retry_call
    retry_call-ends fuel turns = retry_turns-ends fuel turns 0
