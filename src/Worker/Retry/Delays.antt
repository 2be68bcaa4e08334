-- ===== src/Worker/Retry/Delays.antt =====
-- The delays of `_retry_call` of src/openlinker/runtime/worker.py.
use openlinker_python.Prelude.{
  ℕ, zero, suc, ◌*◌, ◌^◌, ◌≤◌, ◌≡◌, inl, inr, true, false, List, [], ◌∷◌, some, arith, All,
  Option-cases,
}
use openlinker_python.Worker.Retry.{
  Ending, Turn, RetryOptions, wait, take_turn, retry_turns, retry_call, after_failure, retry_delay,
  lesser, switches,
}
use openlinker_python.Worker.Policy.{Failure}
use openlinker_python.Worker.Retry.Ends.{Step-cases, Ending-cases}

-- what `random.uniform` promises
abbrev pub IsDraw : (ℕ → ℕ → ℕ) → Type 0
IsDraw uniform = (a b : ℕ) → a ≤ b → (a ≤ uniform a b) × (uniform a b ≤ b)

power_pos : (n : ℕ) → 1 ≤ 2 ^ n
power_pos zero = omega arith
power_pos (suc n) = let ih = power_pos n in omega arith

times_pos : (a b : ℕ) → 1 ≤ b → a ≤ a * b
times_pos zero b h = omega arith
times_pos (suc a) b h = let ih = times_pos a b h in omega arith

-- from a fifth below the least delay up to a fifth above the greatest, in tenths of their unit
abbrev pub IsDelay : ℕ → ℕ → ℕ → Type 0
IsDelay lowest highest d = (lowest * 8 ≤ d) × (d ≤ highest * 12)

-- What a turn finds of the worker's delays and of `random.uniform`.
pub record IsBounded {A : Type 0} (lowest highest : ℕ) (t : Turn A) : Type 0 where
  pub draws : IsDraw t.uniform
  pub above : lowest ≤ t.retry_minimum
  pub ordered : t.retry_minimum ≤ t.retry_maximum
  pub below : t.retry_maximum ≤ highest

retry_delay-IsDelay :
    (minimum maximum : ℕ) (uniform : ℕ → ℕ → ℕ) (attempt : ℕ)
    → minimum ≤ maximum
    → IsDraw uniform
    → IsDelay minimum maximum (retry_delay minimum maximum uniform attempt)
unfolding retry_delay
retry_delay-IsDelay minimum maximum uniform attempt ordered draw =
    let p = times_pos minimum (2 ^ lesser attempt 16) (power_pos (lesser attempt 16)) in
    let delay = lesser maximum (minimum * 2 ^ lesser attempt 16) in
    let least : minimum ≤ delay = ground arith in
    let most : delay ≤ maximum = ground arith in
    let (low, high) = draw (delay * 8) (delay * 12) (omega arith) in (omega arith, omega arith)

module _ (o : RetryOptions) (lowest highest : ℕ) where
  after_failure-IsDelay :
      {A : Type 0} (t : Turn A) (before : ℕ) (f : Failure) (attempt d next : ℕ)
      → IsBounded lowest highest t
      → after_failure o t before f attempt ≡ wait d next
      → IsDelay lowest highest d
  unfolding after_failure
  after_failure-IsDelay t before f attempt d next b h =
      let (low, high) =
        retry_delay-IsDelay t.retry_minimum t.retry_maximum t.uniform attempt b.ordered b.draws in
      let above = b.above in
      let below = b.below in
      let ordered = b.ordered in
      elim (Option-cases (switches o t before)) [
        | inl q ↦ absurd (ground arith)
        | inr (true, q) ↦
            let e : t.retry_minimum * 10 ≡ d = ground arith in (omega arith, omega arith)
        | inr (false, q) ↦
            let e : retry_delay t.retry_minimum t.retry_maximum t.uniform attempt ≡ d =
              ground arith in
            (omega arith, omega arith)
      ]

  take_turn-IsDelay :
      {A : Type 0} (t : Turn A) (attempt d next : ℕ)
      → IsBounded lowest highest t
      → take_turn o t attempt ≡ wait d next
      → IsDelay lowest highest d
  unfolding take_turn
  take_turn-IsDelay t attempt d next draw h = elim (Ending-cases t.answer) [
    | inl q ↦ absurd (ground arith)
    | inr (f, q) ↦ elim (Option-cases t.transport) [
      | inl e ↦ absurd (ground arith)
      | inr (b, e) ↦ after_failure-IsDelay t b f attempt d next draw (ground arith)
    ]
  ]

  retry_turns-IsDelay :
      {A : Type 0} (fuel : ℕ) (turns : ℕ → Turn A) (attempt : ℕ) (e : Ending A) (delays : List ℕ)
      → ((k : ℕ) → IsBounded lowest highest (turns k))
      → retry_turns o fuel turns attempt ≡ some (e, delays)
      → All (IsDelay lowest highest) delays
  unfolding retry_turns
  retry_turns-IsDelay zero turns attempt e delays draws h = absurd (ground arith)
  retry_turns-IsDelay (suc fuel) turns attempt e delays draws h =
      elim (Step-cases (take_turn o (turns 0) attempt)) [
        | inl (e', q) ↦ let none_yet : [] ≡ delays = ground arith in rw (← none_yet) tt
        | inr (delay, next, q) ↦
            elim (Option-cases (retry_turns o fuel (λ k. turns (suc k)) next)) [
              | inl r ↦ absurd (ground arith)
              | inr ((e', rest), r) ↦
                  let longer : delay ∷ rest ≡ delays = ground arith in
                  rw (← longer) (
                    take_turn-IsDelay (turns 0) attempt delay next (draws 0) q,
                    retry_turns-IsDelay fuel (λ k. turns (suc k)) next e' rest (λ k. draws (suc k))
                        r,
                  )
            ]
      ]

-- Where `random.uniform` draws between its bounds and every turn finds a least delay of the worker that is
-- at least `lowest` and at most the greatest one, and that one at most `highest`, no delay is more than a
-- fifth below the first or more than a fifth above the second.
pub retry_call-IsDelay :
    (o : RetryOptions) (lowest highest : ℕ) {A : Type 0} (fuel : ℕ) (turns : ℕ → Turn A)
    (e : Ending A) (delays : List ℕ)
    → ((k : ℕ) → IsBounded lowest highest (turns k))
    → retry_call o fuel turns ≡ some (e, delays)
    → All (IsDelay lowest highest) delays
unfolding retry_call
retry_call-IsDelay o lowest highest fuel turns e delays draws =
    retry_turns-IsDelay o lowest highest fuel turns 0 e delays draws
