-- ===== src/Worker/Policy/Once.antt =====
-- What gets out of `runtime_policy_recover_once` (src/openlinker/runtime/worker.py).
use openlinker_python.Prelude.{◌≡◌, refl, false, ◌⊎◌, inl, inr, arith, Bool-cases}
use openlinker_python.Worker.Policy.{
  Failure, policy_recovery, is_runtime_policy_recovery_signal, Reply, returned, raised, try_again,
  runtime_policy_recover_once,
}

Reply-cases :
    {A : Type 0} (r : Reply A) → ((a : A) × (r ≡ returned a)) ⊎ ((f : Failure) × (r ≡ raised f))
Reply-cases (returned a) = inl (a, refl)
Reply-cases (raised f) = inr (f, refl)

module _ {S A : Type 0} (operation : S → Reply A × S)
    (recover_policy : Failure → S → Reply (Unit {0}) × S) where
  try_again-no_signal :
      (s : S) (f : Failure)
      → (try_again operation recover_policy s).0 ≡ raised f
      → is_runtime_policy_recovery_signal f ≡ false
  unfolding try_again
  try_again-no_signal s f h = elim (Reply-cases (operation s).0) [
    | inl (a, e) ↦ absurd (ground arith)
    | inr (g, e) ↦ elim (Bool-cases (is_runtime_policy_recovery_signal g)) [
      | inl t ↦
          let same : policy_recovery ≡ f = ground arith in
          rw (← same) (unfold is_runtime_policy_recovery_signal in refl)
      | inr n ↦ ground arith
    ]
  ]

  -- Unless the discovery itself raises one, no policy signal gets out: where the operation raises a
  -- signal twice, the error of a failed recovery does, which is fatal and no signal.
  pub runtime_policy_recover_once-no_signal :
      ((g : Failure) (s : S) (e : Failure)
        → (recover_policy g s).0 ≡ raised e
        → is_runtime_policy_recovery_signal e ≡ false)
      → (s : S) (f : Failure)
      → (runtime_policy_recover_once operation recover_policy s).0 ≡ raised f
      → is_runtime_policy_recovery_signal f ≡ false
  unfolding runtime_policy_recover_once
  runtime_policy_recover_once-no_signal quiet s f h = elim (Reply-cases (operation s).0) [
    | inl (a, e) ↦ absurd (ground arith)
    | inr (g, e) ↦ elim (Bool-cases (is_runtime_policy_recovery_signal g)) [
      | inr n ↦ ground arith
      | inl t ↦
          let u = (operation s).1 in
          elim (Reply-cases (recover_policy g u).0) [
            | inr (x, q) ↦ ground (arith, quiet g u f)
            | inl (x, q) ↦ try_again-no_signal (recover_policy g u).1 f (ground arith)
          ]
    ]
  ]
