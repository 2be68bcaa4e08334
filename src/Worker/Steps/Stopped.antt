-- ===== src/Worker/Steps/Stopped.antt =====
-- The end of an Attempt for a worker (src/openlinker/runtime/worker.py): what is terminal stays so, and its
-- handler is not started again.
use openlinker_python.Prelude.{
  ℕ, ◌≡◌, true, false, Text, text_eq, Option, some, contains, arith, inl, inr, Option-cases,
}
use openlinker_python.Dict.{get, get-set_item, get-pop}
use openlinker_python.Platform.{Platform}
use openlinker_python.Errors.{Result-cases}
use openlinker_python.Store.State.{started, state_eq}
use openlinker_python.Store.Records.{AssignmentRecord, attempt_id_of, message_id_of}
use openlinker_python.Store.Memory.{memory_ready}
use openlinker_python.Store.Methods as store
use openlinker_python.Worker.Run.{◌>>=◌}
use openlinker_python.Worker.Attempts.{
  ActiveAttempt, Worker, add_terminal, cancel_active, set_lease, remove_active_attempt,
  start_confirmed_attempt,
}
use openlinker_python.Worker.Keeps.{IsKept}
use openlinker_python.Worker.Steps.{Steps, after_all, after_all-kept}

-- The Attempt is terminal, and its handler, if it is active still, is told to stop.
pub record IsStopped (a : Text) (w : Worker) : Type 0 where
  pub terminal : contains w.terminal_attempts a ≡ true
  pub told : (x : ActiveAttempt) → get w.active a ≡ some x → x.cancelled ≡ true

module _ (a : Text) where
  add_terminal-IsStopped : (w : Worker) (b : Text) → IsStopped a w → IsStopped a (add_terminal b w)
  unfolding contains
  add_terminal-IsStopped w b h = record { terminal = ground (arith, h.terminal); told = h.told }

  cancel_active-IsStopped :
      (w : Worker) (b : Text) → IsStopped a w → IsStopped a (cancel_active b w)
  cancel_active-IsStopped w b h = elim (Option-cases (get w.active b)) [
    | inl e ↦ rw (e, cancel_active) h
    | inr (y, e) ↦
        rw (e, cancel_active)
          (record {
            terminal = h.terminal;
            told = λ x g.
                ground (arith, get-set_item w.active b a (record y { cancelled = true }), h.told x);
          })
  ]

  set_lease-IsStopped :
      (w : Worker) (b : Text) (t : Option ℕ) → IsStopped a w → IsStopped a (set_lease b t w)
  set_lease-IsStopped w b t h = elim (Option-cases (get w.active b)) [
    | inl e ↦ rw (e, set_lease) h
    | inr (y, e) ↦
        rw (e, set_lease)
          (record {
            terminal = h.terminal;
            told = λ x g. ground (
              arith,
              get-set_item w.active b a (record y { lease_expires_at = t }),
              text_eq.same_iff b a,
              h.told x,
              h.told y,
            );
          })
  ]

  remove-IsStopped :
      (w : Worker) (b : Text) → IsStopped a w → IsStopped a (remove_active_attempt b w)
  unfolding remove_active_attempt
  remove-IsStopped w b h = record {
    terminal = h.terminal;
    told = λ x g. ground (arith, get-pop w.active b a, h.told x);
  }

module _ ⦃p : Platform⦄ (a : Text) where
  start-IsStopped :
      (w : Worker) (r : AssignmentRecord) (t : Option ℕ) (now : ℕ)
      → IsStopped a w
      → IsStopped a (start_confirmed_attempt r t now w).1
  unfolding ◌>>=◌ start_confirmed_attempt
  start-IsStopped w r t now h = record {
    terminal = ground (arith, h.terminal);
    told = λ x g.
        let moved =
          (store.advance_assignment memory_ready (message_id_of r) started now w.store).0 in
        elim (Result-cases moved) [
          | inr (e, q) ↦ ground (arith, h.terminal, h.told x)
          | inl (y, q) ↦ ground (
            arith,
            h.terminal,
            h.told x,
            text_eq.same_iff (attempt_id_of r) a,
            get-set_item w.active (attempt_id_of r) a
                (record { assignment = y; cancelled = false; lease_expires_at = t }),
          )
        ];
  }

  IsStopped-IsKept : IsKept (IsStopped a)
  IsStopped-IsKept = record {
    stored = λ w s f h. record { terminal = h.terminal; told = h.told };
    permitted = λ w d h. record { terminal = h.terminal; told = h.told };
    noted = λ w ks h. record { terminal = h.terminal; told = h.told };
    drained = λ w h. record { terminal = h.terminal; told = h.told };
    ended = add_terminal-IsStopped a;
    cancelled = cancel_active-IsStopped a;
    removed = remove-IsStopped a;
    leased = set_lease-IsStopped a;
    started = start-IsStopped;
  }

  -- Once an Attempt is terminal for a worker and its handler, where it runs, is told to stop, this stays
  -- so, whatever the platform answers and commands and in whatever order the tasks make their steps:
  -- no offer, no resumption and no command starts its handler again.
  pub after_all-IsStopped : (ss : Steps) (w : Worker) → IsStopped a w → IsStopped a (after_all ss w)
  after_all-IsStopped = after_all-kept (IsStopped a) IsStopped-IsKept
