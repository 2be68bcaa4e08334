-- ===== src/Worker/Keeps.antt =====
-- What the handlers of a worker (src/openlinker/runtime/worker.py) keep, for any predicate on workers that
-- their smallest changes keep.
pub mod Taking
pub mod Sending
pub mod Resuming
pub mod Finishing
use openlinker_python.Prelude.{
  ℕ, ◌≡◌, refl, Bool, true, false, List, Text, Option, none, some, if◌then◌else◌, arith, inl, inr,
}
use openlinker_python.Dict.{Dict}
use openlinker_python.Platform.{Platform}
use openlinker_python.Errors.{Error, Result, ok, err}
use openlinker_python.Exec.{Exec, pure, raise, read, checked, continue}
use openlinker_python.Worker.Run.{◌>>=◌}
use openlinker_python.Store.State.{State}
use openlinker_python.Store.Records.{AssignmentRecord}
use openlinker_python.Store.Memory.{MemoryStore, memory_ready}
use openlinker_python.Store.Invariant.{IsConsistent}
use openlinker_python.Store.Preserves.Assignments.{
  advance_assignment-IsConsistent, delete_assignment-IsConsistent,
}
use openlinker_python.Store.Preserves.Results.{
  ack_result-IsConsistent, clear_terminal_events-IsConsistent, discard_terminal_spool-IsConsistent,
}
use openlinker_python.Store.Methods as store
use openlinker_python.Worker.Attempts.{
  Worker, on_store, change, add_terminal, cancel_active, set_lease, await, remove_active_attempt,
  start_confirmed_attempt,
}

-- A predicate that holds after each change that a handler makes, when it held before. A change of the
-- store keeps the store consistent.
pub record IsKept ⦃p : Platform⦄ (P : Worker → Type 0) : Type 0 where
  pub stored :
      (w : Worker) (s : MemoryStore)
      → (IsConsistent w.store → IsConsistent s)
      → P w
      → P (record w { store = s })
  pub permitted :
      (w : Worker) (d : Dict Text (Bool × Bool)) → P w → P (record w { spool_permissions = d })
  pub noted : (w : Worker) (ks : List (Text × Text)) → P w → P (record w { cancellations = ks })
  pub drained : (w : Worker) → P w → P (record w { draining = true })
  pub ended : (w : Worker) (a : Text) → P w → P (add_terminal a w)
  pub cancelled : (w : Worker) (a : Text) → P w → P (cancel_active a w)
  pub removed : (w : Worker) (a : Text) → P w → P (remove_active_attempt a w)
  pub leased : (w : Worker) (a : Text) (t : Option ℕ) → P w → P (set_lease a t w)
  pub started :
      (w : Worker) (r : AssignmentRecord) (t : Option ℕ) (now : ℕ)
      → P w
      → P (start_confirmed_attempt r t now w).1

-- A method keeps a predicate, whether it returns or raises.
unfoldable pub Keeps : {A : Type 0} → (Worker → Type 0) → Exec Worker A → Type 0
Keeps P m = (w : Worker) → P w → P (m w).1

module _ (P : Worker → Type 0) where
  pub kept : {A : Type 0} (m : Exec Worker A) → Keeps P m → (w : Worker) → P w → P (m w).1
  unfolding Keeps
  kept m h = h

  pub change-Keeps : (f : Worker → Worker) → ((w : Worker) → P w → P (f w)) → Keeps P (change f)
  unfolding Keeps
  change-Keeps f h w x = h w x

  pub pure-Keeps : {A : Type 0} (a : A) → Keeps P (pure a)
  unfolding Keeps
  pure-Keeps a w x = x

  pub raise-Keeps : (A : Type 0) (e : Error) → Keeps P (raise {A = A} e)
  unfolding Keeps
  raise-Keeps A e w x = x

  pub read-Keeps : {A : Type 0} (f : Worker → Result A) → Keeps P (read f)
  unfolding Keeps
  read-Keeps f w x = x

  pub await-Keeps :
      {A : Type 0} (f : Worker → Worker) (q : Result A)
      → ((w : Worker) → P w → P (f w))
      → Keeps P (await f q)
  unfolding Keeps
  await-Keeps f q h w x = h w x

  continue-Keeps :
      {A B : Type 0} (f : A → Exec Worker B)
      → ((a : A) → Keeps P (f a))
      → (q : Result A) → Keeps P (continue q f)
  unfolding Keeps
  continue-Keeps f hf (ok a) w x = hf a w x
  continue-Keeps f hf (err e) w x = x

  pub bind-Keeps :
      {A B : Type 0} (m : Exec Worker A) (f : A → Exec Worker B)
      → Keeps P m
      → ((a : A) → Keeps P (f a))
      → Keeps P (m >>= f)
  unfolding ◌>>=◌ Keeps
  bind-Keeps m f hm hf w x = continue-Keeps f hf (m w).0 (m w).1 (hm w x)

  pub if-Keeps :
      {A : Type 0} (b : Bool) (m n : Exec Worker A)
      → Keeps P m
      → Keeps P n
      → Keeps P (if b then m else n)
  if-Keeps true m n hm hn = hm
  if-Keeps false m n hm hn = hn

  pub checked-Keeps :
      {A : Type 0} (b : Bool) (e : Error) (m : Exec Worker A) → Keeps P m → Keeps P (checked b e m)
  checked-Keeps true e m hm = hm
  checked-Keeps false e m hm = raise-Keeps _ e

  pub option-Keeps :
      {A B : Type 0} (o : Option A) (m : Exec Worker B) (f : A → Exec Worker B)
      → Keeps P m
      → ((a : A) → Keeps P (f a))
      → Keeps P (elim o [ none ↦ m | some a ↦ f a ])
  option-Keeps none m f hm hf = hm
  option-Keeps (some a) m f hm hf = hf a

  pub result-Keeps :
      {A B : Type 0} (q : Result A) (m : Error → Exec Worker B) (f : A → Exec Worker B)
      → ((e : Error) → Keeps P (m e))
      → ((a : A) → Keeps P (f a))
      → Keeps P (elim q [ err e ↦ m e | ok a ↦ f a ])
  result-Keeps (ok a) m f hm hf = hf a
  result-Keeps (err e) m f hm hf = hm e

module _ ⦃p : Platform⦄ (P : Worker → Type 0) (k : IsKept P) where
  pub advance-Keeps :
      (m : Text) (q : State) (now : ℕ)
      → Keeps P (on_store (store.advance_assignment memory_ready m q now))
  unfolding Keeps
  advance-Keeps m q now w x =
      k.stored w _ (λ v. advance_assignment-IsConsistent memory_ready w.store v m q now) x

  pub delete-Keeps : (m : Text) → Keeps P (on_store (store.delete_assignment memory_ready m))
  unfolding Keeps
  delete-Keeps m w x = k.stored w _ (λ v. delete_assignment-IsConsistent memory_ready w.store v m) x

  pub ack_result-Keeps :
      (a id : Text) (now : ℕ) → Keeps P (on_store (store.ack_result memory_ready a id now))
  unfolding Keeps
  ack_result-Keeps a id now w x =
      k.stored w _ (λ v. ack_result-IsConsistent memory_ready w.store v a id now) x

  pub clear-Keeps : (a : Text) → Keeps P (on_store (store.clear_terminal_events memory_ready a))
  unfolding Keeps
  clear-Keeps a w x =
      k.stored w _ (λ v. clear_terminal_events-IsConsistent memory_ready w.store v a) x

  pub discard-Keeps : (a : Text) → Keeps P (on_store (store.discard_terminal_spool memory_ready a))
  unfolding Keeps
  discard-Keeps a w x =
      k.stored w _ (λ v. discard_terminal_spool-IsConsistent memory_ready w.store v a) x
