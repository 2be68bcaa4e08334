-- ===== src/Store/File/Refines.antt =====
-- A `FileRuntimeStore` (src/openlinker/runtime/store.py) does to the records in memory what a
-- `MemoryRuntimeStore` does.
use openlinker_python.Prelude.{
  ◌≡◌, refl, ap, ◌∙◌, inl, inr, none, List, [], ◌∷◌, arith, text_eq, Bool, true, false,
}
use openlinker_python.Errors.{Error, Result, ok, err, Result-cases}
use openlinker_python.Exec.{Exec, pure, continue, checked, ◌>>=◌}
use openlinker_python.Store.Memory.{MemoryStore, memory_ready}
use openlinker_python.Store.State.{state_eq}
use openlinker_python.Store.File.{
  Device, FileStore, Outcome-cases, Stored, ready_unless, inherited, poisoning, poison_by,
  write_record, replace_file, remove_record, remove_records, change_memory,
}
use openlinker_python.Store.File.Keys.{RecordPath}

pub ready_unless-none : (m : MemoryStore) → ready_unless none m ≡ memory_ready m
unfolding ready_unless
ready_unless-none m = elim (Result-cases (memory_ready m)) [
  | inl (u, e) ↦ ground arith
  | inr (d, e) ↦ ground arith
]

-- The records in memory and the poison flag of a store.
abbrev pub IsSame : FileStore → FileStore → Type 0
IsSame s t = (t.memory ≡ s.memory) × (t.poisoned ≡ s.poisoned)

poison_by-memory : {A : Type 0} (r : Result A × FileStore) → (poison_by r).1.memory ≡ r.1.memory
poison_by-memory (ok a, s) = refl
poison_by-memory (err e, s) = refl

poison_by-ok :
    {A : Type 0} (r : Result A × FileStore)
    → (poison_by r).1.poisoned ≡ none
    → (a : A) × (r ≡ (ok a, (poison_by r).1))
poison_by-ok (ok a, s) h = (a, refl)
poison_by-ok (err e, s) h = absurd (ground arith)

pub poisoning-memory :
    {A : Type 0} (m : Exec FileStore A) (s : FileStore) → (poisoning m s).1.memory ≡ (m s).1.memory
unfolding poisoning
poisoning-memory m s = poison_by-memory (m s)

poisoning-ok :
    {A : Type 0} (m : Exec FileStore A) (s : FileStore)
    → (poisoning m s).1.poisoned ≡ none
    → (a : A) × (m s ≡ (ok a, (poisoning m s).1))
unfolding poisoning
poisoning-ok m s h = poison_by-ok (m s) h

-- a method of the base class, and then something that keeps the records in memory
pub inherited_then :
    {A B : Type 0} (method : (MemoryStore → Result (Unit {0})) → Exec MemoryStore A)
    (rest : A → Exec FileStore B) (s : FileStore)
    → ((a : A) (t : FileStore) → (rest a t).1.memory ≡ t.memory)
    → ((inherited method >>= rest) s).1.memory ≡ (method (ready_unless s.poisoned) s.memory).1
unfolding inherited
inherited_then method rest s keeps =
    elim (Result-cases (method (ready_unless s.poisoned) s.memory).0) [
      | inl (a, e) ↦ rw e (keeps a _)
      | inr (d, e) ↦ rw e refl
    ]

pub then_pure :
    {A B : Type 0} (m : Exec FileStore A) (f : A → B) (t : FileStore)
    → ((m >>= (λ a. pure (f a))) t).1 ≡ (m t).1
then_pure m f t = elim (Result-cases (m t).0) [ inl (a, e) ↦ rw e refl | inr (d, e) ↦ rw e refl ]

-- Something that keeps the records came to `r`, then they change, and what follows keeps them. When the
-- store is not poisoned after it, the change was made.
pub changed_then :
    {A B : Type 0} (r : Result A × FileStore) (g : MemoryStore → MemoryStore)
    (rest : Exec FileStore B) (s : FileStore)
    → r.1.memory ≡ s.memory
    → ((t : FileStore) → (rest t).1.memory ≡ t.memory)
    → (poison_by (continue r.0 (λ a. change_memory g >>= (λ b. rest)) r.1)).1.poisoned ≡ none
    → (poison_by (continue r.0 (λ a. change_memory g >>= (λ b. rest)) r.1)).1.memory ≡ g s.memory
changed_then (err d, t) g rest s same keeps h = absurd (ground arith)
changed_then (ok a, t) g rest s same keeps h =
    poison_by-memory (rest (record t { memory = g t.memory }))
    ∙ keeps (record t { memory = g t.memory })
    ∙ ap g same

-- A call of a file store and one of a memory store, where the first did not poison the store.
abbrev pub Refines : {A B : Type 0} → Result A × FileStore → Result B × MemoryStore → Type 0
Refines r q = r.1.poisoned ≡ none → r.1.memory ≡ q.1

pub continue-Refines :
    {A B C : Type 0} (r : Result A) (f : A → Exec FileStore B) (m : A → Exec MemoryStore C)
    (s : FileStore)
    → ((a : A) → Refines (f a s) (m a s.memory))
    → Refines (continue r f s) (continue r m s.memory)
continue-Refines (ok a) f m s each = each a
continue-Refines (err e) f m s each = λ h. refl

-- a check before it
guarded-Refines :
    {B C : Type 0} (b : Bool) (e : Error) (f : Exec FileStore B) (m : Exec MemoryStore C)
    (s : FileStore)
    → Refines (f s) (m s.memory)
    → Refines (checked b e f s) (checked b e m s.memory)
guarded-Refines true e f m s each = each
guarded-Refines false e f m s each = λ h. refl

-- removals behind others
pub removed_then :
    {A B : Type 0} (r : Result A × FileStore) (f : Exec FileStore B) (n : MemoryStore)
    → ((t : FileStore) → t.memory ≡ r.1.memory → Refines (poison_by (f t)) (ok tt, n))
    → Refines (poison_by (continue r.0 (λ a. f) r.1)) (ok tt, n)
removed_then (err d, t) f n each h = absurd (ground arith)
removed_then (ok a, t) f n each h = each t refl h

-- a check, removals and a change
module _ (s : FileStore) (b : Bool) (e : Error) (m : Exec FileStore (Unit {0}))
    (g : MemoryStore → MemoryStore) where
  pub changing-Refines :
      (m s).1.memory ≡ s.memory
      → Refines
          (checked b e (poisoning (m >>= (λ a. change_memory g))) s)
          (checked b e (λ n. (ok tt, g n)) s.memory)
  unfolding poisoning
  changing-Refines same =
      guarded-Refines b e (λ t. poison_by ((m >>= (λ a. change_memory g)) t)) (λ n. (ok tt, g n)) s
        (changed_then (m s) g (pure tt) s same (λ t. refl))

module _ (device : Device) where
  replace_file-IsSame :
      (path : RecordPath) (stored : Stored) (s : FileStore)
      → IsSame s (replace_file device path stored s).1
  unfolding replace_file
  replace_file-IsSame path stored s = elim (Outcome-cases (device.outcome s.clock)) [
    | inl e ↦ rw (e, replace_file) (refl, refl)
    | inr (inl e) ↦ rw (e, replace_file) (refl, refl)
    | inr (inr e) ↦ rw (e, replace_file) (refl, refl)
  ]

  pub write_record-IsSame :
      (path : RecordPath) (stored : Stored) (s : FileStore)
      → IsSame s (write_record device path stored s).1
  unfolding write_record
  write_record-IsSame path stored s = grind (arith, replace_file-IsSame path stored s)

  pub remove_record-IsSame :
      (path : RecordPath) (s : FileStore) → IsSame s (remove_record device path s).1
  unfolding remove_record
  remove_record-IsSame path s = elim (Outcome-cases (device.outcome s.clock)) [
    | inl e ↦ rw (e, remove_record) (refl, refl)
    | inr (inl e) ↦ rw (e, remove_record) (refl, refl)
    | inr (inr e) ↦ rw (e, remove_record) (refl, refl)
  ]

  pub remove_records-IsSame :
      (paths : List RecordPath) (s : FileStore) → IsSame s (remove_records device paths s).1
  unfolding remove_records
  remove_records-IsSame [] s = (refl, refl)
  remove_records-IsSame (q ∷ qs) s =
      grind (arith, remove_record-IsSame q s, remove_records-IsSame qs (remove_record device q s).1)
