-- ===== src/Store/File.antt =====
-- `FileRuntimeStore` of src/openlinker/runtime/store.py: a memory store whose records are files too.
-- The disk is a dict of the records in the data directory; what encryption and JSON make of a
-- record is only a number of bytes. A write or a removal that raises poisons the store.
pub mod Methods
pub mod Keys
pub mod Reach
pub mod Ready
pub mod Sizes
pub mod Capacity
pub mod Bounded
pub mod Refines
pub mod Mirror
pub mod Mirrored
mod Examples
use openlinker_python.Prelude.{
  ℕ, zero, suc, ◌+◌, ◌-◌, Bool, true, false, not, ◌&&◌, List, [], ◌∷◌, ltb, leb, text_eq, ◌==◌,
  if◌then◌else◌, Text, Option, none, some, length, Eq, ◌↔◌, ◌≡◌, ◌⊎◌, inl, inr, refl,
}
use openlinker_python.Dict.{Dict, get, set_item, pop}
use openlinker_python.Errors.{
  Error, Result, ok, err, store_poisoned, byte_limit, record_limit, space_reserve, space_unknown,
  io_failure, invalid_value, require, ◌>>◌ as then_ok,
}
use openlinker_python.Exec.{Exec, pure, read, checked, ◌>>=◌}
use openlinker_python.Store.Records.{AssignmentRecord, EventRecord, ResultRecord, message_id_of}
use openlinker_python.Store.Memory.{MemoryStore, memory_ready}
use Keys.{RecordPath, assignment_path, path_eq}

-- what `_write_record` encrypts
pub data Stored : Type 0 where
  an_assignment : AssignmentRecord → Stored
  an_event : EventRecord → Stored
  a_result : ResultRecord → Stored

-- How a write or a removal ends: it raises before the file changed, or after it.
pub data Outcome : Type 0 where
  done fails fails_late : Outcome

pub Outcome-cases : (o : Outcome) → (o ≡ done) ⊎ (o ≡ fails) ⊎ (o ≡ fails_late)
Outcome-cases done = inl refl
Outcome-cases fails = inr (inl refl)
Outcome-cases fails_late = inr (inr refl)

-- The disk: the length of a record and that of its envelope, and what happens at each use.
pub record Device : Type 0 where
  pub envelope_size : Stored → ℕ
  -- the length of the JSON text that is encrypted
  pub plaintext_size : Stored → ℕ
  pub outcome : ℕ → Outcome
  pub free_space : ℕ → Option ℕ
  -- `int(n * _ADMISSION_RATIO)`
  pub admission : ℕ → ℕ

pub record FileStore : Type 0 where
  pub memory : MemoryStore
  pub max_bytes : ℕ
  pub max_records : ℕ
  pub reserve_bytes : ℕ
  pub file_sizes : Dict RecordPath ℕ
  pub disk : Dict RecordPath Stored
  pub poisoned : Option Error
  -- the uses of the disk so far
  pub clock : ℕ

-- the check of the limits in `__init__`
unfoldable pub valid_limits : ℕ → ℕ → ℕ → Bool
valid_limits max_bytes max_records reserve_bytes =
    ltb 0 max_bytes && ltb 0 max_records && ltb reserve_bytes max_bytes

-- `_ready`, for the poison flag
unfoldable pub ready_unless : Option Error → MemoryStore → Result (Unit {0})
ready_unless flag m =
    then_ok (memory_ready m) (elim flag [ none ↦ ok tt | some e ↦ err store_poisoned ])

abbrev pub file_ready : FileStore → Result (Unit {0})
file_ready s = ready_unless s.poisoned s.memory

-- `wire_json_bytes`, by the length of the text: the limit is `RUNTIME_MAX_MESSAGE_BYTES`, 4 MiB
unfoldable pub wire_json_bytes : ℕ → Result (Unit {0})
wire_json_bytes size = require (leb size 4194304) invalid_value

-- `sum(self._file_sizes.values())`
unfoldable pub used_bytes : Dict RecordPath ℕ → ℕ
used_bytes [] = 0
used_bytes ((p, n) ∷ d) = n + used_bytes d

-- `self._file_sizes.get(path, 0)`
abbrev pub size_at : Dict RecordPath ℕ → RecordPath → ℕ
size_at d p = elim (get d p) [ none ↦ 0 | some n ↦ n ]

-- A method of the base class.
unfoldable pub inherited :
    {A : Type 0} → ((MemoryStore → Result (Unit {0})) → Exec MemoryStore A) → Exec FileStore A
inherited method s =
    let (r, m) = method (ready_unless s.poisoned) s.memory in (r, record s { memory = m })

-- `except Exception as exc: self._poison(exc); raise`
abbrev pub poison_by : {A : Type 0} → Result A × FileStore → Result A × FileStore
poison_by (ok a, s) = (ok a, s)
poison_by (err e, s) = (err e, record s { poisoned = some e })

unfoldable pub poisoning : {A : Type 0} → Exec FileStore A → Exec FileStore A
poisoning m s = poison_by (m s)

abbrev pub change_memory : (MemoryStore → MemoryStore) → Exec FileStore (Unit {0})
change_memory f s = (ok tt, record s { memory = f s.memory })

module _ (device : Device) where
  -- `_ensure_capacity`
  unfoldable pub ensure_capacity : FileStore → ℕ → ℕ → Result (Unit {0})
  ensure_capacity s additional_bytes additional_records =
      then_ok (require (leb (used_bytes s.file_sizes + additional_bytes) s.max_bytes) byte_limit) (
        then_ok
          (require (leb (length s.file_sizes + additional_records) s.max_records) record_limit)
          (elim (device.free_space s.clock) [
            | none ↦ err space_unknown
            | some free ↦ require (leb (s.reserve_bytes + additional_bytes) free) space_reserve
          ]))

  -- `_atomic_write`, and the size that is noted after it
  unfoldable pub replace_file : RecordPath → Stored → Exec FileStore (Unit {0})
  replace_file path stored s = elim (device.outcome s.clock) [
    | done ↦ (
      ok tt,
      record s {
        disk = set_item s.disk path stored;
        file_sizes = set_item s.file_sizes path (device.envelope_size stored);
        clock = s.clock + 1;
      },
    )
    | fails ↦ (err io_failure, record s { clock = s.clock + 1 })
    | fails_late ↦
        (err io_failure, record s { disk = set_item s.disk path stored; clock = s.clock + 1 })
  ]

  unfoldable pub write_record : RecordPath → Stored → Exec FileStore (Unit {0})
  write_record path stored = do
    _ ← read file_ready
    _ ← read (λ s. wire_json_bytes (device.plaintext_size stored))
    _ ← read (λ s. wire_json_bytes (device.envelope_size stored))
    _ ← read (λ s.
        let previous = size_at s.file_sizes path in
        ensure_capacity s (device.envelope_size stored - previous)
          (elim (get s.file_sizes path) [ none ↦ 1 | some n ↦ 0 ]))
    replace_file path stored

  -- `_remove_record`
  unfoldable pub remove_record : RecordPath → Exec FileStore (Unit {0})
  remove_record path s =
      let gone : FileStore = record s {
        disk = pop s.disk path;
        file_sizes = pop s.file_sizes path;
        clock = s.clock + 1;
      } in
      elim (device.outcome s.clock) [
        | done ↦ (ok tt, gone)
        | fails ↦ (err io_failure, record s { clock = s.clock + 1 })
        | fails_late ↦ (err io_failure, gone)
      ]

  unfoldable pub persist_assignment : AssignmentRecord → Exec FileStore (Unit {0})
  persist_assignment r = write_record (assignment_path (message_id_of r)) (an_assignment r)

  -- the loop of removals
  unfoldable pub remove_records : List RecordPath → Exec FileStore (Unit {0})
  remove_records [] = pure tt
  remove_records (p ∷ ps) = do _ ← remove_record p; remove_records ps

  unfoldable pub accepts_new_runs : FileStore → Bool
  accepts_new_runs s =
      let room : Bool = elim (device.free_space s.clock) [
        | none ↦ false
        | some free ↦
            ltb (used_bytes s.file_sizes) (device.admission s.max_bytes)
            && ltb (length s.file_sizes) (device.admission s.max_records)
            && ltb s.reserve_bytes free
      ] in
      elim s.poisoned [ some e ↦ false | none ↦ not s.memory.closed && room ]
